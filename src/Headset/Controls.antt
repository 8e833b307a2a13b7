-- ===== src/Headset/Controls.antt =====
-- The controllers and the settings panel: TelepresenceProgram::HandleControllers of
-- VR_App/src/program.cpp, and render_settings_gui of VR_App/src/render_imgui.cpp as far as it changes
-- GUIControl (VR_App/include/types/app_state.h). The ray of the right controller, which is geometry,
-- moves only the panel and is left out. An access out of range, and a call that throws, give `none`.
use but_telepresence.Prelude.{
  ℕ, ◌-◌, Bool, true, false, not, ◌&&◌, ◌==◌, Option, none, some, List, ◌∷◌, if◌then◌else◌,
}
use but_telepresence.Prelude.Int.{ℤ, pos, negsuc}
use but_telepresence.Headset.Config.{StreamingConfig}
use but_telepresence.Headset.Rest.{Reply}
use but_telepresence.Headset.Receiver.{Decoder}
use but_telepresence.Headset.Settings.{Applied, apply}
use but_telepresence.Headset.Storage.{AppState}
use but_telepresence.Headset.Table.{
  FloatArithmetic, Row, GuiSettingType, setting_type, setting_at, on_increment, on_decrement,
}

pub record GuiControl : Type 0 where
  pub focus_move_up : Bool
  pub focus_move_down : Bool
  pub focus_move_left : Bool
  pub focus_move_right : Bool
  pub focused_element : ℤ
  pub focused_segment : ℤ
  pub changes_enqueued : Bool
  pub cooldown : ℕ
  pub pending_activation : ℤ

unfoldable pub initial_gui : GuiControl
initial_gui = record {
  focus_move_up = false;
  focus_move_down = false;
  focus_move_left = false;
  focus_move_right = false;
  focused_element = pos 0;
  focused_segment = pos 0;
  changes_enqueued = false;
  cooldown = 0;
  pending_activation = negsuc 0;
}

-- What HandleControllers reads of UserState, after the comparisons with the thresholds, whether the
-- sender of the robot control is initialized, and what the camera server answers to an Apply and
-- GStreamer does with its pipelines.
pub record Input : Type 0 where
  pub thumbstick_pressed_left : Bool
  pub thumbstick_pressed_right : Bool
  pub stick_up : Bool
  pub stick_down : Bool
  pub stick_left : Bool
  pub stick_right : Bool
  pub y_pressed : Bool
  pub x_pressed : Bool
  pub trigger_left : Bool
  pub sender_is_initialized : Bool
  pub reply : Reply
  pub decoder : Decoder
  pub deferred_reply : Reply
  pub deferred_decoder : Decoder

-- What leaves the program: sendRobotControl with zeros, SaveAppState, UpdateStreamingConfig.
pub data Effect {ℓ} (F : Type ℓ) : Type ℓ where
  stop_robot : Effect F
  save : AppState F → Effect F
  push : StreamingConfig → Effect F

-- The effects, the latest first.
pub record Program {ℓ} (F : Type ℓ) : Type ℓ where
  pub app_state : AppState F
  pub applied : Applied
  pub gui_control : GuiControl
  pub render_gui : Bool
  pub control_lock_movement : Bool
  pub control_lock_gui : Bool
  pub effects : List (Effect F)

abbrev pub is_button : GuiSettingType → Bool
is_button GuiSettingType.button = true
is_button _ = false

module _ {ℓ} {F : Type ℓ} where
  abbrev pub with_applied : Program F → Option Applied → Option (Program F)
  with_applied p none = none
  with_applied p (some a) = some (record p {
    applied = a;
    effects = push p.app_state.streaming_config ∷ save p.app_state ∷ p.effects;
  })

  -- onActivate, which only Apply has.
  unfoldable pub on_activate : Row → Decoder → Reply → Program F → Option (Program F)
  on_activate Row.apply_button d reply p =
      with_applied p (apply d reply p.app_state.streaming_config p.applied)
  on_activate _ d reply p = some p

  abbrev pub activate_at : Option Row → Decoder → Reply → Program F → Option (Program F)
  activate_at none d reply p = some p
  activate_at (some r) d reply p =
      on_activate r d reply
        (record p { gui_control = record p.gui_control { pending_activation = negsuc 0 } })

  -- An index that is negative or not below the size is left alone.
  unfoldable pub activate_pending : Input → Program F → Option (Program F)
  activate_pending i p =
      activate_at (setting_at p.gui_control.pending_activation) i.deferred_decoder i.deferred_reply
        p

  unfoldable pub toggle_movement : Input → Program F → Program F
  toggle_movement i p =
      if i.thumbstick_pressed_right && not p.control_lock_movement
      then (let enabled = not p.app_state.robot_control_enabled in
          record p {
            app_state = record p.app_state { robot_control_enabled = enabled };
            effects =
                if not enabled && i.sender_is_initialized
                then stop_robot ∷ p.effects
                else p.effects;
            control_lock_movement = true;
          })
      else p

  abbrev pub release_movement : Input → Program F → Program F
  release_movement i p =
      if not i.thumbstick_pressed_right && p.control_lock_movement
      then record p { control_lock_movement = false }
      else p

  unfoldable pub toggle_gui : Input → Program F → Program F
  toggle_gui i p =
      if i.thumbstick_pressed_left && not p.control_lock_gui
      then (let shown = not p.render_gui in
          record p {
            render_gui = shown;
            effects = if not shown then save p.app_state ∷ p.effects else p.effects;
            control_lock_gui = true;
          })
      else p

  abbrev pub release_gui : Input → Program F → Program F
  release_gui i p =
      if not i.thumbstick_pressed_left && p.control_lock_gui
      then record p { control_lock_gui = false }
      else p

  unfoldable pub cool_down : Program F → Program F
  cool_down p = record p {
    gui_control = record p.gui_control { cooldown = p.gui_control.cooldown - 1 };
  }

  abbrev pub enqueue : (GuiControl → GuiControl) → Program F → Program F
  enqueue f p = record p { gui_control = record (f p.gui_control) { changes_enqueued = true } }

  -- A click on the focused row; its result takes the place of the state.
  abbrev pub changed : Program F → Option (AppState F) → Option (Program F)
  changed p none = none
  changed p (some a) = some (enqueue (λ g. g) (record p { app_state = a }))

  abbrev pub on_focused : (Row → Option (Program F)) → Program F → Option (Program F)
  on_focused f p = elim (setting_at p.gui_control.focused_element) [ none ↦ none | some r ↦ f r ]

  abbrev pub enqueued : Option (Program F) → Option (Program F)
  enqueued none = none
  enqueued (some p) = some (enqueue (λ g. g) p)

  abbrev pub activated : Input → Program F → Row → Option (Program F)
  activated i p r =
      if is_button (setting_type r) then enqueued (on_activate r i.decoder i.reply p) else some p

  unfoldable pub interact : FloatArithmetic F → Input → Program F → Option (Program F)
  interact fl i p =
      if i.stick_up
      then some (enqueue (λ g. record g { focus_move_up = true }) p)
      else if i.stick_down
      then some (enqueue (λ g. record g { focus_move_down = true }) p)
      else if i.stick_left
      then some (enqueue (λ g. record g { focus_move_left = true }) p)
      else if i.stick_right
      then some (enqueue (λ g. record g { focus_move_right = true }) p)
      else if i.y_pressed
      then on_focused (λ r. changed p (on_increment fl r p.gui_control.focused_segment p.app_state))
          p
      else if i.x_pressed
      then on_focused (λ r. changed p (on_decrement fl r p.gui_control.focused_segment p.app_state))
          p
      else if i.trigger_left
      then on_focused (activated i p) p
      else some p

  abbrev pub accepts : Program F → Bool
  accepts p = p.render_gui && not p.gui_control.changes_enqueued && p.gui_control.cooldown == 0

  -- The two thumbstick buttons.
  abbrev pub buttons : Input → Program F → Program F
  buttons i p = release_gui i (toggle_gui i (release_movement i (toggle_movement i p)))

  unfoldable pub handle_controllers : FloatArithmetic F → Input → Program F → Option (Program F)
  unfolding cool_down
  handle_controllers fl i p = elim (activate_pending i p) [
    | none ↦ none
    | some a ↦ let q = cool_down (buttons i a) in if accepts q then interact fl i q else some q
  ]
