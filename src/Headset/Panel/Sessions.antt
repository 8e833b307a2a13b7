-- ===== src/Headset/Panel/Sessions.antt =====
-- Any sequence of eyes, with any input, where GStreamer makes the pipelines: nothing is read out of
-- range and nothing throws.
use but_telepresence.Prelude.{
  ℕ, suc, ◌≡◌, refl, ◌∙◌, Bool, true, false, Option, none, some, List, [], ◌∷◌, if◌then◌else◌, All,
  arith,
}
use but_telepresence.Headset.Rest.{Reply}
use but_telepresence.Headset.Config.{StreamingConfig}
use but_telepresence.Headset.Receiver.{Decoder, configured_for}
use but_telepresence.Headset.Settings.{Applied, apply, needs_rebuild, push_built, push_config}
use but_telepresence.Headset.Settings.Playing.{usable-returns}
use but_telepresence.Headset.Storage.{AppState}
use but_telepresence.Headset.Table.{
  FloatArithmetic, Row, setting_at, setting_type, on_increment, on_decrement,
}
use but_telepresence.Headset.Table.Sound.{IsSound, Gives, on_increment-Gives, on_decrement-Gives}
use but_telepresence.Headset.Controls.{
  GuiControl, Input, Effect, stop_robot, save, push, Program, is_button, on_activate, activate_at,
  activate_pending, toggle_movement, on_focused, activated, enqueued, release_movement, toggle_gui,
  release_gui, cool_down, enqueue, changed, interact, buttons, accepts, handle_controllers,
}
use but_telepresence.Headset.Panel.{draw, render_eye, render_eyes}
use but_telepresence.Headset.Panel.Focus.{IsFocused, render_settings_gui-Keeps, refocused}

-- The settings are in range and the focus is on a row of the table.
pub record IsRunning {ℓ} {F : Type ℓ} (p : Program F) : Type 0 where
  pub sound : IsSound p.app_state
  pub focused : IsFocused p.gui_control

-- The stop commands among the effects.
unfoldable pub stops {ℓ} : {F : Type ℓ} → List (Effect F) → ℕ
stops [] = 0
stops (stop_robot ∷ es) = suc (stops es)
stops (save a ∷ es) = stops es
stops (push c ∷ es) = stops es

-- What GStreamer would make of the pipelines in an eye, now and for the activation that waits.
abbrev pub Makes : Input → Type 0
Makes i = (i.decoder.parses ≡ true) × (i.deferred_decoder.parses ≡ true)

module _ {ℓ} {F : Type ℓ} where
  -- A move of the buttons, which touches neither the focus nor the settings but robot_control_enabled.
  abbrev Preserves : (Program F → Program F) → Type ℓ
  Preserves f = (p : Program F) → IsRunning p → IsRunning (f p)

  -- What only the two thumbstick buttons change.
  abbrev pub Kept : Program F → Program F → Type 0
  Kept p q =
      (q.app_state.robot_control_enabled ≡ p.app_state.robot_control_enabled)
      × (q.control_lock_movement ≡ p.control_lock_movement)
      × (stops q.effects ≡ stops p.effects)
      × (q.render_gui ≡ p.render_gui)
      × (q.control_lock_gui ≡ p.control_lock_gui)

  unmoved : (p : Program F) → Kept p p
  unmoved p = (refl, refl, refl, refl, refl)

  -- The same settings, and the focus where it was.
  same_focus :
      (p q : Program F)
      → IsRunning p
      → IsSound q.app_state
      → q.gui_control.focused_element ≡ p.gui_control.focused_element
      → q.gui_control.focused_segment ≡ p.gui_control.focused_segment
      → IsRunning q
  same_focus p q v s e f = record {
    sound = s;
    focused = refocused p.gui_control q.gui_control v.focused e f;
  }

  toggle_movement-Preserves : (i : Input) → Preserves (toggle_movement i)
  unfolding toggle_movement
  toggle_movement-Preserves i p v = ground (arith, v)

  release_movement-Preserves : (i : Input) → Preserves (release_movement i)
  release_movement-Preserves i p v = ground (arith, v)

  toggle_gui-Preserves : (i : Input) → Preserves (toggle_gui i)
  unfolding toggle_gui
  toggle_gui-Preserves i p v = ground (arith, v)

  release_gui-Preserves : (i : Input) → Preserves (release_gui i)
  release_gui-Preserves i p v = ground (arith, v)

  cool_down-Preserves : Preserves cool_down
  unfolding cool_down
  cool_down-Preserves p v = ground (arith, v)

  buttons-Preserves : (i : Input) → Preserves (buttons i)
  buttons-Preserves i p v =
      release_gui-Preserves i _ (
        toggle_gui-Preserves i _ (release_movement-Preserves i _ (toggle_movement-Preserves i p v)))

  Kept-trans : (p q r : Program F) → Kept p q → Kept q r → Kept p r
  Kept-trans p q r (a, b, c, d, e) (a', b', c', d', e') = (a' ∙ a, b' ∙ b, c' ∙ c, d' ∙ d, e' ∙ e)

  -- An outcome that is a running program, with what is kept of `p`.
  abbrev Runs : Program F → Option (Program F) → Type ℓ
  Runs p o = (q : Program F) × (o ≡ some q) × IsRunning q × Kept p q

  -- An Apply returns, since the settings are in range.
  apply-returns :
      (d : Decoder) (reply : Reply) (p : Program F)
      → d.parses ≡ true
      → IsRunning p
      → (a : Applied) × (apply d reply p.app_state.streaming_config p.applied ≡ some a)
  unfolding apply
  apply-returns d reply p h v =
      built (needs_rebuild p.applied.last_applied p.app_state.streaming_config)
    where
      c : StreamingConfig
      c = p.app_state.streaming_config

      built :
          (b : Bool)
          → (a : Applied) × (push_built reply c
                (if b then configured_for d c p.applied.built_for else some p.applied.built_for)
                p.applied
              ≡ some a)
      built true =
          let (f, e) = usable-returns d c p.applied.built_for h v.sound.streaming_config in
          (push_config reply c f p.applied, rw e refl)
      built false = (_, refl)

  on_activate-Runs :
      (r : Row) (d : Decoder) (reply : Reply) (p : Program F)
      → d.parses ≡ true
      → IsRunning p
      → Runs p (on_activate r d reply p)
  unfolding on_activate stops
  on_activate-Runs Row.apply_button d reply p h v =
      let (a, e) = apply-returns d reply p h v in
      (with_effects a, rw e refl, same_focus p (with_effects a) v v.sound refl refl, unmoved p)
    where
      with_effects : Applied → Program F
      with_effects a = record p {
        applied = a;
        effects = push p.app_state.streaming_config ∷ save p.app_state ∷ p.effects;
      }
  on_activate-Runs _ d reply p h v = (p, refl, v, unmoved p)

  activate_at-Runs :
      (o : Option Row) (d : Decoder) (reply : Reply) (p : Program F)
      → d.parses ≡ true
      → IsRunning p
      → Runs p (activate_at o d reply p)
  activate_at-Runs none d reply p h v = (p, refl, v, unmoved p)
  activate_at-Runs (some r) d reply p h v =
      on_activate-Runs r d reply _ h (same_focus p _ v v.sound refl refl)

  activate_pending-Runs :
      (i : Input) (p : Program F)
      → i.deferred_decoder.parses ≡ true
      → IsRunning p
      → Runs p (activate_pending i p)
  unfolding activate_pending
  activate_pending-Runs i p h v =
      activate_at-Runs (setting_at p.gui_control.pending_activation) i.deferred_decoder
        i.deferred_reply p h v

  buttons-Kept : (i : Input) (p q : Program F) → Kept p q → Kept (buttons i p) (buttons i q)
  unfolding toggle_movement toggle_gui stops
  buttons-Kept i p q k = ground (arith, k)

  changed-Runs :
      (p : Program F) (o : Option (AppState F))
      → IsRunning p
      → Gives p.app_state o
      → Runs p (changed p o)
  changed-Runs p o v (a, e, s, k) = (
    enqueue (λ g. g) (record p { app_state = a }),
    rw e refl,
    same_focus p _ v s refl refl,
    (k, refl, refl, refl, refl),
  )

  on_focused-Runs :
      (f : Row → Option (Program F)) (p : Program F) (v : IsRunning p)
      → Runs p (f v.focused.row)
      → Runs p (on_focused f p)
  on_focused-Runs f p v (q, e, w, k) = (q, rw (on_focused, v.focused.on_row) e, w, k)

  -- One branch of the chain.
  branch :
      (p : Program F) (b : Bool) (x y : Option (Program F))
      → Runs p x
      → Runs p y
      → Runs p (if b then x else y)
  branch p true x y h k = h
  branch p false x y h k = k

  moved :
      (f : GuiControl → GuiControl) (p : Program F)
      → IsRunning p
      → (f p.gui_control).focused_element ≡ p.gui_control.focused_element
      → (f p.gui_control).focused_segment ≡ p.gui_control.focused_segment
      → Runs p (some (enqueue f p))
  moved f p v e s =
      (enqueue f p, refl, same_focus p (enqueue f p) v v.sound e s, (refl, refl, refl, refl, refl))

  module _ (fl : FloatArithmetic F) where
    incremented :
        (p : Program F)
        → IsRunning p
        → Runs p (
            on_focused
              (λ r. changed p (on_increment fl r p.gui_control.focused_segment p.app_state))
              p)
    incremented p v = on_focused-Runs _ p v (
        changed-Runs p _ v (
          rw v.focused.on_segment (
            on_increment-Gives p.app_state v.sound fl v.focused.row v.focused.segment
              v.focused.segment_below)))

    decremented :
        (p : Program F)
        → IsRunning p
        → Runs p (
            on_focused
              (λ r. changed p (on_decrement fl r p.gui_control.focused_segment p.app_state))
              p)
    decremented p v = on_focused-Runs _ p v (
        changed-Runs p _ v (
          rw v.focused.on_segment (
            on_decrement-Gives p.app_state v.sound fl v.focused.row v.focused.segment
              v.focused.segment_below)))

    triggered :
        (i : Input) (p : Program F) (r : Row)
        → i.decoder.parses ≡ true
        → IsRunning p
        → Runs p (activated i p r)
    triggered i p r h v = pressed (is_button (setting_type r))
      where
        pressed :
            (b : Bool) → Runs p (if b then enqueued (on_activate r i.decoder i.reply p) else some p)
        pressed true =
            let (q, e, w, k) = on_activate-Runs r i.decoder i.reply p h v in
            (
              enqueue (λ g. g) q,
              rw e refl,
              same_focus q (enqueue (λ g. g) q) w w.sound refl refl,
              k,
            )
        pressed false = (p, refl, v, unmoved p)

    interact-Runs :
        (i : Input) (p : Program F)
        → i.decoder.parses ≡ true
        → IsRunning p
        → Runs p (interact fl i p)
    unfolding interact
    interact-Runs i p h v =
        branch p i.stick_up _ _ (moved (λ g. record g { focus_move_up = true }) p v refl refl) (
          branch p i.stick_down _ _ (moved (λ g. record g { focus_move_down = true }) p v refl refl)
            (branch p i.stick_left _ _
              (moved (λ g. record g { focus_move_left = true }) p v refl refl)
              (branch p i.stick_right _ _
                (moved (λ g. record g { focus_move_right = true }) p v refl refl)
                (branch p i.y_pressed _ _ (incremented p v) (
                  branch p i.x_pressed _ _ (decremented p v) (
                    branch p i.trigger_left _ _
                      (on_focused-Runs (activated i p) p v (triggered i p v.focused.row h v))
                      (p, refl, v, unmoved p)))))))

    handle_controllers-Runs :
        (i : Input) (p : Program F)
        → Makes i
        → IsRunning p
        → Runs (buttons i p) (handle_controllers fl i p)
    unfolding handle_controllers cool_down
    handle_controllers-Runs i p (h, h') v =
        let (a, e, u, k) = activate_pending-Runs i p h' v in
        let b = cool_down (buttons i a) in
        let w = cool_down-Preserves (buttons i a) (buttons-Preserves i a u) in
        let (q, e', w', l) =
          branch b (accepts b) (interact fl i b) (some b) (interact-Runs i b h w)
            (b, refl, w, unmoved b) in
        (
          q,
          rw (handle_controllers, e) e',
          w',
          Kept-trans (buttons i p) (buttons i a) q (buttons-Kept i p a k) l,
        )

    draw-Runs : (clicked : ℕ → Bool) (p : Program F) → IsRunning p → Runs p (draw clicked p)
    draw-Runs clicked p v =
        let (g, e, f) = render_settings_gui-Keeps clicked p.gui_control v.focused in
        branch p p.render_gui _ _
          (
            record p { gui_control = g },
            rw e refl,
            record { sound = v.sound; focused = f },
            unmoved p,
          )
          (p, refl, v, unmoved p)

    pub render_eye-Runs :
        (i : Input) (clicked : ℕ → Bool) (p : Program F)
        → Makes i
        → IsRunning p
        → (q : Program F) × (render_eye fl i clicked p ≡ some q)
          × IsRunning q
          × Kept (buttons i p) q
    unfolding render_eye
    render_eye-Runs i clicked p h v =
        let (q, e, w, k) = handle_controllers-Runs i p h v in
        let (r, e', u, l) = draw-Runs clicked q w in
        (r, rw (render_eye, e) e', u, Kept-trans (buttons i p) q r k l)

    -- A sequence of eyes, whatever the input, the rows that are clicked and the answers of the camera
    -- server: where GStreamer makes the described pipelines whenever Apply asks for them, from
    -- settings in range and a focus on a row of the table nothing is read out of range and nothing
    -- throws, and the settings and the focus stay so.
    pub render_eyes-IsRunning :
        (es : List (Input × (ℕ → Bool))) (p : Program F)
        → All (λ e. Makes e.0) es
        → IsRunning p
        → (q : Program F) × (render_eyes fl es p ≡ some q) × IsRunning q
    unfolding render_eyes
    render_eyes-IsRunning [] p h v = (p, refl, v)
    render_eyes-IsRunning ((i, clicked) ∷ es) p h v =
        let (q, e, w, k) = render_eye-Runs i clicked p h.0 v in
        let (r, e', u) = render_eyes-IsRunning es q h.1 w in (r, rw (render_eyes, e) e', u)
