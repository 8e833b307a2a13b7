-- ===== src/Headset/Panel.antt =====
-- render_settings_gui of VR_App/src/render_imgui.cpp, as far as it changes GUIControl, and the two
-- eyes of a frame: RenderLayer of VR_App/src/program.cpp calls HandleControllers for each, and then
-- draws the panel if it is shown. What ImGui reports of a button is an argument.
pub mod Focus
pub mod Sessions
pub mod Edges
use but_telepresence.Prelude.{
  ℕ, suc, Bool, true, false, ◌&&◌, Option, none, some, List, [], ◌∷◌, if◌then◌else◌, length,
}
use but_telepresence.Prelude.Int.{ℤ, pos, ◌+ℤ◌, ◌-ℤ◌, ltb_ℤ}
use but_telepresence.Headset.Table.{
  FloatArithmetic, Row, settings, setting_type, segments, setting_at,
}
use but_telepresence.Headset.Controls.{GuiControl, Input, Program, is_button, handle_controllers}

unfoldable pub number_of_elements : ℤ
unfolding settings
number_of_elements = pos (length settings)

unfoldable pub move_up : GuiControl → GuiControl
move_up g =
    let e = g.focused_element -ℤ pos 1 in
    record g {
      focused_element = if ltb_ℤ e (pos 0) then number_of_elements -ℤ pos 1 else e;
      focused_segment = pos 0;
    }

unfoldable pub move_down : GuiControl → GuiControl
move_down g =
    let e = g.focused_element +ℤ pos 1 in
    record g {
      focused_element = if ltb_ℤ e number_of_elements then e else pos 0;
      focused_segment = pos 0;
    }

-- Left and right, with the segments of the row in focus.
unfoldable pub left_within : Row → GuiControl → GuiControl
left_within r g =
    let s = g.focused_segment -ℤ pos 1 in
    record g { focused_segment = if ltb_ℤ s (pos 0) then pos (segments r) -ℤ pos 1 else s }

unfoldable pub right_within : Row → GuiControl → GuiControl
right_within r g =
    let s = g.focused_segment +ℤ pos 1 in
    record g { focused_segment = if ltb_ℤ s (pos (segments r)) then s else pos 0 }

abbrev pub within_row : (Row → GuiControl → GuiControl) → GuiControl → Option GuiControl
within_row move g = elim (setting_at g.focused_element) [ none ↦ none | some r ↦ some (move r g) ]

abbrev pub move_left : GuiControl → Option GuiControl
move_left g = within_row left_within g

abbrev pub move_right : GuiControl → Option GuiControl
move_right g = within_row right_within g

abbrev pub move_if : Bool → (GuiControl → Option GuiControl) → GuiControl → Option GuiControl
move_if flag move g = if flag then move g else some g

abbrev then_move : Option GuiControl → (GuiControl → Option GuiControl) → Option GuiControl
then_move none move = none
then_move (some g) move = move g

-- The moves in their order; a move changes no flag.
unfoldable pub moves : GuiControl → Option GuiControl
moves g =
    let u = if g.focus_move_up then move_up g else g in
    let d = if g.focus_move_down then move_down u else u in
    then_move (move_if g.focus_move_left move_left d) (move_if g.focus_move_right move_right)

abbrev pub settled : GuiControl → GuiControl
settled g = record g {
  focus_move_up = false;
  focus_move_down = false;
  focus_move_left = false;
  focus_move_right = false;
  cooldown = 20;
  changes_enqueued = false;
}

unfoldable pub process_changes : GuiControl → Option GuiControl
process_changes g =
    if g.changes_enqueued
    then elim (moves g) [ none ↦ none | some h ↦ some (settled h) ]
    else some g

-- The loop over the elements from index `i` on.
unfoldable pub press_from : ℕ → List Row → (ℕ → Bool) → GuiControl → GuiControl
press_from i [] clicked g = g
press_from i (r ∷ rs) clicked g =
    press_from (suc i) rs clicked (
      if is_button (setting_type r) && clicked i
      then record g { pending_activation = pos i }
      else g)

unfoldable pub render_settings_gui : (clicked : ℕ → Bool) → GuiControl → Option GuiControl
unfolding process_changes press_from
render_settings_gui clicked g = elim (process_changes g) [
  | none ↦ none
  | some h ↦ some (press_from 0 settings clicked h)
]

module _ {ℓ} {F : Type ℓ} where
  abbrev pub draw : (ℕ → Bool) → Program F → Option (Program F)
  draw clicked p =
      if p.render_gui
      then elim (render_settings_gui clicked p.gui_control) [
        | none ↦ none
        | some g ↦ some (record p { gui_control = g })
      ]
      else some p

  unfoldable pub render_eye :
      FloatArithmetic F → Input → (ℕ → Bool) → Program F → Option (Program F)
  render_eye fl i clicked p = elim (handle_controllers fl i p) [
    | none ↦ none
    | some q ↦ draw clicked q
  ]

  -- A sequence of eyes; a frame has two.
  unfoldable pub render_eyes :
      FloatArithmetic F → List (Input × (ℕ → Bool)) → Program F → Option (Program F)
  render_eyes fl [] p = some p
  render_eyes fl ((i, clicked) ∷ es) p = elim (render_eye fl i clicked p) [
    | none ↦ none
    | some q ↦ render_eyes fl es q
  ]
