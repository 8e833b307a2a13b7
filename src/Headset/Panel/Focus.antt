-- ===== src/Headset/Panel/Focus.antt =====
-- The focus of the settings panel stays on a row of the table and on a segment of that row.
use but_telepresence.Prelude.{
  ℕ, suc, ◌+◌, ◌-◌, ◌<◌, ◌≡◌, refl, ◌∙◌, ap, Bool, true, false, ◌&&◌, inl, inr, holds_to,
  holds_to_sound, Option-cases, Option, none, some, List, [], ◌∷◌, ltb, if◌then◌else◌, arith,
}
use but_telepresence.Prelude.Int.{pos, ◌+ℤ◌, ◌-ℤ◌}
use but_telepresence.Headset.Table.{Row, segments, setting_at, settings, setting_type}
use but_telepresence.Headset.Controls.{GuiControl, is_button}
use but_telepresence.Headset.Panel.{
  number_of_elements, move_up, move_down, move_left, move_right, left_within, right_within, settled,
  within_row, move_if, moves, process_changes, press_from, render_settings_gui,
}

-- The row of the table that has the focus, and the segment.
pub record IsFocused (g : GuiControl) : Type 0 where
  pub element : ℕ
  pub segment : ℕ
  pub row : Row
  pub on_element : g.focused_element ≡ pos element
  pub on_row : setting_at g.focused_element ≡ some row
  pub below : element < 14
  pub on_segment : g.focused_segment ≡ pos segment
  pub segment_below : segment < segments row

abbrev is_row : Option Row → Bool
is_row none = false
is_row (some r) = ltb 0 (segments r)

row_table : holds_to (λ e. is_row (setting_at (pos e))) 14 ≡ true
unfolding holds_to setting_at segments
row_table = refl

row_at : (e : ℕ) → e < 14 → (r : Row) × (setting_at (pos e) ≡ some r) × (0 < segments r)
row_at e h =
    let t = holds_to_sound (λ i. is_row (setting_at (pos i))) 14 e h row_table in
    elim (Option-cases (setting_at (pos e))) [
      | inl n ↦ ground (arith, n, t)
      | inr (r, n) ↦ (r, n, ground (arith, n, t))
    ]

-- A row with the first segment.
at_first :
    (g : GuiControl) (e : ℕ)
    → e < 14
    → g.focused_element ≡ pos e
    → g.focused_segment ≡ pos 0
    → IsFocused g
at_first g e h on first =
    let (r, at, n) = row_at e h in
    record {
      element = e;
      segment = 0;
      row = r;
      on_element = on;
      on_row = ap setting_at on ∙ at;
      below = h;
      on_segment = first;
      segment_below = n;
    }

move_up-IsFocused : (g : GuiControl) → IsFocused g → IsFocused (move_up g)
unfolding move_up number_of_elements ◌-ℤ◌
move_up-IsFocused g f =
    at_first (move_up g) (if ltb 0 f.element then f.element - 1 else 13) (ground (arith, f.below))
      (ground (arith, f.on_element)) refl

move_down-IsFocused : (g : GuiControl) → IsFocused g → IsFocused (move_down g)
unfolding move_down number_of_elements ◌+ℤ◌
move_down-IsFocused g f =
    at_first (move_down g) (if ltb (f.element + 1) 14 then f.element + 1 else 0)
      (ground (arith, f.below)) (ground (arith, f.on_element, f.below)) refl

-- Another segment of the same row.
at_segment :
    (g h : GuiControl) (s : ℕ) (f : IsFocused g)
    → h.focused_element ≡ g.focused_element
    → h.focused_segment ≡ pos s
    → s < segments f.row
    → IsFocused h
at_segment g h s f same on below = record {
  element = f.element;
  segment = s;
  row = f.row;
  on_element = same ∙ f.on_element;
  on_row = ap setting_at same ∙ f.on_row;
  below = f.below;
  on_segment = on;
  segment_below = below;
}

abbrev Keeps : (GuiControl → Option GuiControl) → Type 0
Keeps move = (g : GuiControl) → IsFocused g → (h : GuiControl) × (move g ≡ some h) × IsFocused h

-- The focus is the same.
pub refocused :
    (g h : GuiControl)
    → IsFocused g
    → h.focused_element ≡ g.focused_element
    → h.focused_segment ≡ g.focused_segment
    → IsFocused h
refocused g h f e s = at_segment g h f.segment f e (s ∙ f.on_segment) f.segment_below

left_within-IsFocused : (g : GuiControl) (f : IsFocused g) → IsFocused (left_within f.row g)
unfolding left_within ◌-ℤ◌
left_within-IsFocused g f =
    at_segment g _ (if ltb 0 f.segment then f.segment - 1 else segments f.row - 1) f refl
      (ground (arith, f.on_segment, f.segment_below)) (ground (arith, f.segment_below))

right_within-IsFocused : (g : GuiControl) (f : IsFocused g) → IsFocused (right_within f.row g)
unfolding right_within ◌+ℤ◌
right_within-IsFocused g f =
    at_segment g _ (if ltb (f.segment + 1) (segments f.row) then f.segment + 1 else 0) f refl
      (ground (arith, f.on_segment, f.segment_below)) (ground (arith, f.segment_below))

within_row-some :
    (move : Row → GuiControl → GuiControl) (g : GuiControl) (r : Row)
    → setting_at g.focused_element ≡ some r
    → within_row move g ≡ some (move r g)
within_row-some move g r e = rw (within_row, e) refl

move_left-Keeps : Keeps move_left
move_left-Keeps g f =
    (left_within f.row g, within_row-some left_within g f.row f.on_row, left_within-IsFocused g f)

move_right-Keeps : Keeps move_right
move_right-Keeps g f = (
  right_within f.row g,
  within_row-some right_within g f.row f.on_row,
  right_within-IsFocused g f,
)

move_if-Keeps :
    (flag : Bool) (move : GuiControl → Option GuiControl) → Keeps move → Keeps (move_if flag move)
move_if-Keeps true move k g f = k g f
move_if-Keeps false move k g f = (g, refl, f)

vertical :
    (flag : Bool) (move : GuiControl → GuiControl)
    → ((g : GuiControl) → IsFocused g → IsFocused (move g))
    → (g : GuiControl) → IsFocused g
    → IsFocused (if flag then move g else g)
vertical true move k g f = k g f
vertical false move k g f = f

moves-Keeps : Keeps moves
unfolding moves
moves-Keeps g f =
    let u = vertical g.focus_move_up move_up move_up-IsFocused g f in
    let d = vertical g.focus_move_down move_down move_down-IsFocused _ u in
    let (l, e, fl) = move_if-Keeps g.focus_move_left move_left move_left-Keeps _ d in
    let (r, e', fr) = move_if-Keeps g.focus_move_right move_right move_right-Keeps l fl in
    (r, rw e e', fr)

settled-IsFocused : (g : GuiControl) → IsFocused g → IsFocused (settled g)
settled-IsFocused g f = at_segment g (settled g) f.segment f refl f.on_segment f.segment_below

-- The changes, whether or not some are enqueued.
processed :
    (enqueued : Bool) (g : GuiControl) (o : Option GuiControl)
    → IsFocused g
    → (h : GuiControl) × (o ≡ some h) × IsFocused h
    → (h : GuiControl) × ((if enqueued
          then elim o [ none ↦ none | some k ↦ some (settled k) ]
          else some g)
        ≡ some h)
      × IsFocused h
processed true g o f (h, e, k) = (settled h, rw e refl, settled-IsFocused h k)
processed false g o f m = (g, refl, f)

process_changes-Keeps : Keeps process_changes
unfolding process_changes
process_changes-Keeps g f = processed g.changes_enqueued g (moves g) f (moves-Keeps g f)

press_from-IsFocused :
    (i : ℕ) (rs : List Row) (clicked : ℕ → Bool) (g : GuiControl)
    → IsFocused g
    → IsFocused (press_from i rs clicked g)
unfolding press_from
press_from-IsFocused i [] clicked g f = f
press_from-IsFocused i (r ∷ rs) clicked g f =
    press_from-IsFocused (suc i) rs clicked _ (pressed (is_button (setting_type r) && clicked i))
  where
    pressed : (b : Bool) → IsFocused (if b then record g { pending_activation = pos i } else g)
    pressed true = at_segment g _ f.segment f refl f.on_segment f.segment_below
    pressed false = f

-- The focus before a render that may move it, and after.
pub render_settings_gui-Keeps : (clicked : ℕ → Bool) → Keeps (render_settings_gui clicked)
unfolding render_settings_gui
render_settings_gui-Keeps clicked g f =
    let (h, e, k) = process_changes-Keeps g f in
    (
      press_from 0 settings clicked h,
      rw (render_settings_gui, e) refl,
      press_from-IsFocused 0 settings clicked h k,
    )
