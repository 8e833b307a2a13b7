-- ===== src/Headset/Panel/Edges.antt =====
-- The two thumbstick buttons over a sequence of eyes: a press acts once, however long it is held.
use but_telepresence.Prelude.{
  ℕ, zero, suc, ◌+◌, ◌/◌, ◌≡◌, refl, sym, ◌∙◌, Bool, true, false, not, ◌&&◌, some, List, [], ◌∷◌,
  if◌then◌else◌, All, map, arith,
}
use but_telepresence.Headset.Table.{FloatArithmetic}
use but_telepresence.Headset.Controls.{Input, Program, toggle_movement, toggle_gui, buttons}
use but_telepresence.Headset.Panel.{render_eyes}
use but_telepresence.Headset.Panel.Sessions.{IsRunning, Makes, stops, render_eye-Runs}

-- How often a button goes down, where `down` says that it was.
unfoldable pub rising : (down : Bool) → List Bool → ℕ
rising down [] = 0
rising down (b ∷ bs) = let rest = rising b bs in if b && not down then suc rest else rest

-- `b`, negated `n` times.
unfoldable pub flipped : ℕ → Bool → Bool
flipped zero b = b
flipped (suc n) b = flipped n (not b)

abbrev pub Eye : Type 0
Eye = Input × (ℕ → Bool)

abbrev pub right_presses : List Eye → List Bool
right_presses es = map (λ e. e.0.thumbstick_pressed_right) es

abbrev pub left_presses : List Eye → List Bool
left_presses es = map (λ e. e.0.thumbstick_pressed_left) es

-- How often `n` negations of `b` go from true to false.
abbrev pub falls : ℕ → Bool → ℕ
falls n b = (n + (if b then 1 else 0)) / 2

flipped-rising :
    (d b : Bool) (bs : List Bool) (e : Bool)
    → flipped (rising d (b ∷ bs)) e ≡ flipped (rising b bs) (flipped (rising d (b ∷ [])) e)
unfolding flipped rising
flipped-rising true true bs e = refl
flipped-rising true false bs e = refl
flipped-rising false true bs e = refl
flipped-rising false false bs e = refl

-- One eye, and then the rest.
next_eye :
    (d b : Bool) (bs : List Bool) (e e' d' r : Bool)
    → e' ≡ flipped (rising d (b ∷ [])) e
    → d' ≡ b
    → r ≡ flipped (rising d' bs) e'
    → r ≡ flipped (rising d (b ∷ bs)) e
next_eye d b bs e e' d' r he hd hr = rw (flipped-rising d b bs e) (rw (sym he) (rw (sym hd) hr))

falls-rising :
    (d b : Bool) (bs : List Bool) (e : Bool)
    → falls (rising d (b ∷ bs)) e
      ≡ falls (rising d (b ∷ [])) e + falls (rising b bs) (flipped (rising d (b ∷ [])) e)
unfolding flipped rising
falls-rising true true bs e = ground arith
falls-rising true false bs e = ground arith
falls-rising false true bs e = ground arith
falls-rising false false bs e = ground arith

next_stop :
    (d b : Bool) (bs : List Bool) (e e' d' : Bool) (s s' r : ℕ)
    → e' ≡ flipped (rising d (b ∷ [])) e
    → d' ≡ b
    → s' ≡ s + falls (rising d (b ∷ [])) e
    → r ≡ s' + falls (rising d' bs) e'
    → r ≡ s + falls (rising d (b ∷ bs)) e
next_stop d b bs e e' d' s s' r he hd hs hr =
    let now : r ≡ s' + falls (rising b bs) (flipped (rising d (b ∷ [])) e) =
      rw (sym he) (rw (sym hd) hr) in
    rw (falls-rising d b bs e) (omega (arith, now, hs))

none_fall : (d e : Bool) (n : ℕ) → n ≡ n + falls (rising d []) e
unfolding rising
none_fall d e n = ground arith

module _ {ℓ} {F : Type ℓ} where
  toggled_right :
      (i : Input) (p : Program F)
      → ((buttons i p).app_state.robot_control_enabled
          ≡ flipped
              (rising p.control_lock_movement (i.thumbstick_pressed_right ∷ []))
              p.app_state.robot_control_enabled)
        × ((buttons i p).control_lock_movement ≡ i.thumbstick_pressed_right)
  unfolding toggle_movement toggle_gui flipped rising
  toggled_right i p = ground arith

  toggled_left :
      (i : Input) (p : Program F)
      → ((buttons i p).render_gui
          ≡ flipped (rising p.control_lock_gui (i.thumbstick_pressed_left ∷ [])) p.render_gui)
        × ((buttons i p).control_lock_gui ≡ i.thumbstick_pressed_left)
  unfolding toggle_movement toggle_gui flipped rising
  toggled_left i p = ground arith

  stopped :
      (i : Input) (p : Program F)
      → i.sender_is_initialized ≡ true
      → stops (buttons i p).effects
        ≡ stops p.effects
          + falls
              (rising p.control_lock_movement (i.thumbstick_pressed_right ∷ []))
              p.app_state.robot_control_enabled
  unfolding toggle_movement toggle_gui flipped rising stops
  stopped i p h = ground (arith, h)

  -- The two buttons over a sequence of eyes that starts with settings in range, where GStreamer makes
  -- the pipelines of every Apply: the sequence runs to
  -- its end, robot control has been switched as often as the right stick went down, and the panel
  -- has been shown or hidden as often as the left stick went down.
  pub render_eyes_toggle :
      (fl : FloatArithmetic F) (es : List Eye) (p : Program F)
      → All (λ e. Makes e.0) es
      → IsRunning p
      → (q : Program F) × (render_eyes fl es p ≡ some q)
        × (q.app_state.robot_control_enabled
            ≡ flipped
                (rising p.control_lock_movement (right_presses es))
                p.app_state.robot_control_enabled)
        × (q.render_gui ≡ flipped (rising p.control_lock_gui (left_presses es)) p.render_gui)
  unfolding render_eyes
  render_eyes_toggle fl [] p makes v =
      (p, refl, unfold rising flipped in refl, unfold rising flipped in refl)
  render_eyes_toggle fl ((i, clicked) ∷ es) p makes v =
      let (q, e, w, k) = render_eye-Runs fl i clicked p makes.0 v in
      let (r, e', m, g) = render_eyes_toggle fl es q makes.1 w in
      let (on, down) = toggled_right i p in
      let (shown, pressed) = toggled_left i p in
      (
        r,
        rw (render_eyes, e) e',
        next_eye _ _ (right_presses es) _ _ _ _ (k.0 ∙ on) (k.1 ∙ down) m,
        next_eye _ _ (left_presses es) _ _ _ _ (k.3 ∙ shown) (k.4 ∙ pressed) g,
      )

  -- While the sender of the robot control is initialized and GStreamer makes the pipelines of every
  -- Apply, a sequence of eyes sends a stop command
  -- exactly when robot control is switched off: half as many as the right stick went down, rounded
  -- up if robot control was on before.
  pub render_eyes_stop :
      (fl : FloatArithmetic F) (es : List Eye) (p : Program F)
      → All (λ e. Makes e.0) es
      → IsRunning p
      → All (λ e. e.0.sender_is_initialized ≡ true) es
      → (q : Program F) × (render_eyes fl es p ≡ some q)
        × (stops q.effects
            ≡ stops p.effects
              + falls
                  (rising p.control_lock_movement (right_presses es))
                  p.app_state.robot_control_enabled)
  unfolding render_eyes
  render_eyes_stop fl [] p makes v h = (p, refl, none_fall _ _ _)
  render_eyes_stop fl ((i, clicked) ∷ es) p makes v h =
      let (q, e, w, k) = render_eye-Runs fl i clicked p makes.0 v in
      let (on, down) = toggled_right i p in
      let (r, e', m) = render_eyes_stop fl es q makes.1 w h.1 in
      (
        r,
        rw (render_eyes, e) e',
        next_stop _ _ (right_presses es) _ _ _ _ _ _ (k.0 ∙ on) (k.1 ∙ down) (k.2 ∙ stopped i p h.0)
            m,
      )
