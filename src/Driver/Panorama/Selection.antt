-- ===== src/Driver/Panorama/Selection.antt =====
-- What panoramic mode of streaming_driver/main.cpp promises: a camera is shown and another may be
-- on its way. The window and its slots are left out.
use but_telepresence.Prelude.{
  if◌then◌else◌, ◌∙◌, ℕ, ◌<◌, ◌≡◌, refl, sym, ap, subst, Bool, true, false, Option, none, some,
  List, [], ◌∷◌, arith, inl, inr, Bool-cases, leb, ◌==◌,
}
use but_telepresence.Driver.Panorama.{
  Window, set_sensor, Panorama, num_cameras, sensor_at, find_slot, furthest_slot, arm,
  switch_or_swap, run_swap, select_camera, swap_camera_probe, reset_window, attach_selector,
  detach_selector, stop_pipeline,
}
use but_telepresence.Driver.Panorama.Invariant.{
  Inv, IsPending, Step, selects, probes, resets, attaches, detaches, stops, Reach, here, next,
  find_slot_bound, Reach-Inv,
}
use but_telepresence.Driver.Panorama.Select.{idle_pending, sensor_at-set_sensor}

-- `chosen` is the camera of the active slot, `shown` the one whose pad the selector passes on, where
-- there is a selector, and `coming` the one on its way.
pub record Selection : Type 0 where
  pub chosen : ℕ
  pub shown : Option ℕ
  pub coming : Option ℕ

-- The steps of the selection, with the camera that is asked for. A request may be ignored, shown at
-- once, or, while no camera is on its way, sent on its way. Nothing is shown while there is no
-- selector, and a new selector shows the camera that is chosen.
pub data Selects : Option ℕ → Selection → Selection → Type 0 where
  ignores : {asked : Option ℕ} {v : Selection} → Selects asked v v
  shows :
      {v : Selection} (c : ℕ) → c < 6 → Selects (some c) v (record v { chosen = c; shown = some c })
  sends :
      {v : Selection} (c : ℕ)
      → c < 6
      → v.coming ≡ none
      → Selects (some c) v (record v { coming = some c })
  arrives :
      {v : Selection} (c : ℕ)
      → v.coming ≡ some c
      → Selects none v (record { chosen = c; shown = some c; coming = none })
  arrives_unseen :
      {v : Selection} (c : ℕ)
      → v.coming ≡ some c
      → v.shown ≡ none
      → Selects none v (record { chosen = c; shown = none; coming = none })
  restarts :
      {v : Selection} → v.coming ≡ none → v.shown ≡ none → Selects none v (record v { chosen = 0 })
  attached : {v : Selection} → Selects none v (record v { shown = some v.chosen })
  detached : {v : Selection} → Selects none v (record v { shown = none })
  drops : {v : Selection} → Selects none v (record v { coming = none })

abbrev pub sensor_of : Option (ℕ × ℕ) → Option ℕ
sensor_of none = none
sensor_of (some (slot, sensor)) = some sensor

abbrev pub shown_by : (is_attached : Bool) → (sensor : ℕ) → Option ℕ
shown_by true sensor = some sensor
shown_by false sensor = none

abbrev pub selection : Panorama → Selection
selection p = record {
  chosen = sensor_at p.active_slot p.window;
  shown = shown_by p.attached (sensor_at p.active_pad p.window);
  coming = sensor_of p.pending;
}

-- The camera that a step asks for.
pub asked : {p q : Panorama} → Step p q → Option ℕ
asked (selects found target) = some target
asked _ = none

arm-Selects :
    (found : Bool) (target : ℕ) (o : Option ℕ) (p : Panorama)
    → target < 6
    → p.pending ≡ none
    → Selects (some target) (selection p) (selection (arm found target o p))
unfolding arm
arm-Selects found target none p h e = ignores
arm-Selects false target (some slot) p h e = ignores
arm-Selects true target (some slot) p h e = sends target h (ap sensor_of e)

switch_or_swap-Selects :
    (found : Bool) (target : ℕ) (o : Option ℕ) (p : Panorama)
    → Inv p
    → p.attached ≡ true
    → target < 6
    → find_slot target p.window ≡ o
    → Selects (some target) (selection p) (selection (switch_or_swap found target o p).0)
unfolding switch_or_swap
switch_or_swap-Selects found target (some i) p v a h e =
    subst
      (λ b. Selects (some target) (selection p) (record {
        chosen = sensor_at i p.window;
        shown = shown_by b (sensor_at i p.window);
        coming = sensor_of p.pending;
      }))
      (sym a)
      (subst
        (λ c.
          Selects (some target) (selection p) (record (selection p) { chosen = c; shown = some c }))
        (sym (find_slot_bound target p.window i e).1) (shows target h))
switch_or_swap-Selects found target none p v a h e = elim (Bool-cases p.swap_in_progress) [
  | inl busy ↦ simp busy ignores
  | inr idle ↦ simp idle (
      arm-Selects found target (furthest_slot p.window p.active_slot target) p h
        (idle_pending p.pending p.window p.swap_in_progress v.pending idle))
]

taken :
    (found : Bool) (target : ℕ) (p : Panorama)
    → leb num_cameras target ≡ false
    → p.attached ≡ true
    → (target == sensor_at p.active_slot p.window) ≡ false
    → select_camera found target p ≡ switch_or_swap found target (find_slot target p.window) p
unfolding select_camera
taken found target p e a s = simp (e, a, s) refl

select_camera-Selects :
    (found : Bool) (target : ℕ) (p : Panorama)
    → Inv p
    → Selects (some target) (selection p) (selection (select_camera found target p).0)
unfolding select_camera
select_camera-Selects found target p v = elim (Bool-cases (leb num_cameras target)) [
  | inl e ↦ simp e ignores
  | inr e ↦ elim (Bool-cases p.attached) [
    | inr a ↦ simp (e, a) ignores
    | inl a ↦ elim (Bool-cases (target == sensor_at p.active_slot p.window)) [
      | inl s ↦ simp (e, a, s) ignores
      | inr s ↦
          subst (λ q. Selects (some target) (selection p) (selection q.0))
            (sym (taken found target p e a s))
            (switch_or_swap-Selects found target (find_slot target p.window) p v a
              (ground (arith, e)) refl)
    ]
  ]
]

-- The camera that was on its way is chosen, and shown where there is a selector.
comes :
    (p : Panorama) (c : ℕ)
    → sensor_of p.pending ≡ some c
    → Selects none
        (selection p)
        (record { chosen = c; shown = shown_by p.attached c; coming = none })
comes p c e = elim (Bool-cases p.attached) [
  | inl a ↦
      subst
        (λ b.
          Selects none (selection p) (record { chosen = c; shown = shown_by b c; coming = none }))
        (sym a) (arrives c e)
  | inr a ↦
      subst
        (λ b.
          Selects none (selection p) (record { chosen = c; shown = shown_by b c; coming = none }))
        (sym a) (arrives_unseen c e (ap (λ b. shown_by b (sensor_at p.active_pad p.window)) a))
]

pub swapped_pad :
    (b : Bool) (slot pad c : ℕ) (w : Window)
    → sensor_at slot w ≡ c
    → shown_by b (sensor_at (if b then slot else pad) w) ≡ shown_by b c
swapped_pad true slot pad c w e = ap some e
swapped_pad false slot pad c w e = refl

run_swap-Selects :
    (o : Option (ℕ × ℕ)) (p : Panorama)
    → p.pending ≡ o
    → Inv p
    → Selects none (selection p) (selection (run_swap o p))
unfolding run_swap
run_swap-Selects none p e v = ignores
run_swap-Selects (some (slot, sensor)) p e v =
    let waits : IsPending p.window p.swap_in_progress (some (slot, sensor)) = rw e at v.pending in
    let w = set_sensor slot sensor p.window in
    let placed = sensor_at-set_sensor slot sensor p.window waits.0.slot_bound in
    subst
      (λ c. Selects none (selection p) (record {
        chosen = c;
        shown = shown_by p.attached (sensor_at (if p.attached then slot else p.active_pad) w);
        coming = none;
      }))
      (sym placed)
      (subst
        (λ o. Selects none (selection p) (record { chosen = sensor; shown = o; coming = none }))
        (sym (swapped_pad p.attached slot p.active_pad sensor w placed))
        (comes p sensor (ap sensor_of e)))

Step-Selects :
    {p q : Panorama} (s : Step p q) → Inv p → Selects (asked s) (selection p) (selection q)
unfolding asked swap_camera_probe reset_window attach_selector detach_selector stop_pipeline
Step-Selects {p} (selects found target) v = select_camera-Selects found target p v
Step-Selects {p} probes v = run_swap-Selects p.pending p refl v
Step-Selects {p} (resets a e) v =
    subst
      (λ o.
        Selects none (selection p) (record { chosen = 0; shown = o; coming = sensor_of p.pending }))
      (ap (λ b. shown_by b (sensor_at p.active_pad p.window)) a
        ∙ sym (ap (λ b. shown_by b (sensor_at p.active_pad (reset_window p).window)) a))
      (restarts (ap sensor_of e) (ap (λ b. shown_by b (sensor_at p.active_pad p.window)) a))
Step-Selects attaches v = attached
Step-Selects detaches v = detached
Step-Selects stops v = drops

-- The cameras that a run asks for, the latest first.
pub all_asked : {p q : Panorama} → Reach p q → List (Option ℕ)
all_asked here = []
all_asked (next r s) = asked s ∷ all_asked r

-- A run of the selection with the same requests.
pub data AllSelects (v : Selection) : List (Option ℕ) → Selection → Type 0 where
  start : AllSelects v [] v
  then_selects :
      {requests : List (Option ℕ)} {request : Option ℕ} {u w : Selection}
      → AllSelects v requests u
      → Selects request u w
      → AllSelects v (request ∷ requests) w

-- Panoramic mode keeps its promise: from a state in which the invariant holds, every interleaving of
-- datagrams, probes, resets and pipeline changes is, seen from outside, a run of the selection with
-- the same requests: a camera is shown only when it is asked for, when it was asked for before and
-- its swap has run, or when a selector is attached, which shows the chosen camera.
pub Reach-AllSelects :
    {p q : Panorama} (r : Reach p q) → Inv p → AllSelects (selection p) (all_asked r) (selection q)
unfolding all_asked
Reach-AllSelects here v = start
Reach-AllSelects (next r s) v = then_selects (Reach-AllSelects r v) (Step-Selects s (Reach-Inv r v))
