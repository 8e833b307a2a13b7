-- ===== src/Driver/Panorama/Invariant.antt =====
-- What holds of the panoramic window in every interleaving of the listener, the probe and the
-- thread that runs the pipeline.
use but_telepresence.Prelude.{
  ℕ, ◌<◌, ◌≡◌, ◌≢◌, refl, Bool, true, false, Option, none, some, arith, inl, inr, Bool-cases,
}
use but_telepresence.Driver.Panorama.{
  Window, Panorama, sensor_at, set_sensor, find_slot, furthest_slot, consider, arm, switch_or_swap,
  run_swap, select_camera, swap_camera_probe, reset_window, attach_selector, detach_selector,
  stop_pipeline,
}

-- No camera is opened twice, and each is one of the six.
pub record IsWindow (w : Window) : Type 0 where
  pub bound_0 : w.slot_0 < 6
  pub bound_1 : w.slot_1 < 6
  pub bound_2 : w.slot_2 < 6
  pub ne_01 : w.slot_0 ≢ w.slot_1
  pub ne_02 : w.slot_0 ≢ w.slot_2
  pub ne_12 : w.slot_1 ≢ w.slot_2

-- A swap that waits brings a camera that no slot shows into one of the slots.
pub record IsSwap (w : Window) (slot sensor : ℕ) : Type 0 where
  pub slot_bound : slot < 3
  pub sensor_bound : sensor < 6
  pub new_0 : w.slot_0 ≢ sensor
  pub new_1 : w.slot_1 ≢ sensor
  pub new_2 : w.slot_2 ≢ sensor

abbrev pub IsPending : Window → Bool → Option (ℕ × ℕ) → Type 0
IsPending w b none = Unit {0}
IsPending w b (some (slot, sensor)) = IsSwap w slot sensor × (b ≡ true)

pub record Inv (p : Panorama) : Type 0 where
  pub window : IsWindow p.window
  pub active : p.active_slot < 3
  pub pending : IsPending p.window p.swap_in_progress p.pending

-- The steps of the program. A window is reset only when the selector was let go and the old
-- pipeline was stopped.
pub data Step : Panorama → Panorama → Type 0 where
  selects : {p : Panorama} (found : Bool) (target : ℕ) → Step p (select_camera found target p).0
  probes : {p : Panorama} → Step p (swap_camera_probe p)
  resets : {p : Panorama} → p.attached ≡ false → p.pending ≡ none → Step p (reset_window p)
  attaches : {p : Panorama} → Step p (attach_selector p)
  detaches : {p : Panorama} → Step p (detach_selector p)
  stops : {p : Panorama} → Step p (stop_pipeline p)

pub data Reach (p : Panorama) : Panorama → Type 0 where
  here : Reach p p
  next : {q r : Panorama} → Reach p q → Step q r → Reach p r

set_sensor-IsWindow :
    (w : Window) (slot sensor : ℕ)
    → IsWindow w
    → IsSwap w slot sensor
    → IsWindow (set_sensor slot sensor w)
set_sensor-IsWindow w slot sensor v s = ground arith

pub find_slot_bound :
    (c : ℕ) (w : Window) (i : ℕ) → find_slot c w ≡ some i → (i < 3) × (sensor_at i w ≡ c)
unfolding find_slot
find_slot_bound c w i h = ground arith

find_slot_none :
    (c : ℕ) (w : Window) → find_slot c w ≡ none → (w.slot_0 ≢ c) × (w.slot_1 ≢ c) × (w.slot_2 ≢ c)
unfolding find_slot
find_slot_none c w h = ground arith

furthest_slot_bound :
    (w : Window) (active target i : ℕ) → furthest_slot w active target ≡ some i → i < 3
unfolding furthest_slot consider
furthest_slot_bound w active target i h = ground arith

arm-Inv :
    (found : Bool) (target : ℕ) (slot : Option ℕ) (p : Panorama)
    → Inv p
    → target < 6
    → find_slot target p.window ≡ none
    → ((i : ℕ) → slot ≡ some i → i < 3)
    → Inv (arm found target slot p)
unfolding arm
arm-Inv found target none p v h n b = v
arm-Inv false target (some i) p v h n b = v
arm-Inv true target (some i) p v h n b =
    let fresh = find_slot_none target p.window n in
    record {
      window = v.window;
      active = v.active;
      pending = (
        record {
          slot_bound = b i refl;
          sensor_bound = h;
          new_0 = fresh.0;
          new_1 = fresh.1;
          new_2 = fresh.2;
        },
        refl,
      );
    }

switch_or_swap-Inv :
    (found : Bool) (target : ℕ) (slot : Option ℕ) (p : Panorama)
    → Inv p
    → target < 6
    → find_slot target p.window ≡ slot
    → Inv (switch_or_swap found target slot p).0
unfolding switch_or_swap
switch_or_swap-Inv found target (some i) p v h e = record {
  window = v.window;
  active = (find_slot_bound target p.window i e).0;
  pending = v.pending;
}
switch_or_swap-Inv found target none p v h e = elim (Bool-cases p.swap_in_progress) [
  | inl busy ↦ simp busy v
  | inr idle ↦ simp idle (
      arm-Inv found target (furthest_slot p.window p.active_slot target) p v h e
        (λ i. furthest_slot_bound p.window p.active_slot target i))
]

select_camera-Inv :
    (found : Bool) (target : ℕ) (p : Panorama) → Inv p → Inv (select_camera found target p).0
unfolding select_camera
select_camera-Inv found target p v =
    ground (arith, v, switch_or_swap-Inv found target (find_slot target p.window) p v)

run_swap-Inv : (o : Option (ℕ × ℕ)) (p : Panorama) → p.pending ≡ o → Inv p → Inv (run_swap o p)
unfolding run_swap
run_swap-Inv none p e v = v
run_swap-Inv (some (slot, sensor)) p e v =
    let waits : IsPending p.window p.swap_in_progress (some (slot, sensor)) = rw e at v.pending in
    record {
      window = set_sensor-IsWindow p.window slot sensor v.window waits.0;
      active = waits.0.slot_bound;
      pending = tt;
    }

swap_camera_probe-Inv : (p : Panorama) → Inv p → Inv (swap_camera_probe p)
unfolding swap_camera_probe
swap_camera_probe-Inv p v = run_swap-Inv p.pending p refl v

reset_window-Inv : (p : Panorama) → p.pending ≡ none → Inv (reset_window p)
unfolding reset_window
reset_window-Inv p e = record {
  window = record {
    bound_0 = omega arith;
    bound_1 = omega arith;
    bound_2 = omega arith;
    ne_01 = omega arith;
    ne_02 = omega arith;
    ne_12 = omega arith;
  };
  active = omega arith;
  pending = rw e tt;
}

pub Step-Inv : {p q : Panorama} → Step p q → Inv p → Inv q
unfolding attach_selector detach_selector stop_pipeline
Step-Inv {p} (selects found target) v = select_camera-Inv found target p v
Step-Inv {p} probes v = swap_camera_probe-Inv p v
Step-Inv {p} (resets a e) v = reset_window-Inv p e
Step-Inv attaches v = record { window = v.window; active = v.active; pending = v.pending }
Step-Inv detaches v = record { window = v.window; active = v.active; pending = v.pending }
Step-Inv stops v = record { window = v.window; active = v.active; pending = tt }

-- In every interleaving of datagrams, probes, resets and pipeline changes, from a state in which
-- the invariant holds: the three slots hold three different cameras of the six, the active slot is
-- one of the three, and a swap that waits brings in a camera that no slot shows.
pub Reach-Inv : {p q : Panorama} → Reach p q → Inv p → Inv q
Reach-Inv here v = v
Reach-Inv (next r s) v = Step-Inv s (Reach-Inv r v)
