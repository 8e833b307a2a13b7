-- ===== src/Driver/Panorama/Select.antt =====
-- What a datagram brings about: which camera is shown, and which slot a new camera takes.
use but_telepresence.Prelude.{
  ℕ, ◌<◌, ◌≡◌, ◌≢◌, refl, Bool, true, false, Option, none, some, arith, if◌then◌else◌, zero, suc,
  ltb,
}
use but_telepresence.Prelude.Int.{ℤ, ◌≤ℤ◌, pos}
use but_telepresence.Driver.Panorama.{
  Window, Panorama, sensor_at, set_sensor, find_slot, furthest_slot, circular_distance, consider,
  arm, switch_or_swap, run_swap, select_camera, swap_camera_probe,
}
use but_telepresence.Driver.Panorama.Distance.{circular_distance-steps}
use but_telepresence.Driver.Panorama.Invariant.{Inv, IsWindow, IsPending, find_slot_bound}

-- Among cameras of the ring a distance is not negative.
circular_distance_pos : (a b : ℕ) → a < 6 → b < 6 → (d : ℕ) × (circular_distance a b ≡ pos d)
circular_distance_pos a b ha hb = (_, circular_distance-steps a b ha hb)

abbrev distance_at : Window → ℕ → ℕ → ℤ
distance_at w target j = circular_distance (sensor_at j w) target

-- What is promised of the slot that is given up.
pub record GivesWay (w : Window) (active target i : ℕ) : Type 0 where
  pub chosen : furthest_slot w active target ≡ some i
  pub bound : i < 3
  pub inactive : i ≢ active
  pub furthest :
      (j : ℕ)
      → j < 3
      → j ≢ active
      → circular_distance (sensor_at j w) target ≤ℤ circular_distance (sensor_at i w) target

module _ (w : Window) (target d0 d1 d2 : ℕ) (e0 : circular_distance w.slot_0 target ≡ pos d0)
    (e1 : circular_distance w.slot_1 target ≡ pos d1)
    (e2 : circular_distance w.slot_2 target ≡ pos d2) where
  furthest_by_distance : (active : ℕ) → active < 3 → (i : ℕ) × GivesWay w active target i
  unfolding furthest_slot consider
  furthest_by_distance zero h = (
    (if ltb d1 d2 then 2 else 1),
    record {
      chosen = ground arith;
      bound = ground arith;
      inactive = ground arith;
      furthest = λ j b n. ground arith;
    },
  )
  furthest_by_distance (suc zero) h = (
    (if ltb d0 d2 then 2 else 0),
    record {
      chosen = ground arith;
      bound = ground arith;
      inactive = ground arith;
      furthest = λ j b n. ground arith;
    },
  )
  furthest_by_distance (suc (suc zero)) h = (
    (if ltb d0 d1 then 1 else 0),
    record {
      chosen = ground arith;
      bound = ground arith;
      inactive = ground arith;
      furthest = λ j b n. ground arith;
    },
  )
  furthest_by_distance (suc (suc (suc a))) h = absurd (omega arith)

-- In a window of three of the six cameras, for a camera of the six and an active slot of the
-- three, a slot is chosen to give way: it is not the active one, and of the others none holds a
-- camera further from the new one.
pub furthest_slot-GivesWay :
    (w : Window) (active target : ℕ)
    → IsWindow w
    → active < 3
    → target < 6
    → (i : ℕ) × GivesWay w active target i
furthest_slot-GivesWay w active target v h t =
    let (d0, e0) = circular_distance_pos w.slot_0 target v.bound_0 t in
    let (d1, e1) = circular_distance_pos w.slot_1 target v.bound_1 t in
    let (d2, e2) = circular_distance_pos w.slot_2 target v.bound_2 t in
    furthest_by_distance w target d0 d1 d2 e0 e1 e2 active h

-- The active slot shows the camera, and the selector passes that slot on.
abbrev pub Shows : ℕ → Panorama → Type 0
Shows target q = (sensor_at q.active_slot q.window ≡ target) × (q.active_pad ≡ q.active_slot)

pub idle_pending :
    (o : Option (ℕ × ℕ)) (w : Window) (b : Bool) → IsPending w b o → b ≡ false → o ≡ none
idle_pending none w b h e = refl
idle_pending (some (slot, sensor)) w b h e = cc

pub sensor_at-set_sensor : (i c : ℕ) (w : Window) → i < 3 → sensor_at i (set_sensor i c w) ≡ c
sensor_at-set_sensor i c w h = ground arith

module _ (target : ℕ) (p : Panorama) (attached : p.attached ≡ true) where
  probe_idle : p.pending ≡ none → Shows target p → Shows target (swap_camera_probe p)
  unfolding swap_camera_probe run_swap
  probe_idle e s = simp e s

  armed-Shows : (i : ℕ) → i < 3 → Shows target (swap_camera_probe (arm true target (some i) p))
  unfolding swap_camera_probe run_swap arm
  armed-Shows i h = (sensor_at-set_sensor i target p.window h, ground arith)

  switch_or_swap-Shows :
      (slot : Option ℕ)
      → Inv p
      → target < 6
      → p.swap_in_progress ≡ false
      → p.pending ≡ none
      → find_slot target p.window ≡ slot
      → Shows target (swap_camera_probe (switch_or_swap true target slot p).0)
  unfolding switch_or_swap swap_camera_probe run_swap
  switch_or_swap-Shows (some i) v h s e f = simp e ((find_slot_bound target p.window i f).1, refl)
  switch_or_swap-Shows none v h s e f =
      let (i, g) = furthest_slot-GivesWay p.window p.active_slot target v.window v.active h in
      simp s (rw g.chosen (armed-Shows i g.bound))

-- A camera is reached by one datagram and, if it takes a swap, one probe: with the selector in
-- place and passing the active slot on, no swap in progress, the elements of the slot found and the
-- invariant, after a datagram for one of the six cameras and then the probe of the swap that it may
-- have armed, the active slot shows that camera and the selector passes that slot on.
pub select_camera-Shows :
    (target : ℕ) (p : Panorama)
    → Inv p
    → target < 6
    → p.attached ≡ true
    → p.swap_in_progress ≡ false
    → p.active_pad ≡ p.active_slot
    → Shows target (swap_camera_probe (select_camera true target p).0)
unfolding select_camera
select_camera-Shows target p v h a s pad =
    let e = idle_pending p.pending p.window p.swap_in_progress v.pending s in
    ground (
      arith,
      e,
      probe_idle target p a e,
      switch_or_swap-Shows target p a (find_slot target p.window) v h s e refl,
    )
