-- ===== src/Driver/Panorama.antt =====
-- streaming_driver/main.cpp, panoramic mode: CircularDistance, the handling of a datagram in
-- CameraSelectListener, the state changes of SwapCameraProbe, and those that RunPanoramicPipeline
-- makes under selector_mutex. The mutex makes each of them one step.
-- GStreamer is outside: a swap that was armed is `pending` until its probe runs.
pub mod Distance
pub mod Frame
pub mod Invariant
pub mod Select
pub mod Selection
pub mod Overtaken
use but_telepresence.Prelude.{
  ℕ, suc, ◌-◌, ◌<◌, ◌≡◌, Bool, true, false, not, ◌&&◌, ◌||◌, Option, none, some, ltb, leb, ◌==◌,
  if◌then◌else◌,
}
use but_telepresence.Prelude.Int.{ℤ, pos, negsuc, sub_ℕ, min_ℤ, ltb_ℤ}

abbrev pub num_cameras : ℕ
num_cameras = 6

-- window_sensors, the sensor of each of the three slots.
pub record Window : Type 0 where
  pub slot_0 : ℕ
  pub slot_1 : ℕ
  pub slot_2 : ℕ

abbrev pub sensor_at : ℕ → Window → ℕ
sensor_at i w = if i == 0 then w.slot_0 else if i == 1 then w.slot_1 else w.slot_2

abbrev pub set_sensor : ℕ → ℕ → Window → Window
set_sensor i c w =
    if i == 0
    then record w { slot_0 = c }
    else if i == 1
    then record w { slot_1 = c }
    else record w { slot_2 = c }

-- std::abs(a - b) and the shorter way round, for sensors that are not negative.
unfoldable pub circular_distance : ℕ → ℕ → ℤ
circular_distance a b =
    let diff = if ltb a b then b - a else a - b in min_ℤ (pos diff) (sub_ℕ num_cameras diff)

pub record Panorama : Type 0 where
  pub window : Window
  pub active_slot : ℕ
  -- the slot whose pad the input-selector passes on
  pub active_pad : ℕ
  -- panoramic_selector and panoramic_pipeline_ptr are set, with the pads of the three slots
  pub attached : Bool
  pub swap_in_progress : Bool
  -- slot and newSensorId of a SwapContext whose probe has not run
  pub pending : Option (ℕ × ℕ)

-- The first slot that shows the camera.
unfoldable pub find_slot : ℕ → Window → Option ℕ
find_slot c w =
    if w.slot_0 == c
    then some 0
    else if w.slot_1 == c
    then some 1
    else if w.slot_2 == c
    then some 2
    else none

-- swap_slot (`none` for -1) and max_dist of the search for the slot to swap.
pub record Search : Type 0 where
  pub swap_slot : Option ℕ
  pub max_dist : ℤ

-- One round of the search, for slot `i`.
consider : ℕ → Window → (active target : ℕ) → Search → Search
consider i w active target s =
    let dist = circular_distance (sensor_at i w) target in
    if i == active
    then s
    else if ltb_ℤ s.max_dist dist
    then record { swap_slot = some i; max_dist = dist }
    else s

unfoldable pub furthest_slot : Window → (active target : ℕ) → Option ℕ
unfolding consider
furthest_slot w active target =
    let start : Search = record { swap_slot = none; max_dist = negsuc 0 } in
    let end =
      consider 2 w active target (consider 1 w active target (consider 0 w active target start)) in
    end.swap_slot

-- Arming the swap: the queue of the slot and its pad may be missing.
arm : (found : Bool) → ℕ → Option ℕ → Panorama → Panorama
arm found target none p = p
arm found target (some slot) p =
    if found then record p { pending = some (slot, target); swap_in_progress = true } else p

switch_or_swap : (found : Bool) → ℕ → Option ℕ → Panorama → Panorama × Bool
unfolding arm
switch_or_swap found target (some slot) p =
    (record p { active_pad = slot; active_slot = slot }, true)
switch_or_swap found target none p =
    if not p.swap_in_progress
    then (arm found target (furthest_slot p.window p.active_slot target) p, false)
    else (p, false)

-- A datagram whose first byte is `target`; the Boolean is need_keyframe. An empty or late datagram
-- changes nothing.
unfoldable pub select_camera : (found : Bool) → (target : ℕ) → Panorama → Panorama × Bool
unfolding switch_or_swap
select_camera found target p =
    if leb num_cameras target
    then (p, false)
    else if not p.attached
    then (p, false)
    else if target == sensor_at p.active_slot p.window
    then (p, false)
    else switch_or_swap found target (find_slot target p.window) p

run_swap : Option (ℕ × ℕ) → Panorama → Panorama
run_swap none p = p
run_swap (some (slot, sensor)) p = record p {
  window = set_sensor slot sensor p.window;
  active_slot = slot;
  active_pad = if p.attached then slot else p.active_pad;
  swap_in_progress = false;
  pending = none;
}

-- SwapCameraProbe, for the swap that is pending.
unfoldable pub swap_camera_probe : Panorama → Panorama
unfolding run_swap
swap_camera_probe p = run_swap p.pending p

-- The reset before a pipeline is built.
unfoldable pub reset_window : Panorama → Panorama
reset_window p = record p {
  window = record { slot_0 = 5; slot_1 = 0; slot_2 = 1 };
  active_slot = 1;
  swap_in_progress = false;
}

-- The selector and its pads are cached, and the initial pad is made active.
unfoldable pub attach_selector : Panorama → Panorama
attach_selector p = record p { attached = true; active_pad = p.active_slot }

-- The selector and the pads are let go before the pipeline is stopped.
unfoldable pub detach_selector : Panorama → Panorama
detach_selector p = record p { attached = false }

-- A stopped pipeline runs no more probes.
unfoldable pub stop_pipeline : Panorama → Panorama
stop_pipeline p = record p { pending = none }
