-- ===== src/Driver/Panorama/Frame.antt =====
-- What the steps of panoramic mode in streaming_driver/main.cpp leave alone.
use but_telepresence.Prelude.{ℕ, ◌≡◌, refl, Bool, false, Option, none, some, arith}
use but_telepresence.Driver.Panorama.{
  Panorama, select_camera, switch_or_swap, arm, swap_camera_probe, run_swap, find_slot,
  furthest_slot,
}

arm-attached :
    (found : Bool) (target : ℕ) (o : Option ℕ) (p : Panorama)
    → (arm found target o p).attached ≡ p.attached
unfolding arm
arm-attached found target none p = refl
arm-attached found target (some slot) p = ground arith

switch_or_swap-attached :
    (found : Bool) (target : ℕ) (o : Option ℕ) (p : Panorama)
    → (switch_or_swap found target o p).0.attached ≡ p.attached
unfolding switch_or_swap
switch_or_swap-attached found target (some slot) p = refl
switch_or_swap-attached found target none p =
    ground (arith, arm-attached found target (furthest_slot p.window p.active_slot target) p)

pub select_camera-attached :
    (found : Bool) (target : ℕ) (p : Panorama)
    → (select_camera found target p).0.attached ≡ p.attached
unfolding select_camera
select_camera-attached found target p =
    ground (arith, switch_or_swap-attached found target (find_slot target p.window) p)

-- Without a selector a datagram arms no swap.
pub select_camera-pending :
    (found : Bool) (target : ℕ) (p : Panorama)
    → p.attached ≡ false
    → (select_camera found target p).0.pending ≡ p.pending
unfolding select_camera
select_camera-pending found target p e = ground (arith, e)

run_swap-frame :
    (o : Option (ℕ × ℕ)) (p : Panorama)
    → p.pending ≡ o
    → ((run_swap o p).attached ≡ p.attached) × ((run_swap o p).pending ≡ none)
unfolding run_swap
run_swap-frame none p e = (refl, e)
run_swap-frame (some (slot, sensor)) p e = (refl, refl)

-- After the probe no swap waits.
pub swap_camera_probe-frame :
    (p : Panorama)
    → ((swap_camera_probe p).attached ≡ p.attached) × ((swap_camera_probe p).pending ≡ none)
unfolding swap_camera_probe
swap_camera_probe-frame p = run_swap-frame p.pending p refl
