-- ===== src/Driver/Panorama/Overtaken.antt =====
-- Datagrams that come while a swap waits, in panoramic mode of streaming_driver/main.cpp.
use but_telepresence.Prelude.{ℕ, ◌<◌, ◌≡◌, Bool, true, Option, some, List, [], ◌∷◌, arith}
use but_telepresence.Driver.Panorama.{
  Panorama, set_sensor, switch_or_swap, run_swap, select_camera, swap_camera_probe,
}
use but_telepresence.Driver.Panorama.Invariant.{Inv, IsPending}
use but_telepresence.Driver.Panorama.Select.{sensor_at-set_sensor}
use but_telepresence.Driver.Panorama.Selection.{selection, shown_by, swapped_pad}

-- Datagrams that come one after the other, each with whether the elements of the slot are found.
unfoldable pub select_cameras : List (Bool × ℕ) → Panorama → Panorama
select_cameras [] p = p
select_cameras ((found, target) ∷ ds) p = select_cameras ds (select_camera found target p).0

-- A datagram leaves a swap that waits.
select_camera-waits :
    (found : Bool) (target : ℕ) (o : Option (ℕ × ℕ)) (p : Panorama)
    → p.swap_in_progress ≡ true
    → p.pending ≡ o
    → ((select_camera found target p).0.swap_in_progress ≡ true)
      × ((select_camera found target p).0.pending ≡ o)
unfolding select_camera switch_or_swap
select_camera-waits found target o p b e = ground (arith, b, e)

-- The camera is that of the active slot, and that of the pad which the selector passes on, where there
-- is a selector.
abbrev pub IsShown : ℕ → Panorama → Type 0
IsShown target p =
    ((selection p).chosen ≡ target) × ((selection p).shown ≡ shown_by p.attached target)

probe_shows :
    (slot target : ℕ) (p : Panorama)
    → slot < 3
    → p.pending ≡ some (slot, target)
    → IsShown target (swap_camera_probe p)
unfolding swap_camera_probe run_swap
probe_shows slot target p h e =
    let placed = sensor_at-set_sensor slot target p.window h in
    simp e (
      placed,
      swapped_pad p.attached slot p.active_pad target (set_sensor slot target p.window) placed,
    )

overtakes :
    (ds : List (Bool × ℕ)) (p : Panorama) (slot target : ℕ)
    → slot < 3
    → p.swap_in_progress ≡ true
    → p.pending ≡ some (slot, target)
    → IsShown target (swap_camera_probe (select_cameras ds p))
unfolding select_cameras
overtakes [] p slot target h b e = probe_shows slot target p h e
overtakes ((found, c) ∷ ds) p slot target h b e =
    let w = select_camera-waits found c (some (slot, target)) p b e in
    overtakes ds (select_camera found c p).0 slot target h w.0 w.1

-- An earlier request overtakes the later ones: while a swap waits, in a state in which the invariant
-- holds, whatever cameras are asked for by whatever datagrams, the probe then shows the camera of
-- the swap.
pub earlier_request_lem :
    (ds : List (Bool × ℕ)) (p : Panorama) (slot target : ℕ)
    → Inv p
    → p.pending ≡ some (slot, target)
    → IsShown target (swap_camera_probe (select_cameras ds p))
earlier_request_lem ds p slot target v e =
    let waits : IsPending p.window p.swap_in_progress (some (slot, target)) = rw e at v.pending in
    overtakes ds p slot target waits.0.slot_bound waits.1 e
