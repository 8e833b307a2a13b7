-- ===== src/Examples/Panoramas.antt =====
-- The panoramic window: six cameras, of which three are open.
use but_telepresence.Prelude.{◌≡◌, refl, true, false, none, some, [], ◌∷◌, arith}
use but_telepresence.Driver.Panorama.{
  Panorama, circular_distance, select_camera, swap_camera_probe, furthest_slot, find_slot,
}
use but_telepresence.Driver.Panorama.Invariant.{Inv, Step, Reach, Step-Inv}
use but_telepresence.Driver.Panorama.Selection.{AllSelects, selection, all_asked, Reach-AllSelects}
use but_telepresence.Driver.Panorama.Overtaken.{IsShown, select_cameras, earlier_request_lem}
use but_telepresence.Driver.Panorama.Select.{Shows, select_camera-Shows}

-- The state after a fresh pipeline: cameras 5, 0 and 1, and 0 is shown.
abbrev pub fresh : Panorama
fresh = record {
  window = record { slot_0 = 5; slot_1 = 0; slot_2 = 1 };
  active_slot = 1;
  active_pad = 1;
  attached = true;
  swap_in_progress = false;
  pending = none;
}

pub fresh-Inv : Inv fresh
fresh-Inv = record {
  window = record {
    bound_0 = omega arith;
    bound_1 = omega arith;
    bound_2 = omega arith;
    ne_01 = omega arith;
    ne_02 = omega arith;
    ne_12 = omega arith;
  };
  active = omega arith;
  pending = tt;
}

-- Camera 2 takes the slot of camera 5, which is three steps away.
swap_for_two : (select_camera true 2 fresh).0.pending ≡ some (0, 2)
unfolding select_camera find_slot furthest_slot circular_distance
swap_for_two = refl

select_camera-Shows_example : Shows 2 (swap_camera_probe (select_camera true 2 fresh).0)
select_camera-Shows_example = select_camera-Shows 2 fresh fresh-Inv (omega arith) refl refl refl

-- Camera 2 is asked for, and then camera 5, which is still in the window.
abbrev busy : Panorama
busy = (select_camera true 2 fresh).0

abbrev session : Reach fresh (select_camera true 5 busy).0
session = Reach.next (Reach.next Reach.here (Step.selects true 2)) (Step.selects true 5)

Reach-AllSelects_example :
    AllSelects (selection fresh) (all_asked session) (selection (select_camera true 5 busy).0)
Reach-AllSelects_example = Reach-AllSelects session fresh-Inv

earlier_request_lem_example :
    IsShown 2 (swap_camera_probe (select_cameras ((true, 5) ∷ (false, 1) ∷ []) busy))
earlier_request_lem_example =
    earlier_request_lem ((true, 5) ∷ (false, 1) ∷ []) busy 0 2
      (Step-Inv (Step.selects true 2) fresh-Inv) swap_for_two
