-- ===== src/Examples/Storages.antt =====
-- Preferences as a list of entries, floats as ints, and states saved to them.
use but_telepresence.Prelude.{◌≡◌, refl, true, false, List, [], ◌∷◌, if◌then◌else◌, arith}
use but_telepresence.Prelude.Int.{ℤ, pos}
use but_telepresence.Prelude.Text.{Str, codes, str_eq, str_eq_refl}
use but_telepresence.Prelude.Decimal.{stoi}
use but_telepresence.Prelude.Decimal.RoundTrip.{stoi-to_string}
use but_telepresence.Headset.Enums.{AspectRatioMode}
use but_telepresence.Headset.Resolution.{from_label, fhd}
use but_telepresence.Headset.Config.{default_config}
use but_telepresence.Headset.Storage.{Preferences, Floats, AppState, save_app_state, load_app_state}
use but_telepresence.Headset.Storage.Load.{IsValid, load_app_state-IsValid}
use but_telepresence.Headset.Storage.RoundTrip.{load-save, load-damaged, stored}

abbrev Entries : Type 0
Entries = List (Str × Str)

abbrev get_entry : Entries → Str → Str → Str
get_entry [] key default = default
get_entry ((k, v) ∷ p) key default = if str_eq k key then v else get_entry p key default

get_first :
    (key value default : Str) (p : Entries) → get_entry ((key, value) ∷ p) key default ≡ value
get_first key value default p = rw (str_eq_refl key) refl

get_later :
    (key other value default : Str) (p : Entries)
    → str_eq other key ≡ false
    → get_entry ((other, value) ∷ p) key default ≡ get_entry p key default
get_later key other value default p h = rw h refl

abbrev entries : Preferences Entries
entries = record {
  put_string = λ key value p. (key, value) ∷ p;
  get_string = get_entry;
  get_put = get_first;
  get_put_other = get_later;
}

abbrev ints : Floats ℤ
ints = record {
  scaled = λ x n. x;
  of_int = λ v. v;
  divided = λ x n. x;
  stof = stoi;
  stof-to_string = stoi-to_string;
}

abbrev pub first_state : AppState ℤ
first_state = record {
  streaming_config = default_config;
  aspect_ratio_mode = AspectRatioMode.full_fov;
  head_movement_max_speed = 990000;
  head_movement_prediction_ms = 50;
  head_movement_speed_multiplier = pos 15;
  robot_control_enabled = true;
  stereo_convergence = pos 0;
}

abbrev other_state : AppState ℤ
other_state = record first_state {
  streaming_config = record default_config { jetson_ip = 192 ∷ 168 ∷ 1 ∷ 7 ∷ []; fps = pos 30 };
  head_movement_max_speed = 4000000000;
  robot_control_enabled = false;
}

other_state-IsValid : IsValid other_state
unfolding default_config from_label fhd
other_state-IsValid = record {
  streaming_config = record {
    headset_ip = omega arith;
    jetson_ip = omega arith;
    port_left = refl;
    port_right = refl;
    codec = refl;
    codec_named = refl;
    encoding_quality = refl;
    bitrate = refl;
    resolution = refl;
    video_mode = refl;
    video_mode_named = refl;
    fps = refl;
  };
  aspect_ratio_mode = refl;
  aspect_ratio_mode_named = refl;
  head_movement_max_speed = omega arith;
  head_movement_prediction_ms = omega arith;
}

load-save_example :
    load_app_state entries ints (save_app_state entries ints other_state []) first_state
    ≡ stored entries ints other_state
load-save_example =
    load-save entries ints other_state first_state [] other_state-IsValid (refl, refl)

load-damaged_example :
    load_app_state entries ints
      ((codes "resolution", codes "4K") ∷ save_app_state entries ints other_state [])
      first_state
    ≡ record first_state {
      streaming_config = record other_state.streaming_config {
        resolution = first_state.streaming_config.resolution;
        video_mode = first_state.streaming_config.video_mode;
        fps = first_state.streaming_config.fps;
      };
    }
load-damaged_example =
    load-damaged entries ints other_state first_state [] (codes "4K") other_state-IsValid
      (unfold from_label in refl)

load_app_state-IsValid_example : IsValid (
    load_app_state entries ints
      ((codes "headset_ip", codes "1.2.3.4.") ∷ (codes "jetson_ip", codes "1.2.3") ∷ [])
      other_state)
load_app_state-IsValid_example =
    load_app_state-IsValid entries ints
      ((codes "headset_ip", codes "1.2.3.4.") ∷ (codes "jetson_ip", codes "1.2.3") ∷ []) other_state
      other_state-IsValid
