-- ===== src/Headset/Storage/RoundTrip.antt =====
-- What LoadAppState gives back of what SaveAppState stored.
use but_telepresence.Prelude.{
  ℕ, ◌^◌, ◌<◌, ◌≡◌, refl, ◌∙◌, ap, Bool, true, false, not, none, some, arith,
}
use but_telepresence.Prelude.Int.{ℤ, pos, int_eq}
use but_telepresence.Prelude.Words.{cast, signed32}
use but_telepresence.Prelude.Text.{Str, codes, str_eq}
use but_telepresence.Prelude.Decimal.{stoi, to_string, in_int_range}
use but_telepresence.Prelude.Decimal.RoundTrip.{stoi-to_string}
use but_telepresence.Headset.Enums.{codec_to_int, video_mode_to_int, aspect_ratio_mode_to_int}
use but_telepresence.Headset.Resolution.{from_label}
use but_telepresence.Headset.Address.{string_to_ip}
use but_telepresence.Headset.Address.RoundTrip.{string_to_ip-ip_to_string}
use but_telepresence.Headset.Storage.{
  Preferences, Floats, int_of_bool, AppState, run, assignments, load_value, saved_values,
  save_app_state, load_app_state,
}
use but_telepresence.Headset.Storage.Values.{last_value, get-save_values}
use but_telepresence.Headset.Storage.Load.{IsValid}

signed32_in_range : (w : ℕ) → w < 2 ^ 32 → in_int_range (signed32 w) ≡ true
signed32_in_range w h = ground (arith, h)

cast-signed32 : (w : ℕ) → w < 2 ^ 32 → cast (2 ^ 32) (signed32 w) ≡ w
cast-signed32 w h = ground (arith, h)

int_of_bool_in_range : (b : Bool) → in_int_range (int_of_bool b) ≡ true
int_of_bool_in_range true = refl
int_of_bool_in_range false = refl

int_of_bool-back : (b : Bool) → not (int_eq (int_of_bool b) (pos 0)) ≡ b
int_of_bool-back true = refl
int_of_bool-back false = refl

module _ {ℓ κ} {P : Type ℓ} {F : Type κ} (pr : Preferences P) (fl : Floats F) where
  -- The state as it is stored: a float is cut to tenths or thousandths.
  unfoldable pub stored : AppState F → AppState F
  stored a = record a {
    head_movement_speed_multiplier =
        fl.divided (fl.of_int (fl.scaled a.head_movement_speed_multiplier 10)) 10;
    stereo_convergence = fl.divided (fl.of_int (fl.scaled a.stereo_convergence 1000)) 1000;
  }

  -- The scaled floats are numbers of type int.
  abbrev pub HasIntFloats : AppState F → Type 0
  HasIntFloats a =
      (in_int_range (fl.scaled a.head_movement_speed_multiplier 10) ≡ true)
      × (in_int_range (fl.scaled a.stereo_convergence 1000) ≡ true)

  text-saved :
      (key value : Str) (a : AppState F) (p : P)
      → last_value key (saved_values fl a) ≡ some value
      → load_value pr (save_app_state pr fl a p) key ≡ value
  unfolding save_app_state load_value
  text-saved key value a p h =
      get-save_values pr key (codes "unknown") value (saved_values fl a) p h

  int-saved :
      (key : Str) (v : ℤ) (a : AppState F) (p : P)
      → last_value key (saved_values fl a) ≡ some (to_string v)
      → in_int_range v ≡ true
      → stoi (load_value pr (save_app_state pr fl a p) key) ≡ some v
  int-saved key v a p h r = ap stoi (text-saved key (to_string v) a p h) ∙ stoi-to_string v r

  float-saved :
      (key : Str) (v : ℤ) (a : AppState F) (p : P)
      → last_value key (saved_values fl a) ≡ some (to_string v)
      → in_int_range v ≡ true
      → fl.stof (load_value pr (save_app_state pr fl a p) key) ≡ some (fl.of_int v)
  float-saved key v a p h r =
      ap fl.stof (text-saved key (to_string v) a p h) ∙ fl.stof-to_string v r

  -- A valid state that is saved and then loaded, into any state, comes back as it is stored.
  pub load-save :
      (a b : AppState F) (p : P)
      → IsValid a
      → HasIntFloats a
      → load_app_state pr fl (save_app_state pr fl a p) b ≡ stored a
  unfolding load_app_state assignments run saved_values last_value str_eq stored
  load-save a b p v f =
      let c = a.streaming_config in
      let w = v.streaming_config in
      rw
        (
          ap string_to_ip (text-saved (codes "headset_ip") _ a p refl)
              ∙ string_to_ip-ip_to_string c.headset_ip w.headset_ip,
          ap string_to_ip (text-saved (codes "jetson_ip") _ a p refl)
              ∙ string_to_ip-ip_to_string c.jetson_ip w.jetson_ip,
          int-saved (codes "port_left") (c.port_left) a p refl w.port_left,
          int-saved (codes "port_right") (c.port_right) a p refl w.port_right,
          int-saved (codes "codec") (codec_to_int c.codec) a p refl w.codec,
          int-saved (codes "encoding_quality") (c.encoding_quality) a p refl w.encoding_quality,
          int-saved (codes "bitrate") (c.bitrate) a p refl w.bitrate,
          ap from_label (text-saved (codes "resolution") _ a p refl) ∙ w.resolution,
          int-saved (codes "video_mode") (video_mode_to_int c.video_mode) a p refl w.video_mode,
          int-saved (codes "fps") (c.fps) a p refl w.fps,
          int-saved (codes "aspect_ratio_mode") (aspect_ratio_mode_to_int a.aspect_ratio_mode) a p
              refl v.aspect_ratio_mode,
          int-saved (codes "head_movement_max_speed") (signed32 a.head_movement_max_speed) a p refl
              (signed32_in_range _ v.head_movement_max_speed),
          int-saved (codes "head_movement_prediction_ms") (signed32 a.head_movement_prediction_ms) a
              p refl (signed32_in_range _ v.head_movement_prediction_ms),
          float-saved (codes "head_movement_speed_multiplier") _ a p refl f.0,
          int-saved (codes "robot_control_enabled") (int_of_bool a.robot_control_enabled) a p refl
              (int_of_bool_in_range a.robot_control_enabled),
          float-saved (codes "stereo_convergence") _ a p refl f.1,
          w.codec_named,
          w.video_mode_named,
          v.aspect_ratio_mode_named,
          cast-signed32 _ v.head_movement_max_speed,
          cast-signed32 _ v.head_movement_prediction_ms,
          int_of_bool-back a.robot_control_enabled,
        )
        refl

  text-damaged :
      (key value l : Str) (a : AppState F) (p : P)
      → str_eq (codes "resolution") key ≡ false
      → last_value key (saved_values fl a) ≡ some value
      → load_value pr (pr.put_string (codes "resolution") l (save_app_state pr fl a p)) key ≡ value
  text-damaged key value l a p n h =
      unfold load_value in
      pr.get_put_other key (codes "resolution") l (codes "unknown") (save_app_state pr fl a p) n
      ∙ text-saved key value a p h

  int-damaged :
      (key l : Str) (v : ℤ) (a : AppState F) (p : P)
      → str_eq (codes "resolution") key ≡ false
      → last_value key (saved_values fl a) ≡ some (to_string v)
      → in_int_range v ≡ true
      → stoi (load_value pr (pr.put_string (codes "resolution") l (save_app_state pr fl a p)) key)
        ≡ some v
  int-damaged key l v a p n h r =
      ap stoi (text-damaged key (to_string v) l a p n h) ∙ stoi-to_string v r

  -- A saved state in which the label of the resolution is then no longer one of the table: loading
  -- it throws there, the values read before it stay assigned, and all else is as it was.
  pub load-damaged :
      (a b : AppState F) (p : P) (l : Str)
      → IsValid a
      → from_label l ≡ none
      → load_app_state pr fl (pr.put_string (codes "resolution") l (save_app_state pr fl a p)) b
        ≡ record b {
          streaming_config = record a.streaming_config {
            resolution = b.streaming_config.resolution;
            video_mode = b.streaming_config.video_mode;
            fps = b.streaming_config.fps;
          };
        }
  unfolding load_app_state assignments run saved_values last_value str_eq
  load-damaged a b p l v n =
      let c = a.streaming_config in
      let w = v.streaming_config in
      rw
        (
          ap string_to_ip (text-damaged (codes "headset_ip") _ l a p refl refl)
              ∙ string_to_ip-ip_to_string c.headset_ip w.headset_ip,
          ap string_to_ip (text-damaged (codes "jetson_ip") _ l a p refl refl)
              ∙ string_to_ip-ip_to_string c.jetson_ip w.jetson_ip,
          int-damaged (codes "port_left") l (c.port_left) a p refl refl w.port_left,
          int-damaged (codes "port_right") l (c.port_right) a p refl refl w.port_right,
          int-damaged (codes "codec") l (codec_to_int c.codec) a p refl refl w.codec,
          int-damaged (codes "encoding_quality") l (c.encoding_quality) a p refl refl
              w.encoding_quality,
          int-damaged (codes "bitrate") l (c.bitrate) a p refl refl w.bitrate,
          ap from_label (
                unfold load_value in
                pr.get_put (codes "resolution") l (codes "unknown") (save_app_state pr fl a p))
              ∙ n,
          w.codec_named,
        )
        refl
