-- ===== src/Headset/Storage.antt =====
-- VR_App/src/state_storage.cpp: the part of AppState that is kept in Android's SharedPreferences
-- (SaveAppState, LoadAppState). The preferences and the floats are parameters.
pub mod Values
pub mod Load
pub mod RoundTrip
use but_telepresence.Prelude.{
  ℕ, ◌^◌, ◌≡◌, Bool, true, false, not, Option, none, some, List, [], ◌∷◌, if◌then◌else◌,
}
use but_telepresence.Prelude.Int.{ℤ, pos, int_eq}
use but_telepresence.Prelude.Words.{cast, signed32}
use but_telepresence.Prelude.Text.{Str, codes, str_eq}
use but_telepresence.Prelude.Decimal.{to_string, stoi, in_int_range}
use but_telepresence.Headset.Enums.{
  AspectRatioMode, codec_to_int, video_mode_to_int, aspect_ratio_mode_to_int,
}
use but_telepresence.Headset.Resolution.{from_label}
use but_telepresence.Headset.Config.{StreamingConfig}
use but_telepresence.Headset.Address.{ip_to_string, string_to_ip}
use but_telepresence.Headset.Settings.{codec_of_int, video_mode_of_int, aspect_ratio_mode_of_int}

-- SharedPreferences of Android, an editor applied: putString, and getString with its default.
pub record Preferences {ℓ} (P : Type ℓ) : Type ℓ where
  pub put_string : (key value : Str) → P → P
  pub get_string : P → (key default : Str) → Str
  pub get_put :
      (key value default : Str) (p : P) → get_string (put_string key value p) key default ≡ value
  pub get_put_other :
      (key other value default : Str) (p : P)
      → str_eq other key ≡ false
      → get_string (put_string other value p) key default ≡ get_string p key default

-- What the code uses of float: the cast of `x * n` to int, the float of an int, `x / n` and
-- std::stof, which reads the decimal text of an int as its float.
pub record Floats {ℓ} (F : Type ℓ) : Type ℓ where
  pub scaled : F → (n : ℕ) → ℤ
  pub of_int : ℤ → F
  pub divided : F → (n : ℕ) → F
  pub stof : Str → Option F
  pub stof-to_string : (v : ℤ) → in_int_range v ≡ true → stof (to_string v) ≡ some (of_int v)

-- The fields of AppState that are stored.
pub record AppState {ℓ} (F : Type ℓ) : Type ℓ where
  pub streaming_config : StreamingConfig
  pub aspect_ratio_mode : AspectRatioMode
  pub head_movement_max_speed : ℕ
  pub head_movement_prediction_ms : ℕ
  pub head_movement_speed_multiplier : F
  pub robot_control_enabled : Bool
  pub stereo_convergence : F

abbrev pub int_of_bool : Bool → ℤ
int_of_bool b = if b then pos 1 else pos 0

-- The keys and values in the order of the calls; a uint32_t and a bool are converted to int.

unfoldable pub saved_values {ℓ} : {F : Type ℓ} → Floats F → AppState F → List (Str × Str)
saved_values fl a =
    (codes "headset_ip", ip_to_string a.streaming_config.headset_ip)
    ∷ (codes "jetson_ip", ip_to_string a.streaming_config.jetson_ip)
    ∷ (codes "port_left", to_string a.streaming_config.port_left)
    ∷ (codes "port_right", to_string a.streaming_config.port_right)
    ∷ (codes "codec", to_string (codec_to_int a.streaming_config.codec))
    ∷ (codes "encoding_quality", to_string a.streaming_config.encoding_quality)
    ∷ (codes "bitrate", to_string a.streaming_config.bitrate)
    ∷ (codes "resolution", a.streaming_config.resolution.label)
    ∷ (codes "video_mode", to_string (video_mode_to_int a.streaming_config.video_mode))
    ∷ (codes "fps", to_string a.streaming_config.fps)
    ∷ (codes "aspect_ratio_mode", to_string (aspect_ratio_mode_to_int a.aspect_ratio_mode))
    ∷ (codes "head_movement_max_speed", to_string (signed32 a.head_movement_max_speed))
    ∷ (codes "head_movement_prediction_ms", to_string (signed32 a.head_movement_prediction_ms))
    ∷ (
      codes "head_movement_speed_multiplier",
      to_string (fl.scaled a.head_movement_speed_multiplier 10),
    )
    ∷ (codes "robot_control_enabled", to_string (int_of_bool a.robot_control_enabled))
    ∷ (codes "stereo_convergence", to_string (fl.scaled a.stereo_convergence 1000))
    ∷ []

unfoldable pub save_values {ℓ} : {P : Type ℓ} → Preferences P → List (Str × Str) → P → P
save_values pr [] p = p
save_values pr ((key, value) ∷ vs) p = save_values pr vs (pr.put_string key value p)

unfoldable pub save_app_state {ℓ κ} :
    {P : Type ℓ} {F : Type κ} → Preferences P → Floats F → AppState F → P → P
unfolding save_values saved_values
save_app_state pr fl a p = save_values pr (saved_values fl a) p

-- LoadValue, whose default is "unknown".
unfoldable pub load_value {ℓ} : {P : Type ℓ} → Preferences P → P → Str → Str
load_value pr p key = pr.get_string p key (codes "unknown")

-- An assignment: it takes place unless the value throws.
abbrev pub Assignment {ℓ} : Type ℓ → Type ℓ
Assignment F = AppState F → Option (AppState F)

abbrev pub assign {ℓ κ} :
    {F : Type ℓ} {V : Type κ} → Option V → (V → AppState F → AppState F) → Assignment F
assign none set a = none
assign (some v) set a = some (set v a)

-- The body of the try block up to the first exception, after which the catch does nothing.
unfoldable pub run {ℓ} : {F : Type ℓ} → List (Assignment F) → AppState F → AppState F
run [] a = a
run (s ∷ ss) a = elim (s a) [ none ↦ a | some b ↦ run ss b ]

abbrev pub set_config {ℓ} :
    {F : Type ℓ} → (StreamingConfig → StreamingConfig) → AppState F → AppState F
set_config f a = record a { streaming_config = f a.streaming_config }

unfoldable pub assignments {ℓ κ} :
    {P : Type ℓ} {F : Type κ} → Preferences P → Floats F → P → List (Assignment F)
assignments pr fl p =
    let text = load_value pr p in
    assign (string_to_ip (text (codes "headset_ip")))
      (λ ip. set_config (λ c. record c { headset_ip = ip }))
    ∷ assign (string_to_ip (text (codes "jetson_ip")))
        (λ ip. set_config (λ c. record c { jetson_ip = ip }))
    ∷ assign (stoi (text (codes "port_left"))) (λ v. set_config (λ c. record c { port_left = v }))
    ∷ assign (stoi (text (codes "port_right"))) (λ v. set_config (λ c. record c { port_right = v }))
    ∷ assign (stoi (text (codes "codec")))
        (λ v. set_config (λ c. record c { codec = codec_of_int v }))
    ∷ assign (stoi (text (codes "encoding_quality")))
        (λ v. set_config (λ c. record c { encoding_quality = v }))
    ∷ assign (stoi (text (codes "bitrate"))) (λ v. set_config (λ c. record c { bitrate = v }))
    ∷ assign (from_label (text (codes "resolution")))
        (λ r. set_config (λ c. record c { resolution = r }))
    ∷ assign (stoi (text (codes "video_mode")))
        (λ v. set_config (λ c. record c { video_mode = video_mode_of_int v }))
    ∷ assign (stoi (text (codes "fps"))) (λ v. set_config (λ c. record c { fps = v }))
    ∷ assign (stoi (text (codes "aspect_ratio_mode")))
        (λ v a. record a { aspect_ratio_mode = aspect_ratio_mode_of_int v })
    ∷ assign (stoi (text (codes "head_movement_max_speed")))
        (λ v a. record a { head_movement_max_speed = cast (2 ^ 32) v })
    ∷ assign (stoi (text (codes "head_movement_prediction_ms")))
        (λ v a. record a { head_movement_prediction_ms = cast (2 ^ 32) v })
    ∷ assign (fl.stof (text (codes "head_movement_speed_multiplier")))
        (λ x a. record a { head_movement_speed_multiplier = fl.divided x 10 })
    ∷ assign (stoi (text (codes "robot_control_enabled")))
        (λ v a. record a { robot_control_enabled = not (int_eq v (pos 0)) })
    ∷ assign (fl.stof (text (codes "stereo_convergence")))
        (λ x a. record a { stereo_convergence = fl.divided x 1000 })
    ∷ []

unfoldable pub load_app_state {ℓ κ} :
    {P : Type ℓ} {F : Type κ} → Preferences P → Floats F → P → AppState F → AppState F
unfolding run assignments load_value
load_app_state pr fl p a = run (assignments pr fl p) a
