-- ===== src/Headset/Storage/Load.antt =====
-- What LoadAppState leaves, whatever the preferences hold.
use but_telepresence.Prelude.{
  ◌^◌, ◌<◌, ◌≡◌, refl, true, Bool-cases, Option-cases, inl, inr, subst, sym, ◌∙◌, some_injective,
  Option, none, some, List, [], ◌∷◌, All, arith,
}
use but_telepresence.Prelude.Int.{ℤ, pos, negsuc}
use but_telepresence.Prelude.Words.{cast}
use but_telepresence.Prelude.Text.{Str, str_eq}
use but_telepresence.Prelude.Decimal.{stoi, in_int_range, scan_sign, skip_spaces}
use but_telepresence.Headset.Enums.{codec_to_int, video_mode_to_int, aspect_ratio_mode_to_int}
use but_telepresence.Headset.Resolution.{CameraResolution, find_label, get_list, from_label}
use but_telepresence.Headset.Config.{StreamingConfig}
use but_telepresence.Headset.Address.RoundTrip.{IsAddress, string_to_ip_sound}
use but_telepresence.Headset.Settings.{codec_of_int, video_mode_of_int, aspect_ratio_mode_of_int}
use but_telepresence.Headset.Storage.{
  Preferences, Floats, AppState, Assignment, assign, set_config, run, assignments, load_app_state,
}

-- Addresses of four octets, numbers of type int, enumerators as the casts give them, and a
-- resolution of the table.
pub record IsStorable (c : StreamingConfig) : Type 0 where
  pub headset_ip : IsAddress c.headset_ip
  pub jetson_ip : IsAddress c.jetson_ip
  pub port_left : in_int_range c.port_left ≡ true
  pub port_right : in_int_range c.port_right ≡ true
  pub codec : in_int_range (codec_to_int c.codec) ≡ true
  pub codec_named : codec_of_int (codec_to_int c.codec) ≡ c.codec
  pub encoding_quality : in_int_range c.encoding_quality ≡ true
  pub bitrate : in_int_range c.bitrate ≡ true
  pub resolution : from_label c.resolution.label ≡ some c.resolution
  pub video_mode : in_int_range (video_mode_to_int c.video_mode) ≡ true
  pub video_mode_named : video_mode_of_int (video_mode_to_int c.video_mode) ≡ c.video_mode
  pub fps : in_int_range c.fps ≡ true

pub record IsValid {ℓ} {F : Type ℓ} (a : AppState F) : Type 0 where
  pub streaming_config : IsStorable a.streaming_config
  pub aspect_ratio_mode : in_int_range (aspect_ratio_mode_to_int a.aspect_ratio_mode) ≡ true
  pub aspect_ratio_mode_named :
      aspect_ratio_mode_of_int (aspect_ratio_mode_to_int a.aspect_ratio_mode) ≡ a.aspect_ratio_mode
  pub head_movement_max_speed : a.head_movement_max_speed < 2 ^ 32
  pub head_movement_prediction_ms : a.head_movement_prediction_ms < 2 ^ 32

codec_to_int-of_int : (v : ℤ) → codec_to_int (codec_of_int v) ≡ v
codec_to_int-of_int (pos n) = ground arith
codec_to_int-of_int (negsuc n) = refl

video_mode_to_int-of_int : (v : ℤ) → video_mode_to_int (video_mode_of_int v) ≡ v
video_mode_to_int-of_int (pos n) = ground arith
video_mode_to_int-of_int (negsuc n) = refl

aspect_ratio_mode_to_int-of_int :
    (v : ℤ) → aspect_ratio_mode_to_int (aspect_ratio_mode_of_int v) ≡ v
aspect_ratio_mode_to_int-of_int (pos n) = ground arith
aspect_ratio_mode_to_int-of_int (negsuc n) = refl

cast-bounded : (v : ℤ) → cast (2 ^ 32) v < 2 ^ 32
cast-bounded (pos n) = omega arith
cast-bounded (negsuc n) = omega arith

stoi_sound : (s : Str) (v : ℤ) → stoi s ≡ some v → in_int_range v ≡ true
unfolding stoi
stoi_sound s v h = elim (Option-cases (scan_sign (skip_spaces s))) [
  | inl e ↦ ground (arith, h, e)
  | inr (w, e) ↦ elim (Bool-cases (in_int_range w)) [
    | inl r ↦ ground (arith, h, e, r)
    | inr r ↦ ground (arith, h, e, r)
  ]
]

find_label-All {κ} :
    (P : CameraResolution → Type κ) (l : Str) (rs : List CameraResolution) (r : CameraResolution)
    → All P rs
    → find_label l rs ≡ some r
    → P r
unfolding find_label
find_label-All P l [] r k h = ground (arith, h)
find_label-All P l (q ∷ rs) r k h = elim (Bool-cases (str_eq q.label l)) [
  | inl e ↦ subst P (some_injective (sym (rw e refl) ∙ h)) k.0
  | inr e ↦ find_label-All P l rs r k.1 (rw e at h)
]

from_label_sound :
    (l : Str) (r : CameraResolution) → from_label l ≡ some r → from_label r.label ≡ some r
unfolding from_label get_list
from_label_sound l r h =
    find_label-All (λ q. from_label q.label ≡ some q) l get_list r
      (refl, (refl, (refl, (refl, (refl, (refl, (refl, (refl, (refl, (refl, tt)))))))))) h

module _ {ℓ} {F : Type ℓ} where
  -- An assignment that keeps a valid state valid, whether or not it takes place.
  abbrev Keeps : Assignment F → Type ℓ
  Keeps s = (a b : AppState F) → IsValid a → s a ≡ some b → IsValid b

  Keeps-assign {κ} :
      {V : Type κ} (o : Option V) (set : V → AppState F → AppState F)
      → ((v : V) → o ≡ some v → (a : AppState F) → IsValid a → IsValid (set v a))
      → Keeps (assign o set)
  Keeps-assign none set k a b h e = ground (arith, e)
  Keeps-assign (some v) set k a b h e = subst IsValid (some_injective e) (k v refl a h)

  Keeps-config {κ} :
      {V : Type κ} (o : Option V) (set : V → StreamingConfig → StreamingConfig)
      → ((v : V) → o ≡ some v → (c : StreamingConfig) → IsStorable c → IsStorable (set v c))
      → Keeps (assign o (λ v. set_config (set v)))
  Keeps-config o set k =
      Keeps-assign o (λ v. set_config (set v))
        (λ v e a h. record {
          streaming_config = k v e a.streaming_config h.streaming_config;
          aspect_ratio_mode = h.aspect_ratio_mode;
          aspect_ratio_mode_named = h.aspect_ratio_mode_named;
          head_movement_max_speed = h.head_movement_max_speed;
          head_movement_prediction_ms = h.head_movement_prediction_ms;
        })

  run-IsValid :
      (ss : List (Assignment F)) (a : AppState F) → All Keeps ss → IsValid a → IsValid (run ss a)
  unfolding run
  run-IsValid [] a k h = h
  run-IsValid (s ∷ ss) a k h = elim (Option-cases (s a)) [
    | inl e ↦ rw e h
    | inr (b, e) ↦ rw e (run-IsValid ss b k.1 (k.0 a b h e))
  ]

module _ {ℓ κ} {P : Type ℓ} {F : Type κ} (pr : Preferences P) (fl : Floats F) (p : P) where
  assignments-Keeps : All Keeps (assignments pr fl p)
  unfolding assignments
  assignments-Keeps = (
    Keeps-config _ _ (λ v e c h. ground (arith, h, string_to_ip_sound _ v e)),
    (
      Keeps-config _ _ (λ v e c h. ground (arith, h, string_to_ip_sound _ v e)),
      (
        Keeps-config _ _ (λ v e c h. ground (arith, h, stoi_sound _ v e)),
        (
          Keeps-config _ _ (λ v e c h. ground (arith, h, stoi_sound _ v e)),
          (
            Keeps-config _ _
                (λ v e c h. ground (arith, h, stoi_sound _ v e, codec_to_int-of_int v)),
            (
              Keeps-config _ _ (λ v e c h. ground (arith, h, stoi_sound _ v e)),
              (
                Keeps-config _ _ (λ v e c h. ground (arith, h, stoi_sound _ v e)),
                (
                  Keeps-config _ _ (λ v e c h. ground (arith, h, from_label_sound _ v e)),
                  (
                    Keeps-config _ _ (λ v e c h.
                        ground (arith, h, stoi_sound _ v e, video_mode_to_int-of_int v)),
                    (
                      Keeps-config _ _ (λ v e c h. ground (arith, h, stoi_sound _ v e)),
                      (
                        Keeps-assign _ _ (λ v e a h.
                            ground (arith, h, stoi_sound _ v e, aspect_ratio_mode_to_int-of_int v)),
                        (
                          Keeps-assign _ _ (λ v e a h. ground (arith, h, cast-bounded v)),
                          (
                            Keeps-assign _ _ (λ v e a h. ground (arith, h, cast-bounded v)),
                            (
                              Keeps-assign _ _ (λ v e a h. ground (arith, h, tt)),
                              (
                                Keeps-assign _ _ (λ v e a h. ground (arith, h, tt)),
                                (Keeps-assign _ _ (λ v e a h. ground (arith, h, tt)), tt),
                              ),
                            ),
                          ),
                        ),
                      ),
                    ),
                  ),
                ),
              ),
            ),
          ),
        ),
      ),
    ),
  )

  -- Whatever the preferences hold, what is loaded into a valid state leaves it valid.
  pub load_app_state-IsValid : (a : AppState F) → IsValid a → IsValid (load_app_state pr fl p a)
  unfolding load_app_state
  load_app_state-IsValid a h = run-IsValid (assignments pr fl p) a assignments-Keeps h
