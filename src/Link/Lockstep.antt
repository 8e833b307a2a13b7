-- ===== src/Link/Lockstep.antt =====
-- classifyStreamConfigChange of the headset against CanUpdateDynamically of the driver, which the
-- comment above the first says MUST stay in lockstep: whether one end keeps its pipeline exactly
-- when the other does.
use but_telepresence.Prelude.{
  ◌≡◌, ◌≢◌, ◌↔◌, inl, inr, Bool, true, false, Bool-cases, not, ◌||◌, some, ap, sym, arith,
}
use but_telepresence.Prelude.Int.{int_eq}
use but_telepresence.Prelude.Text.{Str, str_eq, str_eq_iff, str_eq_refl, str_eq→eq}
use but_telepresence.Headset.Enums as Headset
use but_telepresence.Headset.Config.{
  StreamingConfig, structural, classify_stream_config_change, is_structural,
}
use but_telepresence.Headset.Address.{ip_to_string}
use but_telepresence.Headset.Address.RoundTrip.{IsAddress, string_to_ip-ip_to_string}
use but_telepresence.Driver.Config as Driver
use but_telepresence.Driver.Config.{can_update_dynamically, changes_format, changes_endpoint}
use but_telepresence.Link.{received}
use but_telepresence.Link.Delivery.{codec_meant, video_mode_meant, config_meant, received_lem}

-- A video mode that the program can select.
abbrev pub IsNamed : Headset.VideoMode → Type 0
IsNamed Headset.VideoMode.stereo = Unit {0}
IsNamed Headset.VideoMode.mono = Unit {0}
IsNamed Headset.VideoMode.panoramic = Unit {0}
IsNamed Headset.VideoMode.count = ⊥
IsNamed (Headset.VideoMode.other n) = ⊥

codec_eq-codec_meant :
    (a b : Headset.Codec) {c d : Driver.Codec}
    → codec_meant a ≡ some c
    → codec_meant b ≡ some d
    → Driver.codec_eq c d ≡ Headset.codec_eq a b
codec_eq-codec_meant a b p q = ground arith

video_mode_eq-video_mode_meant :
    (a b : Headset.VideoMode)
    → IsNamed a
    → IsNamed b
    → Driver.video_mode_eq (video_mode_meant a) (video_mode_meant b) ≡ Headset.video_mode_eq a b
video_mode_eq-video_mode_meant a b p q = ground arith

-- Comparing the texts of two addresses compares the addresses.
str_eq-ip_to_string :
    (a b : Str) → IsAddress a → IsAddress b → str_eq (ip_to_string a) (ip_to_string b) ≡ str_eq a b
str_eq-ip_to_string a b p q = elim (Bool-cases (str_eq (ip_to_string a) (ip_to_string b))) [
  | inl e ↦ rw e (sym ((str_eq_iff a b).1 (same (str_eq→eq _ _ e))))
  | inr e ↦ ground (arith, e, str_eq_iff a b, str_eq_refl (ip_to_string a), differ)
]
  where
    same : ip_to_string a ≡ ip_to_string b → a ≡ b
    same e = cc (string_to_ip-ip_to_string a p, string_to_ip-ip_to_string b q)

    differ : a ≡ b → str_eq (ip_to_string a) (ip_to_string b) ≡ true
    differ e = (str_eq_iff _ _).1 (ap ip_to_string e)

received_inv :
    (a : StreamingConfig) (d : Driver.StreamingConfig)
    → received a ≡ some d
    → (c : Driver.Codec) × (codec_meant a.codec ≡ some c) × (d ≡ config_meant a c)
received_inv a d h = ground (arith, received_lem a)

-- Nine tests joined in the order of classifyStreamConfigChange, and grouped as the driver has them.
regroup :
    (a b c d e f g h i : Bool)
    → (a || b || c || d || e || f || g || h || i)
      ≡ ((h || a || c || d) || (b || (e || i || f || g)))
regroup a b c d e f g h i = ground arith

-- A configuration that can be pushed: its mode is one that the program selects, and the address
-- of the headset has four octets.
pub record IsPushable (a : StreamingConfig) : Type 0 where
  pub mode : IsNamed a.video_mode
  pub ip : IsAddress a.headset_ip

module _ {a b : StreamingConfig} (p : IsPushable a) (q : IsPushable b) where
  is_structural-config_meant :
      {c d : Driver.Codec}
      → codec_meant a.codec ≡ some c
      → codec_meant b.codec ≡ some d
      → is_structural a b ≡ (
          changes_endpoint (config_meant a c) (config_meant b d)
          || (not (str_eq a.jetson_ip b.jetson_ip)
              || changes_format (config_meant a c) (config_meant b d)))
  is_structural-config_meant e f = rw (str_eq-ip_to_string a.headset_ip b.headset_ip p.ip q.ip) (
      rw (codec_eq-codec_meant a.codec b.codec e f) (
        rw (video_mode_eq-video_mode_meant a.video_mode b.video_mode p.mode q.mode) (
          regroup (not (str_eq a.headset_ip b.headset_ip)) (not (str_eq a.jetson_ip b.jetson_ip))
            (not (int_eq a.port_left b.port_left)) (not (int_eq a.port_right b.port_right))
            (not (Headset.codec_eq a.codec b.codec))
            (not (int_eq a.resolution.width b.resolution.width))
            (not (int_eq a.resolution.height b.resolution.height))
            (not (Headset.video_mode_eq a.video_mode b.video_mode)) (not (int_eq a.fps b.fps)))))

  -- The headset's test in terms of what the driver received.
  is_structural-received :
      (d e : Driver.StreamingConfig)
      → received a ≡ some d
      → received b ≡ some e
      → is_structural a b
        ≡ (changes_endpoint d e || (not (str_eq a.jetson_ip b.jetson_ip) || changes_format d e))
  is_structural-received d e r s = go (received_inv a d r) (received_inv b e s)
    where
      go :
          (c : Driver.Codec) × (codec_meant a.codec ≡ some c) × (d ≡ config_meant a c)
          → (c : Driver.Codec) × (codec_meant b.codec ≡ some c) × (e ≡ config_meant b c)
          → is_structural a b
            ≡ (changes_endpoint d e || (not (str_eq a.jetson_ip b.jetson_ip) || changes_format d e))
      go (c, f, u) (c', g, v) = rw u (rw v (is_structural-config_meant f g))

  -- When the headset keeps its pipeline, so does the driver: for two pushable configurations that
  -- the driver accepts, a change that the headset does not call structural is one that the driver
  -- applies to the running pipeline.
  pub can_update_dynamically_of_live :
      (d e : Driver.StreamingConfig)
      → received a ≡ some d
      → received b ≡ some e
      → classify_stream_config_change a b ≢ structural
      → can_update_dynamically d e ≡ true
  unfolding can_update_dynamically classify_stream_config_change
  can_update_dynamically_of_live d e r s h = ground (arith, is_structural-received d e r s)

  -- In panoramic mode the two ends agree: for two pushable configurations that the driver accepts,
  -- with the same robot address and panoramic as the new mode, the headset calls the change structural
  -- exactly when the driver rebuilds.
  pub panoramic_lockstep :
      (d e : Driver.StreamingConfig)
      → received a ≡ some d
      → received b ≡ some e
      → a.jetson_ip ≡ b.jetson_ip
      → e.video_mode ≡ Driver.VideoMode.panoramic
      → (classify_stream_config_change a b ≡ structural) ↔ (can_update_dynamically d e ≡ false)
  unfolding can_update_dynamically classify_stream_config_change
  panoramic_lockstep d e r s j m = (
    (λ h. ground (arith, is_structural-received d e r s, (str_eq_iff a.jetson_ip b.jetson_ip).1 j)),
    (λ h. ground (arith, is_structural-received d e r s)),
  )

  -- In stereo and mono mode they disagree on every change of codec, resolution or frame rate that
  -- keeps the endpoint and the mode: the headset calls it structural and rebuilds, and the driver
  -- applies it to the running pipeline.
  pub format_change_diverges :
      (d e : Driver.StreamingConfig)
      → received a ≡ some d
      → received b ≡ some e
      → changes_endpoint d e ≡ false
      → e.video_mode ≢ Driver.VideoMode.panoramic
      → changes_format d e ≡ true
      → (classify_stream_config_change a b ≡ structural) × (can_update_dynamically d e ≡ true)
  unfolding can_update_dynamically classify_stream_config_change
  format_change_diverges d e r s end m f = ground (arith, is_structural-received d e r s)
