-- ===== src/Headset/Settings/Apply.antt =====
-- What the Apply button of VR_App/src/program.cpp leaves: the configuration that the decode pipeline
-- is built for against the one that the robot acknowledged.
use but_telepresence.Prelude.{
  if◌then◌else◌, ◌≡◌, refl, sym, ◌∙◌, subst, true, false, Option, none, some, arith, Bool-cases,
  inl, inr,
}
use but_telepresence.Prelude.Int.{pos, int_eq, int_eq_iff}
use but_telepresence.Prelude.Text.{str_eq_iff}
use but_telepresence.Headset.Enums.{ConnectionStatus, codec_to_int, video_mode_to_int}
use but_telepresence.Headset.Config.{
  StreamingConfig, is_structural, is_live, classify_stream_config_change,
}
use but_telepresence.Headset.Rest.{Reply, update_streaming_config}
use but_telepresence.Headset.Receiver.{Decoder, configured_for}
use but_telepresence.Headset.Settings.{Applied, apply, needs_rebuild}

-- The fields of a stream that a decode pipeline is built for, and where it comes from.
pub record SameFormat (a b : StreamingConfig) : Type 0 where
  pub headset_ip : a.headset_ip ≡ b.headset_ip
  pub jetson_ip : a.jetson_ip ≡ b.jetson_ip
  pub port_left : a.port_left ≡ b.port_left
  pub port_right : a.port_right ≡ b.port_right
  pub codec : codec_to_int a.codec ≡ codec_to_int b.codec
  pub width : a.resolution.width ≡ b.resolution.width
  pub height : a.resolution.height ≡ b.resolution.height
  pub video_mode : video_mode_to_int a.video_mode ≡ video_mode_to_int b.video_mode
  pub fps : a.fps ≡ b.fps

is_structural-SameFormat : (a b : StreamingConfig) → is_structural a b ≡ false → SameFormat a b
is_structural-SameFormat a b h = record {
  headset_ip = (str_eq_iff a.headset_ip b.headset_ip).0 (ground arith);
  jetson_ip = (str_eq_iff a.jetson_ip b.jetson_ip).0 (ground arith);
  port_left = (int_eq_iff a.port_left b.port_left).0 (ground arith);
  port_right = (int_eq_iff a.port_right b.port_right).0 (ground arith);
  codec = (int_eq_iff (codec_to_int a.codec) (codec_to_int b.codec)).0 (ground arith);
  width = (int_eq_iff a.resolution.width b.resolution.width).0 (ground arith);
  height = (int_eq_iff a.resolution.height b.resolution.height).0 (ground arith);
  video_mode =
      (int_eq_iff (video_mode_to_int a.video_mode) (video_mode_to_int b.video_mode)).0
        (ground arith);
  fps = (int_eq_iff a.fps b.fps).0 (ground arith);
}

SameFormat-is_structural : (a b : StreamingConfig) → SameFormat a b → is_structural a b ≡ false
SameFormat-is_structural a b s =
    rw
      (
        (str_eq_iff a.headset_ip b.headset_ip).1 s.headset_ip,
        (str_eq_iff a.jetson_ip b.jetson_ip).1 s.jetson_ip,
        (int_eq_iff a.port_left b.port_left).1 s.port_left,
        (int_eq_iff a.port_right b.port_right).1 s.port_right,
        (int_eq_iff (codec_to_int a.codec) (codec_to_int b.codec)).1 s.codec,
        (int_eq_iff a.resolution.width b.resolution.width).1 s.width,
        (int_eq_iff a.resolution.height b.resolution.height).1 s.height,
        (int_eq_iff (video_mode_to_int a.video_mode) (video_mode_to_int b.video_mode)).1
            s.video_mode,
        (int_eq_iff a.fps b.fps).1 s.fps,
      )
      refl

pub SameFormat-refl : (a : StreamingConfig) → SameFormat a a
SameFormat-refl a = record {
  headset_ip = refl;
  jetson_ip = refl;
  port_left = refl;
  port_right = refl;
  codec = refl;
  width = refl;
  height = refl;
  video_mode = refl;
  fps = refl;
}

needs_rebuild_lem : (a b : StreamingConfig) → needs_rebuild (some a) b ≡ is_structural a b
unfolding classify_stream_config_change
needs_rebuild_lem a b = elim (Bool-cases (is_structural a b)) [
  | inl e ↦ rw (e, classify_stream_config_change) refl
  | inr e ↦ elim (Bool-cases (is_live a b)) [
    | inl f ↦ rw (e, f, classify_stream_config_change) refl
    | inr f ↦ rw (e, f, classify_stream_config_change) refl
  ]
]

pub needs_rebuild_refl : (a : StreamingConfig) → needs_rebuild (some a) a ≡ false
needs_rebuild_refl a = needs_rebuild_lem a a ∙ SameFormat-is_structural a a (SameFormat-refl a)

-- The decode pipeline is built for a stream of the format that the robot acknowledged last.
abbrev pub IsInStep : Option StreamingConfig → Option StreamingConfig → Type 0
IsInStep none last = ⊥
IsInStep (some b) none = ⊥
IsInStep (some b) (some l) = SameFormat b l

IsInStep-trans :
    (o : Option StreamingConfig) (l c : StreamingConfig)
    → IsInStep o (some l)
    → is_structural l c ≡ false
    → IsInStep o (some c)
IsInStep-trans none l c h s = h
IsInStep-trans (some b) l c p s =
    let q = is_structural-SameFormat l c s in
    record {
      headset_ip = p.headset_ip ∙ q.headset_ip;
      jetson_ip = p.jetson_ip ∙ q.jetson_ip;
      port_left = p.port_left ∙ q.port_left;
      port_right = p.port_right ∙ q.port_right;
      codec = p.codec ∙ q.codec;
      width = p.width ∙ q.width;
      height = p.height ∙ q.height;
      video_mode = p.video_mode ∙ q.video_mode;
      fps = p.fps ∙ q.fps;
    }

pub rebuilt-IsInStep :
    (built : Option StreamingConfig) (last : Option StreamingConfig) (cfg : StreamingConfig)
    → IsInStep built last
    → IsInStep (if needs_rebuild last cfg then some cfg else built) (some cfg)
rebuilt-IsInStep none last cfg h = absurd h
rebuilt-IsInStep (some b) none cfg h = absurd h
rebuilt-IsInStep (some b) (some l) cfg h =
    rw (needs_rebuild_lem l cfg) (elim (Bool-cases (is_structural l cfg)) [
      | inl e ↦ rw e (SameFormat-refl cfg)
      | inr e ↦ rw e (IsInStep-trans (some b) l cfg h e)
    ])

refused :
    (d : Decoder) (reply : Reply) (cfg : StreamingConfig) (s : Applied)
    → needs_rebuild s.last_applied cfg ≡ true
    → configured_for d cfg s.built_for ≡ some (some cfg)
    → int_eq (update_streaming_config cfg cfg reply).0 (pos 0) ≡ false
    → apply d reply cfg s
      ≡ some (record s { camera_server = ConnectionStatus.failed; built_for = some cfg })
unfolding apply
refused d reply cfg s n c f = rw n (rw c (rw f refl))

-- Whatever GStreamer would answer.
kept_built :
    (d : Decoder) (reply : Reply) (cfg : StreamingConfig) (s : Applied)
    → needs_rebuild s.last_applied cfg ≡ false
    → int_eq (update_streaming_config cfg cfg reply).0 (pos 0) ≡ true
    → apply d reply cfg s
      ≡ some (record {
        last_applied = some cfg;
        camera_server = ConnectionStatus.connected;
        built_for = s.built_for;
      })
unfolding apply
kept_built d reply cfg s n f = rw n (rw f refl)

-- An Apply after another one, where neither throws.
unfoldable pub apply_again : Decoder → Reply → StreamingConfig → Option Applied → Option Applied
apply_again d reply cfg none = none
apply_again d reply cfg (some a) = apply d reply cfg a

-- An Apply that fails can leave them out of step for good: after a structural change that the robot
-- did not acknowledge, for which the decode pipelines could be built, an acknowledged Apply of the
-- old configuration rebuilds nothing, whatever GStreamer would answer, and the decode pipeline stays
-- built for the new one.
pub failed_apply_lem :
    (d e : Decoder) (a b : StreamingConfig) (failure success : Reply) (s : Applied)
    → s.last_applied ≡ some a
    → is_structural a b ≡ true
    → configured_for d b s.built_for ≡ some (some b)
    → int_eq (update_streaming_config b b failure).0 (pos 0) ≡ false
    → int_eq (update_streaming_config a a success).0 (pos 0) ≡ true
    → apply_again e success a (apply d failure b s)
      ≡ some (record {
        last_applied = some a;
        camera_server = ConnectionStatus.connected;
        built_for = some b;
      })
unfolding apply_again
failed_apply_lem d e a b failure success s l c k f g =
    let first : needs_rebuild s.last_applied b ≡ true =
      subst (λ o. needs_rebuild o b ≡ true) (sym l) (needs_rebuild_lem a b ∙ c) in
    let second : needs_rebuild s.last_applied a ≡ false =
      subst (λ o. needs_rebuild o a ≡ false) (sym l) (needs_rebuild_refl a) in
    rw (refused d failure b s first k f) (
      kept_built e success a
        (record s { camera_server = ConnectionStatus.failed; built_for = some b }) second g)
