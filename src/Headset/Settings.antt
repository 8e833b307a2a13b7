-- ===== src/Headset/Settings.antt =====
-- The streaming part of the settings table of VR_App/src/program.cpp (BuildSettings) and its Apply
-- button. An int is an integer: the sums that the bounds let through do not overflow. A call that
-- throws, and an access behind the end of the address, give `none`.
pub mod Steps
pub mod Bounds
pub mod Apply
pub mod Playing
use but_telepresence.Prelude.{
  ℕ, zero, suc, ◌+◌, ◌-◌, ◌%◌, Bool, true, false, not, ◌||◌, Option, none, some, List, [], ◌∷◌,
  if◌then◌else◌, ltb,
}
use but_telepresence.Prelude.Int.{ℤ, pos, negsuc, ◌+ℤ◌, ◌-ℤ◌, sub_ℕ, ltb_ℤ, min_ℤ, int_eq}
use but_telepresence.Headset.Enums.{
  Codec, VideoMode, AspectRatioMode, ConnectionStatus, codec_to_int, video_mode_to_int, codec_eq,
}
use but_telepresence.Headset.Resolution.{CameraResolution, get_index, from_index, count}
use but_telepresence.Headset.Config.{
  StreamingConfig, StreamConfigChange, structural, classify_stream_config_change,
}
use but_telepresence.Headset.Rest.{Reply, update_streaming_config}
use but_telepresence.Headset.Receiver.{Decoder, configured_for}

abbrev pub max_ℤ : ℤ → ℤ → ℤ
max_ℤ a b = if ltb_ℤ a b then b else a

-- The remainder as C++ takes it, with the sign of the dividend.
abbrev pub rem_ℤ : ℤ → ℕ → ℤ
rem_ℤ (pos a) m = pos (a % m)
rem_ℤ (negsuc a) m = sub_ℕ 0 (suc a % m)

-- static_cast<Codec> and static_cast<VideoMode> of an int.
abbrev pub codec_of_int : ℤ → Codec
codec_of_int n =
    if int_eq n (pos 0)
    then Codec.jpeg
    else if int_eq n (pos 1)
    then Codec.vp8
    else if int_eq n (pos 2)
    then Codec.vp9
    else if int_eq n (pos 3)
    then Codec.h264
    else if int_eq n (pos 4)
    then Codec.h265
    else if int_eq n (pos 5)
    then Codec.count
    else Codec.other n

abbrev pub video_mode_of_int : ℤ → VideoMode
video_mode_of_int n =
    if int_eq n (pos 0)
    then VideoMode.stereo
    else if int_eq n (pos 1)
    then VideoMode.mono
    else if int_eq n (pos 2)
    then VideoMode.panoramic
    else if int_eq n (pos 3)
    then VideoMode.count
    else VideoMode.other n

abbrev pub aspect_ratio_mode_of_int : ℤ → AspectRatioMode
aspect_ratio_mode_of_int n =
    if int_eq n (pos 0)
    then AspectRatioMode.full_screen
    else if int_eq n (pos 1)
    then AspectRatioMode.full_fov
    else if int_eq n (pos 2)
    then AspectRatioMode.count
    else AspectRatioMode.other n

abbrev pub instead_of_vp : Codec → Codec → Codec
instead_of_vp replacement c =
    if codec_eq c Codec.vp8 || codec_eq c Codec.vp9 then replacement else c

unfoldable pub next_codec : Codec → Codec
next_codec c = instead_of_vp Codec.h264 (codec_of_int (rem_ℤ (codec_to_int c +ℤ pos 1 +ℤ pos 5) 5))

unfoldable pub previous_codec : Codec → Codec
previous_codec c =
    instead_of_vp Codec.jpeg (codec_of_int (rem_ℤ (codec_to_int c -ℤ pos 1 +ℤ pos 5) 5))

unfoldable pub next_mode : VideoMode → VideoMode
next_mode m = video_mode_of_int (rem_ℤ (video_mode_to_int m +ℤ pos 1 +ℤ pos 3) 3)

unfoldable pub previous_mode : VideoMode → VideoMode
previous_mode m = video_mode_of_int (rem_ℤ (video_mode_to_int m -ℤ pos 1 +ℤ pos 3) 3)

-- jetson_ip[segment] += step, on octets; -1 is a step of 255.
abbrev pub bump : (segment step : ℕ) → List ℕ → Option (List ℕ)
bump segment step [] = none
bump zero step (o ∷ ip) = some ((o + step) % 256 ∷ ip)
bump (suc i) step (o ∷ ip) = elim (bump i step ip) [ none ↦ none | some r ↦ some (o ∷ r) ]

unfoldable pub next_resolution : CameraResolution → Option CameraResolution
next_resolution r = elim (get_index r) [
  | none ↦ none
  | some i ↦ if ltb i (count - 1) then from_index (i + 1) else some r
]

unfoldable pub previous_resolution : CameraResolution → Option CameraResolution
previous_resolution r = elim (get_index r) [
  | none ↦ none
  | some i ↦ if ltb 0 i then from_index (i - 1) else some r
]

-- The settings that change the configuration; the segment is the one in focus.
pub data Setting : Type 0 where
  codec encoding_quality bitrate video_mode fps resolution : Setting
  telepresence_ip : (segment : ℕ) → Setting

pub data Click : Type 0 where
  increment decrement : Setting → Click

abbrev pub with_ip : StreamingConfig → Option (List ℕ) → Option StreamingConfig
with_ip c none = none
with_ip c (some ip) = some (record c { jetson_ip = ip })

abbrev with_resolution : StreamingConfig → Option CameraResolution → Option StreamingConfig
with_resolution c none = none
with_resolution c (some r) = some (record c { resolution = r })

-- onIncrement and onDecrement of the table.
unfoldable pub click : Click → StreamingConfig → Option StreamingConfig
click (increment Setting.codec) c = some (record c { codec = next_codec c.codec })
click (decrement Setting.codec) c = some (record c { codec = previous_codec c.codec })
click (increment Setting.encoding_quality) c =
    some (record c { encoding_quality = min_ℤ (c.encoding_quality +ℤ pos 1) (pos 100) })
click (decrement Setting.encoding_quality) c =
    some (record c { encoding_quality = max_ℤ (c.encoding_quality -ℤ pos 1) (pos 0) })
click (increment Setting.bitrate) c =
    some (record c { bitrate = min_ℤ (c.bitrate +ℤ pos 1000000) (pos 100000000) })
click (decrement Setting.bitrate) c =
    some (record c { bitrate = max_ℤ (c.bitrate -ℤ pos 1000000) (pos 1000000) })
click (increment Setting.video_mode) c = some (record c { video_mode = next_mode c.video_mode })
click (decrement Setting.video_mode) c = some (record c { video_mode = previous_mode c.video_mode })
click (increment Setting.fps) c =
    some (record c { fps = if ltb_ℤ c.fps (pos 80) then c.fps +ℤ pos 1 else c.fps })
click (decrement Setting.fps) c =
    some (record c { fps = if ltb_ℤ (pos 1) c.fps then c.fps -ℤ pos 1 else c.fps })
click (increment Setting.resolution) c = with_resolution c (next_resolution c.resolution)
click (decrement Setting.resolution) c = with_resolution c (previous_resolution c.resolution)
click (increment (Setting.telepresence_ip i)) c = with_ip c (bump i 1 c.jetson_ip)
click (decrement (Setting.telepresence_ip i)) c = with_ip c (bump i 255 c.jetson_ip)

-- A sequence of clicks; it ends at the first that throws.
pub clicks : List Click → StreamingConfig → Option StreamingConfig
clicks [] c = some c
clicks (k ∷ ks) c = elim (click k c) [ none ↦ none | some d ↦ clicks ks d ]

-- What Apply reads and writes: lastAppliedConfig_, the status of the camera server, and the
-- configuration that the decode pipeline and the render targets were last built for.
pub record Applied : Type 0 where
  pub last_applied : Option StreamingConfig
  pub camera_server : ConnectionStatus
  pub built_for : Option StreamingConfig

abbrev is_rebuild : StreamConfigChange → Bool
is_rebuild StreamConfigChange.structural = true
is_rebuild _ = false

abbrev pub needs_rebuild : Option StreamingConfig → StreamingConfig → Bool
needs_rebuild none cfg = true
needs_rebuild (some old) cfg = is_rebuild (classify_stream_config_change old cfg)

-- Behind the rebuild: the reply of the server. `config_` of the REST client is the configuration
-- itself.
abbrev pub push_config :
    Reply → StreamingConfig → (built_for : Option StreamingConfig) → Applied → Applied
push_config reply cfg built_for a =
    if int_eq (update_streaming_config cfg cfg reply).0 (pos 0)
    then record {
      last_applied = some cfg;
      camera_server = ConnectionStatus.connected;
      built_for = built_for;
    }
    else record a { camera_server = ConnectionStatus.failed; built_for = built_for }

abbrev pub push_built :
    Reply → StreamingConfig → Option (Option StreamingConfig) → Applied → Option Applied
push_built reply cfg none a = none
push_built reply cfg (some built_for) a = some (push_config reply cfg built_for a)

-- onActivate of Apply after the settings were saved; `none` where configurePipelines throws.
unfoldable pub apply : Decoder → Reply → StreamingConfig → Applied → Option Applied
apply d reply cfg a =
    push_built reply cfg
      (if needs_rebuild a.last_applied cfg
        then configured_for d cfg a.built_for
        else some a.built_for)
      a
