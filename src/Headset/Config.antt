-- ===== src/Headset/Config.antt =====
-- VR_App/include/types/app_state.h: StreamingConfig and classifyStreamConfigChange, with the
-- defaults of VR_App/include/config.h. An int is an integer; no operation here can overflow.
use but_telepresence.Prelude.{ℕ, Bool, not, ◌||◌, List, [], ◌∷◌, if◌then◌else◌}
use but_telepresence.Prelude.Int.{ℤ, pos, int_eq}
use but_telepresence.Prelude.Text.{str_eq}
use but_telepresence.Headset.Enums.{Codec, VideoMode, codec_eq, video_mode_eq}
use but_telepresence.Headset.Resolution.{CameraResolution, fhd}

-- An address is the vector of its octets.
pub record StreamingConfig : Type 0 where
  pub headset_ip : List ℕ
  pub jetson_ip : List ℕ
  pub port_left : ℤ
  pub port_right : ℤ
  pub codec : Codec
  pub encoding_quality : ℤ
  pub bitrate : ℤ
  pub resolution : CameraResolution
  pub video_mode : VideoMode
  pub fps : ℤ

unfoldable pub default_config : StreamingConfig
default_config = record {
  headset_ip = 10 ∷ 0 ∷ 31 ∷ 220 ∷ [];
  jetson_ip = 10 ∷ 0 ∷ 31 ∷ 42 ∷ [];
  port_left = pos 8554;
  port_right = pos 8556;
  codec = Codec.jpeg;
  encoding_quality = pos 60;
  bitrate = pos 4000000;
  resolution = fhd;
  video_mode = VideoMode.stereo;
  fps = pos 60;
}

pub data StreamConfigChange : Type 0 where
  none live_only structural : StreamConfigChange

abbrev pub is_structural : StreamingConfig → StreamingConfig → Bool
is_structural a b =
    not (str_eq a.headset_ip b.headset_ip)
    || not (str_eq a.jetson_ip b.jetson_ip)
    || not (int_eq a.port_left b.port_left)
    || not (int_eq a.port_right b.port_right)
    || not (codec_eq a.codec b.codec)
    || not (int_eq a.resolution.width b.resolution.width)
    || not (int_eq a.resolution.height b.resolution.height)
    || not (video_mode_eq a.video_mode b.video_mode)
    || not (int_eq a.fps b.fps)

abbrev pub is_live : StreamingConfig → StreamingConfig → Bool
is_live a b = not (int_eq a.bitrate b.bitrate) || not (int_eq a.encoding_quality b.encoding_quality)

unfoldable pub classify_stream_config_change :
    StreamingConfig → StreamingConfig → StreamConfigChange
classify_stream_config_change a b =
    if is_structural a b then structural else if is_live a b then live_only else none
