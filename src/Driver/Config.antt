-- ===== src/Driver/Config.antt =====
-- streaming_driver/include/pipelines.h: the driver's StreamingConfig, and streaming_driver/main.cpp:
-- GetCodecFromString, GetVideoModeFromString, ConfigFromJson and CanUpdateDynamically.
-- The JSON library is a parameter: an object is the outcome of each typed lookup, `none` where the
-- library throws. A function that throws returns `none`.
use but_telepresence.Prelude.{
  ℕ, Bool, true, false, not, ◌&&◌, ◌||◌, Option, none, some, if◌then◌else◌,
}
use but_telepresence.Prelude.Int.{ℤ, pos, int_eq}
use but_telepresence.Prelude.Text.{Str, codes, str_eq}

pub data Codec : Type 0 where
  jpeg vp8 vp9 h264 h265 : Codec

pub data VideoMode : Type 0 where
  stereo mono panoramic : VideoMode

pub record StreamingConfig : Type 0 where
  pub ip : Str
  pub port_left : ℤ
  pub port_right : ℤ
  pub codec : Codec
  pub encoding_quality : ℤ
  pub bitrate : ℤ
  pub horizontal_resolution : ℤ
  pub vertical_resolution : ℤ
  pub video_mode : VideoMode
  pub fps : ℤ

unfoldable pub default_streaming_config : StreamingConfig
default_streaming_config = record {
  ip = codes "192.168.1.100";
  port_left = pos 8554;
  port_right = pos 8556;
  codec = Codec.jpeg;
  encoding_quality = pos 85;
  bitrate = pos 400000;
  horizontal_resolution = pos 1920;
  vertical_resolution = pos 1080;
  video_mode = VideoMode.stereo;
  fps = pos 60;
}

abbrev codec_index : Codec → ℕ
codec_index Codec.jpeg = 0
codec_index Codec.vp8 = 1
codec_index Codec.vp9 = 2
codec_index Codec.h264 = 3
codec_index Codec.h265 = 4

abbrev video_mode_index : VideoMode → ℕ
video_mode_index VideoMode.stereo = 0
video_mode_index VideoMode.mono = 1
video_mode_index VideoMode.panoramic = 2

-- == on the enumerations.
abbrev pub codec_eq : Codec → Codec → Bool
codec_eq a b = int_eq (pos (codec_index a)) (pos (codec_index b))

abbrev pub video_mode_eq : VideoMode → VideoMode → Bool
video_mode_eq a b = int_eq (pos (video_mode_index a)) (pos (video_mode_index b))

unfoldable pub get_codec_from_string : Str → Option Codec
unfolding str_eq
get_codec_from_string s =
    if str_eq s (codes "JPEG")
    then some Codec.jpeg
    else if str_eq s (codes "VP8")
    then some Codec.vp8
    else if str_eq s (codes "VP9")
    then some Codec.vp9
    else if str_eq s (codes "H264")
    then some Codec.h264
    else if str_eq s (codes "H265")
    then some Codec.h265
    else none

unfoldable pub get_video_mode_from_string : Str → Option VideoMode
unfolding str_eq
get_video_mode_from_string s =
    if str_eq s (codes "stereo")
    then some VideoMode.stereo
    else if str_eq s (codes "mono")
    then some VideoMode.mono
    else if str_eq s (codes "panoramic")
    then some VideoMode.panoramic
    else none

-- c.at(key).get<std::string>() and c.at(key).get<int>().
pub record JsonObject : Type 0 where
  pub get_string : Str → Option Str
  pub get_int : Str → Option ℤ

infixl 5 ◌>>=◌
abbrev ◌>>=◌ : {A B : Type 0} → Option A → (A → Option B) → Option B
none >>= f = none
some a >>= f = f a

unfoldable pub config_from_json : JsonObject → Option StreamingConfig
config_from_json c = do
  ip ← c.get_string (codes "ip")
  port_left ← c.get_int (codes "portLeft")
  port_right ← c.get_int (codes "portRight")
  codec_string ← c.get_string (codes "codec")
  codec ← get_codec_from_string codec_string
  encoding_quality ← c.get_int (codes "encodingQuality")
  bitrate ← c.get_int (codes "bitrate")
  horizontal_resolution ← c.get_int (codes "horizontalResolution")
  vertical_resolution ← c.get_int (codes "verticalResolution")
  video_mode_string ← c.get_string (codes "videoMode")
  video_mode ← get_video_mode_from_string video_mode_string
  fps ← c.get_int (codes "fps")
  some (record {
    ip = ip;
    port_left = port_left;
    port_right = port_right;
    codec = codec;
    encoding_quality = encoding_quality;
    bitrate = bitrate;
    horizontal_resolution = horizontal_resolution;
    vertical_resolution = vertical_resolution;
    video_mode = video_mode;
    fps = fps;
  })

-- The first test of CanUpdateDynamically: the endpoint or the number of cameras changes.
abbrev pub changes_endpoint : StreamingConfig → StreamingConfig → Bool
changes_endpoint old new =
    not (video_mode_eq old.video_mode new.video_mode)
    || not (str_eq old.ip new.ip)
    || not (int_eq old.port_left new.port_left)
    || not (int_eq old.port_right new.port_right)

-- What only a rebuild changes in panoramic mode.
abbrev pub changes_format : StreamingConfig → StreamingConfig → Bool
changes_format old new =
    not (codec_eq old.codec new.codec)
    || not (int_eq old.fps new.fps)
    || not (int_eq old.horizontal_resolution new.horizontal_resolution)
    || not (int_eq old.vertical_resolution new.vertical_resolution)

unfoldable pub can_update_dynamically : StreamingConfig → StreamingConfig → Bool
can_update_dynamically old new =
    if changes_endpoint old new
    then false
    else if video_mode_eq new.video_mode VideoMode.panoramic && changes_format old new
    then false
    else true
