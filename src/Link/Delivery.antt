-- ===== src/Link/Delivery.antt =====
-- What the driver reads of a pushed configuration.
use but_telepresence.Prelude.{◌≡◌, refl, Option, none, some, Option-cases, inl, inr}
use but_telepresence.Headset.Enums as Headset
use but_telepresence.Headset.Enums.{codec_to_string, video_mode_to_api_string}
use but_telepresence.Headset.Config.{StreamingConfig}
use but_telepresence.Headset.Address.{ip_to_string}
use but_telepresence.Headset.Rest.{request_body}
use but_telepresence.Driver.Config as Driver
use but_telepresence.Driver.Config.{
  config_from_json, get_codec_from_string, get_video_mode_from_string,
}
use but_telepresence.Link.{received, cfg_dict_from_state}

-- The codec of the driver that has the meaning of the headset's; none for a value with no name.
abbrev pub codec_meant : Headset.Codec → Option Driver.Codec
codec_meant Headset.Codec.jpeg = some Driver.Codec.jpeg
codec_meant Headset.Codec.vp8 = some Driver.Codec.vp8
codec_meant Headset.Codec.vp9 = some Driver.Codec.vp9
codec_meant Headset.Codec.h264 = some Driver.Codec.h264
codec_meant Headset.Codec.h265 = some Driver.Codec.h265
codec_meant Headset.Codec.count = none
codec_meant (Headset.Codec.other n) = none

abbrev pub video_mode_meant : Headset.VideoMode → Driver.VideoMode
video_mode_meant Headset.VideoMode.stereo = Driver.VideoMode.stereo
video_mode_meant Headset.VideoMode.mono = Driver.VideoMode.mono
video_mode_meant Headset.VideoMode.panoramic = Driver.VideoMode.panoramic
video_mode_meant Headset.VideoMode.count = Driver.VideoMode.stereo
video_mode_meant (Headset.VideoMode.other n) = Driver.VideoMode.stereo

-- The configuration with the same meaning at the driver, for a codec of the driver.
abbrev pub config_meant : StreamingConfig → Driver.Codec → Driver.StreamingConfig
config_meant c codec = record {
  ip = ip_to_string c.headset_ip;
  port_left = c.port_left;
  port_right = c.port_right;
  codec = codec;
  encoding_quality = c.encoding_quality;
  bitrate = c.bitrate;
  horizontal_resolution = c.resolution.width;
  vertical_resolution = c.resolution.height;
  video_mode = video_mode_meant c.video_mode;
  fps = c.fps;
}

abbrev pub map_config : StreamingConfig → Option Driver.Codec → Option Driver.StreamingConfig
map_config c none = none
map_config c (some codec) = some (config_meant c codec)

codec_read : (c : Headset.Codec) → get_codec_from_string (codec_to_string c) ≡ codec_meant c
unfolding get_codec_from_string codec_to_string
codec_read Headset.Codec.jpeg = refl
codec_read Headset.Codec.vp8 = refl
codec_read Headset.Codec.vp9 = refl
codec_read Headset.Codec.h264 = refl
codec_read Headset.Codec.h265 = refl
codec_read _ = refl

video_mode_read :
    (m : Headset.VideoMode)
    → get_video_mode_from_string (video_mode_to_api_string m) ≡ some (video_mode_meant m)
unfolding get_video_mode_from_string video_mode_to_api_string
video_mode_read Headset.VideoMode.stereo = refl
video_mode_read Headset.VideoMode.mono = refl
video_mode_read Headset.VideoMode.panoramic = refl
video_mode_read _ = refl

-- The driver reads every field as the headset means it, and refuses exactly the codecs with no
-- name; a video mode with no name arrives as stereo.
pub received_lem : (c : StreamingConfig) → received c ≡ map_config c (codec_meant c.codec)
unfolding received cfg_dict_from_state config_from_json request_body
received_lem c = rw (codec_read c.codec) (elim (Option-cases (codec_meant c.codec)) [
  | inl e ↦ rw e refl
  | inr (d, e) ↦ rw e (rw (video_mode_read c.video_mode) refl)
])
