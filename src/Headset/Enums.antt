-- ===== src/Headset/Enums.antt =====
-- VR_App/include/types/enums.h: the enumerations, and their conversions to text.
-- A cast from int can give a value that no enumerator names: that is `other`.
use but_telepresence.Prelude.{Bool}
use but_telepresence.Prelude.Int.{ℤ, pos, int_eq}
use but_telepresence.Prelude.Text.{Str, codes}

pub data Codec : Type 0 where
  jpeg vp8 vp9 h264 h265 count : Codec
  other : ℤ → Codec

pub data VideoMode : Type 0 where
  stereo mono panoramic count : VideoMode
  other : ℤ → VideoMode

pub data AspectRatioMode : Type 0 where
  full_screen full_fov count : AspectRatioMode
  other : ℤ → AspectRatioMode

pub data ConnectionStatus : Type 0 where
  unknown connecting connected failed : ConnectionStatus

-- static_cast<int>(codec).
abbrev pub codec_to_int : Codec → ℤ
codec_to_int Codec.jpeg = pos 0
codec_to_int Codec.vp8 = pos 1
codec_to_int Codec.vp9 = pos 2
codec_to_int Codec.h264 = pos 3
codec_to_int Codec.h265 = pos 4
codec_to_int Codec.count = pos 5
codec_to_int (Codec.other n) = n

abbrev pub video_mode_to_int : VideoMode → ℤ
video_mode_to_int VideoMode.stereo = pos 0
video_mode_to_int VideoMode.mono = pos 1
video_mode_to_int VideoMode.panoramic = pos 2
video_mode_to_int VideoMode.count = pos 3
video_mode_to_int (VideoMode.other n) = n

abbrev pub aspect_ratio_mode_to_int : AspectRatioMode → ℤ
aspect_ratio_mode_to_int AspectRatioMode.full_screen = pos 0
aspect_ratio_mode_to_int AspectRatioMode.full_fov = pos 1
aspect_ratio_mode_to_int AspectRatioMode.count = pos 2
aspect_ratio_mode_to_int (AspectRatioMode.other n) = n

-- == on an enumeration compares the integers.
abbrev pub codec_eq : Codec → Codec → Bool
codec_eq a b = int_eq (codec_to_int a) (codec_to_int b)

abbrev pub video_mode_eq : VideoMode → VideoMode → Bool
video_mode_eq a b = int_eq (video_mode_to_int a) (video_mode_to_int b)

unfoldable pub codec_to_string : Codec → Str
codec_to_string Codec.jpeg = codes "JPEG"
codec_to_string Codec.vp8 = codes "VP8"
codec_to_string Codec.vp9 = codes "VP9"
codec_to_string Codec.h264 = codes "H264"
codec_to_string Codec.h265 = codes "H265"
codec_to_string _ = codes "Unknown"

unfoldable pub video_mode_to_string : VideoMode → Str
video_mode_to_string VideoMode.stereo = codes "STEREO"
video_mode_to_string VideoMode.mono = codes "MONO"
video_mode_to_string VideoMode.panoramic = codes "PANORAMIC"
video_mode_to_string _ = codes "Unknown"

-- An unnamed mode is sent to the server as stereo.
unfoldable pub video_mode_to_api_string : VideoMode → Str
video_mode_to_api_string VideoMode.stereo = codes "stereo"
video_mode_to_api_string VideoMode.mono = codes "mono"
video_mode_to_api_string VideoMode.panoramic = codes "panoramic"
video_mode_to_api_string _ = codes "stereo"
