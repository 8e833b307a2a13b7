-- ===== src/Headset/Receiver.antt =====
-- The decode pipelines that configurePipelines of VR_App/src/gstreamer_player.cpp builds: which of
-- them, the ports, and the format that they take from the network (configureSinglePipeline, and the
-- pipelines of VR_App/include/gstreamer_player.h). Whether GStreamer makes them is an argument; the
-- elements that only decode or show are left out.
use but_telepresence.Prelude.{
  Bool, not, ◌&&◌, ◌||◌, Option, none, some, List, [], ◌∷◌, if◌then◌else◌,
}
use but_telepresence.Prelude.Int.{ℤ, pos, ltb_ℤ}
use but_telepresence.Prelude.Text.{Str, codes}
use but_telepresence.Headset.Enums.{Codec, VideoMode, codec_to_string, codec_eq, video_mode_eq}
use but_telepresence.Headset.Config.{StreamingConfig}

-- What one pipeline takes from the network: the port of udpsrc, the caps behind it, and the
-- depayloader.
pub record Receiver : Type 0 where
  pub port : ℤ
  pub encoding_name : Str
  pub payload : ℤ
  pub x_dimensions : ℤ × ℤ
  pub depayloader : Str

-- Nothing was done, an exception was thrown, or the pipelines play, the left one first.
pub data Configured : Type 0 where
  skipped threw : Configured
  playing : List Receiver → Configured

-- The switch over the codec, by the depayloader of the pipeline; `none` where it makes no pipeline.
abbrev pub pipeline_for : Codec → Option Str
pipeline_for Codec.jpeg = some (codes "rtpjpegdepay")
pipeline_for Codec.h264 = some (codes "rtph264depay")
pipeline_for Codec.h265 = some (codes "rtph265depay")
pipeline_for _ = none

-- The ports of the configuration are not read.
abbrev pub left_camera_port : ℤ
left_camera_port = pos 8554

abbrev pub right_camera_port : ℤ
right_camera_port = pos 8556

abbrev pub single_pipeline : VideoMode → Bool
single_pipeline m = video_mode_eq m VideoMode.mono || video_mode_eq m VideoMode.panoramic

abbrev pub payload_for : Codec → ℤ
payload_for c = if codec_eq c Codec.jpeg then pos 26 else pos 96

abbrev pub configure_single_pipeline : StreamingConfig → (depayloader : Str) → (port : ℤ) → Receiver
configure_single_pipeline config depayloader port = record {
  port = port;
  encoding_name = codec_to_string config.codec;
  payload = payload_for config.codec;
  x_dimensions = (config.resolution.width, config.resolution.height);
  depayloader = depayloader;
}

abbrev pub play : StreamingConfig → (depayloader : Str) → List Receiver
play config depayloader =
    configure_single_pipeline config depayloader left_camera_port
    ∷ (if single_pipeline config.video_mode
        then []
        else configure_single_pipeline config depayloader right_camera_port ∷ [])

abbrev pub has_size : StreamingConfig → Bool
has_size config = ltb_ℤ (pos 0) config.resolution.width && ltb_ℤ (pos 0) config.resolution.height

-- `prepared`: the context and the pair of frames are there; `parses`: gst_parse_launch makes the
-- pipelines, and they have the elements that are looked up.
unfoldable pub configure_pipelines : (prepared parses : Bool) → StreamingConfig → Configured
configure_pipelines prepared parses config =
    if not (prepared && has_size config) then skipped else elim (pipeline_for config.codec) [
      | none ↦ threw
      | some depayloader ↦ if parses then playing (play config depayloader) else threw
    ]

-- What GStreamer answers to configurePipelines: whether the context and the camera pair are there,
-- and whether the pipelines are made with the elements that getElementRequired looks for.
pub record Decoder : Type 0 where
  pub prepared : Bool
  pub parses : Bool

-- The configuration that the pipelines are built for after configurePipelines, `built_for` before;
-- `none` where it throws.
abbrev pub built_after :
    Configured
    → StreamingConfig
    → (built_for : Option StreamingConfig) → Option (Option StreamingConfig)
built_after Configured.skipped config built_for = some built_for
built_after Configured.threw config built_for = none
built_after (Configured.playing receivers) config built_for = some (some config)

abbrev pub configured_for :
    Decoder
    → StreamingConfig
    → (built_for : Option StreamingConfig) → Option (Option StreamingConfig)
configured_for d config built_for =
    built_after (configure_pipelines d.prepared d.parses config) config built_for
