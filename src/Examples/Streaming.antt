-- ===== src/Examples/Streaming.antt =====
-- Configurations of the headset, what the driver makes of them, and its pipelines.
use but_telepresence.Prelude.{◌≡◌, refl, true, Option, none, some, List, [], ◌∷◌, arith}
use but_telepresence.Prelude.Int.{pos}
use but_telepresence.Prelude.Text.{Str, codes, str_eq}
use but_telepresence.Prelude.Decimal.{to_string}
use but_telepresence.Headset.Address.{ip_to_string}
use but_telepresence.Headset.Enums as Headset
use but_telepresence.Headset.Config as HeadsetConfig
use but_telepresence.Headset.Config.{
  default_config, classify_stream_config_change, structural, live_only,
}
use but_telepresence.Driver.Config.{Codec, VideoMode, StreamingConfig, can_update_dynamically}
use but_telepresence.Driver.Elements.{
  Element, print, get_encoder_tail_description, get_camera_front_end_description,
}
use but_telepresence.Driver.Pipeline.{
  Gst, Pipeline, build_camera_pipeline, update_pipeline_properties,
}
use but_telepresence.Driver.Pipeline.Shape.{Works}
use but_telepresence.Driver.Pipeline.Update.{
  settle, Escapes, update_rebuilds, unsupported_codec-Escapes,
}
use but_telepresence.Link.{received}
use but_telepresence.Link.Delivery.{config_meant, received_lem}
use but_telepresence.Link.Lockstep.{IsPushable, format_change_diverges}

abbrev pub h264_config : StreamingConfig
h264_config = record {
  ip = codes "10.0.31.220";
  port_left = pos 8554;
  port_right = pos 8556;
  codec = Codec.h264;
  encoding_quality = pos 60;
  bitrate = pos 4000000;
  horizontal_resolution = pos 1920;
  vertical_resolution = pos 1080;
  video_mode = VideoMode.stereo;
  fps = pos 60;
}

abbrev print_tail : Option (List Element) → Str
print_tail none = []
print_tail (some es) = print es

-- The texts are those of the source.
h264_text :
    print_tail (get_encoder_tail_description h264_config)
    ≡ codes
        "nvv4l2h264enc name=encoder control-rate=1 insert-sps-pps=1 insert-vui=1 iframeinterval=10 idrinterval=10 bitrate=4000000 preset-level=1 ! identity name=enc_ident ! rtph264pay name=rtppay mtu=1300 config-interval=1 pt=96 ! identity name=rtppay_ident"
unfolding get_encoder_tail_description print to_string
h264_text = refl

front_text :
    print (get_camera_front_end_description h264_config (pos 1))
    ≡ codes
        "nvarguscamerasrc aeantibanding=AeAntibandingMode_Off ee-mode=EdgeEnhancement_Off tnr-mode=NoiseReduction_Off saturation=1.2 sensor-id=1 ! video/x-raw(memory:NVMM),width=(int)2560,height=(int)1440,framerate=(fraction)60/1,format=(string)NV12 ! identity name=camsrc_ident ! nvvidconv flip-method=vertical-flip ! capsfilter name=scale_capsfilter caps=video/x-raw(memory:NVMM),width=(int)1920,height=(int)1080 ! identity name=vidconv_ident ! videorate drop-only=true ! capsfilter name=rate_capsfilter caps=video/x-raw(memory:NVMM),framerate=(fraction)60/1"
unfolding get_camera_front_end_description print to_string
front_text = refl

abbrev pub all_works : Gst
all_works = record {
  front_parses = true;
  makes_sink = true;
  tail_parses = true;
  links = true;
  has_src_pad = true;
}

abbrev pub slower_jpeg : StreamingConfig
slower_jpeg = record h264_config { codec = Codec.jpeg; fps = pos 30; vertical_resolution = pos 720 }

abbrev or_empty : Option Pipeline → Pipeline
or_empty none = record { elements = []; enc_tail = none }
or_empty (some p) = p

abbrev pub running : Pipeline
running = or_empty (build_camera_pipeline all_works (pos 0) h264_config)

pub running_built : build_camera_pipeline all_works (pos 0) h264_config ≡ some running
unfolding build_camera_pipeline get_encoder_tail_description
running_built = refl

pub all_works-Works : Works all_works
all_works-Works = record {
  front_parses = refl;
  makes_sink = refl;
  tail_parses = refl;
  links = refl;
  has_src_pad = refl;
}

update_rebuilds_example :
    (let u = update_pipeline_properties all_works running h264_config slower_jpeg in
      (u.success ≡ true)
      × (settle all_works u ≡ build_camera_pipeline all_works (pos 0) slower_jpeg))
unfolding can_update_dynamically get_encoder_tail_description str_eq
update_rebuilds_example =
    update_rebuilds all_works all_works-Works (pos 0) h264_config slower_jpeg running running_built
      refl (λ e. cc)

abbrev vp8_config : StreamingConfig
vp8_config = record h264_config { codec = Codec.vp8 }

unsupported_codec-Escapes_example :
    Escapes all_works
      (update_pipeline_properties all_works running h264_config vp8_config)
      vp8_config
unfolding get_encoder_tail_description
unsupported_codec-Escapes_example =
    unsupported_codec-Escapes all_works (pos 0) h264_config vp8_config running all_works-Works
      running_built refl

abbrev pub pushed : HeadsetConfig.StreamingConfig
pushed = record {
  headset_ip = 10 ∷ 0 ∷ 31 ∷ 220 ∷ [];
  jetson_ip = 10 ∷ 0 ∷ 31 ∷ 42 ∷ [];
  port_left = pos 8554;
  port_right = pos 8556;
  codec = Headset.Codec.h264;
  encoding_quality = pos 60;
  bitrate = pos 4000000;
  resolution = record { width = pos 1920; height = pos 1080; label = codes "FHD" };
  video_mode = Headset.VideoMode.stereo;
  fps = pos 60;
}

received_lem_example : received pushed ≡ some (config_meant pushed Codec.h264)
received_lem_example = received_lem pushed

pushed-IsPushable : IsPushable pushed
pushed-IsPushable = record { mode = tt; ip = omega arith }

abbrev more_bits : HeadsetConfig.StreamingConfig
more_bits = record pushed { bitrate = pos 5000000 }

more_bits-IsPushable : IsPushable more_bits
more_bits-IsPushable = record { mode = tt; ip = omega arith }

abbrev other_rate : HeadsetConfig.StreamingConfig
other_rate = record pushed { fps = pos 30 }

other_rate-IsPushable : IsPushable other_rate
other_rate-IsPushable = record { mode = tt; ip = omega arith }

-- A change of the frame rate alone: the headset rebuilds, the driver does not.
format_change_diverges_example :
    (classify_stream_config_change pushed other_rate ≡ structural)
    × (can_update_dynamically (config_meant pushed Codec.h264) (config_meant other_rate Codec.h264)
        ≡ true)
unfolding str_eq ip_to_string
format_change_diverges_example =
    format_change_diverges pushed-IsPushable other_rate-IsPushable (config_meant pushed Codec.h264)
      (config_meant other_rate Codec.h264) (received_lem pushed) (received_lem other_rate) refl
      (λ e. cc) refl

abbrev panoramic : HeadsetConfig.StreamingConfig
panoramic = record pushed { video_mode = Headset.VideoMode.panoramic }

abbrev panoramic_slow : HeadsetConfig.StreamingConfig
panoramic_slow = record panoramic { fps = pos 30 }

panoramic-IsPushable : IsPushable panoramic
panoramic-IsPushable = record { mode = tt; ip = omega arith }

panoramic_slow-IsPushable : IsPushable panoramic_slow
panoramic_slow-IsPushable = record { mode = tt; ip = omega arith }
