-- ===== src/Driver/Elements.antt =====
-- streaming_driver/include/pipelines.h: the descriptions of the camera front end, of the encoder
-- tail and of the panoramic pipeline. A description is its list of elements, one for each part
-- between two `!`, with the properties in the order of the text; `print` gives the text back.
-- GStreamer itself is outside: an element is its factory, its name and its properties.
use but_telepresence.Prelude.{ℕ, Option, none, some, List, [], ◌∷◌, ◌++◌}
use but_telepresence.Prelude.Int.{ℤ, pos}
use but_telepresence.Prelude.Text.{Str, codes}
use but_telepresence.Prelude.Decimal.{to_string, nat_to_string}
use but_telepresence.Driver.Config.{Codec, StreamingConfig}

pub data Value : Type 0 where
  text : Str → Value
  int : ℤ → Value
  size_caps : ℤ → ℤ → Value
  rate_caps : ℤ → Value
  -- width, height and rate in one
  camera_caps : ℤ → ℤ → ℤ → Value

-- The name is empty where the description gives none.
pub record Element : Type 0 where
  pub factory : Str
  pub name : Str
  pub properties : List (Str × Value)

abbrev pub identity : Str → Element
identity n = record { factory = codes "identity"; name = n; properties = [] }

-- The tail from the payloader on, which both kinds of codec end with.
abbrev tail_end : Element → List Element
tail_end payloader = identity (codes "enc_ident") ∷ payloader ∷ identity (codes "rtppay_ident") ∷ []

abbrev h26x_properties : ℤ → List (Str × Value)
h26x_properties bitrate =
    (codes "iframeinterval", text (codes "10"))
    ∷ (codes "idrinterval", text (codes "10"))
    ∷ (codes "bitrate", int bitrate)
    ∷ (codes "preset-level", text (codes "1"))
    ∷ []

abbrev rtp_properties : List (Str × Value)
rtp_properties =
    (codes "mtu", text (codes "1300"))
    ∷ (codes "config-interval", text (codes "1"))
    ∷ (codes "pt", text (codes "96"))
    ∷ []

-- GetEncoderTailDescription by its switch; `none` where it throws.
unfoldable pub encoder_tail_for : Codec → (quality bitrate : ℤ) → Option (List Element)
encoder_tail_for Codec.jpeg quality bitrate = some (
    record {
      factory = codes "nvjpegenc";
      name = codes "encoder";
      properties =
          (codes "quality", int quality) ∷ (codes "idct-method", text (codes "ifast")) ∷ [];
    }
    ∷ tail_end (record {
      factory = codes "rtpjpegpay";
      name = codes "rtppay";
      properties = (codes "mtu", text (codes "1300")) ∷ [];
    }))
encoder_tail_for Codec.h264 quality bitrate = some (
    record {
      factory = codes "nvv4l2h264enc";
      name = codes "encoder";
      properties =
          (codes "control-rate", text (codes "1"))
          ∷ (codes "insert-sps-pps", text (codes "1"))
          ∷ (codes "insert-vui", text (codes "1"))
          ∷ h26x_properties bitrate;
    }
    ∷ tail_end (record {
      factory = codes "rtph264pay";
      name = codes "rtppay";
      properties = rtp_properties;
    }))
encoder_tail_for Codec.h265 quality bitrate = some (
    record {
      factory = codes "nvv4l2h265enc";
      name = codes "encoder";
      properties =
          (codes "control-rate", text (codes "1"))
          ∷ (codes "insert-sps-pps", text (codes "1"))
          ∷ h26x_properties bitrate;
    }
    ∷ tail_end (record {
      factory = codes "rtph265pay";
      name = codes "rtppay";
      properties = rtp_properties;
    }))
encoder_tail_for _ quality bitrate = none

unfoldable pub get_encoder_tail_description : StreamingConfig → Option (List Element)
unfolding encoder_tail_for
get_encoder_tail_description cfg = encoder_tail_for cfg.codec cfg.encoding_quality cfg.bitrate

abbrev camera_switches : List (Str × Value)
camera_switches =
    (codes "aeantibanding", text (codes "AeAntibandingMode_Off"))
    ∷ (codes "ee-mode", text (codes "EdgeEnhancement_Off"))
    ∷ (codes "tnr-mode", text (codes "NoiseReduction_Off"))
    ∷ (codes "saturation", text (codes "1.2"))
    ∷ []

-- CAMERA_EXPOSURE_LOCK is empty. Bare caps stand as an element with no name and no property.
unfoldable pub get_camera_front_end_description : StreamingConfig → (sensor_id : ℤ) → List Element
get_camera_front_end_description cfg sensor_id =
    record {
      factory = codes "nvarguscamerasrc";
      name = [];
      properties = camera_switches ++ ((codes "sensor-id", int sensor_id) ∷ []);
    }
    ∷ record {
      factory =
          codes
            "video/x-raw(memory:NVMM),width=(int)2560,height=(int)1440,framerate=(fraction)60/1,format=(string)NV12";
      name = [];
      properties = [];
    }
    ∷ identity (codes "camsrc_ident")
    ∷ record {
      factory = codes "nvvidconv";
      name = [];
      properties = (codes "flip-method", text (codes "vertical-flip")) ∷ [];
    }
    ∷ record {
      factory = codes "capsfilter";
      name = codes "scale_capsfilter";
      properties = (codes "caps", size_caps cfg.horizontal_resolution cfg.vertical_resolution) ∷ [];
    }
    ∷ identity (codes "vidconv_ident")
    ∷ record {
      factory = codes "videorate";
      name = [];
      properties = (codes "drop-only", text (codes "true")) ∷ [];
    }
    ∷ record {
      factory = codes "capsfilter";
      name = codes "rate_capsfilter";
      properties = (codes "caps", rate_caps cfg.fps) ∷ [];
    }
    ∷ []

-- One branch of the panoramic description: the slot's camera, up to the selector's pad.
unfoldable pub slot_branch : StreamingConfig → (slot sensor_id : ℕ) → List Element
slot_branch cfg slot sensor_id =
    record {
      factory = codes "nvarguscamerasrc";
      name = codes "cam_src_" ++ nat_to_string slot;
      properties = camera_switches ++ ((codes "sensor-id", int (pos sensor_id)) ∷ []);
    }
    ∷ record {
      factory = codes "capsfilter";
      name = codes "cam_capsfilter_" ++ nat_to_string slot;
      properties =
          (codes "caps", camera_caps cfg.horizontal_resolution cfg.vertical_resolution cfg.fps)
          ∷ [];
    }
    ∷ record {
      factory = codes "nvvidconv";
      name = codes "cam_conv_" ++ nat_to_string slot;
      properties = (codes "flip-method", text (codes "vertical-flip")) ∷ [];
    }
    ∷ record {
      factory = codes "queue";
      name = codes "cam_queue_" ++ nat_to_string slot;
      properties =
          (codes "max-size-buffers", text (codes "1"))
          ∷ (codes "leaky", text (codes "downstream"))
          ∷ [];
    }
    ∷ []

-- GetPanoramicStreamingPipeline: the three branches, the selector, the tail and the sink; `none`
-- where the tail throws.
unfoldable pub get_panoramic_streaming_pipeline :
    StreamingConfig → ℕ × ℕ × ℕ → Option (List Element)
unfolding slot_branch
get_panoramic_streaming_pipeline cfg (s0, s1, s2) = elim (get_encoder_tail_description cfg) [
  | none ↦ none
  | some tail ↦ some (
      slot_branch cfg 0 s0
      ++ (slot_branch cfg 1 s1
          ++ (slot_branch cfg 2 s2
              ++ (record { factory = codes "input-selector"; name = codes "sel"; properties = [] }
                  ∷ identity (codes "camsrc_ident")
                  ∷ identity (codes "vidconv_ident")
                  ∷ (tail
                      ++ (record {
                        factory = codes "udpsink";
                        name = [];
                        properties =
                            (codes "host", text cfg.ip)
                            ∷ (codes "sync", text (codes "false"))
                            ∷ (codes "port", int cfg.port_left)
                            ∷ [];
                      }
                          ∷ []))))))
]

-- The text of a description.
print_value : Value → Str
print_value (text s) = s
print_value (int v) = to_string v
print_value (size_caps w h) =
    codes "video/x-raw(memory:NVMM),width=(int)"
    ++ (to_string w ++ (codes ",height=(int)" ++ to_string h))
print_value (rate_caps f) =
    codes "video/x-raw(memory:NVMM),framerate=(fraction)" ++ (to_string f ++ codes "/1")
print_value (camera_caps w h f) =
    codes "video/x-raw(memory:NVMM),width=(int)"
    ++ (to_string w
        ++ (codes ",height=(int)"
            ++ (to_string h
                ++ (codes ",framerate=(fraction)"
                    ++ (to_string f ++ codes "/1,format=(string)NV12")))))

print_properties : List (Str × Value) → Str
unfolding print_value
print_properties [] = []
print_properties ((k, v) ∷ ps) =
    codes " " ++ (k ++ (codes "=" ++ (print_value v ++ print_properties ps)))

print_name : Str → Str
print_name [] = []
print_name (c ∷ n) = codes " name=" ++ (c ∷ n)

print_element : Element → Str
unfolding print_name print_properties
print_element e = e.factory ++ (print_name e.name ++ print_properties e.properties)

print_rest : List Element → Str
unfolding print_element
print_rest [] = []
print_rest (e ∷ es) = codes " ! " ++ (print_element e ++ print_rest es)

unfoldable pub print : List Element → Str
unfolding print_rest
print [] = []
print (e ∷ es) = print_element e ++ print_rest es
