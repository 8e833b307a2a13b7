-- ===== src/Link/Receiving.antt =====
-- The pipelines of the headset against the stream that the driver sends for the same configuration.
use but_telepresence.Prelude.{
  ℕ, All, ◌≡◌, refl, subst, sym, ap, Bool, true, false, Option, none, some, List, [], ◌∷◌, ◌++◌,
  if◌then◌else◌, ◌+◌, leb, ◌&&◌,
}
use but_telepresence.Prelude.Int.{ℤ, pos}
use but_telepresence.Prelude.Text.{Str, codes, str_eq}
use but_telepresence.Prelude.Decimal.{to_string, nat_to_string}
use but_telepresence.Headset.Enums.{Codec, codec_to_string}
use but_telepresence.Headset.Config.{StreamingConfig}
use but_telepresence.Headset.Settings.Steps.{IsOffered}
use but_telepresence.Headset.Settings.Bounds.{IsUsable}
use but_telepresence.Headset.Settings.Playing.{usable-has_size}
use but_telepresence.Headset.Receiver.{
  Receiver, Configured, playing, configure_pipelines, play, has_size, configure_single_pipeline,
  single_pipeline, left_camera_port, right_camera_port,
}
use but_telepresence.Driver.Config as DriverConfig
use but_telepresence.Driver.Elements.{
  Value, text, int, size_caps, rate_caps, camera_caps, Element, get_encoder_tail_description,
  encoder_tail_for, get_camera_front_end_description, get_panoramic_streaming_pipeline, slot_branch,
}
use but_telepresence.Link.{received}
use but_telepresence.Link.Delivery.{received_lem, map_config, config_meant, codec_meant}

-- The element with a name, and the value of a property.
unfoldable pub element_named : Str → List Element → Option Element
element_named n [] = none
element_named n (e ∷ es) = if str_eq e.name n then some e else element_named n es

unfoldable pub property_named : Str → List (Str × Value) → Option Value
property_named n [] = none
property_named n ((k, v) ∷ ps) = if str_eq k n then some v else property_named n ps

-- The payload type of a payloader, `default_pt` where the description sets none.
abbrev pub payload_type : (default_pt : Str → ℤ) → Element → Value
payload_type default_pt e = elim (property_named (codes "pt") e.properties) [
  | none ↦ text (to_string (default_pt e.factory))
  | some v ↦ v
]

-- The width and the height that caps demand.
unfoldable pub frame_size : Value → Option (ℤ × ℤ)
frame_size (text s) = none
frame_size (int n) = none
frame_size (size_caps w h) = some (w, h)
frame_size (rate_caps f) = none
frame_size (camera_caps w h f) = some (w, h)

caps_of : Option Element → Option Value
caps_of none = none
caps_of (some e) = property_named (codes "caps") e.properties

size_of : Option Value → Option (ℤ × ℤ)
size_of none = none
size_of (some v) = frame_size v

-- The width and the height that a capsfilter of a description lets through.
unfoldable pub size_at : Str → List Element → Option (ℤ × ℤ)
unfolding caps_of size_of
size_at n es = size_of (caps_of (element_named n es))

-- The three cameras of the panoramic pipeline, whichever sensors they are, give frames of a size.
pub record CamerasGive (d : DriverConfig.StreamingConfig) (w : ℕ × ℕ × ℕ) (size : ℤ × ℤ)
    : Type 0 where
  pub elements : List Element
  pub described : get_panoramic_streaming_pipeline d w ≡ some elements
  pub first : size_at (codes "cam_capsfilter_0") elements ≡ some size
  pub second : size_at (codes "cam_capsfilter_1") elements ≡ some size
  pub third : size_at (codes "cam_capsfilter_2") elements ≡ some size

abbrev pub lower : Str → Str
lower [] = []
lower (c ∷ s) = (if leb 65 c && leb c 90 then c + 32 else c) ∷ lower s

-- A receiver takes what the payloader sends.
pub record Takes (default_pt : Str → ℤ) (p : Element) (r : Receiver) : Type 0 where
  pub pays : p.factory ≡ codes "rtp" ++ (lower r.encoding_name ++ codes "pay")
  pub depays : r.depayloader ≡ codes "rtp" ++ (lower r.encoding_name ++ codes "depay")
  pub payload : payload_type default_pt p ≡ text (to_string r.payload)

-- For the configuration d of the driver, the payloader of its tail fits every receiver, and the
-- receivers expect the size that the front end of a camera, and each camera of the panoramic
-- pipeline, give their frames.
pub record IsReceived (default_pt : Str → ℤ) (d : DriverConfig.StreamingConfig) (r : Receiver)
    : Type 0 where
  pub tail : List Element
  pub described : get_encoder_tail_description d ≡ some tail
  pub payloader : Element
  pub found : element_named (codes "rtppay") tail ≡ some payloader
  pub takes : Takes default_pt payloader r
  pub size :
      (sensor_id : ℤ)
      → size_at (codes "scale_capsfilter") (get_camera_front_end_description d sensor_id)
        ≡ some r.x_dimensions
  pub panoramic_size : (w : ℕ × ℕ × ℕ) → CamerasGive d w r.x_dimensions

-- The driver accepts the configuration, and the headset plays one pipeline or more, each fitting.
abbrev pub AreReceived :
    (default_pt : Str → ℤ) → Option DriverConfig.StreamingConfig → Configured → Type 0
AreReceived default_pt (some d) (playing (r ∷ rs)) =
    IsReceived default_pt d r × All (IsReceived default_pt d) rs
AreReceived default_pt _ _ = ⊥

fits_played :
    (default_pt : Str → ℤ) (c : StreamingConfig) (codec : DriverConfig.Codec) (depayloader : Str)
    → ((port : ℤ)
        → IsReceived default_pt
            (config_meant c codec)
            (configure_single_pipeline c depayloader port))
    → AreReceived default_pt (some (config_meant c codec)) (playing (play c depayloader))
fits_played default_pt c codec depayloader h = go (single_pipeline c.video_mode)
  where
    go :
        (b : Bool)
        → AreReceived default_pt (some (config_meant c codec)) (
            playing (
              configure_single_pipeline c depayloader left_camera_port
              ∷ (if b then [] else configure_single_pipeline c depayloader right_camera_port ∷ [])))
    go true = (h left_camera_port, tt)
    go false = (h left_camera_port, (h right_camera_port, tt))

offered-AreReceived :
    (default_pt : Str → ℤ) (c : StreamingConfig) (k : Codec)
    → default_pt (codes "rtpjpegpay") ≡ pos 26
    → has_size c ≡ true
    → IsOffered k
    → AreReceived default_pt
        (map_config (record c { codec = k }) (codec_meant k))
        (configure_pipelines true true (record c { codec = k }))
unfolding configure_pipelines codec_to_string get_encoder_tail_description encoder_tail_for
    element_named property_named str_eq to_string get_camera_front_end_description
    get_panoramic_streaming_pipeline slot_branch size_at frame_size caps_of size_of nat_to_string
offered-AreReceived default_pt c Codec.jpeg h z k =
    rw (configure_pipelines, z)
      (fits_played default_pt (record c { codec = Codec.jpeg }) DriverConfig.Codec.jpeg
        (codes "rtpjpegdepay")
        (λ port. record {
          tail = _;
          described = refl;
          payloader = _;
          found = refl;
          takes = record { pays = refl; depays = refl; payload = ap (λ n. text (to_string n)) h };
          size = λ sensor_id. refl;
          panoramic_size = λ w. record {
            elements = _;
            described = refl;
            first = refl;
            second = refl;
            third = refl;
          };
        }))
offered-AreReceived default_pt c Codec.h264 h z k =
    rw (configure_pipelines, z)
      (fits_played default_pt (record c { codec = Codec.h264 }) DriverConfig.Codec.h264
        (codes "rtph264depay")
        (λ port. record {
          tail = _;
          described = refl;
          payloader = _;
          found = refl;
          takes = record { pays = refl; depays = refl; payload = refl };
          size = λ sensor_id. refl;
          panoramic_size = λ w. record {
            elements = _;
            described = refl;
            first = refl;
            second = refl;
            third = refl;
          };
        }))
offered-AreReceived default_pt c Codec.h265 h z k =
    rw (configure_pipelines, z)
      (fits_played default_pt (record c { codec = Codec.h265 }) DriverConfig.Codec.h265
        (codes "rtph265depay")
        (λ port. record {
          tail = _;
          described = refl;
          payloader = _;
          found = refl;
          takes = record { pays = refl; depays = refl; payload = refl };
          size = λ sensor_id. refl;
          panoramic_size = λ w. record {
            elements = _;
            described = refl;
            first = refl;
            second = refl;
            third = refl;
          };
        }))
offered-AreReceived default_pt c Codec.vp8 h z k = absurd k
offered-AreReceived default_pt c Codec.vp9 h z k = absurd k
offered-AreReceived default_pt c Codec.count h z k = absurd k
offered-AreReceived default_pt c (Codec.other n) h z k = absurd k

-- For a usable configuration, when GStreamer is prepared and parses the pipelines, and rtpjpegpay
-- has the payload type 26 as its default: the driver accepts the configuration, and every pipeline
-- that the headset plays for it, one at least, takes the RTP format and the payload type of the
-- payloader in the tail that the driver describes for it, and the width and height in the caps of
-- the camera front end and of the three cameras of the panoramic pipeline.
pub received-AreReceived :
    (default_pt : Str → ℤ) (c : StreamingConfig)
    → default_pt (codes "rtpjpegpay") ≡ pos 26
    → IsUsable c
    → AreReceived default_pt (received c) (configure_pipelines true true c)
received-AreReceived default_pt c h v =
    subst (λ d. AreReceived default_pt d (configure_pipelines true true c)) (sym (received_lem c))
      (offered-AreReceived default_pt c c.codec h (usable-has_size c v) v.codec)
