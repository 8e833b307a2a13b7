-- ===== src/Driver/Pipeline.antt =====
-- streaming_driver/main.cpp: BuildCameraPipeline, SwapEncoderProbe, SwapEncoderTail and
-- UpdatePipelineProperties, on a pipeline that is its elements by name.
-- GStreamer is outside: whether one of its calls succeeds is a field of `Gst`.
-- SetSensorStaticLatencyForFps does nothing, and logging and reference counts are left out.
pub mod Shape
pub mod Update
pub mod Overtaken
pub mod Panoramic
pub mod Leading
pub mod Draining
use but_telepresence.Prelude.{
  ℕ, Bool, true, false, not, ◌&&◌, ◌||◌, Option, none, some, List, [], ◌∷◌, ◌++◌, if◌then◌else◌,
}
use but_telepresence.Prelude.Int.{ℤ, pos, int_eq}
use but_telepresence.Prelude.Text.{Str, codes, str_eq}
use but_telepresence.Driver.Config.{Codec, StreamingConfig, codec_eq}
use but_telepresence.Driver.Elements.{
  Value, text, int, size_caps, rate_caps, Element, get_encoder_tail_description,
  get_camera_front_end_description,
}

-- Whether the calls of the library succeed.
pub record Gst : Type 0 where
  pub front_parses : Bool
  pub makes_sink : Bool
  pub tail_parses : Bool
  pub links : Bool
  pub has_src_pad : Bool

-- The elements outside the encoder tail, and the bin "enc_tail" if it is there.
pub record Pipeline : Type 0 where
  pub elements : List Element
  pub enc_tail : Option (List Element)

pub set_entry : Str → Value → List (Str × Value) → List (Str × Value)
set_entry k v [] = (k, v) ∷ []
set_entry k v ((j, w) ∷ ps) = if str_eq j k then (j, v) ∷ ps else (j, w) ∷ set_entry k v ps

-- gst_bin_get_by_name and g_object_set on the element found.
pub has_element : Str → List Element → Bool
has_element n [] = false
has_element n (e ∷ es) = str_eq e.name n || has_element n es

pub set_property : Str → Str → Value → List Element → List Element
unfolding set_entry
set_property n k v [] = []
set_property n k v (e ∷ es) =
    if str_eq e.name n
    then record e { properties = set_entry k v e.properties } ∷ es
    else e ∷ set_property n k v es

abbrev tail_elements : Option (List Element) → List Element
tail_elements none = []
tail_elements (some es) = es

pub finds : Str → Pipeline → Bool
unfolding has_element
finds n p = has_element n p.elements || has_element n (tail_elements p.enc_tail)

-- The lookup goes through the pipeline and into the tail.
pub set_on : Str → Str → Value → Pipeline → Pipeline
unfolding has_element set_property
set_on n k v p =
    if has_element n p.elements
    then record p { elements = set_property n k v p.elements }
    else record p {
      enc_tail = elim p.enc_tail [ none ↦ none | some es ↦ some (set_property n k v es) ];
    }

pub udpsink_of : StreamingConfig → ℤ → Element
udpsink_of cfg port = record {
  factory = codes "udpsink";
  name = codes "udpsink";
  properties =
      (codes "host", text cfg.ip)
      ∷ (codes "port", int port)
      ∷ (codes "sync", text (codes "FALSE"))
      ∷ [];
}

-- The pipeline, or `none` where the function throws. Only sensor 0 is the left camera.
unfoldable pub build_camera_pipeline : Gst → ℤ → StreamingConfig → Option Pipeline
unfolding udpsink_of
build_camera_pipeline g sensor_id cfg =
    let port = if int_eq sensor_id (pos 0) then cfg.port_left else cfg.port_right in
    elim (get_encoder_tail_description cfg) [
      | none ↦ none
      | some tail ↦
          if g.front_parses && g.makes_sink && g.tail_parses && g.links
          then some (record {
            elements = get_camera_front_end_description cfg sensor_id ++ (udpsink_of cfg port ∷ []);
            enc_tail = some tail;
          })
          else none
    ]

-- How a swap of the encoder tail ends. An exception leaves a callback that C code made.
pub data Swap : Type 0 where
  swapped : Pipeline → (key_frame : Bool) → Swap
  uncaught : Swap

abbrev pub needs_key_frame : Codec → Bool
needs_key_frame c = codec_eq c Codec.h264 || codec_eq c Codec.h265

pub rebuild_tail : Gst → Pipeline → StreamingConfig → Swap
rebuild_tail g p cfg = elim (get_encoder_tail_description cfg) [
  | none ↦ uncaught
  | some tail ↦
      if g.tail_parses
      then swapped (record p { enc_tail = some tail }) (needs_key_frame cfg.codec)
      else swapped (record p { enc_tail = none }) false
]

-- The old tail is out of the bin before the new one is described. A failed relink is only logged.
unfoldable pub swap_encoder_probe : Gst → Pipeline → StreamingConfig → Swap
unfolding rebuild_tail set_on finds
swap_encoder_probe g p cfg =
    let caps = size_caps cfg.horizontal_resolution cfg.vertical_resolution in
    let scaled =
      if finds (codes "scale_capsfilter") p
      then set_on (codes "scale_capsfilter") (codes "caps") caps p
      else p in
    elim p.enc_tail [
      | none ↦ swapped scaled false
      | some old ↦
          if finds (codes "udpsink") scaled && finds (codes "rate_capsfilter") scaled
          then rebuild_tail g scaled cfg
          else swapped scaled false
    ]

-- Whether the probe could be installed.
unfoldable pub swap_encoder_tail : Gst → Pipeline → Bool
unfolding finds
swap_encoder_tail g p = finds (codes "rate_capsfilter") p && g.has_src_pad

-- The pipeline after the call, and the configuration of the swap that waits for the next buffer.
pub record Updated : Type 0 where
  pub success : Bool
  pub pipeline : Pipeline
  pub pending : Option StreamingConfig

pub retime : StreamingConfig → StreamingConfig → Pipeline → Pipeline
unfolding finds set_on
retime old new p =
    if not (int_eq old.fps new.fps) && finds (codes "rate_capsfilter") p
    then set_on (codes "rate_capsfilter") (codes "caps") (rate_caps new.fps) p
    else p

pub set_encoder : StreamingConfig → Pipeline → Pipeline
unfolding finds set_on
set_encoder new p =
    if finds (codes "encoder") p
    then if codec_eq new.codec Codec.jpeg
      then set_on (codes "encoder") (codes "quality") (int new.encoding_quality) p
      else set_on (codes "encoder") (codes "bitrate") (int new.bitrate) p
    else p

abbrev pub changes_tail : StreamingConfig → StreamingConfig → Bool
changes_tail old new =
    not (codec_eq old.codec new.codec)
    || (not (int_eq old.horizontal_resolution new.horizontal_resolution)
        || not (int_eq old.vertical_resolution new.vertical_resolution))

-- For a pipeline that is not null.
unfoldable pub update_pipeline_properties : Gst → Pipeline → (old new : StreamingConfig) → Updated
unfolding swap_encoder_tail retime set_encoder
update_pipeline_properties g p old new =
    if changes_tail old new
    then if swap_encoder_tail g p
      then record { success = true; pipeline = retime old new p; pending = some new }
      else record { success = false; pipeline = p; pending = none }
    else record { success = true; pipeline = set_encoder new (retime old new p); pending = none }
