-- ===== src/Driver/Pipeline/Panoramic.antt =====
-- A change that is applied to the running panoramic pipeline of streaming_driver/main.cpp against
-- the pipeline that is built for it.
use but_telepresence.Prelude.{
  ℕ, ◌≡◌, refl, sym, subst, true, false, Option, none, some, some_injective, List, arith,
}
use but_telepresence.Prelude.Int.{ℤ, int_eq, int_eq_iff}
use but_telepresence.Prelude.Text.{str_eq}
use but_telepresence.Driver.Config.{
  Codec, VideoMode, StreamingConfig, video_mode_eq, changes_format, can_update_dynamically,
}
use but_telepresence.Driver.Elements.{
  Element, get_panoramic_streaming_pipeline, get_encoder_tail_description, encoder_tail_for,
}
use but_telepresence.Driver.Pipeline.{
  Gst, Pipeline, Updated, update_pipeline_properties, retime, set_encoder, finds, set_on,
}
use but_telepresence.Driver.Pipeline.Update.{can_update-SameEndpoint, codec_eq→eq}

abbrev pub as_pipeline : List Element → Pipeline
as_pipeline elements = record { elements = elements; enc_tail = none }

-- The update succeeds, arms no swap, and leaves the pipeline of a description.
pub record Rebuilds (u : Updated) (described : Option (List Element)) : Type 0 where
  pub success : u.success ≡ true
  pub pending : u.pending ≡ none
  pub rebuilt : described ≡ some u.pipeline.elements
  pub tail : u.pipeline.enc_tail ≡ none

same_int : (n : ℤ) → int_eq n n ≡ true
same_int n = (int_eq_iff n n).1 refl

-- The encoder's own properties, for each codec.
in_place :
    (g : Gst) (c : StreamingConfig) (k : Codec) (quality bitrate : ℤ) (w : ℕ × ℕ × ℕ)
    (elements : List Element)
    → get_panoramic_streaming_pipeline
        (record c { codec = k; encoding_quality = quality; bitrate = bitrate })
        w
      ≡ some elements
    → Rebuilds
        (update_pipeline_properties g
          (as_pipeline elements)
          (record c { codec = k; encoding_quality = quality; bitrate = bitrate })
          (record c { codec = k }))
        (get_panoramic_streaming_pipeline (record c { codec = k }) w)
unfolding get_panoramic_streaming_pipeline get_encoder_tail_description encoder_tail_for
    update_pipeline_properties str_eq retime set_encoder finds set_on
in_place g c Codec.jpeg quality bitrate w elements e = rw (same_int c.horizontal_resolution) (
    rw (same_int c.vertical_resolution) (
      rw (same_int c.fps) (
        rw (← some_injective e)
          (record { success = refl; pending = refl; rebuilt = refl; tail = refl }))))
in_place g c Codec.h264 quality bitrate w elements e = rw (same_int c.horizontal_resolution) (
    rw (same_int c.vertical_resolution) (
      rw (same_int c.fps) (
        rw (← some_injective e)
          (record { success = refl; pending = refl; rebuilt = refl; tail = refl }))))
in_place g c Codec.h265 quality bitrate w elements e = rw (same_int c.horizontal_resolution) (
    rw (same_int c.vertical_resolution) (
      rw (same_int c.fps) (
        rw (← some_injective e)
          (record { success = refl; pending = refl; rebuilt = refl; tail = refl }))))
in_place g c Codec.vp8 quality bitrate w elements e = cc
in_place g c Codec.vp9 quality bitrate w elements e = cc

same_mode : (a b : VideoMode) → video_mode_eq a b ≡ true → a ≡ b
same_mode a b h = ground arith

-- In panoramic mode only the quality and the bitrate change in place.
only_encoder :
    (old new : StreamingConfig)
    → new.video_mode ≡ VideoMode.panoramic
    → can_update_dynamically old new ≡ true
    → record new { encoding_quality = old.encoding_quality; bitrate = old.bitrate } ≡ old
unfolding can_update_dynamically
only_encoder old new m h =
    let same = can_update-SameEndpoint old new h in
    let p : video_mode_eq new.video_mode VideoMode.panoramic ≡ true = rw m refl in
    let f : changes_format old new ≡ false = ground (arith, p, h) in
    let mode : old.video_mode ≡ new.video_mode =
      same_mode old.video_mode new.video_mode (ground (arith, h)) in
    let codec : old.codec ≡ new.codec = codec_eq→eq old.codec new.codec (ground (arith, f)) in
    let fps : old.fps ≡ new.fps = (int_eq_iff old.fps new.fps).0 (ground (arith, f)) in
    let width : old.horizontal_resolution ≡ new.horizontal_resolution =
      (int_eq_iff old.horizontal_resolution new.horizontal_resolution).0 (ground (arith, f)) in
    let height : old.vertical_resolution ≡ new.vertical_resolution =
      (int_eq_iff old.vertical_resolution new.vertical_resolution).0 (ground (arith, f)) in
    cc (same.ip, same.port_left, same.port_right, mode, codec, fps, width, height)

-- In panoramic mode a change that the driver applies to the running pipeline has the effect of
-- building it anew: if the pipeline was built for the old configuration and the change can be made
-- dynamically, the update succeeds, arms no swap, and leaves the pipeline that the new configuration
-- describes for the same three cameras.
pub panoramic_rebuilds :
    (g : Gst) (old new : StreamingConfig) (w : ℕ × ℕ × ℕ) (elements : List Element)
    → new.video_mode ≡ VideoMode.panoramic
    → can_update_dynamically old new ≡ true
    → get_panoramic_streaming_pipeline old w ≡ some elements
    → Rebuilds
        (update_pipeline_properties g (as_pipeline elements) old new)
        (get_panoramic_streaming_pipeline new w)
panoramic_rebuilds g old new w elements m h e =
    let o = only_encoder old new m h in
    subst
      (λ c.
        Rebuilds (update_pipeline_properties g (as_pipeline elements) c new)
          (get_panoramic_streaming_pipeline new w))
      o
      (in_place g new new.codec old.encoding_quality old.bitrate w elements
        (subst (λ c. get_panoramic_streaming_pipeline c w ≡ some elements) (sym o) e))
