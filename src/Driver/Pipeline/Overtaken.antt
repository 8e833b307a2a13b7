-- ===== src/Driver/Pipeline/Overtaken.antt =====
-- An update of bitrate or quality that comes while the swap of an earlier update still waits for a
-- buffer (streaming_driver/main.cpp, UpdatePipelineProperties and SwapEncoderProbe).
use but_telepresence.Prelude.{
  ◌≡◌, refl, true, false, none, some, List, Bool-cases, inl, inr, ap, sym, subst, ◌∙◌, ◌≢◌,
  Option-cases, Option,
}
use but_telepresence.Prelude.Int.{ℤ}
use but_telepresence.Prelude.Text.{codes, str_eq}
use but_telepresence.Driver.Config.{Codec, codec_eq, StreamingConfig, can_update_dynamically}
use but_telepresence.Driver.Elements.{
  int, Element, get_encoder_tail_description, get_camera_front_end_description,
}
use but_telepresence.Driver.Pipeline.{
  Gst, has_element, set_property, Pipeline, build_camera_pipeline, retime, set_encoder, udpsink_of,
  finds, set_on, Updated, update_pipeline_properties, changes_tail,
}
use but_telepresence.Driver.Pipeline.Shape.{
  Works, shape, build-shape, some_inj, retime-shape, swap-shape, swap_encoder_tail-shape,
  shape-congr,
}
use but_telepresence.Driver.Pipeline.Update.{
  settle, SameEndpoint, can_update-SameEndpoint, not_built,
}

-- Two updates before the next buffer, and then the swap of the first.
abbrev pub overtaken : Gst → Pipeline → (old mid new : StreamingConfig) → Updated
overtaken g p old mid new =
    let first = update_pipeline_properties g p old mid in
    let second = update_pipeline_properties g first.pipeline mid new in
    record second { pending = first.pending }

-- Whatever encoder the tail has, only the tail changes.
set_encoder-tail :
    (new cfg : StreamingConfig) (sensor_id : ℤ) (tail : List Element)
    → (t : List Element) × (set_encoder new (shape cfg sensor_id tail) ≡ shape cfg sensor_id t)
unfolding set_encoder shape finds set_on get_camera_front_end_description udpsink_of str_eq
set_encoder-tail new cfg sensor_id tail = elim (Bool-cases (has_element (codes "encoder") tail)) [
  | inl e ↦ elim (Bool-cases (codec_eq new.codec Codec.jpeg)) [
    | inl j ↦ (
      set_property (codes "encoder") (codes "quality") (int new.encoding_quality) tail,
      rw e (rw j refl),
    )
    | inr j ↦
        (set_property (codes "encoder") (codes "bitrate") (int new.bitrate) tail, rw e (rw j refl))
  ]
  | inr e ↦ (tail, rw e refl)
]

module _ (g : Gst) (w : Works g) (sensor_id : ℤ) (old mid new : StreamingConfig)
    (tail : List Element) (k : changes_tail old mid ≡ true) (n : changes_tail mid new ≡ false) where
  first_update : update_pipeline_properties g (shape old sensor_id tail) old mid ≡ record {
    success = true;
    pipeline = shape (record old { fps = mid.fps }) sensor_id tail;
    pending = some mid;
  }
  unfolding update_pipeline_properties
  first_update = rw k (
      rw (swap_encoder_tail-shape old mid sensor_id tail g w.has_src_pad)
        (rw (retime-shape old mid sensor_id tail) refl))

  retime_again :
      retime mid new (shape (record old { fps = mid.fps }) sensor_id tail)
      ≡ shape (record old { fps = new.fps }) sensor_id tail
  unfolding retime
  retime_again = retime-shape (record old { fps = mid.fps }) new sensor_id tail

  both_updates :
      (t : List Element) × (overtaken g (shape old sensor_id tail) old mid new ≡ record {
        success = true;
        pipeline = shape (record old { fps = new.fps }) sensor_id t;
        pending = some mid;
      })
  unfolding update_pipeline_properties
  both_updates =
      let (t, e) = set_encoder-tail new (record old { fps = new.fps }) sensor_id tail in
      (t, rw first_update (rw n (rw retime_again (rw e refl))))

abbrev EndsAs : Gst → Updated → Option Pipeline → Type 0
EndsAs g u o = (u.success ≡ true) × (settle g u ≡ o)

settled :
    (g : Gst) (sensor_id : ℤ) (old mid new : StreamingConfig) (t fresh : List Element)
    → Works g
    → SameEndpoint old mid
    → get_encoder_tail_description mid ≡ some fresh
    → EndsAs g
        (record {
          success = true;
          pipeline = shape (record old { fps = new.fps }) sensor_id t;
          pending = some mid;
        })
        (build_camera_pipeline g sensor_id (record mid { fps = new.fps }))
unfolding settle
settled g sensor_id old mid new t fresh w s f = (
  refl,
  rw (settle, (swap-shape old mid sensor_id t g (record old { fps = new.fps }) fresh w f).1)
      (rw
        (build-shape g sensor_id (record mid { fps = new.fps }) fresh w
          (unfold get_encoder_tail_description in f))
        (ap some (
          shape-congr _ (record mid { fps = new.fps }) sensor_id fresh s.ip s.port_left s.port_right
            refl refl refl))),
)

-- A change of bitrate or quality that comes before the swap of an earlier change has run is lost:
-- with the calls of GStreamer succeeding, for a pipeline that was built for the old configuration,
-- a dynamic change that swaps the tail, and then one that does not, both report success, and once
-- the swap has run the pipeline is the one of the first change, but for the frame rate.
pub update_overtaken :
    (g : Gst) (sensor_id : ℤ) (old mid new : StreamingConfig) (p : Pipeline)
    → Works g
    → build_camera_pipeline g sensor_id old ≡ some p
    → can_update_dynamically old mid ≡ true
    → changes_tail old mid ≡ true
    → changes_tail mid new ≡ false
    → get_encoder_tail_description mid ≢ none
    → ((overtaken g p old mid new).success ≡ true)
      × (settle g (overtaken g p old mid new)
          ≡ build_camera_pipeline g sensor_id (record mid { fps = new.fps }))
update_overtaken g sensor_id old mid new p w b c a k n =
    elim (Option-cases (get_encoder_tail_description old)) [
      | inl e ↦ absurd (not_built g sensor_id old p e b)
      | inr (tail, e) ↦ elim (Option-cases (get_encoder_tail_description mid)) [
        | inl f ↦ absurd (n f)
        | inr (fresh, f) ↦
            let (t, u) = both_updates g w sensor_id old mid new tail a k in
            subst
              (λ q.
                EndsAs g (overtaken g q old mid new)
                  (build_camera_pipeline g sensor_id (record mid { fps = new.fps })))
              (some_inj (sym (build-shape g sensor_id old tail w e) ∙ b))
              (subst
                (λ q. EndsAs g q (build_camera_pipeline g sensor_id (record mid { fps = new.fps })))
                (sym u)
                (settled g sensor_id old mid new t fresh w (can_update-SameEndpoint old mid c) f))
      ]
    ]
