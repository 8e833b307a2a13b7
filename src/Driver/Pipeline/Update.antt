-- ===== src/Driver/Pipeline/Update.antt =====
-- A change that the driver applies to the running pipeline has the effect of building it anew.
use but_telepresence.Prelude.{
  ◌≡◌, ◌≢◌, refl, true, false, Option, none, some, List, arith, Bool-cases, inl, inr, ap, sym, ◌∙◌,
  subst, Option-cases, ◌⊎◌,
}
use but_telepresence.Prelude.Int.{ℤ, int_eq_iff}
use but_telepresence.Prelude.Text.{str_eq_iff}
use but_telepresence.Driver.Config.{Codec, StreamingConfig, codec_eq, can_update_dynamically}
use but_telepresence.Driver.Elements.{Element, encoder_tail_for, get_encoder_tail_description}
use but_telepresence.Driver.Pipeline.Shape.{
  Works, some_inj, shape, build-shape, retime-shape, swap-shape, swap-shape_uncaught,
  swap_encoder_tail-shape, set_encoder-shape, shape-congr,
}
use but_telepresence.Driver.Pipeline.{
  Gst, Pipeline, swapped, uncaught, build_camera_pipeline, swap_encoder_probe, Updated,
  update_pipeline_properties, changes_tail,
}

-- The pipeline once the swap that waits has run on the next buffer.
unfoldable pub settle : Gst → Updated → Option Pipeline
settle g u = elim u.pending [
  | none ↦ some u.pipeline
  | some cfg ↦ elim (swap_encoder_probe g u.pipeline cfg) [
    | swapped p key_frame ↦ some p
    | uncaught ↦ none
  ]
]

-- What a change that is not structural leaves alone.
pub record SameEndpoint (old new : StreamingConfig) : Type 0 where
  pub ip : old.ip ≡ new.ip
  pub port_left : old.port_left ≡ new.port_left
  pub port_right : old.port_right ≡ new.port_right

pub can_update-SameEndpoint :
    (old new : StreamingConfig) → can_update_dynamically old new ≡ true → SameEndpoint old new
unfolding can_update_dynamically
can_update-SameEndpoint old new h = record {
  ip = (str_eq_iff old.ip new.ip).0 (ground arith);
  port_left = (int_eq_iff old.port_left new.port_left).0 (ground arith);
  port_right = (int_eq_iff old.port_right new.port_right).0 (ground arith);
}

pub codec_eq→eq : (c d : Codec) → codec_eq c d ≡ true → c ≡ d
codec_eq→eq c d h = ground arith

-- What a change that keeps the tail leaves alone.
pub record SameTail (old new : StreamingConfig) : Type 0 where
  pub codec : old.codec ≡ new.codec
  pub horizontal_resolution : old.horizontal_resolution ≡ new.horizontal_resolution
  pub vertical_resolution : old.vertical_resolution ≡ new.vertical_resolution

pub changes_tail-SameTail :
    (old new : StreamingConfig) → changes_tail old new ≡ false → SameTail old new
changes_tail-SameTail old new h = record {
  codec = codec_eq→eq old.codec new.codec (ground arith);
  horizontal_resolution =
      (int_eq_iff old.horizontal_resolution new.horizontal_resolution).0 (ground arith);
  vertical_resolution =
      (int_eq_iff old.vertical_resolution new.vertical_resolution).0 (ground arith);
}

-- The outcome of an update that works: it succeeds, and leaves the pipeline of the new configuration.
abbrev Rebuilds : Gst → Updated → Pipeline → Type 0
Rebuilds g u p = (u.success ≡ true) × (settle g u ≡ some p)

pub not_built :
    (g : Gst) (sensor_id : ℤ) (cfg : StreamingConfig) (p : Pipeline)
    → get_encoder_tail_description cfg ≡ none
    → build_camera_pipeline g sensor_id cfg ≢ some p
unfolding build_camera_pipeline
not_built g sensor_id cfg p n b = ground arith

module _ (g : Gst) (w : Works g) (sensor_id : ℤ) (old new : StreamingConfig) where
  module _ (same : SameEndpoint old new) (tail fresh : List Element) where
    swaps :
        get_encoder_tail_description new ≡ some fresh
        → changes_tail old new ≡ true
        → Rebuilds g
            (update_pipeline_properties g (shape old sensor_id tail) old new)
            (shape new sensor_id fresh)
    unfolding update_pipeline_properties settle
    swaps f c = rw c (
        rw
          (
            swap_encoder_tail-shape old new sensor_id tail g w.has_src_pad,
            retime-shape old new sensor_id tail,
          )
          (
            refl,
            rw
                (
                  (swap-shape old new sensor_id tail g (record old { fps = new.fps }) fresh w f).1,
                  settle,
                )
                (ap some (
                  shape-congr _ new sensor_id fresh same.ip same.port_left same.port_right refl refl
                    refl)),
          ))

    keeps :
        encoder_tail_for old.codec old.encoding_quality old.bitrate ≡ some tail
        → encoder_tail_for new.codec new.encoding_quality new.bitrate ≡ some fresh
        → changes_tail old new ≡ false
        → Rebuilds g
            (update_pipeline_properties g (shape old sensor_id tail) old new)
            (shape new sensor_id fresh)
    unfolding update_pipeline_properties settle
    keeps e f c = rw c (
        rw (retime-shape old new sensor_id tail) (
          refl,
          ap some (
              set_encoder-shape old new sensor_id tail old.codec (record old { fps = new.fps })
                fresh (sym s.codec) e (rw s.codec f)
              ∙ shape-congr _ new sensor_id fresh same.ip same.port_left same.port_right
                  s.horizontal_resolution s.vertical_resolution refl),
        ))
      where
        s : SameTail old new
        s = changes_tail-SameTail old new c

  -- A change that the driver applies to the running pipeline ends where a rebuild would: if every
  -- call of GStreamer succeeds, the pipeline was built for the old configuration, the change can
  -- be made dynamically and the new codec has an encoder tail, then the update succeeds, and once
  -- the swap that it may have armed has run, the pipeline is the one that would be built for the
  -- new configuration.
  pub update_rebuilds :
      (p : Pipeline)
      → build_camera_pipeline g sensor_id old ≡ some p
      → can_update_dynamically old new ≡ true
      → get_encoder_tail_description new ≢ none
      → ((update_pipeline_properties g p old new).success ≡ true)
        × (settle g (update_pipeline_properties g p old new)
            ≡ build_camera_pipeline g sensor_id new)
  update_rebuilds p b c supported =
      go (Option-cases (get_encoder_tail_description old))
        (Option-cases (get_encoder_tail_description new)) (Bool-cases (changes_tail old new))
    where
      same : SameEndpoint old new
      same = can_update-SameEndpoint old new c

      at :
          (tail fresh : List Element)
          → get_encoder_tail_description old ≡ some tail
          → get_encoder_tail_description new ≡ some fresh
          → Rebuilds g
              (update_pipeline_properties g (shape old sensor_id tail) old new)
              (shape new sensor_id fresh)
          → Rebuilds g (update_pipeline_properties g p old new) (shape new sensor_id fresh)
      at tail fresh e f r =
          subst
            (λ q. Rebuilds g (update_pipeline_properties g q old new) (shape new sensor_id fresh))
            (some_inj (sym (build-shape g sensor_id old tail w e) ∙ b)) r

      go :
          (get_encoder_tail_description old ≡ none)
            ⊎ ((t : List Element) × (get_encoder_tail_description old ≡ some t))
          → (get_encoder_tail_description new ≡ none)
            ⊎ ((t : List Element) × (get_encoder_tail_description new ≡ some t))
          → (changes_tail old new ≡ true) ⊎ (changes_tail old new ≡ false)
          → ((update_pipeline_properties g p old new).success ≡ true)
            × (settle g (update_pipeline_properties g p old new)
                ≡ build_camera_pipeline g sensor_id new)
      go o (inl n) t = absurd (supported n)
      go (inl n) f t = absurd (not_built g sensor_id old p n b)
      go (inr (tail, e)) (inr (fresh, f)) (inl t) =
          rw (build-shape g sensor_id new fresh w f) (at tail fresh e f (swaps same tail fresh f t))
      go (inr (tail, e)) (inr (fresh, f)) (inr t) =
          rw (build-shape g sensor_id new fresh w f)
            (at tail fresh e f (unfold get_encoder_tail_description in keeps same tail fresh e f t))

changes_tail_of_unsupported :
    (old new : StreamingConfig) (tail : List Element)
    → get_encoder_tail_description old ≡ some tail
    → get_encoder_tail_description new ≡ none
    → changes_tail old new ≡ true
unfolding get_encoder_tail_description encoder_tail_for
changes_tail_of_unsupported old new tail e n = ground arith

-- An update that armed a swap which ends in an exception.
abbrev pub Escapes : Gst → Updated → StreamingConfig → Type 0
Escapes g u new =
    (u.success ≡ true) × (u.pending ≡ some new) × (swap_encoder_probe g u.pipeline new ≡ uncaught)

shape-Escapes :
    (g : Gst) (sensor_id : ℤ) (old new : StreamingConfig) (tail : List Element)
    → g.has_src_pad ≡ true
    → changes_tail old new ≡ true
    → get_encoder_tail_description new ≡ none
    → Escapes g (update_pipeline_properties g (shape old sensor_id tail) old new) new
unfolding update_pipeline_properties
shape-Escapes g sensor_id old new tail h c n = rw c (
    rw (swap_encoder_tail-shape old new sensor_id tail g h, retime-shape old new sensor_id tail)
      (refl, refl, swap-shape_uncaught old new sensor_id tail g (record old { fps = new.fps }) n))

-- A codec with no encoder tail is not refused: for a pipeline that was built for the old
-- configuration, with the calls of GStreamer succeeding, the update to such a codec reports
-- success and arms a swap, and the swap ends in an exception that leaves the pad probe.
pub unsupported_codec-Escapes :
    (g : Gst) (sensor_id : ℤ) (old new : StreamingConfig) (p : Pipeline)
    → Works g
    → build_camera_pipeline g sensor_id old ≡ some p
    → get_encoder_tail_description new ≡ none
    → Escapes g (update_pipeline_properties g p old new) new
unsupported_codec-Escapes g sensor_id old new p w b n =
    elim (Option-cases (get_encoder_tail_description old)) [
      | inl e ↦ absurd (not_built g sensor_id old p e b)
      | inr (tail, e) ↦
          subst (λ q. Escapes g (update_pipeline_properties g q old new) new)
            (some_inj (sym (build-shape g sensor_id old tail w e) ∙ b))
            (shape-Escapes g sensor_id old new tail w.has_src_pad
              (changes_tail_of_unsupported old new tail e n) n)
    ]
