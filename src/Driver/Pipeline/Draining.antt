-- ===== src/Driver/Pipeline/Draining.antt =====
-- A pipeline of streaming_driver/main.cpp with the encoder swaps that wait for its buffers, against the
-- pipeline that is built for a configuration.
use but_telepresence.Prelude.{
  ◌≡◌, refl, sym, ◌∙◌, subst, ap, Bool, Option, none, some, List, [], ◌∷◌, Option-cases, inl, inr,
  ◌⊎◌, All,
}
use but_telepresence.Prelude.Int.{ℤ}
use but_telepresence.Driver.Config.{StreamingConfig}
use but_telepresence.Driver.Elements.{Element, encoder_tail_for, get_encoder_tail_description}
use but_telepresence.Driver.Pipeline.{
  Gst, Pipeline, swapped, uncaught, build_camera_pipeline, swap_encoder_probe,
}
use but_telepresence.Driver.Pipeline.Shape.{
  Works, shape, build-shape, swap-shape, swap-shape_uncaught, shape-congr,
}
use but_telepresence.Driver.Pipeline.Leading.{EndsIn, Leads}

-- The pipeline once the swaps that wait have run in their order; `none` where one ends in an exception.
unfoldable pub drain : Gst → Pipeline → List StreamingConfig → Option Pipeline
drain g p [] = some p
drain g p (s ∷ swaps) = elim (swap_encoder_probe g p s) [
  | swapped q key_frame ↦ drain g q swaps
  | uncaught ↦ none
]

module _ (g : Gst) (w : Works g) (sensor_id : ℤ) where
  -- The oldest swap, in a pipeline around a tail, ends in an exception if its codec has no tail.
  swap-shaped :
      (base s : StreamingConfig) (tail : List Element) (p : Pipeline)
      → p ≡ shape base sensor_id tail
      → ((get_encoder_tail_description s ≡ none) × (swap_encoder_probe g p s ≡ uncaught))
        ⊎ ((fresh : List Element) × (k : Bool) × (get_encoder_tail_description s ≡ some fresh)
            × (swap_encoder_probe g p s
                ≡ swapped
                    (shape
                      (record base {
                        horizontal_resolution = s.horizontal_resolution;
                        vertical_resolution = s.vertical_resolution;
                      })
                      sensor_id
                      fresh)
                    k))
  swap-shaped base s tail p e = elim (Option-cases (get_encoder_tail_description s)) [
    | inl n ↦ inl (
      n,
      ap (λ x. swap_encoder_probe g x s) e ∙ swap-shape_uncaught base s sensor_id tail g base n,
    )
    | inr (fresh, f) ↦
        let (k, d) = swap-shape base s sensor_id tail g base fresh w f in
        inr (fresh, k, f, ap (λ x. swap_encoder_probe g x s) e ∙ d)
  ]

  shape-Leads :
      (cfg base s : StreamingConfig) (q b : ℤ) (fresh : List Element) (swaps : List StreamingConfig)
      → base.ip ≡ cfg.ip
      → base.port_left ≡ cfg.port_left
      → base.port_right ≡ cfg.port_right
      → base.fps ≡ cfg.fps
      → EndsIn cfg q b (s ∷ swaps)
      → get_encoder_tail_description s ≡ some fresh
      → Leads sensor_id cfg q b
          (shape
            (record base {
              horizontal_resolution = s.horizontal_resolution;
              vertical_resolution = s.vertical_resolution;
            })
            sensor_id
            fresh)
          swaps
  unfolding get_encoder_tail_description
  shape-Leads cfg base s q b fresh [] a l r f e d = record {
    tail = fresh;
    described =
        subst (λ c. encoder_tail_for c q b ≡ some fresh) e.codec
          (subst (λ x. encoder_tail_for s.codec x b ≡ some fresh) e.encoding_quality
            (subst (λ x. encoder_tail_for s.codec s.encoding_quality x ≡ some fresh) e.bitrate_set
              d));
    shaped =
        shape-congr _ cfg sensor_id fresh a l r e.horizontal_resolution e.vertical_resolution f;
  }
  shape-Leads cfg base s q b fresh (t ∷ swaps) a l r f e d = (
    record {
      base = record base {
        horizontal_resolution = s.horizontal_resolution;
        vertical_resolution = s.vertical_resolution;
      };
      tail = fresh;
      ip = a;
      port_left = l;
      port_right = r;
      fps = f;
      shaped = refl;
    },
    e,
  )

  -- The oldest swap ends in an exception, if its codec has no tail, or goes on towards the same
  -- pipeline.
  pub swap-Leads :
      (cfg s : StreamingConfig) (q b : ℤ) (p : Pipeline) (swaps : List StreamingConfig)
      → Leads sensor_id cfg q b p (s ∷ swaps)
      → ((get_encoder_tail_description s ≡ none) × (swap_encoder_probe g p s ≡ uncaught))
        ⊎ ((r : Pipeline) × (k : Bool) × (swap_encoder_probe g p s ≡ swapped r k)
            × Leads sensor_id cfg q b r swaps)
  swap-Leads cfg s q b p swaps (h, e) = elim (swap-shaped h.base s h.tail p h.shaped) [
    | inl n ↦ inl n
    | inr (fresh, k, f, d) ↦
        inr (
          _,
          k,
          d,
          shape-Leads cfg h.base s q b fresh swaps h.ip h.port_left h.port_right h.fps e f,
        )
  ]

  -- If the codecs of the swaps have tails, they end in the pipeline that is built for the
  -- configuration with that quality and that bitrate.
  pub drain-Leads :
      (cfg : StreamingConfig) (q b : ℤ) (p : Pipeline) (swaps : List StreamingConfig)
      → All (λ s. (get_encoder_tail_description s ≡ none) → ⊥) swaps
      → Leads sensor_id cfg q b p swaps
      → drain g p swaps
        ≡ build_camera_pipeline g sensor_id (record cfg { encoding_quality = q; bitrate = b })
  unfolding drain
  drain-Leads cfg q b p [] a h =
      ap some (
        h.shaped
        ∙ shape-congr cfg (record cfg { encoding_quality = q; bitrate = b }) sensor_id h.tail refl
            refl refl refl refl refl)
      ∙ sym (
          build-shape g sensor_id (record cfg { encoding_quality = q; bitrate = b }) h.tail w
            (unfold get_encoder_tail_description in h.described))
  drain-Leads cfg q b p (s ∷ swaps) a h = elim (swap-Leads cfg s q b p swaps h) [
    | inl n ↦ absurd (a.0 n.0)
    | inr (r, k, e, l) ↦ rw (drain, e) (drain-Leads cfg q b r swaps a.1 l)
  ]
