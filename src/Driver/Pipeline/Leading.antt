-- ===== src/Driver/Pipeline/Leading.antt =====
-- What a dynamic update of streaming_driver/main.cpp makes of a pipeline whose encoder swaps wait.
use but_telepresence.Prelude.{
  ◌≡◌, refl, sym, ◌∙◌, subst, ap, Bool, true, false, some, List, [], ◌∷◌, ◌++◌, if◌then◌else◌,
  Option-cases, inl, inr, ◌⊎◌,
}
use but_telepresence.Prelude.Int.{ℤ}
use but_telepresence.Prelude.Text.{codes, str_eq}
use but_telepresence.Driver.Config.{Codec, StreamingConfig, codec_eq}
use but_telepresence.Driver.Elements.{
  int, Element, encoder_tail_for, get_encoder_tail_description, get_camera_front_end_description,
}
use but_telepresence.Driver.Pipeline.{
  Gst, Pipeline, build_camera_pipeline, swap_encoder_tail, retime, set_encoder, changes_tail, finds,
  set_on, set_property, has_element, udpsink_of,
}
use but_telepresence.Driver.Pipeline.Shape.{
  Works, some_inj, shape, build-shape, retime-shape, swap_encoder_tail-shape, set_encoder-shape,
  shape-congr,
}
use but_telepresence.Driver.Pipeline.Update.{
  SameEndpoint, SameTail, changes_tail-SameTail, not_built,
}

-- A swap to the codec and the size of a configuration, with a quality and a bitrate.
pub record Brings (cfg s : StreamingConfig) (quality bitrate : ℤ) : Type 0 where
  pub codec : s.codec ≡ cfg.codec
  pub horizontal_resolution : s.horizontal_resolution ≡ cfg.horizontal_resolution
  pub vertical_resolution : s.vertical_resolution ≡ cfg.vertical_resolution
  pub encoding_quality : s.encoding_quality ≡ quality
  pub bitrate_set : s.bitrate ≡ bitrate

-- The last of the swaps is one.
abbrev pub EndsIn : StreamingConfig → ℤ → ℤ → List StreamingConfig → Type 0
EndsIn cfg quality bitrate [] = ⊥
EndsIn cfg quality bitrate (s ∷ []) = Brings cfg s quality bitrate
EndsIn cfg quality bitrate (s ∷ t ∷ swaps) = EndsIn cfg quality bitrate (t ∷ swaps)

-- Built around some tail and for some size, with the addresses and the frame rate of a configuration.
pub record IsBased (sensor_id : ℤ) (cfg : StreamingConfig) (p : Pipeline) : Type 0 where
  pub base : StreamingConfig
  pub tail : List Element
  pub ip : base.ip ≡ cfg.ip
  pub port_left : base.port_left ≡ cfg.port_left
  pub port_right : base.port_right ≡ cfg.port_right
  pub fps : base.fps ≡ cfg.fps
  pub shaped : p ≡ shape base sensor_id tail

-- Built for a configuration, with a quality and a bitrate.
pub record IsFor (sensor_id : ℤ) (cfg : StreamingConfig) (quality bitrate : ℤ) (p : Pipeline)
    : Type 0 where
  pub tail : List Element
  pub described : encoder_tail_for cfg.codec quality bitrate ≡ some tail
  pub shaped : p ≡ shape cfg sensor_id tail

-- A pipeline and its waiting swaps that end in the pipeline of a configuration, with a quality and a
-- bitrate.
abbrev pub Leads : ℤ → StreamingConfig → ℤ → ℤ → Pipeline → List StreamingConfig → Type 0
Leads sensor_id cfg quality bitrate p [] = IsFor sensor_id cfg quality bitrate p
Leads sensor_id cfg quality bitrate p (s ∷ swaps) =
    IsBased sensor_id cfg p × EndsIn cfg quality bitrate (s ∷ swaps)

retime_fps :
    (old base new : StreamingConfig) (p : Pipeline)
    → base.fps ≡ old.fps
    → retime old new p ≡ retime base new p
unfolding retime
retime_fps old base new p e = rw e refl

set_tail :
    (base : StreamingConfig) (sensor_id : ℤ) (tail : List Element) (new : StreamingConfig)
    → (t : List Element) × (set_encoder new (shape base sensor_id tail) ≡ shape base sensor_id t)
unfolding set_encoder shape finds set_on get_camera_front_end_description udpsink_of str_eq
set_tail base sensor_id tail new =
    go (has_element (codes "encoder") tail) (codec_eq new.codec Codec.jpeg)
  where
    go :
        (b c : Bool)
        → (t : List Element) × ((if b
              then if c
                then shape base sensor_id (
                    set_property
                      (codes "encoder")
                      (codes "quality")
                      (int new.encoding_quality)
                      tail)
                else shape base sensor_id
                    (set_property (codes "encoder") (codes "bitrate") (int new.bitrate) tail)
              else shape base sensor_id tail)
            ≡ shape base sensor_id t)
    go true true = (_, refl)
    go true false = (_, refl)
    go false c = (tail, refl)

other_tail :
    (c : Codec) (quality bitrate q b : ℤ) (tail : List Element)
    → encoder_tail_for c quality bitrate ≡ some tail
    → (fresh : List Element) × (encoder_tail_for c q b ≡ some fresh)
unfolding encoder_tail_for
other_tail Codec.jpeg quality bitrate q b tail e = (_, refl)
other_tail Codec.h264 quality bitrate q b tail e = (_, refl)
other_tail Codec.h265 quality bitrate q b tail e = (_, refl)
other_tail Codec.vp8 quality bitrate q b tail e = cc
other_tail Codec.vp9 quality bitrate q b tail e = cc

ends_append :
    (cfg : StreamingConfig) (swaps : List StreamingConfig)
    → EndsIn cfg cfg.encoding_quality cfg.bitrate (swaps ++ (cfg ∷ []))
ends_append cfg [] = record {
  codec = refl;
  horizontal_resolution = refl;
  vertical_resolution = refl;
  encoding_quality = refl;
  bitrate_set = refl;
}
ends_append cfg (s ∷ []) = ends_append cfg []
ends_append cfg (s ∷ t ∷ swaps) = ends_append cfg (t ∷ swaps)

ends_same :
    (old new : StreamingConfig) (quality bitrate : ℤ) (swaps : List StreamingConfig)
    → SameTail old new
    → EndsIn old quality bitrate swaps
    → EndsIn new quality bitrate swaps
ends_same old new q b [] h e = e
ends_same old new q b (s ∷ []) h e = record {
  codec = e.codec ∙ h.codec;
  horizontal_resolution = e.horizontal_resolution ∙ h.horizontal_resolution;
  vertical_resolution = e.vertical_resolution ∙ h.vertical_resolution;
  encoding_quality = e.encoding_quality;
  bitrate_set = e.bitrate_set;
}
ends_same old new q b (s ∷ t ∷ swaps) h e = ends_same old new q b (t ∷ swaps) h e

module _ (g : Gst) (w : Works g) (sensor_id : ℤ) where
  pub built-Leads :
      (cfg : StreamingConfig) (p : Pipeline)
      → build_camera_pipeline g sensor_id cfg ≡ some p
      → Leads sensor_id cfg cfg.encoding_quality cfg.bitrate p []
  built-Leads cfg p b = elim (Option-cases (get_encoder_tail_description cfg)) [
    | inl n ↦ absurd (not_built g sensor_id cfg p n b)
    | inr (tail, e) ↦ record {
      tail = tail;
      described = unfold get_encoder_tail_description in e;
      shaped = some_inj (sym b ∙ build-shape g sensor_id cfg tail w e);
    }
  ]

  Leads-IsBased :
      (cfg : StreamingConfig) (q b : ℤ) (p : Pipeline) (swaps : List StreamingConfig)
      → Leads sensor_id cfg q b p swaps
      → IsBased sensor_id cfg p
  Leads-IsBased cfg q b p [] h = record {
    base = cfg;
    tail = h.tail;
    ip = refl;
    port_left = refl;
    port_right = refl;
    fps = refl;
    shaped = h.shaped;
  }
  Leads-IsBased cfg q b p (s ∷ swaps) h = h.0

  retime-IsBased :
      (old new : StreamingConfig) (p : Pipeline)
      → SameEndpoint old new
      → IsBased sensor_id old p
      → IsBased sensor_id new (retime old new p)
  retime-IsBased old new p same h = record {
    base = record h.base { fps = new.fps };
    tail = h.tail;
    ip = h.ip ∙ same.ip;
    port_left = h.port_left ∙ same.port_left;
    port_right = h.port_right ∙ same.port_right;
    fps = refl;
    shaped =
        ap (retime old new) h.shaped
        ∙ (retime_fps old h.base new (shape h.base sensor_id h.tail) h.fps
            ∙ retime-shape h.base new sensor_id h.tail);
  }

  set_encoder-IsBased :
      (cfg new : StreamingConfig) (p : Pipeline)
      → IsBased sensor_id cfg p
      → IsBased sensor_id cfg (set_encoder new p)
  set_encoder-IsBased cfg new p h =
      let (t, e) = set_tail h.base sensor_id h.tail new in
      record {
        base = h.base;
        tail = t;
        ip = h.ip;
        port_left = h.port_left;
        port_right = h.port_right;
        fps = h.fps;
        shaped = ap (set_encoder new) h.shaped ∙ e;
      }

  -- A change of the tail arms a swap to the new configuration.
  pub arms-Leads :
      (old new : StreamingConfig) (q b : ℤ) (p : Pipeline) (swaps : List StreamingConfig)
      → SameEndpoint old new
      → Leads sensor_id old q b p swaps
      → (swap_encoder_tail g p ≡ true)
        × Leads sensor_id new new.encoding_quality new.bitrate
            (retime old new p)
            (swaps ++ (new ∷ []))
  arms-Leads old new q b p swaps same h =
      let i = Leads-IsBased old q b p swaps h in
      (
        subst (λ x. swap_encoder_tail g x ≡ true) (sym i.shaped)
            (swap_encoder_tail-shape i.base new sensor_id i.tail g w.has_src_pad),
        go swaps (retime-IsBased old new p same i),
      )
    where
      go :
          (ss : List StreamingConfig)
          → IsBased sensor_id new (retime old new p)
          → Leads sensor_id new new.encoding_quality new.bitrate
              (retime old new p)
              (ss ++ (new ∷ []))
      go [] i = (i, ends_append new [])
      go (s ∷ ss) i = (i, ends_append new (s ∷ ss))

  -- A change in place sets the quality or the bitrate, which a swap that waits undoes.
  pub keeps-Leads :
      (old new : StreamingConfig) (q b : ℤ) (p : Pipeline) (swaps : List StreamingConfig)
      → SameEndpoint old new
      → changes_tail old new ≡ false
      → Leads sensor_id old q b p swaps
      → ((swaps ≡ [])
          × Leads sensor_id new new.encoding_quality new.bitrate
              (set_encoder new (retime old new p))
              swaps)
        ⊎ ((swaps ≡ [] → ⊥) × Leads sensor_id new q b (set_encoder new (retime old new p)) swaps)
  keeps-Leads old new q b p [] same c h =
      let s = changes_tail-SameTail old new c in
      let (fresh, f) =
        other_tail old.codec q b new.encoding_quality new.bitrate h.tail h.described in
      inl (
        refl,
        record {
          tail = fresh;
          described =
              subst (λ k. encoder_tail_for k new.encoding_quality new.bitrate ≡ some fresh) s.codec
                f;
          shaped =
              ap (λ x. set_encoder new (retime old new x)) h.shaped
              ∙ (ap (set_encoder new) (retime-shape old new sensor_id h.tail)
                  ∙ (set_encoder-shape (record old { encoding_quality = q; bitrate = b }) new
                        sensor_id h.tail old.codec (record old { fps = new.fps }) fresh
                        (sym s.codec) h.described f
                      ∙ shape-congr (record old { fps = new.fps }) new sensor_id fresh same.ip
                          same.port_left same.port_right s.horizontal_resolution
                          s.vertical_resolution refl));
        },
      )
  keeps-Leads old new q b p (s ∷ swaps) same c h = inr (
    λ e. cc,
    (
      set_encoder-IsBased new new (retime old new p) (retime-IsBased old new p same h.0),
      ends_same old new q b (s ∷ swaps) (changes_tail-SameTail old new c) h.1,
    ),
  )
