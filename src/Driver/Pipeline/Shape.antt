-- ===== src/Driver/Pipeline/Shape.antt =====
-- The pipeline that a configuration builds, and what each part of a dynamic update makes of it.
use but_telepresence.Prelude.{
  ◌≡◌, refl, Bool, true, none, some, List, [], ◌∷◌, arith, ◌++◌, if◌then◌else◌, Bool-cases, inl,
  inr, ap,
}
use but_telepresence.Prelude.Int.{ℤ, pos, int_eq, int_eq_iff}
use but_telepresence.Prelude.Text.{str_eq}
use but_telepresence.Driver.Config.{Codec, StreamingConfig}
use but_telepresence.Driver.Elements.{
  Element, encoder_tail_for, get_encoder_tail_description, get_camera_front_end_description,
}
use but_telepresence.Driver.Pipeline.{
  Gst, Pipeline, swapped, uncaught, build_camera_pipeline, swap_encoder_probe, swap_encoder_tail,
  retime, set_encoder, udpsink_of, rebuild_tail, needs_key_frame, finds, set_on,
}

-- Every call of the library succeeds.
pub record Works (g : Gst) : Type 0 where
  pub front_parses : g.front_parses ≡ true
  pub makes_sink : g.makes_sink ≡ true
  pub tail_parses : g.tail_parses ≡ true
  pub links : g.links ≡ true
  pub has_src_pad : g.has_src_pad ≡ true

-- The pipeline that is built for a configuration, around a given tail.
unfoldable pub shape : StreamingConfig → ℤ → List Element → Pipeline
shape cfg sensor_id tail = record {
  elements =
      get_camera_front_end_description cfg sensor_id
      ++ (udpsink_of cfg (if int_eq sensor_id (pos 0) then cfg.port_left else cfg.port_right) ∷ []);
  enc_tail = some tail;
}

pub build-shape :
    (g : Gst) (sensor_id : ℤ) (cfg : StreamingConfig) (tail : List Element)
    → Works g
    → get_encoder_tail_description cfg ≡ some tail
    → build_camera_pipeline g sensor_id cfg ≡ some (shape cfg sensor_id tail)
unfolding build_camera_pipeline shape
build-shape g sensor_id cfg tail w e = ground arith

pub some_inj {ℓ} : {A : Type ℓ} {x y : A} → some x ≡ some y → x ≡ y
some_inj e = cc

module _ (old new : StreamingConfig) (sensor_id : ℤ) (tail : List Element) where
  pub retime-shape :
      retime old new (shape old sensor_id tail)
      ≡ shape (record old { fps = new.fps }) sensor_id tail
  unfolding retime shape finds set_on get_camera_front_end_description udpsink_of str_eq
  retime-shape = elim (Bool-cases (int_eq old.fps new.fps)) [
    | inl e ↦
        rw e (
          ap (λ f. shape (record old { fps = f }) sensor_id tail)
            ((int_eq_iff old.fps new.fps).0 e))
    | inr e ↦ rw e refl
  ]

  pub swap-shape :
      (g : Gst) (cfg : StreamingConfig) (fresh : List Element)
      → Works g
      → get_encoder_tail_description new ≡ some fresh
      → (k : Bool) × (swap_encoder_probe g (shape cfg sensor_id tail) new
          ≡ swapped
              (shape
                (record cfg {
                  horizontal_resolution = new.horizontal_resolution;
                  vertical_resolution = new.vertical_resolution;
                })
                sensor_id
                fresh)
              k)
  unfolding swap_encoder_probe rebuild_tail shape finds set_on get_camera_front_end_description
      udpsink_of str_eq
  swap-shape g cfg fresh w e =
      (needs_key_frame new.codec, rw (e, swap_encoder_probe, rebuild_tail) (rw w.tail_parses refl))

  pub swap-shape_uncaught :
      (g : Gst) (cfg : StreamingConfig)
      → get_encoder_tail_description new ≡ none
      → swap_encoder_probe g (shape cfg sensor_id tail) new ≡ uncaught
  unfolding swap_encoder_probe rebuild_tail shape finds set_on get_camera_front_end_description
      udpsink_of str_eq
  swap-shape_uncaught g cfg e = rw (e, swap_encoder_probe, rebuild_tail) refl

  -- The lookup that arms a swap finds the rate filter.
  pub swap_encoder_tail-shape :
      (g : Gst) → g.has_src_pad ≡ true → swap_encoder_tail g (shape old sensor_id tail) ≡ true
  unfolding swap_encoder_tail shape finds get_camera_front_end_description str_eq
  swap_encoder_tail-shape g h = h

  pub set_encoder-shape :
      (c : Codec) (cfg : StreamingConfig) (fresh : List Element)
      → new.codec ≡ c
      → encoder_tail_for c old.encoding_quality old.bitrate ≡ some tail
      → encoder_tail_for c new.encoding_quality new.bitrate ≡ some fresh
      → set_encoder new (shape cfg sensor_id tail) ≡ shape cfg sensor_id fresh
  unfolding set_encoder shape finds set_on get_camera_front_end_description udpsink_of str_eq
      encoder_tail_for
  set_encoder-shape Codec.jpeg cfg fresh n e f = rw n (rw (← some_inj e) (rw (← some_inj f) refl))
  set_encoder-shape Codec.vp8 cfg fresh n e f = cc
  set_encoder-shape Codec.vp9 cfg fresh n e f = cc
  set_encoder-shape Codec.h264 cfg fresh n e f = rw n (rw (← some_inj e) (rw (← some_inj f) refl))
  set_encoder-shape Codec.h265 cfg fresh n e f = rw n (rw (← some_inj e) (rw (← some_inj f) refl))

pub shape-congr :
    (a b : StreamingConfig) (sensor_id : ℤ) (tail : List Element)
    → a.ip ≡ b.ip
    → a.port_left ≡ b.port_left
    → a.port_right ≡ b.port_right
    → a.horizontal_resolution ≡ b.horizontal_resolution
    → a.vertical_resolution ≡ b.vertical_resolution
    → a.fps ≡ b.fps
    → shape a sensor_id tail ≡ shape b sensor_id tail
unfolding shape get_camera_front_end_description udpsink_of
shape-congr a b sensor_id tail i l r h v f = rw i (rw l (rw r (rw h (rw v (rw f refl)))))
