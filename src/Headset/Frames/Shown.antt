-- ===== src/Headset/Frames/Shown.antt =====
-- What the render thread is given after a sample.
use but_telepresence.Prelude.{
  ℕ, ◌≡◌, refl, Bool, true, false, ◌&&◌, Bool-cases, inl, inr, some, List, [], ◌∷◌, ◌==◌, arith,
}
use but_telepresence.Headset.Frames.{
  Target, size_of, Eye, Blit, release_backing, oes_blit, Sample, with_target, published, new_frame,
  configure, Event, samples, configures, happen,
}

-- The backing texture, if there is one, exists with the size that is noted for it.
pub record IsBacked (e : Eye) : Type 0 where
  pub backing :
      (e.frame.hw_backing_tex == 0) ≡ false
      → size_of e.frame.hw_backing_tex e.textures
        ≡ some (e.frame.hw_backing_width, e.frame.hw_backing_height)

-- The texture that is published exists, has the size of the frame and is two-dimensional.
pub record IsShown (e : Eye) : Type 0 where
  pub alive :
      e.frame.has_gl_texture ≡ true
      → size_of e.frame.gl_texture e.textures ≡ some (e.frame.frame_width, e.frame.frame_height)
  pub flat : e.frame.has_gl_texture ≡ true → e.frame.gl_target ≡ Target.texture_2d

oes_blit-IsBacked : (w h : ℕ) (b : Blit) (e : Eye) → IsBacked e → IsBacked (oes_blit w h b e).1
unfolding oes_blit release_backing size_of
oes_blit-IsBacked w h b e v = ground (arith, v.backing)

-- A blit that succeeds has a backing texture of the size of the sample.
oes_blit-some :
    (w h : ℕ) (b : Blit) (e : Eye)
    → IsBacked e
    → (oes_blit w h b e).0 ≡ true
    → size_of (oes_blit w h b e).1.frame.hw_backing_tex (oes_blit w h b e).1.textures ≡ some (w, h)
unfolding oes_blit release_backing size_of
oes_blit-some w h b e v k = ground (arith, v.backing, k)

published-IsBacked : (w h : ℕ) (r : Bool × Eye) → IsBacked r.1 → IsBacked (published w h r).1
published-IsBacked w h (true, e) v = record { backing = v.backing }
published-IsBacked w h (false, e) v = v

published-IsShown :
    (w h : ℕ) (r : Bool × Eye)
    → r.0 ≡ true
    → size_of r.1.frame.hw_backing_tex r.1.textures ≡ some (w, h)
    → IsShown (published w h r).1
published-IsShown w h (true, e) k z = record { alive = λ x. z; flat = λ x. refl }
published-IsShown w h (false, e) k z = ground (arith, k)

new_frame-IsBacked : (s : Sample) (e : Eye) → IsBacked e → IsBacked (new_frame s e).1
unfolding new_frame
new_frame-IsBacked Sample.no_sample e v = v
new_frame-IsBacked Sample.no_caps e v = v
new_frame-IsBacked (Sample.system_memory t m) e v = ground (arith, v.backing)
new_frame-IsBacked (Sample.gl_memory t i m c w h b) e v =
    let f : IsBacked (with_target t e) = record { backing = v.backing } in
    elim (Bool-cases (i && m && c)) [
      | inl k ↦ rw k (published-IsBacked w h _ (oes_blit-IsBacked w h b (with_target t e) f))
      | inr k ↦ rw k f
    ]

new_frame-IsShown :
    (s : Sample) (e : Eye) → IsBacked e → (new_frame s e).0 ≡ true → IsShown (new_frame s e).1
unfolding new_frame
new_frame-IsShown Sample.no_sample e v k = ground (arith, k)
new_frame-IsShown Sample.no_caps e v k = ground (arith, k)
new_frame-IsShown (Sample.system_memory t true) e v k = record {
  alive = λ x. ground (arith, x);
  flat = λ x. ground (arith, x);
}
new_frame-IsShown (Sample.system_memory t false) e v k = ground (arith, k)
new_frame-IsShown (Sample.gl_memory t true true true w h b) e v k =
    let f : IsBacked (with_target t e) = record { backing = v.backing } in
    published-IsShown w h (oes_blit w h b (with_target t e)) k
      (oes_blit-some w h b (with_target t e) f k)
new_frame-IsShown (Sample.gl_memory t false m c w h b) e v k = ground (arith, k)
new_frame-IsShown (Sample.gl_memory t true false c w h b) e v k = ground (arith, k)
new_frame-IsShown (Sample.gl_memory t true true false w h b) e v k = ground (arith, k)

configure-IsBacked : (w h : ℕ) (e : Eye) → IsBacked (configure w h e)
unfolding configure
configure-IsBacked w h e = record { backing = λ x. ground (arith, x) }

happen-IsBacked : (es : List Event) (e : Eye) → IsBacked e → IsBacked (happen es e)
unfolding happen
happen-IsBacked [] e v = v
happen-IsBacked (samples s ∷ es) e v = happen-IsBacked es _ (new_frame-IsBacked s e v)
happen-IsBacked (configures w h ∷ es) e v = happen-IsBacked es _ (configure-IsBacked w h e)

-- After a configuration, any sequence of samples and configurations, with failures of any kind, and
-- then a sample that is accepted: the texture that is published, if there is one, exists, has the
-- size of the frame, and is two-dimensional.
pub happen-IsShown :
    (w h : ℕ) (es : List Event) (s : Sample) (e : Eye)
    → (new_frame s (happen es (configure w h e))).0 ≡ true
    → IsShown (new_frame s (happen es (configure w h e))).1
happen-IsShown w h es s e k =
    new_frame-IsShown s _ (happen-IsBacked es _ (configure-IsBacked w h e)) k
