-- ===== src/Headset/Drawing/Textures.antt =====
-- Whether the texture that is drawn is there.
use but_telepresence.Prelude.{
  ℕ, ◌≡◌, refl, Bool, true, false, none, some, List, [], ◌∷◌, ◌==◌, arith,
}
use but_telepresence.Headset.Frames.{
  Target, Textures, size_of, delete_texture, Eye, Blit, fits, release_backing, oes_blit, Sample,
  new_frame, configure, Event, happen,
}
use but_telepresence.Headset.Frames.Shown.{IsShown, happen-IsShown}
use but_telepresence.Headset.Drawing.{Programs, Drawn, draw_image_plane}

-- A texture that is drawn exists with the size of the frame, by the program for its target, and bytes
-- that are drawn are drawn in the size of the frame.
abbrev pub IsSound : Programs → Eye → Drawn → Type 0
IsSound p e Drawn.nothing = Unit {0}
IsSound p e (Drawn.texture program name target) =
    (program ≡ p.image_2d)
    × (target ≡ Target.texture_2d)
    × (size_of name e.textures ≡ some (e.frame.frame_width, e.frame.frame_height))
IsSound p e (Drawn.upload program width height) =
    (program ≡ p.image_2d) × (width ≡ e.frame.frame_width) × (height ≡ e.frame.frame_height)

IsShown-IsSound :
    (p : Programs) (has_data : Bool) (e : Eye)
    → IsShown e
    → IsSound p e (draw_image_plane p has_data e.frame)
unfolding draw_image_plane
IsShown-IsSound p has_data e v = ground (arith, v.alive, v.flat)

-- What is drawn after a configuration, any samples and configurations, and a sample that is accepted:
-- nothing, or a two-dimensional texture that exists with the size of the frame, or the bytes of the
-- frame in its size, each by the program for two-dimensional textures.
pub draw_image_plane-happen :
    (p : Programs) (has_data : Bool) (w h : ℕ) (es : List Event) (s : Sample) (e : Eye)
    → (new_frame s (happen es (configure w h e))).0 ≡ true
    → IsSound p
        (new_frame s (happen es (configure w h e))).1
        (draw_image_plane p has_data (new_frame s (happen es (configure w h e))).1.frame)
draw_image_plane-happen p has_data w h es s e k =
    IsShown-IsSound p has_data (new_frame s (happen es (configure w h e))).1
      (happen-IsShown w h es s e k)

size_of-delete_texture : (name : ℕ) (ts : Textures) → size_of name (delete_texture name ts) ≡ none
unfolding size_of delete_texture
size_of-delete_texture name [] = refl
size_of-delete_texture name ((n, s) ∷ ts) = ground (arith, size_of-delete_texture name ts)

-- A sample of another size whose framebuffer is not complete: the texture that was published is
-- deleted, the frame still publishes it, now with the target of the sample, and the next draw binds
-- it with the program for external textures.
pub deleted_texture_lem :
    (p : Programs) (has_data : Bool) (w h : ℕ) (b : Blit) (e : Eye)
    → (p.image_oes == 0) ≡ false
    → (p.vertex_array == 0) ≡ false
    → e.frame.has_gl_texture ≡ true
    → (e.frame.gl_texture == 0) ≡ false
    → e.frame.hw_backing_tex ≡ e.frame.gl_texture
    → fits w h e.frame ≡ false
    → b.is_complete ≡ false
    → (draw_image_plane p has_data
          (new_frame (Sample.gl_memory Target.texture_external_oes true true true w h b) e).1.frame
        ≡ Drawn.texture p.image_oes e.frame.gl_texture Target.texture_external_oes)
      × (size_of e.frame.gl_texture
            (new_frame
              (Sample.gl_memory Target.texture_external_oes true true true w h b)
              e).1.textures
          ≡ none)
unfolding draw_image_plane new_frame oes_blit release_backing
deleted_texture_lem p has_data w h b e i j k l m n o = (
  ground (arith, i, j, k, l, m, n, o),
  ground (arith, l, m, n, o, size_of-delete_texture e.frame.gl_texture e.textures),
)
