-- ===== src/Examples/Pictures.antt =====
-- Decoded frames (VR_App/src/gstreamer_player.cpp) with their textures.
use but_telepresence.Prelude.{ℕ, ◌≡◌, refl, Bool, true, false, Option, none, [], ◌∷◌}
use but_telepresence.Headset.Frames.{
  Target, Blit, size_of, delete_texture, Eye, oes_blit, release_backing, Sample, new_frame,
  configure, samples, happen,
}
use but_telepresence.Headset.Drawing.{Programs, Drawn, draw_image_plane}
use but_telepresence.Headset.Drawing.Textures.{
  IsSound, draw_image_plane-happen, deleted_texture_lem,
}

abbrev empty_eye : Eye
empty_eye = record {
  frame = record {
    frame_width = 1920;
    frame_height = 1080;
    has_gl_texture = false;
    gl_texture = 0;
    gl_target = Target.texture_2d;
    memory_size = 6220800;
    hw_backing_tex = 0;
    hw_backing_fbo = 0;
    hw_backing_width = 0;
    hw_backing_height = 0;
  };
  textures = [];
}

abbrev sample_of : (width name : ℕ) → (is_complete : Bool) → Sample
sample_of width name is_complete =
    Sample.gl_memory Target.texture_external_oes true true true width 720 (record {
      new_texture = name;
      new_framebuffer = name;
      is_complete = is_complete;
      has_program = true;
    })

-- A framebuffer that is not complete for a frame of another size: the texture that stays published
-- was deleted, and its target is that of the sample.
abbrev shown : Eye → Bool × (ℕ × (Target × Option (ℕ × ℕ)))
shown e = (
  e.frame.has_gl_texture,
  (e.frame.gl_texture, (e.frame.gl_target, size_of e.frame.gl_texture e.textures)),
)

deleted_but_published :
    shown
      (happen (samples (sample_of 1280 5 true) ∷ samples (sample_of 640 6 false) ∷ []) empty_eye)
    ≡ (true, (5, (Target.texture_external_oes, none)))
unfolding happen new_frame oes_blit release_backing delete_texture size_of
deleted_but_published = refl

abbrev programs : Programs
programs = record { image_oes = 3; image_2d = 4; vertex_array = 1 }

draw_image_plane-happen_example :
    IsSound programs
      (new_frame (sample_of 640 7 true) (
        happen
          (samples (sample_of 1280 5 true) ∷ samples (sample_of 640 6 false) ∷ [])
          (configure 1280 720 empty_eye))).1
      (draw_image_plane programs false
        (new_frame (sample_of 640 7 true) (
          happen
            (samples (sample_of 1280 5 true) ∷ samples (sample_of 640 6 false) ∷ [])
            (configure 1280 720 empty_eye))).1.frame)
draw_image_plane-happen_example =
    draw_image_plane-happen programs false 1280 720
      (samples (sample_of 1280 5 true) ∷ samples (sample_of 640 6 false) ∷ [])
      (sample_of 640 7 true) empty_eye
      (unfold happen new_frame oes_blit release_backing configure in refl)

-- The eye after a frame of 1280 × 720.
abbrev eye_shown : Eye
eye_shown = record {
  frame = record {
    frame_width = 1280;
    frame_height = 720;
    has_gl_texture = true;
    gl_texture = 5;
    gl_target = Target.texture_2d;
    memory_size = 0;
    hw_backing_tex = 5;
    hw_backing_fbo = 5;
    hw_backing_width = 1280;
    hw_backing_height = 720;
  };
  textures = (5, (1280, 720)) ∷ [];
}

abbrev incomplete : Blit
incomplete = record {
  new_texture = 6;
  new_framebuffer = 6;
  is_complete = false;
  has_program = true;
}

deleted_texture_lem_example :
    (draw_image_plane programs false
        (new_frame
          (Sample.gl_memory Target.texture_external_oes true true true 640 720 incomplete)
          eye_shown).1.frame
      ≡ Drawn.texture 3 5 Target.texture_external_oes)
    × (size_of 5
          (new_frame
            (Sample.gl_memory Target.texture_external_oes true true true 640 720 incomplete)
            eye_shown).1.textures
        ≡ none)
deleted_texture_lem_example =
    deleted_texture_lem programs false 640 720 incomplete eye_shown refl refl refl refl refl refl
      refl
