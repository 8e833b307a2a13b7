-- ===== src/Headset/Drawing.antt =====
-- draw_image_plane of VR_App/src/render_scene.cpp: what is drawn of a camera's frame. The matrices and
-- the pixels are left out; the names that OpenGL gave to the programs are an argument.
-- The null frame, which RenderLayer never passes, is left out.
pub mod Textures
use but_telepresence.Prelude.{ℕ, Bool, true, false, ◌||◌, if◌then◌else◌, ◌==◌}
use but_telepresence.Headset.Frames.{Target, CameraFrame}

-- image_shader_object_oes, image_shader_object_2d and vertexArrayObject, 0 where there is none.
pub record Programs : Type 0 where
  pub image_oes : ℕ
  pub image_2d : ℕ
  pub vertex_array : ℕ

-- Nothing, a texture, or the bytes of the frame as a texture of its size; each with its program.
pub data Drawn : Type 0 where
  nothing : Drawn
  texture : (program name : ℕ) (target : Target) → Drawn
  upload : (program width height : ℕ) → Drawn

abbrev pub shader_for : Programs → Target → ℕ
shader_for p Target.texture_external_oes = p.image_oes
shader_for p Target.texture_2d = p.image_2d

-- The last check before anything is drawn.
abbrev pub with_program : Programs → (program : ℕ) → Drawn → Drawn
with_program p program d = if program == 0 || p.vertex_array == 0 then Drawn.nothing else d

-- `has_data` is whether dataHandle is set.
unfoldable pub draw_image_plane : Programs → (has_data : Bool) → CameraFrame → Drawn
draw_image_plane p has_data f =
    if f.has_gl_texture
    then if f.gl_texture == 0
      then Drawn.nothing
      else with_program p (shader_for p f.gl_target)
          (Drawn.texture (shader_for p f.gl_target) f.gl_texture f.gl_target)
    else if has_data
    then if f.frame_width == 0 || f.frame_height == 0
      then Drawn.nothing
      else with_program p p.image_2d (Drawn.upload p.image_2d f.frame_width f.frame_height)
    else Drawn.nothing
