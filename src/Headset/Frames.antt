-- ===== src/Headset/Frames.antt =====
-- The decoded frames of one eye (CameraFrame of VR_App/include/types/camera_types.h): newFrameCallback,
-- oesBlitOnGstGlThread and the reset by configurePipelines, in VR_App/src/gstreamer_player.cpp. The
-- textures that exist are part of the state; what GStreamer and OpenGL return are arguments. The
-- pixels are left out.
pub mod Shown
use but_telepresence.Prelude.{
  ℕ, ◌*◌, Bool, true, false, not, ◌&&◌, ◌||◌, Option, none, some, List, [], ◌∷◌, if◌then◌else◌,
  ◌==◌,
}

pub data Target : Type 0 where
  texture_2d texture_external_oes : Target

pub record CameraFrame : Type 0 where
  pub frame_width : ℕ
  pub frame_height : ℕ
  pub has_gl_texture : Bool
  pub gl_texture : ℕ
  pub gl_target : Target
  pub memory_size : ℕ
  pub hw_backing_tex : ℕ
  pub hw_backing_fbo : ℕ
  pub hw_backing_width : ℕ
  pub hw_backing_height : ℕ

-- The textures that exist, each with its size.
abbrev pub Textures : Type 0
Textures = List (ℕ × (ℕ × ℕ))

unfoldable pub size_of : ℕ → Textures → Option (ℕ × ℕ)
size_of name [] = none
size_of name ((n, s) ∷ ts) = if n == name then some s else size_of name ts

-- glDeleteTextures.
unfoldable pub delete_texture : ℕ → Textures → Textures
delete_texture name [] = []
delete_texture name ((n, s) ∷ ts) =
    let rest = delete_texture name ts in if n == name then rest else (n, s) ∷ rest

pub record Eye : Type 0 where
  pub frame : CameraFrame
  pub textures : Textures

-- What OpenGL does in a blit: the names that are new, whether the framebuffer is complete, and
-- whether the blitter has its program.
pub record Blit : Type 0 where
  pub new_texture : ℕ
  pub new_framebuffer : ℕ
  pub is_complete : Bool
  pub has_program : Bool

abbrev pub fits : (width height : ℕ) → CameraFrame → Bool
fits width height f =
    not (f.hw_backing_tex == 0) && f.hw_backing_width == width && f.hw_backing_height == height

-- The old texture and framebuffer go; the size is kept.
unfoldable pub release_backing : Eye → Eye
release_backing e = record {
  frame = record e.frame { hw_backing_tex = 0; hw_backing_fbo = 0 };
  textures =
      if e.frame.hw_backing_tex == 0
      then e.textures
      else delete_texture e.frame.hw_backing_tex e.textures;
}

abbrev with_backing : (width height : ℕ) → Blit → Eye → Eye
with_backing width height b e = record {
  frame = record e.frame {
    hw_backing_tex = b.new_texture;
    hw_backing_fbo = b.new_framebuffer;
    hw_backing_width = width;
    hw_backing_height = height;
  };
  textures = (b.new_texture, (width, height)) ∷ e.textures;
}

-- Whether there is a backing of the size now.
abbrev allocate : (width height : ℕ) → Blit → Eye → Bool × Eye
allocate width height b e =
    let r = release_backing e in
    if b.is_complete then (true, with_backing width height b r) else (false, r)

-- oesBlitOnGstGlThread: job->success, and what it leaves.
unfoldable pub oes_blit : (width height : ℕ) → Blit → Eye → Bool × Eye
oes_blit width height b e =
    let a = if fits width height e.frame then (true, e) else allocate width height b e in
    (a.0 && b.has_program, a.1)

-- A sample that is pulled: whether the callback gets past each check, the target of its caps, and for
-- GL memory the size and the blit.
pub data Sample : Type 0 where
  no_sample no_caps : Sample
  system_memory : (target : Target) (is_mapped : Bool) → Sample
  gl_memory :
      (target : Target) (has_info is_mapped has_context : Bool) (width height : ℕ) (blit : Blit)
      → Sample

abbrev with_target : Target → Eye → Eye
with_target t e = record e { frame = record e.frame { gl_target = t } }

abbrev publish : (width height : ℕ) → Eye → Eye
publish width height e = record e {
  frame = record e.frame {
    gl_texture = e.frame.hw_backing_tex;
    gl_target = Target.texture_2d;
    has_gl_texture = true;
    frame_width = width;
    frame_height = height;
  };
}

abbrev published : (width height : ℕ) → Bool × Eye → Bool × Eye
published width height r = (r.0, if r.0 then publish width height r.1 else r.1)

-- newFrameCallback from the pull of the sample on: GST_FLOW_OK or not, and what it leaves.
unfoldable pub new_frame : Sample → Eye → Bool × Eye
new_frame Sample.no_sample e = (false, e)
new_frame Sample.no_caps e = (false, e)
new_frame (Sample.system_memory t is_mapped) e =
    let f = with_target t e in
    if is_mapped
    then (true, record f { frame = record f.frame { has_gl_texture = false } })
    else (false, f)
new_frame (Sample.gl_memory t has_info is_mapped has_context w h b) e =
    let f = with_target t e in
    if has_info && is_mapped && has_context then published w h (oes_blit w h b f) else (false, f)

-- configurePipelines for one eye: the names are forgotten.
unfoldable pub configure : (width height : ℕ) → Eye → Eye
configure width height e = record e {
  frame = record e.frame {
    frame_width = width;
    frame_height = height;
    memory_size = width * height * 3;
    hw_backing_tex = 0;
    hw_backing_fbo = 0;
    hw_backing_width = 0;
    hw_backing_height = 0;
    gl_texture = 0;
    has_gl_texture = false;
  };
}

pub data Event : Type 0 where
  samples : Sample → Event
  configures : (width height : ℕ) → Event

unfoldable pub happen : List Event → Eye → Eye
happen [] e = e
happen (samples s ∷ es) e = happen es (new_frame s e).1
happen (configures w h ∷ es) e = happen es (configure w h e)
