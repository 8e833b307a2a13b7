-- ===== src/Headset/Frame.antt =====
-- The calls of the OpenXR runtime in one frame of the headset: PollActions, RenderFrame, PollPoses and
-- RenderLayer of VR_App/src/program.cpp with openxr_begin_frame, openxr_end_frame,
-- openxr_acquire_viewsurface and openxr_release_viewsurface of VR_App/src/util_openxr.cpp. The calls
-- that only read a state of an action are left out, and so is what is drawn.
pub mod Order
pub mod Protocol
use but_telepresence.Prelude.{
  ℕ, zero, suc, Bool, true, false, ◌||◌, List, [], ◌∷◌, ◌++◌, if◌then◌else◌, ◌==◌,
}
use but_telepresence.Headset.Enums.{VideoMode, video_mode_eq}
use but_telepresence.Headset.Session.{Call}

-- A view's images are named by the number of the view.
pub data XrCall : Type 0 where
  begin_session end_session sync_actions locate wait_frame begin_frame end_frame : XrCall
  acquire_image wait_image release_image : (view : ℕ) → XrCall

-- The loop of RenderLayer over the views, from `view` on.
unfoldable pub render_views : (view rest : ℕ) → List XrCall
render_views view zero = []
render_views view (suc rest) =
    XrCall.acquire_image view
    ∷ XrCall.wait_image view
    ∷ XrCall.release_image view
    ∷ render_views (suc view) rest

-- xrLocateViews and xrLocateSpace come first.
abbrev pub render_layer : (view_count : ℕ) → List XrCall
render_layer view_count = XrCall.locate ∷ XrCall.locate ∷ render_views 0 view_count

-- A space for each of the two controllers.
abbrev pub poll_poses : List XrCall
poll_poses = XrCall.sync_actions ∷ XrCall.locate ∷ XrCall.locate ∷ []

unfoldable pub render_frame : (view_count : ℕ) → List XrCall
render_frame view_count =
    XrCall.wait_frame
    ∷ XrCall.begin_frame
    ∷ (poll_poses ++ (render_layer view_count ++ (XrCall.end_frame ∷ [])))

-- The calls behind a call of Session.
abbrev pub calls_of : (view_count : ℕ) → Call → List XrCall
calls_of view_count Call.begin_session = XrCall.begin_session ∷ []
calls_of view_count Call.end_session = XrCall.end_session ∷ []
calls_of view_count Call.frame = XrCall.sync_actions ∷ render_frame view_count

-- All calls of a session, the first one first.
unfoldable pub all_calls : (view_count : ℕ) → List Call → List XrCall
all_calls view_count [] = []
all_calls view_count (c ∷ cs) = all_calls view_count cs ++ calls_of view_count c
