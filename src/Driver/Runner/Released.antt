-- ===== src/Driver/Runner/Released.antt =====
-- A pipeline that does not start, in panoramic mode of streaming_driver/main.cpp.
use but_telepresence.Prelude.{
  ℕ, suc, ◌<◌, ◌≡◌, subst, true, false, none, some, List, [], ◌∷◌, arith, ◌==◌,
}
use but_telepresence.Driver.Config.{VideoMode, video_mode_eq}
use but_telepresence.Driver.Elements.{Element, get_panoramic_streaming_pipeline}
use but_telepresence.Driver.Pipeline.{Gst, needs_key_frame}
use but_telepresence.Driver.Camera.{Shared}
use but_telepresence.Driver.Panorama.{
  select_camera, find_slot, reset_window, attach_selector, detach_selector, stop_pipeline,
}
use but_telepresence.Driver.Runner.{
  Stream, Phase, Listener, Runner, Answers, sensors, advance, read_config, build, receive,
  force_key_frame, Move, run,
}

-- The published configuration asks for a panoramic stream with key frames.
pub record IsAsked (s : Shared) (elements : List Element) : Type 0 where
  pub goes_on : s.stop_requested ≡ false
  pub published : (s.version == 0) ≡ false
  pub panoramic : video_mode_eq s.desired.video_mode VideoMode.panoramic ≡ true
  pub key_frames : needs_key_frame s.desired.codec ≡ true
  pub described : get_panoramic_streaming_pipeline s.desired (5, 0, 1) ≡ some elements

-- The start fails, the thread makes the next pipeline, and a datagram for camera 5 comes before
-- that one is registered.
abbrev pub late_registration : (failure success : Answers) → List Move
late_registration a b =
    Move.advances a
    ∷ Move.advances a
    ∷ Move.advances a
    ∷ Move.advances a
    ∷ Move.advances a
    ∷ Move.advances b
    ∷ Move.advances b
    ∷ Move.receives true 5
    ∷ Move.forces
    ∷ Move.forces
    ∷ []

-- Where the runner stands in the lemma.
abbrev stands : Stream → Runner → Runner
stands t r = record r {
  phase = Phase.starting t;
  listener = Listener.waiting;
  registered = some t.number;
}

stands_lem :
    (t : Stream) (r : Runner)
    → r.phase ≡ Phase.starting t
    → r.listener ≡ Listener.waiting
    → r.registered ≡ some t.number
    → stands t r ≡ r
stands_lem t r e l q = cc

read_config-IsAsked :
    (elements : List Element) (s : Shared) (r : Runner)
    → IsAsked s elements
    → read_config s r ≡ record r { seen_version = s.version; phase = Phase.resetting s.desired }
unfolding read_config
read_config-IsAsked elements s r v = ground (arith, v)

-- The pipeline that is built for a window that was reset.
abbrev fresh : Shared → List Element → Runner → Stream
fresh s elements r = record {
  number = r.made;
  config = s.desired;
  pipeline = record { elements = elements; enc_tail = none };
}

build-IsAsked :
    (b : Answers) (elements : List Element) (s : Shared) (r : Runner)
    → b.parses ≡ true
    → b.has_selector ≡ true
    → get_panoramic_streaming_pipeline s.desired (sensors r.panorama.window) ≡ some elements
    → build b s.desired r ≡ record r {
      alive = some r.made;
      made = suc r.made;
      phase = Phase.attaching (fresh s elements r);
    }
unfolding build
build-IsAsked b elements s r p k w = ground (arith, p, k, w)

-- At the datagram the selector is that of the new pipeline, and the released one is registered.
forced :
    (s : Shared) (old : ℕ) (t : Stream) (elements : List Element) (r : Runner)
    → IsAsked s elements
    → old < t.number
    → (force_key_frame s (
        force_key_frame s (
          receive true 5 (record r {
            panorama = attach_selector (reset_window r.panorama);
            registered = some old;
            alive = some t.number;
            phase = Phase.registering t;
            listener = Listener.waiting;
          })))).used_released
      ≡ true
unfolding receive force_key_frame select_camera find_slot reset_window attach_selector
forced s old t elements r v n = let k = v.key_frames in rw (k, force_key_frame) (ground (arith, n))

module _ (g : Gst) (a b : Answers) (elements : List Element) (s : Shared) (t : Stream) (r : Runner)
    (v : IsAsked s elements) where
  abbrev down : Runner
  down = record (stands t r) {
    panorama = stop_pipeline (detach_selector r.panorama);
    alive = none;
    slept_ms = 1000;
    phase = Phase.head;
  }

  abbrev up : Runner
  up = record down {
    seen_version = s.version;
    panorama = reset_window down.panorama;
    phase = Phase.building s.desired;
  }

  -- From the failed start to the next selector.
  restarted :
      a.plays ≡ false
      → b.parses ≡ true
      → b.has_selector ≡ true
      → t.number < r.made
      → (run g (late_registration a b) (s, stands t r)).1.used_released ≡ true
  unfolding run advance detach_selector stop_pipeline reset_window attach_selector
  restarted f p k n = rw f (
      rw (read_config-IsAsked elements s down v) (
        rw (build-IsAsked b elements s up p k v.described)
          (forced s t.number (fresh s elements r) elements (record up { made = suc r.made }) v n)))

-- A failed start leaves its pipeline in `pipelines` after the release: whatever the state in which
-- a pipeline fails to start, if the thread then makes the next pipeline and a datagram comes before
-- that is registered, the key frame is forced on the released one.
pub late_registration_lem :
    (g : Gst) (a b : Answers) (elements : List Element) (s : Shared) (t : Stream) (r : Runner)
    → IsAsked s elements
    → a.plays ≡ false
    → b.parses ≡ true
    → b.has_selector ≡ true
    → r.phase ≡ Phase.starting t
    → r.listener ≡ Listener.waiting
    → r.registered ≡ some t.number
    → t.number < r.made
    → (run g (late_registration a b) (s, r)).1.used_released ≡ true
late_registration_lem g a b elements s t r v f p k e l q n =
    subst (λ x. (run g (late_registration a b) (s, x)).1.used_released ≡ true)
      (stands_lem t r e l q) (restarted g a b elements s t r v f p k n)
