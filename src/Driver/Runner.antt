-- ===== src/Driver/Runner.antt =====
-- RunPanoramicPipeline and the key frames of CameraSelectListener, in streaming_driver/main.cpp: the
-- two threads of panoramic mode, cut where they touch what they share. A pipeline is named by a
-- number, so that one which was released can be told from the next. What GStreamer answers is an
-- argument; a sleep is noted and not waited for.
pub mod Pieces
pub mod Lifetimes
pub mod Stops
pub mod Released
pub mod Modes
pub mod Going
pub mod Settles
use but_telepresence.Prelude.{
  ℕ, suc, Bool, true, false, not, ◌&&◌, ◌||◌, Option, List, [], ◌∷◌, none, some, if◌then◌else◌,
  ◌==◌,
}
use but_telepresence.Driver.Config.{
  StreamingConfig, VideoMode, video_mode_eq, can_update_dynamically,
}
use but_telepresence.Driver.Elements.{get_panoramic_streaming_pipeline}
use but_telepresence.Driver.Pipeline.{Gst, Pipeline, update_pipeline_properties, needs_key_frame}
use but_telepresence.Driver.Camera.{Shared, Line, control_loop}
use but_telepresence.Driver.Panorama.{
  Window, Panorama, select_camera, swap_camera_probe, reset_window, attach_selector,
  detach_selector, stop_pipeline,
}

-- `pipeline` with its number, and `cfg`.
pub record Stream : Type 0 where
  pub number : ℕ
  pub config : StreamingConfig
  pub pipeline : Pipeline

-- Where RunPanoramicPipeline stands: at the head of the loop; before the reset, the build, the
-- caching of the selector, the registration in `pipelines` and the start; streaming, with a new
-- version noticed, before the letting go, the stop and the removal from `pipelines`; before the
-- letting go and the stop after a failed start, and the stop without a selector; at the end; and
-- after an exception that nothing catches.
pub data Phase : Type 0 where
  head finished crashed : Phase
  resetting building : (cfg : StreamingConfig) → Phase
  attaching registering starting streaming : Stream → Phase
  noticed : Stream → (errored : Bool) → (current_version : ℕ) → Phase
  detaching stopping clearing : (rebuild : Bool) → Phase
  failing abandoning discarding : Phase

-- What the listener still has to do after a datagram.
pub data Listener : Type 0 where
  waiting needs_config : Listener
  needs_pipeline : (cfg : StreamingConfig) → Listener

-- `registered` is pipelines[0]; `alive` the pipeline that is not released; `made` how many pipelines
-- there were. `used_released` is whether ForceKeyFrame was ever called on a released pipeline.
pub record Runner : Type 0 where
  pub seen_version : ℕ
  pub panorama : Panorama
  pub registered : Option ℕ
  pub alive : Option ℕ
  pub made : ℕ
  pub slept_ms : ℕ
  pub phase : Phase
  pub listener : Listener
  pub used_released : Bool

-- What GStreamer answers.
pub record Answers : Type 0 where
  pub parses : Bool
  pub has_selector : Bool
  pub plays : Bool
  pub errored : Bool

-- The head of the loop, up to the test of the mode.
unfoldable pub read_config : Shared → Runner → Runner
read_config s r =
    if s.stop_requested
    then record r { phase = Phase.finished }
    else if s.version == 0
    then record r { seen_version = s.version; slept_ms = 100; phase = Phase.head }
    else if not (video_mode_eq s.desired.video_mode VideoMode.panoramic)
    then record r { seen_version = s.version; slept_ms = 100; phase = Phase.head }
    else record r { seen_version = s.version; phase = Phase.resetting s.desired }

abbrev pub sensors : Window → ℕ × ℕ × ℕ
sensors w = (w.slot_0, w.slot_1, w.slot_2)

-- gst_parse_launch, and the look for the selector.
abbrev made_pipeline : Answers → Stream → Runner → Runner
made_pipeline a t r =
    if a.parses
    then record r {
      alive = some t.number;
      made = suc r.made;
      phase = if a.has_selector then Phase.attaching t else Phase.discarding;
    }
    else record r { slept_ms = 1000; phase = Phase.head }

unfoldable pub build : Answers → StreamingConfig → Runner → Runner
build a cfg r = elim (get_panoramic_streaming_pipeline cfg (sensors r.panorama.window)) [
  | none ↦ record r { phase = Phase.crashed }
  | some elements ↦
      made_pipeline a
        (record {
          number = r.made;
          config = cfg;
          pipeline = record { elements = elements; enc_tail = none };
        })
        r
]

-- A round of the inner loop up to the load of the version.
unfoldable pub poll : Shared → (errored : Bool) → Stream → Runner → Runner
poll s errored t r =
    if s.stop_requested
    then record r { phase = Phase.detaching false }
    else if not (s.version == r.seen_version)
    then record r { phase = Phase.noticed t errored s.version }
    else if errored
    then record r { phase = Phase.detaching true }
    else record r { phase = Phase.streaming t }

-- The rest of the round: the new configuration is read and applied.
unfoldable pub apply_config : Gst → Shared → Stream → (errored : Bool) → ℕ → Runner → Runner
apply_config g s t errored current_version r =
    let updated = update_pipeline_properties g t.pipeline t.config s.desired in
    let seen : Runner = record r { seen_version = current_version; phase = Phase.detaching true } in
    let next : Stream = record t { config = s.desired; pipeline = updated.pipeline } in
    if not (video_mode_eq s.desired.video_mode VideoMode.panoramic)
    then seen
    else if can_update_dynamically t.config s.desired && updated.success
    then record seen { phase = if errored then Phase.detaching true else Phase.streaming next }
    else seen

-- After the removal from `pipelines`.
unfoldable pub clear : Shared → (rebuild : Bool) → Runner → Runner
clear s rebuild r = record r {
  registered = none;
  slept_ms = if rebuild && not s.stop_requested then 500 else 0;
  phase = Phase.head;
}

abbrev released : Runner → Runner
released r = record r { panorama = stop_pipeline r.panorama; alive = none }

-- One piece of the thread.
unfoldable pub advance : Gst → Answers → Shared → Runner → Runner
advance g a s r = elim r.phase [
  | Phase.head ↦ read_config s r
  | Phase.finished ↦ r
  | Phase.crashed ↦ r
  | Phase.resetting cfg ↦ record r {
    panorama = reset_window r.panorama;
    phase = Phase.building cfg;
  }
  | Phase.building cfg ↦ build a cfg r
  | Phase.attaching t ↦ record r {
    panorama = attach_selector r.panorama;
    phase = Phase.registering t;
  }
  | Phase.registering t ↦ record r { registered = some t.number; phase = Phase.starting t }
  | Phase.starting t ↦ record r { phase = if a.plays then Phase.streaming t else Phase.failing }
  | Phase.streaming t ↦ poll s a.errored t r
  | Phase.noticed t e v ↦ apply_config g s t e v r
  | Phase.detaching b ↦ record r { panorama = detach_selector r.panorama; phase = Phase.stopping b }
  | Phase.stopping b ↦ record (released r) { phase = Phase.clearing b }
  | Phase.clearing b ↦ clear s b r
  | Phase.failing ↦ record r { panorama = detach_selector r.panorama; phase = Phase.abandoning }
  | Phase.abandoning ↦ record (released r) { slept_ms = 1000; phase = Phase.head }
  | Phase.discarding ↦ record (released r) { phase = Phase.head }
]

-- A datagram, while the listener waits for one.
unfoldable pub receive : (found : Bool) → (target : ℕ) → Runner → Runner
receive found target r = elim r.listener [
  | Listener.waiting ↦ record r {
    panorama = (select_camera found target r.panorama).0;
    listener =
        if (select_camera found target r.panorama).1
        then Listener.needs_config
        else Listener.waiting;
  }
  | _ ↦ r
]

-- Whether a pipeline is there and is not the one that is alive.
abbrev pub is_released : (pipeline alive : Option ℕ) → Bool
is_released none alive = false
is_released (some n) none = true
is_released (some n) (some m) = not (n == m)

-- The listener's rest: the configuration, and ForceKeyFrame on pipelines[0].
unfoldable pub force_key_frame : Shared → Runner → Runner
force_key_frame s r = elim r.listener [
  | Listener.waiting ↦ r
  | Listener.needs_config ↦ record r {
    listener =
        if needs_key_frame s.desired.codec
        then Listener.needs_pipeline s.desired
        else Listener.waiting;
  }
  | Listener.needs_pipeline cfg ↦ record r {
    listener = Listener.waiting;
    used_released = r.used_released || is_released r.registered r.alive;
  }
]

-- A buffer reaches the pad of a swap that waits.
unfoldable pub buffer_flows : Runner → Runner
buffer_flows r = record r { panorama = swap_camera_probe r.panorama }

-- What can happen next: a line of the input, a piece of the thread, a datagram, a piece of the
-- listener, or a buffer.
pub data Move : Type 0 where
  reads : Line → Move
  advances : Answers → Move
  receives : (found : Bool) → (target : ℕ) → Move
  forces flows : Move

abbrev pub move : Gst → Move → Shared × Runner → Shared × Runner
move g (Move.reads l) (s, r) = (control_loop l s, r)
move g (Move.advances a) (s, r) = (s, advance g a s r)
move g (Move.receives found target) (s, r) = (s, receive found target r)
move g Move.forces (s, r) = (s, force_key_frame s r)
move g Move.flows (s, r) = (s, buffer_flows r)

-- An interleaving is a list of moves.
unfoldable pub run : Gst → List Move → Shared × Runner → Shared × Runner
run g [] w = w
run g (m ∷ ms) w = run g ms (move g m w)
