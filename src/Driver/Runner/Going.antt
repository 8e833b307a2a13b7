-- ===== src/Driver/Runner/Going.antt =====
-- How each piece of the panoramic thread of streaming_driver/main.cpp nears the published
-- configuration.
use but_telepresence.Prelude.{
  some, inl, inr, refl, sym, ap, subst, Option-cases, Bool-cases, ℕ, ◌-◌, ◌≤◌, ◌≡◌, Bool, true,
  false, none, arith, if◌then◌else◌, ◌==◌,
}
use but_telepresence.Driver.Config.{
  StreamingConfig, VideoMode, video_mode_eq, can_update_dynamically,
}
use but_telepresence.Driver.Elements.{get_panoramic_streaming_pipeline}
use but_telepresence.Driver.Pipeline.{Gst, update_pipeline_properties}
use but_telepresence.Driver.Pipeline.Panoramic.{Rebuilds, as_pipeline, panoramic_rebuilds}
use but_telepresence.Driver.Camera.{Shared}
use but_telepresence.Driver.Camera.Going.{IsSupported}
use but_telepresence.Driver.Runner.{
  Stream, Phase, Runner, Answers, advance, read_config, build, poll, apply_config, clear, sensors,
}

-- The published configuration is panoramic, and its codec has an encoder tail.
pub record IsServed (s : Shared) : Type 0 where
  pub goes_on : s.stop_requested ≡ false
  pub published : (s.version == 0) ≡ false
  pub panoramic : video_mode_eq s.desired.video_mode VideoMode.panoramic ≡ true
  pub supported : IsSupported s.desired

-- The pipeline of the stream is the one that its configuration describes, for some three cameras.
pub record IsBuilt (t : Stream) : Type 0 where
  pub cameras : ℕ × ℕ × ℕ
  pub described : get_panoramic_streaming_pipeline t.config cameras ≡ some t.pipeline.elements
  pub tail : t.pipeline.enc_tail ≡ none

-- The thread has not ended, and does not describe a codec without an encoder tail; a pipeline in its
-- hands is the one that is described for its configuration.
abbrev pub IsGoing : Phase → Type 0
IsGoing Phase.finished = ⊥
IsGoing Phase.crashed = ⊥
IsGoing (Phase.resetting cfg) = IsSupported cfg
IsGoing (Phase.building cfg) = IsSupported cfg
IsGoing (Phase.attaching t) = IsBuilt t
IsGoing (Phase.registering t) = IsBuilt t
IsGoing (Phase.starting t) = IsBuilt t
IsGoing (Phase.streaming t) = IsBuilt t
IsGoing (Phase.noticed t errored v) = IsBuilt t
IsGoing _ = Unit {0}

-- How many pieces there are at most before the published configuration is streamed; eleven more
-- where the version that was seen is not the published one.
abbrev pub left : (version seen : ℕ) → Phase → ℕ
left version seen (Phase.streaming t) = if version == seen then 0 else 11
left version seen (Phase.starting t) = if version == seen then 1 else 12
left version seen (Phase.registering t) = if version == seen then 2 else 13
left version seen (Phase.attaching t) = if version == seen then 3 else 14
left version seen (Phase.building cfg) = if version == seen then 4 else 15
left version seen (Phase.resetting cfg) = if version == seen then 5 else 16
left version seen (Phase.noticed t errored v) = if version == v then 10 else 12
left version seen (Phase.detaching b) = 9
left version seen (Phase.stopping b) = 8
left version seen Phase.failing = 8
left version seen Phase.head = 6
left version seen Phase.finished = 0
left version seen Phase.crashed = 0
left version seen _ = 7

-- The pieces that are left after a piece.
pub record Nears (s : Shared) (r : Runner) (most : ℕ) : Type 0 where
  pub going : IsGoing r.phase
  pub nearer : left s.version r.seen_version r.phase ≤ most

supported_described :
    (cfg : StreamingConfig) (w : ℕ × ℕ × ℕ)
    → IsSupported cfg
    → (get_panoramic_streaming_pipeline cfg w ≡ none → ⊥)
unfolding get_panoramic_streaming_pipeline
supported_described cfg w h e = ground (arith, h, e)

-- GStreamer makes the pipeline and starts it, and its bus has no error.
pub record IsGood (a : Answers) : Type 0 where
  pub parses : a.parses ≡ true
  pub has_selector : a.has_selector ≡ true
  pub plays : a.plays ≡ true
  pub errored : a.errored ≡ false

is_panoramic :
    (m : VideoMode) → video_mode_eq m VideoMode.panoramic ≡ true → m ≡ VideoMode.panoramic
is_panoramic m h = ground arith

module _ (g : Gst) (a : Answers) (s : Shared) (r : Runner) (good : IsGood a) (w : IsServed s) where
  build-Nears :
      (cfg : StreamingConfig)
      → IsSupported cfg
      → Nears s (build a cfg r) (left s.version r.seen_version (Phase.building cfg) - 1)
  unfolding build
  build-Nears cfg h =
      elim (Option-cases (get_panoramic_streaming_pipeline cfg (sensors r.panorama.window))) [
        | inl e ↦ absurd (supported_described cfg (sensors r.panorama.window) h e)
        | inr (es, e) ↦
            rw (e, build)
              (rw (good.parses, good.has_selector)
                (record {
                  going = record {
                    cameras = sensors r.panorama.window;
                    described = e;
                    tail = refl;
                  };
                  nearer = ground arith;
                }))
      ]

  -- An update in place leaves the described pipeline.
  updated-IsBuilt :
      (t : Stream)
      → IsBuilt t
      → can_update_dynamically t.config s.desired ≡ true
      → IsBuilt (record t {
        config = s.desired;
        pipeline = (update_pipeline_properties g t.pipeline t.config s.desired).pipeline;
      })
  updated-IsBuilt t b h =
      let p : as_pipeline t.pipeline.elements ≡ t.pipeline =
        ap (λ x. record { elements = t.pipeline.elements; enc_tail = x }) (sym b.tail) in
      let u =
        subst
          (λ q.
            Rebuilds (update_pipeline_properties g q t.config s.desired)
              (get_panoramic_streaming_pipeline s.desired b.cameras))
          p
          (panoramic_rebuilds g t.config s.desired b.cameras t.pipeline.elements
            (is_panoramic s.desired.video_mode w.panoramic) h b.described) in
      record { cameras = b.cameras; described = u.rebuilt; tail = u.tail }

  apply_config-Nears :
      (t : Stream) (b : Bool) (v : ℕ)
      → IsBuilt t
      → Nears s (apply_config g s t b v r) (left s.version r.seen_version (Phase.noticed t b v) - 1)
  unfolding apply_config
  apply_config-Nears t b v k = elim (Bool-cases (can_update_dynamically t.config s.desired)) [
    | inl h ↦ let i = updated-IsBuilt t k h in ground (arith, i)
    | inr h ↦ ground (arith, h)
  ]

  pub advance-Nears :
      (p : Phase)
      → r.phase ≡ p
      → IsGoing p
      → Nears s (advance g a s r) (left s.version r.seen_version p - 1)
  unfolding advance read_config poll clear
  advance-Nears (Phase.building cfg) e h = simp (e, advance) (build-Nears cfg h)
  advance-Nears (Phase.noticed t b v) e h = simp (e, advance) (apply_config-Nears t b v h)
  advance-Nears Phase.finished e h = absurd h
  advance-Nears Phase.crashed e h = absurd h
  advance-Nears Phase.head e h = simp (e, advance) (ground (arith, w))
  advance-Nears (Phase.resetting cfg) e h = simp (e, advance) (ground (arith, h))
  advance-Nears _ e h = simp (e, advance) (ground (arith, w, good, h))
