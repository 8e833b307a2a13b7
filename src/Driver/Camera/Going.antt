-- ===== src/Driver/Camera/Going.antt =====
-- How each piece of a camera thread of streaming_driver/main.cpp nears the published configuration.
use but_telepresence.Prelude.{
  ℕ, ◌-◌, ◌≤◌, ◌≡◌, refl, subst, Bool, true, false, not, ◌&&◌, ◌||◌, Option, none, some, List, [],
  ◌∷◌, arith, if◌then◌else◌, ◌==◌, ltb, All, All-append,
}
use but_telepresence.Prelude.Int.{ℤ, pos, int_eq}
use but_telepresence.Driver.Config.{StreamingConfig, VideoMode, video_mode_eq}
use but_telepresence.Driver.Elements.{get_encoder_tail_description}
use but_telepresence.Driver.Pipeline.{
  Gst, Pipeline, build_camera_pipeline, update_pipeline_properties,
}
use but_telepresence.Driver.Camera.{
  Shared, Running, Phase, Camera, advance, read_config, wake, start_pipeline, poll, apply_config,
  stop_pipeline, arm,
}
use but_telepresence.Driver.Camera.Pieces.{Knows, IsCurrent}

-- The codec has an encoder tail.
abbrev pub IsSupported : StreamingConfig → Type 0
IsSupported cfg = (get_encoder_tail_description cfg ≡ none) → ⊥

-- The published configuration is for this camera, and its pipeline can be built.
pub record IsServed (g : Gst) (sensor_id : ℤ) (s : Shared) : Type 0 where
  pub goes_on : s.stop_requested ≡ false
  pub published : (s.version == 0) ≡ false
  pub shows :
      (video_mode_eq s.desired.video_mode VideoMode.mono && int_eq sensor_id (pos 1)) ≡ false
  pub builds : (build_camera_pipeline g sensor_id s.desired ≡ none) → ⊥

-- The thread has not ended, and it has not given up: after five failures it goes on only when there
-- is a version that it has not seen. The swaps that wait are for codecs with an encoder tail.
abbrev pub IsGoing : Shared → Camera → Phase → Type 0
IsGoing s c Phase.finished = ⊥
IsGoing s c Phase.crashed = ⊥
IsGoing s c Phase.resting = (s.version == c.seen_version) ≡ false
IsGoing s c Phase.head = (ltb c.consecutive_failures 5 || not (s.version == c.seen_version)) ≡ true
IsGoing s c (Phase.streaming r) = All IsSupported r.swaps
IsGoing s c (Phase.noticed r errored v) = All IsSupported r.swaps
IsGoing s c _ = Unit {0}

-- How many pieces there are at most before the published configuration is streamed.
abbrev pub left : Shared → Camera → Phase → ℕ
left s c (Phase.streaming r) = if s.version == c.seen_version then 0 else 5
left s c (Phase.building cfg) = if s.version == c.seen_version then 1 else 6
left s c Phase.head = if ltb c.consecutive_failures 5 then 2 else 4
left s c (Phase.noticed r errored v) = if s.version == v then 4 else 6
left s c (Phase.finished) = 0
left s c (Phase.crashed) = 0
left s c _ = 3

-- The pieces that are left after a piece.
pub record Nears (s : Shared) (sensor_id : ℤ) (d : Camera) (n : ℕ) : Type 0 where
  pub camera : d.sensor_id ≡ sensor_id
  pub going : IsGoing s d d.phase
  pub nearer : left s d d.phase ≤ n

supports :
    (g : Gst) (sensor_id : ℤ) (cfg : StreamingConfig)
    → ((build_camera_pipeline g sensor_id cfg ≡ none) → ⊥)
    → IsSupported cfg
unfolding build_camera_pipeline
supports g i cfg h e = h (rw (e, build_camera_pipeline) refl)

module _ (g : Gst) (n : ℕ) (s : Shared) (c : Camera) (v : IsCurrent n s c)
    (w : IsServed g c.sensor_id s) where
  read_config-Nears :
      IsGoing s c Phase.head → Nears s c.sensor_id (read_config s c) (left s c Phase.head - 1)
  unfolding read_config
  read_config-Nears k = ground (arith, k, w.goes_on, w.published, w.shows)

  wake-Nears :
      IsGoing s c Phase.resting → Nears s c.sensor_id (wake s c) (left s c Phase.resting - 1)
  unfolding wake
  wake-Nears k = ground (arith, k)

  stop_pipeline-Nears :
      (b e : Bool)
      → Knows s c (Phase.teardown b e)
      → Nears s c.sensor_id (stop_pipeline s b e c) (left s c (Phase.teardown b e) - 1)
  unfolding stop_pipeline
  stop_pipeline-Nears b e k = ground (arith, k)

  poll-Nears :
      (r : Running)
      → IsGoing s c (Phase.streaming r)
      → Nears s c.sensor_id (poll s false r c) (left s c (Phase.streaming r) - 1)
  unfolding poll
  poll-Nears r k = ground (arith, k, w.goes_on)

  start_pipeline-Nears :
      (cfg : StreamingConfig)
      → Knows s c (Phase.building cfg)
      → Nears s c.sensor_id (start_pipeline g true cfg c) (left s c (Phase.building cfg) - 1)
  unfolding start_pipeline
  start_pipeline-Nears cfg k = go (build_camera_pipeline g c.sensor_id cfg) refl
    where
      go :
          (o : Option Pipeline)
          → build_camera_pipeline g c.sensor_id cfg ≡ o
          → Nears s c.sensor_id (start_pipeline g true cfg c) (left s c (Phase.building cfg) - 1)
      go (some p) e = rw (e, start_pipeline) (ground arith)
      go none e =
          let stale : (s.version == c.seen_version) ≡ false = ground (arith, fresh e) in
          rw (e, start_pipeline) (ground (arith, stale, k.0))
        where
          fresh :
              build_camera_pipeline g c.sensor_id cfg ≡ none
              → (s.version == c.seen_version) ≡ true
              → ⊥
          fresh q i = w.builds (
              subst (λ x. build_camera_pipeline g c.sensor_id x ≡ none) (k.1 (ground (arith, i))) q)

  supports_desired : IsSupported s.desired
  supports_desired = supports g c.sensor_id s.desired w.builds

  arm-IsSupported :
      (p : Pipeline) (swaps : List StreamingConfig)
      → All IsSupported swaps
      → All IsSupported
          (arm (update_pipeline_properties g p c.current_config s.desired).pending swaps)
  unfolding update_pipeline_properties
  arm-IsSupported p swaps h =
      go (update_pipeline_properties g p c.current_config s.desired).pending refl
    where
      go :
          (o : Option StreamingConfig)
          → (update_pipeline_properties g p c.current_config s.desired).pending ≡ o
          → All IsSupported (arm o swaps)
      go none e = h
      go (some cfg) e =
          All-append IsSupported swaps (cfg ∷ []) h
            (subst IsSupported (ground (arith, e)) supports_desired, tt)

  apply_config-Nears :
      (r : Running) (errored : Bool) (u : ℕ)
      → Knows s c (Phase.noticed r errored u)
      → IsGoing s c (Phase.noticed r errored u)
      → Nears s c.sensor_id
          (apply_config g s r errored u c)
          (left s c (Phase.noticed r errored u) - 1)
  unfolding apply_config
  apply_config-Nears r errored u k h = ground (arith, k, arm-IsSupported r.pipeline r.swaps h)

  pub advance-Nears :
      (p : Phase)
      → c.phase ≡ p
      → Knows s c p
      → IsGoing s c p
      → Nears s c.sensor_id (advance g true false s c) (left s c p - 1)
  unfolding advance
  advance-Nears Phase.head e k h = rw (e, advance) (read_config-Nears h)
  advance-Nears Phase.resting e k h = rw (e, advance) (wake-Nears h)
  advance-Nears Phase.finished e k h = absurd h
  advance-Nears Phase.crashed e k h = absurd h
  advance-Nears (Phase.building cfg) e k h = rw (e, advance) (start_pipeline-Nears cfg k)
  advance-Nears (Phase.streaming r) e k h = rw (e, advance) (poll-Nears r h)
  advance-Nears (Phase.noticed r b u) e k h = rw (e, advance) (apply_config-Nears r b u k h)
  advance-Nears (Phase.teardown a b) e k h = rw (e, advance) (stop_pipeline-Nears a b k)
