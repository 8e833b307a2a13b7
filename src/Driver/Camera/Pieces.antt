-- ===== src/Driver/Camera/Pieces.antt =====
-- Each piece of a camera thread of streaming_driver/main.cpp keeps what the thread knows.
use but_telepresence.Prelude.{ℕ, ◌<◌, ◌≤◌, ◌≡◌, Bool, arith}
use but_telepresence.Driver.Config.{StreamingConfig}
use but_telepresence.Driver.Pipeline.{Gst}
use but_telepresence.Driver.Camera.{
  Shared, Running, Phase, Camera, advance, read_config, wake, start_pipeline, poll, apply_config,
  stop_pipeline,
}

-- What the thread knows at each place.
abbrev pub Knows : Shared → Camera → Phase → Type 0
Knows s c (Phase.building cfg) =
    (c.consecutive_failures < 5) × (c.seen_version ≡ s.version → cfg ≡ s.desired)
Knows s c (Phase.streaming r) =
    (c.consecutive_failures ≡ 0) × (c.seen_version ≡ s.version → c.current_config ≡ s.desired)
Knows s c (Phase.noticed r errored v) = (c.consecutive_failures ≡ 0) × (v ≤ s.version)
Knows s c (Phase.teardown rebuild errored) = c.consecutive_failures ≡ 0
Knows s c _ = Unit {0}

pub record IsCurrent (lines : ℕ) (s : Shared) (c : Camera) : Type 0 where
  pub version : s.version ≤ lines
  pub seen : c.seen_version ≤ s.version
  pub failures : c.consecutive_failures ≤ 5
  pub knows : Knows s c c.phase

read_config-IsCurrent :
    (n : ℕ) (s : Shared) (c : Camera) → IsCurrent n s c → IsCurrent n s (read_config s c)
unfolding read_config
read_config-IsCurrent n s c v = ground (arith, v)

wake-IsCurrent : (n : ℕ) (s : Shared) (c : Camera) → IsCurrent n s c → IsCurrent n s (wake s c)
unfolding wake
wake-IsCurrent n s c v = ground (arith, v)

start_pipeline-IsCurrent :
    (g : Gst) (plays : Bool) (cfg : StreamingConfig) (n : ℕ) (s : Shared) (c : Camera)
    → IsCurrent n s c
    → Knows s c (Phase.building cfg)
    → IsCurrent n s (start_pipeline g plays cfg c)
unfolding start_pipeline
start_pipeline-IsCurrent g plays cfg n s c v k = ground (arith, v, k)

poll-IsCurrent :
    (r : Running) (errored : Bool) (n : ℕ) (s : Shared) (c : Camera)
    → IsCurrent n s c
    → Knows s c (Phase.streaming r)
    → IsCurrent n s (poll s errored r c)
unfolding poll
poll-IsCurrent r errored n s c v k = ground (arith, v, k)

apply_config-IsCurrent :
    (g : Gst) (r : Running) (b : Bool) (w : ℕ) (n : ℕ) (s : Shared) (c : Camera)
    → IsCurrent n s c
    → Knows s c (Phase.noticed r b w)
    → IsCurrent n s (apply_config g s r b w c)
unfolding apply_config
apply_config-IsCurrent g r b w n s c v k = ground (arith, v, k)

stop_pipeline-IsCurrent :
    (a b : Bool) (n : ℕ) (s : Shared) (c : Camera)
    → IsCurrent n s c
    → Knows s c (Phase.teardown a b)
    → IsCurrent n s (stop_pipeline s a b c)
unfolding stop_pipeline
stop_pipeline-IsCurrent a b n s c v k = ground (arith, v, k)

pub advance-IsCurrent :
    (g : Gst) (plays errored : Bool) (n : ℕ) (s : Shared) (c : Camera) (p : Phase)
    → c.phase ≡ p
    → IsCurrent n s c
    → Knows s c p
    → IsCurrent n s (advance g plays errored s c)
unfolding advance
advance-IsCurrent g plays errored n s c Phase.head e v k =
    rw (e, advance) (read_config-IsCurrent n s c v)
advance-IsCurrent g plays errored n s c Phase.resting e v k =
    rw (e, advance) (wake-IsCurrent n s c v)
advance-IsCurrent g plays errored n s c Phase.finished e v k = rw (e, advance) v
advance-IsCurrent g plays errored n s c Phase.crashed e v k = rw (e, advance) v
advance-IsCurrent g plays errored n s c (Phase.building cfg) e v k =
    rw (e, advance) (start_pipeline-IsCurrent g plays cfg n s c v k)
advance-IsCurrent g plays errored n s c (Phase.streaming r) e v k =
    rw (e, advance) (poll-IsCurrent r errored n s c v k)
advance-IsCurrent g plays errored n s c (Phase.noticed r b w) e v k =
    rw (e, advance) (apply_config-IsCurrent g r b w n s c v k)
advance-IsCurrent g plays errored n s c (Phase.teardown a b) e v k =
    rw (e, advance) (stop_pipeline-IsCurrent a b n s c v k)
