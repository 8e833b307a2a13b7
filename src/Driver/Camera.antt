-- ===== src/Driver/Camera.antt =====
-- ControlLoop and RunCameraStreamingPipelineDynamic of streaming_driver/main.cpp: the thread that
-- reads configurations and a thread that keeps a camera streaming. The thread's loop is cut where
-- it reads or writes what the two share, so that each piece is one step. A sleep is noted and not
-- waited for.
pub mod Pieces
pub mod Updates
pub mod Stops
pub mod Going
pub mod Settles
pub mod Following
pub mod Showing
pub mod Arriving
use but_telepresence.Prelude.{
  ℕ, suc, ◌*◌, ◌-◌, ◌^◌, Bool, true, false, not, ◌&&◌, Option, none, some, List, [], ◌∷◌, ◌++◌,
  if◌then◌else◌, ◌==◌, ltb,
}
use but_telepresence.Prelude.Int.{ℤ, pos, int_eq}
use but_telepresence.Prelude.Words.{u64}
use but_telepresence.Driver.Config.{
  StreamingConfig, VideoMode, JsonObject, video_mode_eq, config_from_json, can_update_dynamically,
}
use but_telepresence.Driver.Pipeline.{
  Gst, Pipeline, Swap, Updated, build_camera_pipeline, swap_encoder_probe,
  update_pipeline_properties,
}

-- desired_cfg and cfg_version, which cfg_mutex guards together, and stop_requested.
pub record Shared : Type 0 where
  pub desired : StreamingConfig
  pub version : ℕ
  pub stop_requested : Bool

-- A line of the standard input, by what the JSON library makes of it.
pub data Line : Type 0 where
  empty unparsable other stop closed : Line
  update : (config : Option JsonObject) → Line

abbrev pub publish : Option StreamingConfig → Shared → Shared
publish none s = s
publish (some cfg) s = record s { desired = cfg; version = u64 (suc s.version) }

abbrev pub config_of : Option JsonObject → Option StreamingConfig
config_of none = none
config_of (some json) = config_from_json json

-- One round of ControlLoop; `closed` is the end of the input.
unfoldable pub control_loop : Line → Shared → Shared
control_loop Line.stop s = record s { stop_requested = true }
control_loop Line.closed s = record s { stop_requested = true }
control_loop (Line.update json) s = publish (config_of json) s
control_loop _ s = s

-- A pipeline, and the encoder swaps that are armed and wait for a buffer, the oldest first.
pub record Running : Type 0 where
  pub pipeline : Pipeline
  pub swaps : List StreamingConfig

-- Where the thread stands: at the head of the loop, asleep after too many failures, with a
-- configuration read, streaming, with a new version noticed, at the teardown, at the end; and after
-- an exception that nothing catches.
pub data Phase : Type 0 where
  head resting finished crashed : Phase
  building : (cfg : StreamingConfig) → Phase
  streaming : Running → Phase
  noticed : Running → (errored : Bool) → (current_version : ℕ) → Phase
  teardown : (rebuild errored : Bool) → Phase

pub record Camera : Type 0 where
  pub sensor_id : ℤ
  pub seen_version : ℕ
  pub consecutive_failures : ℕ
  pub current_config : StreamingConfig
  pub slept_ms : ℕ
  pub phase : Phase

abbrev pub max_consecutive_failures : ℕ
max_consecutive_failures = 5

-- The delay after a number of failures that is not 0.
unfoldable pub backoff_ms : ℕ → ℕ
backoff_ms failures =
    if ltb failures max_consecutive_failures then 200 * 2 ^ (failures - 1) else 10000

abbrev pub one_more_failure : Camera → Camera
one_more_failure c = record c {
  consecutive_failures = suc c.consecutive_failures;
  slept_ms = backoff_ms (suc c.consecutive_failures);
  phase = Phase.head;
}

-- The head of the loop, up to the end of the section that cfg_mutex guards.
unfoldable pub read_config : Shared → Camera → Camera
read_config s c =
    if s.stop_requested
    then record c { phase = Phase.finished }
    else if not (ltb c.consecutive_failures max_consecutive_failures)
    then record c { slept_ms = 10000; phase = Phase.resting }
    else if s.version == 0
    then record c { seen_version = s.version; phase = Phase.head }
    else if video_mode_eq s.desired.video_mode VideoMode.mono && int_eq c.sensor_id (pos 1)
    then record c { seen_version = s.version; slept_ms = 1000; phase = Phase.head }
    else record c { seen_version = s.version; phase = Phase.building s.desired }

-- After the long sleep.
unfoldable pub wake : Shared → Camera → Camera
wake s c =
    if s.version == c.seen_version
    then record c { phase = Phase.head }
    else record c { consecutive_failures = 0; phase = Phase.head }

-- Build and start; `plays` is whether the pipeline could be set PLAYING.
unfoldable pub start_pipeline : Gst → (plays : Bool) → StreamingConfig → Camera → Camera
start_pipeline g plays cfg c = elim (build_camera_pipeline g c.sensor_id cfg) [
  | none ↦ one_more_failure c
  | some p ↦
      if plays
      then record c {
        consecutive_failures = 0;
        current_config = cfg;
        phase = Phase.streaming (record { pipeline = p; swaps = [] });
      }
      else one_more_failure c
]

-- A round of the streaming loop up to the load of the version; `errored` is whether the bus had an
-- error or the end of the stream.
unfoldable pub poll : Shared → (errored : Bool) → Running → Camera → Camera
poll s errored r c =
    if s.stop_requested
    then record c { phase = Phase.teardown false false }
    else if not (s.version == c.seen_version)
    then record c { phase = Phase.noticed r errored s.version }
    else if errored
    then record c { phase = Phase.teardown true true }
    else record c { phase = Phase.streaming r }

abbrev pub arm : Option StreamingConfig → List StreamingConfig → List StreamingConfig
arm none swaps = swaps
arm (some cfg) swaps = swaps ++ (cfg ∷ [])

-- The rest of the round: the new configuration is read and applied.
unfoldable pub apply_config : Gst → Shared → Running → (errored : Bool) → ℕ → Camera → Camera
apply_config g s r errored current_version c =
    let updated = update_pipeline_properties g r.pipeline c.current_config s.desired in
    let seen : Camera = record c { seen_version = current_version } in
    let next : Running = record {
      pipeline = updated.pipeline;
      swaps = arm updated.pending r.swaps;
    } in
    if can_update_dynamically c.current_config s.desired
    then if updated.success
      then record seen {
        current_config = s.desired;
        phase = if errored then Phase.teardown true true else Phase.streaming next;
      }
      else record seen { phase = Phase.teardown true errored }
    else record seen { phase = Phase.teardown true errored }

-- The pipeline is stopped; its swaps go with it.
unfoldable pub stop_pipeline : Shared → (rebuild errored : Bool) → Camera → Camera
stop_pipeline s rebuild errored c =
    if rebuild && not s.stop_requested
    then if errored
      then one_more_failure c
      else if ltb 0 c.consecutive_failures
      then record c { slept_ms = backoff_ms c.consecutive_failures; phase = Phase.head }
      else record c { slept_ms = 500; phase = Phase.head }
    else record c { phase = Phase.head }

-- A buffer reaches the pad: the oldest swap runs, and the thread stands where it stood.
abbrev pub after_swap : Swap → List StreamingConfig → (Running → Phase) → Phase
after_swap (Swap.swapped p key_frame) swaps stand = stand (record { pipeline = p; swaps = swaps })
after_swap Swap.uncaught swaps stand = Phase.crashed

unfoldable pub run_swap : Gst → Running → (Running → Phase) → Phase
run_swap g r stand = elim r.swaps [
  | [] ↦ stand r
  | cfg ∷ swaps ↦ after_swap (swap_encoder_probe g r.pipeline cfg) swaps stand
]

-- One piece of the thread, by where it stands. `plays` and `errored` are what GStreamer answers.
unfoldable pub advance : Gst → (plays errored : Bool) → Shared → Camera → Camera
advance g plays errored s c = elim c.phase [
  | Phase.head ↦ read_config s c
  | Phase.resting ↦ wake s c
  | Phase.finished ↦ c
  | Phase.crashed ↦ c
  | Phase.building cfg ↦ start_pipeline g plays cfg c
  | Phase.streaming r ↦ poll s errored r c
  | Phase.noticed r e v ↦ apply_config g s r e v c
  | Phase.teardown b e ↦ stop_pipeline s b e c
]

-- The swap may run while the thread streams or is about to apply a configuration.
unfoldable pub buffer_flows : Gst → Camera → Camera
buffer_flows g c = elim c.phase [
  | Phase.streaming r ↦ record c { phase = run_swap g r Phase.streaming }
  | Phase.noticed r e v ↦ record c { phase = run_swap g r (λ q. Phase.noticed q e v) }
  | _ ↦ c
]
