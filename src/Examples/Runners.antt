-- ===== src/Examples/Runners.antt =====
-- The two threads of panoramic mode in streaming_driver/main.cpp, and the end of the threads.
use but_telepresence.Prelude.{◌≡◌, refl, true, false, Option, none, some, List, [], ◌∷◌, arith, All}
use but_telepresence.Prelude.Int.{pos}
use but_telepresence.Prelude.Text.{str_eq}
use but_telepresence.Driver.Config.{VideoMode, StreamingConfig, can_update_dynamically}
use but_telepresence.Driver.Elements.{
  Element, get_panoramic_streaming_pipeline, get_encoder_tail_description, encoder_tail_for,
}
use but_telepresence.Driver.Pipeline.{update_pipeline_properties}
use but_telepresence.Driver.Pipeline.Panoramic.{Rebuilds, as_pipeline, panoramic_rebuilds}
use but_telepresence.Driver.Camera.{Shared, Line}
use but_telepresence.Driver.Camera.Stops as CameraStops
use but_telepresence.Driver.Runner.{Stream, Phase, Listener, Runner, Answers, Move, run}
use but_telepresence.Driver.Runner.Pieces.{IsTracked, IsOwned}
use but_telepresence.Driver.Runner.Lifetimes.{run-IsOwned}
use but_telepresence.Driver.Runner.Stops.{HasEnded, pieces, pieces-HasEnded}
use but_telepresence.Driver.Runner.Released.{late_registration, late_registration_lem}
use but_telepresence.Driver.Runner.Going.{IsServed, IsGood}
use but_telepresence.Driver.Runner.Settles.{IsQuiet, Streams, run-Streams}
use but_telepresence.Driver.Runner.Modes.{Started, run_camera_streaming, IsLeft, run-IsLeft}
use but_telepresence.Examples.Streaming.{h264_config, all_works}
use but_telepresence.Examples.Cameras.{camera_0}
use but_telepresence.Examples.Panoramas.{fresh, fresh-Inv}

abbrev panoramic_config : StreamingConfig
panoramic_config = record h264_config { video_mode = VideoMode.panoramic }

abbrev faster : StreamingConfig
faster = record panoramic_config { bitrate = pos 9000000 }

abbrev elements_of : Option (List Element) → List Element
elements_of none = []
elements_of (some es) = es

abbrev elements : List Element
elements = elements_of (get_panoramic_streaming_pipeline panoramic_config (5, 0, 1))

elements_described : get_panoramic_streaming_pipeline panoramic_config (5, 0, 1) ≡ some elements
unfolding get_panoramic_streaming_pipeline get_encoder_tail_description encoder_tail_for
elements_described = refl

panoramic_rebuilds_example :
    Rebuilds
      (update_pipeline_properties all_works (as_pipeline elements) panoramic_config faster)
      (get_panoramic_streaming_pipeline faster (5, 0, 1))
unfolding can_update_dynamically str_eq
panoramic_rebuilds_example =
    panoramic_rebuilds all_works panoramic_config faster (5, 0, 1) elements refl refl
      elements_described

abbrev asked : Shared
asked = record { desired = panoramic_config; version = 1; stop_requested = false }

abbrev runner_0 : Runner
runner_0 = record {
  seen_version = 0;
  panorama = record fresh { attached = false };
  registered = none;
  alive = none;
  made = 0;
  slept_ms = 0;
  phase = Phase.head;
  listener = Listener.waiting;
  used_released = false;
}

runner_0-IsTracked : IsTracked 1 asked runner_0
runner_0-IsTracked = record {
  window = record { window = fresh-Inv.window; active = fresh-Inv.active; pending = tt };
  version = omega arith;
  seen = omega arith;
  holds = record { alive = refl; detached = refl; calm = refl };
}

abbrev works : Answers
works = record { parses = true; has_selector = true; plays = true; errored = false }

abbrev refuses : Answers
refuses = record works { plays = false }

-- Up to the stream, with a swap to camera 3 and a line that stops the driver.
abbrev session : List Move
session =
    Move.advances works
    ∷ Move.advances works
    ∷ Move.advances works
    ∷ Move.advances works
    ∷ Move.advances works
    ∷ Move.advances works
    ∷ Move.receives true 3
    ∷ Move.reads Line.stop
    ∷ Move.flows
    ∷ Move.advances works
    ∷ []

run-IsOwned_example :
    IsTracked 11
      (run all_works session (asked, runner_0)).0
      (run all_works session (asked, runner_0)).1
    × IsOwned (run all_works session (asked, runner_0)).1
run-IsOwned_example =
    run-IsOwned all_works session 1 (asked, runner_0) (omega arith) runner_0-IsTracked

abbrev stopped : Shared
stopped = record asked { stop_requested = true }

abbrev ten : List Answers
ten = works ∷ works ∷ works ∷ works ∷ works ∷ works ∷ works ∷ works ∷ works ∷ works ∷ []

pieces-HasEnded_example : HasEnded (pieces all_works ten stopped runner_0).phase
pieces-HasEnded_example = pieces-HasEnded all_works ten stopped runner_0 refl (omega arith)

abbrev turn : CameraStops.Answers
turn = record { flows = true; plays = true; errored = true }

turns-HasEnded_example :
    CameraStops.HasEnded
      (CameraStops.turns all_works (turn ∷ turn ∷ turn ∷ turn ∷ []) stopped camera_0).phase
turns-HasEnded_example =
    CameraStops.turns-HasEnded all_works (turn ∷ turn ∷ turn ∷ turn ∷ []) stopped camera_0 refl
      (omega arith)

abbrev first_stream : Stream
first_stream = record { number = 0; config = panoramic_config; pipeline = as_pipeline elements }

-- The first pipeline is about to start.
abbrev about_to_start : Runner
about_to_start = record runner_0 {
  seen_version = 1;
  panorama = fresh;
  registered = some 0;
  alive = some 0;
  made = 1;
  phase = Phase.starting first_stream;
}

late_registration_lem_example :
    (run all_works (late_registration refuses works) (asked, about_to_start)).1.used_released ≡ true
late_registration_lem_example =
    late_registration_lem all_works refuses works elements asked first_stream about_to_start
      (record {
        goes_on = refl;
        published = refl;
        panoramic = refl;
        key_frames = refl;
        described = elements_described;
      })
      refl refl refl refl refl refl (omega arith)

-- The driver started in panoramic mode, and a stereo configuration is published.
started_panoramic : run_camera_streaming asked ≡ Started.panoramic
unfolding run_camera_streaming
started_panoramic = refl

abbrev left : Shared
left = record asked { desired = h264_config; version = 2 }

run-IsLeft_example :
    IsLeft (run all_works session (left, runner_0)).0 (run all_works session (left, runner_0)).1
run-IsLeft_example =
    run-IsLeft all_works session left runner_0 (record { other = refl; alive = refl; parked = tt })
      (tt, (tt, (tt, (tt, (tt, (tt, (tt, (tt, (tt, (tt, tt))))))))))

-- Sixteen pieces, with a swap to camera 3 between them.
abbrev quiet : List Move
quiet =
    Move.advances works
    ∷ Move.advances works
    ∷ Move.advances works
    ∷ Move.advances works
    ∷ Move.advances works
    ∷ Move.advances works
    ∷ Move.receives true 3
    ∷ Move.flows
    ∷ Move.advances works
    ∷ Move.advances works
    ∷ Move.advances works
    ∷ Move.advances works
    ∷ Move.advances works
    ∷ Move.advances works
    ∷ Move.advances works
    ∷ Move.advances works
    ∷ Move.advances works
    ∷ Move.advances works
    ∷ []

works-IsGood : IsGood works
works-IsGood = record { parses = refl; has_selector = refl; plays = refl; errored = refl }

quiet-IsQuiet : All IsQuiet quiet
quiet-IsQuiet =
    let w = works-IsGood in
    (w, (w, (w, (w, (w, (w, (tt, (tt, (w, (w, (w, (w, (w, (w, (w, (w, (w, (w, tt))))))))))))))))))

asked-IsServed : IsServed asked
unfolding get_encoder_tail_description encoder_tail_for
asked-IsServed = record { goes_on = refl; published = refl; panoramic = refl; supported = λ e. cc }

run-Streams_example : Streams asked (run all_works quiet (asked, runner_0)).1
run-Streams_example =
    run-Streams all_works quiet 1 asked runner_0 asked-IsServed (omega arith) runner_0-IsTracked tt
      quiet-IsQuiet (omega arith)
