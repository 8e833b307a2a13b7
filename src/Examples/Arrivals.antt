-- ===== src/Examples/Arrivals.antt =====
-- A camera thread of streaming_driver/main.cpp that is left alone with a configuration.
use but_telepresence.Prelude.{refl, true, false, List, [], ◌∷◌, arith}
use but_telepresence.Headset.Config.{default_config}
use but_telepresence.Driver.Camera.{Shared, Phase, Camera, control_loop}
use but_telepresence.Driver.Camera.Pieces.{IsCurrent}
use but_telepresence.Driver.Camera.Stops.{Answers, turns}
use but_telepresence.Link.Arrival.{pushed_line, StreamsPushed, pushed-StreamsPushed}
use but_telepresence.Examples.Streaming.{h264_config, all_works, all_works-Works}
use but_telepresence.Examples.Cameras.{camera_0}
use but_telepresence.Examples.Clicks.{default-IsUsable}

abbrev asked : Shared
asked = record { desired = h264_config; version = 1; stop_requested = false }

abbrev turn : Answers
turn = record { flows = true; plays = true; errored = false }

abbrev six : List Answers
six = turn ∷ turn ∷ turn ∷ turn ∷ turn ∷ turn ∷ []

-- Five starts failed.
abbrev given_up : Camera
given_up = record camera_0 {
  seen_version = 1;
  consecutive_failures = 5;
  slept_ms = 10000;
  phase = Phase.resting;
}

given_up-IsCurrent : IsCurrent 1 asked given_up
given_up-IsCurrent = record {
  version = omega arith;
  seen = omega arith;
  failures = omega arith;
  knows = tt;
}

pushed-StreamsPushed_example :
    StreamsPushed all_works default_config
      (control_loop (pushed_line default_config) asked)
      (turns all_works six (control_loop (pushed_line default_config) asked) given_up)
pushed-StreamsPushed_example =
    pushed-StreamsPushed all_works 1 six asked given_up default_config all_works-Works
      default-IsUsable (unfold default_config in refl) refl (omega arith) given_up-IsCurrent tt tt
      (
        (refl, refl),
        ((refl, refl), ((refl, refl), ((refl, refl), ((refl, refl), ((refl, refl), tt))))),
      )
      (omega arith)
