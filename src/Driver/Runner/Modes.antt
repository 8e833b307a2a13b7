-- ===== src/Driver/Runner/Modes.antt =====
-- RunCameraStreaming of streaming_driver/main.cpp, which chooses the threads once, and what panoramic
-- mode does with the configurations of another mode.
use but_telepresence.Prelude.{
  ◌≡◌, refl, false, Option, none, some, List, [], ◌∷◌, if◌then◌else◌, ◌==◌, arith, All,
}
use but_telepresence.Driver.Config.{StreamingConfig, VideoMode, video_mode_eq}
use but_telepresence.Driver.Pipeline.{Gst}
use but_telepresence.Driver.Camera.{Shared, Line, publish, config_of, control_loop}
use but_telepresence.Driver.Runner.{
  Phase, Listener, Runner, advance, read_config, receive, force_key_frame, buffer_flows, Move, move,
  run,
}

-- What RunCameraStreaming does with the shared state that it finds.
pub data Started : Type 0 where
  waits returns panoramic per_camera : Started

unfoldable pub run_camera_streaming : Shared → Started
run_camera_streaming s =
    if s.stop_requested
    then Started.returns
    else if s.version == 0
    then Started.waits
    else if video_mode_eq s.desired.video_mode VideoMode.panoramic
    then Started.panoramic
    else Started.per_camera

-- The line asks for no panoramic stream.
abbrev pub IsOther : Option StreamingConfig → Type 0
IsOther none = Unit {0}
IsOther (some cfg) = video_mode_eq cfg.video_mode VideoMode.panoramic ≡ false

abbrev pub AsksOther : Move → Type 0
AsksOther (Move.reads (Line.update json)) = IsOther (config_of json)
AsksOther _ = Unit {0}

abbrev pub IsParked : Phase → Type 0
IsParked Phase.head = Unit {0}
IsParked Phase.finished = Unit {0}
IsParked _ = ⊥

-- The thread is between two pipelines, and the published configuration is of another mode.
pub record IsLeft (s : Shared) (r : Runner) : Type 0 where
  pub other : video_mode_eq s.desired.video_mode VideoMode.panoramic ≡ false
  pub alive : r.alive ≡ none
  pub parked : IsParked r.phase

advance-IsLeft :
    (g : Gst) (m : Move) (s : Shared) (r : Runner) (p : Phase)
    → r.phase ≡ p
    → IsParked p
    → IsLeft s r
    → AsksOther m
    → IsLeft (move g m (s, r)).0 (move g m (s, r)).1
unfolding advance read_config receive force_key_frame buffer_flows control_loop
advance-IsLeft g (Move.reads (Line.update json)) s r p e k v h = publishes (config_of json) h
  where
    publishes : (o : Option StreamingConfig) → IsOther o → IsLeft (publish o s) r
    publishes none i = v
    publishes (some cfg) i = record { other = i; alive = v.alive; parked = v.parked }
advance-IsLeft g (Move.reads Line.stop) s r p e k v h = record {
  other = v.other;
  alive = v.alive;
  parked = v.parked;
}
advance-IsLeft g (Move.reads Line.closed) s r p e k v h = record {
  other = v.other;
  alive = v.alive;
  parked = v.parked;
}
advance-IsLeft g (Move.reads _) s r p e k v h = v
advance-IsLeft g (Move.advances a) s r Phase.head e k v h = rw (e, advance) (ground (arith, v))
advance-IsLeft g (Move.advances a) s r Phase.finished e k v h = rw (e, advance) v
advance-IsLeft g (Move.advances a) s r _ e k v h = absurd k
advance-IsLeft g (Move.receives found target) s r p e k v h = listens r.listener refl
  where
    listens : (l : Listener) → r.listener ≡ l → IsLeft s (receive found target r)
    listens Listener.waiting q =
        rw (q, receive) (record { other = v.other; alive = v.alive; parked = v.parked })
    listens _ q = rw (q, receive) v
advance-IsLeft g Move.forces s r p e k v h = listens r.listener refl
  where
    listens : (l : Listener) → r.listener ≡ l → IsLeft s (force_key_frame s r)
    listens Listener.waiting q = rw (q, force_key_frame) v
    listens _ q =
        rw (q, force_key_frame) (record { other = v.other; alive = v.alive; parked = v.parked })
advance-IsLeft g Move.flows s r p e k v h = record {
  other = v.other;
  alive = v.alive;
  parked = v.parked;
}

-- The mode is chosen once: when the driver has started in panoramic mode and the thread is between
-- two pipelines with a configuration of another mode published, it makes no pipeline, in whatever
-- interleaving, as long as no panoramic configuration comes.
pub run-IsLeft :
    (g : Gst) (ms : List Move) (s : Shared) (r : Runner)
    → IsLeft s r
    → All AsksOther ms
    → IsLeft (run g ms (s, r)).0 (run g ms (s, r)).1
unfolding run
run-IsLeft g [] s r v h = v
run-IsLeft g (m ∷ ms) s r v h =
    run-IsLeft g ms (move g m (s, r)).0 (move g m (s, r)).1
      (advance-IsLeft g m s r r.phase refl v.parked v h.0) h.1
