-- ===== src/Driver/Camera/Stops.antt =====
-- The end of a camera thread of streaming_driver/main.cpp.
use but_telepresence.Prelude.{
  ℕ, ◌-◌, ◌≤◌, ◌≡◌, refl, Bool, true, false, List, [], ◌∷◌, arith, length, if◌then◌else◌,
}
use but_telepresence.Driver.Config.{StreamingConfig}
use but_telepresence.Driver.Pipeline.{Gst, Swap, swap_encoder_probe}
use but_telepresence.Driver.Camera.{
  Shared, Running, Phase, Camera, advance, read_config, wake, start_pipeline, poll, apply_config,
  stop_pipeline, buffer_flows, run_swap, after_swap,
}

-- How many pieces the thread makes at most, once a stop is requested.
abbrev pub pieces_left : Phase → ℕ
pieces_left Phase.finished = 0
pieces_left Phase.crashed = 0
pieces_left Phase.head = 1
pieces_left Phase.resting = 2
pieces_left (Phase.teardown b e) = 2
pieces_left (Phase.streaming r) = 3
pieces_left (Phase.noticed r e v) = 4
pieces_left (Phase.building cfg) = 4

advance-pieces_left :
    (g : Gst) (plays errored : Bool) (s : Shared) (c : Camera) (p : Phase)
    → s.stop_requested ≡ true
    → c.phase ≡ p
    → pieces_left (advance g plays errored s c).phase ≤ pieces_left p - 1
unfolding advance read_config wake start_pipeline poll apply_config stop_pipeline
advance-pieces_left g plays errored s c Phase.finished h e = rw (e, advance) (rw e (omega arith))
advance-pieces_left g plays errored s c Phase.crashed h e = rw (e, advance) (rw e (omega arith))
advance-pieces_left g plays errored s c _ h e = rw (e, advance) (ground (arith, h))

after_swap-pieces_left :
    (w : Swap) (swaps : List StreamingConfig) (stand : Running → Phase) (n : ℕ)
    → ((r : Running) → pieces_left (stand r) ≡ n)
    → pieces_left (after_swap w swaps stand) ≤ n
after_swap-pieces_left (Swap.swapped p k) swaps stand n h =
    let e = h (record { pipeline = p; swaps = swaps }) in omega (arith, e)
after_swap-pieces_left Swap.uncaught swaps stand n h = omega arith

run_swap-pieces_left :
    (g : Gst) (r : Running) (l : List StreamingConfig) (stand : Running → Phase) (n : ℕ)
    → r.swaps ≡ l
    → ((q : Running) → pieces_left (stand q) ≡ n)
    → pieces_left (run_swap g r stand) ≤ n
unfolding run_swap
run_swap-pieces_left g r [] stand n e h = let k = h r in rw (e, run_swap) (omega (arith, k))
run_swap-pieces_left g r (cfg ∷ swaps) stand n e h =
    rw (e, run_swap) (after_swap-pieces_left (swap_encoder_probe g r.pipeline cfg) swaps stand n h)

-- A buffer brings the thread no further from its end.
buffer_flows-pieces_left :
    (g : Gst) (c : Camera) (p : Phase)
    → c.phase ≡ p
    → pieces_left (buffer_flows g c).phase ≤ pieces_left p
unfolding buffer_flows
buffer_flows-pieces_left g c (Phase.streaming r) e =
    rw (e, buffer_flows) (run_swap-pieces_left g r r.swaps _ 3 refl (λ q. refl))
buffer_flows-pieces_left g c (Phase.noticed r b v) e =
    rw (e, buffer_flows) (run_swap-pieces_left g r r.swaps _ 4 refl (λ q. refl))
buffer_flows-pieces_left g c _ e = rw (e, buffer_flows) (rw e (omega arith))

-- A piece of the thread: whether a buffer reaches a pad before it, and what GStreamer answers.
pub record Answers : Type 0 where
  pub flows : Bool
  pub plays : Bool
  pub errored : Bool

abbrev pub turn : Gst → Answers → Shared → Camera → Camera
turn g a s c = advance g a.plays a.errored s (if a.flows then buffer_flows g c else c)

unfoldable pub turns : Gst → List Answers → Shared → Camera → Camera
turns g [] s c = c
turns g (a ∷ answers) s c = turns g answers s (turn g a s c)

turn-pieces_left :
    (g : Gst) (a : Answers) (s : Shared) (c : Camera)
    → s.stop_requested ≡ true
    → pieces_left (turn g a s c).phase ≤ pieces_left c.phase - 1
turn-pieces_left g a s c h = go a.flows
  where
    go :
        (b : Bool)
        → pieces_left (advance g a.plays a.errored s (if b then buffer_flows g c else c)).phase
          ≤ pieces_left c.phase - 1
    go true =
        let d = buffer_flows-pieces_left g c c.phase refl in
        let e =
          advance-pieces_left g a.plays a.errored s (buffer_flows g c) (buffer_flows g c).phase h
            refl in
        omega (arith, d, e)
    go false = advance-pieces_left g a.plays a.errored s c c.phase h refl

turns-pieces_left :
    (g : Gst) (answers : List Answers) (s : Shared) (c : Camera)
    → s.stop_requested ≡ true
    → pieces_left c.phase ≤ length answers
    → pieces_left (turns g answers s c).phase ≡ 0
unfolding turns
turns-pieces_left g [] s c h b = omega (arith, b)
turns-pieces_left g (a ∷ answers) s c h b =
    turns-pieces_left g answers s (turn g a s c) h (omega (arith, b, turn-pieces_left g a s c h))

pieces_left_le : (p : Phase) → pieces_left p ≤ 4
pieces_left_le Phase.head = omega arith
pieces_left_le _ = omega arith

-- Whether the thread returned, or an exception left it or a probe of its pipeline.
abbrev pub HasEnded : Phase → Type 0
HasEnded Phase.finished = Unit {0}
HasEnded Phase.crashed = Unit {0}
HasEnded _ = ⊥

ended : (p : Phase) → pieces_left p ≡ 0 → HasEnded p
ended Phase.finished e = tt
ended Phase.crashed e = tt
ended Phase.head e = absurd (omega (arith, e))
ended _ e = absurd (omega (arith, e))

-- Once a stop is requested a camera thread ends, wherever it stands, whatever GStreamer answers and
-- whenever the swaps that wait run: four pieces are enough.
pub turns-HasEnded :
    (g : Gst) (answers : List Answers) (s : Shared) (c : Camera)
    → s.stop_requested ≡ true
    → 4 ≤ length answers
    → HasEnded (turns g answers s c).phase
turns-HasEnded g answers s c h b =
    ended (turns g answers s c).phase
      (turns-pieces_left g answers s c h (omega (arith, b, pieces_left_le c.phase)))
