-- ===== src/Driver/Runner/Stops.antt =====
-- The end of the panoramic thread of streaming_driver/main.cpp.
use but_telepresence.Prelude.{ℕ, ◌-◌, ◌≤◌, ◌≡◌, refl, true, List, [], ◌∷◌, arith, length}
use but_telepresence.Driver.Pipeline.{Gst}
use but_telepresence.Driver.Camera.{Shared}
use but_telepresence.Driver.Runner.{
  Phase, Runner, Answers, advance, read_config, build, poll, apply_config, clear,
}

-- How many pieces the thread makes at most, once a stop is requested.
abbrev pub pieces_left : Phase → ℕ
pieces_left Phase.finished = 0
pieces_left Phase.crashed = 0
pieces_left Phase.head = 1
pieces_left (Phase.clearing b) = 2
pieces_left Phase.abandoning = 2
pieces_left Phase.discarding = 2
pieces_left (Phase.stopping b) = 3
pieces_left Phase.failing = 3
pieces_left (Phase.detaching b) = 4
pieces_left (Phase.streaming t) = 5
pieces_left (Phase.noticed t e v) = 6
pieces_left (Phase.starting t) = 6
pieces_left (Phase.registering t) = 7
pieces_left (Phase.attaching t) = 8
pieces_left (Phase.building cfg) = 9
pieces_left (Phase.resetting cfg) = 10

advance-pieces_left :
    (g : Gst) (a : Answers) (s : Shared) (r : Runner) (p : Phase)
    → s.stop_requested ≡ true
    → r.phase ≡ p
    → pieces_left (advance g a s r).phase ≤ pieces_left p - 1
unfolding advance read_config build poll apply_config clear
advance-pieces_left g a s r Phase.head h e = rw (e, advance) (ground (arith, h))
advance-pieces_left g a s r Phase.finished h e = rw (e, advance) (rw e (omega arith))
advance-pieces_left g a s r Phase.crashed h e = rw (e, advance) (rw e (omega arith))
advance-pieces_left g a s r _ h e = rw (e, advance) (ground (arith, h))

pieces_left_le : (p : Phase) → pieces_left p ≤ 10
pieces_left_le Phase.head = omega arith
pieces_left_le _ = omega arith

-- The pieces of the thread, each with what GStreamer answers.
unfoldable pub pieces : Gst → List Answers → Shared → Runner → Runner
pieces g [] s r = r
pieces g (a ∷ answers) s r = pieces g answers s (advance g a s r)

pieces-pieces_left :
    (g : Gst) (answers : List Answers) (s : Shared) (r : Runner)
    → s.stop_requested ≡ true
    → pieces_left r.phase ≤ length answers
    → pieces_left (pieces g answers s r).phase ≡ 0
unfolding pieces
pieces-pieces_left g [] s r h b = omega (arith, b)
pieces-pieces_left g (a ∷ answers) s r h b =
    pieces-pieces_left g answers s (advance g a s r) h
      (omega (arith, b, advance-pieces_left g a s r r.phase h refl))

-- Whether RunPanoramicPipeline returned, or an exception left it.
abbrev pub HasEnded : Phase → Type 0
HasEnded Phase.finished = Unit {0}
HasEnded Phase.crashed = Unit {0}
HasEnded _ = ⊥

ended : (p : Phase) → pieces_left p ≡ 0 → HasEnded p
ended Phase.finished e = tt
ended Phase.crashed e = tt
ended Phase.head e = absurd (omega (arith, e))
ended _ e = absurd (omega (arith, e))

-- Once a stop is requested the thread ends, wherever it stands and whatever GStreamer answers: ten
-- pieces are enough.
pub pieces-HasEnded :
    (g : Gst) (answers : List Answers) (s : Shared) (r : Runner)
    → s.stop_requested ≡ true
    → 10 ≤ length answers
    → HasEnded (pieces g answers s r).phase
pieces-HasEnded g answers s r h b =
    ended (pieces g answers s r).phase
      (pieces-pieces_left g answers s r h (omega (arith, b, pieces_left_le r.phase)))
