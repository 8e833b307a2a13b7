-- ===== src/Driver/Runner/Settles.antt =====
-- The panoramic thread of streaming_driver/main.cpp that is left alone with a configuration, while
-- the listener and the probes go on.
use but_telepresence.Prelude.{
  ℕ, suc, ◌+◌, ◌-◌, ◌≤◌, ◌<◌, ◌^◌, ◌≡◌, refl, subst, Bool, true, List, [], ◌∷◌, arith, length, ◌==◌,
  All,
}
use but_telepresence.Driver.Config.{StreamingConfig}
use but_telepresence.Driver.Pipeline.{Gst}
use but_telepresence.Driver.Camera.{Shared}
use but_telepresence.Driver.Runner.{
  Phase, Listener, Runner, advance, receive, force_key_frame, buffer_flows, Move, run,
}
use but_telepresence.Driver.Runner.Pieces.{Holds, IsTracked}
use but_telepresence.Driver.Runner.Lifetimes.{run-IsOwned}
use but_telepresence.Driver.Runner.Going.{
  IsServed, IsBuilt, IsGoing, left, Nears, IsGood, advance-Nears,
}

-- A move that reads no line: a piece in which all goes well, or a move of the listener or a buffer.
abbrev pub IsQuiet : Move → Type 0
IsQuiet (Move.reads l) = ⊥
IsQuiet (Move.advances a) = IsGood a
IsQuiet _ = Unit {0}

-- How many of the moves are pieces of the thread.
abbrev pub pieces_of : List Move → ℕ
pieces_of [] = 0
pieces_of (Move.advances a ∷ ms) = suc (pieces_of ms)
pieces_of (_ ∷ ms) = pieces_of ms

abbrev pub IsStreaming : StreamingConfig → Phase → Type 0
IsStreaming cfg (Phase.streaming t) = (t.config ≡ cfg) × IsBuilt t
IsStreaming cfg _ = ⊥

-- The thread streams the published configuration, with the pipeline that is described for it.
pub record Streams (s : Shared) (r : Runner) : Type 0 where
  pub seen : r.seen_version ≡ s.version
  pub streaming : IsStreaming s.desired r.phase

none_left :
    (s : Shared) (r : Runner) (p : Phase)
    → r.phase ≡ p
    → Holds s r p
    → IsGoing p
    → left s.version r.seen_version p ≡ 0
    → Streams s r
none_left s r (Phase.streaming t) e k h l =
    let b : (s.version == r.seen_version) ≡ true = ground (arith, l) in
    let v : r.seen_version ≡ s.version = ground (arith, b) in
    record { seen = v; streaming = rw e (k.2 v, h) }
none_left s r Phase.finished e k h l = absurd h
none_left s r Phase.crashed e k h l = absurd h
none_left s r _ e k h l = absurd (ground (arith, l))

left_le : (version seen : ℕ) (p : Phase) → left version seen p ≤ 16
left_le v n p = ground arith

-- The listener and the probes leave the thread where it stands.
receive-Nears :
    (found : Bool) (target : ℕ) (s : Shared) (r : Runner) (most : ℕ) (l : Listener)
    → r.listener ≡ l
    → Nears s r most
    → Nears s (receive found target r) most
unfolding receive
receive-Nears found target s r most Listener.waiting e v =
    simp (e, receive) (record { going = v.going; nearer = v.nearer })
receive-Nears found target s r most _ e v = simp (e, receive) v

force_key_frame-Nears :
    (s : Shared) (r : Runner) (most : ℕ) (l : Listener)
    → r.listener ≡ l
    → Nears s r most
    → Nears s (force_key_frame s r) most
unfolding force_key_frame
force_key_frame-Nears s r most Listener.waiting e v = simp (e, force_key_frame) v
force_key_frame-Nears s r most _ e v =
    simp (e, force_key_frame) (record { going = v.going; nearer = v.nearer })

run-Nears :
    (g : Gst) (ms : List Move) (s : Shared) (r : Runner) (most : ℕ)
    → IsServed s
    → All IsQuiet ms
    → Nears s r most
    → ((run g ms (s, r)).0 ≡ s) × Nears s (run g ms (s, r)).1 (most - pieces_of ms)
unfolding run buffer_flows
run-Nears g [] s r most w h v =
    (refl, record { going = v.going; nearer = let b = v.nearer in omega (arith, b) })
run-Nears g (Move.reads l ∷ ms) s r most w h v = absurd h.0
run-Nears g (Move.advances a ∷ ms) s r most w h v =
    let u = advance-Nears g a s r h.0 w r.phase refl v.going in
    let t = run-Nears g ms s (advance g a s r) (most - 1) w h.1 (record {
      going = u.going;
      nearer = let b = v.nearer in let d = u.nearer in omega (arith, b, d);
    }) in
    (t.0, record { going = t.1.going; nearer = let b = t.1.nearer in omega (arith, b) })
run-Nears g (Move.receives found target ∷ ms) s r most w h v =
    run-Nears g ms s (receive found target r) most w h.1
      (receive-Nears found target s r most r.listener refl v)
run-Nears g (Move.forces ∷ ms) s r most w h v =
    run-Nears g ms s (force_key_frame s r) most w h.1
      (force_key_frame-Nears s r most r.listener refl v)
run-Nears g (Move.flows ∷ ms) s r most w h v =
    run-Nears g ms s (buffer_flows r) most w h.1 (record { going = v.going; nearer = v.nearer })

-- A published configuration is streamed in panoramic mode: if it is panoramic, its codec has an
-- encoder tail, no stop is requested, the thread has not ended and is not about to describe a codec
-- without an encoder tail, a pipeline that it has in hand is the one described for its configuration,
-- and what run-IsOwned says of every interleaving holds, then after any
-- moves of the thread, the listener and the probes with sixteen pieces of the thread or more, in
-- which GStreamer makes and starts the pipelines without an error and no line comes, the thread
-- streams that configuration with the pipeline that is described for it and some three cameras,
-- wherever it stands before.
pub run-Streams :
    (g : Gst) (ms : List Move) (n : ℕ) (s : Shared) (r : Runner)
    → IsServed s
    → n + length ms < 2 ^ 64
    → IsTracked n s r
    → IsGoing r.phase
    → All IsQuiet ms
    → 16 ≤ pieces_of ms
    → Streams s (run g ms (s, r)).1
run-Streams g ms n s r w b v h q l =
    let t =
      run-Nears g ms s r 16 w q
        (record { going = h; nearer = left_le s.version r.seen_version r.phase }) in
    let u = (run-IsOwned g ms n (s, r) b v).0 in
    let k = t.1.nearer in
    none_left s (run g ms (s, r)).1 (run g ms (s, r)).1.phase refl
      (subst (λ x. Holds x (run g ms (s, r)).1 (run g ms (s, r)).1.phase) t.0 u.holds) t.1.going
      (omega (arith, k, l))
