-- ===== src/Driver/Camera/Settles.antt =====
-- A camera thread of streaming_driver/main.cpp that is left alone with a configuration.
use but_telepresence.Prelude.{
  ℕ, ◌-◌, ◌≤◌, ◌≡◌, refl, sym, subst, ◌∙◌, Bool, true, false, List, [], ◌∷◌, arith, length,
  if◌then◌else◌, ◌==◌, All,
}
use but_telepresence.Prelude.Int.{ℤ}
use but_telepresence.Driver.Config.{StreamingConfig}
use but_telepresence.Driver.Pipeline.{Gst, Pipeline, Swap, swap_encoder_probe}
use but_telepresence.Driver.Camera.{
  Shared, Running, Phase, Camera, advance, buffer_flows, run_swap, after_swap,
}
use but_telepresence.Driver.Camera.Pieces.{Knows, IsCurrent, advance-IsCurrent}
use but_telepresence.Driver.Camera.Updates.{flows-IsCurrent}
use but_telepresence.Driver.Camera.Stops.{Answers, turn, turns}
use but_telepresence.Driver.Camera.Going.{
  IsSupported, IsServed, IsGoing, left, Nears, advance-Nears,
}

stays :
    (s : Shared) (c : Camera) (p : Phase)
    → c.phase ≡ p
    → IsGoing s c p
    → Nears s c.sensor_id c (left s c p)
stays s c p e h = record {
  camera = refl;
  going = subst (IsGoing s c) (sym e) h;
  nearer = simp e (omega arith);
}

swap-succeeds :
    (g : Gst) (p : Pipeline) (cfg : StreamingConfig)
    → IsSupported cfg
    → (swap_encoder_probe g p cfg ≡ Swap.uncaught → ⊥)
unfolding swap_encoder_probe
swap-succeeds g p cfg h e = ground (arith, h, e)

module _ (g : Gst) (s : Shared) (c : Camera) (stand : Running → Phase) (k : ℕ)
    (h : (r : Running) → All IsSupported r.swaps → IsGoing s c (stand r))
    (l : (r : Running) → left s c (stand r) ≡ k) where
  after_swap-Nears :
      (w : Swap) (swaps : List StreamingConfig)
      → (w ≡ Swap.uncaught → ⊥)
      → All IsSupported swaps
      → (IsGoing s c (after_swap w swaps stand)) × (left s c (after_swap w swaps stand) ≤ k)
  after_swap-Nears (Swap.swapped p f) swaps i j =
      let b = l (record { pipeline = p; swaps = swaps }) in
      (h (record { pipeline = p; swaps = swaps }) j, omega (arith, b))
  after_swap-Nears Swap.uncaught swaps i j = absurd (i refl)

  run_swap-Nears :
      (r : Running) (waiting : List StreamingConfig)
      → r.swaps ≡ waiting
      → All IsSupported waiting
      → (IsGoing s c (run_swap g r stand)) × (left s c (run_swap g r stand) ≤ k)
  unfolding run_swap
  run_swap-Nears r [] e j =
      let b = l r in simp (e, run_swap) (h r (subst (All IsSupported) (sym e) tt), omega (arith, b))
  run_swap-Nears r (cfg ∷ swaps) e j =
      simp (e, run_swap)
        (after_swap-Nears (swap_encoder_probe g r.pipeline cfg) swaps
          (swap-succeeds g r.pipeline cfg j.0) j.1)

buffer_flows-Nears :
    (g : Gst) (s : Shared) (c : Camera) (p : Phase)
    → c.phase ≡ p
    → IsGoing s c p
    → Nears s c.sensor_id (buffer_flows g c) (left s c p)
unfolding buffer_flows
buffer_flows-Nears g s c (Phase.streaming r) e h =
    let d : Camera = record c { phase = run_swap g r Phase.streaming } in
    let u =
      run_swap-Nears g s d Phase.streaming (left s c (Phase.streaming r)) (λ q j. j) (λ q. refl) r
        r.swaps refl h in
    simp (e, buffer_flows) (record { camera = refl; going = u.0; nearer = u.1 })
buffer_flows-Nears g s c (Phase.noticed r b v) e h =
    let d : Camera = record c { phase = run_swap g r (λ q. Phase.noticed q b v) } in
    let u =
      run_swap-Nears g s d (λ q. Phase.noticed q b v) (left s c (Phase.noticed r b v)) (λ q j. j)
        (λ q. refl) r r.swaps refl h in
    simp (e, buffer_flows) (record { camera = refl; going = u.0; nearer = u.1 })
buffer_flows-Nears g s c _ e h = simp (e, buffer_flows) (stays s c _ e h)

-- What the thread knows, and that it goes on, with the pieces that are left.
record Tries (g : Gst) (n : ℕ) (s : Shared) (sensor_id : ℤ) (c : Camera) (most : ℕ) : Type 0 where
  current : IsCurrent n s c
  nears : Nears s sensor_id c most

-- The pipeline starts, and its bus has no error.
abbrev pub IsGood : Answers → Type 0
IsGood a = (a.plays ≡ true) × (a.errored ≡ false)

module _ (g : Gst) (n : ℕ) (s : Shared) (sensor_id : ℤ) (w : IsServed g sensor_id s) where
  advance-Tries :
      (c : Camera) (most : ℕ)
      → Tries g n s sensor_id c most
      → Tries g n s sensor_id (advance g true false s c) (most - 1)
  advance-Tries c most t =
      let served = subst (λ i. IsServed g i s) (sym t.nears.camera) w in
      let u = advance-Nears g n s c t.current served c.phase refl t.current.knows t.nears.going in
      let a = t.nears.nearer in
      let b = u.nearer in
      record {
        current = advance-IsCurrent g true false n s c c.phase refl t.current t.current.knows;
        nears = record {
          camera = u.camera ∙ t.nears.camera;
          going = u.going;
          nearer = omega (arith, a, b);
        };
      }

  buffer_flows-Tries :
      (c : Camera) (most : ℕ)
      → Tries g n s sensor_id c most
      → Tries g n s sensor_id (buffer_flows g c) most
  buffer_flows-Tries c most t =
      let u = buffer_flows-Nears g s c c.phase refl t.nears.going in
      let a = t.nears.nearer in
      let b = u.nearer in
      record {
        current = flows-IsCurrent g n s c c.phase refl t.current t.current.knows;
        nears = record {
          camera = u.camera ∙ t.nears.camera;
          going = u.going;
          nearer = omega (arith, a, b);
        };
      }

  turn-Tries :
      (a : Answers) (c : Camera) (most : ℕ)
      → IsGood a
      → Tries g n s sensor_id c most
      → Tries g n s sensor_id (turn g a s c) (most - 1)
  turn-Tries a c most h t = rw h.0 (rw h.1 (go a.flows))
    where
      go :
          (b : Bool)
          → Tries g n s sensor_id
              (advance g true false s (if b then buffer_flows g c else c))
              (most - 1)
      go true = advance-Tries (buffer_flows g c) most (buffer_flows-Tries c most t)
      go false = advance-Tries c most t

  turns-Tries :
      (answers : List Answers) (c : Camera) (most : ℕ)
      → All IsGood answers
      → Tries g n s sensor_id c most
      → Tries g n s sensor_id (turns g answers s c) (most - length answers)
  unfolding turns
  turns-Tries [] c most h t = subst (Tries g n s sensor_id c) (omega arith) t
  turns-Tries (a ∷ answers) c most h t =
      subst (Tries g n s sensor_id (turns g answers s (turn g a s c))) (omega arith)
        (turns-Tries answers (turn g a s c) (most - 1) h.1 (turn-Tries a c most h.0 t))

abbrev pub IsStreaming : Phase → Type 0
IsStreaming (Phase.streaming r) = All IsSupported r.swaps
IsStreaming _ = ⊥

-- The thread streams, with the published configuration recorded, and no swap waits for a codec
-- without an encoder tail.
pub record Streams (s : Shared) (c : Camera) : Type 0 where
  pub seen : c.seen_version ≡ s.version
  pub config : c.current_config ≡ s.desired
  pub streaming : IsStreaming c.phase

none_left :
    (s : Shared) (c : Camera) (p : Phase)
    → c.phase ≡ p
    → Knows s c p
    → IsGoing s c p
    → left s c p ≡ 0
    → Streams s c
none_left s c (Phase.streaming r) e k h l =
    let b : (s.version == c.seen_version) ≡ true = ground (arith, l) in
    let v : c.seen_version ≡ s.version = ground (arith, b) in
    record { seen = v; config = k.1 v; streaming = rw e h }
none_left s c Phase.finished e k h l = absurd h
none_left s c Phase.crashed e k h l = absurd h
none_left s c _ e k h l = absurd (ground (arith, l))

left_le : (s : Shared) (c : Camera) (p : Phase) → left s c p ≤ 6
left_le s c p = ground arith

-- A published configuration is taken up: if the configuration is for this camera and its pipeline
-- can be built, the thread has neither ended nor given up, and it knows what Reach-IsCurrent says of
-- every interleaving, then after six or more pieces in which a pipeline starts and has no error,
-- and no line comes, the thread streams with that configuration recorded, wherever it stands before
-- and whenever the swaps that wait run.
pub turns-Streams :
    (g : Gst) (n : ℕ) (answers : List Answers) (s : Shared) (c : Camera)
    → IsServed g c.sensor_id s
    → IsCurrent n s c
    → IsGoing s c c.phase
    → All IsGood answers
    → 6 ≤ length answers
    → Streams s (turns g answers s c)
turns-Streams g n answers s c w v h a b =
    let t = turns-Tries g n s c.sensor_id w answers c 6 a (record {
      current = v;
      nears = record { camera = refl; going = h; nearer = left_le s c c.phase };
    }) in
    let d = turns g answers s c in
    let m = t.nears.nearer in
    none_left s d d.phase refl t.current.knows t.nears.going (omega (arith, b, m))
