-- ===== src/Driver/Camera/Updates.antt =====
-- What holds of a camera thread of streaming_driver/main.cpp in every interleaving with ControlLoop
-- and with the probes of its pipeline.
use but_telepresence.Prelude.{
  ℕ, suc, ◌<◌, ◌≤◌, ◌^◌, ◌≡◌, refl, Bool, true, Option, none, some, List, [], ◌∷◌, arith,
}
use but_telepresence.Driver.Config.{StreamingConfig}
use but_telepresence.Driver.Pipeline.{Gst, Swap, swap_encoder_probe}
use but_telepresence.Driver.Camera.{
  Shared, Line, Running, Phase, Camera, control_loop, publish, config_of, advance, buffer_flows,
  run_swap, after_swap,
}
use but_telepresence.Driver.Camera.Pieces.{Knows, IsCurrent, advance-IsCurrent}

-- The interleavings: a line of the input, a piece of the thread, or a buffer. The number is that of
-- the lines so far.
pub data Step (g : Gst) : ℕ → Shared → Camera → ℕ → Shared → Camera → Type 0 where
  reads_line :
      {n : ℕ} {s : Shared} {c : Camera} (l : Line) → Step g n s c (suc n) (control_loop l s) c
  advances :
      {n : ℕ} {s : Shared} {c : Camera} (plays errored : Bool)
      → Step g n s c n s (advance g plays errored s c)
  flows : {n : ℕ} {s : Shared} {c : Camera} → Step g n s c n s (buffer_flows g c)

pub data Reach (g : Gst) (m : ℕ) (s : Shared) (c : Camera) : ℕ → Shared → Camera → Type 0 where
  here : Reach g m s c m s c
  next :
      {n k : ℕ} {t u : Shared} {d e : Camera}
      → Reach g m s c n t d
      → Step g n t d k u e
      → Reach g m s c k u e

-- A published configuration has a version that the thread has not seen.
publish-Knows :
    (cfg : StreamingConfig) (n : ℕ) (s : Shared) (c : Camera) (p : Phase)
    → suc n < 2 ^ 64
    → IsCurrent n s c
    → Knows s c p
    → Knows (publish (some cfg) s) c p
publish-Knows cfg n s c Phase.head h v k = tt
publish-Knows cfg n s c Phase.resting h v k = tt
publish-Knows cfg n s c Phase.finished h v k = tt
publish-Knows cfg n s c Phase.crashed h v k = tt
publish-Knows cfg n s c (Phase.building d) h v k =
    (k.0, λ e. absurd (grind (arith, v.version, v.seen, e, h)))
publish-Knows cfg n s c (Phase.streaming r) h v k =
    (k.0, λ e. absurd (grind (arith, v.version, v.seen, e, h)))
publish-Knows cfg n s c (Phase.noticed r b w) h v k = (k.0, grind (arith, v.version, k.1, h))
publish-Knows cfg n s c (Phase.teardown a b) h v k = k

one_more_line : (n : ℕ) (s : Shared) (c : Camera) → IsCurrent n s c → IsCurrent (suc n) s c
one_more_line n s c v = record {
  version = let b = v.version in omega (arith, b);
  seen = v.seen;
  failures = v.failures;
  knows = v.knows;
}

pub publish-IsCurrent :
    (o : Option StreamingConfig) (n : ℕ) (s : Shared) (c : Camera)
    → suc n < 2 ^ 64
    → IsCurrent n s c
    → IsCurrent (suc n) (publish o s) c
publish-IsCurrent none n s c h v = one_more_line n s c v
publish-IsCurrent (some cfg) n s c h v = record {
  version = grind (arith, v.version, h);
  seen = grind (arith, v.version, v.seen, h);
  failures = v.failures;
  knows = publish-Knows cfg n s c c.phase h v v.knows;
}

stopped-Knows :
    (s : Shared) (c : Camera) (p : Phase)
    → Knows s c p
    → Knows (record s { stop_requested = true }) c p
stopped-Knows s c Phase.head k = k
stopped-Knows s c Phase.resting k = k
stopped-Knows s c Phase.finished k = k
stopped-Knows s c Phase.crashed k = k
stopped-Knows s c (Phase.building cfg) k = k
stopped-Knows s c (Phase.streaming r) k = k
stopped-Knows s c (Phase.noticed r b w) k = k
stopped-Knows s c (Phase.teardown a b) k = k

stopped-IsCurrent :
    (n : ℕ) (s : Shared) (c : Camera)
    → IsCurrent n s c
    → IsCurrent n (record s { stop_requested = true }) c
stopped-IsCurrent n s c v = record {
  version = v.version;
  seen = v.seen;
  failures = v.failures;
  knows = stopped-Knows s c c.phase v.knows;
}

control_loop-IsCurrent :
    (l : Line) (n : ℕ) (s : Shared) (c : Camera)
    → suc n < 2 ^ 64
    → IsCurrent n s c
    → IsCurrent (suc n) (control_loop l s) c
unfolding control_loop
control_loop-IsCurrent Line.empty n s c h v = one_more_line n s c v
control_loop-IsCurrent Line.unparsable n s c h v = one_more_line n s c v
control_loop-IsCurrent Line.other n s c h v = one_more_line n s c v
control_loop-IsCurrent Line.stop n s c h v = stopped-IsCurrent (suc n) s c (one_more_line n s c v)
control_loop-IsCurrent Line.closed n s c h v = stopped-IsCurrent (suc n) s c (one_more_line n s c v)
control_loop-IsCurrent (Line.update json) n s c h v = publish-IsCurrent (config_of json) n s c h v

-- A swap leaves what the thread knows, or ends the program.
module _ (g : Gst) (n : ℕ) (s : Shared) (c : Camera) (v : IsCurrent n s c) where
  streaming_after-IsCurrent :
      (w : Swap) (swaps : List StreamingConfig) (r : Running)
      → Knows s c (Phase.streaming r)
      → IsCurrent n s (record c { phase = after_swap w swaps Phase.streaming })
  streaming_after-IsCurrent (Swap.swapped p f) swaps r k = record {
    version = v.version;
    seen = v.seen;
    failures = v.failures;
    knows = k;
  }
  streaming_after-IsCurrent Swap.uncaught swaps r k = record {
    version = v.version;
    seen = v.seen;
    failures = v.failures;
    knows = tt;
  }

  streaming-IsCurrent :
      (r : Running) (l : List StreamingConfig)
      → r.swaps ≡ l
      → Knows s c (Phase.streaming r)
      → IsCurrent n s (record c { phase = run_swap g r Phase.streaming })
  unfolding run_swap
  streaming-IsCurrent r [] e k =
      rw (e, run_swap)
        (record { version = v.version; seen = v.seen; failures = v.failures; knows = k })
  streaming-IsCurrent r (cfg ∷ swaps) e k =
      rw (e, run_swap) (streaming_after-IsCurrent (swap_encoder_probe g r.pipeline cfg) swaps r k)

  module _ (b : Bool) (w : ℕ) where
    noticed_after-IsCurrent :
        (o : Swap) (swaps : List StreamingConfig) (r : Running)
        → Knows s c (Phase.noticed r b w)
        → IsCurrent n s (record c { phase = after_swap o swaps (λ q. Phase.noticed q b w) })
    noticed_after-IsCurrent (Swap.swapped p f) swaps r k = record {
      version = v.version;
      seen = v.seen;
      failures = v.failures;
      knows = k;
    }
    noticed_after-IsCurrent Swap.uncaught swaps r k = record {
      version = v.version;
      seen = v.seen;
      failures = v.failures;
      knows = tt;
    }

    noticed-IsCurrent :
        (r : Running) (l : List StreamingConfig)
        → r.swaps ≡ l
        → Knows s c (Phase.noticed r b w)
        → IsCurrent n s (record c { phase = run_swap g r (λ q. Phase.noticed q b w) })
    unfolding run_swap
    noticed-IsCurrent r [] e k =
        rw (e, run_swap)
          (record { version = v.version; seen = v.seen; failures = v.failures; knows = k })
    noticed-IsCurrent r (cfg ∷ swaps) e k =
        rw (e, run_swap) (noticed_after-IsCurrent (swap_encoder_probe g r.pipeline cfg) swaps r k)

pub flows-IsCurrent :
    (g : Gst) (n : ℕ) (s : Shared) (c : Camera) (p : Phase)
    → c.phase ≡ p
    → IsCurrent n s c
    → Knows s c p
    → IsCurrent n s (buffer_flows g c)
unfolding buffer_flows
flows-IsCurrent g n s c Phase.head e v k = rw (e, buffer_flows) v
flows-IsCurrent g n s c Phase.resting e v k = rw (e, buffer_flows) v
flows-IsCurrent g n s c Phase.finished e v k = rw (e, buffer_flows) v
flows-IsCurrent g n s c Phase.crashed e v k = rw (e, buffer_flows) v
flows-IsCurrent g n s c (Phase.building d) e v k = rw (e, buffer_flows) v
flows-IsCurrent g n s c (Phase.teardown a b) e v k = rw (e, buffer_flows) v
flows-IsCurrent g n s c (Phase.streaming r) e v k =
    rw (e, buffer_flows) (streaming-IsCurrent g n s c v r r.swaps refl k)
flows-IsCurrent g n s c (Phase.noticed r b w) e v k =
    rw (e, buffer_flows) (noticed-IsCurrent g n s c v b w r r.swaps refl k)

lines_mono : (g : Gst) {m n : ℕ} {s t : Shared} {c d : Camera} → Step g m s c n t d → m ≤ n
lines_mono g (reads_line l) = omega arith
lines_mono g (advances plays errored) = omega arith
lines_mono g flows = omega arith

Step-IsCurrent :
    (g : Gst) {m : ℕ} {s : Shared} {c : Camera} {n : ℕ} {t : Shared} {d : Camera}
    → Step g m s c n t d
    → n < 2 ^ 64
    → IsCurrent m s c
    → IsCurrent n t d
Step-IsCurrent g {m} {s} {c} (reads_line l) h v = control_loop-IsCurrent l m s c h v
Step-IsCurrent g {m} {s} {c} (advances plays errored) h v =
    advance-IsCurrent g plays errored m s c c.phase refl v v.knows
Step-IsCurrent g {m} {s} {c} flows h v = flows-IsCurrent g m s c c.phase refl v v.knows

-- No update is lost, and failures are counted up to five: if fewer than 2^64 lines are read, then
-- in every interleaving of the lines, the camera thread and the swaps, from a state in which this
-- holds: the number of failures is at most 5 and the version seen is not after the published one;
-- while the thread streams or builds, if it has seen the published version, the configuration that
-- it streams or builds is the published one; and while it streams the number of failures is 0.
pub Reach-IsCurrent :
    (g : Gst) {m : ℕ} {s : Shared} {c : Camera} {n : ℕ} {t : Shared} {d : Camera}
    → Reach g m s c n t d
    → n < 2 ^ 64
    → IsCurrent m s c
    → IsCurrent n t d
Reach-IsCurrent g here h v = v
Reach-IsCurrent g (next r x) h v =
    Step-IsCurrent g x h (Reach-IsCurrent g r (let l = lines_mono g x in omega (arith, l)) v)
