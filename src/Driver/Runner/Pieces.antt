-- ===== src/Driver/Runner/Pieces.antt =====
-- What RunPanoramicPipeline of streaming_driver/main.cpp holds at each place.
use but_telepresence.Prelude.{ℕ, ◌≤◌, ◌≡◌, refl, Bool, true, false, Option, none, some, arith}
use but_telepresence.Driver.Config.{StreamingConfig}
use but_telepresence.Driver.Pipeline.{Gst}
use but_telepresence.Driver.Camera.{Shared}
use but_telepresence.Driver.Panorama.{reset_window, attach_selector, detach_selector, stop_pipeline}
use but_telepresence.Driver.Panorama.Invariant.{Inv, Step-Inv, resets, attaches, detaches, stops}
use but_telepresence.Driver.Runner.{
  Stream, Phase, Runner, Answers, advance, read_config, build, poll, apply_config, clear,
}

abbrev pub has {ℓ} : {A : Type ℓ} → Option A → Bool
has none = false
has (some x) = true

-- No pipeline, no selector and no swap.
pub record IsIdle (r : Runner) : Type 0 where
  pub alive : r.alive ≡ none
  pub detached : r.panorama.attached ≡ false
  pub calm : r.panorama.pending ≡ none

-- A configuration is the published one, if its version is.
abbrev pub Follows : Shared → Runner → StreamingConfig → Type 0
Follows s r cfg = r.seen_version ≡ s.version → cfg ≡ s.desired

-- What the thread holds at each place.
abbrev pub Holds : Shared → Runner → Phase → Type 0
Holds s r Phase.head = IsIdle r
Holds s r Phase.finished = IsIdle r
Holds s r Phase.crashed = IsIdle r
Holds s r (Phase.resetting cfg) = IsIdle r × Follows s r cfg
Holds s r (Phase.building cfg) = IsIdle r × Follows s r cfg
Holds s r (Phase.attaching t) =
    (r.alive ≡ some t.number)
    × (r.panorama.attached ≡ false)
    × (r.panorama.pending ≡ none)
    × Follows s r t.config
Holds s r (Phase.registering t) = (r.alive ≡ some t.number) × Follows s r t.config
Holds s r (Phase.starting t) =
    (r.alive ≡ some t.number) × (r.registered ≡ some t.number) × Follows s r t.config
Holds s r (Phase.streaming t) =
    (r.alive ≡ some t.number) × (r.registered ≡ some t.number) × Follows s r t.config
Holds s r (Phase.noticed t errored v) =
    (r.alive ≡ some t.number) × (r.registered ≡ some t.number) × (v ≤ s.version)
Holds s r (Phase.detaching b) = has r.alive ≡ true
Holds s r (Phase.stopping b) = (has r.alive ≡ true) × (r.panorama.attached ≡ false)
Holds s r (Phase.clearing b) = IsIdle r
Holds s r Phase.failing = has r.alive ≡ true
Holds s r Phase.abandoning = (has r.alive ≡ true) × (r.panorama.attached ≡ false)
Holds s r Phase.discarding =
    (has r.alive ≡ true) × (r.panorama.attached ≡ false) × (r.panorama.pending ≡ none)

pub record IsTracked (lines : ℕ) (s : Shared) (r : Runner) : Type 0 where
  pub window : Inv r.panorama
  pub version : s.version ≤ lines
  pub seen : r.seen_version ≤ s.version
  pub holds : Holds s r r.phase

-- The pads of the selector and a swap that waits are those of a pipeline that is not released.
pub record IsOwned (r : Runner) : Type 0 where
  pub selector : r.panorama.attached ≡ true → has r.alive ≡ true
  pub swap : has r.panorama.pending ≡ true → has r.alive ≡ true

pub Holds-IsOwned : (s : Shared) (r : Runner) (p : Phase) → Holds s r p → IsOwned r
Holds-IsOwned s r Phase.head h = record {
  selector = λ e. ground (arith, h, e);
  swap = λ e. ground (arith, h, e);
}
Holds-IsOwned s r _ h = record {
  selector = λ e. ground (arith, h, e);
  swap = λ e. ground (arith, h, e);
}

read_config-IsTracked :
    (n : ℕ) (s : Shared) (r : Runner) → IsTracked n s r → IsIdle r → IsTracked n s (read_config s r)
unfolding read_config
read_config-IsTracked n s r v h = ground (arith, v, h)

build-IsTracked :
    (n : ℕ) (a : Answers) (cfg : StreamingConfig) (s : Shared) (r : Runner)
    → IsTracked n s r
    → IsIdle r × Follows s r cfg
    → IsTracked n s (build a cfg r)
unfolding build
build-IsTracked n a cfg s r v h = ground (arith, v, h)

poll-IsTracked :
    (n : ℕ) (errored : Bool) (t : Stream) (s : Shared) (r : Runner)
    → IsTracked n s r
    → Holds s r (Phase.streaming t)
    → IsTracked n s (poll s errored t r)
unfolding poll
poll-IsTracked n errored t s r v h = ground (arith, v, h)

apply_config-IsTracked :
    (g : Gst) (n : ℕ) (b : Bool) (w : ℕ) (t : Stream) (s : Shared) (r : Runner)
    → IsTracked n s r
    → Holds s r (Phase.noticed t b w)
    → IsTracked n s (apply_config g s t b w r)
unfolding apply_config
apply_config-IsTracked g n b w t s r v h = ground (arith, v, h)

pub advance-IsTracked :
    (g : Gst) (a : Answers) (n : ℕ) (s : Shared) (r : Runner) (p : Phase)
    → r.phase ≡ p
    → IsTracked n s r
    → Holds s r p
    → IsTracked n s (advance g a s r)
unfolding advance clear attach_selector detach_selector stop_pipeline reset_window
advance-IsTracked g a n s r Phase.head e v h = rw (e, advance) (read_config-IsTracked n s r v h)
advance-IsTracked g a n s r Phase.finished e v h = rw (e, advance) v
advance-IsTracked g a n s r Phase.crashed e v h = rw (e, advance) v
advance-IsTracked g a n s r (Phase.resetting cfg) e v h =
    rw (e, advance)
      (record {
        window = Step-Inv (resets h.0.detached h.0.calm) v.window;
        version = v.version;
        seen = v.seen;
        holds = (record { alive = h.0.alive; detached = h.0.detached; calm = h.0.calm }, h.1);
      })
advance-IsTracked g a n s r (Phase.building cfg) e v h =
    rw (e, advance) (build-IsTracked n a cfg s r v h)
advance-IsTracked g a n s r (Phase.attaching t) e v h =
    rw (e, advance)
      (record {
        window = Step-Inv attaches v.window;
        version = v.version;
        seen = v.seen;
        holds = (h.0, h.3);
      })
advance-IsTracked g a n s r (Phase.registering t) e v h =
    rw (e, advance)
      (record { window = v.window; version = v.version; seen = v.seen; holds = (h.0, refl, h.1) })
advance-IsTracked g a n s r (Phase.starting t) e v h = rw (e, advance) (ground (arith, v, h))
advance-IsTracked g a n s r (Phase.streaming t) e v h =
    rw (e, advance) (poll-IsTracked n a.errored t s r v h)
advance-IsTracked g a n s r (Phase.noticed t b w) e v h =
    rw (e, advance) (apply_config-IsTracked g n b w t s r v h)
advance-IsTracked g a n s r (Phase.detaching b) e v h =
    rw (e, advance)
      (record {
        window = Step-Inv detaches v.window;
        version = v.version;
        seen = v.seen;
        holds = (h, refl);
      })
advance-IsTracked g a n s r (Phase.stopping b) e v h =
    rw (e, advance)
      (record {
        window = Step-Inv stops v.window;
        version = v.version;
        seen = v.seen;
        holds = record { alive = refl; detached = h.1; calm = refl };
      })
advance-IsTracked g a n s r (Phase.clearing b) e v h =
    rw (e, advance)
      (record {
        window = v.window;
        version = v.version;
        seen = v.seen;
        holds = record { alive = h.alive; detached = h.detached; calm = h.calm };
      })
advance-IsTracked g a n s r Phase.failing e v h =
    rw (e, advance)
      (record {
        window = Step-Inv detaches v.window;
        version = v.version;
        seen = v.seen;
        holds = (h, refl);
      })
advance-IsTracked g a n s r Phase.abandoning e v h =
    rw (e, advance)
      (record {
        window = Step-Inv stops v.window;
        version = v.version;
        seen = v.seen;
        holds = record { alive = refl; detached = h.1; calm = refl };
      })
advance-IsTracked g a n s r Phase.discarding e v h =
    rw (e, advance)
      (record {
        window = Step-Inv stops v.window;
        version = v.version;
        seen = v.seen;
        holds = record { alive = refl; detached = h.1; calm = refl };
      })
