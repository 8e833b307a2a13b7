-- ===== src/Driver/Runner/Lifetimes.antt =====
-- What the threads of panoramic mode in streaming_driver/main.cpp hold in every interleaving.
use but_telepresence.Prelude.{
  ℕ, suc, ◌+◌, ◌<◌, ◌≤◌, ◌^◌, ◌≡◌, refl, sym, subst, ◌∙◌, Bool, false, Option, none, some, List, [],
  ◌∷◌, arith, length,
}
use but_telepresence.Driver.Config.{StreamingConfig}
use but_telepresence.Driver.Pipeline.{Gst}
use but_telepresence.Driver.Camera.{Shared, Line, publish, config_of, control_loop}
use but_telepresence.Driver.Panorama.Invariant.{Inv, Step-Inv, selects, probes}
use but_telepresence.Driver.Panorama.Frame.{
  select_camera-attached, select_camera-pending, swap_camera_probe-frame,
}
use but_telepresence.Driver.Runner.Pieces.{
  Follows, Holds, IsTracked, IsOwned, Holds-IsOwned, advance-IsTracked,
}
use but_telepresence.Driver.Runner.{
  Phase, Runner, receive, Listener, force_key_frame, buffer_flows, Move, move, run,
}

-- What the listener and the probes leave to the thread.
record Frames (r q : Runner) : Type 0 where
  alive : q.alive ≡ r.alive
  registered : q.registered ≡ r.registered
  seen_version : q.seen_version ≡ r.seen_version
  attached : q.panorama.attached ≡ r.panorama.attached
  pending : r.panorama.attached ≡ false → r.panorama.pending ≡ none → q.panorama.pending ≡ none

Frames-Holds : (s : Shared) (r q : Runner) (p : Phase) → Frames r q → Holds s r p → Holds s q p
Frames-Holds s r q Phase.head f h = ground (arith, f, f.pending, h)
Frames-Holds s r q _ f h = ground (arith, f, f.pending, h)

Frames-IsTracked :
    (n : ℕ) (s : Shared) (r q : Runner)
    → q.phase ≡ r.phase
    → Frames r q
    → Inv q.panorama
    → IsTracked n s r
    → IsTracked n s q
Frames-IsTracked n s r q e f w v = record {
  window = w;
  version = v.version;
  seen = rw f.seen_version v.seen;
  holds = subst (λ p. Holds s q p) (sym e) (Frames-Holds s r q r.phase f v.holds);
}

receive-IsTracked :
    (found : Bool) (target n : ℕ) (s : Shared) (r : Runner) (l : Listener)
    → r.listener ≡ l
    → IsTracked n s r
    → IsTracked n s (receive found target r)
unfolding receive
receive-IsTracked found target n s r Listener.waiting e v =
    rw (e, receive)
      (Frames-IsTracked n s r _ refl
        (record {
          alive = refl;
          registered = refl;
          seen_version = refl;
          attached = select_camera-attached found target r.panorama;
          pending = λ d c. select_camera-pending found target r.panorama d ∙ c;
        })
        (Step-Inv (selects found target) v.window) v)
receive-IsTracked found target n s r Listener.needs_config e v = rw (e, receive) v
receive-IsTracked found target n s r (Listener.needs_pipeline cfg) e v = rw (e, receive) v

same_panorama :
    (r : Runner) (l : Listener) (b : Bool) → Frames r (record r { listener = l; used_released = b })
same_panorama r l b = record {
  alive = refl;
  registered = refl;
  seen_version = refl;
  attached = refl;
  pending = λ d c. c;
}

force_key_frame-IsTracked :
    (n : ℕ) (s : Shared) (r : Runner) (l : Listener)
    → r.listener ≡ l
    → IsTracked n s r
    → IsTracked n s (force_key_frame s r)
unfolding force_key_frame
force_key_frame-IsTracked n s r Listener.waiting e v = rw (e, force_key_frame) v
force_key_frame-IsTracked n s r Listener.needs_config e v =
    rw (e, force_key_frame)
      (Frames-IsTracked n s r _ refl (same_panorama r _ r.used_released) v.window v)
force_key_frame-IsTracked n s r (Listener.needs_pipeline cfg) e v =
    rw (e, force_key_frame) (Frames-IsTracked n s r _ refl (same_panorama r _ _) v.window v)

buffer_flows-IsTracked :
    (n : ℕ) (s : Shared) (r : Runner) → IsTracked n s r → IsTracked n s (buffer_flows r)
unfolding buffer_flows
buffer_flows-IsTracked n s r v =
    let f = swap_camera_probe-frame r.panorama in
    Frames-IsTracked n s r _ refl
      (record {
        alive = refl;
        registered = refl;
        seen_version = refl;
        attached = f.0;
        pending = λ d c. f.1;
      })
      (Step-Inv probes v.window) v

-- A line leaves the thread alone, or publishes a version that it has not seen.
record Publishes (n : ℕ) (s u : Shared) : Type 0 where
  version : u.version ≤ suc n
  later : s.version ≤ u.version
  same : u.version ≡ s.version → u.desired ≡ s.desired

publish-Publishes :
    (n : ℕ) (o : Option StreamingConfig) (s : Shared)
    → suc n < 2 ^ 64
    → s.version ≤ n
    → Publishes n s (publish o s)
publish-Publishes n none s h v = record {
  version = omega (arith, v);
  later = omega arith;
  same = λ e. refl;
}
publish-Publishes n (some cfg) s h v = record {
  version = grind (arith, v, h);
  later = grind (arith, v, h);
  same = λ e. absurd (grind (arith, v, h, e));
}

control_loop-Publishes :
    (n : ℕ) (l : Line) (s : Shared)
    → suc n < 2 ^ 64
    → s.version ≤ n
    → Publishes n s (control_loop l s)
unfolding control_loop
control_loop-Publishes n (Line.update json) s h v = publish-Publishes n (config_of json) s h v
control_loop-Publishes n _ s h v = record {
  version = omega (arith, v);
  later = omega arith;
  same = λ e. refl;
}

Publishes-Follows :
    (n : ℕ) (s u : Shared) (r : Runner) (cfg : StreamingConfig)
    → Publishes n s u
    → r.seen_version ≤ s.version
    → Follows s r cfg
    → Follows u r cfg
Publishes-Follows n s u r cfg k b f e =
    let l = k.later in f (omega (arith, l, b, e)) ∙ sym (k.same (omega (arith, l, b, e)))

Publishes-Holds :
    (n : ℕ) (s u : Shared) (r : Runner) (p : Phase)
    → Publishes n s u
    → r.seen_version ≤ s.version
    → Holds s r p
    → Holds u r p
Publishes-Holds n s u r Phase.head k b h = h
Publishes-Holds n s u r (Phase.resetting cfg) k b h = (h.0, Publishes-Follows n s u r cfg k b h.1)
Publishes-Holds n s u r (Phase.building cfg) k b h = (h.0, Publishes-Follows n s u r cfg k b h.1)
Publishes-Holds n s u r (Phase.attaching t) k b h =
    (h.0, h.1, h.2, Publishes-Follows n s u r t.config k b h.3)
Publishes-Holds n s u r (Phase.registering t) k b h =
    (h.0, Publishes-Follows n s u r t.config k b h.1)
Publishes-Holds n s u r (Phase.starting t) k b h =
    (h.0, h.1, Publishes-Follows n s u r t.config k b h.2)
Publishes-Holds n s u r (Phase.streaming t) k b h =
    (h.0, h.1, Publishes-Follows n s u r t.config k b h.2)
Publishes-Holds n s u r (Phase.noticed t c v) k b h =
    let l = k.later in (h.0, h.1, omega (arith, l, h.2))
Publishes-Holds n s u r _ k b h = h

control_loop-IsTracked :
    (n : ℕ) (l : Line) (s : Shared) (r : Runner)
    → suc n < 2 ^ 64
    → IsTracked n s r
    → IsTracked (suc n) (control_loop l s) r
control_loop-IsTracked n l s r h v =
    let k = control_loop-Publishes n l s h v.version in
    let later = k.later in
    record {
      window = v.window;
      version = k.version;
      seen = omega (arith, later, v.seen);
      holds = Publishes-Holds n s (control_loop l s) r r.phase k v.seen v.holds;
    }

one_more : (n : ℕ) (s : Shared) (r : Runner) → IsTracked n s r → IsTracked (suc n) s r
one_more n s r v = record {
  window = v.window;
  version = let b = v.version in omega (arith, b);
  seen = v.seen;
  holds = v.holds;
}

move-IsTracked :
    (g : Gst) (m : Move) (n : ℕ) (s : Shared) (r : Runner)
    → suc n < 2 ^ 64
    → IsTracked n s r
    → IsTracked (suc n) (move g m (s, r)).0 (move g m (s, r)).1
move-IsTracked g (Move.reads l) n s r h v = control_loop-IsTracked n l s r h v
move-IsTracked g (Move.advances a) n s r h v =
    one_more n s _ (advance-IsTracked g a n s r r.phase refl v v.holds)
move-IsTracked g (Move.receives found target) n s r h v =
    one_more n s _ (receive-IsTracked found target n s r r.listener refl v)
move-IsTracked g Move.forces n s r h v =
    one_more n s _ (force_key_frame-IsTracked n s r r.listener refl v)
move-IsTracked g Move.flows n s r h v = one_more n s _ (buffer_flows-IsTracked n s r v)

run-IsTracked :
    (g : Gst) (ms : List Move) (n : ℕ) (w : Shared × Runner)
    → n + length ms < 2 ^ 64
    → IsTracked n w.0 w.1
    → IsTracked (n + length ms) (run g ms w).0 (run g ms w).1
unfolding run
run-IsTracked g [] n w h v = subst (λ k. IsTracked k w.0 w.1) (omega arith) v
run-IsTracked g (m ∷ ms) n (s, r) h v =
    subst (λ k. IsTracked k (run g ms (move g m (s, r))).0 (run g ms (move g m (s, r))).1)
      (omega arith)
      (run-IsTracked g ms (suc n) (move g m (s, r)) (omega (arith, h))
        (move-IsTracked g m n s r (omega (arith, h)) v))

-- If fewer than 2^64 moves are made, then in every interleaving of the lines, the thread, the
-- listener and the probes, from a state in which this holds: the pads of the selector, which a
-- datagram switches, and a swap that waits are those of a pipeline that is not released; the window
-- shows three different cameras; while the thread builds, starts or streams a configuration whose
-- version is the published one, it is the published configuration; and while it starts or streams,
-- its pipeline is the one in `pipelines` and is not released.
pub run-IsOwned :
    (g : Gst) (ms : List Move) (n : ℕ) (w : Shared × Runner)
    → n + length ms < 2 ^ 64
    → IsTracked n w.0 w.1
    → IsTracked (n + length ms) (run g ms w).0 (run g ms w).1 × IsOwned (run g ms w).1
run-IsOwned g ms n w h v =
    let u = run-IsTracked g ms n w h v in
    (u, Holds-IsOwned (run g ms w).0 (run g ms w).1 (run g ms w).1.phase u.holds)
