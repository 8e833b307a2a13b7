-- ===== src/Headset/Sender/Status.antt =====
-- The connection status that SendControllerDatagram keeps in AppState, over every interleaving of
-- the frames with the tasks of the pool.
use but_telepresence.Prelude.{
  ℕ, suc, ◌<◌, ◌≤◌, ◌^◌, ◌≡◌, refl, sym, ap, ◌∙◌, subst, Bool, true, false, Option, none, some,
  List, [], ◌∷◌, ◌++◌, arith, ◌⊎◌, length, get_elem?, drop, Bool-cases, inl, inr,
}
use but_telepresence.Headset.Enums.{ConnectionStatus}
use but_telepresence.Headset.Sender.{
  Health, has_connection_issue, has_ever_succeeded, Task, World, run_task, Sender, Frame, Control,
  initial_control, ensure_sender, frame_tasks, update_status, send_controller_datagram, pool_runs,
  remove_at,
}
use but_telepresence.Headset.Sender.Counters.{
  Send, run_sends, trailing, poses, issue_trailing, success_poses, poses_mono,
}

-- The states that the program reaches, each with the sends so far, the latest first. The pool may
-- run any task that it holds.
pub data Reach : Control → List Send → Type 0 where
  start : Reach initial_control []
  frames :
      {c : Control} {hs : List Send} (f : Frame)
      → Reach c hs
      → Reach (send_controller_datagram f c) hs
  runs :
      {c : Control} {hs : List Send} (e : World) (i : ℕ) (t : Task)
      → get_elem? c.tasks i ≡ some t
      → Reach c hs
      → Reach (pool_runs e i t c) ((e, t) ∷ hs)

-- Some run of ten failed sends lies in the history.
abbrev pub HasOutage : List Send → Type 0
HasOutage hs = (k : ℕ) × (10 ≤ trailing (drop k hs))

-- What a status says of the past; only with a socket is a failure a failure of sending.
abbrev pub Justified : ConnectionStatus → Bool → List Send → Type 0
Justified ConnectionStatus.unknown b hs = ⊥
Justified ConnectionStatus.connecting b hs = b ≡ true
Justified ConnectionStatus.connected b hs = (b ≡ true) × (0 < poses hs)
Justified ConnectionStatus.failed true hs = HasOutage hs
Justified ConnectionStatus.failed false hs = hs ≡ []

-- Before the first frame nothing is sent; after it the counters are those of the history, and the
-- status is justified. Without a socket no task is ever queued.
abbrev pub IsFaithful : Option Sender → Control → List Send → Type 0
IsFaithful none c hs = (c.tasks ≡ []) × (hs ≡ [])
IsFaithful (some s) c hs =
    (s.health ≡ run_sends hs)
    × (Justified c.status s.is_initialized hs × (s.is_initialized ≡ false → c.tasks ≡ []))

update_status-cases :
    (h : Health) (c : Control)
    → ((has_connection_issue h ≡ true) × ((update_status h c).status ≡ ConnectionStatus.failed))
      ⊎ (((has_ever_succeeded h ≡ true) × ((update_status h c).status ≡ ConnectionStatus.connected))
          ⊎ ((update_status h c).status ≡ c.status))
unfolding update_status
update_status-cases h c = ground arith

update_status-Justified :
    (c : Control) (hs : List Send)
    → length hs < 2 ^ 31
    → Justified c.status true hs
    → Justified (update_status (run_sends hs) c).status true hs
update_status-Justified c hs h j = elim (update_status-cases (run_sends hs) c) [
  | inl a ↦ rw a.1 (0, (issue_trailing hs h).0 a.0)
  | inr (inl a) ↦ rw a.1 (refl, (success_poses hs h).0 a.0)
  | inr (inr e) ↦ rw e j
]

-- A step of the pool keeps a status justified.
runs-Justified :
    (s : ConnectionStatus) (x : Send) (hs : List Send)
    → Justified s true hs
    → Justified s true (x ∷ hs)
runs-Justified ConnectionStatus.unknown x hs j = absurd j
runs-Justified ConnectionStatus.connecting x hs j = j
runs-Justified ConnectionStatus.connected x hs j = (j.0, poses_mono x hs j.1)
runs-Justified ConnectionStatus.failed x hs j = (suc j.0, j.1)

ensure_sender-some :
    (f : Frame) (c : Control) (s : Sender) → c.sender ≡ some s → ensure_sender f c ≡ (s, c)
unfolding ensure_sender
ensure_sender-some f c s e = ground (arith, e)

pool_runs-some :
    (e : World) (i : ℕ) (t : Task) (c : Control) (s : Sender)
    → c.sender ≡ some s
    → pool_runs e i t c ≡ record c {
      sender = some (record s { health = run_task e t s.health });
      tasks = remove_at i c.tasks;
    }
unfolding pool_runs
pool_runs-some e i t c s q = ground (arith, q)

ensure_sender-IsFaithful :
    (f : Frame) (c : Control) (hs : List Send) (o : Option Sender)
    → c.sender ≡ o
    → IsFaithful o c hs
    → ((ensure_sender f c).1.sender ≡ some (ensure_sender f c).0)
      × IsFaithful (some (ensure_sender f c).0) (ensure_sender f c).1 hs
unfolding ensure_sender run_sends
ensure_sender-IsFaithful f c hs none e v = elim (Bool-cases f.socket_opened) [
  | inl o ↦ rw (e, o) (rw (v.1) (refl, (refl, (refl, λ d. absurd (grind (arith, d))))))
  | inr o ↦ rw (e, o) (rw (v.1) (refl, (refl, (refl, λ d. v.0))))
]
ensure_sender-IsFaithful f c hs (some s) e v =
    subst (λ r. (r.1.sender ≡ some r.0) × IsFaithful (some r.0) r.1 hs)
      (sym (ensure_sender-some f c s e)) (e, v)

update_status-kept :
    (h : Health) (c : Control)
    → ((update_status h c).sender ≡ c.sender) × ((update_status h c).tasks ≡ c.tasks)
unfolding update_status
update_status-kept h c = ground arith

at_sender :
    (c : Control) (hs : List Send) (s : Sender)
    → c.sender ≡ some s
    → IsFaithful (some s) c hs
    → IsFaithful c.sender c hs
at_sender c hs s e v = subst (λ o. IsFaithful o c hs) (sym e) v

sends-IsFaithful :
    (c : Control) (hs : List Send) (s : Sender)
    → length hs < 2 ^ 31
    → c.sender ≡ some s
    → s.is_initialized ≡ true
    → IsFaithful (some s) c hs
    → IsFaithful (update_status s.health c).sender (update_status s.health c) hs
sends-IsFaithful c hs s h e b v =
    let k = update_status-kept s.health c in
    at_sender (update_status s.health c) hs s (k.0 ∙ e) (
      v.0,
      (
        subst (λ i. Justified (update_status s.health c).status i hs) (sym b)
            (subst (λ t. Justified (update_status t c).status true hs) (sym v.0)
              (update_status-Justified c hs h (subst (λ i. Justified c.status i hs) b v.1.0))),
        λ d. absurd (grind (arith, b, d)),
      ),
    )

frames-IsFaithful :
    (f : Frame) (c : Control) (hs : List Send)
    → length hs < 2 ^ 31
    → IsFaithful c.sender c hs
    → IsFaithful (send_controller_datagram f c).sender (send_controller_datagram f c) hs
unfolding send_controller_datagram
frames-IsFaithful f c hs h v =
    let r = ensure_sender f c in
    let e = ensure_sender-IsFaithful f c hs c.sender refl v in
    elim (Bool-cases f.headset_mounted) [
      | inr m ↦ simp m v
      | inl m ↦ elim (Bool-cases r.0.is_initialized) [
        | inl b ↦
            simp (m, b)
              (sends-IsFaithful (record r.1 { tasks = r.1.tasks ++ frame_tasks f }) hs r.0 h e.0 b
                (e.1.0, (e.1.1.0, λ d. absurd (grind (arith, b, d)))))
        | inr b ↦ simp (m, b) (at_sender r.1 hs r.0 e.0 e.1)
      ]
    ]

runs-IsFaithful :
    (e : World) (i : ℕ) (t : Task) (c : Control) (hs : List Send) (o : Option Sender)
    → c.sender ≡ o
    → get_elem? c.tasks i ≡ some t
    → IsFaithful o c hs
    → IsFaithful (pool_runs e i t c).sender (pool_runs e i t c) ((e, t) ∷ hs)
unfolding pool_runs run_sends
runs-IsFaithful e i t c hs none q g v = absurd (grind (arith, v.0, g))
runs-IsFaithful e i t c hs (some s) q g v = elim (Bool-cases s.is_initialized) [
  | inl b ↦
      subst (λ d. IsFaithful d.sender d ((e, t) ∷ hs)) (sym (pool_runs-some e i t c s q))
        (
          ap (run_task e t) v.0,
          (
            subst (λ i. Justified c.status i ((e, t) ∷ hs)) (sym b)
                (runs-Justified c.status (e, t) hs (subst (λ i. Justified c.status i hs) b v.1.0)),
            λ d. absurd (grind (arith, b, d)),
          ),
        )
  | inr b ↦ absurd (grind (arith, v.1.1 b, g))
]

-- In every state that the program reaches with fewer than 2^31 sends: before the first frame with
-- the headset on, nothing was sent. After it, the counters are those of the history of sends, and
-- the status "connected" is shown only if the system took a head pose before, and "failed"
-- only if there was no socket and nothing was sent, or if at some point ten sends in a row failed.
pub Reach-IsFaithful :
    {c : Control} {hs : List Send} → Reach c hs → length hs < 2 ^ 31 → IsFaithful c.sender c hs
Reach-IsFaithful start h = (refl, refl)
Reach-IsFaithful (frames {c} {hs} f r) h = frames-IsFaithful f c hs h (Reach-IsFaithful r h)
Reach-IsFaithful (runs {c} {hs} e i t g r) h =
    runs-IsFaithful e i t c hs c.sender refl g (Reach-IsFaithful r (omega arith))
