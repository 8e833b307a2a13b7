-- ===== src/Headset/Frame/Protocol.antt =====
-- The calls of the headset against the order that the OpenXR specification asks for.
use but_telepresence.Prelude.{
  ℕ, ◌≡◌, refl, sym, subst, ◌∙◌, Bool, true, false, not, ◌&&◌, some, List, [], ◌∷◌, if◌then◌else◌,
  ◌==◌,
}
use but_telepresence.Headset.Ntp.{Timer}
use but_telepresence.Headset.Session.{
  SessionState, Event, Call, Session, Flags, enter, instance_loss_pending, other,
  session_state_changed, user_presence_changed, handle_session_state_changed, poll_from,
  poll_events, NtpStatus, after_poll, update_frame,
}
use but_telepresence.Headset.Session.Calls.{update_frames}
use but_telepresence.Headset.Frame.{calls_of, all_calls}
use but_telepresence.Headset.Frame.Order.{
  Protocol, between, accept, accept_all, accept_all-append, frame_accepted,
}

-- The calls so far are in order, and end between two frames, with the session running as the program
-- counts it.
pub record Conforms (view_count : ℕ) (s : Session) : Type 0 where
  pub conforms :
      accept_all (all_calls view_count s.calls) (between false) ≡ some (between s.session_running)

one_call :
    (view_count : ℕ) (c : Call) (cs : List Call) (p q : Protocol)
    → accept_all (all_calls view_count cs) (between false) ≡ some p
    → accept_all (calls_of view_count c) p ≡ some q
    → accept_all (all_calls view_count (c ∷ cs)) (between false) ≡ some q
unfolding all_calls
one_call view_count c cs p q h k =
    accept_all-append (all_calls view_count cs) (calls_of view_count c) (between false) ∙ rw h k

-- What the specification promises of an event: a session that does not run becomes ready, and one
-- that runs is stopped.
abbrev pub IsExpected : Event → Session → Type 0
IsExpected (session_state_changed session SessionState.ready) s = s.session_running ≡ false
IsExpected (session_state_changed session SessionState.stopping) s = s.session_running ≡ true
IsExpected _ s = Unit {0}

abbrev pub AreExpected : List Event → Flags × Session → Type 0
AreExpected [] r = Unit {0}
AreExpected (e ∷ es) r = IsExpected e r.1 × AreExpected es (poll_from (e ∷ []) r)

enter-Conforms :
    (view_count session : ℕ) (state : SessionState) (r : Flags × Session)
    → IsExpected (session_state_changed session state) r.1
    → Conforms view_count r.1
    → Conforms view_count (enter state r).1
unfolding accept_all accept
enter-Conforms n session SessionState.ready r h v = record {
  conforms =
      one_call n Call.begin_session r.1.calls (between r.1.session_running) _ v.conforms
        (rw h refl);
}
enter-Conforms n session SessionState.stopping r h v = record {
  conforms =
      one_call n Call.end_session r.1.calls (between r.1.session_running) _ v.conforms (rw h refl);
}
enter-Conforms n session _ r h v = v

-- No flag is set before the events are polled.
abbrev pub no_flags : Flags
no_flags = record { exit = false; request_restart = false }

-- What is expected does not depend on s_session_state.
same_expectation :
    (session : ℕ) (state : SessionState) (s : Session)
    → IsExpected (session_state_changed session state) s
    → IsExpected (session_state_changed session state) (record s { session_state = state })
same_expectation session SessionState.ready s h = h
same_expectation session SessionState.stopping s h = h
same_expectation session _ s h = h

changed-Conforms :
    (view_count session : ℕ) (state : SessionState) (r : Flags × Session)
    → IsExpected (session_state_changed session state) r.1
    → Conforms view_count r.1
    → Conforms view_count (handle_session_state_changed session state r).1
unfolding handle_session_state_changed
changed-Conforms n session state (f, s) h v = go (not (session == 0) && not (session == s.session))
  where
    t : Session
    t = record s { session_state = state }

    u : Conforms n t
    u = record { conforms = v.conforms }

    k : IsExpected (session_state_changed session state) t
    k = same_expectation session state s h

    go : (b : Bool) → Conforms n (if b then (f, t) else enter state (f, t)).1
    go true = u
    go false = enter-Conforms n session state (f, t) k u

poll_from-Conforms :
    (view_count : ℕ) (es : List Event) (r : Flags × Session)
    → AreExpected es r
    → Conforms view_count r.1
    → Conforms view_count (poll_from es r).1
unfolding poll_from
poll_from-Conforms n [] r h v = v
poll_from-Conforms n (instance_loss_pending ∷ es) r h v = v
poll_from-Conforms n (session_state_changed session state ∷ es) r h v =
    poll_from-Conforms n es _ h.1 (changed-Conforms n session state r h.0 v)
poll_from-Conforms n (user_presence_changed present ∷ es) r h v =
    poll_from-Conforms n es _ h.1 (record { conforms = v.conforms })
poll_from-Conforms n (other ∷ es) r h v = poll_from-Conforms n es r h.1 v

framed :
    (view_count : ℕ) (s : Session)
    → s.session_running ≡ true
    → Conforms view_count s
    → Conforms view_count (record s { calls = Call.frame ∷ s.calls })
framed n s e v = record {
  conforms =
      one_call n Call.frame s.calls (between s.session_running) (between s.session_running)
        v.conforms
        (subst (λ b. accept_all (calls_of n Call.frame) (between b) ≡ some (between b)) (sym e)
          (frame_accepted n));
}

update_frame-Conforms :
    (view_count : ℕ) (t : Timer) (now : ℕ) (es : List Event) (s : Session) (m : NtpStatus)
    → AreExpected es (no_flags, s)
    → Conforms view_count s
    → Conforms view_count (update_frame t now es (s, m)).0
unfolding update_frame poll_events
update_frame-Conforms n t now es s m h v =
    go r.session_running refl (poll_from-Conforms n es (no_flags, s) h v)
  where
    r : Session
    r = (poll_from es (no_flags, s)).1

    go : (b : Bool) → r.session_running ≡ b → Conforms n r → Conforms n (after_poll b t now r m).0
    go true e u = framed n r e u
    go false e u = u

abbrev pub AreFramesExpected : List (Timer × (ℕ × List Event)) → Session × NtpStatus → Type 0
AreFramesExpected [] p = Unit {0}
AreFramesExpected ((t, (now, es)) ∷ fs) p =
    AreExpected es (no_flags, p.0) × AreFramesExpected fs (update_frame t now es p)

-- The calls of the runtime are in the order that the specification asks for: if the runtime makes a
-- session ready only while it does not run and stops it only while it runs, then after any frames
-- with any events, and for any number of views, the session is begun and ended in turn, each frame
-- is waited for, begun and ended within it, each image is acquired, waited for and released within
-- a frame, and no frame or image is left open.
pub update_frames-Conforms :
    (view_count : ℕ) (fs : List (Timer × (ℕ × List Event))) (s : Session) (m : NtpStatus)
    → AreFramesExpected fs (s, m)
    → Conforms view_count s
    → Conforms view_count (update_frames fs (s, m)).0
unfolding update_frames
update_frames-Conforms n [] s m h v = v
update_frames-Conforms n ((t, (now, es)) ∷ fs) s m h v =
    update_frames-Conforms n fs (update_frame t now es (s, m)).0 (update_frame t now es (s, m)).1
      h.1 (update_frame-Conforms n t now es s m h.0 v)
