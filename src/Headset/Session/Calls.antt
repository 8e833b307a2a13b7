-- ===== src/Headset/Session/Calls.antt =====
-- The calls that the headset makes of the OpenXR runtime.
use but_telepresence.Prelude.{
  ℕ, ◌≡◌, refl, Bool, true, false, not, ◌&&◌, List, [], ◌∷◌, if◌then◌else◌, ◌==◌, arith,
}
use but_telepresence.Headset.Ntp.{Timer}
use but_telepresence.Headset.Session.{
  SessionState, Event, Call, begin_session, end_session, frame, Session, Flags, enter,
  instance_loss_pending, other, session_state_changed, user_presence_changed,
  handle_session_state_changed, poll_from, poll_events, NtpStatus, after_poll, update_frame,
}

-- Whether a session is begun and not ended, by the calls, the latest first.
unfoldable pub is_begun : List Call → Bool
is_begun [] = false
is_begun (begin_session ∷ cs) = true
is_begun (end_session ∷ cs) = false
is_begun (frame ∷ cs) = is_begun cs

-- Every frame lies between a begin and an end.
unfoldable pub frames_inside : List Call → Bool
frames_inside [] = true
frames_inside (begin_session ∷ cs) = frames_inside cs
frames_inside (end_session ∷ cs) = frames_inside cs
frames_inside (frame ∷ cs) = is_begun cs && frames_inside cs

-- session_running follows the calls, and no frame was outside.
pub record IsOrderly (s : Session) : Type 0 where
  pub running : s.session_running ≡ is_begun s.calls
  pub inside : frames_inside s.calls ≡ true

enter-IsOrderly :
    (state : SessionState) (r : Flags × Session) → IsOrderly r.1 → IsOrderly (enter state r).1
unfolding is_begun frames_inside
enter-IsOrderly SessionState.ready r v = record { running = refl; inside = v.inside }
enter-IsOrderly SessionState.stopping r v = record { running = refl; inside = v.inside }
enter-IsOrderly _ r v = v

changed-IsOrderly :
    (session : ℕ) (state : SessionState) (r : Flags × Session)
    → IsOrderly r.1
    → IsOrderly (handle_session_state_changed session state r).1
unfolding handle_session_state_changed
changed-IsOrderly session state (f, s) v = go (not (session == 0) && not (session == s.session))
  where
    t : Session
    t = record s { session_state = state }

    u : IsOrderly t
    u = record { running = v.running; inside = v.inside }

    go : (b : Bool) → IsOrderly (if b then (f, t) else enter state (f, t)).1
    go true = u
    go false = enter-IsOrderly state (f, t) u

poll_from-IsOrderly :
    (es : List Event) (r : Flags × Session) → IsOrderly r.1 → IsOrderly (poll_from es r).1
unfolding poll_from
poll_from-IsOrderly [] r v = v
poll_from-IsOrderly (instance_loss_pending ∷ es) r v = v
poll_from-IsOrderly (session_state_changed session state ∷ es) r v =
    poll_from-IsOrderly es _ (changed-IsOrderly session state r v)
poll_from-IsOrderly (user_presence_changed present ∷ es) r v =
    poll_from-IsOrderly es _ (record { running = v.running; inside = v.inside })
poll_from-IsOrderly (other ∷ es) r v = poll_from-IsOrderly es r v

framed :
    (s : Session) (m : NtpStatus)
    → IsOrderly s
    → s.session_running ≡ true
    → IsOrderly (record s { calls = frame ∷ s.calls })
unfolding is_begun frames_inside
framed s m v e = record { running = v.running; inside = ground (arith, v.running, v.inside, e) }

update_frame-IsOrderly :
    (t : Timer) (now : ℕ) (es : List Event) (s : Session) (n : NtpStatus)
    → IsOrderly s
    → IsOrderly (update_frame t now es (s, n)).0
unfolding update_frame poll_events
update_frame-IsOrderly t now es s n v =
    go r.session_running refl
      (poll_from-IsOrderly es (record { exit = false; request_restart = false }, s) v)
  where
    r : Session
    r = (poll_from es (record { exit = false; request_restart = false }, s)).1

    go : (b : Bool) → r.session_running ≡ b → IsOrderly r → IsOrderly (after_poll b t now r n).0
    go true e u = framed r n u e
    go false e u = u

-- The frames of the program, each with the timer, the clock and the pending events.
unfoldable pub update_frames :
    List (Timer × (ℕ × List Event)) → Session × NtpStatus → Session × NtpStatus
update_frames [] p = p
update_frames ((t, (now, es)) ∷ fs) p = update_frames fs (update_frame t now es p)

-- From a session whose calls were in order, whatever events the runtime sends in whatever order: the
-- program asks for a frame only while the session is begun and not ended, and it counts the session
-- as running exactly then.
pub update_frames-IsOrderly :
    (fs : List (Timer × (ℕ × List Event))) (s : Session) (n : NtpStatus)
    → IsOrderly s
    → IsOrderly (update_frames fs (s, n)).0
unfolding update_frames
update_frames-IsOrderly [] s n v = v
update_frames-IsOrderly ((t, (now, es)) ∷ fs) s n v =
    update_frames-IsOrderly fs (update_frame t now es (s, n)).0 (update_frame t now es (s, n)).1
      (update_frame-IsOrderly t now es s n v)
