-- ===== src/Headset/Session.antt =====
-- The OpenXR session of VR_App/src/util_openxr.cpp (openxr_poll_events,
-- openxr_handle_session_state_changed), and from VR_App/src/program.cpp UpdateFrame and
-- InitializeStreaming with the destructor. The events of the runtime, what HTTP returns, and the
-- clock are arguments; the calls of the runtime are recorded. A handle is a number, 0 the null handle.
pub mod Applies
pub mod Calls
use but_telepresence.Prelude.{
  ℕ, ◌/◌, Bool, true, false, not, ◌&&◌, Option, none, some, List, [], ◌∷◌, ◌++◌, if◌then◌else◌, ltb,
  ◌==◌,
}
use but_telepresence.Prelude.Int.{ℤ, pos, int_eq, ltb_ℤ}
use but_telepresence.Prelude.Words.{signed32}
use but_telepresence.Prelude.Text.{Str, codes}
use but_telepresence.Prelude.Decimal.{nat_to_string}
use but_telepresence.Headset.Enums.{ConnectionStatus}
use but_telepresence.Headset.Config.{StreamingConfig}
use but_telepresence.Headset.Rest.{Reply, start_stream}
use but_telepresence.Headset.Settings.{Applied}
use but_telepresence.Headset.Receiver.{Decoder, configured_for}
use but_telepresence.Headset.Ntp.{Timer, is_sync_stale, get_time_since_last_sync_us}

pub data SessionState : Type 0 where
  unknown idle ready synchronized visible focused stopping loss_pending exiting : SessionState

pub data Event : Type 0 where
  instance_loss_pending other : Event
  session_state_changed : (session : ℕ) → SessionState → Event
  user_presence_changed : Bool → Event

-- What the program asks of the runtime.
pub data Call : Type 0 where
  begin_session end_session frame : Call

-- s_session_state and s_session_running, the session, headsetMounted, and the calls, the latest first.
pub record Session : Type 0 where
  pub session : ℕ
  pub session_state : SessionState
  pub session_running : Bool
  pub mounted : Bool
  pub calls : List Call

-- *exit and *request_restart.
pub record Flags : Type 0 where
  pub exit : Bool
  pub request_restart : Bool

abbrev pub enter : SessionState → Flags × Session → Flags × Session
enter SessionState.ready (f, s) =
    (f, record s { session_running = true; calls = begin_session ∷ s.calls })
enter SessionState.stopping (f, s) =
    (f, record s { session_running = false; calls = end_session ∷ s.calls })
enter SessionState.exiting (f, s) = (record { exit = true; request_restart = false }, s)
enter SessionState.loss_pending (f, s) = (record { exit = true; request_restart = true }, s)
enter _ (f, s) = (f, s)

-- An event of an unknown session still changes s_session_state.
unfoldable pub handle_session_state_changed :
    (session : ℕ) → SessionState → Flags × Session → Flags × Session
handle_session_state_changed session state (f, s) =
    let t = record s { session_state = state } in
    if not (session == 0) && not (session == s.session) then (f, t) else enter state (f, t)

-- The loop over the pending events; the loss of the instance ends it.
unfoldable pub poll_from : List Event → Flags × Session → Flags × Session
poll_from [] r = r
poll_from (instance_loss_pending ∷ es) r = (record { exit = true; request_restart = true }, r.1)
poll_from (session_state_changed session state ∷ es) r =
    poll_from es (handle_session_state_changed session state r)
poll_from (user_presence_changed present ∷ es) r =
    poll_from es (r.0, record r.1 { mounted = present })
poll_from (other ∷ es) r = poll_from es r

unfoldable pub poll_events : List Event → Session → Flags × Session
poll_events es s = poll_from es (record { exit = false; request_restart = false }, s)

-- ntpSync with its text.
pub record NtpStatus : Type 0 where
  pub ntp_sync : ConnectionStatus
  pub text : Str

unfoldable pub ntp_status : Timer → (now : ℕ) → NtpStatus → NtpStatus
ntp_status t now n =
    if is_sync_stale t now
    then record {
      ntp_sync = ConnectionStatus.failed;
      text =
          codes "Stale ("
          ++ (nat_to_string (get_time_since_last_sync_us t now / 1000000) ++ codes " s)");
    }
    else if t.sync_healthy
    then record { ntp_sync = ConnectionStatus.connected; text = codes "Synced" }
    else if ltb_ℤ (pos 0) (signed32 t.consecutive_sync_failures)
    then record { ntp_sync = ConnectionStatus.failed; text = codes "Not Synced" }
    else n

-- UpdateFrame after the poll; openxr_is_session_running gives `running`.
abbrev pub after_poll :
    (running : Bool) → Timer → (now : ℕ) → Session → NtpStatus → Session × NtpStatus
after_poll running t now s n =
    if running then (record s { calls = frame ∷ s.calls }, ntp_status t now n) else (s, n)

-- UpdateFrame: the two flags are read by nothing.
unfoldable pub update_frame :
    Timer → (now : ℕ) → List Event → Session × NtpStatus → Session × NtpStatus
update_frame t now es (s, n) =
    let r = (poll_events es s).1 in after_poll r.session_running t now r n

-- InitializeStreaming behind configurePipelines, for the reply to StartStream.
abbrev pub started_with :
    Reply → StreamingConfig → (built : Option (Option StreamingConfig)) → Option Applied
started_with reply config none = none
started_with reply config (some built_for) = some (record {
  last_applied = some config;
  camera_server =
      if int_eq (start_stream reply) (pos 0)
      then ConnectionStatus.connected
      else ConnectionStatus.failed;
  built_for = built_for;
})

-- InitializeStreaming: the decode pipelines are configured whether or not the stream was started;
-- `none` where that throws.
unfoldable pub initialize_streaming : Decoder → Reply → StreamingConfig → Option Applied
initialize_streaming d reply config = started_with reply config (configured_for d config none)

-- Whether the destructor stops the stream.
unfoldable pub stops_stream : ConnectionStatus → Bool
stops_stream ConnectionStatus.connected = true
stops_stream _ = false
