-- ===== src/Headset/Sender.antt =====
-- VR_App/src/robot_control_sender.cpp, VR_App/include/robot_control_sender.h and
-- TelepresenceProgram::SendControllerDatagram of VR_App/src/program.cpp: what the frames hand to
-- the thread pool, what the pool sends, and the connection status. A pool task's update of the
-- counters is one step. `sendto`, the clock, the conversion of the quaternion (floating point) and
-- the success of `socket` are parameters.
pub mod Counters
pub mod Status
use but_telepresence.Prelude.{
  ℕ, zero, suc, Bool, true, false, not, ◌&&◌, Option, none, some, List, [], ◌∷◌, ◌++◌,
  if◌then◌else◌,
}
use but_telepresence.Prelude.Int.{ℤ, pos, ltb_ℤ}
use but_telepresence.Prelude.Text.{Str, codes}
use but_telepresence.Prelude.Words.{u32, signed32}
use but_telepresence.Headset.Enums.{ConnectionStatus}
use but_telepresence.Headset.Config.{StreamingConfig}
use but_telepresence.Headset.Snapshot.{CameraStatsSnapshot, empty_snapshot}
use but_telepresence.Headset.Packet.{
  NtpReadings, head_pose_packet, robot_control_packet, debug_info_packet,
}

-- consecutiveFailures_ and successfulSends_, the bit patterns of two int.
pub record Health : Type 0 where
  pub consecutive_failures : ℕ
  pub successful_sends : ℕ

abbrev pub fresh_health : Health
fresh_health = record { consecutive_failures = 0; successful_sends = 0 }

abbrev pub failure_threshold : ℤ
failure_threshold = pos 10

unfoldable pub has_connection_issue : Health → Bool
has_connection_issue h = not (ltb_ℤ (signed32 h.consecutive_failures) failure_threshold)

unfoldable pub has_ever_succeeded : Health → Bool
has_ever_succeeded h = ltb_ℤ (pos 0) (signed32 h.successful_sends)

abbrev pub one_more_failure : Health → Health
one_more_failure h = record h { consecutive_failures = u32 (suc h.consecutive_failures) }

abbrev pub no_failures : Health → Health
no_failures h = record h { consecutive_failures = 0 }

-- The three packets; `sendto` gives the result of the system call for the bytes. Only a head pose
-- counts as a successful send.
unfoldable pub send_head_pose_packet :
    (sendto : List ℕ → ℤ) (azimuth elevation speed timestamp : ℕ) → Health → Health
send_head_pose_packet sendto azimuth elevation speed timestamp h =
    if ltb_ℤ (sendto (head_pose_packet azimuth elevation speed timestamp)) (pos 0)
    then one_more_failure h
    else record { consecutive_failures = 0; successful_sends = u32 (suc h.successful_sends) }

unfoldable pub send_robot_control_packet :
    (sendto : List ℕ → ℤ) (linear_x linear_y angular timestamp : ℕ) → Health → Health
send_robot_control_packet sendto linear_x linear_y angular timestamp h =
    if ltb_ℤ (sendto (robot_control_packet linear_x linear_y angular timestamp)) (pos 0)
    then one_more_failure h
    else no_failures h

unfoldable pub send_debug_info_packet :
    (sendto : List ℕ → ℤ) (left right : CameraStatsSnapshot)
    → StreamingConfig
    → NtpReadings
    → (timestamp : ℕ) → Health
    → Health
send_debug_info_packet sendto left right config ntp timestamp h =
    if ltb_ℤ (sendto (debug_info_packet left right config ntp timestamp)) (pos 0)
    then one_more_failure h
    else no_failures h

-- XrQuaternionf, the four bit patterns.
pub record Quaternion : Type 0 where
  pub x : ℕ
  pub y : ℕ
  pub z : ℕ
  pub w : ℕ

-- The tasks of sendHeadPose, sendRobotControl and sendDebugInfo, with what each captures.
pub data Task : Type 0 where
  head_pose : (orientation : Quaternion) → (speed : ℕ) → Task
  robot_control : (linear_x linear_y angular : ℕ) → Task
  debug_info : (left right : CameraStatsSnapshot) → StreamingConfig → Task

-- What a task meets when the pool runs it.
pub record World : Type 0 where
  pub to_azimuth_elevation : Quaternion → ℕ × ℕ
  pub now_us : ℕ
  pub ntp : NtpReadings
  pub sendto : List ℕ → ℤ

unfoldable pub run_task : World → Task → Health → Health
run_task e (Task.head_pose q speed) =
    let angles = e.to_azimuth_elevation q in
    send_head_pose_packet e.sendto angles.0 angles.1 speed e.now_us
run_task e (Task.robot_control x y angular) =
    send_robot_control_packet e.sendto x y angular e.now_us
run_task e (Task.debug_info left right config) =
    send_debug_info_packet e.sendto left right config e.ntp e.now_us

pub record Sender : Type 0 where
  pub is_initialized : Bool
  pub health : Health

-- What the frame reads of the user, of AppState and of the platform.
pub record Frame : Type 0 where
  pub headset_mounted : Bool
  pub socket_opened : Bool
  pub orientation : Quaternion
  pub max_speed : ℕ
  pub robot_control_enabled : Bool
  pub render_gui : Bool
  pub right_x : ℕ
  pub right_y : ℕ
  pub left_x : ℕ
  pub left_stats : Option CameraStatsSnapshot
  pub right_stats : Option CameraStatsSnapshot
  pub config : StreamingConfig

-- robotControlSender_, the status and its text in AppState, and the tasks that the pool still holds.
pub record Control : Type 0 where
  pub sender : Option Sender
  pub status : ConnectionStatus
  pub status_text : Str
  pub tasks : List Task

abbrev pub initial_control : Control
initial_control = record {
  sender = none;
  status = ConnectionStatus.unknown;
  status_text = codes "Unknown";
  tasks = [];
}

-- The sender, made at the first call.
unfoldable pub ensure_sender : Frame → Control → Sender × Control
ensure_sender f c = elim c.sender [
  | some s ↦ (s, c)
  | none ↦
      let s : Sender = record { is_initialized = f.socket_opened; health = fresh_health } in
      if f.socket_opened
      then (
        s,
        record c {
          sender = some s;
          status = ConnectionStatus.connecting;
          status_text = codes "Connecting";
        },
      )
      else (
        s,
        record c {
          sender = some s;
          status = ConnectionStatus.failed;
          status_text = codes "Socket Failed";
        },
      )
]

unfoldable pub frame_tasks : Frame → List Task
frame_tasks f =
    Task.head_pose f.orientation f.max_speed
      ∷ (if f.robot_control_enabled && not f.render_gui
          then Task.robot_control f.right_y f.right_x f.left_x ∷ []
          else [])
    ++ elim f.left_stats [
      | none ↦ []
      | some left ↦
          Task.debug_info left (elim f.right_stats [ none ↦ empty_snapshot | some right ↦ right ])
            f.config
          ∷ []
    ]

abbrev pub is_failed : ConnectionStatus → Bool
is_failed ConnectionStatus.failed = true
is_failed _ = false

abbrev pub is_connected : ConnectionStatus → Bool
is_connected ConnectionStatus.connected = true
is_connected _ = false

unfoldable pub update_status : Health → Control → Control
update_status h c =
    if has_connection_issue h
    then if is_failed c.status
      then c
      else record c { status = ConnectionStatus.failed; status_text = codes "Connection Lost" }
    else if has_ever_succeeded h && not (is_connected c.status)
    then record c { status = ConnectionStatus.connected; status_text = codes "Connected" }
    else c

unfoldable pub send_controller_datagram : Frame → Control → Control
send_controller_datagram f c =
    let ready = ensure_sender f c in
    let queued : Control = record ready.1 { tasks = ready.1.tasks ++ frame_tasks f } in
    if f.headset_mounted
    then if ready.0.is_initialized then update_status ready.0.health queued else ready.1
    else c

-- The pool runs the task at a position of its queue.
abbrev pub remove_at {ℓ} : {A : Type ℓ} → ℕ → List A → List A
remove_at i [] = []
remove_at zero (x ∷ xs) = xs
remove_at (suc i) (x ∷ xs) = x ∷ remove_at i xs

unfoldable pub pool_runs : World → ℕ → Task → Control → Control
pool_runs e i t c = elim c.sender [
  | none ↦ c
  | some s ↦ record c {
    sender = some (record s { health = run_task e t s.health });
    tasks = remove_at i c.tasks;
  }
]
