-- ===== src/Examples/Senders.antt =====
-- The packets, the counters and the status of VR_App/src/robot_control_sender.cpp.
use but_telepresence.Prelude.{◌≡◌, refl, true, none, some, List, [], ◌∷◌, arith, length}
use but_telepresence.Prelude.Int.{ℤ, pos, negsuc}
use but_telepresence.Headset.Config.{default_config}
use but_telepresence.Headset.Snapshot.{empty_snapshot}
use but_telepresence.Headset.Packet.{NtpReadings, debug_info_packet}
use but_telepresence.Headset.Packet.Decode.{decode, decode_debug, debug_info_expected, IsSnapshot}
use but_telepresence.Headset.Sender.{
  Quaternion, Task, World, Frame, Control, initial_control, send_controller_datagram, pool_runs,
  has_connection_issue, has_ever_succeeded, ensure_sender, frame_tasks, update_status, run_task,
  send_head_pose_packet,
}
use but_telepresence.Headset.Sender.Counters.{Send, run_sends, has_connection_issue_lem}
use but_telepresence.Headset.Sender.Status.{
  Reach, start, frames, runs, IsFaithful, Reach-IsFaithful,
}

abbrev readings : NtpReadings
readings = record {
  smoothed_offset_us = negsuc 41;
  has_initial_offset = true;
  time_since_last_sync_us = 70000;
}

empty-IsSnapshot : IsSnapshot empty_snapshot
empty-IsSnapshot = record {
  frame_id = omega arith;
  fps = omega arith;
  camera = omega arith;
  vid_conv = omega arith;
  enc = omega arith;
  rtp_pay = omega arith;
  udp_stream = omega arith;
  jb_hold = omega arith;
  rtp_depay = omega arith;
  dec = omega arith;
  appsink = omega arith;
  presentation = omega arith;
  jb_num_lost = omega arith;
  rtx_count = omega arith;
  jitter_us = omega arith;
  actual_bitrate_bps = omega arith;
}

-- The bits of 1.0f, -1.0f and 990000.0f.
decode_debug_example :
    (decode (debug_info_packet empty_snapshot empty_snapshot default_config readings 99)
      ≡ some (debug_info_expected empty_snapshot empty_snapshot default_config readings 99))
    × (length (debug_info_packet empty_snapshot empty_snapshot default_config readings 99) ≡ 166)
decode_debug_example =
    decode_debug empty_snapshot empty_snapshot default_config readings 99 empty-IsSnapshot
      empty-IsSnapshot (omega arith) (omega arith)

abbrev ahead : Quaternion
ahead = record { x = 0; y = 0; z = 0; w = 0x3F800000 }

abbrev world : ℤ → World
world result = record {
  to_azimuth_elevation = λ q. (q.y, q.x);
  now_us = 1000;
  ntp = readings;
  sendto = λ bytes. result;
}

abbrev pose : Task
pose = Task.head_pose ahead 0x49717600

abbrev stop : Task
stop = Task.robot_control 0 0 0

-- Ten failures after a success: an issue.
abbrev outage : List Send
outage =
    (world (negsuc 0), pose)
    ∷ (world (negsuc 0), stop)
    ∷ (world (negsuc 0), pose)
    ∷ (world (negsuc 0), stop)
    ∷ (world (negsuc 0), pose)
    ∷ (world (negsuc 0), stop)
    ∷ (world (negsuc 0), pose)
    ∷ (world (negsuc 0), stop)
    ∷ (world (negsuc 0), pose)
    ∷ (world (negsuc 0), stop)
    ∷ (world (pos 21), pose)
    ∷ []

outage_reported : has_connection_issue (run_sends outage) ≡ true
outage_reported = (has_connection_issue_lem outage (omega arith)).0.1 (
  omega arith,
  (refl, (refl, (refl, (refl, (refl, (refl, (refl, (refl, (refl, (refl, tt)))))))))),
)

abbrev frame : Frame
frame = record {
  headset_mounted = true;
  socket_opened = true;
  orientation = ahead;
  max_speed = 0x49717600;
  robot_control_enabled = true;
  render_gui = true;
  right_x = 0;
  right_y = 0;
  left_x = 0;
  left_stats = none;
  right_stats = none;
  config = default_config;
}

abbrev after : Control
after =
    send_controller_datagram frame
      (pool_runs (world (pos 21)) 0 pose (send_controller_datagram frame initial_control))

-- A frame, the pool sends its head pose, and a frame that then reports the connection.
after-Reach : Reach after ((world (pos 21), pose) ∷ [])
unfolding send_controller_datagram ensure_sender frame_tasks update_status has_connection_issue
    has_ever_succeeded
after-Reach = frames frame (runs (world (pos 21)) 0 pose refl (frames frame start))

after_connected : after.status_text ≡ 67 ∷ 111 ∷ 110 ∷ 110 ∷ 101 ∷ 99 ∷ 116 ∷ 101 ∷ 100 ∷ []
unfolding send_controller_datagram ensure_sender frame_tasks update_status has_connection_issue
    has_ever_succeeded pool_runs run_task send_head_pose_packet
after_connected = refl

Reach-IsFaithful_example : IsFaithful after.sender after ((world (pos 21), pose) ∷ [])
Reach-IsFaithful_example = Reach-IsFaithful after-Reach (omega arith)
