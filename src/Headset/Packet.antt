-- ===== src/Headset/Packet.antt =====
-- VR_App/src/robot_control_sender.cpp and VR_App/include/robot_control_sender.h: the packets of
-- the three messages. A number of the program is its bit pattern, floats and doubles too; a field
-- is written by serializeLittleEndian as the bytes in memory, which on the headset is the low byte
-- first.
pub mod Decode
use but_telepresence.Prelude.{
  ℕ, zero, suc, ◌/◌, ◌%◌, ◌^◌, ◌≡◌, refl, Bool, List, [], ◌∷◌, ◌++◌, if◌then◌else◌,
}
use but_telepresence.Prelude.Int.{ℤ}
use but_telepresence.Prelude.Words.{cast}
use but_telepresence.Headset.Enums.{codec_to_int, video_mode_to_int}
use but_telepresence.Headset.Config.{StreamingConfig}
use but_telepresence.Headset.Snapshot.{CameraStatsSnapshot}

-- serializeLittleEndian for a value of `size` bytes.
unfoldable pub serialize_little_endian : (size : ℕ) → (value : ℕ) → List ℕ
serialize_little_endian zero value = []
serialize_little_endian (suc n) value = (value % 256) ∷ serialize_little_endian n (value / 256)

-- A packet: its fields in the order of the calls, each with sizeof of its type. A push_back of a
-- byte is a field of one byte.
pub serialize : List (ℕ × ℕ) → List ℕ
unfolding serialize_little_endian
serialize [] = []
serialize ((size, value) ∷ fields) = serialize_little_endian size value ++ serialize fields

abbrev pub msg_head_pose : ℕ
msg_head_pose = 1

abbrev pub msg_robot_control : ℕ
msg_robot_control = 2

abbrev pub msg_debug_info : ℕ
msg_debug_info = 3

abbrev pub head_pose_fields : (azimuth elevation speed timestamp : ℕ) → List (ℕ × ℕ)
head_pose_fields azimuth elevation speed timestamp =
    (1, msg_head_pose) ∷ (4, azimuth) ∷ (4, elevation) ∷ (4, speed) ∷ (8, timestamp) ∷ []

abbrev pub robot_control_fields : (linear_x linear_y angular timestamp : ℕ) → List (ℕ × ℕ)
robot_control_fields linear_x linear_y angular timestamp =
    (1, msg_robot_control) ∷ (4, linear_x) ∷ (4, linear_y) ∷ (4, angular) ∷ (8, timestamp) ∷ []

-- What the packet takes from the timer.
pub record NtpReadings : Type 0 where
  pub smoothed_offset_us : ℤ
  pub has_initial_offset : Bool
  pub time_since_last_sync_us : ℕ

abbrev pub debug_info_fields :
    (left right : CameraStatsSnapshot)
    → StreamingConfig
    → NtpReadings
    → (timestamp : ℕ) → List (ℕ × ℕ)
debug_info_fields left right config ntp timestamp =
    (1, msg_debug_info)
    ∷ (8, timestamp)
    ∷ (8, left.frame_id)
    ∷ (8, left.fps)
    ∷ (8, left.camera)
    ∷ (8, left.vid_conv)
    ∷ (8, left.enc)
    ∷ (8, left.rtp_pay)
    ∷ (8, left.udp_stream)
    ∷ (8, left.jb_hold)
    ∷ (8, left.rtp_depay)
    ∷ (8, left.dec)
    ∷ (8, left.appsink)
    ∷ (8, left.presentation)
    ∷ (8, cast (2 ^ 64) ntp.smoothed_offset_us)
    ∷ (1, (if ntp.has_initial_offset then 1 else 0))
    ∷ (8, ntp.time_since_last_sync_us)
    ∷ (1, cast (2 ^ 8) (codec_to_int config.codec))
    ∷ (1, cast (2 ^ 8) (video_mode_to_int config.video_mode))
    ∷ (2, cast (2 ^ 16) config.resolution.width)
    ∷ (2, cast (2 ^ 16) config.resolution.height)
    ∷ (2, cast (2 ^ 16) config.fps)
    ∷ (4, cast (2 ^ 32) config.bitrate)
    ∷ (4, left.jb_num_lost)
    ∷ (4, left.rtx_count)
    ∷ (4, left.jitter_us)
    ∷ (4, left.actual_bitrate_bps)
    ∷ (4, right.jb_num_lost)
    ∷ (4, right.rtx_count)
    ∷ (4, right.jitter_us)
    ∷ (4, right.actual_bitrate_bps)
    ∷ []

-- The packets of sendHeadPosePacket, sendRobotControlPacket and sendDebugInfoPacket.
unfoldable pub head_pose_packet : (azimuth elevation speed timestamp : ℕ) → List ℕ
unfolding serialize
head_pose_packet azimuth elevation speed timestamp =
    serialize (head_pose_fields azimuth elevation speed timestamp)

unfoldable pub robot_control_packet : (linear_x linear_y angular timestamp : ℕ) → List ℕ
unfolding serialize
robot_control_packet linear_x linear_y angular timestamp =
    serialize (robot_control_fields linear_x linear_y angular timestamp)

unfoldable pub debug_info_packet :
    (left right : CameraStatsSnapshot) → StreamingConfig → NtpReadings → (timestamp : ℕ) → List ℕ
unfolding serialize
debug_info_packet left right config ntp timestamp =
    serialize (debug_info_fields left right config ntp timestamp)
