-- ===== src/Headset/Snapshot.antt =====
-- VR_App/include/types/camera_types.h: CameraStatsSnapshot. A double is its 64-bit pattern, and the
-- unsigned fields keep the width of the source.
use but_telepresence.Prelude.{ℕ}

pub record CameraStatsSnapshot : Type 0 where
  pub prev_timestamp : ℕ  -- double
  pub curr_timestamp : ℕ  -- double
  pub fps : ℕ  -- double
  pub camera : ℕ  -- uint64_t, as are the stages below
  pub vid_conv : ℕ
  pub enc : ℕ
  pub rtp_pay : ℕ
  pub udp_stream : ℕ
  pub jb_hold : ℕ
  pub rtp_depay : ℕ
  pub dec : ℕ
  pub queue : ℕ
  pub appsink : ℕ
  pub presentation : ℕ
  pub total_latency : ℕ
  pub rtp_pay_timestamp : ℕ
  pub frame_ready_timestamp : ℕ
  pub frame_id : ℕ
  pub packets_per_frame : ℕ  -- uint16_t
  pub jb_num_lost : ℕ  -- uint32_t, as are those below
  pub rtx_count : ℕ
  pub jitter_us : ℕ
  pub actual_bitrate_bps : ℕ

-- CameraStatsSnapshot{}.
abbrev pub empty_snapshot : CameraStatsSnapshot
empty_snapshot = record {
  prev_timestamp = 0;
  curr_timestamp = 0;
  fps = 0;
  camera = 0;
  vid_conv = 0;
  enc = 0;
  rtp_pay = 0;
  udp_stream = 0;
  jb_hold = 0;
  rtp_depay = 0;
  dec = 0;
  queue = 0;
  appsink = 0;
  presentation = 0;
  total_latency = 0;
  rtp_pay_timestamp = 0;
  frame_ready_timestamp = 0;
  frame_id = 0;
  packets_per_frame = 0;
  jb_num_lost = 0;
  rtx_count = 0;
  jitter_us = 0;
  actual_bitrate_bps = 0;
}
