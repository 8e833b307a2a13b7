-- ===== src/Headset/Stats.antt =====
-- CameraStats of VR_App/include/types/camera_types.h and VR_App/src/camera_stats.cpp: the measured
-- values of one eye, and the history of snapshots. A double is its 64-bit pattern, and the arithmetic
-- of double is a parameter; a call is atomic.
pub mod History
use but_telepresence.Prelude.{
  ℕ, suc, ◌+◌, ◌-◌, ◌*◌, ◌/◌, Bool, Option, none, some, List, [], ◌∷◌, ◌++◌, if◌then◌else◌, ltb,
  leb, length,
}
use but_telepresence.Prelude.Int.{ℤ}
use but_telepresence.Prelude.Words.{u64}
use but_telepresence.Pts.{PtsMap}
use but_telepresence.Headset.Snapshot.{CameraStatsSnapshot, empty_snapshot}

-- Arithmetic of double on bit patterns, the conversions, and the literals; 0.0 is the pattern 0.
pub record Doubles : Type 0 where
  pub plus : ℕ → ℕ → ℕ
  pub minus : ℕ → ℕ → ℕ
  pub times : ℕ → ℕ → ℕ
  pub divide : ℕ → ℕ → ℕ
  pub less : ℕ → ℕ → Bool
  pub of_int : ℤ → ℕ
  pub of_unsigned : ℕ → ℕ
  pub to_u32 : ℕ → ℕ
  pub to_u64 : ℕ → ℕ
  pub million : ℕ
  pub sixteen : ℕ

pub record CameraStats : Type 0 where
  pub prev_timestamp : ℕ
  pub curr_timestamp : ℕ
  pub fps : ℕ
  pub camera : ℕ
  pub vid_conv : ℕ
  pub enc : ℕ
  pub rtp_pay : ℕ
  pub udp_stream : ℕ
  pub jb_hold : ℕ
  pub rtp_depay : ℕ
  pub dec : ℕ
  pub queue : ℕ
  pub appsink : ℕ
  pub presentation : ℕ
  pub total_latency : ℕ
  pub rtp_pay_timestamp : ℕ
  pub frame_ready_timestamp : ℕ
  pub frame_id : ℕ
  pub packets_per_frame : ℕ
  pub last_measured_frame_ready : ℕ
  pub rtp_ts_arrival_map : PtsMap
  pub postjb_pts_map : PtsMap
  pub depay_pts_map : PtsMap
  pub dec_pts_map : PtsMap
  pub queue_pts_map : PtsMap
  pub last_seen_rtp_ts : ℕ
  pub jb_num_lost : ℕ
  pub rtx_count : ℕ
  pub jitter_us : ℕ
  pub actual_bitrate_bps : ℕ
  pub bitrate_win_bytes : ℕ
  pub bitrate_win_start_us : ℕ
  pub jitter_prev_arrival_us : ℕ
  pub jitter_prev_rtp_ts : ℕ
  pub jitter_accum : ℕ
  pub history : List CameraStatsSnapshot

unfoldable pub snapshot : CameraStats → CameraStatsSnapshot
snapshot s = record {
  prev_timestamp = s.prev_timestamp;
  curr_timestamp = s.curr_timestamp;
  fps = s.fps;
  camera = s.camera;
  vid_conv = s.vid_conv;
  enc = s.enc;
  rtp_pay = s.rtp_pay;
  udp_stream = s.udp_stream;
  jb_hold = s.jb_hold;
  rtp_depay = s.rtp_depay;
  dec = s.dec;
  queue = s.queue;
  appsink = s.appsink;
  presentation = s.presentation;
  total_latency = s.total_latency;
  rtp_pay_timestamp = s.rtp_pay_timestamp;
  frame_ready_timestamp = s.frame_ready_timestamp;
  frame_id = s.frame_id;
  packets_per_frame = s.packets_per_frame;
  jb_num_lost = s.jb_num_lost;
  rtx_count = s.rtx_count;
  jitter_us = s.jitter_us;
  actual_bitrate_bps = s.actual_bitrate_bps;
}

abbrev pub window_of : ℕ → ℕ
window_of window_frames = if ltb window_frames 2 then 2 else window_frames

-- while (history_.size() > windowFrames) history_.pop_front().
unfoldable pub trim : (window : ℕ) → List CameraStatsSnapshot → List CameraStatsSnapshot
trim window [] = []
trim window (x ∷ xs) =
    let rest = trim window xs in if ltb window (length (x ∷ xs)) then rest else x ∷ xs

unfoldable pub push :
    (window : ℕ) → CameraStatsSnapshot → List CameraStatsSnapshot → List CameraStatsSnapshot
push window snap h = trim window (h ++ (snap ∷ []))

-- history_.back(), given the front.
unfoldable pub back : CameraStatsSnapshot → List CameraStatsSnapshot → CameraStatsSnapshot
back x [] = x
back x (y ∷ ys) = back y ys

-- (n - 1) * 1e6 / dt over a history of at least two snapshots with a positive dt.
unfoldable pub windowed_fps : Doubles → List CameraStatsSnapshot → Option ℕ
windowed_fps d [] = none
windowed_fps d (x ∷ xs) =
    let dt_us = d.minus (back x xs).curr_timestamp x.curr_timestamp in
    if ltb 0 (length xs)
    then (if d.less 0 dt_us
        then some (d.divide (d.times (d.of_unsigned (length xs)) d.million) dt_us)
        else none)
    else none

unfoldable pub update_history : Doubles → (window_frames : ℕ) → CameraStats → CameraStats
update_history d window_frames s =
    let h = push (window_of window_frames) (snapshot s) s.history in
    record s { history = h; fps = elim (windowed_fps d h) [ none ↦ s.fps | some f ↦ f ] }

-- One round of the loop of averagedSnapshot; the unsigned sums wrap.
unfoldable pub add_to : Doubles → CameraStatsSnapshot → CameraStatsSnapshot → CameraStatsSnapshot
add_to d avg snap = record avg {
  prev_timestamp = d.plus avg.prev_timestamp snap.prev_timestamp;
  curr_timestamp = d.plus avg.curr_timestamp snap.curr_timestamp;
  camera = u64 (avg.camera + snap.camera);
  vid_conv = u64 (avg.vid_conv + snap.vid_conv);
  enc = u64 (avg.enc + snap.enc);
  rtp_pay = u64 (avg.rtp_pay + snap.rtp_pay);
  udp_stream = u64 (avg.udp_stream + snap.udp_stream);
  jb_hold = u64 (avg.jb_hold + snap.jb_hold);
  rtp_depay = u64 (avg.rtp_depay + snap.rtp_depay);
  dec = u64 (avg.dec + snap.dec);
  queue = u64 (avg.queue + snap.queue);
  appsink = u64 (avg.appsink + snap.appsink);
  presentation = u64 (avg.presentation + snap.presentation);
  total_latency = u64 (avg.total_latency + snap.total_latency);
}

unfoldable pub add_all :
    Doubles → CameraStatsSnapshot → List CameraStatsSnapshot → CameraStatsSnapshot
add_all d avg [] = avg
add_all d avg (x ∷ xs) = add_all d (add_to d avg x) xs

unfoldable pub averaged_snapshot : Doubles → CameraStats → CameraStatsSnapshot
averaged_snapshot d s = elim s.history [
  | [] ↦ snapshot s
  | x ∷ xs ↦
      let sum = add_all d empty_snapshot (x ∷ xs) in
      let count = length (x ∷ xs) in
      let latest = back x xs in
      record sum {
        prev_timestamp = d.divide sum.prev_timestamp (d.of_unsigned count);
        curr_timestamp = d.divide sum.curr_timestamp (d.of_unsigned count);
        camera = sum.camera / count;
        vid_conv = sum.vid_conv / count;
        enc = sum.enc / count;
        rtp_pay = sum.rtp_pay / count;
        udp_stream = sum.udp_stream / count;
        jb_hold = sum.jb_hold / count;
        rtp_depay = sum.rtp_depay / count;
        dec = sum.dec / count;
        queue = sum.queue / count;
        appsink = sum.appsink / count;
        presentation = sum.presentation / count;
        total_latency = sum.total_latency / count;
        fps = elim (windowed_fps d (x ∷ xs)) [ none ↦ 0 | some f ↦ f ];
        frame_id = latest.frame_id;
        packets_per_frame = latest.packets_per_frame;
        rtp_pay_timestamp = latest.rtp_pay_timestamp;
        frame_ready_timestamp = latest.frame_ready_timestamp;
      }
]
