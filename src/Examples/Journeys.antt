-- ===== src/Examples/Journeys.antt =====
-- One frame from the camera source of the robot to the last queue of the headset, and the history.
use but_telepresence.Prelude.{
  inl, ℕ, ◌+◌, ◌-◌, ◌*◌, ◌/◌, ◌≡◌, refl, none, some, [], ◌∷◌, arith, ltb,
}
use but_telepresence.Prelude.Int.{pos_part}
use but_telepresence.Pts.{find}
use but_telepresence.Driver.Latency.{PipelineState}
use but_telepresence.Driver.Latency.Embedding.{on_packet, IsMeasured}
use but_telepresence.Headset.Stats.{Doubles, CameraStats, snapshot}
use but_telepresence.Headset.Stats.History.{updates, last_n, updates-last_n}
use but_telepresence.Headset.Probes.Arrival.{last_time}
use but_telepresence.Headset.Probes.Total.{Frame, passes, IsInOrder}
use but_telepresence.Link.EndToEnd.{extension_of, end_to_end}

-- Natural numbers in place of doubles.
abbrev whole : Doubles
whole = record {
  plus = λ a b. a + b;
  minus = λ a b. a - b;
  times = λ a b. a * b;
  divide = λ a b. a / b;
  less = ltb;
  of_int = pos_part;
  of_unsigned = λ n. n;
  to_u32 = λ n. n;
  to_u64 = λ n. n;
  million = 1000000;
  sixteen = 16;
}

abbrev fresh_stats : CameraStats
fresh_stats = record {
  prev_timestamp = 0;
  curr_timestamp = 0;
  fps = 0;
  camera = 0;
  vid_conv = 0;
  enc = 0;
  rtp_pay = 0;
  udp_stream = 0;
  jb_hold = 0;
  rtp_depay = 0;
  dec = 0;
  queue = 0;
  appsink = 0;
  presentation = 0;
  total_latency = 0;
  rtp_pay_timestamp = 0;
  frame_ready_timestamp = 0;
  frame_id = 0;
  packets_per_frame = 0;
  last_measured_frame_ready = 0;
  rtp_ts_arrival_map = [];
  postjb_pts_map = [];
  depay_pts_map = [];
  dec_pts_map = [];
  queue_pts_map = [];
  last_seen_rtp_ts = 0;
  jb_num_lost = 0;
  rtx_count = 0;
  jitter_us = 0;
  actual_bitrate_bps = 0;
  bitrate_win_bytes = 0;
  bitrate_win_start_us = 0;
  jitter_prev_arrival_us = 0;
  jitter_prev_rtp_ts = 0;
  jitter_accum = 0;
  history = [];
}

-- The driver when the frame with the timestamp 33 has left its encoder.
abbrev encoded : PipelineState
encoded = record {
  frame_id = 7;
  last_embedded_pts = 16;
  camera_frame_duration = 37500;
  camsrc_pts_map = (33, 1000) ∷ [];
  vidconv_pts_map = (33, 1400) ∷ [];
  enc_pts_map = (33, 5000) ∷ [];
}

abbrev frame : Frame
frame = record {
  ts = 90000;
  pts = 12;
  first = (
    6000,
    record {
      extension = extension_of (on_packet 5200 33 encoded).1;
      timestamp = 90000;
      size = 1400;
    },
  );
  packets = (6300, record { extension = λ i. none; timestamp = 90000; size = 1400 }) ∷ [];
  first_release = (21000, none);
  other_releases = (21200, some (0, 0)) ∷ [];
  depay = 21500;
  dec = 30000;
  queue = 30100;
}

encoded-IsMeasured : IsMeasured encoded 33 1000 1400 5000
unfolding find
encoded-IsMeasured = record {
  camsrc = refl;
  vidconv = refl;
  enc = refl;
  started = omega arith;
  ordered_2 = omega arith;
  ordered_3 = omega arith;
}

frame-IsInOrder : IsInOrder frame 5200
unfolding last_time
frame-IsInOrder = record {
  keyed = λ e. omega (arith, e);
  follow = ((record { bare = λ i. refl; timestamp_is = refl }, (omega arith, omega arith)), tt);
  started = omega arith;
  after_left = omega arith;
  arrived = omega arith;
  held = omega arith;
  released = omega arith;
  unpacked = omega arith;
  decoded = omega arith;
  queued = omega arith;
  in_range = omega arith;
  in_range_queue = omega arith;
}

-- 37500 of the sensor, 29100 on the way, 300 between the arrivals, less 200 between the releases.
end_to_end_example :
    (passes whole 60 frame fresh_stats).total_latency
      + (last_time 21000 frame.other_releases - 21000)
    ≡ 37500 + (30100 - 1000) + (last_time 6000 frame.packets - 6000)
end_to_end_example =
    end_to_end whole 60 5200 33 1000 1400 5000 encoded frame fresh_stats encoded-IsMeasured
      (omega arith) (λ e. omega (arith, e)) (λ i. refl) refl tt (λ e. omega (arith, e))
      frame-IsInOrder (omega arith)

abbrev numbered : ℕ → CameraStats
numbered n = record fresh_stats { frame_id = n }

updates-last_n_example :
    updates whole 0 (numbered 2 ∷ numbered 3 ∷ []) (snapshot (numbered 1) ∷ [])
    ≡ last_n 2 (snapshot (numbered 1) ∷ snapshot (numbered 2) ∷ snapshot (numbered 3) ∷ [])
updates-last_n_example =
    updates-last_n whole 0 2 (numbered 2 ∷ numbered 3 ∷ []) (snapshot (numbered 1) ∷ [])
      (omega arith) (omega arith) (inl refl) (omega arith)
