-- ===== src/Headset/Probes.antt =====
-- The latency callbacks of VR_App/src/gstreamer_player.cpp for the eye of a pipeline:
-- onRtpHeaderMetadata, onIdentityHandoff, the first part of newFrameCallback, and the presentation
-- stage that RenderLayer of VR_App/src/program.cpp measures. The clock, the buffers and the counters
-- of the jitter buffer are arguments.
pub mod Arrival
pub mod Stages
pub mod Total
use but_telepresence.Prelude.{
  ℕ, suc, ◌+◌, ◌-◌, ◌*◌, ◌/◌, ◌^◌, Bool, true, false, not, ◌&&◌, Option, none, some, if◌then◌else◌,
  ltb, leb, ◌==◌,
}
use but_telepresence.Prelude.Int.{ℤ, pos, negsuc, sub_ℕ, ◌-ℤ◌, ltb_ℤ}
use but_telepresence.Prelude.Words.{u16, u32, u64, sub32, sub64, signed32, signed64}
use but_telepresence.Pts.{PtsMap, store, consume}
use but_telepresence.Headset.Stats.{Doubles, CameraStats, update_history}

-- What gst_rtp_buffer_get_extension_onebyte_header finds under the id 1, by index.
pub record RtpPacket : Type 0 where
  pub extension : ℕ → Option ℕ
  pub timestamp : ℕ
  pub size : ℕ

-- An extension that is not there leaves the value.
abbrev pub or_kept : Option ℕ → ℕ → ℕ
or_kept none v = v
or_kept (some w) v = w

unfoldable pub read_extensions : RtpPacket → CameraStats → CameraStats
read_extensions k s = record s {
  total_latency = 0;
  frame_id = or_kept (k.extension 0) s.frame_id;
  packets_per_frame = elim (k.extension 0) [ none ↦ s.packets_per_frame | some i ↦ 0 ];
  camera = or_kept (k.extension 1) s.camera;
  vid_conv = or_kept (k.extension 2) s.vid_conv;
  enc = or_kept (k.extension 3) s.enc;
  rtp_pay = or_kept (k.extension 4) s.rtp_pay;
  rtp_pay_timestamp = or_kept (k.extension 5) s.rtp_pay_timestamp;
}

unfoldable pub arrive : (now : ℕ) → RtpPacket → CameraStats → CameraStats
arrive now k s =
    let seen = k.timestamp == s.last_seen_rtp_ts in
    record s {
      udp_stream = sub64 now s.rtp_pay_timestamp;
      rtp_ts_arrival_map =
          if seen then s.rtp_ts_arrival_map else store k.timestamp now s.rtp_ts_arrival_map;
      last_seen_rtp_ts = k.timestamp;
      packets_per_frame = u16 (suc s.packets_per_frame);
    }

-- Bytes over microseconds as bits per second, at most 0xFFFFFFFF.
abbrev pub bits_per_second : (bytes elapsed : ℕ) → ℕ
bits_per_second bytes elapsed =
    let bps = u64 (u64 (bytes * 8) * 1000000) / elapsed in
    if ltb (2 ^ 32 - 1) bps then 2 ^ 32 - 1 else bps

unfoldable pub measure_bitrate : (now size : ℕ) → CameraStats → CameraStats
measure_bitrate now size s =
    let bytes = u64 (s.bitrate_win_bytes + size) in
    let elapsed = sub64 now s.bitrate_win_start_us in
    if s.bitrate_win_start_us == 0
    then record s { bitrate_win_start_us = now; bitrate_win_bytes = size }
    else if leb 1000000 elapsed
    then record s {
      actual_bitrate_bps = bits_per_second bytes elapsed;
      bitrate_win_start_us = now;
      bitrate_win_bytes = 0;
    }
    else record s { bitrate_win_bytes = bytes }

-- Ticks of the 90 kHz clock in microseconds; the division goes towards zero.
abbrev pub ticks_us : ℤ → ℤ
ticks_us (pos n) = pos (n * 1000000 / 90000)
ticks_us (negsuc n) = sub_ℕ 0 (suc n * 1000000 / 90000)

abbrev pub next_jitter : Doubles → (difference accum : ℕ) → ℕ
next_jitter d difference accum =
    let absolute = if d.less difference 0 then d.minus 0 difference else difference in
    d.plus accum (d.divide (d.minus absolute accum) d.sixteen)

unfoldable pub measure_jitter : Doubles → (now rtp_ts : ℕ) → CameraStats → CameraStats
measure_jitter d now rtp_ts s =
    let arrived = signed64 (sub64 now s.jitter_prev_arrival_us) in
    let sent = ticks_us (signed32 (sub32 rtp_ts s.jitter_prev_rtp_ts)) in
    let j = next_jitter d (d.of_int (arrived -ℤ sent)) s.jitter_accum in
    let first = s.jitter_prev_arrival_us == 0 in
    record s {
      jitter_accum = if first then s.jitter_accum else j;
      jitter_us = if first then s.jitter_us else d.to_u32 (if d.less j 0 then 0 else j);
      jitter_prev_arrival_us = now;
      jitter_prev_rtp_ts = rtp_ts;
    }

unfoldable pub on_rtp_header_metadata : Doubles → (now : ℕ) → RtpPacket → CameraStats → CameraStats
on_rtp_header_metadata d now k s =
    measure_jitter d now k.timestamp
      (measure_bitrate now k.size (arrive now k (read_extensions k s)))

-- The identity element of a handoff, with what is read for postjb_ident: the RTP timestamp of a
-- buffer that is mapped, and the counters num-lost and rtx-count of a jitter buffer that is found.
pub data Probe : Type 0 where
  postjb_ident : (rtp_ts : Option ℕ) (counters : Option (ℕ × ℕ)) → Probe
  rtpdepay_ident dec_ident queue_ident other : Probe

-- stage = now - enter, if the frame is known and time has passed.
abbrev pub since : (now enter kept : ℕ) → ℕ
since now enter kept = if not (enter == 0) && ltb enter now then now - enter else kept

abbrev pub hold : (now : ℕ) → Option ℕ → CameraStats → CameraStats
hold now none s = s
hold now (some rtp_ts) s =
    let arrived = consume rtp_ts s.rtp_ts_arrival_map in
    record s { rtp_ts_arrival_map = arrived.1; jb_hold = since now arrived.0 s.jb_hold }

abbrev pub count_losses : Option (ℕ × ℕ) → CameraStats → CameraStats
count_losses none s = s
count_losses (some (lost, rtx)) s = record s { jb_num_lost = u32 lost; rtx_count = u32 rtx }

abbrev pub pass_postjb : (now pts : ℕ) → CameraStats → CameraStats
pass_postjb now pts s = record s { postjb_pts_map = store pts now s.postjb_pts_map }

abbrev pub pass_depay : (now pts : ℕ) → CameraStats → CameraStats
pass_depay now pts s =
    let entered = consume pts s.postjb_pts_map in
    record s {
      postjb_pts_map = entered.1;
      rtp_depay = since now entered.0 s.rtp_depay;
      depay_pts_map = store pts now s.depay_pts_map;
    }

abbrev pub pass_dec : (now pts : ℕ) → CameraStats → CameraStats
pass_dec now pts s =
    let entered = consume pts s.depay_pts_map in
    record s {
      depay_pts_map = entered.1;
      dec = since now entered.0 s.dec;
      dec_pts_map = store pts now s.dec_pts_map;
    }

abbrev pub pass_queue : (now pts : ℕ) → CameraStats → CameraStats
pass_queue now pts s =
    let entered = consume pts s.dec_pts_map in
    record s {
      dec_pts_map = entered.1;
      queue = since now entered.0 s.queue;
      queue_pts_map = store pts now s.queue_pts_map;
    }

abbrev pub total_of : CameraStats → ℕ
total_of s = u64 (
    s.camera + s.vid_conv + s.enc + s.rtp_pay + s.udp_stream + s.jb_hold + s.rtp_depay + s.dec
    + s.queue)

-- `pts` is ptsKey: 0 for a buffer without a timestamp.
abbrev pub if_keyed : (pts : ℕ) → (CameraStats → CameraStats) → CameraStats → CameraStats
if_keyed pts f s = if pts == 0 then s else f s

unfoldable pub on_identity_handoff :
    Doubles → (window_frames now pts : ℕ) → Probe → CameraStats → CameraStats
on_identity_handoff d w now pts (postjb_ident rtp_ts counters) s =
    if_keyed pts (pass_postjb now pts) (count_losses counters (hold now rtp_ts s))
on_identity_handoff d w now pts rtpdepay_ident s = if_keyed pts (pass_depay now pts) s
on_identity_handoff d w now pts dec_ident s = if_keyed pts (pass_dec now pts) s
on_identity_handoff d w now pts queue_ident s =
    let t = if_keyed pts (pass_queue now pts) s in
    update_history d w (record t { total_latency = total_of t })
on_identity_handoff d w now pts other s = s

-- newFrameCallback up to the caps of the sample.
unfoldable pub on_new_sample : Doubles → (now : ℕ) → (pts : Option ℕ) → CameraStats → CameraStats
on_new_sample d now pts s =
    let current = d.of_unsigned now in
    let ready = d.to_u64 current in
    let t = record s {
      prev_timestamp = s.curr_timestamp;
      curr_timestamp = current;
      frame_ready_timestamp = ready;
    } in
    elim pts [
      | none ↦ t
      | some k ↦
          let entered = consume k t.queue_pts_map in
          record t {
            queue_pts_map = entered.1;
            appsink =
                if not (entered.0 == 0) && leb entered.0 ready
                then ready - entered.0
                else t.appsink;
          }
    ]

-- Nanoseconds in microseconds, where less than nothing counts as nothing.
abbrev pub thousandth : ℤ → ℕ
thousandth (pos n) = n / 1000
thousandth (negsuc n) = 0

-- RenderLayer: the first render after a new frame, from the clock, CLOCK_MONOTONIC and the predicted
-- display time.
unfoldable pub measure_presentation :
    (now : ℕ) → (monotonic_now_ns predicted_display_ns : ℤ) → CameraStats → CameraStats
measure_presentation now monotonic predicted s =
    let ready = s.frame_ready_timestamp in
    if ltb 0 ready && not (ready == s.last_measured_frame_ready)
    then record s {
      presentation = u64 (sub64 now ready + thousandth (predicted -ℤ monotonic));
      last_measured_frame_ready = ready;
    }
    else s
