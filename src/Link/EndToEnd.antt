-- ===== src/Link/EndToEnd.antt =====
-- The latency of a frame over both programs: what streaming_driver/include/logging.h embeds in the
-- packets, and what VR_App/src/gstreamer_player.cpp makes of it.
use but_telepresence.Prelude.{
  ℕ, ◌+◌, ◌-◌, ◌^◌, ◌≤◌, ◌<◌, ◌≡◌, ◌≢◌, ◌∙◌, ap, Option, none, some, arith, ◌==◌, if◌then◌else◌,
}
use but_telepresence.Pts.Laws.{HasUniqueKeys}
use but_telepresence.Driver.Latency.{PipelineState, Metadata, on_identity_handoff}
use but_telepresence.Driver.Latency.Embedding.{on_packet, IsMeasured, found}
use but_telepresence.Headset.Stats.{Doubles, CameraStats}
use but_telepresence.Headset.Probes.Arrival.{last_time}
use but_telepresence.Headset.Probes.Total.{Frame, passes, IsInOrder, passes-total}

-- The extensions of a packet by their index, in the order in which they were added.
unfoldable pub extension_of : Option Metadata → ℕ → Option ℕ
extension_of none i = none
extension_of (some m) i =
    if i == 0
    then some m.frame_id
    else if i == 1
    then some m.camera_frame_duration
    else if i == 2
    then some m.vid_conv_duration
    else if i == 3
    then some m.enc_duration
    else if i == 4
    then some m.rtp_pay_duration
    else if i == 5
    then some m.rtp_pay_timestamp
    else none

embedded :
    (now pts t_1 t_2 t_3 : ℕ) (p : PipelineState)
    → IsMeasured p pts t_1 t_2 t_3
    → t_3 ≤ now
    → pts ≢ p.last_embedded_pts
    → (on_packet now pts p).1
      ≡ some (record {
        frame_id = p.frame_id;
        camera_frame_duration = p.camera_frame_duration;
        vid_conv_duration = t_2 - t_1;
        enc_duration = t_3 - t_2;
        rtp_pay_duration = now - t_3;
        rtp_pay_timestamp = now;
      })
unfolding on_identity_handoff
embedded now pts t_1 t_2 t_3 p v h n =
    let a = found pts t_1 p.camsrc_pts_map v.camsrc in
    let b = found pts t_2 p.vidconv_pts_map v.vidconv in
    let c = found pts t_3 p.enc_pts_map v.enc in ground (arith, a, b, c, v)

-- The total latency that the headset records for a frame, totalLatency, which goes to the log and to
-- the history but not to the panel, for a frame which is alone in its pipeline, whose clocks agree,
-- and whose times are in order: it is the sensor's share and the time from the camera source to the
-- last queue, too large by the time from the arrival of the first packet of the frame to that of the
-- last, and too small by the time from the first release of the jitter buffer to the last.
pub end_to_end :
    (d : Doubles) (w now pts t_1 t_2 t_3 : ℕ) (p : PipelineState) (f : Frame) (s : CameraStats)
    → IsMeasured p pts t_1 t_2 t_3
    → t_3 ≤ now
    → pts ≢ p.last_embedded_pts
    → ((i : ℕ) → f.first.1.extension i ≡ extension_of (on_packet now pts p).1 i)
    → f.first.1.timestamp ≡ f.ts
    → HasUniqueKeys s.rtp_ts_arrival_map
    → f.ts ≢ s.last_seen_rtp_ts
    → IsInOrder f now
    → p.camera_frame_duration < 2 ^ 32
    → (passes d w f s).total_latency
        + (last_time f.first_release.0 f.other_releases - f.first_release.0)
      ≡ p.camera_frame_duration + (f.queue - t_1) + (last_time f.first.0 f.packets - f.first.0)
unfolding extension_of
end_to_end d w now pts t_1 t_2 t_3 p f s v h n x ts u fresh o b =
    let e = embedded now pts t_1 t_2 t_3 p v h n in
    let read : (i : ℕ) → f.first.1.extension i ≡ extension_of (some _) i =
      λ i. x i ∙ ap (λ m. extension_of m i) e in
    let t =
      passes-total d w p.camera_frame_duration (t_2 - t_1) (t_3 - t_2) (now - t_3) now f s
        (record {
          camera_is = read 1;
          vid_conv_is = read 2;
          enc_is = read 3;
          rtp_pay_is = read 4;
          left_is = read 5;
          timestamp_is = ts;
        })
        u fresh o
        (omega (arith, h, v.ordered_2, v.ordered_3, o.after_left, o.arrived, o.in_range, b)) in
    omega (
      arith, t, h, v.ordered_2, v.ordered_3, o.after_left, o.arrived, o.held, o.released,
      o.unpacked, o.decoded, o.queued,
    )
