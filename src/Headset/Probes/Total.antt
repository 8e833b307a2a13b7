-- ===== src/Headset/Probes/Total.antt =====
-- What the stages that the callbacks measure add up to for one frame.
use but_telepresence.Prelude.{ℕ, ◌+◌, ◌-◌, ◌^◌, ◌≤◌, ◌<◌, ◌≡◌, ◌≢◌, Option, some, List, All, arith}
use but_telepresence.Pts.Laws.{HasUniqueKeys}
use but_telepresence.Headset.Stats.{Doubles, CameraStats}
use but_telepresence.Headset.Probes.{
  RtpPacket, on_rtp_header_metadata, postjb_ident, rtpdepay_ident, dec_ident, queue_ident,
  on_identity_handoff,
}
use but_telepresence.Headset.Probes.Arrival.{
  last_time, first-IsArrived, packets-IsArrived, Carries, Follows, packets,
}
use but_telepresence.Headset.Probes.Stages.{
  releases, release-IsReleased, releases-IsReleased, depay-IsUnpacked, dec-IsDecoded, queue_total,
}

-- What the callbacks are told of one frame.
pub record Frame : Type 0 where
  pub ts : ℕ
  pub pts : ℕ
  pub first : ℕ × RtpPacket
  pub packets : List (ℕ × RtpPacket)
  pub first_release : ℕ × Option (ℕ × ℕ)
  pub other_releases : List (ℕ × Option (ℕ × ℕ))
  pub depay : ℕ
  pub dec : ℕ
  pub queue : ℕ

-- The callbacks of a frame that is alone in the pipeline.
unfoldable pub passes : Doubles → (w : ℕ) → Frame → CameraStats → CameraStats
passes d w f s =
    let arrived = packets d f.packets (on_rtp_header_metadata d f.first.0 f.first.1 s) in
    let released = releases d w f.ts f.pts f.other_releases (
      on_identity_handoff d w f.first_release.0 f.pts (postjb_ident (some f.ts) f.first_release.1)
        arrived) in
    let unpacked = on_identity_handoff d w f.depay f.pts rtpdepay_ident released in
    let decoded = on_identity_handoff d w f.dec f.pts dec_ident unpacked in
    on_identity_handoff d w f.queue f.pts queue_ident decoded

-- The packets belong to the frame, and the times are in order: none before the frame left the
-- driver at `left`, and no clock near its end.
pub record IsInOrder (f : Frame) (left : ℕ) : Type 0 where
  pub keyed : f.pts ≢ 0
  pub follow : All (λ k. Follows k.1 f.ts × ((left ≤ k.0) × (k.0 < 2 ^ 64))) f.packets
  pub started : 0 < f.first.0
  pub after_left : left ≤ f.first.0
  pub arrived : f.first.0 ≤ last_time f.first.0 f.packets
  pub held : f.first.0 < f.first_release.0
  pub released : f.first_release.0 ≤ last_time f.first_release.0 f.other_releases
  pub unpacked : last_time f.first_release.0 f.other_releases < f.depay
  pub decoded : f.depay < f.dec
  pub queued : f.dec < f.queue
  pub in_range : last_time f.first.0 f.packets < 2 ^ 61
  pub in_range_queue : f.queue < 2 ^ 61

pub passes-total :
    (d : Doubles) (w camera vid_conv enc rtp_pay left : ℕ) (f : Frame) (s : CameraStats)
    → Carries f.first.1 camera vid_conv enc rtp_pay left f.ts
    → HasUniqueKeys s.rtp_ts_arrival_map
    → f.ts ≢ s.last_seen_rtp_ts
    → IsInOrder f left
    → camera + vid_conv + enc + rtp_pay < 2 ^ 62
    → (passes d w f s).total_latency
        + (last_time f.first_release.0 f.other_releases - f.first_release.0)
      ≡ camera
        + vid_conv
        + enc
        + rtp_pay
        + (f.queue - left)
        + (last_time f.first.0 f.packets - f.first.0)
unfolding passes
passes-total d w camera vid_conv enc rtp_pay left f s c u n o b =
    let last = last_time f.first.0 f.packets in
    let latest = last_time f.first_release.0 f.other_releases in
    let a =
      packets-IsArrived camera vid_conv enc rtp_pay left f.ts f.first.0 d f.packets f.first.0 _
        o.follow
        (first-IsArrived camera vid_conv enc rtp_pay left f.ts f.first.0 d f.first.1 s c u n
          o.after_left (omega (arith, o.arrived, o.in_range))) in
    let r =
      releases-IsReleased camera vid_conv enc rtp_pay left f.ts f.first.0 d w f.pts last
        f.first_release.0 f.other_releases f.first_release.0 _ o.keyed
        (release-IsReleased camera vid_conv enc rtp_pay left f.ts f.first.0 d w f.pts last
          f.first_release.0 f.first_release.1 _ o.keyed o.started o.held a) in
    let p =
      depay-IsUnpacked camera vid_conv enc rtp_pay left f.ts f.first.0 d w f.pts last
        f.first_release.0 f.depay latest _ o.keyed (omega (arith, o.held, o.released)) o.unpacked
        r in
    let e =
      dec-IsDecoded camera vid_conv enc rtp_pay left f.ts f.first.0 d w f.pts last f.first_release.0
        f.dec f.depay latest _ o.keyed (omega (arith, o.unpacked)) o.decoded p in
    let t =
      queue_total camera vid_conv enc rtp_pay left f.ts f.first.0 d w f.pts last f.first_release.0
        f.queue f.dec f.depay latest _ o.keyed (omega (arith, o.decoded)) o.queued e in
    omega (
      arith, t, o.after_left, o.arrived, o.held, o.released, o.unpacked, o.decoded, o.queued,
      o.in_range, o.in_range_queue, b,
    )
