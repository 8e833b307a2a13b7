-- ===== src/Headset/Probes/Stages.antt =====
-- A frame behind the jitter buffer: what the callbacks keep of its way to the last queue.
use but_telepresence.Prelude.{ℕ, ◌+◌, ◌-◌, ◌<◌, ◌≡◌, ◌≢◌, Option, none, some, List, [], ◌∷◌, arith}
use but_telepresence.Prelude.Words.{u64}
use but_telepresence.Pts.{find}
use but_telepresence.Headset.Stats.{Doubles, CameraStats, update_history}
use but_telepresence.Headset.Probes.{
  postjb_ident, rtpdepay_ident, dec_ident, queue_ident, on_identity_handoff,
}
use but_telepresence.Headset.Probes.Arrival.{
  IsArrived, find-store, consume-found, consume_time, consume-missing, last_time,
}

-- Releases of the jitter buffer for packets of a frame, each with its time.
unfoldable pub releases :
    Doubles → (w ts pts : ℕ) → List (ℕ × Option (ℕ × ℕ)) → CameraStats → CameraStats
releases d w ts pts [] s = s
releases d w ts pts ((now, counters) ∷ rs) s =
    releases d w ts pts rs (on_identity_handoff d w now pts (postjb_ident (some ts) counters) s)

module _ (camera vid_conv enc rtp_pay left ts first : ℕ) (d : Doubles)
    (w pts last release : ℕ) where
  -- The jitter buffer has released packets of the frame, the first at `release` and the last at
  -- `latest`.
  pub record IsReleased (s : CameraStats) (latest : ℕ) : Type 0 where
    pub camera_is : s.camera ≡ camera
    pub vid_conv_is : s.vid_conv ≡ vid_conv
    pub enc_is : s.enc ≡ enc
    pub rtp_pay_is : s.rtp_pay ≡ rtp_pay
    pub udp_stream : s.udp_stream ≡ last - left
    pub jb_hold : s.jb_hold ≡ release - first
    pub gone : find ts s.rtp_ts_arrival_map ≡ none
    pub entered : find pts s.postjb_pts_map ≡ some latest

  pub release-IsReleased :
      (counters : Option (ℕ × ℕ)) (s : CameraStats)
      → pts ≢ 0
      → 0 < first
      → first < release
      → IsArrived camera vid_conv enc rtp_pay left ts first s last
      → IsReleased (on_identity_handoff d w release pts (postjb_ident (some ts) counters) s) release
  unfolding on_identity_handoff
  release-IsReleased none s k z l h = ground (
    arith,
    h,
    consume-found ts first s.rtp_ts_arrival_map h.unique h.arrival,
    find-store pts release s.postjb_pts_map,
  )
  release-IsReleased (some (x, y)) s k z l h = ground (
    arith,
    h,
    consume-found ts first s.rtp_ts_arrival_map h.unique h.arrival,
    find-store pts release s.postjb_pts_map,
  )

  next-IsReleased :
      (now latest : ℕ) (counters : Option (ℕ × ℕ)) (s : CameraStats)
      → pts ≢ 0
      → IsReleased s latest
      → IsReleased (on_identity_handoff d w now pts (postjb_ident (some ts) counters) s) now
  unfolding on_identity_handoff
  next-IsReleased now latest none s k h = ground (
    arith,
    h,
    consume-missing ts s.rtp_ts_arrival_map h.gone,
    find-store pts now s.postjb_pts_map,
  )
  next-IsReleased now latest (some (x, y)) s k h = ground (
    arith,
    h,
    consume-missing ts s.rtp_ts_arrival_map h.gone,
    find-store pts now s.postjb_pts_map,
  )

  pub releases-IsReleased :
      (rs : List (ℕ × Option (ℕ × ℕ))) (latest : ℕ) (s : CameraStats)
      → pts ≢ 0
      → IsReleased s latest
      → IsReleased (releases d w ts pts rs s) (last_time latest rs)
  unfolding releases last_time
  releases-IsReleased [] latest s k h = h
  releases-IsReleased ((now, c) ∷ rs) latest s k h =
      releases-IsReleased rs now _ k (next-IsReleased now latest c s k h)

  -- The frame has left the depayloader at `c`, and then the decoder at `e`.
  pub record IsUnpacked (s : CameraStats) (latest c : ℕ) : Type 0 where
    pub released :
        s.camera + s.vid_conv + s.enc + s.rtp_pay + s.udp_stream + s.jb_hold
        ≡ camera + vid_conv + enc + rtp_pay + (last - left) + (release - first)
    pub rtp_depay : s.rtp_depay ≡ c - latest
    pub entered : find pts s.depay_pts_map ≡ some c

  pub record IsDecoded (s : CameraStats) (latest c e : ℕ) : Type 0 where
    pub released :
        s.camera + s.vid_conv + s.enc + s.rtp_pay + s.udp_stream + s.jb_hold
        ≡ camera + vid_conv + enc + rtp_pay + (last - left) + (release - first)
    pub rtp_depay : s.rtp_depay ≡ c - latest
    pub dec : s.dec ≡ e - c
    pub entered : find pts s.dec_pts_map ≡ some e

  pub depay-IsUnpacked :
      (c latest : ℕ) (s : CameraStats)
      → pts ≢ 0
      → 0 < latest
      → latest < c
      → IsReleased s latest
      → IsUnpacked (on_identity_handoff d w c pts rtpdepay_ident s) latest c
  unfolding on_identity_handoff
  depay-IsUnpacked c latest s k z l h = ground (
    arith,
    h,
    consume_time pts latest s.postjb_pts_map h.entered,
    find-store pts c s.depay_pts_map,
  )

  pub dec-IsDecoded :
      (e c latest : ℕ) (s : CameraStats)
      → pts ≢ 0
      → 0 < c
      → c < e
      → IsUnpacked s latest c
      → IsDecoded (on_identity_handoff d w e pts dec_ident s) latest c e
  unfolding on_identity_handoff
  dec-IsDecoded e c latest s k z l h =
      ground
        (arith, h, consume_time pts c s.depay_pts_map h.entered, find-store pts e s.dec_pts_map)

  pub queue_total :
      (q e c latest : ℕ) (s : CameraStats)
      → pts ≢ 0
      → 0 < e
      → e < q
      → IsDecoded s latest c e
      → (on_identity_handoff d w q pts queue_ident s).total_latency
        ≡ u64 (
            camera
            + vid_conv
            + enc
            + rtp_pay
            + (last - left)
            + (release - first)
            + (c - latest)
            + (e - c)
            + (q - e))
  unfolding on_identity_handoff update_history
  queue_total q e c latest s k z l h = ground (arith, h, consume_time pts e s.dec_pts_map h.entered)
