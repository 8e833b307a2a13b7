-- ===== src/Driver/Latency/Embedding.antt =====
-- What the payloader's callback of streaming_driver/include/logging.h adds to the packets of a frame.
use but_telepresence.Prelude.{
  ℕ, suc, ◌+◌, ◌-◌, ◌<◌, ◌≤◌, ◌≡◌, ◌≢◌, refl, true, Option, none, some, arith,
}
use but_telepresence.Prelude.Words.{u16}
use but_telepresence.Pts.{PtsMap, find, consume}
use but_telepresence.Driver.Latency.{PipelineState, Identity, Metadata, on_identity_handoff}

abbrev pub on_packet : (now pts : ℕ) → PipelineState → PipelineState × Option Metadata
on_packet now pts s = on_identity_handoff true now Identity.rtp_payloader (some pts) s

pub found : (k t : ℕ) (m : PtsMap) → find k m ≡ some t → (consume k m).0 ≡ t
unfolding consume
found k t m e = rw (e, consume) refl

-- The times at which the frame left the three stages.
pub record IsMeasured (s : PipelineState) (pts t_1 t_2 t_3 : ℕ) : Type 0 where
  pub camsrc : find pts s.camsrc_pts_map ≡ some t_1
  pub vidconv : find pts s.vidconv_pts_map ≡ some t_2
  pub enc : find pts s.enc_pts_map ≡ some t_3
  pub started : 0 < t_1
  pub ordered_2 : t_1 ≤ t_2
  pub ordered_3 : t_2 ≤ t_3

-- The latency that an extension states from the camera source to the payloader.
abbrev pub States : Option Metadata → (frame_id camera total : ℕ) → Type 0
States none frame_id camera total = ⊥
States (some m) frame_id camera total =
    (m.frame_id ≡ frame_id)
    × ((m.camera_frame_duration ≡ camera)
        × (m.vid_conv_duration + m.enc_duration + m.rtp_pay_duration ≡ total))

-- The first packet of a frame carries its latency, and the others carry nothing: for a frame that
-- left the three stages at times in order, not after now, and is not the last one embedded, the
-- packet gets an extension with the next frame number, and its three durations add up to the time
-- since the camera source; and a later packet of the same frame gets none and changes nothing.
pub on_packet-States :
    (now later pts t_1 t_2 t_3 : ℕ) (s : PipelineState)
    → IsMeasured s pts t_1 t_2 t_3
    → t_3 ≤ now
    → pts ≢ s.last_embedded_pts
    → States (on_packet now pts s).1 s.frame_id s.camera_frame_duration (now - t_1)
      × (((on_packet now pts s).0.frame_id ≡ u16 (suc s.frame_id))
          × (on_packet later pts (on_packet now pts s).0 ≡ ((on_packet now pts s).0, none)))
unfolding on_identity_handoff
on_packet-States now later pts t_1 t_2 t_3 s v h n =
    let a = found pts t_1 s.camsrc_pts_map v.camsrc in
    let b = found pts t_2 s.vidconv_pts_map v.vidconv in
    let c = found pts t_3 s.enc_pts_map v.enc in ground (arith, a, b, c, v)
