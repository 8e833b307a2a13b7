-- ===== src/Examples/Latencies.antt =====
-- A frame through the identity elements of the driver.
use but_telepresence.Prelude.{◌≡◌, refl, none, [], ◌∷◌, arith, ◌-◌, suc}
use but_telepresence.Prelude.Words.{u16}
use but_telepresence.Pts.{find, consume}
use but_telepresence.Driver.Latency.{PipelineState, on_identity_handoff}
use but_telepresence.Driver.Latency.Embedding.{on_packet, IsMeasured, States, on_packet-States}

abbrev measured : PipelineState
measured = record {
  frame_id = 65535;
  last_embedded_pts = 16;
  camera_frame_duration = 37500;
  camsrc_pts_map = (33, 1000) ∷ (50, 1016) ∷ [];
  vidconv_pts_map = (33, 1004) ∷ [];
  enc_pts_map = (33, 1010) ∷ [];
}

measured-IsMeasured : IsMeasured measured 33 1000 1004 1010
unfolding find
measured-IsMeasured = record {
  camsrc = refl;
  vidconv = refl;
  enc = refl;
  started = omega arith;
  ordered_2 = omega arith;
  ordered_3 = omega arith;
}

on_packet-States_example :
    States (on_packet 1011 33 measured).1 65535 37500 (1011 - 1000)
    × (((on_packet 1011 33 measured).0.frame_id ≡ u16 (suc 65535))
        × (on_packet 1012 33 (on_packet 1011 33 measured).0
            ≡ ((on_packet 1011 33 measured).0, none)))
on_packet-States_example =
    on_packet-States 1011 1012 33 1000 1004 1010 measured measured-IsMeasured (omega arith)
      (λ e. omega (arith, e))

-- A frame with the timestamp 0 is taken for one that was embedded already.
abbrev initial : PipelineState
initial = record {
  frame_id = 0;
  last_embedded_pts = 0;
  camera_frame_duration = 0;
  camsrc_pts_map = (0, 1000) ∷ [];
  vidconv_pts_map = (0, 1004) ∷ [];
  enc_pts_map = (0, 1010) ∷ [];
}

first_frame_skipped : on_packet 1011 0 initial ≡ (initial, none)
unfolding on_identity_handoff consume
first_frame_skipped = refl
