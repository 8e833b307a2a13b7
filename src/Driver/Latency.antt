-- ===== src/Driver/Latency.antt =====
-- streaming_driver/include/logging.h: the state of a pipeline's latency measurement and the callback
-- of its identity elements. The clock, the name of the element, the timestamp of the buffer, and
-- whether GStreamer maps the buffer, are arguments.
pub mod Embedding
use but_telepresence.Prelude.{
  ℕ, suc, ◌-◌, Bool, true, false, ◌||◌, Option, none, some, if◌then◌else◌, ltb, ◌==◌,
}
use but_telepresence.Prelude.Words.{u16}
use but_telepresence.Pts.{PtsMap, store, consume}

abbrev pub sensor_static_latency_us : ℕ
sensor_static_latency_us = 37500

pub record PipelineState : Type 0 where
  pub frame_id : ℕ  -- uint16_t
  pub last_embedded_pts : ℕ
  pub camera_frame_duration : ℕ
  pub camsrc_pts_map : PtsMap
  pub vidconv_pts_map : PtsMap
  pub enc_pts_map : PtsMap

-- The identity element, by its name.
pub data Identity : Type 0 where
  camera_src video_convert encoder rtp_payloader other : Identity

-- The header extension, in the order of the calls.
pub record Metadata : Type 0 where
  pub frame_id : ℕ
  pub camera_frame_duration : ℕ
  pub vid_conv_duration : ℕ
  pub enc_duration : ℕ
  pub rtp_pay_duration : ℕ
  pub rtp_pay_timestamp : ℕ

-- The extension that is added and the state after it; a buffer that is not mapped gets none.
abbrev pub add_rtp_header_metadata_per_frame :
    (maps : Bool)
    → PipelineState
    → (vid_conv enc rtp_pay timestamp : ℕ) → PipelineState × Option Metadata
add_rtp_header_metadata_per_frame maps s vid_conv enc rtp_pay timestamp =
    if maps
    then (
      record s { frame_id = u16 (suc s.frame_id) },
      some (record {
        frame_id = s.frame_id;
        camera_frame_duration = s.camera_frame_duration;
        vid_conv_duration = vid_conv;
        enc_duration = enc;
        rtp_pay_duration = rtp_pay;
        rtp_pay_timestamp = timestamp;
      }),
    )
    else (s, none)

abbrev pub span : (from to : ℕ) → ℕ
span from to = if ltb from to then to - from else 0

-- The end of the payloader's branch, with the three times that were looked up.
abbrev pub embed :
    (maps : Bool)
    → (now pts camsrc vidconv enc : ℕ) → PipelineState
    → PipelineState × Option Metadata
embed maps now pts camsrc vidconv enc s =
    let added =
      add_rtp_header_metadata_per_frame maps s (span camsrc vidconv) (span vidconv enc)
        (span enc now) now in
    if camsrc == 0 || (vidconv == 0 || enc == 0)
    then (s, none)
    else (record added.0 { last_embedded_pts = pts }, added.1)

abbrev pub on_payloader :
    (maps : Bool) → (now pts : ℕ) → PipelineState → PipelineState × Option Metadata
on_payloader maps now pts s =
    let camsrc = consume pts s.camsrc_pts_map in
    let vidconv = consume pts s.vidconv_pts_map in
    let enc = consume pts s.enc_pts_map in
    if pts == s.last_embedded_pts
    then (s, none)
    else embed maps now pts camsrc.0 vidconv.0 enc.0
        (record s { camsrc_pts_map = camsrc.1; vidconv_pts_map = vidconv.1; enc_pts_map = enc.1 })

-- OnIdentityHandoffCameraStreaming for the state of the pipeline; a buffer may have no timestamp.
unfoldable pub on_identity_handoff :
    (maps : Bool)
    → (now : ℕ) → Identity
    → (pts : Option ℕ) → PipelineState
    → PipelineState × Option Metadata
on_identity_handoff maps now i none s = (s, none)
on_identity_handoff maps now Identity.camera_src (some pts) s = (
  record s {
    camera_frame_duration = sensor_static_latency_us;
    camsrc_pts_map = store pts now s.camsrc_pts_map;
  },
  none,
)
on_identity_handoff maps now Identity.video_convert (some pts) s =
    (record s { vidconv_pts_map = store pts now s.vidconv_pts_map }, none)
on_identity_handoff maps now Identity.encoder (some pts) s =
    (record s { enc_pts_map = store pts now s.enc_pts_map }, none)
on_identity_handoff maps now Identity.rtp_payloader (some pts) s = on_payloader maps now pts s
on_identity_handoff maps now Identity.other (some pts) s = (s, none)
