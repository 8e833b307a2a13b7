-- ===== src/Headset/Packet/Decode.antt =====
-- A receiver that reads the three messages by the layouts in the comment of
-- VR_App/include/robot_control_sender.h, and that it gets back what was sent.
use native.Mathlib.Nat.{pow-succ'}
use but_telepresence.Prelude.{
  ℕ, zero, suc, ◌+◌, ◌*◌, ◌/◌, ◌%◌, ◌^◌, ◌<◌, ◌≡◌, refl, ap, Bool, true, false, Option, none, some,
  List, [], ◌∷◌, ◌++◌, map, if◌then◌else◌, ◌==◌, arith, length,
}
use but_telepresence.Prelude.Int.{ℤ, pos, negsuc}
use but_telepresence.Prelude.Words.{cast}
use but_telepresence.Headset.Enums.{codec_to_int, video_mode_to_int}
use but_telepresence.Headset.Config.{StreamingConfig}
use but_telepresence.Headset.Snapshot.{CameraStatsSnapshot}
use but_telepresence.Headset.Packet.{
  serialize_little_endian, serialize, head_pose_fields, robot_control_fields, NtpReadings,
  debug_info_fields, head_pose_packet, robot_control_packet, debug_info_packet,
}

-- A little-endian number of `n` bytes at the front, and the bytes after it.
unfoldable pub read_number : ℕ → List ℕ → Option (ℕ × List ℕ)
read_number zero bs = some (0, bs)
read_number (suc n) [] = none
read_number (suc n) (b ∷ bs) = elim (read_number n bs) [
  | none ↦ none
  | some (v, rest) ↦ some (b + 256 * v, rest)
]

-- The numbers of a layout; nothing may be left.
pub read_fields : List ℕ → List ℕ → Option (List ℕ)
read_fields [] [] = some []
read_fields [] (b ∷ bs) = none
read_fields (n ∷ ns) bs = elim (read_number n bs) [
  | none ↦ none
  | some (v, rest) ↦ elim (read_fields ns rest) [ none ↦ none | some vs ↦ some (v ∷ vs) ]
]

abbrev pub pose_layout : List ℕ
pose_layout = 1 ∷ 4 ∷ 4 ∷ 4 ∷ 8 ∷ []

abbrev pub debug_layout : List ℕ
debug_layout =
    1 ∷ 8 ∷ 8 ∷ 8 ∷ 8 ∷ 8 ∷ 8 ∷ 8 ∷ 8 ∷ 8 ∷ 8 ∷ 8 ∷ 8 ∷ 8 ∷ 8 ∷ 1 ∷ 8 ∷ 1 ∷ 1 ∷ 2 ∷ 2 ∷ 2 ∷ 4 ∷ 4
    ∷ 4 ∷ 4 ∷ 4 ∷ 4 ∷ 4 ∷ 4 ∷ 4 ∷ []

-- The layout goes by the first byte.
pub decode : List ℕ → Option (List ℕ)
unfolding read_fields
decode [] = none
decode (b ∷ bs) =
    if b == 1
    then read_fields pose_layout (b ∷ bs)
    else if b == 2
    then read_fields pose_layout (b ∷ bs)
    else if b == 3
    then read_fields debug_layout (b ∷ bs)
    else none

div_bound : (v p : ℕ) → v < 256 * p → v / 256 < p
div_bound v p h = grind arith

pub read_number-serialize :
    (n v : ℕ) (rest : List ℕ)
    → v < 256 ^ n
    → read_number n (serialize_little_endian n v ++ rest) ≡ some (v, rest)
unfolding read_number serialize_little_endian
read_number-serialize zero v rest h =
    let e : 0 ≡ v = omega arith in ap (λ (t : ℕ). some (t, rest)) e
read_number-serialize (suc n) v rest h =
    let e : v % 256 + 256 * (v / 256) ≡ v = omega arith in
    rw (read_number-serialize n (v / 256) rest (div_bound v (256 ^ n) (rw (pow-succ' 256 n) at h)))
      (ap (λ (t : ℕ). some (t, rest)) e)

-- Each number fits the bytes of its field.
abbrev pub Fits : List (ℕ × ℕ) → Type 0
Fits [] = Unit {0}
Fits ((size, value) ∷ fs) = (value < 256 ^ size) × Fits fs

abbrev pub sizes : List (ℕ × ℕ) → List ℕ
sizes = map (λ f. f.0)

abbrev pub values : List (ℕ × ℕ) → List ℕ
values = map (λ f. f.1)

read_fields-serialize :
    (fs : List (ℕ × ℕ)) → Fits fs → read_fields (sizes fs) (serialize fs) ≡ some (values fs)
unfolding read_fields serialize
read_fields-serialize [] h = refl
read_fields-serialize ((n, v) ∷ fs) h =
    rw (read_fields, read_number-serialize n v (serialize fs) h.0)
      (rw (read_fields-serialize fs h.1) refl)

-- For numbers that fit their types, a receiver that goes by the first byte reads from a head-pose
-- packet and from a robot-control packet the type of the message and its four numbers.
pub decode_pose :
    (a b c t : ℕ)
    → a < 2 ^ 32
    → b < 2 ^ 32
    → c < 2 ^ 32
    → t < 2 ^ 64
    → (decode (head_pose_packet a b c t) ≡ some (1 ∷ a ∷ b ∷ c ∷ t ∷ []))
      × (decode (robot_control_packet a b c t) ≡ some (2 ∷ a ∷ b ∷ c ∷ t ∷ []))
unfolding decode head_pose_packet robot_control_packet serialize serialize_little_endian
decode_pose a b c t ha hb hc ht = (
  read_fields-serialize (head_pose_fields a b c t) (omega arith),
  read_fields-serialize (robot_control_fields a b c t) (omega arith),
)

-- What a receiver of the debug packet expects, in the order of the protocol: the message type, the
-- timestamp, the frame with its rate and its latencies from the camera to the presentation, the state
-- of the clock, the configuration, and the network health of the left and of the right stream.
abbrev pub debug_info_expected :
    (left right : CameraStatsSnapshot) → StreamingConfig → NtpReadings → (timestamp : ℕ) → List ℕ
debug_info_expected left right config ntp timestamp =
    3
    ∷ timestamp
    ∷ left.frame_id
    ∷ left.fps
    ∷ left.camera
    ∷ left.vid_conv
    ∷ left.enc
    ∷ left.rtp_pay
    ∷ left.udp_stream
    ∷ left.jb_hold
    ∷ left.rtp_depay
    ∷ left.dec
    ∷ left.appsink
    ∷ left.presentation
    ∷ cast (2 ^ 64) ntp.smoothed_offset_us
    ∷ (if ntp.has_initial_offset then 1 else 0)
    ∷ ntp.time_since_last_sync_us
    ∷ cast (2 ^ 8) (codec_to_int config.codec)
    ∷ cast (2 ^ 8) (video_mode_to_int config.video_mode)
    ∷ cast (2 ^ 16) config.resolution.width
    ∷ cast (2 ^ 16) config.resolution.height
    ∷ cast (2 ^ 16) config.fps
    ∷ cast (2 ^ 32) config.bitrate
    ∷ left.jb_num_lost
    ∷ left.rtx_count
    ∷ left.jitter_us
    ∷ left.actual_bitrate_bps
    ∷ right.jb_num_lost
    ∷ right.rtx_count
    ∷ right.jitter_us
    ∷ right.actual_bitrate_bps
    ∷ []

-- The fields of a snapshot that are sent fit their types.
pub record IsSnapshot (s : CameraStatsSnapshot) : Type 0 where
  pub frame_id : s.frame_id < 2 ^ 64
  pub fps : s.fps < 2 ^ 64
  pub camera : s.camera < 2 ^ 64
  pub vid_conv : s.vid_conv < 2 ^ 64
  pub enc : s.enc < 2 ^ 64
  pub rtp_pay : s.rtp_pay < 2 ^ 64
  pub udp_stream : s.udp_stream < 2 ^ 64
  pub jb_hold : s.jb_hold < 2 ^ 64
  pub rtp_depay : s.rtp_depay < 2 ^ 64
  pub dec : s.dec < 2 ^ 64
  pub appsink : s.appsink < 2 ^ 64
  pub presentation : s.presentation < 2 ^ 64
  pub jb_num_lost : s.jb_num_lost < 2 ^ 32
  pub rtx_count : s.rtx_count < 2 ^ 32
  pub jitter_us : s.jitter_us < 2 ^ 32
  pub actual_bitrate_bps : s.actual_bitrate_bps < 2 ^ 32

cast_bound : (m : ℕ) (v : ℤ) → 0 < m → cast m v < m
cast_bound m (pos n) h = omega arith
cast_bound m (negsuc n) h = omega arith

flag_bound : (b : Bool) → (if b then 1 else 0) < 256 ^ 1
flag_bound true = omega arith
flag_bound false = omega arith

infixr 5 ◌&◌
◌&◌ : {A B : Type 0} → A → B → A × B
a & b = (a, b)

module _ (left right : CameraStatsSnapshot) (config : StreamingConfig) (ntp : NtpReadings)
    (timestamp : ℕ) where
  debug_info-Fits :
      IsSnapshot left
      → IsSnapshot right
      → ntp.time_since_last_sync_us < 2 ^ 64
      → timestamp < 2 ^ 64
      → Fits (debug_info_fields left right config ntp timestamp)
  debug_info-Fits l r n t =
      omega arith
      & t
      & l.frame_id
      & l.fps
      & l.camera
      & l.vid_conv
      & l.enc
      & l.rtp_pay
      & l.udp_stream
      & l.jb_hold
      & l.rtp_depay
      & l.dec
      & l.appsink
      & l.presentation
      & cast_bound (2 ^ 64) (ntp.smoothed_offset_us) (omega arith)
      & flag_bound ntp.has_initial_offset
      & n
      & cast_bound (2 ^ 8) (codec_to_int config.codec) (omega arith)
      & cast_bound (2 ^ 8) (video_mode_to_int config.video_mode) (omega arith)
      & cast_bound (2 ^ 16) (config.resolution.width) (omega arith)
      & cast_bound (2 ^ 16) (config.resolution.height) (omega arith)
      & cast_bound (2 ^ 16) (config.fps) (omega arith)
      & cast_bound (2 ^ 32) (config.bitrate) (omega arith)
      & l.jb_num_lost
      & l.rtx_count
      & l.jitter_us
      & l.actual_bitrate_bps
      & r.jb_num_lost
      & r.rtx_count
      & r.jitter_us
      & r.actual_bitrate_bps
      & tt

  -- For snapshots, a timestamp and a sync age that fit their types, the receiver reads from a
  -- debug packet the message type, the timestamp, the frame id, rate and latencies of the left
  -- stream, the clock, the configuration with its numbers cut to their width, and the network health
  -- of the left and then of the right stream, and
  -- the packet is of the 166 bytes that the comment of the protocol states.
  pub decode_debug :
      IsSnapshot left
      → IsSnapshot right
      → ntp.time_since_last_sync_us < 2 ^ 64
      → timestamp < 2 ^ 64
      → (decode (debug_info_packet left right config ntp timestamp)
          ≡ some (debug_info_expected left right config ntp timestamp))
        × (length (debug_info_packet left right config ntp timestamp) ≡ 166)
  unfolding decode debug_info_packet serialize serialize_little_endian
  decode_debug l r n t = (
    read_fields-serialize (debug_info_fields left right config ntp timestamp)
        (debug_info-Fits l r n t),
    refl,
  )
