-- ===== src/Headset/Probes/Arrival.antt =====
-- The packets of a frame arrive: what the callback at the UDP source keeps of them.
use but_telepresence.Prelude.{
  ℕ, ◌-◌, ◌^◌, ◌≤◌, ◌<◌, ◌≡◌, ◌≢◌, refl, ◌∙◌, Bool-cases, inl, inr, leb, length, none, some, List,
  [], ◌∷◌, All, arith,
}
use but_telepresence.Prelude.Words.{sub64}
use but_telepresence.Pts.{PtsMap, max_size, find, store, consume}
use but_telepresence.Pts.Laws.{HasUniqueKeys, find-insert, find-erase, insert-HasUniqueKeys}
use but_telepresence.Headset.Stats.{Doubles, CameraStats}
use but_telepresence.Headset.Probes.{
  RtpPacket, read_extensions, arrive, measure_bitrate, measure_jitter, on_rtp_header_metadata,
}

sub64_lem : (a b : ℕ) → b ≤ a → a < 2 ^ 64 → sub64 a b ≡ a - b
sub64_lem a b h l = omega (arith, h, l)

pub find-store : (k t : ℕ) (m : PtsMap) → find k (store k t m) ≡ some t
unfolding store
find-store k t m = find-insert k k t _ ∙ ground arith

pub consume-found :
    (k t : ℕ) (m : PtsMap)
    → HasUniqueKeys m
    → find k m ≡ some t
    → ((consume k m).0 ≡ t) × (find k (consume k m).1 ≡ none)
unfolding consume
consume-found k t m u e = rw (e, consume) (refl, find-erase k k m u ∙ ground arith)

pub consume_time : (k t : ℕ) (m : PtsMap) → find k m ≡ some t → (consume k m).0 ≡ t
unfolding consume
consume_time k t m e = rw (e, consume) refl

pub consume-missing : (k : ℕ) (m : PtsMap) → find k m ≡ none → consume k m ≡ (0, m)
unfolding consume
consume-missing k m e = rw (e, consume) refl

store-HasUniqueKeys : (k t : ℕ) (m : PtsMap) → HasUniqueKeys m → HasUniqueKeys (store k t m)
unfolding store
store-HasUniqueKeys k t m u = elim (Bool-cases (leb max_size (length m))) [
  | inl e ↦ rw e (insert-HasUniqueKeys k t [] tt)
  | inr e ↦ rw e (insert-HasUniqueKeys k t m u)
]

-- A packet that carries what the driver measured of a frame, and one of the others.
pub record Carries (k : RtpPacket) (camera vid_conv enc rtp_pay left ts : ℕ) : Type 0 where
  pub camera_is : k.extension 1 ≡ some camera
  pub vid_conv_is : k.extension 2 ≡ some vid_conv
  pub enc_is : k.extension 3 ≡ some enc
  pub rtp_pay_is : k.extension 4 ≡ some rtp_pay
  pub left_is : k.extension 5 ≡ some left
  pub timestamp_is : k.timestamp ≡ ts

pub record Follows (k : RtpPacket) (ts : ℕ) : Type 0 where
  pub bare : (i : ℕ) → k.extension i ≡ none
  pub timestamp_is : k.timestamp ≡ ts

-- Packets in the order of their arrival, each with its time.
unfoldable pub packets : Doubles → List (ℕ × RtpPacket) → CameraStats → CameraStats
packets d [] s = s
packets d ((now, k) ∷ ks) s = packets d ks (on_rtp_header_metadata d now k s)

-- The time of the last one, where `t` was the one before.
unfoldable pub last_time {ℓ} : {A : Type ℓ} → ℕ → List (ℕ × A) → ℕ
last_time t [] = t
last_time t ((now, a) ∷ rest) = last_time now rest

module _ (camera vid_conv enc rtp_pay left ts first : ℕ) where
  -- Packets of the frame have arrived, the first at `first` and the last at `last`.
  pub record IsArrived (s : CameraStats) (last : ℕ) : Type 0 where
    pub camera_is : s.camera ≡ camera
    pub vid_conv_is : s.vid_conv ≡ vid_conv
    pub enc_is : s.enc ≡ enc
    pub rtp_pay_is : s.rtp_pay ≡ rtp_pay
    pub left_is : s.rtp_pay_timestamp ≡ left
    pub udp_stream : s.udp_stream ≡ last - left
    pub arrival : find ts s.rtp_ts_arrival_map ≡ some first
    pub unique : HasUniqueKeys s.rtp_ts_arrival_map
    pub seen : s.last_seen_rtp_ts ≡ ts

  bitrate-IsArrived :
      (now size last : ℕ) (s : CameraStats)
      → IsArrived s last
      → IsArrived (measure_bitrate now size s) last
  unfolding measure_bitrate
  bitrate-IsArrived now size last s h = ground (arith, h)

  jitter-IsArrived :
      (d : Doubles) (now rtp_ts last : ℕ) (s : CameraStats)
      → IsArrived s last
      → IsArrived (measure_jitter d now rtp_ts s) last
  unfolding measure_jitter
  jitter-IsArrived d now rtp_ts last s h = ground (arith, h)

  counted-IsArrived :
      (d : Doubles) (now last : ℕ) (k : RtpPacket) (s : CameraStats)
      → IsArrived (arrive now k (read_extensions k s)) last
      → IsArrived (on_rtp_header_metadata d now k s) last
  unfolding on_rtp_header_metadata
  counted-IsArrived d now last k s h =
      jitter-IsArrived d now k.timestamp last _ (bitrate-IsArrived now k.size last _ h)

  pub first-IsArrived :
      (d : Doubles) (k : RtpPacket) (s : CameraStats)
      → Carries k camera vid_conv enc rtp_pay left ts
      → HasUniqueKeys s.rtp_ts_arrival_map
      → ts ≢ s.last_seen_rtp_ts
      → left ≤ first
      → first < 2 ^ 64
      → IsArrived (on_rtp_header_metadata d first k s) first
  unfolding arrive read_extensions
  first-IsArrived d k s c u n l b = counted-IsArrived d first first k s (
      ground (
        arith,
        c,
        find-store ts first s.rtp_ts_arrival_map,
        store-HasUniqueKeys ts first s.rtp_ts_arrival_map u,
        sub64_lem first left l b,
      ))

  next-IsArrived :
      (d : Doubles) (now last : ℕ) (k : RtpPacket) (s : CameraStats)
      → Follows k ts
      → IsArrived s last
      → left ≤ now
      → now < 2 ^ 64
      → IsArrived (on_rtp_header_metadata d now k s) now
  unfolding arrive read_extensions
  next-IsArrived d now last k s f h l b = counted-IsArrived d now now k s (
      ground (
        arith,
        h,
        f.timestamp_is,
        f.bare 1,
        f.bare 2,
        f.bare 3,
        f.bare 4,
        f.bare 5,
        sub64_lem now left l b,
      ))

  pub packets-IsArrived :
      (d : Doubles) (ks : List (ℕ × RtpPacket)) (last : ℕ) (s : CameraStats)
      → All (λ k. Follows k.1 ts × ((left ≤ k.0) × (k.0 < 2 ^ 64))) ks
      → IsArrived s last
      → IsArrived (packets d ks s) (last_time last ks)
  unfolding packets last_time
  packets-IsArrived d [] last s f h = h
  packets-IsArrived d ((now, k) ∷ ks) last s (f, g) h =
      packets-IsArrived d ks now _ g (next-IsArrived d now last k s f.0 h f.1.0 f.1.1)
