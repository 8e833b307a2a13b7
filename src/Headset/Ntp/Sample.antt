-- ===== src/Headset/Ntp/Sample.antt =====
-- How good one sample of VR_App/src/ntp_timer.cpp is (GetOneNtpSample).
use but_telepresence.Prelude.{
  ℕ, ◌+◌, ◌*◌, ◌/◌, ◌^◌, ◌<◌, ◌≤◌, ◌≡◌, ◌-◌, arith, leb, Bool-cases, inl, inr,
}
use but_telepresence.Prelude.Int.{ℤ, pos, pos_part, neg_part, sub_ℕ}
use but_telepresence.Prelude.Words.{u64, sub64}
use but_telepresence.Headset.Ntp.{parse_timestamp, ntp_seconds, offset_of, delay_of}

-- The clocks of one exchange: the server is `ahead - behind` ahead of the headset, the request
-- takes `there` on its way, the server `busy`, and the response `back`.
pub record IsExchange (ahead behind there busy back t_1 t_2 t_3 t_4 : ℕ) : Type 0 where
  pub arrives : t_2 + behind ≡ t_1 + there + ahead
  pub leaves : t_3 ≡ t_2 + busy
  pub returns : t_4 ≡ t_1 + there + busy + back
  pub bound_3 : t_3 < 2 ^ 60
  pub bound_4 : t_4 < 2 ^ 60

-- Twice the offset, and twice the true difference of the clocks, are at most this far apart.
abbrev pub IsWithin : (distance ahead behind : ℕ) → ℤ → Type 0
IsWithin distance ahead behind o =
    (2 * pos_part o + 2 * behind ≤ 2 * neg_part o + 2 * ahead + distance)
    × (2 * neg_part o + 2 * ahead ≤ 2 * pos_part o + 2 * behind + distance)

offset_of_ahead :
    (t_1 t_2 t_3 t_4 : ℕ)
    → t_1 < 2 ^ 60
    → t_2 < 2 ^ 60
    → t_3 < 2 ^ 60
    → t_4 < 2 ^ 60
    → t_1 + t_4 ≤ t_2 + t_3
    → offset_of t_1 t_2 t_3 t_4 ≡ pos ((t_2 + t_3 - (t_1 + t_4)) / 2)
unfolding offset_of
offset_of_ahead t_1 t_2 t_3 t_4 a b c d h =
    let e : u64 (sub64 t_2 t_1 + sub64 t_3 t_4) ≡ t_2 + t_3 - (t_1 + t_4) = omega arith in
    rw (offset_of, e) (ground arith)

offset_of_behind :
    (t_1 t_2 t_3 t_4 : ℕ)
    → t_1 < 2 ^ 60
    → t_2 < 2 ^ 60
    → t_3 < 2 ^ 60
    → t_4 < 2 ^ 60
    → t_2 + t_3 < t_1 + t_4
    → offset_of t_1 t_2 t_3 t_4 ≡ sub_ℕ 0 ((t_1 + t_4 - (t_2 + t_3)) / 2)
unfolding offset_of
offset_of_behind t_1 t_2 t_3 t_4 a b c d h =
    let e : u64 (sub64 t_2 t_1 + sub64 t_3 t_4) ≡ 2 ^ 64 - (t_1 + t_4 - (t_2 + t_3)) =
      omega arith in
    rw (offset_of, e) (ground arith)

delay_of_lem :
    (ahead behind there busy back t_1 t_2 t_3 t_4 : ℕ)
    → IsExchange ahead behind there busy back t_1 t_2 t_3 t_4
    → delay_of t_1 t_2 t_3 t_4 ≡ there + back
unfolding delay_of
delay_of_lem ahead behind there busy back t_1 t_2 t_3 t_4 e =
    let a = e.arrives in
    let b = e.leaves in let c = e.returns in let d = e.bound_4 in omega (arith, a, b, c, d)

-- The error of a sample is at most half its round trip, but for the cut to a microsecond: for
-- clocks below 2^60, the round trip measured is the time that request and response were on their
-- way, and twice the measured offset differs from twice the true one by at most that and 1.
pub offset_of-IsWithin :
    (ahead behind there busy back t_1 t_2 t_3 t_4 : ℕ)
    → IsExchange ahead behind there busy back t_1 t_2 t_3 t_4
    → (delay_of t_1 t_2 t_3 t_4 ≡ there + back)
      × IsWithin (delay_of t_1 t_2 t_3 t_4 + 1) ahead behind (offset_of t_1 t_2 t_3 t_4)
offset_of-IsWithin ahead behind there busy back t_1 t_2 t_3 t_4 e =
    let a = e.arrives in
    let b = e.leaves in
    let c = e.returns in
    let f = e.bound_3 in
    let g = e.bound_4 in
    let d = delay_of_lem ahead behind there busy back t_1 t_2 t_3 t_4 e in
    elim (Bool-cases (leb (t_1 + t_4) (t_2 + t_3))) [
      | inl h ↦
          let q : t_1 + t_4 ≤ t_2 + t_3 = ground arith in
          rw (offset_of_ahead t_1 t_2 t_3 t_4 (omega arith) (omega arith) f g q)
            (d, (omega arith, omega arith))
      | inr h ↦
          let q : t_2 + t_3 < t_1 + t_4 = ground arith in
          rw (offset_of_behind t_1 t_2 t_3 t_4 (omega arith) (omega arith) f g q)
            (d, (ground arith, ground arith))
    ]

-- Across the turn of the NTP era in 2036: for a time before 2^32 seconds, the seconds that are sent
-- are read back, and a 32-bit fraction adds less than a second.
pub parse_timestamp-ntp_seconds :
    (t frac : ℕ)
    → t / 1000000 < 2 ^ 32
    → frac < 2 ^ 32
    → (parse_timestamp (ntp_seconds t) frac ≡ t / 1000000 * 1000000 + frac * 1000000 / 2 ^ 32)
      × (frac * 1000000 / 2 ^ 32 < 1000000)
unfolding parse_timestamp ntp_seconds
parse_timestamp-ntp_seconds t frac h f = omega arith
