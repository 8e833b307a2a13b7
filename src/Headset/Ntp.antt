-- ===== src/Headset/Ntp.antt =====
-- VR_App/src/ntp_timer.cpp and VR_App/include/ntp_timer.h: the estimate of the clock offset to a
-- time server. The network and the clock are parameters: what an exchange brings. A uint64_t is a
-- number below 2^64, and its arithmetic wraps. The smoothing is in double; its rounding to an
-- integer is a parameter, as is the fraction of the request, which the server only echoes.
pub mod Sample
pub mod Cycle
use but_telepresence.Prelude.{
  ℕ, suc, ◌+◌, ◌-◌, ◌*◌, ◌/◌, ◌%◌, ◌^◌, Bool, true, false, not, ◌&&◌, Option, none, some, List, [],
  ◌∷◌, ◌++◌, if◌then◌else◌, ltb, leb, ◌==◌, get_elem?,
}
use but_telepresence.Prelude.Int.{ℤ, pos, negsuc, ◌+ℤ◌, half_ℤ, ltb_ℤ}
use but_telepresence.Prelude.Text.{Str}
use but_telepresence.Prelude.Words.{u32, u64, sub32, sub64, signed32, signed64, cast}

-- NTP_TIMESTAMP_DELTA, the seconds from 1900 to 1970.
abbrev pub ntp_timestamp_delta : ℕ
ntp_timestamp_delta = 2208988800

abbrev pub fallback_threshold : ℤ
fallback_threshold = pos 5

abbrev pub stale_threshold_us : ℕ
stale_threshold_us = 5000000

abbrev pub max_rtt_us : ℕ
max_rtt_us = 20000

-- The struct Sample: the offset as an int64_t.
pub record Measurement : Type 0 where
  pub offset : ℤ
  pub rtt : ℕ
  pub diff : ℕ

pub data SampleOutcome : Type 0 where
  accepted rtt_rejected failed : SampleOutcome

pub record Timer : Type 0 where
  pub server : Str
  pub fallback_server : Str
  pub using_fallback : Bool
  pub smoothed_offset_us : ℤ
  pub has_initial_offset : Bool
  pub last_synced_timestamp_local : ℕ
  pub sync_healthy : Bool
  pub consecutive_sync_failures : ℕ  -- the bit pattern of an int

-- An NTP timestamp of the response as two 32-bit words. The double arithmetic is exact up to the
-- cut to an integer: a 32-bit number over 2^32, times 10^6.
unfoldable pub parse_timestamp : (secs frac : ℕ) → ℕ
parse_timestamp secs frac =
    u64 (u64 (sub32 secs ntp_timestamp_delta * 1000000) + frac * 1000000 / 2 ^ 32)

-- The seconds of the request, as sent: the cast to uint32_t.
unfoldable pub ntp_seconds : (t_1 : ℕ) → ℕ
ntp_seconds t_1 = u32 (t_1 / 1000000 + ntp_timestamp_delta)

-- The sum of the two int64_t is taken to wrap; C++ leaves it open there.
unfoldable pub offset_of : (t_1 t_2 t_3 t_4 : ℕ) → ℤ
offset_of t_1 t_2 t_3 t_4 = half_ℤ (signed64 (u64 (sub64 t_2 t_1 + sub64 t_3 t_4)))

unfoldable pub delay_of : (t_1 t_2 t_3 t_4 : ℕ) → ℕ
delay_of t_1 t_2 t_3 t_4 = sub64 (sub64 t_4 t_1) (sub64 t_3 t_2)

-- GetCurrentTimeUs for a reading of the clock.
unfoldable pub get_current_time_us : Timer → (now : ℕ) → ℕ
get_current_time_us t now = u64 (now + cast (2 ^ 64) t.smoothed_offset_us)

-- What an exchange brings: an error of any call, a throw included; or the two clock readings, the
-- two timestamps of the server, and the clock when the sample is returned.
pub data Exchange : Type 0 where
  fails : Exchange
  answers : (t_1 t_2 t_3 t_4 now : ℕ) → Exchange

abbrev pub fail : Timer → Timer
fail t = record t {
  consecutive_sync_failures = u32 (suc t.consecutive_sync_failures);
  sync_healthy = false;
}

abbrev pub succeed : Timer → Timer
succeed t = record t { consecutive_sync_failures = 0; sync_healthy = true }

unfoldable pub get_one_ntp_sample : Exchange → Timer → Option Measurement × (SampleOutcome × Timer)
get_one_ntp_sample fails t = (none, (SampleOutcome.failed, fail t))
get_one_ntp_sample (answers t_1 t_2 t_3 t_4 now) t =
    if ltb max_rtt_us (delay_of t_1 t_2 t_3 t_4) then (none, (SampleOutcome.rtt_rejected, t)) else (
      some (record {
        offset = offset_of t_1 t_2 t_3 t_4;
        rtt = delay_of t_1 t_2 t_3 t_4;
        diff = sub64 (get_current_time_us (succeed t) now) t_3;
      }),
      (SampleOutcome.accepted, succeed t),
    )

abbrev pub keep : Option Measurement → List Measurement → List Measurement
keep none ms = ms
keep (some m) ms = m ∷ ms

-- The samples of a cycle, in order.
pub take_samples : List Exchange → Timer → List Measurement × Timer
take_samples [] t = ([], t)
take_samples (e ∷ es) t =
    let sample = get_one_ntp_sample e t in
    let rest = take_samples es sample.1.1 in (keep sample.0 rest.0, rest.1)

-- The loop over the samples, from index `i` on.
best_from : ℕ → (best_rtt best_index : ℕ) → List Measurement → ℕ
best_from i best_rtt best_index [] = best_index
best_from i best_rtt best_index (m ∷ ms) =
    let better = best_from (suc i) m.rtt i ms in
    let worse = best_from (suc i) best_rtt best_index ms in
    if ltb m.rtt best_rtt then better else worse

unfoldable pub best_index : List Measurement → ℕ
unfolding best_from
best_index ms = best_from 0 (2 ^ 64 - 1) 0 ms

-- alpha * offset + (1 - alpha) * smoothed, cut to an integer.
abbrev pub Smooth : Type 0
Smooth = (offset smoothed : ℤ) → ℤ

abbrev pub accept : Smooth → (now : ℕ) → Measurement → Timer → Timer
accept smooth now m t = record t {
  smoothed_offset_us =
      if t.has_initial_offset then smooth m.offset t.smoothed_offset_us else m.offset;
  has_initial_offset = true;
  last_synced_timestamp_local = now;
}

abbrev pub fall_back : Timer → Timer
fall_back t = record t {
  server = t.fallback_server;
  using_fallback = true;
  consecutive_sync_failures = 0;
}

abbrev pub is_empty {ℓ} : {A : Type ℓ} → List A → Bool
is_empty [] = true
is_empty (x ∷ xs) = false

abbrev pub wants_fallback : Timer → Bool
wants_fallback t =
    not t.using_fallback
    && (not (ltb_ℤ (signed32 t.consecutive_sync_failures) fallback_threshold)
        && not (is_empty t.fallback_server))

-- The end of a cycle with these samples; the clock is read at `now`.
unfoldable pub finish_cycle : Smooth → (now : ℕ) → List Measurement → Timer → Timer
finish_cycle smooth now samples t =
    if is_empty samples
    then if wants_fallback t then fall_back t else t
    else elim (get_elem? samples (best_index samples)) [
      | none ↦ t
      | some best ↦ accept smooth now best t
    ]

-- SyncWithServer, with what its three exchanges bring.
unfoldable pub sync_with_server :
    Smooth → (now : ℕ) → (first second third : Exchange) → Timer → Timer
unfolding take_samples
sync_with_server smooth now first second third t =
    let taken = take_samples (first ∷ second ∷ third ∷ []) t in
    finish_cycle smooth now taken.0 taken.1

unfoldable pub get_time_since_last_sync_us : Timer → (now : ℕ) → ℕ
get_time_since_last_sync_us t now = sub64 now t.last_synced_timestamp_local

unfoldable pub is_sync_stale : Timer → (now : ℕ) → Bool
is_sync_stale t now =
    t.has_initial_offset && ltb stale_threshold_us (get_time_since_last_sync_us t now)
