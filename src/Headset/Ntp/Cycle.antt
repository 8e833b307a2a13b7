-- ===== src/Headset/Ntp/Cycle.antt =====
-- A cycle of VR_App/src/ntp_timer.cpp (SyncWithServer): which sample is used, and when the server
-- is changed.
use but_telepresence.Prelude.{
  ℕ, zero, suc, ◌+◌, ◌-◌, ◌<◌, ◌≤◌, ◌^◌, ◌≡◌, ◌≢◌, refl, true, false, none, some, List, [], ◌∷◌,
  arith, All, get_elem?, Bool-cases, inl, inr, subst, sym, ◌∙◌, ◌⊎◌, ltb,
}
use but_telepresence.Headset.Ntp.{
  Measurement, Timer, Exchange, Smooth, fails, answers, delay_of, best_from, best_index,
  take_samples, get_one_ntp_sample, finish_cycle, sync_with_server, max_rtt_us, accept, fail,
  succeed, keep, SampleOutcome, wants_fallback,
}

-- A measurement of the list with the least round trip.
pub record IsBest (ms : List Measurement) (m : Measurement) : Type 0 where
  pub found : get_elem? ms (best_index ms) ≡ some m
  pub least : All (λ n. m.rtt ≤ n.rtt) ms

best_from_lem :
    (ms : List Measurement) (i b k : ℕ)
    → (best_from i b k ms ≡ k) × All (λ n. b ≤ n.rtt) ms
      ⊎ ((j : ℕ) × (m : Measurement) × (best_from i b k ms ≡ i + j)
          × (get_elem? ms j ≡ some m)
          × (m.rtt < b)
          × All (λ n. m.rtt ≤ n.rtt) ms)
unfolding best_from
best_from_lem [] i b k = inl (refl, tt)
best_from_lem (m ∷ ms) i b k = elim (Bool-cases (ltb m.rtt b)) [
  | inl h ↦ elim (best_from_lem ms (suc i) m.rtt i) [
    | inl (e, l) ↦ inr (zero, m, rw h (ground (arith, e)), refl, ground arith, (ground arith, l))
    | inr (j, n, e, f, g, l) ↦
        inr (suc j, n, rw h (ground (arith, e)), f, ground arith, (ground arith, l))
  ]
  | inr h ↦ elim (best_from_lem ms (suc i) b k) [
    | inl (e, l) ↦ inl (rw h e, (ground arith, l))
    | inr (j, n, e, f, g, l) ↦ inr (suc j, n, rw h (ground (arith, e)), f, g, (ground arith, l))
  ]
]

best_index_lem :
    (m : Measurement) (ms : List Measurement)
    → m.rtt < 2 ^ 64 - 1
    → (n : Measurement) × IsBest (m ∷ ms) n
unfolding best_index
best_index_lem m ms h = elim (best_from_lem (m ∷ ms) 0 (2 ^ 64 - 1) 0) [
  | inl (e, l) ↦ absurd (let g = l.0 in omega (arith, g))
  | inr (j, n, e, f, g, l) ↦ (
    n,
    record {
      found = simp e (subst (λ i. get_elem? (m ∷ ms) i ≡ some n) (omega arith) f);
      least = l;
    },
  )
]

-- Every sample that is kept came back in time.
take_samples_bound :
    (es : List Exchange) (t : Timer) → All (λ m. m.rtt ≤ max_rtt_us) (take_samples es t).0
unfolding take_samples get_one_ntp_sample
take_samples_bound [] t = tt
take_samples_bound (fails ∷ es) t = take_samples_bound es (fail t)
take_samples_bound (answers a b c d now ∷ es) t =
    elim (Bool-cases (ltb max_rtt_us (delay_of a b c d))) [
      | inl h ↦ rw h (take_samples_bound es t)
      | inr h ↦ rw h (ground arith, take_samples_bound es (succeed t))
    ]

-- What the cycle makes of the estimate of the offset.
abbrev pub Keeps : Timer → Timer → Type 0
Keeps t u =
    (u.smoothed_offset_us ≡ t.smoothed_offset_us)
    × (u.has_initial_offset ≡ t.has_initial_offset)
    × (u.last_synced_timestamp_local ≡ t.last_synced_timestamp_local)

take_samples-Keeps : (es : List Exchange) (t : Timer) → Keeps t (take_samples es t).1
unfolding take_samples get_one_ntp_sample
take_samples-Keeps [] t = (refl, refl, refl)
take_samples-Keeps (fails ∷ es) t = take_samples-Keeps es (fail t)
take_samples-Keeps (answers a b c d now ∷ es) t =
    elim (Bool-cases (ltb max_rtt_us (delay_of a b c d))) [
      | inl h ↦ rw h (take_samples-Keeps es t)
      | inr h ↦ rw h (take_samples-Keeps es (succeed t))
    ]

finish_cycle-Keeps :
    (smooth : Smooth) (now : ℕ) (t : Timer) → Keeps t (finish_cycle smooth now [] t)
unfolding finish_cycle
finish_cycle-Keeps smooth now t = ground arith

-- A cycle with samples `ms`, after which the timer was `t`, ended in `u`.
abbrev pub UsesBest : Smooth → (now : ℕ) → List Measurement → Timer → Timer → Type 0
UsesBest smooth now ms t u =
    (m : Measurement) × IsBest ms m × (m.rtt ≤ max_rtt_us) × (u ≡ accept smooth now m t)

best_bound :
    (ms : List Measurement) (m : Measurement) (i : ℕ)
    → All (λ n. n.rtt ≤ max_rtt_us) ms
    → get_elem? ms i ≡ some m
    → m.rtt ≤ max_rtt_us
best_bound [] m i a e = cc
best_bound (n ∷ ms) m zero a e = ground (arith, e, a)
best_bound (n ∷ ms) m (suc i) a e = best_bound ms m i a.1 e

finish_cycle-UsesBest :
    (smooth : Smooth) (now : ℕ) (m : Measurement) (ms : List Measurement) (t : Timer)
    → All (λ n. n.rtt ≤ max_rtt_us) (m ∷ ms)
    → UsesBest smooth now (m ∷ ms) t (finish_cycle smooth now (m ∷ ms) t)
unfolding finish_cycle
finish_cycle-UsesBest smooth now m ms t a =
    let (n, b) = best_index_lem m ms (let c = a.0 in omega (arith, c)) in
    (n, b, best_bound (m ∷ ms) n (best_index (m ∷ ms)) a b.found, rw (finish_cycle, b.found) refl)

abbrev pub three : (first second third : Exchange) → List Exchange
three first second third = first ∷ second ∷ third ∷ []

finish_cycle-cases :
    (smooth : Smooth) (now : ℕ) (ms : List Measurement) (t u : Timer)
    → Keeps t u
    → All (λ n. n.rtt ≤ max_rtt_us) ms
    → ((ms ≡ []) × Keeps t (finish_cycle smooth now ms u))
      ⊎ UsesBest smooth now ms u (finish_cycle smooth now ms u)
finish_cycle-cases smooth now [] t u k a =
    let f = finish_cycle-Keeps smooth now u in inl (refl, (f.0 ∙ k.0, f.1 ∙ k.1, f.2 ∙ k.2))
finish_cycle-cases smooth now (m ∷ ms) t u k a = inr (finish_cycle-UsesBest smooth now m ms u a)

-- A cycle ends in one of two ways: no sample was kept, and then the offset, whether there is one,
-- and the time of the last sync are as before; or a kept sample with the least round trip, at most
-- 20 ms, is the one from which offset and time of sync are set.
pub sync_with_server_lem :
    (smooth : Smooth) (now : ℕ) (a b c : Exchange) (t : Timer)
    → (((take_samples (three a b c) t).0 ≡ []) × Keeps t (sync_with_server smooth now a b c t))
      ⊎ UsesBest smooth now
          (take_samples (three a b c) t).0
          (take_samples (three a b c) t).1
          (sync_with_server smooth now a b c t)
unfolding sync_with_server
sync_with_server_lem smooth now a b c t =
    finish_cycle-cases smooth now (take_samples (three a b c) t).0 t
      (take_samples (three a b c) t).1 (take_samples-Keeps (three a b c) t)
      (take_samples_bound (three a b c) t)

abbrev pub IsLate : Exchange → Type 0
IsLate fails = ⊥
IsLate (answers a b c d now) = max_rtt_us < delay_of a b c d

late_sample :
    (e : Exchange) (t : Timer)
    → IsLate e
    → get_one_ntp_sample e t ≡ (none, (SampleOutcome.rtt_rejected, t))
unfolding get_one_ntp_sample
late_sample fails t h = absurd h
late_sample (answers a b c d now) t h = ground arith

late_samples : (es : List Exchange) (t : Timer) → All IsLate es → take_samples es t ≡ ([], t)
unfolding take_samples
late_samples [] t h = refl
late_samples (e ∷ es) t h =
    subst
      (λ r.
        ◌≡◌ {A = List Measurement × Timer}
          (keep r.0 (take_samples es r.1.1).0, (take_samples es r.1.1).1) ([], t))
      (sym (late_sample e t h.0)) (late_samples es t h.1)

-- A cycle in which every answer comes too late changes nothing at all: no failure is counted and
-- the state of health stays, unless the failures before it already ask for the fallback server.
pub late_cycle_lem :
    (smooth : Smooth) (now : ℕ) (a b c : Exchange) (t : Timer)
    → IsLate a
    → IsLate b
    → IsLate c
    → wants_fallback t ≡ false
    → sync_with_server smooth now a b c t ≡ t
unfolding sync_with_server finish_cycle
late_cycle_lem smooth now a b c t ha hb hc w =
    subst (λ r. finish_cycle smooth now r.0 r.1 ≡ t)
      (sym (late_samples (three a b c) t (ha, (hb, (hc, tt))))) (rw w refl)

abbrev pub failing : Smooth → (now : ℕ) → Timer → Timer
failing smooth now t = sync_with_server smooth now fails fails fails t

-- An unreachable server is given up at the end of the second cycle: from no failures, without a
-- fallback in use and with one named, a cycle of three failed exchanges keeps the server and counts
-- three failures, and a second one changes to the fallback server and starts the count again.
pub fallback_lem :
    (smooth : Smooth) (now later : ℕ) (t : Timer)
    → t.consecutive_sync_failures ≡ 0
    → t.using_fallback ≡ false
    → t.fallback_server ≢ []
    → (((failing smooth now t).server ≡ t.server)
        × ((failing smooth now t).consecutive_sync_failures ≡ 3))
      × (((failing smooth later (failing smooth now t)).server ≡ t.fallback_server)
          × (((failing smooth later (failing smooth now t)).using_fallback ≡ true)
              × ((failing smooth later (failing smooth now t)).consecutive_sync_failures ≡ 0)))
unfolding sync_with_server take_samples finish_cycle get_one_ntp_sample
fallback_lem smooth now later t z f n = ground (arith, z, f)
