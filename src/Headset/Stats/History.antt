-- ===== src/Headset/Stats/History.antt =====
-- The history of CameraStats holds the last snapshots of the window.
use but_telepresence.Prelude.{
  ℕ, zero, suc, ◌-◌, ◌≤◌, ◌≡◌, refl, sym, ◌∙◌, ap, Bool-cases, inl, inr, List, [], ◌∷◌, ◌++◌, ltb,
  ◌⊎◌, subst, map, length, length-append, drop, arith,
}
use but_telepresence.Headset.Snapshot.{CameraStatsSnapshot}
use but_telepresence.Headset.Stats.{
  Doubles, CameraStats, snapshot, window_of, trim, push, update_history,
}
use mathlib.Core.List.{append-nil, append_assoc}

-- The last `n` of a list.
abbrev pub last_n {ℓ} : {A : Type ℓ} → ℕ → List A → List A
last_n n xs = drop (length xs - n) xs

module _ {ℓ} {A : Type ℓ} where
  last_n_short : (w : ℕ) (xs : List A) → length xs ≤ w → last_n w xs ≡ xs
  last_n_short w xs h = let e : length xs - w ≡ 0 = omega (arith, h) in ap (λ n. drop n xs) e

  last_n_cons : (w : ℕ) (x : A) (xs : List A) → w ≤ length xs → last_n w (x ∷ xs) ≡ last_n w xs
  last_n_cons w x xs h =
      let e : suc (length xs) - w ≡ suc (length xs - w) = omega (arith, h) in
      ap (λ n. drop n (x ∷ xs)) e

  length-drop : (n : ℕ) (xs : List A) → length (drop n xs) ≡ length xs - n
  length-drop zero xs = omega arith
  length-drop (suc n) [] = omega arith
  length-drop (suc n) (x ∷ xs) = omega (arith, length-drop n xs)

  length-last_n : (w : ℕ) (xs : List A) → length (last_n w xs) ≤ w
  length-last_n w xs = omega (arith, length-drop (length xs - w) xs)

  -- What was left out before is left out at the end.
  last_n_append : (w : ℕ) (ys xs : List A) → last_n w (last_n w ys ++ xs) ≡ last_n w (ys ++ xs)
  last_n_append w [] xs = ap (λ zs. last_n w (zs ++ xs)) (last_n_short w [] (omega arith))
  last_n_append w (y ∷ ys) xs = elim (Bool-cases (ltb (length ys) w)) [
    | inl few ↦ ap (λ zs. last_n w (zs ++ xs)) (last_n_short w (y ∷ ys) (ground (arith, few)))
    | inr many ↦
        let l : w ≤ length ys = ground (arith, many) in
        ap (λ zs. last_n w (zs ++ xs)) (last_n_cons w y ys l)
        ∙ last_n_append w ys xs
        ∙ sym (last_n_cons w y (ys ++ xs) (omega (arith, l, length-append ys xs)))
  ]

-- Snapshots pushed one after the other.
unfoldable pushes :
    ℕ → List CameraStatsSnapshot → List CameraStatsSnapshot → List CameraStatsSnapshot
pushes w [] h = h
pushes w (x ∷ xs) h = pushes w xs (push w x h)

trim-last_n : (w : ℕ) (xs : List CameraStatsSnapshot) → trim w xs ≡ last_n w xs
unfolding trim
trim-last_n w [] = sym (last_n_short w [] (omega arith))
trim-last_n w (x ∷ xs) = elim (Bool-cases (ltb w (length (x ∷ xs)))) [
  | inl many ↦ rw many (trim-last_n w xs ∙ sym (last_n_cons w x xs (ground (arith, many))))
  | inr few ↦ rw few (sym (last_n_short w (x ∷ xs) (ground (arith, few))))
]

pushes-last_n :
    (w : ℕ) (xs h : List CameraStatsSnapshot) → length h ≤ w → pushes w xs h ≡ last_n w (h ++ xs)
unfolding pushes push
pushes-last_n w [] h b = sym (ap (λ ys. last_n w ys) (append-nil h) ∙ last_n_short w h b)
pushes-last_n w (x ∷ xs) h b =
    let t = trim-last_n w (h ++ (x ∷ [])) in
    pushes-last_n w xs (trim w (h ++ (x ∷ []))) (rw t (length-last_n w (h ++ (x ∷ []))))
    ∙ ap (λ ys. last_n w (ys ++ xs)) t
    ∙ last_n_append w (h ++ (x ∷ [])) xs
    ∙ ap (λ ys. last_n w ys) (append_assoc h (x ∷ []) xs)

-- The history after a sequence of updates, each with the values measured by then.
unfoldable pub updates :
    Doubles
    → (window_frames : ℕ) → List CameraStats
    → List CameraStatsSnapshot
    → List CameraStatsSnapshot
updates d w [] h = h
updates d w (s ∷ ss) h = updates d w ss (update_history d w (record s { history = h })).history

updates-pushes :
    (d : Doubles) (w : ℕ) (ss : List CameraStats) (h : List CameraStatsSnapshot)
    → updates d w ss h ≡ pushes (window_of w) (map snapshot ss) h
unfolding updates pushes update_history snapshot
updates-pushes d w [] h = refl
updates-pushes d w (s ∷ ss) h = updates-pushes d w ss _

window_of_lem : (w n : ℕ) → 2 ≤ n → w ≤ n → (n ≡ 2) ⊎ (n ≡ w) → window_of w ≡ n
window_of_lem w n a b c = ground (arith, a, b, c)

-- After any sequence of updates of a history within its window, the history holds the snapshots of
-- the last updates, in their order and as many as the window has frames, but two where it has fewer.
pub updates-last_n :
    (d : Doubles) (w n : ℕ) (ss : List CameraStats) (h : List CameraStatsSnapshot)
    → 2 ≤ n
    → w ≤ n
    → (n ≡ 2) ⊎ (n ≡ w)
    → length h ≤ n
    → updates d w ss h ≡ last_n n (h ++ map snapshot ss)
updates-last_n d w n ss h a b c k =
    let e = window_of_lem w n a b c in
    updates-pushes d w ss h
    ∙ subst (λ m. pushes m (map snapshot ss) h ≡ last_n n (h ++ map snapshot ss)) (sym e)
        (pushes-last_n n (map snapshot ss) h k)
