-- ===== src/Headset/Settings/Steps.antt =====
-- Each single step of the streaming settings of VR_App/src/program.cpp keeps its value in range.
use but_telepresence.Prelude.{
  ℕ, zero, suc, ◌+◌, ◌%◌, ◌<◌, ◌≤◌, ◌≡◌, refl, Bool, true, false, Option, none, some, List, [], ◌∷◌,
  arith, All, length, inl, inr, ◌⊎◌, ◌-◌, ◌==◌, ltb, Bool-cases, holds_to, holds_to_sound, subst,
  if◌then◌else◌,
}
use but_telepresence.Prelude.Int.{ℤ, pos, negsuc, min_ℤ, ltb_ℤ, ◌≤ℤ◌, ◌+ℤ◌, ◌-ℤ◌}
use but_telepresence.Headset.Enums.{Codec, VideoMode}
use but_telepresence.Headset.Resolution.{CameraResolution, get_index, from_index, get_list, count}
use but_telepresence.Headset.Settings.{
  bump, next_codec, previous_codec, next_mode, previous_mode, next_resolution, previous_resolution,
  max_ℤ,
}

abbrev pub IsOffered : Codec → Type 0
IsOffered Codec.jpeg = Unit {0}
IsOffered Codec.h264 = Unit {0}
IsOffered Codec.h265 = Unit {0}
IsOffered _ = ⊥

abbrev pub IsMode : VideoMode → Type 0
IsMode VideoMode.stereo = Unit {0}
IsMode VideoMode.mono = Unit {0}
IsMode VideoMode.panoramic = Unit {0}
IsMode _ = ⊥

abbrev pub IsBetween : ℕ → ℕ → ℤ → Type 0
IsBetween low high n = (pos low ≤ℤ n) × (n ≤ℤ pos high)

pub next_codec-IsOffered :
    (c : Codec) → IsOffered c → IsOffered (next_codec c) × IsOffered (previous_codec c)
unfolding next_codec previous_codec ◌+ℤ◌ ◌-ℤ◌
next_codec-IsOffered Codec.jpeg h = (tt, tt)
next_codec-IsOffered Codec.h264 h = (tt, tt)
next_codec-IsOffered Codec.h265 h = (tt, tt)
next_codec-IsOffered Codec.vp8 h = absurd h
next_codec-IsOffered Codec.vp9 h = absurd h
next_codec-IsOffered Codec.count h = absurd h
next_codec-IsOffered (Codec.other n) h = absurd h

pub next_mode-IsMode : (m : VideoMode) → IsMode m → IsMode (next_mode m) × IsMode (previous_mode m)
unfolding next_mode previous_mode ◌+ℤ◌ ◌-ℤ◌
next_mode-IsMode VideoMode.stereo h = (tt, tt)
next_mode-IsMode VideoMode.mono h = (tt, tt)
next_mode-IsMode VideoMode.panoramic h = (tt, tt)
next_mode-IsMode VideoMode.count h = absurd h
next_mode-IsMode (VideoMode.other n) h = absurd h

abbrev IsAddress : List ℕ → Type 0
IsAddress ip = (length ip ≡ 4) × All (λ o. o < 256) ip

pub bump_lem :
    (i step : ℕ) (ip : List ℕ)
    → i < length ip
    → All (λ o. o < 256) ip
    → (r : List ℕ) × (bump i step ip ≡ some r) × (length r ≡ length ip) × All (λ o. o < 256) r
bump_lem i step [] h a = absurd (omega arith)
bump_lem zero step (o ∷ ip) h a = ((o + step) % 256 ∷ ip, refl, refl, (omega arith, a.1))
bump_lem (suc i) step (o ∷ ip) h a =
    let (r, e, l, b) = bump_lem i step ip (omega arith) a.1 in
    (o ∷ r, rw e refl, omega (arith, l), (a.0, b))

abbrev pub IsListed : CameraResolution → Type 0
IsListed r = (i : ℕ) × (i < 10) × (from_index i ≡ some r)

abbrev pub IsListedOption : Option CameraResolution → Type 0
IsListedOption none = ⊥
IsListedOption (some r) = IsListed r

abbrev index_of : Option CameraResolution → Option ℕ
index_of none = none
index_of (some r) = get_index r

abbrev is_index : ℕ → Option ℕ → Bool
is_index i none = false
is_index i (some j) = i == j

-- Each of the ten resolutions has the index that it is found by.
indices : holds_to (λ i. is_index i (index_of (from_index i))) 10 ≡ true
unfolding holds_to from_index get_index
indices = refl

is_index_sound : (i : ℕ) (o : Option ℕ) → is_index i o ≡ true → o ≡ some i
is_index_sound i none h = ground arith
is_index_sound i (some j) h = ground arith

index_lem : (i : ℕ) → i < 10 → index_of (from_index i) ≡ some i
index_lem i h =
    is_index_sound i (index_of (from_index i))
      (holds_to_sound (λ i. is_index i (index_of (from_index i))) 10 i h indices)

from_index-IsListed : (i : ℕ) → i < 10 → IsListedOption (from_index i)
from_index-IsListed i h = go (from_index i) refl (index_lem i h)
  where
    go : (o : Option CameraResolution) → from_index i ≡ o → index_of o ≡ some i → IsListedOption o
    go none e f = cc
    go (some r) e f = (i, h, e)

pub step_resolution-IsListed :
    (r : CameraResolution)
    → IsListed r
    → IsListedOption (next_resolution r) × IsListedOption (previous_resolution r)
unfolding next_resolution previous_resolution count get_list
step_resolution-IsListed r (i, h, e) =
    let f : get_index r ≡ some i = subst (λ o. index_of o ≡ some i) e (index_lem i h) in
    (up f (Bool-cases (ltb i 9)), down f (Bool-cases (ltb 0 i)))
  where
    up :
        get_index r ≡ some i
        → (ltb i 9 ≡ true) ⊎ (ltb i 9 ≡ false)
        → IsListedOption (next_resolution r)
    up f (inl l) = rw (next_resolution, f) (rw l (from_index-IsListed (i + 1) (ground arith)))
    up f (inr l) = rw (next_resolution, f) (rw l (i, h, e))

    down :
        get_index r ≡ some i
        → (ltb 0 i ≡ true) ⊎ (ltb 0 i ≡ false)
        → IsListedOption (previous_resolution r)
    down f (inl l) = rw (previous_resolution, f) (rw l (from_index-IsListed (i - 1) (ground arith)))
    down f (inr l) = rw (previous_resolution, f) (rw l (i, h, e))

pub up-IsBetween :
    (top step : ℕ) (low : ℕ) (n : ℤ)
    → low ≤ top
    → IsBetween low top n
    → IsBetween low top (min_ℤ (n +ℤ pos step) (pos top))
unfolding ◌+ℤ◌
up-IsBetween top step low (pos n) l h = ground arith
up-IsBetween top step low (negsuc n) l h = ground arith

pub down-IsBetween :
    (top step : ℕ) (low : ℕ) (n : ℤ)
    → low ≤ top
    → IsBetween low top n
    → IsBetween low top (max_ℤ (n -ℤ pos step) (pos low))
unfolding ◌-ℤ◌
down-IsBetween top step low (pos n) l h = ground arith
down-IsBetween top step low (negsuc n) l h = ground arith

pub fps-IsBetween :
    (n : ℤ)
    → IsBetween 1 80 n
    → IsBetween 1 80 (if ltb_ℤ n (pos 80) then n +ℤ pos 1 else n)
      × IsBetween 1 80 (if ltb_ℤ (pos 1) n then n -ℤ pos 1 else n)
unfolding ◌+ℤ◌ ◌-ℤ◌
fps-IsBetween (pos n) h = ground arith
fps-IsBetween (negsuc n) h = ground arith
