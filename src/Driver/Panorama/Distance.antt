-- ===== src/Driver/Panorama/Distance.antt =====
-- CircularDistance measures the shorter way round a ring of six cameras.
use but_telepresence.Prelude.{ℕ, ◌+◌, ◌-◌, ◌%◌, ◌<◌, ◌≡◌, ◌↔◌, ltb, if◌then◌else◌, arith}
use but_telepresence.Prelude.Int.{pos}
use but_telepresence.Driver.Panorama.{circular_distance}

-- The steps from camera `a` on to camera `b` in the one direction.
abbrev pub steps : ℕ → ℕ → ℕ
steps a b = (b + 6 - a) % 6

-- The distance of two cameras is the smaller number of steps between them in the two directions,
-- of which one leads there.
pub circular_distance-steps :
    (a b : ℕ)
    → a < 6
    → b < 6
    → circular_distance a b ≡ pos (if ltb (steps b a) (steps a b) then steps b a else steps a b)
unfolding circular_distance
circular_distance-steps a b ha hb = ground arith

pub circular_distance-eq-zero :
    (a b : ℕ) → a < 6 → b < 6 → (circular_distance a b ≡ pos 0) ↔ (a ≡ b)
unfolding circular_distance
circular_distance-eq-zero a b ha hb = ground arith
