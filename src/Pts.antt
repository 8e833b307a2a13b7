-- ===== src/Pts.antt =====
-- The class PtsTimestampMap, which stands in two copies: VR_App/include/types/camera_types.h and
-- streaming_driver/include/logging.h. Only the comment above the class differs.
-- The mutex makes each call atomic, so a call is a function on the map.
-- An unordered_map is an association list with one entry for a key.
pub mod Laws
use but_telepresence.Prelude.{
  ℕ, ◌≡◌, Option, none, some, List, [], ◌∷◌, arith, leb, ◌==◌, if◌then◌else◌, length,
}

abbrev pub max_size : ℕ
max_size = 64

abbrev pub PtsMap : Type 0
PtsMap = List (ℕ × ℕ)

-- map_[pts] = time_us: overwrites the entry of the key or adds one.
pub insert : ℕ → ℕ → PtsMap → PtsMap
insert pts time_us [] = (pts, time_us) ∷ []
insert pts time_us ((k, t) ∷ m) =
    if k == pts then (k, time_us) ∷ m else (k, t) ∷ insert pts time_us m

-- map_.find(pts).
unfoldable pub find : ℕ → PtsMap → Option ℕ
find pts [] = none
find pts ((k, t) ∷ m) = if k == pts then some t else find pts m

-- map_.erase(it), for the entry of a key.
pub erase : ℕ → PtsMap → PtsMap
erase pts [] = []
erase pts ((k, t) ∷ m) = if k == pts then m else (k, t) ∷ erase pts m

unfoldable pub store : ℕ → ℕ → PtsMap → PtsMap
unfolding insert
store pts time_us m = insert pts time_us (if leb max_size (length m) then [] else m)

-- The time of the key, 0 if it is not there, and the map without it.
unfoldable pub consume : ℕ → PtsMap → ℕ × PtsMap
unfolding find erase
consume pts m = elim (find pts m) [ none ↦ (0, m) | some t ↦ (t, erase pts m) ]

pub data Call : Type 0 where
  stores : ℕ → ℕ → Call
  consumes : ℕ → Call

abbrev pub step : Call → PtsMap → PtsMap
step (stores pts time_us) m = store pts time_us m
step (consumes pts) m = (consume pts m).1

-- The map after a sequence of calls, as the lock lets them through.
unfoldable pub run : List Call → PtsMap → PtsMap
run [] m = m
run (c ∷ cs) m = run cs (step c m)
