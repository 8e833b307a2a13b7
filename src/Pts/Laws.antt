-- ===== src/Pts/Laws.antt =====
-- Laws of PtsTimestampMap: bounded size, one entry for a key, and what `consume` gives back.
use but_telepresence.Prelude.{
  ℕ, ◌≤◌, ◌<◌, ◌+◌, ◌≡◌, ◌≢◌, refl, none, some, List, [], ◌∷◌, arith, ◌==◌, if◌then◌else◌, length,
  All, leb,
}
use but_telepresence.Pts.{
  PtsMap, max_size, insert, find, erase, store, consume, Call, stores, consumes, step, run,
}

-- No key has two entries.
abbrev pub HasUniqueKeys : PtsMap → Type 0
HasUniqueKeys [] = Unit {0}
HasUniqueKeys ((k, t) ∷ m) = (find k m ≡ none) × HasUniqueKeys m

pub find-insert :
    (j k t : ℕ) (m : PtsMap) → find j (insert k t m) ≡ (if k == j then some t else find j m)
unfolding find insert
find-insert j k t [] = refl
find-insert j k t ((i, u) ∷ m) = ground (arith, find-insert j k t m)

pub find-erase :
    (j k : ℕ) (m : PtsMap)
    → HasUniqueKeys m
    → find j (erase k m) ≡ (if k == j then none else find j m)
unfolding find erase
find-erase j k [] u = ground arith
find-erase j k ((i, t) ∷ m) u = ground (arith, find-erase j k m u.1)

pub insert-HasUniqueKeys : (k t : ℕ) (m : PtsMap) → HasUniqueKeys m → HasUniqueKeys (insert k t m)
unfolding find insert
insert-HasUniqueKeys k t [] u = (refl, tt)
insert-HasUniqueKeys k t ((i, v) ∷ m) u =
    ground (arith, insert-HasUniqueKeys k t m u.1, find-insert i k t m)

pub erase-HasUniqueKeys : (k : ℕ) (m : PtsMap) → HasUniqueKeys m → HasUniqueKeys (erase k m)
unfolding find erase
erase-HasUniqueKeys k [] u = tt
erase-HasUniqueKeys k ((i, v) ∷ m) u =
    ground (arith, erase-HasUniqueKeys k m u.1, find-erase i k m u.1)

length-insert : (k t : ℕ) (m : PtsMap) → length (insert k t m) ≤ length m + 1
unfolding insert
length-insert k t [] = omega arith
length-insert k t ((i, v) ∷ m) = ground (arith, length-insert k t m)

length-erase : (k : ℕ) (m : PtsMap) → length (erase k m) ≤ length m
unfolding erase
length-erase k [] = omega arith
length-erase k ((i, v) ∷ m) = ground (arith, length-erase k m)

pub record IsBounded (m : PtsMap) : Type 0 where
  pub unique : HasUniqueKeys m
  pub size : length m ≤ max_size

-- Whether the map is cleared before the entry is added.
kept : PtsMap → PtsMap
kept m = if leb max_size (length m) then [] else m

kept-IsBounded :
    (m : PtsMap) → HasUniqueKeys m → HasUniqueKeys (kept m) × (length (kept m) < max_size)
unfolding kept
kept-IsBounded m u = ground arith

store-IsBounded : (k t : ℕ) (m : PtsMap) → IsBounded m → IsBounded (store k t m)
unfolding store kept
store-IsBounded k t m b = record {
  unique = insert-HasUniqueKeys k t (kept m) (kept-IsBounded m b.unique).0;
  size = omega (arith, kept-IsBounded m b.unique, length-insert k t (kept m));
}

consume-IsBounded : (k : ℕ) (m : PtsMap) → IsBounded m → IsBounded (consume k m).1
unfolding consume
consume-IsBounded k m b = ground (arith, b, erase-HasUniqueKeys k m b.unique, length-erase k m)

step-IsBounded : (c : Call) (m : PtsMap) → IsBounded m → IsBounded (step c m)
step-IsBounded (stores k t) m b = store-IsBounded k t m b
step-IsBounded (consumes k) m b = consume-IsBounded k m b

-- From a map of at most 64 entries in which no key has two, every sequence of calls leads to such
-- a map.
pub run-IsBounded : (cs : List Call) (m : PtsMap) → IsBounded m → IsBounded (run cs m)
unfolding run
run-IsBounded [] m b = b
run-IsBounded (c ∷ cs) m b = run-IsBounded cs (step c m) (step-IsBounded c m b)

-- The call is about another key.
abbrev pub Spares : ℕ → Call → Type 0
Spares k (stores j t) = j ≢ k
Spares k (consumes j) = j ≢ k

-- The call does not store under the key.
abbrev pub StoresNo : ℕ → Call → Type 0
StoresNo k (stores j t) = j ≢ k
StoresNo k (consumes j) = Unit {0}

length-consume : (k : ℕ) (m : PtsMap) → length (consume k m).1 ≤ length m
unfolding consume
length-consume k m = ground (arith, length-erase k m)

find-consume_ne :
    (j k : ℕ) (m : PtsMap) → HasUniqueKeys m → k ≢ j → find j (consume k m).1 ≡ find j m
unfolding consume
find-consume_ne j k m u ne = ground (arith, find-erase j k m u)

find-consume_self : (k : ℕ) (m : PtsMap) → HasUniqueKeys m → find k (consume k m).1 ≡ none
unfolding consume
find-consume_self k m u = ground (arith, find-erase k k m u)

consume_found : (k t : ℕ) (m : PtsMap) → find k m ≡ some t → (consume k m).0 ≡ t
unfolding consume
consume_found k t m f = ground arith

consume_missing : (k : ℕ) (m : PtsMap) → find k m ≡ none → (consume k m).0 ≡ 0
unfolding consume
consume_missing k m f = ground arith

length-store : (k t : ℕ) (m : PtsMap) → length m < max_size → length (store k t m) ≤ length m + 1
unfolding store
length-store k t m h = ground (arith, length-insert k t m)

find-store_ne :
    (j k t : ℕ) (m : PtsMap) → k ≢ j → length m < max_size → find j (store k t m) ≡ find j m
unfolding store
find-store_ne j k t m ne h = ground (arith, find-insert j k t m)

find-store_self : (k t : ℕ) (m : PtsMap) → find k (store k t m) ≡ some t
unfolding store kept
find-store_self k t m = ground (arith, find-insert k k t (kept m))

run_keeps :
    (k t : ℕ) (cs : List Call) (m : PtsMap)
    → IsBounded m
    → All (Spares k) cs
    → length m + length cs ≤ max_size
    → find k m ≡ some t
    → find k (run cs m) ≡ some t
unfolding run
run_keeps k t [] m b sp room f = f
run_keeps k t (stores j u ∷ cs) m b sp room f =
    run_keeps k t cs (store j u m) (store-IsBounded j u m b) sp.1
      (omega (arith, length-store j u m (omega arith)))
      (rw (find-store_ne k j u m sp.0 (omega arith)) f)
run_keeps k t (consumes j ∷ cs) m b sp room f =
    run_keeps k t cs (consume j m).1 (consume-IsBounded j m b) sp.1
      (omega (arith, length-consume j m)) (rw (find-consume_ne k j m b.unique sp.0) f)

-- A stored time is given back: from a bounded map with no key twice, after a store under a key,
-- any calls about other keys, and no more calls than places left in the map after the store,
-- consuming the key returns the stored time.
pub consume-store :
    (k t : ℕ) (cs : List Call) (m : PtsMap)
    → IsBounded m
    → All (Spares k) cs
    → length (store k t m) + length cs ≤ max_size
    → (consume k (run cs (store k t m))).0 ≡ t
consume-store k t cs m b sp room =
    consume_found k t (run cs (store k t m))
      (run_keeps k t cs (store k t m) (store-IsBounded k t m b) sp room (find-store_self k t m))

find-store_none : (j k t : ℕ) (m : PtsMap) → k ≢ j → find j m ≡ none → find j (store k t m) ≡ none
unfolding store find
find-store_none j k t m ne f = ground (arith, find-insert j k t m, find-insert j k t [])

find-consume_none :
    (j k : ℕ) (m : PtsMap) → HasUniqueKeys m → find j m ≡ none → find j (consume k m).1 ≡ none
unfolding consume
find-consume_none j k m u f = ground (arith, find-erase j k m u)

run_lacks :
    (k : ℕ) (cs : List Call) (m : PtsMap)
    → IsBounded m
    → All (StoresNo k) cs
    → find k m ≡ none
    → find k (run cs m) ≡ none
unfolding run
run_lacks k [] m b sp f = f
run_lacks k (stores j u ∷ cs) m b sp f =
    run_lacks k cs (store j u m) (store-IsBounded j u m b) sp.1 (find-store_none k j u m sp.0 f)
run_lacks k (consumes j ∷ cs) m b sp f =
    run_lacks k cs (consume j m).1 (consume-IsBounded j m b) sp.1
      (find-consume_none k j m b.unique f)

-- A time is given out once: from a bounded map with no key twice, after a key is consumed and any
-- calls that do not store under it, consuming it again returns 0.
pub consume_once :
    (k : ℕ) (cs : List Call) (m : PtsMap)
    → IsBounded m
    → All (StoresNo k) cs
    → (consume k (run cs (consume k m).1)).0 ≡ 0
consume_once k cs m b sp =
    consume_missing k (run cs (consume k m).1)
      (run_lacks k cs (consume k m).1 (consume-IsBounded k m b) sp (find-consume_self k m b.unique))
