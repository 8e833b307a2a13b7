-- ===== src/Headset/Storage/Values.antt =====
-- What the preferences hold after the values were saved.
use but_telepresence.Prelude.{
  ◌≡◌, refl, ◌∙◌, sym, ◌⊎◌, true, false, Option-cases, inl, inr, Option, none, some, List, [], ◌∷◌,
  if◌then◌else◌, arith,
}
use but_telepresence.Prelude.Text.{Str, str_eq, str_eq→eq}
use but_telepresence.Headset.Storage.{Preferences, save_values}

-- The value under a key that was saved last.
unfoldable pub last_value : Str → List (Str × Str) → Option Str
last_value key [] = none
last_value key ((k, v) ∷ vs) = elim (last_value key vs) [
  | none ↦ if str_eq k key then some v else none
  | some w ↦ some w
]

last_value_none :
    (key k v : Str) (vs : List (Str × Str))
    → last_value key ((k, v) ∷ vs) ≡ none
    → (last_value key vs ≡ none) × (str_eq k key ≡ false)
unfolding last_value
last_value_none key k v vs h = ground (arith, h, Option-cases (last_value key vs))

last_value-some :
    (key k v value : Str) (vs : List (Str × Str))
    → last_value key ((k, v) ∷ vs) ≡ some value
    → (last_value key vs ≡ some value)
      ⊎ ((last_value key vs ≡ none) × (str_eq k key ≡ true) × (v ≡ value))
unfolding last_value
last_value-some key k v value vs h = ground (arith, h, Option-cases (last_value key vs))

module _ {ℓ} {P : Type ℓ} (pr : Preferences P) where
  kept :
      (key default : Str) (vs : List (Str × Str)) (p : P)
      → last_value key vs ≡ none
      → pr.get_string (save_values pr vs p) key default ≡ pr.get_string p key default
  unfolding save_values
  kept key default [] p h = refl
  kept key default ((k, v) ∷ vs) p h =
      let n = last_value_none key k v vs h in
      kept key default vs _ n.0 ∙ pr.get_put_other key k v default p n.1

  put :
      (key k v default : Str) (p : P)
      → str_eq k key ≡ true
      → pr.get_string (pr.put_string k v p) key default ≡ v
  put key k v default p h = rw (sym (str_eq→eq k key h)) (pr.get_put k v default p)

  pub get-save_values :
      (key default value : Str) (vs : List (Str × Str)) (p : P)
      → last_value key vs ≡ some value
      → pr.get_string (save_values pr vs p) key default ≡ value
  unfolding save_values last_value
  get-save_values key default value [] p h = ground (arith, h)
  get-save_values key default value ((k, v) ∷ vs) p h = elim (last_value-some key k v value vs h) [
    | inl e ↦ get-save_values key default value vs _ e
    | inr (n, e, same) ↦ kept key default vs _ n ∙ put key k v default p e ∙ same
  ]
