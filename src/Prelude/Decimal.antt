-- ===== src/Prelude/Decimal.antt =====
-- Decimal text as the C++ library writes and reads it: std::to_string and std::stoi.
pub mod RoundTrip
use but_telepresence.Prelude.{
  ℕ, zero, suc, ◌+◌, ◌-◌, ◌*◌, ◌/◌, ◌%◌, ◌^◌, Bool, ◌&&◌, ◌||◌, Option, none, some, [], ◌∷◌, ltb,
  leb, ◌==◌, if◌then◌else◌,
}
use but_telepresence.Prelude.Int.{ℤ, pos, negsuc, sub_ℕ}
use but_telepresence.Prelude.Text.{Str}

-- The decimal digits of `n` in front of `acc`. The fuel `n + 1` is more than the number of digits.
unfoldable pub digits : ℕ → ℕ → Str → Str
digits zero n acc = acc
digits (suc f) n acc =
    let rest = digits f (n / 10) ((b'0' + n % 10) ∷ acc) in
    if ltb n 10 then (b'0' + n) ∷ acc else rest

unfoldable pub nat_to_string : ℕ → Str
unfolding digits
nat_to_string n = digits (suc n) n []

unfoldable pub to_string : ℤ → Str
unfolding nat_to_string
to_string (pos n) = nat_to_string n
to_string (negsuc n) = b'-' ∷ nat_to_string (suc n)

abbrev pub is_digit : ℕ → Bool
is_digit c = leb b'0' c && leb c b'9'

abbrev pub is_space : ℕ → Bool
is_space c = c == 32 || (leb 9 c && leb c 13)

-- The value of the digits at the front, after `n`; the text after them is not read.
unfoldable pub scan_digits : ℕ → Str → ℕ
scan_digits n [] = n
scan_digits n (c ∷ s) =
    let rest = scan_digits (n * 10 + (c - b'0')) s in if is_digit c then rest else n

-- At least one digit has to follow the sign, else std::invalid_argument is thrown.
unfoldable pub scan_number : Str → Option ℕ
unfolding scan_digits
scan_number [] = none
scan_number (c ∷ s) = if is_digit c then some (scan_digits 0 (c ∷ s)) else none

unfoldable pub scan_sign : Str → Option ℤ
unfolding scan_number
scan_sign [] = none
scan_sign (c ∷ s) =
    if c == b'-'
    then elim (scan_number s) [ none ↦ none | some n ↦ some (sub_ℕ 0 n) ]
    else elim (scan_number (if c == b'+' then s else c ∷ s)) [ none ↦ none | some n ↦ some (pos n) ]

unfoldable pub skip_spaces : Str → Str
skip_spaces [] = []
skip_spaces (c ∷ s) = let rest = skip_spaces s in if is_space c then rest else c ∷ s

-- Outside the range of int std::out_of_range is thrown.
abbrev pub in_int_range : ℤ → Bool
in_int_range (pos n) = ltb n (2 ^ 31)
in_int_range (negsuc n) = ltb n (2 ^ 31)

unfoldable pub stoi : Str → Option ℤ
unfolding scan_sign skip_spaces
stoi s = elim (scan_sign (skip_spaces s)) [
  | none ↦ none
  | some v ↦ if in_int_range v then some v else none
]
