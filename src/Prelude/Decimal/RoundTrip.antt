-- ===== src/Prelude/Decimal/RoundTrip.antt =====
-- Writing an int in decimal and reading it back.
use but_telepresence.Prelude.{
  ℕ, zero, suc, ◌+◌, ◌*◌, ◌/◌, ◌%◌, ◌<◌, ◌≡◌, refl, ◌∙◌, inl, inr, Bool-cases, true, some, [], ◌∷◌,
  ltb, arith,
}
use but_telepresence.Prelude.Int.{ℤ, pos, negsuc}
use but_telepresence.Prelude.Text.{Str}
use but_telepresence.Prelude.Decimal.{
  digits, nat_to_string, to_string, is_digit, scan_digits, scan_number, scan_sign, skip_spaces,
  in_int_range, stoi,
}

-- A digit is scanned as the next one of the number.
scan_digits-digit :
    (m d n : ℕ) (acc : Str)
    → d < 10
    → m * 10 + d ≡ n
    → scan_digits m ((b'0' + d) ∷ acc) ≡ scan_digits n acc
unfolding scan_digits
scan_digits-digit m d n acc h e = ground arith

-- The digits in front are read as the number, and what follows goes on from there.
scan_digits-digits :
    (f n : ℕ) (acc : Str) → n < f → scan_digits 0 (digits f n acc) ≡ scan_digits n acc
unfolding digits
scan_digits-digits zero n acc h = absurd (omega arith)
scan_digits-digits (suc f) n acc h = elim (Bool-cases (ltb n 10)) [
  | inl small ↦ rw small (scan_digits-digit 0 n n acc (ground (arith, small)) (omega arith))
  | inr big ↦ rw big (
      scan_digits-digits f (n / 10) _ (ground (arith, big))
      ∙ scan_digits-digit (n / 10) (n % 10) n acc (omega arith) (omega arith))
]

-- A text that begins with a digit.
abbrev IsNumeral : Str → Type 0
IsNumeral s = (c : ℕ) × (w : Str) × (s ≡ c ∷ w) × (is_digit c ≡ true)

digits-IsNumeral : (f n : ℕ) (acc : Str) → n < f → IsNumeral (digits f n acc)
unfolding digits
digits-IsNumeral zero n acc h = absurd (omega arith)
digits-IsNumeral (suc f) n acc h = elim (Bool-cases (ltb n 10)) [
  | inl small ↦ rw small ((b'0' + n, acc, refl, ground (arith, small)))
  | inr big ↦ rw big (digits-IsNumeral f (n / 10) _ (ground (arith, big)))
]

scan_number-numeral : (s : Str) (n : ℕ) → IsNumeral s → scan_digits 0 s ≡ n → scan_number s ≡ some n
unfolding scan_number
scan_number-numeral s n (c, w, e, d) h = ground (arith, e, d, h)

scan_number-nat_to_string : (n : ℕ) → scan_number (nat_to_string n) ≡ some n
unfolding nat_to_string scan_digits
scan_number-nat_to_string n =
    scan_number-numeral (digits (suc n) n []) n (digits-IsNumeral (suc n) n [] (omega arith))
      (scan_digits-digits (suc n) n [] (omega arith))

-- A numeral is read as it stands: there is no space to skip and no sign.
stoi-numeral :
    (s : Str) (n : ℕ)
    → IsNumeral s
    → scan_number s ≡ some n
    → in_int_range (pos n) ≡ true
    → stoi s ≡ some (pos n)
unfolding stoi scan_sign skip_spaces
stoi-numeral s n (c, w, e, d) h r = ground (arith, e, d, h, r)

stoi_negative :
    (s : Str) (n : ℕ)
    → scan_number s ≡ some (suc n)
    → in_int_range (negsuc n) ≡ true
    → stoi (b'-' ∷ s) ≡ some (negsuc n)
unfolding stoi scan_sign skip_spaces
stoi_negative s n h r = ground (arith, h, r)

-- Every int is read back from its text.
pub stoi-to_string : (v : ℤ) → in_int_range v ≡ true → stoi (to_string v) ≡ some v
unfolding to_string
stoi-to_string (pos n) r =
    stoi-numeral (nat_to_string n) n
      (unfold nat_to_string in digits-IsNumeral (suc n) n [] (omega arith))
      (scan_number-nat_to_string n) r
stoi-to_string (negsuc n) r =
    stoi_negative (nat_to_string (suc n)) n (scan_number-nat_to_string (suc n)) r
