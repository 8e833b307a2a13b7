-- ===== src/Headset/Highlight/Octets.antt =====
-- What is marked in the text of an address.
use but_telepresence.Prelude.{
  ℕ, zero, suc, ◌-◌, ◌<◌, ◌≡◌, refl, subst, ap, ◌∙◌, Bool, true, false, ◌&&◌, holds_to,
  holds_to_sound, some, List, [], ◌∷◌, ◌++◌, length, take, get_elem?, All, arith, not,
  length-append,
}
use but_telepresence.Prelude.Text.{Str, codes}
use but_telepresence.Prelude.Decimal.{is_digit, nat_to_string}
use but_telepresence.Headset.Address.{ip_to_string}
use but_telepresence.Headset.Address.RoundTrip.{IsAddress}
use but_telepresence.Headset.Highlight.{
  find_first_of, find_first_not_of, segment_start, marked, focusable_text_ip, telepresence_ip_text,
}
use mathlib.Core.List.{append-nil, append_assoc}

all_digits : Str → Bool
all_digits [] = true
all_digits (c ∷ s) = is_digit c && all_digits s

is_number : Str → Bool
unfolding all_digits
is_number [] = false
is_number (c ∷ s) = is_digit c && all_digits s

byte_numbers : holds_to (λ n. is_number (nat_to_string n)) 256 ≡ true
unfolding holds_to is_number nat_to_string
byte_numbers = refl

byte_number : (n : ℕ) → n < 256 → is_number (nat_to_string n) ≡ true
byte_number n h = holds_to_sound _ 256 n h byte_numbers

-- No digit is at the front of the text.
abbrev IsApart : Str → Type 0
IsApart [] = Unit {0}
IsApart (c ∷ s) = is_digit c ≡ false

passes_digits : (w s : Str) → all_digits w ≡ true → IsApart s → find_first_not_of (w ++ s) ≡ s
unfolding find_first_not_of all_digits
passes_digits [] [] h a = refl
passes_digits [] (c ∷ s) h a = rw a refl
passes_digits (d ∷ w) s h a = ground (arith, h, passes_digits w s)

passes_number : (w s : Str) → is_number w ≡ true → IsApart s → find_first_not_of (w ++ s) ≡ s
unfolding is_number all_digits
passes_number [] s h a = cc
passes_number (d ∷ w) s h a = passes_digits (d ∷ w) s h a

finds_number : (w s : Str) → is_number w ≡ true → find_first_of (w ++ s) ≡ w ++ s
unfolding is_number find_first_of
finds_number [] s h = cc
finds_number (d ∷ w) s h = ground (arith, h)

next_segment :
    (w v s : Str)
    → is_number w ≡ true
    → is_number v ≡ true
    → find_first_of (find_first_not_of (w ++ (b'.' ∷ (v ++ s)))) ≡ v ++ s
unfolding find_first_of
next_segment w v s h k = rw (passes_number w (b'.' ∷ (v ++ s)) h refl) (finds_number v s k)

take-append : (w s : Str) → take (length (w ++ s) - length s) (w ++ s) ≡ w
take-append w s =
    subst (λ n. take n (w ++ s) ≡ w) (let e = length-append w s in omega (arith, e)) (front w s)
  where
    front : (x t : Str) → take (length x) (x ++ t) ≡ x
    front [] t = refl
    front (c ∷ x) t = ap (λ y. c ∷ y) (front x t)

marked_lem :
    (before w s : Str)
    → is_number w ≡ true
    → IsApart s
    → marked (before ++ (w ++ s)) (w ++ s) ≡ some (before, w)
unfolding marked is_number
marked_lem before [] s h a = cc
marked_lem before (d ∷ w) s h a =
    rw (take-append before (d ∷ (w ++ s)), marked)
      (rw (passes_number (d ∷ w) s h a) (rw (take-append (d ∷ w) s) refl))

has_no_digit : Str → Bool
has_no_digit [] = true
has_no_digit (c ∷ s) = not (is_digit c) && has_no_digit s

skips_label : (l s : Str) → has_no_digit l ≡ true → find_first_of (l ++ s) ≡ find_first_of s
unfolding find_first_of has_no_digit
skips_label [] s h = refl
skips_label (c ∷ l) s h = ground (arith, h, skips_label l s)

-- Moves the front of a text over one octet and its dot.
over : (x w r : Str) → (x ++ (w ++ (b'.' ∷ []))) ++ r ≡ x ++ (w ++ (b'.' ∷ r))
over x w r = append_assoc x (w ++ (b'.' ∷ [])) r ∙ ap (λ y. x ++ y) (append_assoc w (b'.' ∷ []) r)

-- The octets after the first, each behind its dot.
more_octets : List ℕ → Str
more_octets [] = []
more_octets (o ∷ ip) = b'.' ∷ (nat_to_string o ++ more_octets ip)

more_octets-IsApart : (ip : List ℕ) → IsApart (more_octets ip)
unfolding more_octets
more_octets-IsApart [] = tt
more_octets-IsApart (o ∷ ip) = refl

-- The text before an octet, behind the text `l`.
abbrev pub text_before : (l : Str) → (segment : ℕ) → List ℕ → Str
text_before l zero ip = l
text_before l (suc i) [] = l
text_before l (suc i) (o ∷ ip) = text_before (l ++ (nat_to_string o ++ (b'.' ∷ []))) i ip

octet_marked :
    (l : Str) (i o : ℕ) (ip : List ℕ) (n : ℕ)
    → All (λ x. x < 256) (o ∷ ip)
    → get_elem? (o ∷ ip) i ≡ some n
    → marked
        (l ++ (nat_to_string o ++ more_octets ip))
        (segment_start i (nat_to_string o ++ more_octets ip))
      ≡ some (text_before l i (o ∷ ip), nat_to_string n)
unfolding segment_start more_octets
octet_marked l zero o ip n h e =
    marked_lem l (nat_to_string o) (more_octets ip) (byte_number o h.0) (more_octets-IsApart ip)
    ∙ ap (λ x. some (l, nat_to_string x)) (cc)
octet_marked l (suc i) o [] n h e = cc
octet_marked l (suc i) o (p ∷ ip) n h e =
    let v = nat_to_string p ++ more_octets ip in
    rw
      (next_segment (nat_to_string o) (nat_to_string p) (more_octets ip) (byte_number o h.0)
        (byte_number p h.1.0))
      (rw (← over l (nat_to_string o) v)
        (octet_marked (l ++ (nat_to_string o ++ (b'.' ∷ []))) i p ip n h.1 e))

ip_to_string-more_octets :
    (a b c d : ℕ)
    → ip_to_string (a ∷ b ∷ c ∷ d ∷ []) ≡ nat_to_string a ++ more_octets (b ∷ c ∷ d ∷ [])
unfolding ip_to_string more_octets
ip_to_string-more_octets a b c d = rw (append-nil (nat_to_string d)) refl

-- In the text of an address behind a label without digits, what is marked for a segment is the octet
-- of that number, where it stands.
focusable_text_ip_lem :
    (l : Str) (ip : List ℕ) (i n : ℕ)
    → has_no_digit l ≡ true
    → IsAddress ip
    → get_elem? ip i ≡ some n
    → focusable_text_ip (l ++ ip_to_string ip) i ≡ some (text_before l i ip, nat_to_string n)
unfolding focusable_text_ip
focusable_text_ip_lem l (a ∷ b ∷ c ∷ d ∷ []) i n k h e = rw (ip_to_string-more_octets a b c d) (
    rw (skips_label l (nat_to_string a ++ more_octets (b ∷ c ∷ d ∷ [])) k) (
      rw (finds_number (nat_to_string a) (more_octets (b ∷ c ∷ d ∷ [])) (byte_number a h.1.0))
        (octet_marked l i a (b ∷ c ∷ d ∷ []) n h.1 e)))
focusable_text_ip_lem l [] i n k h e = absurd (let f = h.0 in omega (arith, f))
focusable_text_ip_lem l (a ∷ []) i n k h e = absurd (let f = h.0 in omega (arith, f))
focusable_text_ip_lem l (a ∷ b ∷ []) i n k h e = absurd (let f = h.0 in omega (arith, f))
focusable_text_ip_lem l (a ∷ b ∷ c ∷ []) i n k h e = absurd (let f = h.0 in omega (arith, f))
focusable_text_ip_lem l (a ∷ b ∷ c ∷ d ∷ x ∷ r) i n k h e = absurd (let f = h.0 in omega (arith, f))

pub telepresence_ip_marked :
    (ip : List ℕ) (i n : ℕ)
    → IsAddress ip
    → get_elem? ip i ≡ some n
    → focusable_text_ip (telepresence_ip_text ip) i
      ≡ some (text_before (codes "Telepresence IP: ") i ip, nat_to_string n)
unfolding has_no_digit
telepresence_ip_marked ip i n h e =
    focusable_text_ip_lem (codes "Telepresence IP: ") ip i n refl h e
