-- ===== src/Headset/Address/RoundTrip.antt =====
-- Writing an address and reading it back.
use but_telepresence.Prelude.{
  ℕ, suc, ◌+◌, ◌<◌, ◌≡◌, refl, Bool, true, false, ◌&&◌, not, holds_to, holds_to_sound, Option-cases,
  inl, inr, ◌⊎◌, ap, Option, none, some, List, [], ◌∷◌, ◌++◌, ◌==◌, arith, All, length,
}
use but_telepresence.Prelude.Int.{ℤ, pos, negsuc, int_eq, int_eq_iff}
use but_telepresence.Prelude.Text.{Str}
use but_telepresence.Prelude.Decimal.{nat_to_string, stoi}
use but_telepresence.Headset.Address.{
  ip_to_string, segments_from, segments, octet, octets_from, string_to_ip,
}
use mathlib.Core.List.{append-nil, append_assoc}

has_no_dot : Str → Bool
has_no_dot [] = true
has_no_dot (c ∷ s) = not (c == b'.') && has_no_dot s

segments_from-dot :
    (acc w s : Str)
    → has_no_dot w ≡ true
    → segments_from acc (w ++ (b'.' ∷ s)) ≡ (acc ++ w) ∷ segments_from [] s
unfolding segments_from has_no_dot
segments_from-dot [] [] s h = refl
segments_from-dot (a ∷ acc) [] s h = rw (append-nil acc)
segments_from-dot [] (c ∷ w) s h = ground (arith, segments_from-dot (c ∷ []) w s)
segments_from-dot (a ∷ acc) (c ∷ w) s h =
    ground (arith, segments_from-dot (a ∷ (acc ++ (c ∷ []))) w s, append_assoc acc (c ∷ []) w)

segments_from_last :
    (a : ℕ) (acc w : Str) → has_no_dot w ≡ true → segments_from (a ∷ acc) w ≡ (a ∷ (acc ++ w)) ∷ []
unfolding segments_from has_no_dot
segments_from_last a acc [] h = rw (append-nil acc)
segments_from_last a acc (c ∷ w) h =
    ground (arith, segments_from_last a (acc ++ (c ∷ [])) w, append_assoc acc (c ∷ []) w)

-- The text of a byte has no dot, is not empty and is read as the byte.
reads_back : Str → ℕ → Bool
unfolding has_no_dot
reads_back [] n = false
reads_back (c ∷ s) n =
    has_no_dot (c ∷ s) && elim (stoi (c ∷ s)) [ none ↦ false | some v ↦ int_eq v (pos n) ]

byte_table : holds_to (λ n. reads_back (nat_to_string n) n) 256 ≡ true
unfolding holds_to reads_back nat_to_string stoi
byte_table = refl

record ReadsBack (s : Str) (n : ℕ) : Type 0 where
  dotless : has_no_dot s ≡ true
  filled : (a : ℕ) × (w : Str) × (s ≡ a ∷ w)
  number : stoi s ≡ some (pos n)

reads_back-ReadsBack : (s : Str) (n : ℕ) → reads_back s n ≡ true → ReadsBack s n
unfolding reads_back
reads_back-ReadsBack [] n h = cc
reads_back-ReadsBack (c ∷ s) n h = record {
  dotless = ground arith;
  filled = (c, s, refl);
  number = elim (Option-cases (stoi (c ∷ s))) [
    | inl e ↦ ground (arith, e)
    | inr (v, e) ↦ rw e (ap some ((int_eq_iff v (pos n)).0 (ground (arith, e))))
  ];
}

byte-ReadsBack : (n : ℕ) → n < 256 → ReadsBack (nat_to_string n) n
byte-ReadsBack n h = reads_back-ReadsBack (nat_to_string n) n (holds_to_sound _ 256 n h byte_table)

segments_last : (w : Str) (n : ℕ) → ReadsBack w n → segments_from [] w ≡ w ∷ []
unfolding segments_from has_no_dot
segments_last [] n r = ground (arith, r.filled)
segments_last (c ∷ w) n r = ground (arith, segments_from_last c [] w, r.dotless)

segments-ip_to_string :
    (a b c d : ℕ)
    → a < 256
    → b < 256
    → c < 256
    → d < 256
    → segments (ip_to_string (a ∷ b ∷ c ∷ d ∷ []))
      ≡ nat_to_string a ∷ nat_to_string b ∷ nat_to_string c ∷ nat_to_string d ∷ []
unfolding segments ip_to_string
segments-ip_to_string a b c d ha hb hc hd =
    rw (segments_from-dot [] (nat_to_string a) _ (byte-ReadsBack a ha).dotless) (
      rw (segments_from-dot [] (nat_to_string b) _ (byte-ReadsBack b hb).dotless) (
        rw (segments_from-dot [] (nat_to_string c) _ (byte-ReadsBack c hc).dotless)
          (rw (segments_last (nat_to_string d) d (byte-ReadsBack d hd)))))

octets_from-number :
    (i n : ℕ) (s : Str) (ss : List Str) (ns : List ℕ)
    → i < 4
    → n < 256
    → stoi s ≡ some (pos n)
    → octets_from (suc i) ss ≡ some ns
    → octets_from i (s ∷ ss) ≡ some (n ∷ ns)
unfolding octets_from octet
octets_from-number i n s ss ns hi hn e rest = ground arith

four_octets :
    (a b c d : ℕ)
    → a < 256
    → b < 256
    → c < 256
    → d < 256
    → string_to_ip (ip_to_string (a ∷ b ∷ c ∷ d ∷ [])) ≡ some (a ∷ b ∷ c ∷ d ∷ [])
unfolding string_to_ip
four_octets a b c d ha hb hc hd = rw (segments-ip_to_string a b c d ha hb hc hd) (
    octets_from-number 0 a _ (nat_to_string b ∷ nat_to_string c ∷ nat_to_string d ∷ []) _
      (omega arith) ha (byte-ReadsBack a ha).number
      (octets_from-number 1 b _ (nat_to_string c ∷ nat_to_string d ∷ []) _ (omega arith) hb
        (byte-ReadsBack b hb).number
        (octets_from-number 2 c _ (nat_to_string d ∷ []) _ (omega arith) hc
          (byte-ReadsBack c hc).number
          (octets_from-number 3 d _ [] _ (omega arith) hd (byte-ReadsBack d hd).number
            (unfold octets_from in refl)))))

-- Four octets, each below 256.
abbrev pub IsAddress : List ℕ → Type 0
IsAddress ip = (length ip ≡ 4) × All (λ n. n < 256) ip

-- An address of four octets, each below 256, is read back from its text.
pub string_to_ip-ip_to_string :
    (ip : List ℕ) → IsAddress ip → string_to_ip (ip_to_string ip) ≡ some ip
string_to_ip-ip_to_string (a ∷ b ∷ c ∷ d ∷ []) (l, (ha, (hb, (hc, (hd, _))))) =
    four_octets a b c d ha hb hc hd
string_to_ip-ip_to_string [] (l, h) = absurd (omega arith)
string_to_ip-ip_to_string (a ∷ []) (l, h) = absurd (omega arith)
string_to_ip-ip_to_string (a ∷ b ∷ []) (l, h) = absurd (omega arith)
string_to_ip-ip_to_string (a ∷ b ∷ c ∷ []) (l, h) = absurd (omega arith)
string_to_ip-ip_to_string (a ∷ b ∷ c ∷ d ∷ e ∷ r) (l, h) = absurd (omega arith)

-- What is read from counter `i` on completes four octets.
abbrev Completes : ℕ → Option (List ℕ) → Type 0
Completes i none = Unit {0}
Completes i (some ns) = (i + length ns ≡ 4) × All (λ n. n < 256) ns

octet_cases : (v : ℤ) → (octet v ≡ none) ⊎ ((n : ℕ) × (octet v ≡ some n) × (n < 256))
unfolding octet
octet_cases (pos v) = ground arith
octet_cases (negsuc v) = inl refl

octets_from-Completes : (i : ℕ) (ss : List Str) → Completes i (octets_from i ss)
unfolding octets_from
octets_from-Completes i [] = ground arith
octets_from-Completes i (s ∷ ss) = elim (Option-cases (stoi s)) [
  | inl e ↦ ground (arith, e)
  | inr (v, e) ↦ elim (octet_cases v) [
    | inl f ↦ ground (arith, e, f)
    | inr (n, f, h) ↦ ground (arith, e, f, h, octets_from-Completes (suc i) ss)
  ]
]

-- Whatever text is accepted, the address read has four octets, each below 256.
pub string_to_ip_sound : (s : Str) (ns : List ℕ) → string_to_ip s ≡ some ns → IsAddress ns
unfolding string_to_ip
string_to_ip_sound s ns h = ground (arith, octets_from-Completes 0 (segments s))
