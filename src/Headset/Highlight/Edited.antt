-- ===== src/Headset/Highlight/Edited.antt =====
-- What is marked in the row of the robot's address, against what its two buttons change.
use but_telepresence.Prelude.{
  ℕ, zero, suc, ◌+◌, ◌%◌, ◌<◌, ◌≡◌, refl, ap, ◌∙◌, Option, none, some, List, [], ◌∷◌, ◌++◌, length,
  get_elem?, All, arith,
}
use but_telepresence.Prelude.Text.{Str, codes}
use but_telepresence.Prelude.Decimal.{nat_to_string}
use but_telepresence.Headset.Config.{StreamingConfig}
use but_telepresence.Headset.Address.RoundTrip.{IsAddress}
use but_telepresence.Headset.Settings.{Setting, increment, decrement, with_ip, click, bump}
use but_telepresence.Headset.Highlight.{focusable_text_ip, telepresence_ip_text}
use but_telepresence.Headset.Highlight.Octets.{text_before, telepresence_ip_marked}

-- The segment is marked, and shows the number behind the text.
abbrev pub Marks : (segment number : ℕ) → (before : Str) → StreamingConfig → Type 0
Marks i n before c =
    focusable_text_ip (telepresence_ip_text c.jetson_ip) i ≡ some (before, nat_to_string n)

-- A click does not throw, and leaves a configuration with a property.
abbrev pub Leaves : (StreamingConfig → Type 0) → Option StreamingConfig → Type 0
Leaves P none = ⊥
Leaves P (some c) = P c

-- The octet of a segment is changed, and the text before it stays.
record Bumps (l : Str) (i n : ℕ) (ip q : List ℕ) : Type 0 where
  same : length q ≡ length ip
  bytes : All (λ x. x < 256) q
  changed : get_elem? q i ≡ some n
  before : text_before l i q ≡ text_before l i ip

bump-Bumps :
    (l : Str) (i step n : ℕ) (ip : List ℕ)
    → All (λ x. x < 256) ip
    → get_elem? ip i ≡ some n
    → (q : List ℕ) × (bump i step ip ≡ some q) × Bumps l i ((n + step) % 256) ip q
bump-Bumps l i step n [] h e = cc
bump-Bumps l zero step n (o ∷ ip) h e = (
  (o + step) % 256 ∷ ip,
  refl,
  record {
    same = refl;
    bytes = (omega arith, h.1);
    changed = ap some (let f : o ≡ n = cc in rw f refl);
    before = refl;
  },
)
bump-Bumps l (suc i) step n (o ∷ ip) h e =
    let (q, f, u) = bump-Bumps (l ++ (nat_to_string o ++ (b'.' ∷ []))) i step n ip h.1 e in
    (
      o ∷ q,
      rw f refl,
      record {
        same = let s = u.same in omega (arith, s);
        bytes = (h.0, u.bytes);
        changed = u.changed;
        before = u.before;
      },
    )

clicked-Leaves :
    (c : StreamingConfig) (i step n : ℕ)
    → IsAddress c.jetson_ip
    → get_elem? c.jetson_ip i ≡ some n
    → Leaves
        (Marks i ((n + step) % 256) (text_before (codes "Telepresence IP: ") i c.jetson_ip))
        (with_ip c (bump i step c.jetson_ip))
clicked-Leaves c i step n h e =
    let (q, f, u) = bump-Bumps (codes "Telepresence IP: ") i step n c.jetson_ip h.1 e in
    rw f (
      telepresence_ip_marked q i ((n + step) % 256) (u.same ∙ h.0, u.bytes) u.changed
      ∙ ap (λ x. some (x, nat_to_string ((n + step) % 256))) u.before)

-- What is marked is what the buttons change: for an address of four octets, each below 256, and the
-- segment of an octet, that octet is marked, where it stands; after a click on + or on - the same
-- segment is marked at the same place, and shows one more or one less, modulo 256.
pub click-focusable_text_ip :
    (c : StreamingConfig) (i n : ℕ)
    → IsAddress c.jetson_ip
    → get_elem? c.jetson_ip i ≡ some n
    → Marks i n (text_before (codes "Telepresence IP: ") i c.jetson_ip) c
      × Leaves
          (Marks i ((n + 1) % 256) (text_before (codes "Telepresence IP: ") i c.jetson_ip))
          (click (increment (Setting.telepresence_ip i)) c)
      × Leaves
          (Marks i ((n + 255) % 256) (text_before (codes "Telepresence IP: ") i c.jetson_ip))
          (click (decrement (Setting.telepresence_ip i)) c)
unfolding click
click-focusable_text_ip c i n h e = (
  telepresence_ip_marked c.jetson_ip i n h e,
  clicked-Leaves c i 1 n h e,
  clicked-Leaves c i 255 n h e,
)
