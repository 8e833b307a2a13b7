-- ===== src/Headset/Highlight.antt =====
-- focusable_text_ip of VR_App/src/render_imgui.cpp, which marks the octet of an address that is in
-- focus, and the texts of the two addresses (BuildSettings of VR_App/src/program.cpp). A position in
-- a text is the rest of the text from there on; std::string::npos is the empty rest, since a position
-- that was found is that of a character.
pub mod Octets
pub mod Edited
use but_telepresence.Prelude.{
  ℕ, zero, suc, ◌-◌, ◌≡◌, refl, Bool, true, false, Option, none, some, List, [], ◌∷◌, ◌++◌,
  if◌then◌else◌, length, take,
}
use but_telepresence.Prelude.Text.{Str, codes}
use but_telepresence.Prelude.Decimal.{is_digit}
use but_telepresence.Headset.Address.{ip_to_string}

-- find_first_of("0123456789", ...).
unfoldable pub find_first_of : Str → Str
find_first_of [] = []
find_first_of (c ∷ s) = let rest = find_first_of s in if is_digit c then c ∷ s else rest

-- find_first_not_of("0123456789", ...).
unfoldable pub find_first_not_of : Str → Str
find_first_not_of [] = []
find_first_not_of (c ∷ s) = let rest = find_first_not_of s in if is_digit c then rest else c ∷ s

-- The loop over the segments; where `start` is npos nothing more is found.
unfoldable pub segment_start : (segment : ℕ) → (start : Str) → Str
segment_start zero start = start
segment_start (suc i) start = segment_start i (find_first_of (find_first_not_of start))

-- text.substr(0, start) and text.substr(start, end - start), where something is marked.
pub marked : (text start : Str) → Option (Str × Str)
marked text [] = none
marked text (c ∷ s) = some (
  take (length text - length (c ∷ s)) text,
  take (length (c ∷ s) - length (find_first_not_of (c ∷ s))) (c ∷ s),
)

unfoldable pub focusable_text_ip : (text : Str) → (segment : ℕ) → Option (Str × Str)
unfolding marked
focusable_text_ip text segment = marked text (segment_start segment (find_first_of text))

abbrev pub headset_ip_text : List ℕ → Str
headset_ip_text ip = codes "Headset IP: " ++ ip_to_string ip

abbrev pub telepresence_ip_text : List ℕ → Str
telepresence_ip_text ip = codes "Telepresence IP: " ++ ip_to_string ip

second_octet :
    focusable_text_ip (headset_ip_text (10 ∷ 0 ∷ 31 ∷ 42 ∷ [])) 1
    ≡ some (codes "Headset IP: 10.", codes "0")
unfolding focusable_text_ip marked segment_start find_first_of find_first_not_of ip_to_string
second_octet = refl
