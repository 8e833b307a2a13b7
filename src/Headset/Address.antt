-- ===== src/Headset/Address.antt =====
-- VR_App/include/utils/network_utils.h: IpToString and StringToIp.
-- StringToIp returns `none` where it throws. GetLocalIPAddr, which asks the sockets, is left out.
pub mod RoundTrip
use but_telepresence.Prelude.{
  ℕ, zero, suc, ◌+◌, ◌<◌, ◌≡◌, refl, Option, none, some, List, [], ◌∷◌, ◌++◌, leb, ◌==◌,
  if◌then◌else◌,
}
use but_telepresence.Prelude.Int.{ℤ, pos, negsuc}
use but_telepresence.Prelude.Text.{Str, codes}
use but_telepresence.Prelude.Decimal.{nat_to_string, stoi}

unfoldable pub ip_to_string : List ℕ → Str
unfolding nat_to_string
ip_to_string (a ∷ b ∷ c ∷ d ∷ []) =
    nat_to_string a
    ++ (b'.' ∷ (nat_to_string b ++ (b'.' ∷ (nat_to_string c ++ (b'.' ∷ nat_to_string d)))))
ip_to_string _ = codes "0.0.0.0"

-- The segments that std::getline(iss, segment, '.') gives, with what is read of the next one.
-- At the end of the text an empty segment is not given.
segments_from : Str → Str → List Str
segments_from [] [] = []
segments_from (a ∷ acc) [] = (a ∷ acc) ∷ []
segments_from acc (c ∷ s) =
    let next = acc ∷ segments_from [] s in
    let more = segments_from (acc ++ (c ∷ [])) s in if c == b'.' then next else more

unfoldable pub segments : Str → List Str
unfolding segments_from
segments s = segments_from [] s

-- value < 0 || value > 255 throws.
octet : ℤ → Option ℕ
octet (pos v) = if leb v 255 then some v else none
octet (negsuc v) = none

-- The loop at counter `i`, which gives the octets from there on.
octets_from : ℕ → List Str → Option (List ℕ)
unfolding octet
octets_from i [] = if i == 4 then some [] else none
octets_from i (s ∷ ss) =
    let rest = octets_from (suc i) ss in
    if leb 4 i then none else elim (stoi s) [
      | none ↦ none
      | some value ↦ elim (octet value) [
        | none ↦ none
        | some v ↦ elim rest [ none ↦ none | some vs ↦ some (v ∷ vs) ]
      ]
    ]

unfoldable pub string_to_ip : Str → Option (List ℕ)
unfolding octets_from segments
string_to_ip s = octets_from 0 (segments s)

unpadded : string_to_ip (codes "10.0.31.42.") ≡ some (10 ∷ 0 ∷ 31 ∷ 42 ∷ [])
unfolding string_to_ip stoi
unpadded = refl
