-- ===== src/Examples/Addresses.antt =====
-- Addresses as text (VR_App/include/utils/network_utils.h).
use but_telepresence.Prelude.{ℕ, ◌≡◌, refl, none, some, List, [], ◌∷◌}
use but_telepresence.Prelude.Text.{codes}
use but_telepresence.Prelude.Decimal.{stoi}
use but_telepresence.Headset.Address.{ip_to_string, string_to_ip}

abbrev jetson : List ℕ
jetson = 10 ∷ 0 ∷ 31 ∷ 42 ∷ []

jetson_text : ip_to_string jetson ≡ codes "10.0.31.42"
unfolding ip_to_string
jetson_text = refl

too_many : string_to_ip (codes "10.0.31.42.1") ≡ none
unfolding string_to_ip stoi
too_many = refl

too_large : string_to_ip (codes "10.0.31.256") ≡ none
unfolding string_to_ip stoi
too_large = refl

-- What stands after the digits of a segment, and a dot at the end, is not looked at.
lenient : string_to_ip (codes "10. 0.31x.42.") ≡ some jetson
unfolding string_to_ip stoi
lenient = refl
