-- ===== src/Headset/Gateway/RoundTrip.antt =====
-- A packet of the gateway, written by the layout that VR_App/src/ros_network_gateway_client.cpp
-- states, and read by parseMessage.
use but_telepresence.Prelude.{
  ℕ, zero, suc, ◌+◌, ◌^◌, ◌≤◌, ◌<◌, ◌≡◌, refl, ap, Bool, true, false, not, ◌&&◌, some, List, [],
  ◌∷◌, ◌++◌, if◌then◌else◌, ltb, ◌==◌, length, length-append, arith,
}
use but_telepresence.Prelude.Text.{Str}
use but_telepresence.Headset.Packet.{serialize_little_endian}
use but_telepresence.Headset.Packet.Decode.{read_number-serialize}
use but_telepresence.Headset.Gateway.{Message, until_null, parse_texts, parse_message}

unfoldable pub has_no_null : Str → Bool
has_no_null [] = true
has_no_null (c ∷ s) = not (c == 0) && has_no_null s

-- [timestamp (double)][compressed (uint8)][topic\0][type\0][payload]
unfoldable pub frame_message : Message → List ℕ
frame_message m =
    serialize_little_endian 8 m.timestamp
    ++ ((if m.compressed then 1 else 0) ∷ (m.topic ++ (0 ∷ (m.type_name ++ (0 ∷ m.payload)))))

until_null-append : (t u : Str) → has_no_null t ≡ true → until_null (t ++ (0 ∷ u)) ≡ some (t, u)
unfolding until_null has_no_null
until_null-append [] u h = refl
until_null-append (c ∷ t) u h = ground (arith, h, until_null-append t u)

length-serialize : (n v : ℕ) → length (serialize_little_endian n v) ≡ n
unfolding serialize_little_endian
length-serialize zero v = refl
length-serialize (suc n) v = ap (λ k. suc k) (length-serialize n _)

-- Two texts without a null, and three bytes or more in the texts and the payload.
pub record IsMessage (m : Message) : Type 0 where
  pub timestamp : m.timestamp < 2 ^ 64
  pub topic : has_no_null m.topic ≡ true
  pub type_name : has_no_null m.type_name ≡ true
  pub long_enough : 2 ≤ length m.topic + length m.type_name + length m.payload

texts_of : Message → Str
texts_of m = m.topic ++ (0 ∷ (m.type_name ++ (0 ∷ m.payload)))

texts-parsed :
    (m : Message) (flag : Bool)
    → IsMessage m
    → parse_texts m.timestamp flag (texts_of m) ≡ some (record m { compressed = flag })
unfolding parse_texts texts_of
texts-parsed m flag v =
    rw
      (
        parse_texts,
        until_null-append m.topic (m.type_name ++ (0 ∷ m.payload)) v.topic,
        until_null-append m.type_name m.payload v.type_name,
      )
      refl

length-texts_of :
    (m : Message)
    → length (texts_of m) ≡ length m.topic + (length m.type_name + (length m.payload + 2))
unfolding texts_of
length-texts_of m = omega (
  arith,
  length-append m.topic (0 ∷ (m.type_name ++ (0 ∷ m.payload))),
  length-append m.type_name (0 ∷ m.payload),
)

abbrev flag_byte : Bool → ℕ
flag_byte b = if b then 1 else 0

flag_byte_back : (b : Bool) → not (flag_byte b == 0) ≡ b
flag_byte_back true = refl
flag_byte_back false = refl

long_buffer :
    (m : Message)
    → IsMessage m
    → ltb
        (length (serialize_little_endian 8 m.timestamp ++ (flag_byte m.compressed ∷ texts_of m)))
        13
      ≡ false
long_buffer m v =
    let a =
      length-append (serialize_little_endian 8 m.timestamp) (flag_byte m.compressed ∷ texts_of m) in
    let b = length-serialize 8 m.timestamp in ground (arith, a, b, length-texts_of m, v.long_enough)

-- A message that is long enough and whose topic and type have no null in them is read back from the
-- packet that the layout gives for it.
pub parse_message-frame_message :
    (m : Message) → IsMessage m → parse_message (frame_message m) ≡ some m
unfolding parse_message frame_message texts_of
parse_message-frame_message m v =
    rw
      (
        long_buffer m v,
        read_number-serialize 8 m.timestamp (flag_byte m.compressed ∷ texts_of m) v.timestamp,
        texts-parsed m (not (flag_byte m.compressed == 0)) v,
        flag_byte_back m.compressed,
      )
      refl
