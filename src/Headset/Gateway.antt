-- ===== src/Headset/Gateway.antt =====
-- The ROS messages of VR_App/src/ros_network_gateway_client.cpp and
-- VR_App/include/ros_network_gateway_client.h: parseMessage, the SchemaRegistry, ParsedMessage::get, and
-- one packet of listenForMessages. The JSON library is a parameter; a call that throws gives `none`.
-- The timestamp is the bit pattern of a double.
pub mod RoundTrip
pub mod Schemas
use but_telepresence.Prelude.{
  ℕ, zero, suc, Bool, true, false, not, ◌&&◌, Option, none, some, List, [], ◌∷◌, if◌then◌else◌, ltb,
  ◌==◌, length,
}
use but_telepresence.Prelude.Text.{Str, codes, str_eq}
use but_telepresence.Headset.Address.{segments}
use but_telepresence.Headset.Packet.Decode.{read_number}

pub record Message : Type 0 where
  pub timestamp : ℕ
  pub compressed : Bool
  pub topic : Str
  pub type_name : Str
  pub payload : Str

-- std::find of the byte 0: what is before it, and what is behind it.
unfoldable pub until_null : Str → Option (Str × Str)
until_null [] = none
until_null (c ∷ s) =
    let rest = until_null s in
    if c == 0 then some ([], s) else elim rest [ none ↦ none | some (t, u) ↦ some (c ∷ t, u) ]

-- Behind the timestamp and the flag.
unfoldable pub parse_texts : (timestamp : ℕ) → Bool → Str → Option Message
unfolding until_null
parse_texts timestamp compressed s = elim (until_null s) [
  | none ↦ none
  | some (topic, t) ↦ elim (until_null t) [
    | none ↦ none
    | some (type_name, payload) ↦ some (record {
      timestamp = timestamp;
      compressed = compressed;
      topic = topic;
      type_name = type_name;
      payload = payload;
    })
  ]
]

abbrev parse_flag : ℕ × Str → Option Message
parse_flag (timestamp, []) = none
parse_flag (timestamp, flag ∷ s) = parse_texts timestamp (not (flag == 0)) s

-- parseMessage: false is `none`. The memcpy takes the low byte first.
unfoldable pub parse_message : List ℕ → Option Message
parse_message buffer =
    let header = read_number 8 buffer in
    if ltb (length buffer) 13 then none else elim header [ none ↦ none | some h ↦ parse_flag h ]

-- What the code uses of nlohmann::json: parse, contains, at, the elements of an array, the names of
-- the array under "fields", and a change of each value of an object.
pub record JsonLibrary {ℓ} (J : Type ℓ) : Type ℓ where
  pub parse : Str → Option J
  pub contains : J → Str → Bool
  pub member : J → Str → Option J
  pub elements : J → Option (List J)
  pub field_names : J → Option (List Str)
  pub map_items : (J → J) → J → J

-- registry_, the latest entry first.
abbrev pub Registry {ℓ} : Type ℓ → Type ℓ
Registry J = List (Str × J)

pub data Handled {ℓ} (J : Type ℓ) : Type ℓ where
  bad_header is_compressed registered no_schema bad_payload : Handled J
  parsed : J → Handled J

module _ {ℓ} {J : Type ℓ} (js : JsonLibrary J) where
  unfoldable pub get_schema : Str → Registry J → Option J
  get_schema type_name [] = none
  get_schema type_name ((t, j) ∷ r) = if str_eq t type_name then some j else get_schema type_name r

  abbrev pub is_schema : J → Bool
  is_schema j =
      js.contains j (codes "fields")
      && js.contains j (codes "namespace")
      && js.contains j (codes "name")

  -- A payload that is no JSON is only logged.
  unfoldable pub register_if_schema : (type_name payload : Str) → Registry J → Bool × Registry J
  register_if_schema type_name payload r = elim (js.parse payload) [
    | none ↦ (false, r)
    | some j ↦ if is_schema j then (true, (type_name, j) ∷ r) else (false, r)
  ]

  abbrev unwrap_single : J → J
  unwrap_single j = elim (js.elements j) [
    | none ↦ j
    | some [] ↦ j
    | some (x ∷ []) ↦ x
    | some (x ∷ y ∷ xs) ↦ j
  ]

  -- A name that is missing in the payload is only logged.
  unfoldable pub build_parsed_message : (schema : J) → (payload : Str) → Option J
  build_parsed_message schema payload = elim (js.parse payload) [
    | none ↦ none
    | some j ↦ elim (js.field_names schema) [
      | none ↦ none
      | some names ↦ some (js.map_items unwrap_single j)
    ]
  ]

  abbrev pub handle_data : Message → Registry J → Handled J
  handle_data m r = elim (get_schema m.type_name r) [
    | none ↦ no_schema
    | some schema ↦ elim (build_parsed_message schema m.payload) [
      | none ↦ bad_payload
      | some j ↦ parsed j
    ]
  ]

  abbrev pub handle_payload : Message → Registry J → Handled J × Registry J
  handle_payload m r =
      let k = register_if_schema m.type_name m.payload r in
      if k.0 then (registered, k.1) else (handle_data m k.1, k.1)

  -- One packet of listenForMessages.
  unfoldable pub handle_packet : List ℕ → Registry J → Handled J × Registry J
  handle_packet buffer r = elim (parse_message buffer) [
    | none ↦ (bad_header, r)
    | some m ↦ if m.compressed then (is_compressed, r) else handle_payload m r
  ]

  -- ParsedMessage::get, before the conversion: the walk along the parts, an array giving its first.
  abbrev first_of : J → J
  first_of j = elim (js.elements j) [ none ↦ j | some [] ↦ j | some (x ∷ xs) ↦ x ]

  unfoldable pub walk : List Str → J → Option J
  walk [] j = some j
  walk (part ∷ parts) j = elim (js.member j part) [ none ↦ none | some k ↦ walk parts (first_of k) ]

  abbrev scalar : J → Option J
  scalar j = elim (js.elements j) [ none ↦ some j | some [] ↦ none | some (x ∷ xs) ↦ some x ]

  unfoldable pub get : Str → J → Option J
  get field j = elim (walk (segments field) j) [ none ↦ none | some k ↦ scalar k ]
