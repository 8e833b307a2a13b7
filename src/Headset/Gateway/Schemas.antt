-- ===== src/Headset/Gateway/Schemas.antt =====
-- The schemas that the listener of VR_App/src/ros_network_gateway_client.cpp knows after a sequence
-- of packets.
use but_telepresence.Prelude.{
  ℕ, ◌≡◌, refl, arith, false, not, ◌&&◌, Option-cases, inl, inr, Option, none, some, List, [], ◌∷◌,
  if◌then◌else◌,
}
use but_telepresence.Prelude.Text.{Str, str_eq}
use but_telepresence.Headset.Gateway.{
  Message, parse_message, JsonLibrary, Registry, Handled, no_schema, bad_payload, parsed,
  get_schema, is_schema, register_if_schema, build_parsed_message, handle_data, handle_packet,
}

module _ {ℓ} {J : Type ℓ} (js : JsonLibrary J) where
  -- The packets of the listener, the first one first.
  unfoldable pub handle_packets : List (List ℕ) → Registry J → Registry J
  handle_packets [] r = r
  handle_packets (b ∷ bs) r = handle_packets bs (handle_packet js b r).1

  -- The schema that a payload is.
  unfoldable pub schema_of : Str → Option J
  schema_of payload = elim (js.parse payload) [
    | none ↦ none
    | some j ↦ if is_schema js j then some j else none
  ]

  -- The schema for a type that a packet brings.
  unfoldable pub schema_in : Str → List ℕ → Option J
  schema_in type_name b = elim (parse_message b) [
    | none ↦ none
    | some m ↦
        if not m.compressed && str_eq m.type_name type_name then schema_of m.payload else none
  ]

  abbrev or_else : Option J → Option J → Option J
  or_else none o = o
  or_else (some j) o = some j

  -- The schema for a type in the last of the packets that brings one.
  unfoldable pub last_schema : Str → List (List ℕ) → Option J
  last_schema type_name [] = none
  last_schema type_name (b ∷ bs) = or_else (last_schema type_name bs) (schema_in type_name b)

  get_schema-register :
      (type_name t payload : Str) (r : Registry J)
      → get_schema js type_name (register_if_schema js t payload r).1
        ≡ or_else
            (if str_eq t type_name then schema_of payload else none)
            (get_schema js type_name r)
  unfolding register_if_schema schema_of get_schema
  get_schema-register type_name t payload r = ground arith

  -- A packet changes the registry by the schema that it brings.
  get_schema-handle_packet :
      (type_name : Str) (b : List ℕ) (r : Registry J)
      → get_schema js type_name (handle_packet js b r).1
        ≡ or_else (schema_in type_name b) (get_schema js type_name r)
  unfolding handle_packet schema_in
  get_schema-handle_packet type_name b r = elim (Option-cases (parse_message b)) [
    | inl e ↦ rw (e, handle_packet, schema_in) refl
    | inr (m, e) ↦
        rw (e, handle_packet, schema_in)
          (ground (arith, get_schema-register type_name m.type_name m.payload r))
  ]

  get_schema-handle_packets :
      (type_name : Str) (bs : List (List ℕ)) (r : Registry J)
      → get_schema js type_name (handle_packets bs r)
        ≡ or_else (last_schema type_name bs) (get_schema js type_name r)
  unfolding handle_packets last_schema
  get_schema-handle_packets type_name [] r = refl
  get_schema-handle_packets type_name (b ∷ bs) r = ground (
    arith,
    get_schema-handle_packets type_name bs (handle_packet js b r).1,
    get_schema-handle_packet type_name b r,
  )

  -- What a data message leads to, by the schema for its type.
  abbrev pub answer : Option J → Str → Handled J
  answer none payload = no_schema
  answer (some schema) payload = elim (build_parsed_message js schema payload) [
    | none ↦ bad_payload
    | some j ↦ parsed j
  ]

  register-none :
      (t payload : Str) (r : Registry J)
      → schema_of payload ≡ none
      → register_if_schema js t payload r ≡ (false, r)
  unfolding register_if_schema schema_of
  register-none t payload r n = ground (arith, n)

  handle_data-answer :
      (m : Message) (r : Registry J)
      → handle_data js m r ≡ answer (get_schema js m.type_name r) m.payload
  handle_data-answer m r = elim (Option-cases (get_schema js m.type_name r)) [
    | inl e ↦ rw (e, handle_data) refl
    | inr (j, e) ↦ rw (e, handle_data) refl
  ]

  get_schema-first :
      (t : Str) (bs : List (List ℕ)) → get_schema js t (handle_packets bs []) ≡ last_schema t bs
  unfolding get_schema
  get_schema-first t bs = ground (arith, get_schema-handle_packets t bs [])

  -- A message that is not compressed and is no schema itself is read by the schema for its type that
  -- came in the last packet before it which brought one, and it is refused if there was none; it
  -- leaves the registry as it was.
  pub handle_packet-handle_packets :
      (bs : List (List ℕ)) (b : List ℕ) (m : Message)
      → parse_message b ≡ some m
      → m.compressed ≡ false
      → schema_of m.payload ≡ none
      → handle_packet js b (handle_packets bs [])
        ≡ (answer (last_schema m.type_name bs) m.payload, handle_packets bs [])
  unfolding handle_packet schema_of register_if_schema
  handle_packet-handle_packets bs b m e c n =
      rw
        (
          handle_packet,
          e,
          c,
          register-none m.type_name m.payload (handle_packets bs []) n,
          handle_data-answer m (handle_packets bs []),
          get_schema-first m.type_name bs,
        )
        refl
