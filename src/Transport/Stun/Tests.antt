-- ===== src/Transport/Stun/Tests.antt =====
-- Instances of the theorems about STUN messages in src/transport/nat.rs.
use seam.Prelude.{List, ℕ, [], ◌∷◌, some, none, true, ◌≡◌, refl, arith}
use seam.Transport.Stun.{
  v4, v6, build_binding_request, parse_binding_response, parse_mapped_address, parse_attributes,
  note_attribute,
}
use seam.Transport.Stun.Attributes.{Attribute}
use seam.Transport.Stun.Response.{
  response, xor_value, parse_binding_response-address, xor_value_v6,
  parse_mapped_address-xor_value_v6,
}

abbrev txn : List ℕ
txn = 1 ∷ 2 ∷ 3 ∷ 4 ∷ 5 ∷ 6 ∷ 7 ∷ 8 ∷ 9 ∷ 10 ∷ 11 ∷ 12 ∷ []

-- A name of five bytes before the address, and MAPPED-ADDRESS after it.
abbrev software : Attribute
software = record { kind = 0x8022; value = 115 ∷ 101 ∷ 97 ∷ 109 ∷ 33 ∷ [] }

abbrev address : Attribute
address = record { kind = 0x20; value = xor_value 0xC0000201 32853 }

abbrev mapped : Attribute
mapped = record { kind = 1; value = 0 ∷ 1 ∷ 0 ∷ 80 ∷ 10 ∷ 0 ∷ 0 ∷ 1 ∷ [] }

-- A request is no response.
request_refused : parse_binding_response (build_binding_request txn) txn ≡ none
unfolding parse_binding_response build_binding_request
request_refused = refl

mapped_only : parse_binding_response (response txn (mapped ∷ [])) txn ≡ some (v4 0x0A000001 80)
unfolding parse_binding_response parse_attributes note_attribute parse_mapped_address
mapped_only = refl

parse_binding_response-address_example :
    parse_binding_response (response txn (software ∷ address ∷ mapped ∷ [])) txn
    ≡ some (v4 0xC0000201 32853)
parse_binding_response-address_example =
    parse_binding_response-address txn refl (software ∷ []) (mapped ∷ []) 0xC0000201 32853
      (omega arith) (omega arith)

parse_mapped_address-xor_value_v6_example :
    parse_mapped_address
      (xor_value_v6 txn 32 1 13 184 (0 ∷ 0 ∷ 0 ∷ 0 ∷ 0 ∷ 0 ∷ 0 ∷ 0 ∷ 0 ∷ 0 ∷ 0 ∷ 1 ∷ []) 443)
      true
      0x2112A442
    ≡ some (v6 (32 ∷ 1 ∷ 13 ∷ 184 ∷ 1 ∷ 2 ∷ 3 ∷ 4 ∷ 5 ∷ 6 ∷ 7 ∷ 8 ∷ 9 ∷ 10 ∷ 11 ∷ 13 ∷ []) 443)
parse_mapped_address-xor_value_v6_example =
    parse_mapped_address-xor_value_v6 txn 32 1 13 184
      (0 ∷ 0 ∷ 0 ∷ 0 ∷ 0 ∷ 0 ∷ 0 ∷ 0 ∷ 0 ∷ 0 ∷ 0 ∷ 1 ∷ []) 443 refl
