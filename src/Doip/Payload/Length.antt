-- ===== src/Doip/Payload/Length.antt =====
-- The payload parsers of the DoIP decoder on any bytes.
use wadjet_link.Prelude.{
  ℕ, ◌+◌, ◌≤◌, ◌<◌, ◌≡◌, refl, List, Option, none, some, length, drop, arith, le→leb, le→ltb,
  lt→ltb, gt→leb, dec_lt, length-drop,
}
use wadjet_link.Decoder.{Decoded, ok}
use wadjet_link.Decoder.Reads.{u8_at, be32_at, get_elem?_in, be16_in, be32_in, memcpy_in}
use wadjet_link.Doip.Payload.{
  optional_be32, optional_status, parse_routing_activation_request,
  parse_routing_activation_response, parse_diagnostic_message,
  parse_vehicle_identification_response, parse_entity_status, parse_generic_nack,
  parse_alive_check_response,
}

-- The parser takes every span of so many bytes, and no shorter one.
abbrev pub TakesFrom : {A : Type 0} → ℕ → (List ℕ → Decoded (Option A)) → Type 0
TakesFrom {A} n parse =
    (p : List ℕ)
    → (n ≤ length p → (a : A) × (parse p ≡ ok (some a))) × (length p < n → parse p ≡ ok none)

optional_be32_total :
    (p : List ℕ) (size o : ℕ) → o + 4 ≤ size → (r : Option ℕ) × (optional_be32 p size o ≡ ok r)
unfolding optional_be32
optional_be32_total p size o h = elim (dec_lt (length p) size) [
  | yes l ↦ (none, rw (gt→leb size (length p) l) refl)
  | no l ↦ (
    some (be32_at p o),
    rw (le→leb size (length p) (omega arith), be32_in p o (omega arith)) refl,
  )
]

pub parse_routing_activation_request-TakesFrom : TakesFrom 7 parse_routing_activation_request
unfolding parse_routing_activation_request
parse_routing_activation_request-TakesFrom p = (
  λ h.
      let (r, e) = optional_be32_total p 11 7 (omega arith) in
      rw
        (
          le→ltb (length p) 7 h,
          be16_in p 0 (omega arith),
          get_elem?_in p 2 (omega arith),
          be32_in p 3 (omega arith),
          e,
        )
        (_, refl),
  λ h. rw (lt→ltb (length p) 7 h) refl,
)

pub parse_routing_activation_response-TakesFrom : TakesFrom 9 parse_routing_activation_response
unfolding parse_routing_activation_response
parse_routing_activation_response-TakesFrom p = (
  λ h.
      let (r, e) = optional_be32_total p 13 9 (omega arith) in
      rw
        (
          le→ltb (length p) 9 h,
          be16_in p 0 (omega arith),
          be16_in p 2 (omega arith),
          get_elem?_in p 4 (omega arith),
          be32_in p 5 (omega arith),
          e,
        )
        (_, refl),
  λ h. rw (lt→ltb (length p) 9 h) refl,
)

pub parse_diagnostic_message-TakesFrom : TakesFrom 4 parse_diagnostic_message
unfolding parse_diagnostic_message
parse_diagnostic_message-TakesFrom p = (
  λ h. rw (le→ltb (length p) 4 h, be16_in p 0 (omega arith), be16_in p 2 (omega arith)) (_, refl),
  λ h. rw (lt→ltb (length p) 4 h) refl,
)

optional_status_total : (p : List ℕ) → (n : ℕ) × (optional_status p ≡ ok n)
unfolding optional_status
optional_status_total p = elim (dec_lt (length p) 33) [
  | yes l ↦ (0, rw (gt→leb 33 (length p) l) refl)
  | no l ↦
      (u8_at p 32, rw (le→leb 33 (length p) (omega arith), get_elem?_in p 32 (omega arith)) refl)
]

pub parse_vehicle_identification_response-TakesFrom :
    TakesFrom 32 parse_vehicle_identification_response
unfolding parse_vehicle_identification_response
parse_vehicle_identification_response-TakesFrom p = (
  λ h.
      let (n, e) = optional_status_total p in
      rw
        (
          le→ltb (length p) 32 h,
          memcpy_in p 17 (omega arith),
          be16_in p 17 (omega arith),
          memcpy_in (drop 19 p) 6 (omega (arith, length-drop 19 p)),
          memcpy_in (drop 25 p) 6 (omega (arith, length-drop 25 p)),
          get_elem?_in p 31 (omega arith),
          e,
        )
        (_, refl),
  λ h. rw (lt→ltb (length p) 32 h) refl,
)

pub parse_entity_status-TakesFrom : TakesFrom 5 parse_entity_status
unfolding parse_entity_status
parse_entity_status-TakesFrom p = (
  λ h.
      rw
        (
          le→ltb (length p) 5 h,
          get_elem?_in p 0 (omega arith),
          get_elem?_in p 1 (omega arith),
          get_elem?_in p 2 (omega arith),
          be16_in p 3 (omega arith),
        )
        (_, refl),
  λ h. rw (lt→ltb (length p) 5 h) refl,
)

pub parse_generic_nack-TakesFrom : TakesFrom 3 parse_generic_nack
unfolding parse_generic_nack
parse_generic_nack-TakesFrom p = (
  λ h.
      rw (le→ltb (length p) 3 h, get_elem?_in p 0 (omega arith), be16_in p 1 (omega arith))
        (_, refl),
  λ h. rw (lt→ltb (length p) 3 h) refl,
)

pub parse_alive_check_response-TakesFrom : TakesFrom 2 parse_alive_check_response
unfolding parse_alive_check_response
parse_alive_check_response-TakesFrom p = (
  λ h. rw (le→ltb (length p) 2 h, be16_in p 0 (omega arith)) (_, refl),
  λ h. rw (lt→ltb (length p) 2 h) refl,
)
