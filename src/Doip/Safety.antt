-- ===== src/Doip/Safety.antt =====
-- The DoIP decoder on any buffer, and what the payload parsers make of a message that it accepts.
use wadjet_link.Prelude.{
  ℕ, ◌+◌, ◌-◌, ◌≤◌, ◌<◌, ◌≡◌, ◌≢◌, refl, sym, ap, subst, List, Option, some, length, drop, arith,
  Bool-cases, inl, inr, le→leb, le→ltb, lt→ltb, gt→leb, dec_lt, length-drop,
}
use wadjet_link.Decoder.{
  Decoded, DecodeErrorCode, ok, err, fault, buffer_too_small, invalid_version, invalid_length,
  DecodeContext, sub_context,
}
use wadjet_link.Decoder.Reads.{u8_at, be16_at, be32_at, data_at_in, be16_in}
use wadjet_link.Doip.Header.{
  DoipHeader, DecoderOptions, header_size, min_payload_length, version_refused, decode_doip,
}
use wadjet_link.Doip.Payload.{
  DiagnosticMessagePayload, parse_routing_activation_request, parse_routing_activation_response,
  parse_diagnostic_message, parse_vehicle_identification_response, parse_entity_status,
  parse_generic_nack, parse_alive_check_response,
}
use wadjet_link.Doip.Payload.Length.{
  parse_routing_activation_request-TakesFrom, parse_routing_activation_response-TakesFrom,
  parse_diagnostic_message-TakesFrom, parse_vehicle_identification_response-TakesFrom,
  parse_entity_status-TakesFrom, parse_generic_nack-TakesFrom, parse_alive_check_response-TakesFrom,
}

-- What an accepted header says of its buffer.
pub record Fits (c : DecodeContext) (h : DoipHeader) (next : DecodeContext) : Type 0 where
  pub payload_type : h.payload_type ≡ be16_at c.bytes 2
  pub payload_length : h.payload_length ≡ be32_at c.bytes 4
  pub inside : header_size + h.payload_length ≤ length c.bytes
  pub long_enough : min_payload_length h.payload_type ≤ h.payload_length
  pub rest : next.bytes ≡ drop header_size c.bytes

abbrev pub IsSafe : DecodeContext → Decoded (DoipHeader × DecodeContext) → Type 0
IsSafe c d =
    (d ≢ fault) × ((h : DoipHeader) (next : DecodeContext) → d ≡ ok (h, next) → Fits c h next)

err-IsSafe : (c : DecodeContext) (e : DecodeErrorCode) → IsSafe c (err e)
err-IsSafe c e = (λ q. cc, λ h next q. cc)

abbrev header_at : List ℕ → DoipHeader
header_at bs = record {
  protocol_version = u8_at bs 0;
  inverse_protocol_version = u8_at bs 1;
  payload_type = be16_at bs 2;
  payload_length = be32_at bs 4;
}

sub_context-drop :
    (n : ℕ) (c : DecodeContext) → n ≤ length c.bytes → (sub_context n c).bytes ≡ drop n c.bytes
unfolding sub_context
sub_context-drop n c h = rw (le→leb n (length c.bytes) h) refl

ok-IsSafe :
    (c : DecodeContext)
    → header_size + be32_at c.bytes 4 ≤ length c.bytes
    → min_payload_length (be16_at c.bytes 2) ≤ be32_at c.bytes 4
    → IsSafe c (ok (header_at c.bytes, sub_context header_size c))
ok-IsSafe c i l =
    let fits : Fits c (header_at c.bytes) (sub_context header_size c) = record {
      payload_type = refl;
      payload_length = refl;
      inside = i;
      long_enough = l;
      rest = sub_context-drop header_size c (omega arith);
    } in
    (λ q. cc, λ h next q. subst (λ (p : DoipHeader × DecodeContext). Fits c p.0 p.1) (cc q) fits)

pub decode_doip-IsSafe : (opts : DecoderOptions) (c : DecodeContext) → IsSafe c (decode_doip opts c)
unfolding decode_doip
decode_doip-IsSafe opts c = elim (dec_lt (length c.bytes) 8) [
  | yes p ↦ rw (gt→leb 8 (length c.bytes) p) (err-IsSafe c buffer_too_small)
  | no p ↦
      let n = be32_at c.bytes 4 in
      let least = min_payload_length (be16_at c.bytes 2) in
      rw
        (
          le→leb 8 (length c.bytes) (omega arith),
          data_at_in c 0 (omega arith),
          data_at_in c 1 (omega arith),
          data_at_in c 2 (omega arith),
          data_at_in c 3 (omega arith),
          data_at_in c 4 (omega arith),
          data_at_in c 5 (omega arith),
          data_at_in c 6 (omega arith),
          data_at_in c 7 (omega arith),
        )
        (elim (Bool-cases (version_refused opts (u8_at c.bytes 0) (u8_at c.bytes 1))) [
          | inl v ↦ rw v (err-IsSafe c invalid_version)
          | inr v ↦ rw v (elim (dec_lt (length c.bytes) (8 + n)) [
            | yes long ↦ rw (gt→leb (8 + n) (length c.bytes) long) (err-IsSafe c buffer_too_small)
            | no fits ↦ rw (le→leb (8 + n) (length c.bytes) (omega arith)) (elim (dec_lt n least) [
              | yes short ↦ rw (lt→ltb n least short) (err-IsSafe c invalid_length)
              | no enough ↦
                  rw (le→ltb n least (omega arith)) (ok-IsSafe c (omega arith) (omega arith))
            ])
          ])
        ])
]

abbrev pub Parses : {A : Type 0} → (List ℕ → Decoded (Option A)) → List ℕ → Type 0
Parses {A} parse p = (a : A) × (parse p ≡ ok (some a))

-- The parsers that belong to the payload types.
pub record AllParse (type : ℕ) (p : List ℕ) : Type 0 where
  pub nack : type ≡ 0x0000 → Parses parse_generic_nack p
  pub identification : type ≡ 0x0004 → Parses parse_vehicle_identification_response p
  pub activation_request : type ≡ 0x0005 → Parses parse_routing_activation_request p
  pub activation_response : type ≡ 0x0006 → Parses parse_routing_activation_response p
  pub alive_check : type ≡ 0x0008 → Parses parse_alive_check_response p
  pub entity_status : type ≡ 0x4002 → Parses parse_entity_status p
  pub diagnostic : type ≡ 0x8001 → Parses parse_diagnostic_message p

at_least :
    (n : ℕ) {c next : DecodeContext} {h : DoipHeader}
    → Fits c h next
    → min_payload_length h.payload_type ≡ n
    → n ≤ length next.bytes
at_least n {c} {next} {h} f m =
    rw f.rest (omega (arith, f.inside, f.long_enough, m, length-drop 8 c.bytes))

-- Once the decoder accepts a message, the parser of its payload type accepts the next context: the
-- lengths that the decoder checks are those that the parsers need (the power mode has one parser that
-- also checks the value, so it is not among them).
pub decode_doip-AllParse :
    (opts : DecoderOptions) (c : DecodeContext) (h : DoipHeader) (next : DecodeContext)
    → decode_doip opts c ≡ ok (h, next)
    → AllParse h.payload_type next.bytes
unfolding min_payload_length
decode_doip-AllParse opts c h next e =
    let f = (decode_doip-IsSafe opts c).1 h next e in
    let p = next.bytes in
    record {
      nack = λ t. (parse_generic_nack-TakesFrom p).0 (at_least 3 f (rw t refl));
      identification =
          λ t. (parse_vehicle_identification_response-TakesFrom p).0 (at_least 32 f (rw t refl));
      activation_request =
          λ t. (parse_routing_activation_request-TakesFrom p).0 (at_least 7 f (rw t refl));
      activation_response =
          λ t. (parse_routing_activation_response-TakesFrom p).0 (at_least 9 f (rw t refl));
      alive_check = λ t. (parse_alive_check_response-TakesFrom p).0 (at_least 2 f (rw t refl));
      entity_status = λ t. (parse_entity_status-TakesFrom p).0 (at_least 5 f (rw t refl));
      diagnostic = λ t. (parse_diagnostic_message-TakesFrom p).0 (at_least 4 f (rw t refl));
    }

user_data_lem :
    (p : List ℕ) (m : DiagnosticMessagePayload)
    → 4 < length p
    → parse_diagnostic_message p ≡ ok (some m)
    → m.user_data ≡ drop 4 p
unfolding parse_diagnostic_message
user_data_lem p m l e =
    let found : DiagnosticMessagePayload = record {
      source_address = be16_at p 0;
      target_address = be16_at p 2;
      user_data = drop 4 p;
    } in
    let q : ok (some found) ≡ ok (some m) =
      rw
        (
          le→ltb (length p) 4 (omega arith),
          lt→ltb 4 (length p) l,
          be16_in p 0 (omega arith),
          be16_in p 2 (omega arith),
        )
        at e in
    let same : found ≡ m = cc q in ap (λ (x : DiagnosticMessagePayload). x.user_data) (sym same)

-- The user data of a diagnostic message that the decoder accepts is everything that follows the two
-- addresses in the buffer, not what its length field announces: bytes behind the message, such as the
-- next message of the same segment, become part of it.
pub decode_doip_overlong :
    (opts : DecoderOptions) (c : DecodeContext) (h : DoipHeader) (next : DecodeContext)
    (m : DiagnosticMessagePayload)
    → decode_doip opts c ≡ ok (h, next)
    → h.payload_type ≡ 0x8001
    → header_size + h.payload_length < length c.bytes
    → parse_diagnostic_message next.bytes ≡ ok (some m)
    → h.payload_length - 4 < length m.user_data
unfolding min_payload_length
decode_doip_overlong opts c h next m e k l q =
    let f = (decode_doip-IsSafe opts c).1 h next e in
    let least : min_payload_length h.payload_type ≡ 4 = rw k refl in
    let enough : 4 ≤ h.payload_length = omega (arith, least, f.long_enough) in
    let long : 4 < length next.bytes = rw f.rest (omega (arith, length-drop 8 c.bytes)) in
    let u = user_data_lem next.bytes m long q in
    rw (u, f.rest) (omega (arith, length-drop 8 c.bytes, length-drop 4 (drop 8 c.bytes)))
