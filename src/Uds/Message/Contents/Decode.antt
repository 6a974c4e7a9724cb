-- ===== src/Uds/Message/Contents/Decode.antt =====
-- The whole answer of `UdsDecoder::decode`, header and message, from the table.
use wadjet_link.Prelude.{
  ℕ, ◌-◌, ◌%◌, ◌/◌, ◌≤◌, ◌≡◌, refl, subst, List, [], ◌∷◌, Bool, true, false, ◌&&◌, none, some, ltb,
  leb, ◌==◌, if◌then◌else◌, length, drop, arith, le→ltb, ltb_false→le, Bool-cases, inl, inr,
}
use wadjet_link.Bytes.{IsBytes}
use wadjet_link.Decoder.Reads.{get_elem?_in, u8_at}
use wadjet_link.Uds.ServiceId.{one_of, service_has_sub_function}
use wadjet_link.Uds.Types.{
  MessageDirection, request, positive_response, negative_response, negative_response_sid, UdsHeader,
  negative_response_message,
}
use wadjet_link.Uds.Reads.{subspan_in}
use wadjet_link.Uds.Message.{
  message_too_short, UdsResult, ok, err, request_header, response_header, parse_request,
  parse_positive_response, parse_negative_response, has_response_bit, dispatch_sid, decode,
}
use wadjet_link.Uds.Message.Safety.{Describes}
use wadjet_link.Uds.Message.Total.{decode-Explains, response_to_request_lem}
use wadjet_link.Uds.Message.Contents.{request_layout, response_layout, sub_at_1, top_bit_at_1}
use wadjet_link.Uds.Message.Contents.Requests.{request_message-layout}
use wadjet_link.Uds.Message.Contents.Responses.{response_message-layout}

-- A second byte is taken for a sub-function in these services.
abbrev pub holds_sub_function : ℕ → List ℕ → Bool
holds_sub_function sid bs =
    one_of (0x10 ∷ 0x11 ∷ 0x27 ∷ 0x28 ∷ 0x3e ∷ 0x85 ∷ 0x86 ∷ 0x87 ∷ 0x19 ∷ 0x31 ∷ []) sid
    && leb 2 (length bs)

-- The header of a request, whose top bit asks for no answer, or of a response, where that bit says
-- nothing.
abbrev pub header_in : MessageDirection → Bool → ℕ → List ℕ → UdsHeader
header_in direction suppress sid bs =
    let sub = holds_sub_function sid bs in
    record {
      service_id = sid;
      direction = direction;
      sub_function = if sub then some (sub_at_1 bs) else none;
      suppress_positive_response = sub && suppress;
      rejected_service_id = none;
      negative_response_code = none;
      service_data = if sub then drop 2 bs else drop 1 bs;
      raw_data = bs;
    }

-- The service and the code of a refusal.
abbrev pub refusal_in : List ℕ → UdsResult
refusal_in bs = ok (record {
  header = record {
    service_id = u8_at bs 1;
    direction = negative_response;
    sub_function = none;
    suppress_positive_response = false;
    rejected_service_id = some (u8_at bs 1);
    negative_response_code = some (u8_at bs 2);
    service_data = drop 3 bs;
    raw_data = bs;
  };
  message =
      negative_response_message
        (record { rejected_service_id = u8_at bs 1; negative_response_code = u8_at bs 2 });
})

abbrev pub request_in : ℕ → List ℕ → UdsResult
request_in sid bs = ok (record {
  header = header_in request (top_bit_at_1 bs) sid bs;
  message = request_layout sid bs;
})

abbrev pub response_in : ℕ → List ℕ → UdsResult
response_in sid bs =
    ok (record {
      header = header_in positive_response false sid bs;
      message = response_layout sid bs;
    })

abbrev pub answer_in : List ℕ → UdsResult
answer_in bs =
    if ltb (length bs) (if u8_at bs 0 == 0x7f then 3 else 1)
    then err message_too_short
    else if u8_at bs 0 == 0x7f
    then refusal_in bs
    else if u8_at bs 0 / 64 % 2 == 1
    then response_in (u8_at bs 0 - 64) bs
    else request_in (u8_at bs 0) bs

module _ (sid : ℕ) (bs : List ℕ) (h : 1 ≤ length bs) where
  request_header_lem : request_header sid bs ≡ some (header_in request (top_bit_at_1 bs) sid bs)
  unfolding request_header service_has_sub_function
  request_header_lem = elim (Bool-cases (holds_sub_function sid bs)) [
    | inl e ↦
        let long : 2 ≤ length bs = ground (arith, e) in
        rw (request_header, e, get_elem?_in bs 1 long, subspan_in 2 bs long) refl
    | inr e ↦ rw (request_header, e, subspan_in 1 bs h) refl
  ]

  response_header_lem : response_header sid bs ≡ some (header_in positive_response false sid bs)
  unfolding response_header service_has_sub_function
  response_header_lem = elim (Bool-cases (holds_sub_function sid bs)) [
    | inl e ↦
        let long : 2 ≤ length bs = ground (arith, e) in
        rw (response_header, e, get_elem?_in bs 1 long, subspan_in 2 bs long) refl
    | inr e ↦ rw (response_header, e, subspan_in 1 bs h) refl
  ]

parse_negative_response_lem :
    (bs : List ℕ)
    → parse_negative_response bs
      ≡ some (if ltb (length bs) 3 then err message_too_short else refusal_in bs)
unfolding parse_negative_response
parse_negative_response_lem bs = elim (Bool-cases (ltb (length bs) 3)) [
  | inl e ↦ rw (parse_negative_response, e) refl
  | inr e ↦
      let long = ltb_false→le _ _ e in
      rw
        (
          parse_negative_response,
          e,
          get_elem?_in bs 1 (omega arith),
          get_elem?_in bs 2 (omega arith),
          subspan_in 3 bs long,
        )
        refl
]

module _ (sid : ℕ) (rest : List ℕ) (b : IsBytes (sid ∷ rest)) where
  parse_request_lem : parse_request (sid ∷ rest) ≡ some (request_in sid (sid ∷ rest))
  unfolding parse_request
  parse_request_lem =
      rw
        (
          parse_request,
          request_header_lem sid (sid ∷ rest) (omega arith),
          request_message-layout sid (sid ∷ rest) b,
        )
        refl

  parse_positive_response_lem :
      has_response_bit sid ≡ true
      → parse_positive_response (sid ∷ rest) ≡ some (response_in (sid - 64) (sid ∷ rest))
  unfolding parse_positive_response
  parse_positive_response_lem e =
      rw
        (
          parse_positive_response,
          response_to_request_lem sid b.0 e,
          response_header_lem (sid - 64) (sid ∷ rest) (omega arith),
          response_message-layout (sid - 64) (sid ∷ rest) b,
        )
        refl

decode_lem : (bs : List ℕ) → IsBytes bs → decode bs ≡ some (answer_in bs)
unfolding decode
decode_lem [] b = refl
decode_lem (sid ∷ rest) b =
    let one : ltb (length (sid ∷ rest)) 1 ≡ false = le→ltb _ _ (omega arith) in
    elim (Bool-cases (sid == negative_response_sid)) [
      | inl e ↦
          rw (decode, one, dispatch_sid, e, parse_negative_response_lem (sid ∷ rest))
            (elim (Bool-cases (ltb (length (sid ∷ rest)) 3)) [
              | inl s ↦ rw s refl
              | inr s ↦ rw s refl
            ])
      | inr n ↦ elim (Bool-cases (has_response_bit sid)) [
        | inl e ↦
            rw (decode, one, dispatch_sid, n, one, e, parse_positive_response_lem sid rest b e) refl
        | inr e ↦ rw (decode, one, dispatch_sid, n, one, e, parse_request_lem sid rest b) refl
      ]
    ]

-- On a span of bytes the decoder reads nothing outside it and always answers. The answer is the
-- error that the message is too short exactly when the span has fewer bytes than its first byte
-- asks for: three for 0x7F, else one. Otherwise header and message are those of the table, field by
-- field: every number stands at its fixed offset, every record is what lies behind, and the message
-- is unparsed exactly when the service is none of the ten or the span is shorter than its least
-- length. The header has the direction, the service and the data that the bytes tell, and the
-- message is unparsed or one of this service and direction.
pub decode-answer_in :
    (bs : List ℕ) → IsBytes bs → (decode bs ≡ some (answer_in bs)) × Describes bs (answer_in bs)
decode-answer_in bs b =
    let (r, e, d) = decode-Explains bs b in
    let same : r ≡ answer_in bs = cc (e, decode_lem bs b) in
    (decode_lem bs b, subst (λ x. Describes bs x) same d)
