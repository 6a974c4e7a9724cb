-- ===== src/Uds/Message/Total.antt =====
-- `decode` on every span of bytes.
use wadjet_link.Prelude.{
  ℕ, ◌-◌, ◌≤◌, ◌<◌, ◌≡◌, refl, sym, subst, List, [], ◌∷◌, true, false, Option, some, ltb, ◌==◌,
  length, drop, arith, ltb_false→le, ltb→lt, le→ltb, Bool-cases, inl, inr,
}
use wadjet_link.Bytes.{IsBytes}
use wadjet_link.Decoder.Reads.{get_elem?_in, u8_at}
use wadjet_link.Uds.Types.{
  MessageDirection, request, positive_response, UdsHeader, UdsServiceMessage, negative_response_sid,
}
use wadjet_link.Uds.Reads.{Fits, subspan_in}
use wadjet_link.Uds.Message.{
  message_too_short, UdsResult, ok, err, refused, parse_request, response_to_request,
  parse_positive_response, parse_negative_response, has_response_bit, dispatch_sid, decode,
  is_positive_response, is_negative_response,
}
use wadjet_link.Uds.Message.Safety.{
  HeaderFits, Describes, request_message-Yields, response_message-Yields, request_header-Fits,
  response_header-Fits,
}

abbrev pub Explains : List ℕ → Option UdsResult → Type 0
Explains bs o = (r : UdsResult) × (o ≡ some r) × Describes bs r

Fits-header :
    (bs : List ℕ) (d : MessageDirection) (sid : ℕ) (h : UdsHeader) (m : UdsServiceMessage)
    → HeaderFits bs d sid h
    → Fits sid d m
    → Fits h.service_id h.direction m
Fits-header bs d sid h m fits f =
    subst (λ s. Fits s h.direction m) (sym fits.service)
      (subst (λ x. Fits sid x m) (sym fits.direction) f)

pub response_to_request_lem :
    (sid : ℕ) → sid < 256 → has_response_bit sid ≡ true → response_to_request sid ≡ sid - 64
response_to_request_lem sid b h = ground arith

module _ (sid : ℕ) (rest : List ℕ) where
  refused-Explains :
      (sid == negative_response_sid) ≡ true
      → Explains (sid ∷ rest) (parse_negative_response (sid ∷ rest))
  unfolding parse_negative_response is_negative_response is_positive_response
  refused-Explains e = elim (Bool-cases (ltb (length (sid ∷ rest)) 3)) [
    | inl short ↦ (
      err message_too_short,
      rw (parse_negative_response, short) refl,
      rw e (refl, ltb→lt _ _ short),
    )
    | inr long ↦
        let enough : 3 ≤ length (sid ∷ rest) = ltb_false→le _ _ long in
        (
          ok (
              refused (u8_at (sid ∷ rest) 1) (u8_at (sid ∷ rest) 2) (drop 3 (sid ∷ rest))
                (sid ∷ rest)),
          rw
              (
                parse_negative_response,
                long,
                get_elem?_in (sid ∷ rest) 1 (omega arith),
                get_elem?_in (sid ∷ rest) 2 (omega arith),
                subspan_in 3 (sid ∷ rest) enough,
              )
              refl,
          rw e (
            record { direction = refl; service = refl; raw = refl; inside = enough; rest = refl },
            enough,
            (refl, refl),
          ),
        )
  ]

  request-Explains :
      (sid == negative_response_sid) ≡ false
      → has_response_bit sid ≡ false
      → Explains (sid ∷ rest) (parse_request (sid ∷ rest))
  unfolding parse_request is_negative_response is_positive_response
  request-Explains n e =
      let (h, eh, fits) = request_header-Fits sid (sid ∷ rest) (omega arith) in
      let (m, em, of_service) = request_message-Yields sid (sid ∷ rest) in
      (
        ok (record { header = h; message = m }),
        rw (parse_request, eh, em) refl,
        rw (n, e) (fits, omega arith, Fits-header (sid ∷ rest) request sid h m fits of_service),
      )

  response-Explains :
      sid < 256
      → (sid == negative_response_sid) ≡ false
      → has_response_bit sid ≡ true
      → Explains (sid ∷ rest) (parse_positive_response (sid ∷ rest))
  unfolding parse_positive_response is_negative_response is_positive_response
  response-Explains b n e =
      let (h, eh, fits) =
        response_header-Fits (response_to_request sid) (sid ∷ rest) (omega arith) in
      let (m, em, of_service) = response_message-Yields (response_to_request sid) (sid ∷ rest) in
      let same = response_to_request_lem sid b e in
      (
        ok (record { header = h; message = m }),
        rw (parse_positive_response, eh, em) refl,
        rw (n, e)
            (
              subst (λ s. HeaderFits (sid ∷ rest) positive_response s h) same fits,
              omega arith,
              Fits-header (sid ∷ rest) positive_response (response_to_request sid) h m fits
                  of_service,
            ),
      )

-- On a span of bytes the decoder reads nothing outside it and always answers. The answer is the
-- error that the message is too short exactly when the span has fewer bytes than its first byte
-- asks for: three for 0x7F, else one. Otherwise the header has the direction that the first byte
-- tells, the service (with 0x40 taken off a response, and the second byte of a refusal), the whole
-- span as raw data and what lies behind the header as service data, and the message is unparsed or
-- one of this service and direction.
pub decode-Explains : (bs : List ℕ) → IsBytes bs → Explains bs (decode bs)
unfolding decode is_negative_response is_positive_response
decode-Explains [] h = (err message_too_short, refl, (refl, omega arith))
decode-Explains (sid ∷ rest) (b, h) =
    let one : ltb (length (sid ∷ rest)) 1 ≡ false = le→ltb _ _ (omega arith) in
    elim (Bool-cases (sid == negative_response_sid)) [
      | inl e ↦ rw (decode, one, dispatch_sid, e) (refused-Explains sid rest e)
      | inr n ↦ elim (Bool-cases (has_response_bit sid)) [
        | inl e ↦ rw (decode, one, dispatch_sid, n, e) (response-Explains sid rest b n e)
        | inr e ↦ rw (decode, one, dispatch_sid, n, e) (request-Explains sid rest n e)
      ]
    ]
