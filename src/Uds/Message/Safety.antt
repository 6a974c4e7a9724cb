-- ===== src/Uds/Message/Safety.antt =====
-- The decoder on any span: it reads nothing outside it, and its header and message agree with the
-- bytes.
use wadjet_link.Prelude.{
  ℕ, ◌-◌, ◌≤◌, ◌<◌, ◌≡◌, refl, sym, subst, List, false, Option, none, some, ◌==◌, if◌then◌else◌,
  length, drop, arith, Bool-cases, inl, inr, ==_iff,
}
use wadjet_link.Decoder.Reads.{get_elem?_in, u8_at}
use wadjet_link.Uds.ServiceId
use wadjet_link.Uds.ServiceId.{service_has_sub_function}
use wadjet_link.Uds.Types.{
  MessageDirection, request, positive_response, negative_response, extract_sub_function,
  extract_suppress_positive_response, UdsHeader, UdsServiceMessage, monostate, header_size,
}
use wadjet_link.Uds.Reads.{Fits, Yields, subspan_in}
use wadjet_link.Uds.Requests.Yields.{
  parse_diagnostic_session_control_request-Yields, parse_ecu_reset_request-Yields,
  parse_security_access_request-Yields, parse_tester_present_request-Yields,
  parse_read_data_by_identifier_request-Yields, parse_write_data_by_identifier_request-Yields,
  parse_routine_control_request-Yields, parse_request_download_request-Yields,
  parse_transfer_data_request-Yields, parse_request_transfer_exit_request-Yields,
}
use wadjet_link.Uds.Responses.Yields.{
  parse_diagnostic_session_control_response-Yields, parse_ecu_reset_response-Yields,
  parse_security_access_response-Yields, parse_tester_present_response-Yields,
  parse_read_data_by_identifier_response-Yields, parse_write_data_by_identifier_response-Yields,
  parse_routine_control_response-Yields, parse_request_download_response-Yields,
  parse_transfer_data_response-Yields, parse_request_transfer_exit_response-Yields,
}
use wadjet_link.Uds.Message.{
  message_too_short, UdsResult, ok, err, request_message, response_message, plain_header,
  has_sub_function, request_header, response_header, is_positive_response, is_negative_response,
}

case_of :
    (sid k : ℕ) (d : MessageDirection) (x y : Option UdsServiceMessage)
    → Yields k d x
    → Yields sid d y
    → Yields sid d (if sid == k then x else y)
case_of sid k d x y f g = elim (Bool-cases (sid == k)) [
  | inl e ↦ rw e (subst (λ s. Yields s d x) (sym ((==_iff sid k).0 e)) f)
  | inr e ↦ rw e g
]

pub request_message-Yields : (sid : ℕ) (bs : List ℕ) → Yields sid request (request_message sid bs)
unfolding request_message
request_message-Yields sid bs =
    case_of sid ServiceId.diagnostic_session_control request _ _
      (parse_diagnostic_session_control_request-Yields bs)
      (case_of sid ServiceId.ecu_reset request _ _ (parse_ecu_reset_request-Yields bs) (
        case_of sid ServiceId.security_access request _ _ (parse_security_access_request-Yields bs)
          (case_of sid ServiceId.tester_present request _ _ (parse_tester_present_request-Yields bs)
            (case_of sid ServiceId.read_data_by_identifier request _ _
              (parse_read_data_by_identifier_request-Yields bs)
              (case_of sid ServiceId.write_data_by_identifier request _ _
                (parse_write_data_by_identifier_request-Yields bs)
                (case_of sid ServiceId.routine_control request _ _
                  (parse_routine_control_request-Yields bs)
                  (case_of sid ServiceId.request_download request _ _
                    (parse_request_download_request-Yields bs)
                    (case_of sid ServiceId.transfer_data request _ _
                      (parse_transfer_data_request-Yields bs)
                      (case_of sid ServiceId.request_transfer_exit request _ _
                        (parse_request_transfer_exit_request-Yields bs)
                        ((monostate, refl, tt)))))))))))

pub response_message-Yields :
    (sid : ℕ) (bs : List ℕ) → Yields sid positive_response (response_message sid bs)
unfolding response_message
response_message-Yields sid bs =
    case_of sid ServiceId.diagnostic_session_control positive_response _ _
      (parse_diagnostic_session_control_response-Yields bs)
      (case_of sid ServiceId.ecu_reset positive_response _ _ (parse_ecu_reset_response-Yields bs) (
        case_of sid ServiceId.security_access positive_response _ _
          (parse_security_access_response-Yields bs)
          (case_of sid ServiceId.tester_present positive_response _ _
            (parse_tester_present_response-Yields bs)
            (case_of sid ServiceId.read_data_by_identifier positive_response _ _
              (parse_read_data_by_identifier_response-Yields bs)
              (case_of sid ServiceId.write_data_by_identifier positive_response _ _
                (parse_write_data_by_identifier_response-Yields bs)
                (case_of sid ServiceId.routine_control positive_response _ _
                  (parse_routine_control_response-Yields bs)
                  (case_of sid ServiceId.request_download positive_response _ _
                    (parse_request_download_response-Yields bs)
                    (case_of sid ServiceId.transfer_data positive_response _ _
                      (parse_transfer_data_response-Yields bs)
                      (case_of sid ServiceId.request_transfer_exit positive_response _ _
                        (parse_request_transfer_exit_response-Yields bs)
                        ((monostate, refl, tt)))))))))))

-- What the header says of the span.
pub record HeaderFits (bs : List ℕ) (d : MessageDirection) (sid : ℕ) (h : UdsHeader) : Type 0 where
  pub direction : h.direction ≡ d
  pub service : h.service_id ≡ sid
  pub raw : h.raw_data ≡ bs
  pub inside : header_size h ≤ length bs
  pub rest : h.service_data ≡ drop (header_size h) bs

module _ (sid : ℕ) (bs : List ℕ) where
  pub request_header-Fits :
      1 ≤ length bs
      → (h : UdsHeader) × (request_header sid bs ≡ some h) × HeaderFits bs request sid h
  unfolding request_header
  request_header-Fits h = elim (Bool-cases (has_sub_function sid bs)) [
    | inl e ↦
        let long : 2 ≤ length bs = ground (arith, e) in
        let header =
          plain_header request sid bs (some (extract_sub_function (u8_at bs 1)))
            (extract_suppress_positive_response (u8_at bs 1)) (drop 2 bs) in
        (
          header,
          rw (request_header, e, get_elem?_in bs 1 long, subspan_in 2 bs long) refl,
          record { direction = refl; service = refl; raw = refl; inside = long; rest = refl },
        )
    | inr e ↦ (
      plain_header request sid bs none false (drop 1 bs),
      rw (request_header, e, subspan_in 1 bs h) refl,
      record { direction = refl; service = refl; raw = refl; inside = h; rest = refl },
    )
  ]

  pub response_header-Fits :
      1 ≤ length bs
      → (h : UdsHeader) × (response_header sid bs ≡ some h) × HeaderFits bs positive_response sid h
  unfolding response_header
  response_header-Fits h = elim (Bool-cases (has_sub_function sid bs)) [
    | inl e ↦
        let long : 2 ≤ length bs = ground (arith, e) in
        let header =
          plain_header positive_response sid bs (some (extract_sub_function (u8_at bs 1))) false
            (drop 2 bs) in
        (
          header,
          rw (response_header, e, get_elem?_in bs 1 long, subspan_in 2 bs long) refl,
          record { direction = refl; service = refl; raw = refl; inside = long; rest = refl },
        )
    | inr e ↦ (
      plain_header positive_response sid bs none false (drop 1 bs),
      rw (response_header, e, subspan_in 1 bs h) refl,
      record { direction = refl; service = refl; raw = refl; inside = h; rest = refl },
    )
  ]

-- The direction, the service and the least length that the bytes themselves tell.
abbrev pub direction_of : List ℕ → MessageDirection
direction_of bs =
    if is_negative_response bs
    then negative_response
    else if is_positive_response bs
    then positive_response
    else request

abbrev pub service_of : MessageDirection → List ℕ → ℕ
service_of request bs = u8_at bs 0
service_of positive_response bs = u8_at bs 0 - 64
service_of negative_response bs = u8_at bs 1

abbrev pub least_length : MessageDirection → ℕ
least_length request = 1
least_length positive_response = 1
least_length negative_response = 3

abbrev pub Describes : List ℕ → UdsResult → Type 0
Describes bs (err e) = (e ≡ message_too_short) × (length bs < least_length (direction_of bs))
Describes bs (ok r) =
    HeaderFits bs (direction_of bs) (service_of (direction_of bs) bs) r.header
    × (least_length (direction_of bs) ≤ length bs)
    × Fits r.header.service_id r.header.direction r.message
