-- ===== src/Uds/Message/Contents/Requests.antt =====
-- The parsers of requests read what the table says, and nothing outside their span.
use wadjet_link.Prelude.{
  ℕ, ◌≡◌, refl, List, Bool, true, false, Option, some, ltb, if◌then◌else◌, ◌%◌, length, drop, arith,
  drop_all, ltb_false→le, Bool-cases, inl, inr,
}
use wadjet_link.Bytes.{IsBytes}
use wadjet_link.Decoder.Reads.{get_elem?_in, be16_in, u8_at}
use wadjet_link.Uds.Types.{UdsServiceMessage}
use wadjet_link.Uds.Reads.{subspan_in}
use wadjet_link.Uds.Requests.{
  rest_from, is_send_key, parse_diagnostic_session_control_request, parse_ecu_reset_request,
  parse_security_access_request, parse_tester_present_request,
  parse_read_data_by_identifier_request, parse_write_data_by_identifier_request,
  parse_routine_control_request, parse_request_download_request, parse_transfer_data_request,
  parse_request_transfer_exit_request,
}
use wadjet_link.Uds.Message.{request_message}
use wadjet_link.Uds.Message.RoundTrip.{read_identifiers_lem}
use wadjet_link.Uds.Message.Services.{parse_request_download_request_lem}
use wadjet_link.Uds.Message.Contents.{request_layout}

pub rest_from-drop : (n : ℕ) (bs : List ℕ) → rest_from n bs ≡ some (drop n bs)
unfolding rest_from
rest_from-drop n bs = elim (Bool-cases (ltb n (length bs))) [
  | inl e ↦ rw (rest_from, e, subspan_in n bs (ground (arith, e))) refl
  | inr e ↦ rw (rest_from, e, drop_all n bs (ltb_false→le _ _ e)) refl
]

pub case_layout :
    (test : Bool) (x y : Option UdsServiceMessage) (m n : UdsServiceMessage)
    → x ≡ some m
    → y ≡ some n
    → (if test then x else y) ≡ some (if test then m else n)
case_layout true x y m n a b = a
case_layout false x y m n a b = b

module _ (bs : List ℕ) where
  session_request-layout :
      parse_diagnostic_session_control_request bs ≡ some (request_layout 0x10 bs)
  unfolding parse_diagnostic_session_control_request
  session_request-layout = elim (Bool-cases (ltb (length bs) 2)) [
    | inl e ↦ rw (parse_diagnostic_session_control_request, e) refl
    | inr e ↦
        let long = ltb_false→le _ _ e in
        rw (parse_diagnostic_session_control_request, e, get_elem?_in bs 1 (omega arith)) refl
  ]

  reset_request-layout : parse_ecu_reset_request bs ≡ some (request_layout 0x11 bs)
  unfolding parse_ecu_reset_request
  reset_request-layout = elim (Bool-cases (ltb (length bs) 2)) [
    | inl e ↦ rw (parse_ecu_reset_request, e) refl
    | inr e ↦
        let long = ltb_false→le _ _ e in
        rw (parse_ecu_reset_request, e, get_elem?_in bs 1 (omega arith)) refl
  ]

  security_request-layout : parse_security_access_request bs ≡ some (request_layout 0x27 bs)
  unfolding parse_security_access_request
  security_request-layout = elim (Bool-cases (ltb (length bs) 2)) [
    | inl e ↦ rw (parse_security_access_request, e) refl
    | inr e ↦
        let long = ltb_false→le _ _ e in
        let byte = get_elem?_in bs 1 (omega arith) in
        elim (Bool-cases (is_send_key (u8_at bs 1 % 128))) [
          | inl k ↦ rw (parse_security_access_request, e, byte, k, rest_from-drop 2 bs) refl
          | inr k ↦ rw (parse_security_access_request, e, byte, k) refl
        ]
  ]

  tester_request-layout : parse_tester_present_request bs ≡ some (request_layout 0x3e bs)
  unfolding parse_tester_present_request
  tester_request-layout = elim (Bool-cases (ltb (length bs) 2)) [
    | inl e ↦ rw (parse_tester_present_request, e) refl
    | inr e ↦
        let long = ltb_false→le _ _ e in
        rw (parse_tester_present_request, e, get_elem?_in bs 1 (omega arith)) refl
  ]

  read_request-layout : parse_read_data_by_identifier_request bs ≡ some (request_layout 0x22 bs)
  unfolding parse_read_data_by_identifier_request
  read_request-layout =
      let all = read_identifiers_lem (length bs) bs 1 (omega arith) in
      elim (Bool-cases (ltb (length bs) 3)) [
        | inl e ↦ rw (parse_read_data_by_identifier_request, e) refl
        | inr e ↦ rw (parse_read_data_by_identifier_request, e, all) refl
      ]

  write_request-layout : parse_write_data_by_identifier_request bs ≡ some (request_layout 0x2e bs)
  unfolding parse_write_data_by_identifier_request
  write_request-layout = elim (Bool-cases (ltb (length bs) 4)) [
    | inl e ↦ rw (parse_write_data_by_identifier_request, e) refl
    | inr e ↦
        let long = ltb_false→le _ _ e in
        rw
          (
            parse_write_data_by_identifier_request,
            e,
            be16_in bs 1 (omega arith),
            rest_from-drop 3 bs,
          )
          refl
  ]

  routine_request-layout : parse_routine_control_request bs ≡ some (request_layout 0x31 bs)
  unfolding parse_routine_control_request
  routine_request-layout = elim (Bool-cases (ltb (length bs) 4)) [
    | inl e ↦ rw (parse_routine_control_request, e) refl
    | inr e ↦
        let long = ltb_false→le _ _ e in
        rw
          (
            parse_routine_control_request,
            e,
            get_elem?_in bs 1 (omega arith),
            be16_in bs 2 (omega arith),
            rest_from-drop 4 bs,
          )
          refl
  ]

  download_request-layout :
      IsBytes bs → parse_request_download_request bs ≡ some (request_layout 0x34 bs)
  unfolding parse_request_download_request
  download_request-layout b = elim (Bool-cases (ltb (length bs) 4)) [
    | inl e ↦ rw (parse_request_download_request, e) refl
    | inr e ↦ rw (parse_request_download_request_lem bs b (ltb_false→le _ _ e), e) refl
  ]

  transfer_request-layout : parse_transfer_data_request bs ≡ some (request_layout 0x36 bs)
  unfolding parse_transfer_data_request
  transfer_request-layout = elim (Bool-cases (ltb (length bs) 2)) [
    | inl e ↦ rw (parse_transfer_data_request, e) refl
    | inr e ↦
        let long = ltb_false→le _ _ e in
        rw (parse_transfer_data_request, e, get_elem?_in bs 1 (omega arith), rest_from-drop 2 bs)
          refl
  ]

  exit_request-layout : parse_request_transfer_exit_request bs ≡ some (request_layout 0x37 bs)
  unfolding parse_request_transfer_exit_request
  exit_request-layout = rw (parse_request_transfer_exit_request, rest_from-drop 1 bs) refl

pub request_message-layout :
    (sid : ℕ) (bs : List ℕ) → IsBytes bs → request_message sid bs ≡ some (request_layout sid bs)
unfolding request_message
request_message-layout sid bs b = case_layout _ _ _ _ _ (session_request-layout bs) (
    case_layout _ _ _ _ _ (reset_request-layout bs) (
      case_layout _ _ _ _ _ (security_request-layout bs) (
        case_layout _ _ _ _ _ (tester_request-layout bs) (
          case_layout _ _ _ _ _ (read_request-layout bs) (
            case_layout _ _ _ _ _ (write_request-layout bs) (
              case_layout _ _ _ _ _ (routine_request-layout bs) (
                case_layout _ _ _ _ _ (download_request-layout bs b) (
                  case_layout _ _ _ _ _ (transfer_request-layout bs)
                    (case_layout _ _ _ _ _ (exit_request-layout bs) refl)))))))))
