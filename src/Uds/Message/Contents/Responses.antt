-- ===== src/Uds/Message/Contents/Responses.antt =====
-- The parsers of responses read what the table says, and nothing outside their span.
use wadjet_link.Prelude.{
  ℕ, ◌+◌, ◌%◌, ◌^◌, ◌≤◌, ◌≡◌, refl, List, ◌&&◌, ◌||◌, none, some, ltb, leb, ◌==◌, if◌then◌else◌,
  length, take, drop, arith, ltb_false→le, Bool-cases, inl, inr,
}
use wadjet_link.Bytes.{IsBytes}
use wadjet_link.Decoder.Reads.{get_elem?_in, be16_in, be16_at, u8_at}
use wadjet_link.Uds.Responses.{
  read_timing, is_rapid_shut_down, read_power_down_time, read_block_length,
  parse_diagnostic_session_control_response, parse_ecu_reset_response,
  parse_security_access_response, parse_tester_present_response,
  parse_read_data_by_identifier_response, parse_write_data_by_identifier_response,
  parse_routine_control_response, parse_request_download_response, parse_transfer_data_response,
  parse_request_transfer_exit_response,
}
use wadjet_link.Uds.Message.{response_message}
use wadjet_link.Uds.Message.RoundTrip.{be_value, read_be_var_lem}
use wadjet_link.Uds.Message.Contents.{response_layout, block_width, holds_block_length}
use wadjet_link.Uds.Message.Contents.Requests.{rest_from-drop, case_layout}

module _ (bs : List ℕ) where
  read_timing_lem :
      read_timing bs
      ≡ some (
        if leb 6 (length bs) then be16_at bs 2 else 0,
        if leb 6 (length bs) then be16_at bs 4 else 0,
      )
  unfolding read_timing
  read_timing_lem = elim (Bool-cases (leb 6 (length bs))) [
    | inl e ↦
        let long : 6 ≤ length bs = ground (arith, e) in
        rw (read_timing, e, be16_in bs 2 (omega arith), be16_in bs 4 (omega arith)) refl
    | inr e ↦ rw (read_timing, e) refl
  ]

  read_power_down_time_lem :
      (kind : ℕ)
      → read_power_down_time bs kind
        ≡ some (if leb 3 (length bs) && (kind == 4 || kind == 5) then some (u8_at bs 2) else none)
  unfolding read_power_down_time
  read_power_down_time_lem kind = elim (Bool-cases (leb 3 (length bs) && is_rapid_shut_down kind)) [
    | inl e ↦
        let long : 3 ≤ length bs = ground (arith, e) in
        rw (read_power_down_time, e, get_elem?_in bs 2 (omega arith)) refl
    | inr e ↦ rw (read_power_down_time, e) refl
  ]

  read_block_length_lem :
      IsBytes bs
      → read_block_length bs (block_width bs)
        ≡ some (
            if holds_block_length bs
            then be_value 0 (take (block_width bs) (drop 2 bs)) % 2 ^ 64 % 2 ^ 32
            else 0)
  unfolding read_block_length
  read_block_length_lem b = elim (Bool-cases (holds_block_length bs)) [
    | inl e ↦
        let inside : 2 + block_width bs ≤ length bs = ground (arith, e) in
        rw (read_block_length, e, read_be_var_lem bs 2 (block_width bs) b inside) refl
    | inr e ↦ rw (read_block_length, e) refl
  ]

  session_response-layout :
      parse_diagnostic_session_control_response bs ≡ some (response_layout 0x10 bs)
  unfolding parse_diagnostic_session_control_response
  session_response-layout = elim (Bool-cases (ltb (length bs) 2)) [
    | inl e ↦ rw (parse_diagnostic_session_control_response, e) refl
    | inr e ↦
        let long = ltb_false→le _ _ e in
        rw
          (
            parse_diagnostic_session_control_response,
            e,
            get_elem?_in bs 1 (omega arith),
            read_timing_lem,
          )
          refl
  ]

  reset_response-layout : parse_ecu_reset_response bs ≡ some (response_layout 0x11 bs)
  unfolding parse_ecu_reset_response
  reset_response-layout = elim (Bool-cases (ltb (length bs) 2)) [
    | inl e ↦ rw (parse_ecu_reset_response, e) refl
    | inr e ↦
        let long = ltb_false→le _ _ e in
        rw
          (
            parse_ecu_reset_response,
            e,
            get_elem?_in bs 1 (omega arith),
            read_power_down_time_lem (u8_at bs 1),
          )
          refl
  ]

  security_response-layout : parse_security_access_response bs ≡ some (response_layout 0x27 bs)
  unfolding parse_security_access_response
  security_response-layout = elim (Bool-cases (ltb (length bs) 2)) [
    | inl e ↦ rw (parse_security_access_response, e) refl
    | inr e ↦
        let long = ltb_false→le _ _ e in
        let byte = get_elem?_in bs 1 (omega arith) in
        elim (Bool-cases (u8_at bs 1 % 2 == 1)) [
          | inl k ↦ rw (parse_security_access_response, e, byte, k, rest_from-drop 2 bs) refl
          | inr k ↦ rw (parse_security_access_response, e, byte, k) refl
        ]
  ]

  tester_response-layout : parse_tester_present_response bs ≡ some (response_layout 0x3e bs)
  unfolding parse_tester_present_response
  tester_response-layout = elim (Bool-cases (ltb (length bs) 2)) [
    | inl e ↦ rw (parse_tester_present_response, e) refl
    | inr e ↦
        let long = ltb_false→le _ _ e in
        rw (parse_tester_present_response, e, get_elem?_in bs 1 (omega arith)) refl
  ]

  read_response-layout : parse_read_data_by_identifier_response bs ≡ some (response_layout 0x22 bs)
  unfolding parse_read_data_by_identifier_response
  read_response-layout = elim (Bool-cases (ltb (length bs) 3)) [
    | inl e ↦ rw (parse_read_data_by_identifier_response, e) refl
    | inr e ↦
        let long = ltb_false→le _ _ e in
        rw
          (
            parse_read_data_by_identifier_response,
            e,
            be16_in bs 1 (omega arith),
            rest_from-drop 3 bs,
          )
          refl
  ]

  write_response-layout :
      parse_write_data_by_identifier_response bs ≡ some (response_layout 0x2e bs)
  unfolding parse_write_data_by_identifier_response
  write_response-layout = elim (Bool-cases (ltb (length bs) 3)) [
    | inl e ↦ rw (parse_write_data_by_identifier_response, e) refl
    | inr e ↦
        let long = ltb_false→le _ _ e in
        rw (parse_write_data_by_identifier_response, e, be16_in bs 1 (omega arith)) refl
  ]

  routine_response-layout : parse_routine_control_response bs ≡ some (response_layout 0x31 bs)
  unfolding parse_routine_control_response
  routine_response-layout = elim (Bool-cases (ltb (length bs) 4)) [
    | inl e ↦ rw (parse_routine_control_response, e) refl
    | inr e ↦
        let long = ltb_false→le _ _ e in
        rw
          (
            parse_routine_control_response,
            e,
            get_elem?_in bs 1 (omega arith),
            be16_in bs 2 (omega arith),
            rest_from-drop 4 bs,
          )
          refl
  ]

  download_response-layout :
      IsBytes bs → parse_request_download_response bs ≡ some (response_layout 0x34 bs)
  unfolding parse_request_download_response
  download_response-layout b = elim (Bool-cases (ltb (length bs) 2)) [
    | inl e ↦ rw (parse_request_download_response, e) refl
    | inr e ↦
        let long = ltb_false→le _ _ e in
        rw
          (
            parse_request_download_response,
            e,
            get_elem?_in bs 1 (omega arith),
            read_block_length_lem b,
          )
          refl
  ]

  transfer_response-layout : parse_transfer_data_response bs ≡ some (response_layout 0x36 bs)
  unfolding parse_transfer_data_response
  transfer_response-layout = elim (Bool-cases (ltb (length bs) 2)) [
    | inl e ↦ rw (parse_transfer_data_response, e) refl
    | inr e ↦
        let long = ltb_false→le _ _ e in
        rw (parse_transfer_data_response, e, get_elem?_in bs 1 (omega arith), rest_from-drop 2 bs)
          refl
  ]

  exit_response-layout : parse_request_transfer_exit_response bs ≡ some (response_layout 0x37 bs)
  unfolding parse_request_transfer_exit_response
  exit_response-layout = rw (parse_request_transfer_exit_response, rest_from-drop 1 bs) refl

pub response_message-layout :
    (sid : ℕ) (bs : List ℕ) → IsBytes bs → response_message sid bs ≡ some (response_layout sid bs)
unfolding response_message
response_message-layout sid bs b = case_layout _ _ _ _ _ (session_response-layout bs) (
    case_layout _ _ _ _ _ (reset_response-layout bs) (
      case_layout _ _ _ _ _ (security_response-layout bs) (
        case_layout _ _ _ _ _ (tester_response-layout bs) (
          case_layout _ _ _ _ _ (read_response-layout bs) (
            case_layout _ _ _ _ _ (write_response-layout bs) (
              case_layout _ _ _ _ _ (routine_response-layout bs) (
                case_layout _ _ _ _ _ (download_response-layout bs b) (
                  case_layout _ _ _ _ _ (transfer_response-layout bs)
                    (case_layout _ _ _ _ _ (exit_response-layout bs) refl)))))))))
