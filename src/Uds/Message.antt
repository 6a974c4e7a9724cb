-- ===== src/Uds/Message.antt =====
-- `UdsDecoder::decode` and the tests on raw bytes (uds.hpp). The texts of errors are left out. The
-- result is `none` where a byte outside the span is read.
pub mod Safety
pub mod Total
pub mod Services
pub mod RoundTrip
pub mod Contents
use wadjet_link.Prelude.{
  ℕ, ◌+◌, ◌/◌, ◌%◌, List, [], ◌∷◌, Bool, false, not, ◌&&◌, Option, none, some, ltb, leb, ◌==◌,
  if◌then◌else◌, length, ◌-◌,
}
use wadjet_link.Bytes.{get_elem?, ◌>>=◌}
use wadjet_link.Uds.ServiceId
use wadjet_link.Uds.ServiceId.{one_of, service_has_sub_function}
use wadjet_link.Uds.Types.{
  negative_response_sid, response_sid_offset, extract_sub_function,
  extract_suppress_positive_response, subspan, MessageDirection, request, positive_response,
  negative_response, UdsHeader, UdsServiceMessage, monostate, negative_response_message,
  UdsDecodeResult,
}
use wadjet_link.Uds.Requests.{
  parse_diagnostic_session_control_request, parse_ecu_reset_request, parse_security_access_request,
  parse_tester_present_request, parse_read_data_by_identifier_request,
  parse_write_data_by_identifier_request, parse_routine_control_request,
  parse_request_download_request, parse_transfer_data_request, parse_request_transfer_exit_request,
}
use wadjet_link.Uds.Responses.{
  parse_diagnostic_session_control_response, parse_ecu_reset_response,
  parse_security_access_response, parse_tester_present_response,
  parse_read_data_by_identifier_response, parse_write_data_by_identifier_response,
  parse_routine_control_response, parse_request_download_response, parse_transfer_data_response,
  parse_request_transfer_exit_response,
}

-- `UdsDecodeError::Code`
pub data UdsDecodeErrorCode : Type 0 where
  message_too_short invalid_service_id invalid_sub_function : UdsDecodeErrorCode
  invalid_message_length malformed_data : UdsDecodeErrorCode

pub data UdsResult : Type 0 where
  ok : UdsDecodeResult → UdsResult
  err : UdsDecodeErrorCode → UdsResult

unfoldable pub request_message : ℕ → List ℕ → Option UdsServiceMessage
request_message sid bs =
    if sid == ServiceId.diagnostic_session_control
    then parse_diagnostic_session_control_request bs
    else if sid == ServiceId.ecu_reset
    then parse_ecu_reset_request bs
    else if sid == ServiceId.security_access
    then parse_security_access_request bs
    else if sid == ServiceId.tester_present
    then parse_tester_present_request bs
    else if sid == ServiceId.read_data_by_identifier
    then parse_read_data_by_identifier_request bs
    else if sid == ServiceId.write_data_by_identifier
    then parse_write_data_by_identifier_request bs
    else if sid == ServiceId.routine_control
    then parse_routine_control_request bs
    else if sid == ServiceId.request_download
    then parse_request_download_request bs
    else if sid == ServiceId.transfer_data
    then parse_transfer_data_request bs
    else if sid == ServiceId.request_transfer_exit
    then parse_request_transfer_exit_request bs
    else some monostate

unfoldable pub response_message : ℕ → List ℕ → Option UdsServiceMessage
response_message sid bs =
    if sid == ServiceId.diagnostic_session_control
    then parse_diagnostic_session_control_response bs
    else if sid == ServiceId.ecu_reset
    then parse_ecu_reset_response bs
    else if sid == ServiceId.security_access
    then parse_security_access_response bs
    else if sid == ServiceId.tester_present
    then parse_tester_present_response bs
    else if sid == ServiceId.read_data_by_identifier
    then parse_read_data_by_identifier_response bs
    else if sid == ServiceId.write_data_by_identifier
    then parse_write_data_by_identifier_response bs
    else if sid == ServiceId.routine_control
    then parse_routine_control_response bs
    else if sid == ServiceId.request_download
    then parse_request_download_response bs
    else if sid == ServiceId.transfer_data
    then parse_transfer_data_response bs
    else if sid == ServiceId.request_transfer_exit
    then parse_request_transfer_exit_response bs
    else some monostate

abbrev pub has_sub_function : ℕ → List ℕ → Bool
has_sub_function sid bs = service_has_sub_function sid && leb 2 (length bs)

-- The header of a request or a positive response, without the codes of a refusal.
abbrev pub plain_header : MessageDirection → ℕ → List ℕ → Option ℕ → Bool → List ℕ → UdsHeader
plain_header direction sid bs sub_function suppress service_data = record {
  service_id = sid;
  direction = direction;
  sub_function = sub_function;
  suppress_positive_response = suppress;
  rejected_service_id = none;
  negative_response_code = none;
  service_data = service_data;
  raw_data = bs;
}

unfoldable pub request_header : ℕ → List ℕ → Option UdsHeader
request_header sid bs =
    if has_sub_function sid bs
    then (do
      sub_byte ← get_elem? bs 1
      rest ← subspan 2 bs
      some (
          plain_header request sid bs (some (extract_sub_function sub_byte))
            (extract_suppress_positive_response sub_byte) rest))
    else (subspan 1 bs >>= λ rest. some (plain_header request sid bs none false rest))

-- A response does not take over the bit that suppresses it.
unfoldable pub response_header : ℕ → List ℕ → Option UdsHeader
response_header sid bs =
    if has_sub_function sid bs
    then (do
      sub_byte ← get_elem? bs 1
      rest ← subspan 2 bs
      some
          (plain_header positive_response sid bs (some (extract_sub_function sub_byte)) false rest))
    else (subspan 1 bs >>= λ rest. some (plain_header positive_response sid bs none false rest))

unfoldable pub parse_request : List ℕ → Option UdsResult
parse_request bs = do
  sid ← get_elem? bs 0
  header ← request_header sid bs
  message ← request_message sid bs
  some (ok (record { header = header; message = message }))

-- `static_cast<ServiceID>(response_sid - RESPONSE_SID_OFFSET)`
abbrev pub response_to_request : ℕ → ℕ
response_to_request sid = (sid + 256 - response_sid_offset) % 256

unfoldable pub parse_positive_response : List ℕ → Option UdsResult
parse_positive_response bs = do
  response_sid ← get_elem? bs 0
  header ← response_header (response_to_request response_sid) bs
  message ← response_message (response_to_request response_sid) bs
  some (ok (record { header = header; message = message }))

abbrev pub refused : ℕ → ℕ → List ℕ → List ℕ → UdsDecodeResult
refused sid nrc service_data bs = record {
  header = record {
    service_id = sid;
    direction = negative_response;
    sub_function = none;
    suppress_positive_response = false;
    rejected_service_id = some sid;
    negative_response_code = some nrc;
    service_data = service_data;
    raw_data = bs;
  };
  message =
      negative_response_message
        (record { rejected_service_id = sid; negative_response_code = nrc });
}

unfoldable pub parse_negative_response : List ℕ → Option UdsResult
parse_negative_response bs = if ltb (length bs) 3 then some (err message_too_short) else do
  rejected_sid ← get_elem? bs 1
  nrc ← get_elem? bs 2
  service_data ← subspan 3 bs
  some (ok (refused rejected_sid nrc service_data bs))

-- `(sid & 0x40) != 0`
abbrev pub has_response_bit : ℕ → Bool
has_response_bit sid = sid / 64 % 2 == 1

unfoldable pub dispatch_sid : ℕ → List ℕ → Option UdsResult
dispatch_sid sid bs =
    if sid == negative_response_sid
    then parse_negative_response bs
    else if has_response_bit sid
    then parse_positive_response bs
    else parse_request bs

unfoldable pub decode : List ℕ → Option UdsResult
unfolding dispatch_sid
decode bs =
    if ltb (length bs) 1
    then some (err message_too_short)
    else (get_elem? bs 0 >>= λ sid. dispatch_sid sid bs)

-- The static tests on raw bytes.
abbrev pub first_byte : List ℕ → (ℕ → Bool) → Bool
first_byte [] test = false
first_byte (sid ∷ bs) test = test sid

unfoldable pub is_request : List ℕ → Bool
is_request bs =
    first_byte bs (λ sid. not (sid == negative_response_sid) && not (has_response_bit sid))

unfoldable pub is_positive_response : List ℕ → Bool
is_positive_response bs =
    first_byte bs (λ sid. not (sid == negative_response_sid) && has_response_bit sid)

unfoldable pub is_negative_response : List ℕ → Bool
is_negative_response bs = first_byte bs (λ sid. sid == negative_response_sid)

-- `sid & ~0x40`
abbrev pub base_sid : ℕ → ℕ
base_sid sid = if has_response_bit sid then sid - 64 else sid

unfoldable pub looks_like_uds : List ℕ → Bool
looks_like_uds bs = first_byte bs (λ sid.
    if sid == negative_response_sid
    then leb 3 (length bs)
    else one_of ServiceId.known (base_sid sid))
