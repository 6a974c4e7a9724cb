-- ===== src/Uds/Responses.antt =====
-- The parsers of positive responses, whose first byte is the service with 0x40 added.
pub mod Yields
use wadjet_link.Prelude.{
  ℕ, ◌+◌, ◌/◌, ◌%◌, ◌^◌, List, [], ◌∷◌, Bool, ◌&&◌, ◌||◌, Option, none, some, ltb, leb, ◌==◌,
  if◌then◌else◌, length,
}
use wadjet_link.Bytes.{get_elem?, read_be16, ◌>>=◌}
use wadjet_link.Uds.Types.{
  read_be_var, UdsServiceMessage, monostate, diagnostic_session_control_response,
  ecu_reset_response, security_access_response, tester_present_response,
  read_data_by_identifier_response, write_data_by_identifier_response, routine_control_response,
  request_download_response, transfer_data_response, request_transfer_exit_response,
}
use wadjet_link.Uds.Requests.{rest_from}

-- The two times, if the span holds both.
unfoldable pub read_timing : List ℕ → Option (ℕ × ℕ)
read_timing bs =
    if leb 6 (length bs)
    then (do p2 ← read_be16 bs 2; p2_star ← read_be16 bs 4; some (p2, p2_star))
    else some (0, 0)

unfoldable pub parse_diagnostic_session_control_response : List ℕ → Option UdsServiceMessage
parse_diagnostic_session_control_response bs = if ltb (length bs) 2 then some monostate else do
  session_type ← get_elem? bs 1
  times ← read_timing bs
  some (
      diagnostic_session_control_response (record {
        session_type = session_type;
        p2_server_max_ms = times.0;
        p2_star_server_max_ms = times.1;
      }))

-- `EnableRapidPowerShutDown` or `DisableRapidPowerShutDown`
abbrev pub is_rapid_shut_down : ℕ → Bool
is_rapid_shut_down reset_type = reset_type == 0x04 || reset_type == 0x05

unfoldable pub read_power_down_time : List ℕ → ℕ → Option (Option ℕ)
read_power_down_time bs reset_type =
    if leb 3 (length bs) && is_rapid_shut_down reset_type
    then (do time ← get_elem? bs 2; some (some time))
    else some none

unfoldable pub parse_ecu_reset_response : List ℕ → Option UdsServiceMessage
parse_ecu_reset_response bs = if ltb (length bs) 2 then some monostate else do
  reset_type ← get_elem? bs 1
  power_down_time ← read_power_down_time bs reset_type
  some (ecu_reset_response (record { reset_type = reset_type; power_down_time = power_down_time }))

unfoldable pub parse_security_access_response : List ℕ → Option UdsServiceMessage
parse_security_access_response bs = if ltb (length bs) 2 then some monostate else do
  access_type ← get_elem? bs 1
  security_seed ← if access_type % 2 == 1 then rest_from 2 bs else some []
  some (
      security_access_response
        (record { access_type = access_type; security_seed = security_seed }))

unfoldable pub parse_tester_present_response : List ℕ → Option UdsServiceMessage
parse_tester_present_response bs = if ltb (length bs) 2 then some monostate else do
  sub_function ← get_elem? bs 1
  some (tester_present_response (record { sub_function = sub_function }))

unfoldable pub parse_read_data_by_identifier_response : List ℕ → Option UdsServiceMessage
parse_read_data_by_identifier_response bs = if ltb (length bs) 3 then some monostate else do
  did ← read_be16 bs 1
  rest ← rest_from 3 bs
  some (
      read_data_by_identifier_response
        (record { records = record { did = did; bytes = rest } ∷ [] }))

unfoldable pub parse_write_data_by_identifier_response : List ℕ → Option UdsServiceMessage
parse_write_data_by_identifier_response bs = if ltb (length bs) 3 then some monostate else do
  data_identifier ← read_be16 bs 1
  some (write_data_by_identifier_response (record { data_identifier = data_identifier }))

unfoldable pub parse_routine_control_response : List ℕ → Option UdsServiceMessage
parse_routine_control_response bs = if ltb (length bs) 4 then some monostate else do
  routine_control_type ← get_elem? bs 1
  routine_identifier ← read_be16 bs 2
  routine_status_record ← rest_from 4 bs
  some (
      routine_control_response (record {
        routine_control_type = routine_control_type;
        routine_identifier = routine_identifier;
        routine_info = [];
        routine_status_record = routine_status_record;
      }))

-- The block length, of at most four bytes, if the span holds it.
unfoldable pub read_block_length : List ℕ → ℕ → Option ℕ
read_block_length bs num_bytes =
    if leb (2 + num_bytes) (length bs) && leb num_bytes 4
    then (do n ← read_be_var bs 2 num_bytes; some (n % 2 ^ 32))
    else some 0

unfoldable pub parse_request_download_response : List ℕ → Option UdsServiceMessage
parse_request_download_response bs = if ltb (length bs) 2 then some monostate else do
  length_format_identifier ← get_elem? bs 1
  max_number_of_block_length ← read_block_length bs (length_format_identifier / 16 % 16)
  some (
      request_download_response (record {
        length_format_identifier = length_format_identifier;
        max_number_of_block_length = max_number_of_block_length;
      }))

unfoldable pub parse_transfer_data_response : List ℕ → Option UdsServiceMessage
parse_transfer_data_response bs = if ltb (length bs) 2 then some monostate else do
  block_sequence_counter ← get_elem? bs 1
  transfer_response_parameter_record ← rest_from 2 bs
  some (
      transfer_data_response (record {
        block_sequence_counter = block_sequence_counter;
        transfer_response_parameter_record = transfer_response_parameter_record;
      }))

unfoldable pub parse_request_transfer_exit_response : List ℕ → Option UdsServiceMessage
parse_request_transfer_exit_response bs = do
  transfer_response_parameter_record ← rest_from 1 bs
  some (
      request_transfer_exit_response
        (record { transfer_response_parameter_record = transfer_response_parameter_record }))
