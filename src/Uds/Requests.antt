-- ===== src/Uds/Requests.antt =====
-- The parsers of requests, and the two format bytes of a download. Too short a span gives
-- `std::monostate`.
pub mod Yields
use wadjet_link.Prelude.{
  ℕ, zero, suc, ◌+◌, ◌/◌, ◌%◌, List, [], ◌∷◌, ◌++◌, Bool, ◌&&◌, Option, none, some, ltb, leb, ◌==◌,
  if◌then◌else◌, length,
}
use wadjet_link.Bytes.{get_elem?, read_be16, ◌>>=◌}
use wadjet_link.Uds.Types.{
  extract_sub_function, extract_suppress_positive_response, subspan, read_be_var,
  SecurityAccessRequest, DataFormatIdentifier, AddressAndLengthFormatIdentifier, UdsServiceMessage,
  monostate, diagnostic_session_control_request, ecu_reset_request, security_access_request,
  tester_present_request, read_data_by_identifier_request, write_data_by_identifier_request,
  routine_control_request, request_download_request, transfer_data_request,
  request_transfer_exit_request,
}

-- `if (data.size() > n) field = to_vector(data.subspan(n));`
unfoldable pub rest_from : ℕ → List ℕ → Option (List ℕ)
rest_from n bs = if ltb n (length bs) then subspan n bs else some []

unfoldable pub parse_diagnostic_session_control_request : List ℕ → Option UdsServiceMessage
parse_diagnostic_session_control_request bs = if ltb (length bs) 2 then some monostate else do
  sub_byte ← get_elem? bs 1
  some (
      diagnostic_session_control_request (record {
        session_type = extract_sub_function sub_byte;
        suppress_positive_response = extract_suppress_positive_response sub_byte;
      }))

unfoldable pub parse_ecu_reset_request : List ℕ → Option UdsServiceMessage
parse_ecu_reset_request bs = if ltb (length bs) 2 then some monostate else do
  sub_byte ← get_elem? bs 1
  some (
      ecu_reset_request (record {
        reset_type = extract_sub_function sub_byte;
        suppress_positive_response = extract_suppress_positive_response sub_byte;
      }))

abbrev pub is_send_key : ℕ → Bool
is_send_key access_type = access_type % 2 == 0

unfoldable pub parse_security_access_request : List ℕ → Option UdsServiceMessage
unfolding rest_from
parse_security_access_request bs = if ltb (length bs) 2 then some monostate else do
  sub_byte ← get_elem? bs 1
  security_key ← if is_send_key (extract_sub_function sub_byte) then rest_from 2 bs else some []
  some (
      security_access_request (record {
        access_type = extract_sub_function sub_byte;
        suppress_positive_response = extract_suppress_positive_response sub_byte;
        security_key = security_key;
      }))

unfoldable pub parse_tester_present_request : List ℕ → Option UdsServiceMessage
parse_tester_present_request bs = if ltb (length bs) 2 then some monostate else do
  sub_byte ← get_elem? bs 1
  some (
      tester_present_request (record {
        sub_function = extract_sub_function sub_byte;
        suppress_positive_response = extract_suppress_positive_response sub_byte;
      }))

-- `for (i = 1; i + 1 < data.size(); i += 2)`, on fuel. The fuel `length bs` is enough: `i` grows and
-- stays below it.
unfoldable pub read_identifiers : ℕ → List ℕ → ℕ → Option (List ℕ)
read_identifiers zero bs i = some []
read_identifiers (suc fuel) bs i =
    let rest = read_identifiers fuel bs (i + 2) in
    if ltb (i + 1) (length bs)
    then (read_be16 bs i >>= λ did. rest >>= λ dids. some (did ∷ dids))
    else some []

unfoldable pub parse_read_data_by_identifier_request : List ℕ → Option UdsServiceMessage
parse_read_data_by_identifier_request bs = if ltb (length bs) 3 then some monostate else do
  data_identifiers ← read_identifiers (length bs) bs 1
  some (read_data_by_identifier_request (record { data_identifiers = data_identifiers }))

unfoldable pub parse_write_data_by_identifier_request : List ℕ → Option UdsServiceMessage
parse_write_data_by_identifier_request bs = if ltb (length bs) 4 then some monostate else do
  data_identifier ← read_be16 bs 1
  data_record ← rest_from 3 bs
  some (
      write_data_by_identifier_request
        (record { data_identifier = data_identifier; data_record = data_record }))

unfoldable pub parse_routine_control_request : List ℕ → Option UdsServiceMessage
parse_routine_control_request bs = if ltb (length bs) 4 then some monostate else do
  sub_byte ← get_elem? bs 1
  routine_identifier ← read_be16 bs 2
  routine_option_record ← rest_from 4 bs
  some (
      routine_control_request (record {
        routine_control_type = extract_sub_function sub_byte;
        routine_identifier = routine_identifier;
        routine_option_record = routine_option_record;
        suppress_positive_response = extract_suppress_positive_response sub_byte;
      }))

abbrev pub data_format_from_byte : ℕ → DataFormatIdentifier
data_format_from_byte byte = record {
  compression_method = byte / 16 % 16;
  encrypting_method = byte % 16;
}

abbrev pub address_format_from_byte : ℕ → AddressAndLengthFormatIdentifier
address_format_from_byte byte = record {
  memory_size_length = byte / 16 % 16;
  memory_address_length = byte % 16;
}

-- The address and the size, 0 where the span does not hold both.
unfoldable pub read_memory : List ℕ → ℕ → ℕ → Option (ℕ × ℕ)
read_memory bs addr_len size_len =
    if leb (3 + addr_len + size_len) (length bs)
    then (do
      memory_address ← read_be_var bs 3 addr_len
      memory_size ← read_be_var bs (3 + addr_len) size_len
      some (memory_address, memory_size))
    else some (0, 0)

unfoldable pub parse_request_download_request : List ℕ → Option UdsServiceMessage
parse_request_download_request bs = if ltb (length bs) 4 then some monostate else do
  data_format ← get_elem? bs 1
  format ← get_elem? bs 2
  let lengths = address_format_from_byte format
  memory ← read_memory bs lengths.memory_address_length lengths.memory_size_length
  some (
      request_download_request (record {
        data_format = data_format_from_byte data_format;
        address_and_length_format = lengths;
        memory_address = memory.0;
        memory_size = memory.1;
      }))

unfoldable pub parse_transfer_data_request : List ℕ → Option UdsServiceMessage
parse_transfer_data_request bs = if ltb (length bs) 2 then some monostate else do
  block_sequence_counter ← get_elem? bs 1
  transfer_request_parameter_record ← rest_from 2 bs
  some (
      transfer_data_request (record {
        block_sequence_counter = block_sequence_counter;
        transfer_request_parameter_record = transfer_request_parameter_record;
      }))

unfoldable pub parse_request_transfer_exit_request : List ℕ → Option UdsServiceMessage
parse_request_transfer_exit_request bs = do
  transfer_request_parameter_record ← rest_from 1 bs
  some (
      request_transfer_exit_request
        (record { transfer_request_parameter_record = transfer_request_parameter_record }))
