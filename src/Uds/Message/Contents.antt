-- ===== src/Uds/Message/Contents.antt =====
-- Where each part of a diagnostic message stands in its bytes, as a table of its own: numbers at
-- fixed offsets and what lies behind them, without the checks and the loops of the parsers.
pub mod Requests
pub mod Responses
pub mod Decode
use wadjet_link.Prelude.{
  ℕ, ◌+◌, ◌-◌, ◌/◌, ◌%◌, ◌^◌, List, [], ◌∷◌, Bool, ◌&&◌, ◌||◌, none, some, ltb, leb, ◌==◌,
  if◌then◌else◌, length, take, drop,
}
use wadjet_link.Decoder.Reads.{u8_at, be16_at}
use wadjet_link.Uds.Types.{
  UdsServiceMessage, monostate, diagnostic_session_control_request, ecu_reset_request,
  security_access_request, tester_present_request, read_data_by_identifier_request,
  write_data_by_identifier_request, routine_control_request, request_download_request,
  transfer_data_request, request_transfer_exit_request, diagnostic_session_control_response,
  ecu_reset_response, security_access_response, tester_present_response,
  read_data_by_identifier_response, write_data_by_identifier_response, routine_control_response,
  request_download_response, transfer_data_response, request_transfer_exit_response,
}
use wadjet_link.Uds.Message.RoundTrip.{be_value, pairs}
use wadjet_link.Uds.Message.Services.{address_in, size_in, holds_range}

-- The message, if the span has the least number of bytes that it takes.
abbrev pub at_least : ℕ → List ℕ → UdsServiceMessage → UdsServiceMessage
at_least n bs message = if ltb (length bs) n then monostate else message

-- The low seven bits of the second byte, and its top bit.
abbrev pub sub_at_1 : List ℕ → ℕ
sub_at_1 bs = u8_at bs 1 % 128

abbrev pub top_bit_at_1 : List ℕ → Bool
top_bit_at_1 bs = u8_at bs 1 / 128 % 2 == 1

abbrev pub request_layout : ℕ → List ℕ → UdsServiceMessage
request_layout sid bs =
    if sid == 0x10
    then at_least 2 bs (
        diagnostic_session_control_request
          (record { session_type = sub_at_1 bs; suppress_positive_response = top_bit_at_1 bs }))
    else if sid == 0x11
    then at_least 2 bs (
        ecu_reset_request
          (record { reset_type = sub_at_1 bs; suppress_positive_response = top_bit_at_1 bs }))
    else if sid == 0x27
    then at_least 2 bs (
        security_access_request (record {
          access_type = sub_at_1 bs;
          suppress_positive_response = top_bit_at_1 bs;
          security_key = if sub_at_1 bs % 2 == 0 then drop 2 bs else [];
        }))
    else if sid == 0x3e
    then at_least 2 bs (
        tester_present_request
          (record { sub_function = sub_at_1 bs; suppress_positive_response = top_bit_at_1 bs }))
    else if sid == 0x22
    then at_least 3 bs
        (read_data_by_identifier_request (record { data_identifiers = pairs (drop 1 bs) }))
    else if sid == 0x2e
    then at_least 4 bs (
        write_data_by_identifier_request
          (record { data_identifier = be16_at bs 1; data_record = drop 3 bs }))
    else if sid == 0x31
    then at_least 4 bs (
        routine_control_request (record {
          routine_control_type = sub_at_1 bs;
          routine_identifier = be16_at bs 2;
          routine_option_record = drop 4 bs;
          suppress_positive_response = top_bit_at_1 bs;
        }))
    else if sid == 0x34
    then at_least 4 bs (
        request_download_request (record {
          data_format = record {
            compression_method = u8_at bs 1 / 16 % 16;
            encrypting_method = u8_at bs 1 % 16;
          };
          address_and_length_format = record {
            memory_size_length = u8_at bs 2 / 16 % 16;
            memory_address_length = u8_at bs 2 % 16;
          };
          memory_address = if holds_range bs then address_in bs % 2 ^ 64 else 0;
          memory_size = if holds_range bs then size_in bs % 2 ^ 64 else 0;
        }))
    else if sid == 0x36
    then at_least 2 bs (
        transfer_data_request (record {
          block_sequence_counter = u8_at bs 1;
          transfer_request_parameter_record = drop 2 bs;
        }))
    else if sid == 0x37
    then request_transfer_exit_request (record { transfer_request_parameter_record = drop 1 bs })
    else monostate

-- The length of the field with the block length, and whether it is there and fits 32 bits.
abbrev pub block_width : List ℕ → ℕ
block_width bs = u8_at bs 1 / 16 % 16

abbrev pub holds_block_length : List ℕ → Bool
holds_block_length bs = leb (2 + block_width bs) (length bs) && leb (block_width bs) 4

abbrev pub response_layout : ℕ → List ℕ → UdsServiceMessage
response_layout sid bs =
    if sid == 0x10
    then at_least 2 bs (
        diagnostic_session_control_response (record {
          session_type = u8_at bs 1;
          p2_server_max_ms = if leb 6 (length bs) then be16_at bs 2 else 0;
          p2_star_server_max_ms = if leb 6 (length bs) then be16_at bs 4 else 0;
        }))
    else if sid == 0x11
    then at_least 2 bs (
        ecu_reset_response (record {
          reset_type = u8_at bs 1;
          power_down_time =
              if leb 3 (length bs) && (u8_at bs 1 == 4 || u8_at bs 1 == 5)
              then some (u8_at bs 2)
              else none;
        }))
    else if sid == 0x27
    then at_least 2 bs (
        security_access_response (record {
          access_type = u8_at bs 1;
          security_seed = if u8_at bs 1 % 2 == 1 then drop 2 bs else [];
        }))
    else if sid == 0x3e
    then at_least 2 bs (tester_present_response (record { sub_function = u8_at bs 1 }))
    else if sid == 0x22
    then at_least 3 bs (
        read_data_by_identifier_response
          (record { records = record { did = be16_at bs 1; bytes = drop 3 bs } ∷ [] }))
    else if sid == 0x2e
    then at_least 3 bs
        (write_data_by_identifier_response (record { data_identifier = be16_at bs 1 }))
    else if sid == 0x31
    then at_least 4 bs (
        routine_control_response (record {
          routine_control_type = u8_at bs 1;
          routine_identifier = be16_at bs 2;
          routine_info = [];
          routine_status_record = drop 4 bs;
        }))
    else if sid == 0x34
    then at_least 2 bs (
        request_download_response (record {
          length_format_identifier = u8_at bs 1;
          max_number_of_block_length =
              if holds_block_length bs
              then be_value 0 (take (block_width bs) (drop 2 bs)) % 2 ^ 64 % 2 ^ 32
              else 0;
        }))
    else if sid == 0x36
    then at_least 2 bs (
        transfer_data_response (record {
          block_sequence_counter = u8_at bs 1;
          transfer_response_parameter_record = drop 2 bs;
        }))
    else if sid == 0x37
    then request_transfer_exit_response (record { transfer_response_parameter_record = drop 1 bs })
    else monostate
