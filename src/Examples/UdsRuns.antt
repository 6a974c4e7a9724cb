-- ===== src/Examples/UdsRuns.antt =====
-- The UDS decoder at concrete inputs.
use wadjet_link.Prelude.{ℕ, ◌≡◌, refl, List, [], ◌∷◌, ◌++◌, true, false, none, some, arith}
use wadjet_link.Uds.Types.{
  request, transfer_data_request, request_download_request, ecu_reset_response, read_digits,
}
use wadjet_link.Uds.Requests.{
  read_memory, parse_request_download_request, data_format_from_byte, address_format_from_byte,
}
use wadjet_link.Uds.Responses.{read_power_down_time, parse_ecu_reset_response}
use wadjet_link.Uds.Message.{UdsResult, ok, decode, looks_like_uds}
use wadjet_link.Uds.Message.Safety.{Describes}
use wadjet_link.Uds.Message.Contents.Decode.{decode-answer_in}

-- The fifth block of a transfer, of two bytes.
abbrev fifth_block : List ℕ
fifth_block = 0x36 ∷ 5 ∷ 0xaa ∷ 0xbb ∷ []

abbrev fifth_answer : UdsResult
fifth_answer = ok (record {
  header = record {
    service_id = 0x36;
    direction = request;
    sub_function = none;
    suppress_positive_response = false;
    rejected_service_id = none;
    negative_response_code = none;
    service_data = 5 ∷ 0xaa ∷ 0xbb ∷ [];
    raw_data = fifth_block;
  };
  message =
      transfer_data_request (record {
        block_sequence_counter = 5;
        transfer_request_parameter_record = 0xaa ∷ 0xbb ∷ [];
      });
})

decode-answer_in_example :
    (decode fifth_block ≡ some fifth_answer) × Describes fifth_block fifth_answer
decode-answer_in_example = decode-answer_in fifth_block (omega arith)

-- A download of 0x10 bytes to 0x8000, whose last byte is missing.
abbrev cut_short : List ℕ
cut_short = 0x34 ∷ 0x00 ∷ 0x22 ∷ 0x80 ∷ 0x00 ∷ 0x00 ∷ []

download_whole :
    parse_request_download_request (cut_short ++ 0x10 ∷ [])
    ≡ some (
        request_download_request (record {
          data_format = data_format_from_byte 0;
          address_and_length_format = address_format_from_byte 0x22;
          memory_address = 0x8000;
          memory_size = 0x10;
        }))
unfolding parse_request_download_request read_memory read_digits
download_whole = refl

shut_down_time :
    parse_ecu_reset_response (0x51 ∷ 4 ∷ 30 ∷ [])
    ≡ some (ecu_reset_response (record { reset_type = 4; power_down_time = some 30 }))
unfolding parse_ecu_reset_response read_power_down_time
shut_down_time = refl

looks_like_some : looks_like_uds (0xc5 ∷ []) ≡ true
unfolding looks_like_uds
looks_like_some = refl

looks_like_none : looks_like_uds (0x12 ∷ []) ≡ false
unfolding looks_like_uds
looks_like_none = refl
