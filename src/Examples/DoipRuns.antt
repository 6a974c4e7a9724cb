-- ===== src/Examples/DoipRuns.antt =====
-- The DoIP decoder at concrete inputs.
use wadjet_link.Prelude.{◌≡◌, refl, [], ◌∷◌, true, false, some}
use wadjet_link.Bytes.{read_be16}
use wadjet_link.Decoder.{ok, DecodeContext, no_layer_info, sub_context, data_at}
use wadjet_link.Doip.Header.{
  DoipHeader, DecoderOptions, version_refused, min_payload_length, decode_doip,
}
use wadjet_link.Doip.Payload.{DiagnosticMessagePayload, parse_diagnostic_message}
use wadjet_link.Doip.Safety.{AllParse, decode_doip-AllParse}

abbrev standard : DecoderOptions
standard = record { validate_version = true; allow_invalid_version = false }

-- A diagnostic message of 5 bytes, and two bytes behind it.
abbrev message : DecodeContext
message = record {
  bytes =
      0x02 ∷ 0xfd ∷ 0x80 ∷ 0x01 ∷ 0x00 ∷ 0x00 ∷ 0x00 ∷ 0x05 ∷ 0x0e ∷ 0x00 ∷ 0x00 ∷ 0x10 ∷ 0x3e
      ∷ 0x02 ∷ 0xfd ∷ [];
  original_offset = 54;
  timestamp = 0;
  layer_info = no_layer_info;
}

abbrev message_header : DoipHeader
message_header = record {
  protocol_version = 0x02;
  inverse_protocol_version = 0xfd;
  payload_type = 0x8001;
  payload_length = 5;
}

abbrev message_rest : DecodeContext
message_rest = record message {
  bytes = 0x0e ∷ 0x00 ∷ 0x00 ∷ 0x10 ∷ 0x3e ∷ 0x02 ∷ 0xfd ∷ [];
  original_offset = 62;
}

abbrev message_payload : DiagnosticMessagePayload
message_payload = record {
  source_address = 0x0e00;
  target_address = 0x0010;
  user_data = 0x3e ∷ 0x02 ∷ 0xfd ∷ [];
}

message_decodes : decode_doip standard message ≡ ok (message_header, message_rest)
unfolding decode_doip version_refused min_payload_length sub_context data_at
message_decodes = refl

message_parses : parse_diagnostic_message message_rest.bytes ≡ ok (some message_payload)
unfolding parse_diagnostic_message read_be16
message_parses = refl

decode_doip-AllParse_example : AllParse 0x8001 message_rest.bytes
decode_doip-AllParse_example =
    decode_doip-AllParse standard message message_header message_rest message_decodes
