-- ===== src/SomeIp/Header.antt =====
-- `SomeIpDecoder::decode_impl` of src/protocols/someip.cpp, with the header of
-- include/wadjet/protocols/someip.hpp. The decoder's reassembler is passed in and out; each error is
-- returned before it is written. A message type or a return code is the number of its enumerator.
pub mod Safety
use wadjet_link.Prelude.{
  ℕ, ◌+◌, ◌-◌, ◌*◌, ◌/◌, ◌%◌, ◌^◌, Bool, true, false, not, ◌&&◌, ◌||◌, ltb, leb, ◌==◌,
  if◌then◌else◌, drop,
}
use wadjet_link.Decoder.{
  Decoded, ok, err, fault, buffer_too_small, invalid_version, invalid_length, DecodeContext, ◌>>=◌,
  ◌>>◌, fail_if, has_bytes, sub_context, read_be16, read_be32, data_at,
}
use wadjet_link.SomeIp.Tp.{
  TpKey, Reassembler, SomeipTpSegment, parse_segment, add_segment, max_message_size,
}

abbrev pub header_size : ℕ
header_size = 16

abbrev pub protocol_version_1 : ℕ
protocol_version_1 = 1

pub record SomeIpHeader : Type 0 where
  pub service_id : ℕ
  pub method_id : ℕ
  pub length : ℕ
  pub client_id : ℕ
  pub session_id : ℕ
  pub protocol_version : ℕ
  pub interface_version : ℕ
  pub message_type : ℕ
  pub return_code : ℕ

unfoldable pub payload_size : SomeIpHeader → ℕ
payload_size h = if leb 8 h.length then h.length - 8 else 0

unfoldable pub message_id : SomeIpHeader → ℕ
message_id h = h.service_id * 2 ^ 16 + h.method_id

unfoldable pub request_id : SomeIpHeader → ℕ
request_id h = h.client_id * 2 ^ 16 + h.session_id

unfoldable pub is_service_discovery : SomeIpHeader → Bool
is_service_discovery h = h.service_id == 0xFFFF && h.method_id == 0x8100

unfoldable pub is_request : SomeIpHeader → Bool
is_request h =
    h.message_type == 0x00
    || h.message_type == 0x01
    || h.message_type == 0x40
    || h.message_type == 0x41

unfoldable pub is_response : SomeIpHeader → Bool
is_response h = h.message_type == 0x80 || h.message_type == 0xC0

unfoldable pub is_error : SomeIpHeader → Bool
is_error h = h.message_type == 0x81 || h.message_type == 0xC1

unfoldable pub is_notification : SomeIpHeader → Bool
is_notification h = h.message_type == 0x02 || h.message_type == 0x42

unfoldable pub is_event : SomeIpHeader → Bool
is_event h = not (h.method_id / 2 ^ 15 % 2 == 0)

pub record DecoderOptions : Type 0 where
  pub validate_protocol_version : Bool
  pub allow_invalid_version : Bool
  pub enable_tp_reassembly : Bool

-- `(message_type_byte & TP_FLAG) != 0` with the flag 0x20
abbrev pub is_tp : ℕ → Bool
is_tp message_type = not (message_type / 32 % 2 == 0)

-- The block under `enable_tp_reassembly`: the payload begins behind the TP header, and its size comes
-- from the length field.
unfoldable pub reassemble : DecodeContext → SomeIpHeader → Reassembler → Decoded Reassembler
reassemble c h r = do
  fail_if (not (has_bytes c (header_size + 4))) buffer_too_small
  segment ← parse_segment (drop header_size c.bytes)
  let size = if ltb 12 h.length then h.length - 12 else 0
  fail_if (ltb max_message_size (segment.offset + size)) invalid_length
  let key : TpKey = record { message_id = message_id h; request_id = request_id h }
  (complete, r') ← add_segment key segment (drop (header_size + 4) c.bytes) size r
  ok r'

unfoldable pub tp_part :
    DecoderOptions → DecodeContext → SomeIpHeader → Reassembler → Decoded Reassembler
tp_part opts c h r = if not (is_tp h.message_type) then ok r else do
  fail_if (ltb h.length 12) invalid_length
  fail_if (ltb max_message_size h.length) invalid_length
  if opts.enable_tp_reassembly then reassemble c h r else ok r

unfoldable pub decode_someip :
    DecoderOptions
    → DecodeContext
    → Reassembler
    → Decoded (SomeIpHeader × DecodeContext × Reassembler)
decode_someip opts c r = do
  fail_if (not (has_bytes c header_size)) buffer_too_small
  service_id ← read_be16 c 0
  method_id ← read_be16 c 2
  length ← read_be32 c 4
  client_id ← read_be16 c 8
  session_id ← read_be16 c 10
  protocol_version ← data_at c 12
  fail_if
      (opts.validate_protocol_version
        && not (protocol_version == protocol_version_1)
        && not opts.allow_invalid_version)
      invalid_version
  interface_version ← data_at c 13
  message_type ← data_at c 14
  return_code ← data_at c 15
  fail_if (ltb length 8) invalid_length
  let h : SomeIpHeader = record {
    service_id = service_id;
    method_id = method_id;
    length = length;
    client_id = client_id;
    session_id = session_id;
    protocol_version = protocol_version;
    interface_version = interface_version;
    message_type = message_type;
    return_code = return_code;
  }
  r' ← tp_part opts c h r
  ok (h, sub_context header_size c, r')
