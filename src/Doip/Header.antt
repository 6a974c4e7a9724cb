-- ===== src/Doip/Header.antt =====
-- `DoIPHeader` and `DoIPDecoder::decode_impl`. The payload type is its number, since any may come.
pub mod PayloadType
use wadjet_link.Prelude.{
  ℕ, ◌+◌, Bool, true, false, not, ◌&&◌, ◌||◌, ltb, leb, ◌==◌, if◌then◌else◌, bit_xor,
}
use wadjet_link.Bytes.{be16, be32}
use wadjet_link.Decoder.{
  Decoded, ok, err, fault, buffer_too_small, invalid_version, invalid_length, DecodeContext, ◌>>=◌,
  ◌>>◌, fail_if, has_bytes, sub_context, data_at,
}

abbrev pub header_size : ℕ
header_size = 8

pub record DoipHeader : Type 0 where
  pub protocol_version : ℕ
  pub inverse_protocol_version : ℕ
  pub payload_type : ℕ
  pub payload_length : ℕ

unfoldable pub is_version_valid : DoipHeader → Bool
is_version_valid h = bit_xor h.protocol_version h.inverse_protocol_version == 0xff

unfoldable pub is_routing_activation : DoipHeader → Bool
is_routing_activation h =
    h.payload_type == PayloadType.routing_activation_request
    || h.payload_type == PayloadType.routing_activation_response

unfoldable pub is_vehicle_identification : DoipHeader → Bool
is_vehicle_identification h = leb 0x0001 h.payload_type && leb h.payload_type 0x0004

pub record DecoderOptions : Type 0 where
  pub validate_version : Bool
  pub allow_invalid_version : Bool

-- The switch over the payload type: the length under which it refuses the message.
unfoldable pub min_payload_length : ℕ → ℕ
min_payload_length type =
    if type == PayloadType.generic_nack
    then 3
    else if type == PayloadType.power_mode_response
    then 1
    else if type == PayloadType.entity_status_response
    then 5
    else if type == PayloadType.alive_check_response
    then 2
    else if type == PayloadType.diagnostic_message
    then 4
    else if type == PayloadType.diagnostic_message_positive_ack
        || type == PayloadType.diagnostic_message_negative_ack
    then 3
    else if type == PayloadType.routing_activation_request
    then 7
    else if type == PayloadType.routing_activation_response
    then 9
    else if type == PayloadType.vehicle_identification_response
    then 32
    else 0

unfoldable pub version_refused : DecoderOptions → ℕ → ℕ → Bool
version_refused opts version inverse =
    opts.validate_version && not (bit_xor version inverse == 0xff) && not opts.allow_invalid_version

unfoldable pub decode_doip : DecoderOptions → DecodeContext → Decoded (DoipHeader × DecodeContext)
decode_doip opts c = do
  fail_if (not (has_bytes c header_size)) buffer_too_small
  version ← data_at c 0
  inverse ← data_at c 1
  fail_if (version_refused opts version inverse) invalid_version
  type0 ← data_at c 2
  type1 ← data_at c 3
  length0 ← data_at c 4
  length1 ← data_at c 5
  length2 ← data_at c 6
  length3 ← data_at c 7
  let payload_length = be32 length0 length1 length2 length3
  fail_if (not (has_bytes c (header_size + payload_length))) buffer_too_small
  fail_if (ltb payload_length (min_payload_length (be16 type0 type1))) invalid_length
  ok (
    record {
      protocol_version = version;
      inverse_protocol_version = inverse;
      payload_type = be16 type0 type1;
      payload_length = payload_length;
    },
    sub_context header_size c,
  )
