-- ===== src/Ipv4/Header.antt =====
-- `IPv4Decoder::decode_impl` of src/protocols/ipv4.cpp, with the header of
-- include/wadjet/protocols/ipv4.hpp. An address is the list of its four bytes. The local fragment
-- record that `decode_impl` fills and drops has no effect and is left out.
pub mod Bounds
use wadjet_link.Prelude.{
  ℕ, ◌+◌, ◌-◌, ◌*◌, ◌/◌, ◌%◌, ◌^◌, List, [], Bool, true, false, not, ◌&&◌, ◌||◌, Option, none, some,
  ltb, leb, ◌==◌, if◌then◌else◌, length,
}
use wadjet_link.Decoder.{
  Decoded, ok, err, fault, buffer_too_small, invalid_header, invalid_checksum, invalid_version,
  invalid_length, DecodeContext, LayerInfo, ◌>>=◌, ◌>>◌, fail_if, or_fault, has_bytes, sub_context,
  read_be16, read_bytes, data_at, memcpy,
}
use wadjet_link.Checksum.{calculate_checksum}
use wadjet_link.Ipv4.Options.{Ipv4Option, ParseOptionsResult, parse_options}

abbrev pub min_header_size : ℕ
min_header_size = 20

pub record Ipv4Flags : Type 0 where
  pub reserved : Bool
  pub dont_fragment : Bool
  pub more_fragments : Bool

unfoldable pub ipv4_flags : ℕ → Ipv4Flags
ipv4_flags b = record {
  reserved = b / 4 % 2 == 1;
  dont_fragment = b / 2 % 2 == 1;
  more_fragments = b % 2 == 1;
}

pub record Ipv4Header : Type 0 where
  pub version : ℕ
  pub ihl : ℕ
  pub dscp : ℕ
  pub ecn : ℕ
  pub total_length : ℕ
  pub identification : ℕ
  pub flags : Ipv4Flags
  pub fragment_offset : ℕ
  pub ttl : ℕ
  pub protocol : ℕ
  pub checksum : ℕ
  pub src_ip : List ℕ
  pub dst_ip : List ℕ
  pub options : List ℕ
  pub checksum_valid : Bool
  pub parsed_options : List Ipv4Option
  pub options_malformed : Bool

unfoldable pub header_size : Ipv4Header → ℕ
header_size h = h.ihl * 4

unfoldable pub payload_size : Ipv4Header → ℕ
unfolding header_size
payload_size h = if leb (header_size h) h.total_length then h.total_length - header_size h else 0

unfoldable pub is_fragmented : Ipv4Header → Bool
is_fragmented h = h.flags.more_fragments || ltb 0 h.fragment_offset

pub record DecoderOptions : Type 0 where
  pub validate_checksum : Bool
  pub allow_bad_checksum : Bool

-- The options area, if the header is longer than 20 bytes: its bytes, the list and the mark.
unfoldable pub read_options : DecodeContext → ℕ → Decoded (List ℕ × ParseOptionsResult)
read_options c header_len =
    let raw = read_bytes c min_header_size (header_len - min_header_size) in
    if not (ltb min_header_size header_len)
    then ok ([], record { options = []; malformed = false })
    else (or_fault (parse_options raw) >>= λ parsed. ok (raw, parsed))

-- Whether the checksum is right, or is not looked at.
unfoldable pub checksum_ok : DecoderOptions → DecodeContext → ℕ → Bool
checksum_ok opts c header_len =
    if opts.validate_checksum then calculate_checksum (read_bytes c 0 header_len) == 0 else true

-- The part of `decode_impl` behind the checks of the first byte.
unfoldable pub decode_body :
    DecoderOptions → DecodeContext → ℕ → Decoded (Ipv4Header × DecodeContext)
decode_body opts c ver_ihl = do
  let header_len = ver_ihl % 16 * 4
  tos ← data_at c 1
  total_length ← read_be16 c 2
  identification ← read_be16 c 4
  flags_frag ← read_be16 c 6
  ttl ← data_at c 8
  protocol ← data_at c 9
  checksum ← read_be16 c 10
  src_ip ← memcpy (read_bytes c 12 4) 4
  dst_ip ← memcpy (read_bytes c 16 4) 4
  (raw, parsed) ← read_options c header_len
  fail_if (not (checksum_ok opts c header_len) && not opts.allow_bad_checksum) invalid_checksum
  fail_if (ltb total_length header_len) invalid_length
  let next = sub_context header_len c
  ok (
    record {
      version = ver_ihl / 16 % 16;
      ihl = ver_ihl % 16;
      dscp = tos / 4 % 64;
      ecn = tos % 4;
      total_length = total_length;
      identification = identification;
      flags = ipv4_flags (flags_frag / 2 ^ 13 % 8);
      fragment_offset = flags_frag % 2 ^ 13;
      ttl = ttl;
      protocol = protocol;
      checksum = checksum;
      src_ip = src_ip;
      dst_ip = dst_ip;
      options = raw;
      checksum_valid = checksum_ok opts c header_len;
      parsed_options = parsed.options;
      options_malformed = parsed.malformed;
    },
    record next { layer_info = record next.layer_info { ip_protocol = protocol } },
  )

unfoldable pub decode_ipv4 : DecoderOptions → DecodeContext → Decoded (Ipv4Header × DecodeContext)
decode_ipv4 opts c = do
  fail_if (not (has_bytes c min_header_size)) buffer_too_small
  ver_ihl ← data_at c 0
  fail_if (not (ver_ihl / 16 % 16 == 4)) invalid_version
  fail_if (ltb (ver_ihl % 16) 5) invalid_header
  fail_if (not (has_bytes c (ver_ihl % 16 * 4))) buffer_too_small
  decode_body opts c ver_ihl
