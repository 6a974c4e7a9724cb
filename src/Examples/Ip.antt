-- ===== src/Examples/Ip.antt =====
-- The IPv4 options and header at concrete inputs.
use wadjet_link.Prelude.{◌≡◌, refl, List, [], ◌∷◌, ◌++◌, true, false, some, arith}
use wadjet_link.Bytes
use wadjet_link.Decoder
use wadjet_link.Decoder.{
  Decoded, ok, err, fault, DecodeContext, no_layer_info, from_packet, sub_context, read_bytes,
  memcpy, data_at,
}
use wadjet_link.Checksum.{calculate_checksum, fold_carries, add_words}
use wadjet_link.Ipv4.Options.{Ipv4Option, parse_options, round, read_option}
use wadjet_link.Ipv4.Options.RoundTrip.{eol, options_bytes, parse_options-options_bytes}
use wadjet_link.Ipv4.Header.{
  DecoderOptions, Ipv4Header, ipv4_flags, decode_ipv4, decode_body, read_options, checksum_ok,
}
use wadjet_link.Ipv4.Header.Bounds.{Fits, IsSafe, decode_ipv4-IsSafe}

abbrev two_options : List Ipv4Option
two_options = record { kind = 1; body = [] } ∷ record { kind = 148; body = 0 ∷ 0 ∷ [] } ∷ []

parse_options-options_bytes_example :
    parse_options (options_bytes two_options ++ 0 ∷ 0 ∷ [])
    ≡ some (record { options = two_options ++ eol ∷ []; malformed = false })
parse_options-options_bytes_example = parse_options-options_bytes two_options (0 ∷ []) (
  (omega arith, omega arith, λ _. refl),
  ((omega arith, omega arith, λ e. absurd (omega arith)), tt),
)

-- A length byte below 2 stops the parser.
parse_options_bad :
    parse_options (1 ∷ 7 ∷ 1 ∷ [])
    ≡ some (record { options = record { kind = 1; body = [] } ∷ []; malformed = true })
unfolding parse_options round read_option
parse_options_bad = refl

abbrev strict : DecoderOptions
strict = record { validate_checksum = true; allow_bad_checksum = false }

abbrev datagram : DecodeContext
datagram = record {
  bytes =
      0x45 ∷ 0x00 ∷ 0x00 ∷ 0x73 ∷ 0x00 ∷ 0x00 ∷ 0x40 ∷ 0x00 ∷ 0x40 ∷ 0x11 ∷ 0xb8 ∷ 0x61 ∷ 0xc0
      ∷ 0xa8 ∷ 0x00 ∷ 0x01 ∷ 0xc0 ∷ 0xa8 ∷ 0x00 ∷ 0xc7 ∷ 0xaa ∷ 0xbb ∷ [];
  original_offset = 14;
  timestamp = 0;
  layer_info = record no_layer_info { ethertype = 0x0800 };
}

abbrev datagram_header : Ipv4Header
unfolding ipv4_flags
datagram_header = record {
  version = 4;
  ihl = 5;
  dscp = 0;
  ecn = 0;
  total_length = 0x73;
  identification = 0;
  flags = record { reserved = false; dont_fragment = true; more_fragments = false };
  fragment_offset = 0;
  ttl = 0x40;
  protocol = 17;
  checksum = 0xb861;
  src_ip = 0xc0 ∷ 0xa8 ∷ 0x00 ∷ 0x01 ∷ [];
  dst_ip = 0xc0 ∷ 0xa8 ∷ 0x00 ∷ 0xc7 ∷ [];
  options = [];
  checksum_valid = true;
  parsed_options = [];
  options_malformed = false;
}

abbrev datagram_rest : DecodeContext
datagram_rest = record {
  bytes = 0xaa ∷ 0xbb ∷ [];
  original_offset = 34;
  timestamp = 0;
  layer_info = record no_layer_info { ethertype = 0x0800; ip_protocol = 17 };
}

datagram_decodes : decode_ipv4 strict datagram ≡ ok (datagram_header, datagram_rest)
unfolding decode_ipv4 decode_body read_options checksum_ok ipv4_flags sub_context read_bytes memcpy
    data_at Decoder.read_be16 Bytes.read_be16 parse_options calculate_checksum fold_carries
    add_words
datagram_decodes = refl

decode_ipv4-IsSafe_example : IsSafe strict datagram (decode_ipv4 strict datagram)
decode_ipv4-IsSafe_example = decode_ipv4-IsSafe strict datagram

-- The header that the theorem speaks of, here.
datagram-Fits : Fits strict datagram datagram_header datagram_rest
datagram-Fits =
    (decode_ipv4-IsSafe strict datagram).1 datagram_header datagram_rest datagram_decodes
