-- ===== src/Tcp/Header.antt =====
-- `TcpDecoder::decode_impl` of src/protocols/tcp.cpp, with the header of
-- include/wadjet/protocols/tcp.hpp.
pub mod Bounds
use wadjet_link.Prelude.{
  ℕ, ◌+◌, ◌-◌, ◌*◌, ◌/◌, ◌%◌, ◌^◌, List, [], ◌∷◌, Bool, true, false, not, ◌&&◌, Option, none, some,
  ltb, ◌==◌, if◌then◌else◌,
}
use wadjet_link.Decoder.{
  Decoded, ok, err, fault, buffer_too_small, invalid_header, DecodeContext, LayerInfo, ◌>>=◌, ◌>>◌,
  fail_if, or_fault, has_bytes, sub_context, read_be16, read_be32, read_bytes,
}
use wadjet_link.Tcp.Options.{TcpOption, mss, window_scale, parse_options}

abbrev pub min_header_size : ℕ
min_header_size = 20

pub record TcpFlags : Type 0 where
  pub fin : Bool
  pub syn : Bool
  pub rst : Bool
  pub psh : Bool
  pub ack : Bool
  pub urg : Bool
  pub ece : Bool
  pub cwr : Bool
  pub ns : Bool

unfoldable pub tcp_flags : ℕ → TcpFlags
tcp_flags w = record {
  fin = w % 2 == 1;
  syn = w / 2 % 2 == 1;
  rst = w / 4 % 2 == 1;
  psh = w / 8 % 2 == 1;
  ack = w / 16 % 2 == 1;
  urg = w / 32 % 2 == 1;
  ece = w / 64 % 2 == 1;
  cwr = w / 128 % 2 == 1;
  ns = w / 256 % 2 == 1;
}

pub record TcpHeader : Type 0 where
  pub src_port : ℕ
  pub dst_port : ℕ
  pub seq_num : ℕ
  pub ack_num : ℕ
  pub data_offset : ℕ
  pub flags : TcpFlags
  pub window : ℕ
  pub checksum : ℕ
  pub urgent_ptr : ℕ
  pub options : List TcpOption
  pub checksum_valid : Bool

unfoldable pub header_size : TcpHeader → ℕ
header_size h = h.data_offset * 4

unfoldable pub is_syn : TcpHeader → Bool
is_syn h = h.flags.syn && not h.flags.ack

unfoldable pub is_syn_ack : TcpHeader → Bool
is_syn_ack h = h.flags.syn && h.flags.ack

-- The first option that has a value.
first_some : (TcpOption → Option ℕ) → List TcpOption → Option ℕ
first_some f [] = none
first_some f (o ∷ os) = let rest = first_some f os in elim (f o) [ some v ↦ some v | none ↦ rest ]

unfoldable pub get_mss : TcpHeader → Option ℕ
unfolding first_some
get_mss h = first_some mss h.options

unfoldable pub get_window_scale : TcpHeader → Option ℕ
unfolding first_some
get_window_scale h = first_some window_scale h.options

pub record DecoderOptions : Type 0 where
  pub parse_options : Bool
  pub validate_checksum : Bool

-- The options area, if it is asked for and the header is longer than 20 bytes.
unfoldable pub read_options : DecoderOptions → DecodeContext → ℕ → Decoded (List TcpOption)
read_options opts c header_len =
    if opts.parse_options && ltb min_header_size header_len
    then or_fault (parse_options (read_bytes c min_header_size (header_len - min_header_size)))
    else ok []

unfoldable pub decode_tcp : DecoderOptions → DecodeContext → Decoded (TcpHeader × DecodeContext)
decode_tcp opts c = do
  fail_if (not (has_bytes c min_header_size)) buffer_too_small
  src_port ← read_be16 c 0
  dst_port ← read_be16 c 2
  seq_num ← read_be32 c 4
  ack_num ← read_be32 c 8
  offset_flags ← read_be16 c 12
  let data_offset = offset_flags / 2 ^ 12 % 16
  fail_if (ltb data_offset 5) invalid_header
  fail_if (not (has_bytes c (data_offset * 4))) buffer_too_small
  window ← read_be16 c 14
  checksum ← read_be16 c 16
  urgent_ptr ← read_be16 c 18
  options ← read_options opts c (data_offset * 4)
  let next = sub_context (data_offset * 4) c
  ok (
    record {
      src_port = src_port;
      dst_port = dst_port;
      seq_num = seq_num;
      ack_num = ack_num;
      data_offset = data_offset;
      flags = tcp_flags (offset_flags % 2 ^ 9);
      window = window;
      checksum = checksum;
      urgent_ptr = urgent_ptr;
      options = options;
      checksum_valid = true;
    },
    record next {
      layer_info = record next.layer_info { src_port = src_port; dst_port = dst_port };
    },
  )
