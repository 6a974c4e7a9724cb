-- ===== src/Udp.antt =====
-- src/protocols/udp.cpp and include/wadjet/protocols/udp.hpp. The validator stands in
-- `Validator`.
pub mod Bounds
pub mod Validator
pub mod Validation
use wadjet_link.Prelude.{ℕ, ◌-◌, Bool, not, ◌||◌, ltb, leb, ◌==◌, if◌then◌else◌}
use wadjet_link.Decoder.{
  Decoded, ok, buffer_too_small, invalid_length, DecodeContext, ◌>>=◌, ◌>>◌, fail_if, has_bytes,
  sub_context, read_be16,
}

abbrev pub header_size : ℕ
header_size = 8

abbrev pub someip_sd_port : ℕ
someip_sd_port = 30490

abbrev pub doip_port : ℕ
doip_port = 13400

pub record UdpHeader : Type 0 where
  pub src_port : ℕ
  pub dst_port : ℕ
  pub length : ℕ
  pub checksum : ℕ
  pub checksum_valid : Bool

unfoldable pub payload_size : UdpHeader → ℕ
payload_size h = if leb header_size h.length then h.length - header_size else 0

unfoldable pub is_someip_sd_port : UdpHeader → Bool
is_someip_sd_port h = h.src_port == someip_sd_port || h.dst_port == someip_sd_port

unfoldable pub is_doip_port : UdpHeader → Bool
is_doip_port h = h.src_port == doip_port || h.dst_port == doip_port

pub data ChecksumMode : Type 0 where
  disabled warning strict : ChecksumMode

pub record Options : Type 0 where
  pub validate_checksum : Bool
  pub checksum_mode : ChecksumMode

unfoldable pub can_decode : DecodeContext → Bool
can_decode c = c.layer_info.ip_protocol == 17

abbrev pub with_ports : ℕ → ℕ → DecodeContext → DecodeContext
with_ports src dst c = record c {
  layer_info = record c.layer_info { src_port = src; dst_port = dst };
}

unfoldable pub decode_udp : Options → DecodeContext → Decoded (UdpHeader × DecodeContext)
decode_udp o c = do
  fail_if (not (has_bytes c header_size)) buffer_too_small
  src ← read_be16 c 0
  dst ← read_be16 c 2
  len ← read_be16 c 4
  sum ← read_be16 c 6
  fail_if (ltb len header_size) invalid_length
  let header : UdpHeader = record {
    src_port = src;
    dst_port = dst;
    length = len;
    checksum = sum;
    checksum_valid = sum == 0 || not o.validate_checksum;
  }
  ok (header, with_ports src dst (sub_context header_size c))
