-- ===== src/Udp/Bounds.antt =====
-- The UDP decoder on any buffer.
use wadjet_link.Prelude.{◌+◌, ◌≤◌, ◌<◌, ◌≡◌, ◌≢◌, arith, length, drop, dec_lt, le→leb}
use wadjet_link.Decoder.{Decoded, ok, err, fault, buffer_too_small, DecodeContext}
use wadjet_link.Decoder.Reads.{be16_at, read_be16_in, sub_context_accounts, sub_context-bytes}
use wadjet_link.Udp.{Options, UdpHeader, payload_size, decode_udp}

-- What a decoded header says of the buffer that it came from.
pub record Fits (c : DecodeContext) (h : UdpHeader) (next : DecodeContext) : Type 0 where
  pub payload : payload_size h + 8 ≡ h.length
  pub announced : h.length ≡ be16_at c.bytes 4
  pub rest : next.bytes ≡ drop 8 c.bytes
  pub moved : next.original_offset ≡ c.original_offset + 8
  pub src : next.layer_info.src_port ≡ be16_at c.bytes 0
  pub dst : next.layer_info.dst_port ≡ be16_at c.bytes 2
  pub protocol : next.layer_info.ip_protocol ≡ c.layer_info.ip_protocol

abbrev pub IsSafe : DecodeContext → Decoded (UdpHeader × DecodeContext) → Type 0
IsSafe c d =
    (d ≢ fault) × ((h : UdpHeader) (next : DecodeContext) → d ≡ ok (h, next) → Fits c h next)

decode_udp_short :
    (o : Options) (c : DecodeContext) → length c.bytes < 8 → decode_udp o c ≡ err buffer_too_small
unfolding decode_udp
decode_udp_short o c h = ground arith

decode_udp_long : (o : Options) (c : DecodeContext) → 8 ≤ length c.bytes → IsSafe c (decode_udp o c)
unfolding decode_udp payload_size
decode_udp_long o c p =
    rw
      (
        le→leb 8 (length c.bytes) p,
        read_be16_in c 0 (omega arith),
        read_be16_in c 2 (omega arith),
        read_be16_in c 4 (omega arith),
        read_be16_in c 6 (omega arith),
      )
      (ground arith, λ h next d. ground (arith, sub_context_accounts 8 c, sub_context-bytes 8 c))

-- The UDP decoder reads nothing outside the buffer, on every input; of a decoded header the payload
-- size is the announced length less 8; the next context is all that follows the 8 bytes of the
-- header, whatever length is announced, and carries both ports.
pub decode_udp-IsSafe : (o : Options) (c : DecodeContext) → IsSafe c (decode_udp o c)
decode_udp-IsSafe o c = elim (dec_lt (length c.bytes) 8) [
  | yes p ↦ rw (decode_udp_short o c p) (ground arith, λ h next d. ground arith)
  | no p ↦ decode_udp_long o c (omega arith)
]
