-- ===== src/Examples/Link.antt =====
-- Byte order, decode contexts, Ethernet and the checksums at concrete inputs.
use wadjet_link.Prelude.{ℕ, ◌≡◌, ◌↔◌, refl, List, [], ◌∷◌, arith}
use wadjet_link.Decoder.{ok, DecodeContext, from_packet}
use wadjet_link.Ethernet.{decode_ethernet}
use wadjet_link.Ethernet.RoundTrip.{
  Frame, single, frame_bytes, frame_header, frame_rest, decode_ethernet-frame_bytes,
}
use wadjet_link.Checksum.{calculate_checksum, ipv4_checksum}
use wadjet_link.Checksum.Laws.{stored_checksum, calculate_checksum-zero_iff}

abbrev packet : DecodeContext
unfolding from_packet
packet = from_packet (1 ∷ 2 ∷ 3 ∷ []) 5

abbrev tagged_frame : Frame
tagged_frame = record {
  dst = record { b0 = 1; b1 = 2; b2 = 3; b3 = 4; b4 = 5; b5 = 6 };
  src = record { b0 = 7; b1 = 8; b2 = 9; b3 = 10; b4 = 11; b5 = 12 };
  tags = single (record { tpid = 0x8100; tci = 0x2005 });
  ethertype = 0x0800;
  payload = 0x45 ∷ 0 ∷ [];
}

decode_ethernet-frame_bytes_example :
    decode_ethernet (from_packet (frame_bytes tagged_frame) 5)
    ≡ ok (frame_header tagged_frame, frame_rest tagged_frame 5)
decode_ethernet-frame_bytes_example =
    decode_ethernet-frame_bytes tagged_frame 5 (omega arith) ((refl, omega arith), refl)

-- The header of RFC 1071's kind, with the checksum field filled in.
abbrev ip_header : List ℕ
ip_header =
    0x45 ∷ 0x00 ∷ 0x00 ∷ 0x73 ∷ 0x00 ∷ 0x00 ∷ 0x40 ∷ 0x00 ∷ 0x40 ∷ 0x11 ∷ 0xb8 ∷ 0x61 ∷ 0xc0 ∷ 0xa8
    ∷ 0x00 ∷ 0x01 ∷ 0xc0 ∷ 0xa8 ∷ 0x00 ∷ 0xc7 ∷ []

calculate_checksum-zero_iff_example :
    (calculate_checksum ip_header ≡ 0) ↔ (stored_checksum ip_header ≡ ipv4_checksum ip_header)
calculate_checksum-zero_iff_example =
    calculate_checksum-zero_iff ip_header (omega arith) (omega arith) (omega arith) (omega arith)
      (omega arith)
