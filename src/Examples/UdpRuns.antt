-- ===== src/Examples/UdpRuns.antt =====
-- The UDP decoder and its checksum validator at concrete inputs.
use wadjet_link.Prelude.{ℕ, ◌≡◌, ◌<◌, ◌↔◌, refl, List, [], ◌∷◌, true, false, some, arith}
use wadjet_link.Bytes.{read_be16, read_be32}
use wadjet_link.Decoder
use wadjet_link.Decoder.{Decoded, ok, err, invalid_length, from_packet, sub_context}
use wadjet_link.Checksum.{pseudo_sum, transport_checksum, fold_carries, add_words}
use wadjet_link.Checksum.Laws.{ones_sum}
use wadjet_link.Udp.{Options, disabled, decode_udp, with_ports}
use wadjet_link.Udp.Validator.{calculate_checksum, validate_checksum}
use wadjet_link.Udp.Validation.{
  with_field, received_sum, IsDatagram, validate_checksum-cleared_iff, validate_checksum-in_place,
}

abbrev sender : List ℕ
sender = 192 ∷ 168 ∷ 0 ∷ 1 ∷ []

abbrev receiver : List ℕ
receiver = 192 ∷ 168 ∷ 0 ∷ 199 ∷ []

-- From port 1 to port 2, two bytes of payload, and the field as given.
abbrev datagram : ℕ → ℕ → List ℕ
datagram hi lo = with_field 0 1 0 2 0 10 (0xaa ∷ 0xbb ∷ []) hi lo

-- The checksum of the datagram is 0xD302.
small_datagram : (hi lo : ℕ) → hi < 256 → lo < 256 → IsDatagram sender receiver (datagram hi lo)
small_datagram hi lo p q = record {
  src_long = omega arith;
  dst_long = omega arith;
  all_bytes = (
    omega arith,
    (
      omega arith,
      (
        omega arith,
        (omega arith, (omega arith, (omega arith, (p, (q, (omega arith, (omega arith, tt))))))),
      ),
    ),
  );
  long = omega arith;
  short = omega arith;
}

sent_checksum : calculate_checksum sender receiver (datagram 0 0) 10 ≡ some 0xd302
unfolding calculate_checksum read_be32 transport_checksum pseudo_sum fold_carries add_words
sent_checksum = refl

validate_checksum-cleared_iff_example :
    (validate_checksum sender receiver (datagram 0 0) 10 0xd302 ≡ some true)
    ↔ (ones_sum (received_sum sender receiver (datagram 0xd3 0x02)) ≡ 65535)
validate_checksum-cleared_iff_example =
    validate_checksum-cleared_iff sender receiver 0 1 0 2 0 10 (0xaa ∷ 0xbb ∷ []) 0xd3 0x02
      (small_datagram 0 0 (omega arith) (omega arith)) (omega arith) (omega arith) (omega arith)

validate_checksum-in_place_example :
    validate_checksum sender receiver (datagram 0xd3 0x02) 10 0xd302 ≡ some false
unfolding pseudo_sum
validate_checksum-in_place_example =
    validate_checksum-in_place sender receiver (datagram 0xd3 0x02)
      (small_datagram 0xd3 0x02 (omega arith) (omega arith)) 0xd302 (omega arith) (omega arith) refl

abbrev validating : Options
validating = record { validate_checksum = true; checksum_mode = disabled }

-- The length announces one byte of payload, and the next context has both.
decode_udp_lenient :
    decode_udp validating (from_packet (0x34 ∷ 0x58 ∷ 0 ∷ 2 ∷ 0 ∷ 9 ∷ 0 ∷ 1 ∷ 7 ∷ 8 ∷ []) 0)
    ≡ ok (
      record { src_port = 13400; dst_port = 2; length = 9; checksum = 1; checksum_valid = false },
      with_ports 13400 2
          (sub_context 8 (from_packet (0x34 ∷ 0x58 ∷ 0 ∷ 2 ∷ 0 ∷ 9 ∷ 0 ∷ 1 ∷ 7 ∷ 8 ∷ []) 0)),
    )
unfolding decode_udp Decoder.read_be16 read_be16 from_packet
decode_udp_lenient = refl

decode_udp_short_length :
    decode_udp validating (from_packet (0 ∷ 1 ∷ 0 ∷ 2 ∷ 0 ∷ 7 ∷ 0 ∷ 0 ∷ []) 0) ≡ err invalid_length
unfolding decode_udp Decoder.read_be16 read_be16 from_packet
decode_udp_short_length = refl
