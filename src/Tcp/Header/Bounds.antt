-- ===== src/Tcp/Header/Bounds.antt =====
-- The TCP decoder on any buffer and with any options.
use wadjet_link.Prelude.{
  ℕ, ◌+◌, ◌-◌, ◌*◌, ◌/◌, ◌%◌, ◌^◌, ◌≤◌, ◌≡◌, ◌≢◌, refl, List, [], true, ◌&&◌, ltb, length, drop,
  arith, Bool-cases, inl, inr, le→leb, gt→leb, le→ltb, lt→ltb, dec_lt, subst,
}
use wadjet_link.Decoder.{
  Decoded, DecodeErrorCode, ok, err, fault, buffer_too_small, invalid_header, DecodeContext,
  sub_context, read_bytes,
}
use wadjet_link.Decoder.Reads.{
  be16_at, be32_at, read_be16_in, read_be32_in, sub_context_accounts, sub_context-bytes,
}
use wadjet_link.Tcp.Options.{TcpOption}
use wadjet_link.Tcp.Options.Layout.{parse_options-IsParsed}
use wadjet_link.Tcp.Header.{
  TcpHeader, tcp_flags, DecoderOptions, header_size, read_options, decode_tcp,
}

read_options_total :
    (opts : DecoderOptions) (c : DecodeContext) (n : ℕ)
    → (os : List TcpOption) × (read_options opts c n ≡ ok os)
unfolding read_options
read_options_total opts c n =
    let (os, e, _, _) = parse_options-IsParsed (read_bytes c 20 (n - 20)) in
    elim (Bool-cases (opts.parse_options && ltb 20 n)) [
      | inl long ↦ (os, rw (long, e) refl)
      | inr short ↦ ([], rw short refl)
    ]

-- What an accepted header says of the buffer that it came from.
pub record Fits (c : DecodeContext) (h : TcpHeader) (next : DecodeContext) : Type 0 where
  pub shortest : 20 ≤ header_size h
  pub longest : header_size h ≤ 60
  pub inside : header_size h ≤ length c.bytes
  pub rest : next.bytes ≡ drop (header_size h) c.bytes
  pub moved : next.original_offset ≡ c.original_offset + header_size h
  pub source : next.layer_info.src_port ≡ be16_at c.bytes 0
  pub destination : next.layer_info.dst_port ≡ be16_at c.bytes 2
  pub sequence : h.seq_num ≡ be32_at c.bytes 4

abbrev pub IsSafe : DecodeContext → Decoded (TcpHeader × DecodeContext) → Type 0
IsSafe c d =
    (d ≢ fault) × ((h : TcpHeader) (next : DecodeContext) → d ≡ ok (h, next) → Fits c h next)

err-IsSafe : (c : DecodeContext) (e : DecodeErrorCode) → IsSafe c (err e)
err-IsSafe c e = (λ q. cc, λ h next q. cc)

abbrev header_with : DecodeContext → List TcpOption → TcpHeader
header_with c os = record {
  src_port = be16_at c.bytes 0;
  dst_port = be16_at c.bytes 2;
  seq_num = be32_at c.bytes 4;
  ack_num = be32_at c.bytes 8;
  data_offset = be16_at c.bytes 12 / 2 ^ 12 % 16;
  flags = tcp_flags (be16_at c.bytes 12 % 2 ^ 9);
  window = be16_at c.bytes 14;
  checksum = be16_at c.bytes 16;
  urgent_ptr = be16_at c.bytes 18;
  options = os;
  checksum_valid = true;
}

abbrev rest_with : DecodeContext → ℕ → DecodeContext
rest_with c n =
    let next = sub_context n c in
    record next {
      layer_info = record next.layer_info {
        src_port = be16_at c.bytes 0;
        dst_port = be16_at c.bytes 2;
      };
    }

header_with-Fits :
    (c : DecodeContext) (os : List TcpOption)
    → 5 ≤ be16_at c.bytes 12 / 2 ^ 12 % 16
    → be16_at c.bytes 12 / 2 ^ 12 % 16 * 4 ≤ length c.bytes
    → Fits c (header_with c os) (rest_with c (be16_at c.bytes 12 / 2 ^ 12 % 16 * 4))
unfolding header_size
header_with-Fits c os low inside = ground (
  arith,
  sub_context_accounts (be16_at c.bytes 12 / 2 ^ 12 % 16 * 4) c,
  sub_context-bytes (be16_at c.bytes 12 / 2 ^ 12 % 16 * 4) c,
)

ok-IsSafe :
    (c : DecodeContext) (os : List TcpOption)
    → 5 ≤ be16_at c.bytes 12 / 2 ^ 12 % 16
    → be16_at c.bytes 12 / 2 ^ 12 % 16 * 4 ≤ length c.bytes
    → IsSafe c (ok (header_with c os, rest_with c (be16_at c.bytes 12 / 2 ^ 12 % 16 * 4)))
ok-IsSafe c os low inside = (
  λ q. cc,
  λ h next q.
      subst (λ (p : TcpHeader × DecodeContext). Fits c p.0 p.1) (cc q)
        (header_with-Fits c os low inside),
)

-- The TCP decoder reads nothing outside the buffer and ends, on every input; an accepted header is
-- 20 to 60 bytes long and lies inside the buffer, and the next context is what follows it, with the
-- ports of the segment.
pub decode_tcp-IsSafe : (opts : DecoderOptions) (c : DecodeContext) → IsSafe c (decode_tcp opts c)
unfolding decode_tcp
decode_tcp-IsSafe opts c = elim (dec_lt (length c.bytes) 20) [
  | yes p ↦ rw (gt→leb 20 (length c.bytes) p) (err-IsSafe c buffer_too_small)
  | no p ↦
      let n = be16_at c.bytes 12 / 2 ^ 12 % 16 in
      let (os, e) = read_options_total opts c (n * 4) in
      rw
        (
          le→leb 20 (length c.bytes) (omega arith),
          read_be16_in c 0 (omega arith),
          read_be16_in c 2 (omega arith),
          read_be32_in c 4 (omega arith),
          read_be32_in c 8 (omega arith),
          read_be16_in c 12 (omega arith),
          read_be16_in c 14 (omega arith),
          read_be16_in c 16 (omega arith),
          read_be16_in c 18 (omega arith),
        )
        (elim (dec_lt n 5) [
          | yes low ↦ rw (lt→ltb n 5 low) (err-IsSafe c invalid_header)
          | no high ↦ rw (le→ltb n 5 (omega arith)) (elim (dec_lt (length c.bytes) (n * 4)) [
            | yes long ↦ rw (gt→leb (n * 4) (length c.bytes) long) (err-IsSafe c buffer_too_small)
            | no fits ↦
                rw (le→leb (n * 4) (length c.bytes) (omega arith), e)
                  (ok-IsSafe c os (omega arith) (omega arith))
          ])
        ])
]
