-- ===== src/Ipv4/Header/Bounds.antt =====
-- The IPv4 decoder on any buffer and with any options.
use wadjet_link.Prelude.{
  ℕ, ◌+◌, ◌-◌, ◌*◌, ◌/◌, ◌%◌, ◌^◌, ◌≤◌, ◌≡◌, ◌≢◌, refl, List, [], true, false, not, ◌&&◌, ltb,
  length, arith, take, drop, Bool-cases, inl, inr, ◌↔◌,
}
use wadjet_link.Decoder.{
  Decoded, ok, fault, invalid_checksum, invalid_length, DecodeContext, ◌>>=◌, ◌>>◌, fail_if,
  sub_context, read_bytes,
}
use wadjet_link.Decoder.Reads.{
  u8_at, be16_at, data_at_in, read_be16_in, memcpy-read_bytes, sub_context_accounts,
  sub_context-bytes,
}
use wadjet_link.Checksum.{calculate_checksum}
use wadjet_link.Ipv4.Options.{ParseOptionsResult}
use wadjet_link.Ipv4.Options.RoundTrip.{parse_options-Covers}
use wadjet_link.Ipv4.Header.{
  DecoderOptions, Ipv4Header, decode_ipv4, decode_body, header_size, read_options, checksum_ok,
  ipv4_flags,
}

-- The body of the decoder once its reads are known to lie inside the buffer.
abbrev body_result : DecoderOptions → DecodeContext → ℕ → Decoded (Ipv4Header × DecodeContext)
body_result opts c b = do
  let n = b % 16 * 4
  let next = sub_context n c
  (raw, parsed) ← read_options c n
  fail_if (not (checksum_ok opts c n) && not opts.allow_bad_checksum) invalid_checksum
  fail_if (ltb (be16_at c.bytes 2) n) invalid_length
  ok (
    record {
      version = b / 16 % 16;
      ihl = b % 16;
      dscp = u8_at c.bytes 1 / 4 % 64;
      ecn = u8_at c.bytes 1 % 4;
      total_length = be16_at c.bytes 2;
      identification = be16_at c.bytes 4;
      flags = ipv4_flags (be16_at c.bytes 6 / 2 ^ 13 % 8);
      fragment_offset = be16_at c.bytes 6 % 2 ^ 13;
      ttl = u8_at c.bytes 8;
      protocol = u8_at c.bytes 9;
      checksum = be16_at c.bytes 10;
      src_ip = take 4 (drop 12 c.bytes);
      dst_ip = take 4 (drop 16 c.bytes);
      options = raw;
      checksum_valid = checksum_ok opts c n;
      parsed_options = parsed.options;
      options_malformed = parsed.malformed;
    },
    record next { layer_info = record next.layer_info { ip_protocol = u8_at c.bytes 9 } },
  )

decode_body_lem :
    (opts : DecoderOptions) (c : DecodeContext) (b : ℕ)
    → 20 ≤ length c.bytes
    → decode_body opts c b ≡ body_result opts c b
unfolding decode_body
decode_body_lem opts c b h =
    rw
      (
        data_at_in c 1 (omega arith),
        read_be16_in c 2 (omega arith),
        read_be16_in c 4 (omega arith),
        read_be16_in c 6 (omega arith),
        data_at_in c 8 (omega arith),
        data_at_in c 9 (omega arith),
        read_be16_in c 10 (omega arith),
        memcpy-read_bytes c 12 4 (omega arith),
        memcpy-read_bytes c 16 4 (omega arith),
      )
      refl

read_options_total :
    (c : DecodeContext) (n : ℕ)
    → (raw : List ℕ) × (parsed : ParseOptionsResult) × (read_options c n ≡ ok (raw, parsed))
unfolding read_options
read_options_total c n =
    let (r, _, e, _) = parse_options-Covers (read_bytes c 20 (n - 20)) in
    elim (Bool-cases (ltb 20 n)) [
      | inl long ↦ (read_bytes c 20 (n - 20), r, rw (long, e) refl)
      | inr short ↦ ([], record { options = []; malformed = false }, rw short refl)
    ]

decode_ipv4-ne-fault : (opts : DecoderOptions) (c : DecodeContext) → decode_ipv4 opts c ≢ fault
unfolding decode_ipv4
decode_ipv4-ne-fault opts c =
    let b = u8_at c.bytes 0 in
    let (_, _, e) = read_options_total c (b % 16 * 4) in
    ground (arith, data_at_in c 0, decode_body_lem opts c b, e)

-- What an accepted header says of the buffer that it came from.
pub record Fits (opts : DecoderOptions) (c : DecodeContext) (h : Ipv4Header) (next : DecodeContext)
    : Type 0 where
  pub version : h.version ≡ 4
  pub shortest : 20 ≤ header_size h
  pub longest : header_size h ≤ 60
  pub inside : header_size h ≤ length c.bytes
  pub announced : header_size h ≤ h.total_length
  pub rest : next.bytes ≡ drop (header_size h) c.bytes
  pub moved : next.original_offset ≡ c.original_offset + header_size h
  pub protocol : next.layer_info.ip_protocol ≡ h.protocol
  pub checked :
      opts.validate_checksum ≡ true
      → opts.allow_bad_checksum ≡ false
      → calculate_checksum (read_bytes c 0 (header_size h)) ≡ 0
  pub marked :
      opts.validate_checksum ≡ true
      → (h.checksum_valid ≡ true) ↔ (calculate_checksum (read_bytes c 0 (header_size h)) ≡ 0)

body_Fits :
    (opts : DecoderOptions) (c : DecodeContext) (b : ℕ) (h : Ipv4Header) (next : DecodeContext)
    → b / 16 % 16 ≡ 4
    → 5 ≤ b % 16
    → b % 16 * 4 ≤ length c.bytes
    → body_result opts c b ≡ ok (h, next)
    → Fits opts c h next
unfolding header_size checksum_ok
body_Fits opts c b h next v i n e =
    let (_, _, r) = read_options_total c (b % 16 * 4) in
    ground (arith, sub_context_accounts (b % 16 * 4) c, sub_context-bytes (b % 16 * 4) c, r)

decode_ipv4-Fits :
    (opts : DecoderOptions) (c : DecodeContext) (h : Ipv4Header) (next : DecodeContext)
    → decode_ipv4 opts c ≡ ok (h, next)
    → Fits opts c h next
unfolding decode_ipv4
decode_ipv4-Fits opts c h next e =
    let b = u8_at c.bytes 0 in
    ground (arith, data_at_in c 0, decode_body_lem opts c b, body_Fits opts c b h next)

abbrev pub IsSafe : DecoderOptions → DecodeContext → Decoded (Ipv4Header × DecodeContext) → Type 0
IsSafe opts c d =
    (d ≢ fault) × ((h : Ipv4Header) (next : DecodeContext) → d ≡ ok (h, next) → Fits opts c h next)

-- The IPv4 decoder reads nothing outside the buffer and its option loop ends, on every input and with
-- any options. An accepted header is version 4, of 20 to 60 bytes that lie inside the buffer, and no
-- longer than the datagram that it announces; the next context is what follows it, with its protocol.
-- Unless the options say otherwise its checksum is right, and the mark in the header tells whether it
-- is.
pub decode_ipv4-IsSafe :
    (opts : DecoderOptions) (c : DecodeContext) → IsSafe opts c (decode_ipv4 opts c)
decode_ipv4-IsSafe opts c = (decode_ipv4-ne-fault opts c, decode_ipv4-Fits opts c)
