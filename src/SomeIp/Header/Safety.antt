-- ===== src/SomeIp/Header/Safety.antt =====
-- When the SOME/IP decoder stays inside its buffer, and when it does not.
use wadjet_link.Prelude.{
  ℕ, ◌+◌, ◌-◌, ◌*◌, ◌%◌, ◌^◌, ◌≤◌, ◌<◌, ◌≡◌, ◌≢◌, refl, Bool, true, false, not, ◌&&◌, ltb, ◌==◌,
  if◌then◌else◌, drop, List, length, arith, length-drop, Bool-cases, inl, inr, subst, dec_lt,
  ltb_false→le, le→leb, le→ltb, gt→leb,
}
use wadjet_link.Decoder.{
  Decoded, DecodeErrorCode, ok, err, fault, buffer_too_small, invalid_version, invalid_length,
  DecodeContext, ◌>>=◌, ◌>>◌, fail_if, sub_context,
}
use wadjet_link.Decoder.Reads.{
  u8_at, be16_at, be32_at, data_at_in, read_be16_in, read_be32_in, get_elem?_in,
  sub_context_accounts, sub_context-bytes,
}
use wadjet_link.SomeIp.Tp.{
  TpKey, tp_key_eq, Reassembler, SomeipTpSegment, parse_segment, add_segment, max_message_size,
}
use wadjet_link.SomeIp.Tp.Reassembly.{Inv, add_segment-Inv, add_segment_overrun}
use wadjet_link.SomeIp.Header.{
  SomeIpHeader, DecoderOptions, is_tp, reassemble, tp_part, decode_someip, message_id, request_id,
}

-- The header that stands at the front of a buffer, and its TP segment.
abbrev pub header_at : List ℕ → SomeIpHeader
header_at bs = record {
  service_id = be16_at bs 0;
  method_id = be16_at bs 2;
  length = be32_at bs 4;
  client_id = be16_at bs 8;
  session_id = be16_at bs 10;
  protocol_version = u8_at bs 12;
  interface_version = u8_at bs 13;
  message_type = u8_at bs 14;
  return_code = u8_at bs 15;
}

abbrev pub segment_at : List ℕ → SomeipTpSegment
segment_at p = record {
  offset = (u8_at p 1 * 2 ^ 16 + u8_at p 2 * 2 ^ 8 + u8_at p 3) * 4 % 2 ^ 32;
  more_segments = not (u8_at p 0 % 2 == 0);
}

parse_segment_in : (p : List ℕ) → 4 ≤ length p → parse_segment p ≡ ok (segment_at p)
unfolding parse_segment
parse_segment_in p h =
    rw
      (
        get_elem?_in p 0 (omega arith),
        get_elem?_in p 1 (omega arith),
        get_elem?_in p 2 (omega arith),
        get_elem?_in p 3 (omega arith),
      )
      refl

-- The version check of the decoder.
abbrev pub version_refused : DecoderOptions → SomeIpHeader → Bool
version_refused opts h =
    opts.validate_protocol_version
    && not (h.protocol_version == 1)
    && not opts.allow_invalid_version

abbrev decode_result :
    DecoderOptions
    → DecodeContext
    → Reassembler
    → Decoded (SomeIpHeader × DecodeContext × Reassembler)
decode_result opts c r = do
  fail_if (version_refused opts (header_at c.bytes)) invalid_version
  fail_if (ltb (be32_at c.bytes 4) 8) invalid_length
  r' ← tp_part opts c (header_at c.bytes) r
  ok (header_at c.bytes, sub_context 16 c, r')

decode_someip_lem :
    (opts : DecoderOptions) (c : DecodeContext) (r : Reassembler)
    → 16 ≤ length c.bytes
    → decode_someip opts c r ≡ decode_result opts c r
unfolding decode_someip
decode_someip_lem opts c r h =
    rw
      (
        le→leb 16 (length c.bytes) h,
        read_be16_in c 0 (omega arith),
        read_be16_in c 2 (omega arith),
        read_be32_in c 4 (omega arith),
        read_be16_in c 8 (omega arith),
        read_be16_in c 10 (omega arith),
        data_at_in c 12 (omega arith),
        data_at_in c 13 (omega arith),
        data_at_in c 14 (omega arith),
        data_at_in c 15 (omega arith),
      )
      refl

-- What `reassemble` does once the TP header is known to be there.
abbrev payload_length : SomeIpHeader → ℕ
payload_length h = if ltb 12 h.length then h.length - 12 else 0

abbrev reassemble_result : DecodeContext → SomeIpHeader → Reassembler → Decoded Reassembler
reassemble_result c h r = do
  let segment = segment_at (drop 16 c.bytes)
  fail_if (ltb max_message_size (segment.offset + payload_length h)) invalid_length
  let key : TpKey = record { message_id = message_id h; request_id = request_id h }
  (complete, r') ← add_segment key segment (drop 20 c.bytes) (payload_length h) r
  ok r'

reassemble_lem :
    (c : DecodeContext) (h : SomeIpHeader) (r : Reassembler)
    → 20 ≤ length c.bytes
    → reassemble c h r ≡ reassemble_result c h r
unfolding reassemble
reassemble_lem c h r p =
    rw
      (
        le→leb 20 (length c.bytes) p,
        parse_segment_in (drop 16 c.bytes) (omega (arith, length-drop 16 c.bytes)),
      )
      refl

-- The buffer holds all that the header's length field announces.
abbrev pub HoldsLength : DecodeContext → Type 0
HoldsLength c = be32_at c.bytes 4 + 8 ≤ length c.bytes

abbrev Keeps : Decoded Reassembler → Type 0
Keeps d = (d ≢ fault) × ((r' : Reassembler) → d ≡ ok r' → Inv r')

err-Keeps : (e : DecodeErrorCode) → Keeps (err e)
err-Keeps e = (λ q. cc, λ r' q. cc)

ok-Keeps : (r : Reassembler) → Inv r → Keeps (ok r)
ok-Keeps r v = (λ q. cc, λ r' q. subst Inv (cc q) v)

size_fits :
    (c : DecodeContext) (h : SomeIpHeader)
    → h.length + 8 ≤ length c.bytes
    → 12 ≤ h.length
    → payload_length h ≤ length (drop 20 c.bytes)
size_fits c h k m = ground (arith, length-drop 20 c.bytes)

reassemble-Keeps :
    (c : DecodeContext) (h : SomeIpHeader) (r : Reassembler)
    → h.length + 8 ≤ length c.bytes
    → 12 ≤ h.length
    → Inv r
    → Keeps (reassemble c h r)
reassemble-Keeps c h r k m v =
    let key : TpKey = record { message_id = message_id h; request_id = request_id h } in
    let segment = segment_at (drop 16 c.bytes) in
    let (done, r', e, v') =
      add_segment-Inv key segment (drop 20 c.bytes) (payload_length h) r (size_fits c h k m) v in
    rw (reassemble_lem c h r (omega arith))
      (elim (Bool-cases (ltb max_message_size (segment.offset + payload_length h))) [
        | inl big ↦ rw big (err-Keeps invalid_length)
        | inr fits ↦ rw (fits, e) (ok-Keeps r' v')
      ])

tp_part-Keeps :
    (opts : DecoderOptions) (c : DecodeContext) (h : SomeIpHeader) (r : Reassembler)
    → h.length + 8 ≤ length c.bytes
    → Inv r
    → Keeps (tp_part opts c h r)
unfolding tp_part
tp_part-Keeps opts c h r k v = elim (Bool-cases (is_tp h.message_type)) [
  | inr plain ↦ rw plain (ok-Keeps r v)
  | inl tp ↦ rw tp (elim (Bool-cases (ltb h.length 12)) [
    | inl short ↦ rw short (err-Keeps invalid_length)
    | inr long ↦ rw long (elim (Bool-cases (ltb max_message_size h.length)) [
      | inl big ↦ rw big (err-Keeps invalid_length)
      | inr small ↦ rw small (elim (Bool-cases opts.enable_tp_reassembly) [
        | inr off ↦ rw off (ok-Keeps r v)
        | inl on ↦ rw on (reassemble-Keeps c h r k (ltb_false→le h.length 12 long) v)
      ])
    ])
  ])
]

short_buffer :
    (opts : DecoderOptions) (c : DecodeContext) (r : Reassembler)
    → length c.bytes < 16
    → decode_someip opts c r ≡ err buffer_too_small
unfolding decode_someip
short_buffer opts c r h = rw (gt→leb 16 (length c.bytes) h) refl

-- What the decoder may give: never a fault, and on success a sound reassembler, the rest of the
-- buffer and a header whose length covers the request ID.
abbrev pub IsSafe : DecodeContext → Decoded (SomeIpHeader × DecodeContext × Reassembler) → Type 0
IsSafe c d =
    (d ≢ fault)
    × ((h : SomeIpHeader) (next : DecodeContext) (r : Reassembler)
        → d ≡ ok (h, next, r)
        → Inv r
          × (16 ≤ length c.bytes)
          × (next.bytes ≡ drop 16 c.bytes)
          × (next.original_offset ≡ c.original_offset + 16)
          × (8 ≤ h.length))

err-IsSafe : (c : DecodeContext) (e : DecodeErrorCode) → IsSafe c (err e)
err-IsSafe c e = (λ q. cc, λ h next r q. cc)

ok-IsSafe :
    (c : DecodeContext) (h : SomeIpHeader) (d : Decoded Reassembler)
    → 16 ≤ length c.bytes
    → 8 ≤ h.length
    → Keeps d
    → IsSafe c (d >>= λ r. ok (h, sub_context 16 c, r))
ok-IsSafe c h (err e) n p k = err-IsSafe c e
ok-IsSafe c h fault n p k = absurd (k.0 refl)
ok-IsSafe c h (ok r) n p k = (
  λ q. cc,
  λ h' next r' q. ground (arith, k.1 r', sub_context-bytes 16 c, sub_context_accounts 16 c),
)

-- On a buffer that holds what its length field announces the decoder reads nothing outside it, and
-- leaves a sound reassembler sound; when it accepts, the next context is what follows the 16 bytes
-- of the header, and the length field is 8 at least.
pub decode_someip-IsSafe :
    (opts : DecoderOptions) (c : DecodeContext) (r : Reassembler)
    → HoldsLength c
    → Inv r
    → IsSafe c (decode_someip opts c r)
decode_someip-IsSafe opts c r k v = elim (dec_lt (length c.bytes) 16) [
  | yes p ↦ rw (short_buffer opts c r p) (err-IsSafe c buffer_too_small)
  | no p ↦
      rw (decode_someip_lem opts c r (omega arith))
        (elim (Bool-cases (version_refused opts (header_at c.bytes))) [
          | inl bad ↦ rw bad (err-IsSafe c invalid_version)
          | inr good ↦ rw good (elim (Bool-cases (ltb (be32_at c.bytes 4) 8)) [
            | inl short ↦ rw short (err-IsSafe c invalid_length)
            | inr long ↦ rw long (
                ok-IsSafe c (header_at c.bytes) (tp_part opts c (header_at c.bytes) r) (omega arith)
                  (ltb_false→le (be32_at c.bytes 4) 8 long)
                  (tp_part-Keeps opts c (header_at c.bytes) r k v))
          ])
        ])
]

-- A TP segment that announces more than its datagram holds is copied all the same, from behind the
-- end of the buffer: for every such datagram that passes the other checks the decoder reads outside
-- its data.
pub decode_someip_overrun :
    (opts : DecoderOptions) (c : DecodeContext) (r : Reassembler)
    → 20 ≤ length c.bytes
    → opts.enable_tp_reassembly ≡ true
    → version_refused opts (header_at c.bytes) ≡ false
    → is_tp (u8_at c.bytes 14) ≡ true
    → 12 ≤ be32_at c.bytes 4
    → (segment_at (drop 16 c.bytes)).offset + be32_at c.bytes 4 ≤ max_message_size
    → length c.bytes < be32_at c.bytes 4 + 8
    → decode_someip opts c r ≡ fault
unfolding tp_part
decode_someip_overrun opts c r n on good tp m fits over =
    let h = header_at c.bytes in
    let segment = segment_at (drop 16 c.bytes) in
    let key : TpKey = record { message_id = message_id h; request_id = request_id h } in
    let read : add_segment key segment (drop 20 c.bytes) (payload_length h) r ≡ fault =
      add_segment_overrun key segment (drop 20 c.bytes) (payload_length h) r (ground arith)
        (ground (arith, length-drop 20 c.bytes)) in
    let small : payload_length h ≤ be32_at c.bytes 4 = ground arith in
    rw
      (
        decode_someip_lem opts c r (omega arith),
        good,
        le→ltb (be32_at c.bytes 4) 8 (omega arith),
        tp,
        le→ltb (be32_at c.bytes 4) 12 m,
        le→ltb max_message_size (be32_at c.bytes 4) (omega arith),
        on,
        reassemble_lem c h r n,
        le→ltb max_message_size (segment.offset + payload_length h) (omega arith),
        read,
      )
      refl
