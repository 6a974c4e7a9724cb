-- ===== src/Ethernet/Bounds.antt =====
-- The Ethernet decoder on any buffer.
use wadjet_link.Prelude.{
  ℕ, ◌+◌, ◌≤◌, ◌<◌, ◌≡◌, ◌≢◌, refl, List, none, arith, length, take, drop, le→leb, dec_lt,
}
use wadjet_link.Decoder.{Decoded, ok, err, fault, buffer_too_small, DecodeContext}
use wadjet_link.Decoder.Reads.{be16_at, read_be16_in, memcpy-read_bytes, sub_context_accounts}
use wadjet_link.Ethernet.{EthernetHeader, decode_ethernet, decode_tags, read_tag}

read_tag-ne-fault : (c : DecodeContext) (tpid o : ℕ) → read_tag c tpid o ≢ fault
unfolding read_tag
read_tag-ne-fault c tpid o = ground (arith, read_be16_in c o, read_be16_in c (o + 2))

decode_tags-ne-fault :
    (c : DecodeContext) (dst src : List ℕ) (e : ℕ) → decode_tags c dst src e ≢ fault
unfolding decode_tags
decode_tags-ne-fault c dst src e = grind (arith, read_tag-ne-fault)

decode_ethernet_short :
    (c : DecodeContext) → length c.bytes < 14 → decode_ethernet c ≡ err buffer_too_small
unfolding decode_ethernet
decode_ethernet_short c h = ground arith

decode_ethernet_long :
    (c : DecodeContext)
    → 14 ≤ length c.bytes
    → decode_ethernet c
      ≡ decode_tags c (take 6 c.bytes) (take 6 (drop 6 c.bytes)) (be16_at c.bytes 12)
unfolding decode_ethernet
decode_ethernet_long c h =
    rw
      (
        le→leb 14 (length c.bytes) h,
        memcpy-read_bytes c 0 6 (omega arith),
        memcpy-read_bytes c 6 6 (omega arith),
        read_be16_in c 12 (omega arith),
      )
      refl

decode_ethernet-ne-fault : (c : DecodeContext) → decode_ethernet c ≢ fault
decode_ethernet-ne-fault c = ground (
  arith,
  decode_ethernet_short c,
  decode_ethernet_long c,
  decode_tags-ne-fault c (take 6 c.bytes) (take 6 (drop 6 c.bytes)) (be16_at c.bytes 12),
)

-- What a decoded header says of the buffer that it came from.
pub record Fits (c : DecodeContext) (h : EthernetHeader) (next : DecodeContext) : Type 0 where
  pub longest : h.header_len ≤ 22
  pub shortest : 14 ≤ h.header_len
  pub inside : h.header_len ≤ length c.bytes
  pub rest : length next.bytes + h.header_len ≡ length c.bytes
  pub moved : next.original_offset ≡ c.original_offset + h.header_len
  pub announced : next.layer_info.ethertype ≡ h.ethertype
  pub tagged : h.vlan ≡ none → h.header_len ≡ 14
  pub untagged : h.header_len ≡ 14 → h.vlan_inner ≡ none

decode_tags-Fits :
    (c : DecodeContext) (dst src : List ℕ) (e : ℕ) (h : EthernetHeader) (next : DecodeContext)
    → 14 ≤ length c.bytes
    → decode_tags c dst src e ≡ ok (h, next)
    → Fits c h next
unfolding decode_tags
decode_tags-Fits c dst src e h next p d =
    ground (arith, sub_context_accounts 14 c, sub_context_accounts 18 c, sub_context_accounts 22 c)

decode_ethernet-Fits :
    (c : DecodeContext) (h : EthernetHeader) (next : DecodeContext)
    → decode_ethernet c ≡ ok (h, next)
    → Fits c h next
decode_ethernet-Fits c h next d = elim (dec_lt (length c.bytes) 14) [
  | yes p ↦ cc (decode_ethernet_short c p)
  | no p ↦
      decode_tags-Fits c _ _ _ h next (omega arith) (rw (decode_ethernet_long c (omega arith)) at d)
]

abbrev pub IsSafe : DecodeContext → Decoded (EthernetHeader × DecodeContext) → Type 0
IsSafe c d =
    (d ≢ fault) × ((h : EthernetHeader) (next : DecodeContext) → d ≡ ok (h, next) → Fits c h next)

-- The Ethernet decoder reads nothing outside the buffer, on every input; a decoded header is 14 to 22
-- bytes long and lies inside the buffer; the next context is exactly what follows it and announces
-- its ethertype; only a tagged frame has a longer header.
pub decode_ethernet-IsSafe : (c : DecodeContext) → IsSafe c (decode_ethernet c)
decode_ethernet-IsSafe c = (decode_ethernet-ne-fault c, decode_ethernet-Fits c)
