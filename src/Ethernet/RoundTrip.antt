-- ===== src/Ethernet/RoundTrip.antt =====
-- A frame written by the standard's layout, with no tag, one or two, is decoded to its parts.
use wadjet_link.Prelude.{
  ℕ, ◌+◌, ◌<◌, ◌^◌, ◌≡◌, List, [], ◌∷◌, ◌++◌, true, false, Option, some, none, arith, length,
}
use wadjet_link.Bytes.{write_be16}
use wadjet_link.Decoder.{
  ok, DecodeContext, no_layer_info, sub_context, read_be16, from_packet, memcpy, read_bytes,
}
use wadjet_link.Bytes
use wadjet_link.Ethernet.{VlanTag, EthernetHeader, decode_ethernet, is_tag_type}

pub record Mac : Type 0 where
  pub b0 : ℕ
  pub b1 : ℕ
  pub b2 : ℕ
  pub b3 : ℕ
  pub b4 : ℕ
  pub b5 : ℕ

abbrev pub mac_bytes : Mac → List ℕ
mac_bytes m = m.b0 ∷ m.b1 ∷ m.b2 ∷ m.b3 ∷ m.b4 ∷ m.b5 ∷ []

pub data Tags : Type 0 where
  untagged : Tags
  single : VlanTag → Tags
  double : VlanTag → VlanTag → Tags

abbrev pub tag_bytes : VlanTag → List ℕ
tag_bytes t = write_be16 t.tpid ++ write_be16 t.tci

abbrev pub tags_bytes : Tags → List ℕ
tags_bytes untagged = []
tags_bytes (single t) = tag_bytes t
tags_bytes (double t u) = tag_bytes t ++ tag_bytes u

pub record Frame : Type 0 where
  pub dst : Mac
  pub src : Mac
  pub tags : Tags
  pub ethertype : ℕ
  pub payload : List ℕ

abbrev pub frame_bytes : Frame → List ℕ
frame_bytes f =
    mac_bytes f.dst
    ++ (mac_bytes f.src ++ (tags_bytes f.tags ++ (write_be16 f.ethertype ++ f.payload)))

abbrev pub IsTag : VlanTag → Type 0
IsTag t = (is_tag_type t.tpid ≡ true) × (t.tci < 2 ^ 16)

-- With two tags the ethertype may be anything; with fewer it must not look like one more tag.
abbrev pub IsWellTagged : Tags → ℕ → Type 0
IsWellTagged untagged e = is_tag_type e ≡ false
IsWellTagged (single t) e = IsTag t × (is_tag_type e ≡ false)
IsWellTagged (double t u) e = IsTag t × IsTag u

abbrev pub outer_tag : Tags → Option VlanTag
outer_tag untagged = none
outer_tag (single t) = some t
outer_tag (double t u) = some t

abbrev pub inner_tag : Tags → Option VlanTag
inner_tag untagged = none
inner_tag (single t) = none
inner_tag (double t u) = some u

abbrev pub frame_header : Frame → EthernetHeader
frame_header f = record {
  dst_mac = mac_bytes f.dst;
  src_mac = mac_bytes f.src;
  vlan = outer_tag f.tags;
  vlan_inner = inner_tag f.tags;
  ethertype = f.ethertype;
  header_len = 14 + length (tags_bytes f.tags);
}

abbrev pub frame_rest : Frame → ℕ → DecodeContext
frame_rest f ts = record {
  bytes = f.payload;
  original_offset = 14 + length (tags_bytes f.tags);
  timestamp = ts;
  layer_info = record no_layer_info { ethertype = f.ethertype };
}

round_trip :
    (dst src : Mac) (tags : Tags) (e : ℕ) (payload : List ℕ) (ts : ℕ)
    → e < 2 ^ 16
    → IsWellTagged tags e
    → let f : Frame = record {
      dst = dst;
      src = src;
      tags = tags;
      ethertype = e;
      payload = payload;
    } in
      decode_ethernet (from_packet (frame_bytes f) ts) ≡ ok (frame_header f, frame_rest f ts)
unfolding decode_ethernet memcpy read_bytes read_be16 Bytes.read_be16 write_be16 from_packet
    sub_context
round_trip dst src untagged e payload ts he w = ground arith
round_trip dst src (single t) e payload ts he w = ground arith
round_trip dst src (double t u) e payload ts he w = ground arith

-- A frame laid out as the standard says, with no VLAN tag, one or two, decodes to its addresses,
-- tags and ethertype, and the next context is its payload with the ethertype announced.
pub decode_ethernet-frame_bytes :
    (f : Frame) (ts : ℕ)
    → f.ethertype < 2 ^ 16
    → IsWellTagged f.tags f.ethertype
    → decode_ethernet (from_packet (frame_bytes f) ts) ≡ ok (frame_header f, frame_rest f ts)
decode_ethernet-frame_bytes f ts he w = round_trip f.dst f.src f.tags f.ethertype f.payload ts he w
