-- ===== src/Ethernet.antt =====
-- src/protocols/ethernet.cpp and include/wadjet/protocols/ethernet.hpp. A MAC address is the list of
-- its six bytes.
pub mod Bounds
pub mod RoundTrip
use wadjet_link.Prelude.{
  ℕ, ◌+◌, ◌/◌, ◌%◌, ◌^◌, List, Bool, true, false, not, ◌||◌, Option, none, some, ◌==◌,
  if◌then◌else◌,
}
use wadjet_link.Decoder.{
  Decoded, ok, err, fault, buffer_too_small, DecodeContext, LayerInfo, ◌>>=◌, ◌>>◌, fail_if,
  has_bytes, sub_context, read_be16, read_bytes, memcpy,
}

abbrev pub min_frame_size : ℕ
min_frame_size = 14

abbrev pub vlan_tag_size : ℕ
vlan_tag_size = 4

abbrev pub ethertype_vlan : ℕ
ethertype_vlan = 0x8100

abbrev pub ethertype_qinq : ℕ
ethertype_qinq = 0x88A8

pub record VlanTag : Type 0 where
  pub tpid : ℕ
  pub tci : ℕ

unfoldable pub pcp : VlanTag → ℕ
pcp t = t.tci / 2 ^ 13 % 8

-- `(tci & 0x1000) != 0`
unfoldable pub dei : VlanTag → Bool
dei t = not (t.tci / 2 ^ 12 % 2 == 0)

unfoldable pub vid : VlanTag → ℕ
vid t = t.tci % 2 ^ 12

abbrev pub is_tag_type : ℕ → Bool
is_tag_type e = e == ethertype_vlan || e == ethertype_qinq

pub record EthernetHeader : Type 0 where
  pub dst_mac : List ℕ
  pub src_mac : List ℕ
  pub vlan : Option VlanTag
  pub vlan_inner : Option VlanTag
  pub ethertype : ℕ
  pub header_len : ℕ

unfoldable pub parse_vlan : DecodeContext → ℕ → Decoded (Option VlanTag)
parse_vlan c offset = if not (has_bytes c (offset + vlan_tag_size)) then ok none else do
  tpid ← read_be16 c offset
  if not (is_tag_type tpid)
      then ok none
      else do tci ← read_be16 c (offset + 2); ok (some (record { tpid = tpid; tci = tci }))

-- The end of `decode_impl`: the offset is past the last ethertype.
succeed : DecodeContext → EthernetHeader → Decoded (EthernetHeader × DecodeContext)
succeed c h =
    let next = sub_context h.header_len c in
    ok (h, record next { layer_info = record next.layer_info { ethertype = h.ethertype } })

-- One tag and the ethertype behind it, where `offset` is past the tag's own type.
read_tag : DecodeContext → ℕ → ℕ → Decoded (VlanTag × ℕ)
read_tag c tpid offset = do
  fail_if (not (has_bytes c (offset + 2))) buffer_too_small
  tci ← read_be16 c offset
  fail_if (not (has_bytes c (offset + 2 + 2))) buffer_too_small
  next ← read_be16 c (offset + 2)
  ok (record { tpid = tpid; tci = tci }, next)

-- The tag behind the outer one, if there is one.
decode_inner :
    DecodeContext → List ℕ → List ℕ → VlanTag → ℕ → Decoded (EthernetHeader × DecodeContext)
unfolding succeed read_tag
decode_inner c dst src outer second =
    let header : EthernetHeader = record {
      dst_mac = dst;
      src_mac = src;
      vlan = some outer;
      vlan_inner = none;
      ethertype = second;
      header_len = 18;
    } in
    if not (is_tag_type second) then succeed c header else do
      (inner, third) ← read_tag c second 18
      succeed c (record header { vlan_inner = some inner; ethertype = third; header_len = 22 })

decode_tags : DecodeContext → List ℕ → List ℕ → ℕ → Decoded (EthernetHeader × DecodeContext)
unfolding succeed read_tag decode_inner
decode_tags c dst src ethertype =
    let header : EthernetHeader = record {
      dst_mac = dst;
      src_mac = src;
      vlan = none;
      vlan_inner = none;
      ethertype = ethertype;
      header_len = 14;
    } in
    if not (is_tag_type ethertype)
    then succeed c header
    else do (outer, second) ← read_tag c ethertype 14; decode_inner c dst src outer second

unfoldable pub decode_ethernet : DecodeContext → Decoded (EthernetHeader × DecodeContext)
unfolding decode_tags
decode_ethernet c = do
  fail_if (not (has_bytes c min_frame_size)) buffer_too_small
  dst ← memcpy (read_bytes c 0 6) 6
  src ← memcpy (read_bytes c 6 6) 6
  ethertype ← read_be16 c 12
  decode_tags c dst src ethertype
