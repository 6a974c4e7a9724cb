-- ===== src/View.antt =====
-- `PacketView` of src/net/packet_view.cpp, on the bytes of the packet; a sub-view keeps its
-- timestamp, which nothing else reads. `ok none` is `std::nullopt`, and a read that leaves the packet
-- is a fault. An address is its bytes.
pub mod Total
pub mod Tags
use wadjet_link.Prelude.{
  ℕ, ◌+◌, ◌-◌, ◌*◌, ◌/◌, ◌%◌, ◌^◌, List, [], Bool, true, false, not, ◌||◌, ◌&&◌, Option, none, some,
  ltb, leb, ◌==◌, if◌then◌else◌, min, length, take, drop,
}
use wadjet_link.Bytes.{get_elem?, read_be16, read_be32}
use wadjet_link.Decoder.{Decoded, ok, err, fault, ◌>>=◌, or_fault, memcpy}
use wadjet_link.Ethernet.{ethertype_vlan, is_tag_type}

abbrev pub ethertype_ipv4 : ℕ
ethertype_ipv4 = 0x0800

abbrev pub protocol_tcp : ℕ
protocol_tcp = 6

abbrev pub protocol_udp : ℕ
protocol_udp = 17

pub record EthernetView : Type 0 where
  pub dst : List ℕ
  pub src : List ℕ
  pub ether_type : ℕ

unfoldable pub ethernet_header : List ℕ → Decoded (Option EthernetView)
ethernet_header v = if ltb (length v) 14 then ok none else do
  dst ← memcpy v 6
  src ← memcpy (drop 6 v) 6
  ether_type ← or_fault (read_be16 v 12)
  ok (some (record { dst = dst; src = src; ether_type = ether_type }))

unfoldable pub has_vlan : List ℕ → Decoded Bool
has_vlan v =
    if ltb (length v) 14
    then ok false
    else do ether_type ← or_fault (read_be16 v 12); ok (is_tag_type ether_type)

pub record VlanView : Type 0 where
  pub tci : ℕ
  pub priority : ℕ
  pub dei : Bool
  pub vlan_id : ℕ
  pub ether_type : ℕ

-- The tag control information is read twice, at 12 and at 14, and the second read counts.
unfoldable pub vlan_tag : List ℕ → Decoded (Option VlanView)
vlan_tag v = do
  tagged ← has_vlan v
  if not tagged then ok none else if ltb (length v) 18 then ok none else do
    at_type ← or_fault (read_be16 v 12)
    tci ← or_fault (read_be16 v 14)
    ether_type ← or_fault (read_be16 v 16)
    ok (
        some (record {
          tci = tci;
          priority = tci / 2 ^ 13 % 8;
          dei = not (tci / 2 ^ 12 % 2 == 0);
          vlan_id = tci % 2 ^ 12;
          ether_type = ether_type;
        }))

unfoldable pub l3_offset : List ℕ → Decoded ℕ
l3_offset v = do
  tagged ← has_vlan v
  if not tagged then ok 14 else if not (ltb 20 (length v)) then ok 18 else do
    inner_type ← or_fault (read_be16 v 16)
    ok (if inner_type == ethertype_vlan then 22 else 18)

pub record Ipv4View : Type 0 where
  pub version : ℕ
  pub ihl : ℕ
  pub dscp : ℕ
  pub ecn : ℕ
  pub total_length : ℕ
  pub identification : ℕ
  pub dont_fragment : Bool
  pub more_fragments : Bool
  pub fragment_offset : ℕ
  pub ttl : ℕ
  pub protocol : ℕ
  pub checksum : ℕ
  pub src : List ℕ
  pub dst : List ℕ

-- The part of `ipv4_header` from the pointer on: the fields behind the version, and the check of it.
unfoldable pub read_ipv4_fields : List ℕ → ℕ → ℕ → Decoded (Option Ipv4View)
read_ipv4_fields v o version_ihl = do
  dscp_ecn ← or_fault (get_elem? v (o + 1))
  total_length ← or_fault (read_be16 v (o + 2))
  identification ← or_fault (read_be16 v (o + 4))
  flags_fragment ← or_fault (read_be16 v (o + 6))
  ttl ← or_fault (get_elem? v (o + 8))
  protocol ← or_fault (get_elem? v (o + 9))
  checksum ← or_fault (read_be16 v (o + 10))
  src ← memcpy (drop (o + 12) v) 4
  dst ← memcpy (drop (o + 16) v) 4
  ok (
      some (record {
        version = version_ihl / 16 % 16;
        ihl = version_ihl % 16;
        dscp = dscp_ecn / 4 % 64;
        ecn = dscp_ecn % 4;
        total_length = total_length;
        identification = identification;
        dont_fragment = not (flags_fragment / 2 ^ 14 % 2 == 0);
        more_fragments = not (flags_fragment / 2 ^ 13 % 2 == 0);
        fragment_offset = flags_fragment % 2 ^ 13;
        ttl = ttl;
        protocol = protocol;
        checksum = checksum;
        src = src;
        dst = dst;
      }))

unfoldable pub read_ipv4 : List ℕ → ℕ → Decoded (Option Ipv4View)
read_ipv4 v o = do
  version_ihl ← or_fault (get_elem? v o)
  if not (version_ihl / 16 % 16 == 4) then ok none else read_ipv4_fields v o version_ihl

-- The type behind the tag, if there is one that can be read.
abbrev pub check_type : EthernetView → Option VlanView → ℕ
check_type eth none = eth.ether_type
check_type eth (some tag) = tag.ether_type

unfoldable pub ipv4_behind :
    List ℕ → ℕ → Option EthernetView → Option VlanView → Decoded (Option Ipv4View)
ipv4_behind v offset none tag = ok none
ipv4_behind v offset (some hdr) tag =
    if check_type hdr tag == ethertype_ipv4 then read_ipv4 v offset else ok none

unfoldable pub ipv4_header : List ℕ → Decoded (Option Ipv4View)
ipv4_header v = do
  offset ← l3_offset v
  if ltb (length v) (offset + 20)
      then ok none
      else do eth ← ethernet_header v; tag ← vlan_tag v; ipv4_behind v offset eth tag

unfoldable pub l4_offset : List ℕ → Decoded ℕ
l4_offset v = do
  ip ← ipv4_header v
  offset ← l3_offset v
  ok (elim ip [ none ↦ offset | some hdr ↦ offset + hdr.ihl * 4 ])

pub record UdpView : Type 0 where
  pub src_port : ℕ
  pub dst_port : ℕ
  pub length : ℕ
  pub checksum : ℕ

unfoldable pub read_udp : List ℕ → ℕ → Decoded (Option UdpView)
read_udp v o = if ltb (length v) (o + 8) then ok none else do
  src_port ← or_fault (read_be16 v o)
  dst_port ← or_fault (read_be16 v (o + 2))
  len ← or_fault (read_be16 v (o + 4))
  checksum ← or_fault (read_be16 v (o + 6))
  ok (some (record { src_port = src_port; dst_port = dst_port; length = len; checksum = checksum }))

abbrev pub has_protocol : ℕ → Option Ipv4View → Bool
has_protocol p none = false
has_protocol p (some hdr) = hdr.protocol == p

unfoldable pub udp_header : List ℕ → Decoded (Option UdpView)
udp_header v = do
  ip ← ipv4_header v
  if not (has_protocol protocol_udp ip) then ok none else do offset ← l4_offset v; read_udp v offset

pub record TcpView : Type 0 where
  pub src_port : ℕ
  pub dst_port : ℕ
  pub seq_num : ℕ
  pub ack_num : ℕ
  pub data_offset : ℕ
  pub flags : ℕ
  pub window : ℕ
  pub checksum : ℕ
  pub urgent_ptr : ℕ

unfoldable pub read_tcp : List ℕ → ℕ → Decoded (Option TcpView)
read_tcp v o = if ltb (length v) (o + 20) then ok none else do
  src_port ← or_fault (read_be16 v o)
  dst_port ← or_fault (read_be16 v (o + 2))
  seq_num ← or_fault (read_be32 v (o + 4))
  ack_num ← or_fault (read_be32 v (o + 8))
  data_offset_flags ← or_fault (read_be16 v (o + 12))
  window ← or_fault (read_be16 v (o + 14))
  checksum ← or_fault (read_be16 v (o + 16))
  urgent_ptr ← or_fault (read_be16 v (o + 18))
  ok (
      some (record {
        src_port = src_port;
        dst_port = dst_port;
        seq_num = seq_num;
        ack_num = ack_num;
        data_offset = data_offset_flags / 2 ^ 12 % 16;
        flags = data_offset_flags % 64;
        window = window;
        checksum = checksum;
        urgent_ptr = urgent_ptr;
      }))

unfoldable pub tcp_header : List ℕ → Decoded (Option TcpView)
tcp_header v = do
  ip ← ipv4_header v
  if not (has_protocol protocol_tcp ip) then ok none else do offset ← l4_offset v; read_tcp v offset

unfoldable pub payload_offset : List ℕ → Ipv4View → Decoded ℕ
payload_offset v ip = do
  offset ← l4_offset v
  if ip.protocol == protocol_udp
      then ok (offset + 8)
      else if not (ip.protocol == protocol_tcp)
      then ok offset
      else do
        tcp ← tcp_header v
        ok (elim tcp [ none ↦ offset | some hdr ↦ offset + hdr.data_offset * 4 ])

-- `data_.subspan(offset)`, which is not defined behind the end.
unfoldable pub subspan : ℕ → List ℕ → Decoded (List ℕ)
subspan offset v = if leb offset (length v) then ok (drop offset v) else fault

unfoldable pub payload_of : List ℕ → Option Ipv4View → Decoded (List ℕ)
payload_of v none = ok []
payload_of v (some hdr) = do
  offset ← payload_offset v hdr
  if leb (length v) offset then ok [] else subspan offset v

unfoldable pub payload : List ℕ → Decoded (List ℕ)
payload v = do ip ← ipv4_header v; payload_of v ip

unfoldable pub subview : ℕ → List ℕ → Decoded (List ℕ)
subview offset v = if leb (length v) offset then ok [] else subspan offset v

-- `data_.subspan(offset, actual_length)`
unfoldable pub subspan_of : ℕ → ℕ → List ℕ → Decoded (List ℕ)
subspan_of offset len v =
    if leb (offset + len) (length v) then ok (take len (drop offset v)) else fault

unfoldable pub subview_of : ℕ → ℕ → List ℕ → Decoded (List ℕ)
subview_of offset len v =
    if leb (length v) offset then ok [] else subspan_of offset (min len (length v - offset)) v
