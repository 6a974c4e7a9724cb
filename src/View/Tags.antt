-- ===== src/View/Tags.antt =====
-- What the views make of frames with VLAN tags.
use wadjet_link.Prelude.{
  ℕ, ◌≤◌, ◌<◌, ◌≡◌, ◌∙◌, refl, List, [], true, none, some, ◌==◌, if◌then◌else◌, length, drop, arith,
  lt→ltb, le→ltb, dec_lt, length-drop,
}
use wadjet_link.Decoder.{ok}
use wadjet_link.Decoder.Reads.{be16_at, be16_in, memcpy_in}
use wadjet_link.Ethernet.{is_tag_type}
use wadjet_link.View.{
  EthernetView, VlanView, ethernet_header, has_vlan, vlan_tag, l3_offset, read_ipv4, ipv4_behind,
  ipv4_header, udp_header, tcp_header, payload, payload_of,
}

module _ (v : List ℕ) (long : 20 < length v) (tagged : is_tag_type (be16_at v 12) ≡ true) where
  has_vlan_lem : has_vlan v ≡ ok true
  unfolding has_vlan
  has_vlan_lem = rw (le→ltb (length v) 14 (omega arith), be16_in v 12 (omega arith), tagged) refl

  l3_offset_lem : l3_offset v ≡ ok (if be16_at v 16 == 0x8100 then 22 else 18)
  unfolding l3_offset
  l3_offset_lem = rw (has_vlan_lem, lt→ltb 20 (length v) long, be16_in v 16 (omega arith)) refl

  vlan_tag_lem : (tag : VlanView) × ((vlan_tag v ≡ ok (some tag)) × (tag.ether_type ≡ be16_at v 16))
  unfolding vlan_tag
  vlan_tag_lem =
      rw
        (
          has_vlan_lem,
          le→ltb (length v) 18 (omega arith),
          be16_in v 12 (omega arith),
          be16_in v 14 (omega arith),
          be16_in v 16 (omega arith),
        )
        (_, (refl, refl))

  ethernet_header_lem : (hdr : EthernetView) × (ethernet_header v ≡ ok (some hdr))
  unfolding ethernet_header
  ethernet_header_lem =
      rw
        (
          le→ltb (length v) 14 (omega arith),
          memcpy_in v 6 (omega arith),
          memcpy_in (drop 6 v) 6 (omega (arith, length-drop 6 v)),
          be16_in v 12 (omega arith),
        )
        (_, refl)

  ipv4_header_single :
      be16_at v 16 ≡ 0x0800
      → 38 ≤ length v
      → (l3_offset v ≡ ok 18) × (ipv4_header v ≡ read_ipv4 v 18)
  unfolding ipv4_header ipv4_behind
  ipv4_header_single t l =
      let at : l3_offset v ≡ ok 18 = rw (l3_offset_lem, t) refl in
      let (hdr, e) = ethernet_header_lem in
      let (tag, (f, q)) = vlan_tag_lem in
      let type : tag.ether_type ≡ 0x0800 = q ∙ t in
      (at, rw (at, le→ltb (length v) 38 l, e, f, type) refl)

  ipv4_header_double : be16_at v 16 ≡ 0x8100 → (l3_offset v ≡ ok 22) × (ipv4_header v ≡ ok none)
  unfolding ipv4_header ipv4_behind
  ipv4_header_double t =
      let at : l3_offset v ≡ ok 22 = rw (l3_offset_lem, t) refl in
      let (hdr, e) = ethernet_header_lem in
      let (tag, (f, q)) = vlan_tag_lem in
      let type : tag.ether_type ≡ 0x8100 = q ∙ t in
      (
        at,
        elim (dec_lt (length v) 42) [
          | yes short ↦ rw (at, lt→ltb (length v) 42 short) refl
          | no enough ↦ rw (at, le→ltb (length v) 42 (omega arith), e, f, type) refl
        ],
      )

  -- A frame of more than 20 bytes whose type is that of a VLAN tag. Where the tag announces IPv4 and
  -- 20 bytes follow it, the network header is at 18 and is read as IPv4. Where the tag announces a
  -- second 802.1Q tag, the network header is at 22, but there is no IPv4 header, whatever the frame
  -- carries, and with it no UDP or TCP header and no payload.
  pub ipv4_header_tagged :
      (be16_at v 16 ≡ 0x0800
        → 38 ≤ length v
        → (l3_offset v ≡ ok 18) × (ipv4_header v ≡ read_ipv4 v 18))
      × (be16_at v 16 ≡ 0x8100
          → (l3_offset v ≡ ok 22)
            × ((ipv4_header v ≡ ok none)
                × ((udp_header v ≡ ok none) × ((tcp_header v ≡ ok none) × (payload v ≡ ok [])))))
  unfolding udp_header tcp_header payload payload_of
  ipv4_header_tagged = (
    ipv4_header_single,
    λ t.
        let (at, nothing) = ipv4_header_double t in
        (at, (nothing, (rw nothing refl, (rw nothing refl, rw nothing refl)))),
  )
