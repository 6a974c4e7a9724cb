-- ===== src/View/Total.antt =====
-- No view of a packet reads outside it.
use wadjet_link.Prelude.{
  ℕ, ◌+◌, ◌/◌, ◌%◌, ◌≤◌, ◌≡◌, refl, List, [], Bool, true, false, not, Option, none, some, ltb, ◌==◌,
  if◌then◌else◌, length, drop, arith, lt→ltb, le→ltb, dec_lt, length-drop, ltb_false→le, leb,
  le→leb,
}
use wadjet_link.Decoder.{Decoded, ok, ◌>>=◌}
use wadjet_link.Decoder.Reads.{u8_at, get_elem?_in, be16_in, be32_in, memcpy_in}
use wadjet_link.View.{
  EthernetView, VlanView, Ipv4View, ethernet_header, has_vlan, vlan_tag, l3_offset, read_ipv4,
  read_ipv4_fields, ipv4_behind, payload_of, check_type, ethertype_ipv4, ipv4_header, l4_offset,
  read_udp, has_protocol, protocol_udp, protocol_tcp, udp_header, read_tcp, tcp_header,
  payload_offset, payload, subspan,
}

-- The operation gives a value.
abbrev pub Gives : {A : Type 0} → Decoded A → Type 0
Gives {A} d = (a : A) × (d ≡ ok a)

if-Gives :
    {A : Type 0} (test : Bool) (x y : Decoded A)
    → (test ≡ true → Gives x)
    → (test ≡ false → Gives y)
    → Gives (if test then x else y)
if-Gives true x y f g = f refl
if-Gives false x y f g = g refl

>>=-Gives :
    {A B : Type 0} (d : Decoded A) (f : A → Decoded B)
    → Gives d
    → ((a : A) → Gives (f a))
    → Gives (d >>= f)
>>=-Gives d f (a, e) g = rw e (g a)

module _ (v : List ℕ) where
  ethernet_header-Gives : Gives (ethernet_header v)
  unfolding ethernet_header
  ethernet_header-Gives =
      if-Gives (ltb (length v) 14) _ _ (λ _. (none, refl))
        (λ h.
          let l = ltb_false→le (length v) 14 h in
          rw
            (
              memcpy_in v 6 (omega arith),
              memcpy_in (drop 6 v) 6 (omega (arith, length-drop 6 v)),
              be16_in v 12 (omega arith),
            )
            (_, refl))

  has_vlan-Gives : Gives (has_vlan v)
  unfolding has_vlan
  has_vlan-Gives =
      if-Gives (ltb (length v) 14) _ _ (λ _. (false, refl))
        (λ h. let l = ltb_false→le (length v) 14 h in rw (be16_in v 12 (omega arith)) (_, refl))

  vlan_tag-Gives : Gives (vlan_tag v)
  unfolding vlan_tag
  vlan_tag-Gives = >>=-Gives (has_vlan v) _ has_vlan-Gives (λ tagged.
      if-Gives (not tagged) _ _ (λ _. (none, refl))
        (λ _.
          if-Gives (ltb (length v) 18) _ _ (λ _. (none, refl))
            (λ h.
              let l = ltb_false→le (length v) 18 h in
              rw
                (be16_in v 12 (omega arith), be16_in v 14 (omega arith), be16_in v 16 (omega arith))
                (_, refl))))

  l3_offset-Gives : Gives (l3_offset v)
  unfolding l3_offset
  l3_offset-Gives = >>=-Gives (has_vlan v) _ has_vlan-Gives (λ tagged.
      if-Gives (not tagged) _ _ (λ _. (14, refl))
        (λ _. elim (dec_lt 20 (length v)) [
          | yes l ↦ rw (lt→ltb 20 (length v) l, be16_in v 16 (omega arith)) (_, refl)
          | no l ↦ rw (le→ltb 20 (length v) (omega arith)) (18, refl)
        ]))

  read_ipv4_fields-Gives : (o b : ℕ) → o + 20 ≤ length v → Gives (read_ipv4_fields v o b)
  unfolding read_ipv4_fields
  read_ipv4_fields-Gives o b l =
      rw
        (
          get_elem?_in v (o + 1) (omega arith),
          be16_in v (o + 2) (omega arith),
          be16_in v (o + 4) (omega arith),
          be16_in v (o + 6) (omega arith),
          get_elem?_in v (o + 8) (omega arith),
          get_elem?_in v (o + 9) (omega arith),
          be16_in v (o + 10) (omega arith),
          memcpy_in (drop (o + 12) v) 4 (omega (arith, length-drop (o + 12) v)),
          memcpy_in (drop (o + 16) v) 4 (omega (arith, length-drop (o + 16) v)),
        )
        (_, refl)

  read_ipv4-Gives : (o : ℕ) → o + 20 ≤ length v → Gives (read_ipv4 v o)
  unfolding read_ipv4
  read_ipv4-Gives o l =
      let b = u8_at v o in
      rw (get_elem?_in v o (omega arith)) (
        if-Gives (not (b / 16 % 16 == 4)) (ok none) (read_ipv4_fields v o b) (λ _. (none, refl))
          (λ _. read_ipv4_fields-Gives o b l))

  ipv4_behind-Gives :
      (o : ℕ) (eth : Option EthernetView) (tag : Option VlanView)
      → o + 20 ≤ length v
      → Gives (ipv4_behind v o eth tag)
  unfolding ipv4_behind
  ipv4_behind-Gives o none tag l = (none, refl)
  ipv4_behind-Gives o (some hdr) tag l =
      if-Gives (check_type hdr tag == ethertype_ipv4) _ _ (λ _. read_ipv4-Gives o l)
        (λ _. (none, refl))

  ipv4_header-Gives : Gives (ipv4_header v)
  unfolding ipv4_header
  ipv4_header-Gives = >>=-Gives (l3_offset v) _ l3_offset-Gives (λ o.
      if-Gives (ltb (length v) (o + 20)) _ _ (λ _. (none, refl))
        (λ h. >>=-Gives (ethernet_header v) _ ethernet_header-Gives (λ eth.
          >>=-Gives (vlan_tag v) _ vlan_tag-Gives
            (λ tag. ipv4_behind-Gives o eth tag (ltb_false→le (length v) (o + 20) h)))))

  l4_offset-Gives : Gives (l4_offset v)
  unfolding l4_offset
  l4_offset-Gives =
      >>=-Gives (ipv4_header v) _ ipv4_header-Gives
        (λ ip. >>=-Gives (l3_offset v) _ l3_offset-Gives (λ o. (_, refl)))

  read_udp-Gives : (o : ℕ) → Gives (read_udp v o)
  unfolding read_udp
  read_udp-Gives o =
      if-Gives (ltb (length v) (o + 8)) _ _ (λ _. (none, refl))
        (λ h.
          let l = ltb_false→le (length v) (o + 8) h in
          rw
            (
              be16_in v o (omega arith),
              be16_in v (o + 2) (omega arith),
              be16_in v (o + 4) (omega arith),
              be16_in v (o + 6) (omega arith),
            )
            (_, refl))

  udp_header-Gives : Gives (udp_header v)
  unfolding udp_header
  udp_header-Gives = >>=-Gives (ipv4_header v) _ ipv4_header-Gives (λ ip.
      if-Gives (not (has_protocol protocol_udp ip)) _ _ (λ _. (none, refl))
        (λ _. >>=-Gives (l4_offset v) _ l4_offset-Gives read_udp-Gives))

  read_tcp-Gives : (o : ℕ) → Gives (read_tcp v o)
  unfolding read_tcp
  read_tcp-Gives o =
      if-Gives (ltb (length v) (o + 20)) _ _ (λ _. (none, refl))
        (λ h.
          let l = ltb_false→le (length v) (o + 20) h in
          rw
            (
              be16_in v o (omega arith),
              be16_in v (o + 2) (omega arith),
              be32_in v (o + 4) (omega arith),
              be32_in v (o + 8) (omega arith),
              be16_in v (o + 12) (omega arith),
              be16_in v (o + 14) (omega arith),
              be16_in v (o + 16) (omega arith),
              be16_in v (o + 18) (omega arith),
            )
            (_, refl))

  tcp_header-Gives : Gives (tcp_header v)
  unfolding tcp_header
  tcp_header-Gives = >>=-Gives (ipv4_header v) _ ipv4_header-Gives (λ ip.
      if-Gives (not (has_protocol protocol_tcp ip)) _ _ (λ _. (none, refl))
        (λ _. >>=-Gives (l4_offset v) _ l4_offset-Gives read_tcp-Gives))

  payload_offset-Gives : (ip : Ipv4View) → Gives (payload_offset v ip)
  unfolding payload_offset
  payload_offset-Gives ip = >>=-Gives (l4_offset v) _ l4_offset-Gives (λ o.
      if-Gives (ip.protocol == protocol_udp) _ _ (λ _. (_, refl))
        (λ _.
          if-Gives (not (ip.protocol == protocol_tcp)) _ _ (λ _. (_, refl))
            (λ _. >>=-Gives (tcp_header v) _ tcp_header-Gives (λ tcp. (_, refl)))))

  subview-Gives : (o : ℕ) → Gives (if leb (length v) o then ok [] else subspan o v)
  unfolding subspan
  subview-Gives o =
      if-Gives (leb (length v) o) _ _ (λ _. ([], refl))
        (λ h. (drop o v, rw (le→leb o (length v) (ground arith)) refl))

  payload_of-Gives : (ip : Option Ipv4View) → Gives (payload_of v ip)
  unfolding payload_of
  payload_of-Gives none = ([], refl)
  payload_of-Gives (some hdr) =
      >>=-Gives (payload_offset v hdr) _ (payload_offset-Gives hdr) subview-Gives

  payload-Gives : Gives (payload v)
  unfolding payload
  payload-Gives = >>=-Gives (ipv4_header v) _ ipv4_header-Gives payload_of-Gives

  -- Every view of a packet gives a value, a header or none, on every packet: nothing is read outside
  -- it, whatever its tags and lengths say.
  pub view-Gives :
      Gives (ethernet_header v)
      × (Gives (vlan_tag v)
          × (Gives (ipv4_header v)
              × (Gives (udp_header v)
                  × (Gives (tcp_header v)
                      × (Gives (l3_offset v) × (Gives (l4_offset v) × Gives (payload v)))))))
  view-Gives = (
    ethernet_header-Gives,
    (
      vlan_tag-Gives,
      (
        ipv4_header-Gives,
        (udp_header-Gives, (tcp_header-Gives, (l3_offset-Gives, (l4_offset-Gives, payload-Gives)))),
      ),
    ),
  )
