-- ===== src/Examples/Views.antt =====
-- The views of a packet at concrete inputs.
use wadjet_link.Prelude.{ℕ, ◌≡◌, ◌≤◌, refl, List, [], ◌∷◌, ◌++◌, none, length, arith}
use wadjet_link.Decoder.{ok}
use wadjet_link.Decoder.Reads.{be16_at}
use wadjet_link.View.{
  ethernet_header, vlan_tag, l3_offset, l4_offset, read_ipv4, ipv4_header, udp_header, tcp_header,
  payload,
}
use wadjet_link.View.Total.{Gives, view-Gives}
use wadjet_link.View.Tags.{ipv4_header_tagged}

abbrev addresses : List ℕ
addresses = 1 ∷ 2 ∷ 3 ∷ 4 ∷ 5 ∷ 6 ∷ 7 ∷ 8 ∷ 9 ∷ 10 ∷ 11 ∷ 12 ∷ []

-- An outer tag, an inner one, and the type IPv4.
abbrev double_tagged : List ℕ
double_tagged =
    addresses ++ 0x88 ∷ 0xa8 ∷ 0x00 ∷ 0x64 ∷ 0x81 ∷ 0x00 ∷ 0x00 ∷ 0xc8 ∷ 0x08 ∷ 0x00 ∷ 0x45 ∷ []

view-Gives_example :
    Gives (ethernet_header double_tagged)
    × (Gives (vlan_tag double_tagged)
        × (Gives (ipv4_header double_tagged)
            × (Gives (udp_header double_tagged)
                × (Gives (tcp_header double_tagged)
                    × (Gives (l3_offset double_tagged)
                        × (Gives (l4_offset double_tagged) × Gives (payload double_tagged)))))))
view-Gives_example = view-Gives double_tagged

ipv4_header_tagged_example :
    (be16_at double_tagged 16 ≡ 0x0800
      → 38 ≤ length double_tagged
      → (l3_offset double_tagged ≡ ok 18)
        × (ipv4_header double_tagged ≡ read_ipv4 double_tagged 18))
    × (be16_at double_tagged 16 ≡ 0x8100
        → (l3_offset double_tagged ≡ ok 22)
          × ((ipv4_header double_tagged ≡ ok none)
              × ((udp_header double_tagged ≡ ok none)
                  × ((tcp_header double_tagged ≡ ok none) × (payload double_tagged ≡ ok [])))))
ipv4_header_tagged_example = ipv4_header_tagged double_tagged (omega arith) refl
