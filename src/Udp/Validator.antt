-- ===== src/Udp/Validator.antt =====
-- `UdpChecksumValidator` of src/protocols/udp.cpp. An address is the memory from its pointer on, and
-- so is the datagram; `none` is an access outside it, or a range that ends before it starts.
use wadjet_link.Prelude.{
  ℕ, List, Bool, true, not, ◌&&◌, Option, none, some, leb, ◌==◌, if◌then◌else◌, length, take, drop,
}
use wadjet_link.Bytes.{◌>>=◌, read_be32}
use wadjet_link.Checksum.{transport_checksum}

abbrev pub datagram_at : List ℕ → ℕ → Option (List ℕ)
datagram_at memory n = if leb 8 n && leb n (length memory) then some (take n memory) else none

unfoldable pub calculate_checksum : List ℕ → List ℕ → List ℕ → ℕ → Option ℕ
calculate_checksum src_ip dst_ip udp_data udp_length = do
  src ← read_be32 src_ip 0
  dst ← read_be32 dst_ip 0
  datagram ← datagram_at udp_data udp_length
  some (transport_checksum (take 8 datagram) (drop 8 datagram) src dst 0x11)

unfoldable pub validate_checksum : List ℕ → List ℕ → List ℕ → ℕ → ℕ → Option Bool
validate_checksum src_ip dst_ip udp_data udp_length checksum_field =
    if checksum_field == 0 then some true else do
      calculated ← calculate_checksum src_ip dst_ip udp_data udp_length
      some ((if calculated == 0 then 0xFFFF else calculated) == checksum_field)

unfoldable pub allow_zero_checksum : Bool → Bool
allow_zero_checksum is_ipv6 = not is_ipv6
