-- ===== src/Checksum.antt =====
-- src/protocols/common/checksum.cpp and `IPv4Decoder::calculate_checksum` of src/protocols/ipv4.cpp:
-- the Internet checksum of RFC 1071. `sum` is a uint32_t, and wraps.
pub mod Laws
use wadjet_link.Prelude.{
  ℕ, zero, suc, ◌+◌, ◌-◌, ◌*◌, ◌/◌, ◌%◌, ◌^◌, ◌<◌, List, [], ◌∷◌, Bool, ◌==◌, if◌then◌else◌, length,
  arith,
}
use wadjet_link.Prelude.Order.{lt_wf}
use wadjet_link.Bytes.{be16}
use mathlib.Core.Logic.{dite}
use mathlib.Core.WellFounded.{Acc}
use native.Mathlib.Decide.{dec_lt}

-- `while (sum >> 16) sum = (sum & 0xFFFF) + (sum >> 16);`, which makes `sum` smaller each time.
fold_loop : (s : ℕ) → Acc ◌<◌ s → ℕ
fold_loop s (Acc.intro _ smaller) =
    dite (dec_lt 0 (s / 2 ^ 16))
      (λ h. fold_loop (s % 2 ^ 16 + s / 2 ^ 16) (smaller (s % 2 ^ 16 + s / 2 ^ 16) (omega arith)))
      (λ _. s)

unfoldable pub fold_carries : ℕ → ℕ
unfolding fold_loop lt_wf dec_lt
fold_carries s = fold_loop s (lt_wf.apply s)

-- `~static_cast<uint16_t>(sum)`, on a sum that is folded.
abbrev pub complement16 : ℕ → ℕ
complement16 s = (2 ^ 16 - 1 - s) % 2 ^ 16

-- The words of a buffer added to `sum`; an odd last byte is the high half of a word.
unfoldable pub add_words : ℕ → List ℕ → ℕ
add_words sum [] = sum
add_words sum (b0 ∷ []) = (sum + b0 * 2 ^ 8) % 2 ^ 32
add_words sum (b0 ∷ b1 ∷ rest) = add_words ((sum + be16 b0 b1) % 2 ^ 32) rest

-- `IPv4Decoder::calculate_checksum`
unfoldable pub calculate_checksum : List ℕ → ℕ
calculate_checksum header = complement16 (fold_carries (add_words 0 header))

-- The loop of `Checksum::ipv4_checksum`, from index `i` on: the word at index 10 is skipped.
unfoldable pub add_words_but : ℕ → ℕ → List ℕ → ℕ
add_words_but i sum [] = sum
add_words_but i sum (b0 ∷ []) = if i == 10 then sum else (sum + b0 * 2 ^ 8) % 2 ^ 32
add_words_but i sum (b0 ∷ b1 ∷ rest) =
    add_words_but (i + 2) (if i == 10 then sum else (sum + be16 b0 b1) % 2 ^ 32) rest

unfoldable pub ipv4_checksum : List ℕ → ℕ
ipv4_checksum header = complement16 (fold_carries (add_words_but 0 0 header))

-- The pseudo-header of RFC 793: both addresses, the protocol and the length as a uint16_t.
unfoldable pub pseudo_sum : ℕ → ℕ → ℕ → ℕ → ℕ
pseudo_sum src_ip dst_ip protocol length =
    src_ip / 2 ^ 16 % 2 ^ 16
    + src_ip % 2 ^ 16
    + dst_ip / 2 ^ 16 % 2 ^ 16
    + dst_ip % 2 ^ 16
    + protocol
    + length % 2 ^ 16

unfoldable pub transport_checksum : List ℕ → List ℕ → ℕ → ℕ → ℕ → ℕ
transport_checksum header payload src_ip dst_ip protocol =
    let start = pseudo_sum src_ip dst_ip protocol (length header + length payload) in
    complement16 (fold_carries (add_words (add_words start header) payload))
