-- ===== src/Udp/Validation.antt =====
-- The checksum validator against the receiver's sum of RFC 768.
use wadjet_link.Prelude.{
  ℕ, ◌+◌, ◌-◌, ◌^◌, ◌≤◌, ◌<◌, ◌≡◌, ◌≢◌, ◌↔◌, refl, List, ◌∷◌, true, false, some, ◌==◌,
  if◌then◌else◌, length, arith, take, drop, take_all, ne→==, le→leb,
}
use wadjet_link.Bytes.{be16, IsByte, IsBytes}
use wadjet_link.Decoder.Reads.{be32_at, be32_in}
use wadjet_link.Checksum.{pseudo_sum, transport_checksum, add_words}
use wadjet_link.Checksum.Laws.{ones_sum, word_sum, word_sum-le, fold_carries_lem, add_words_lem}
use wadjet_link.Udp.Validator.{calculate_checksum, validate_checksum}

word_sum_split8 :
    (d : List ℕ) → 8 ≤ length d → word_sum (take 8 d) + word_sum (drop 8 d) ≡ word_sum d
word_sum_split8 (a ∷ b ∷ c ∷ e ∷ f ∷ g ∷ h ∷ i ∷ d) n = omega arith
word_sum_split8 _ n = absurd (omega arith)

length_split8 : (d : List ℕ) → 8 ≤ length d → length (take 8 d) + length (drop 8 d) ≡ length d
length_split8 (a ∷ b ∷ c ∷ e ∷ f ∷ g ∷ h ∷ i ∷ d) n = omega arith
length_split8 _ n = absurd (omega arith)

pseudo_sum-lt : (src dst n : ℕ) → pseudo_sum src dst 17 n < 400000
unfolding pseudo_sum
pseudo_sum-lt src dst n = omega arith

-- What a receiver adds up: the pseudo-header and all words of the datagram.
abbrev pub received_sum : List ℕ → List ℕ → List ℕ → ℕ
received_sum src dst d = pseudo_sum (be32_at src 0) (be32_at dst 0) 17 (length d) + word_sum d

transport_checksum_lem :
    (src dst : ℕ) (d : List ℕ)
    → IsBytes d
    → 8 ≤ length d
    → length d < 65536
    → transport_checksum (take 8 d) (drop 8 d) src dst 17
      ≡ 65535 - ones_sum (pseudo_sum src dst 17 (length d) + word_sum d)
unfolding transport_checksum
transport_checksum_lem src dst d b n m =
    let start = pseudo_sum src dst 17 (length d) in
    let small : start + word_sum d < 2 ^ 32 =
      omega (arith, pseudo_sum-lt src dst (length d), word_sum-le d b) in
    let whole = word_sum_split8 d n in
    let e : add_words (start) (take 8 d) ≡ start + word_sum (take 8 d) =
      add_words_lem start (take 8 d) (omega arith) in
    let f : add_words (start + word_sum (take 8 d)) (drop 8 d) ≡ start + word_sum d =
      omega (arith, add_words_lem (start + word_sum (take 8 d)) (drop 8 d) (omega arith)) in
    rw (length_split8 d n, e, f, fold_carries_lem (start + word_sum d)) (ground arith)

module _ (src dst d : List ℕ) where
  -- The addresses have four bytes, and the memory is a datagram of 8 bytes to 64 KiB.
  pub record IsDatagram : Type 0 where
    pub src_long : 4 ≤ length src
    pub dst_long : 4 ≤ length dst
    pub all_bytes : IsBytes d
    pub long : 8 ≤ length d
    pub short : length d < 65536

  calculate_checksum_lem :
      IsDatagram
      → calculate_checksum src dst d (length d) ≡ some (65535 - ones_sum (received_sum src dst d))
  unfolding calculate_checksum
  calculate_checksum_lem h =
      rw
        (
          be32_in src 0 h.src_long,
          be32_in dst 0 h.dst_long,
          le→leb 8 (length d) h.long,
          le→leb (length d) (length d) (omega arith),
          take_all (length d) d (omega arith),
          transport_checksum_lem (be32_at src 0) (be32_at dst 0) d h.all_bytes h.long h.short,
        )
        refl

  -- The value that a sender puts in the field: 0 is sent as 0xFFFF.
  abbrev wire_checksum : ℕ
  wire_checksum =
      if 65535 - ones_sum (received_sum src dst d) == 0
      then 65535
      else 65535 - ones_sum (received_sum src dst d)

  pub validate_checksum_lem :
      IsDatagram
      → (field : ℕ) → 0 < field
      → validate_checksum src dst d (length d) field ≡ some (wire_checksum == field)
  unfolding validate_checksum
  validate_checksum_lem h field p = rw (ne→== field 0 (omega arith), calculate_checksum_lem h) refl

  -- A datagram whose field is in place and correct, so that its sum is all ones as RFC 768 asks of a
  -- receiver, is rejected by the validator whenever that field is neither 0 nor 0xFFFF: the sum must
  -- be given with the field cleared.
  pub validate_checksum-in_place :
      IsDatagram
      → (field : ℕ) → 0 < field
      → field ≢ 65535
      → ones_sum (received_sum src dst d) ≡ 65535
      → validate_checksum src dst d (length d) field ≡ some false
  validate_checksum-in_place h field p q e = rw (validate_checksum_lem h field p, e) (ground arith)

-- A datagram of which the field holds `hi` and `lo`.
abbrev pub with_field : ℕ → ℕ → ℕ → ℕ → ℕ → ℕ → List ℕ → ℕ → ℕ → List ℕ
with_field a b c d e f rest hi lo = a ∷ b ∷ c ∷ d ∷ e ∷ f ∷ hi ∷ lo ∷ rest

some_iff : (a b : ℕ) → (some (a == b) ≡ some true) ↔ (a ≡ b)
some_iff a b = ground arith

-- Over a datagram with its field cleared the validator accepts a field other than 0 exactly when the
-- datagram with that field in place is correct for a receiver: its one's-complement sum with the
-- pseudo-header is all ones.
pub validate_checksum-cleared_iff :
    (src dst : List ℕ) (a b c d e f : ℕ) (rest : List ℕ) (hi lo : ℕ)
    → IsDatagram src dst (with_field a b c d e f rest 0 0)
    → IsByte hi
    → IsByte lo
    → 0 < be16 hi lo
    → (validate_checksum src dst
          (with_field a b c d e f rest 0 0)
          (length (with_field a b c d e f rest 0 0))
          (be16 hi lo)
        ≡ some true)
      ↔ (ones_sum (received_sum src dst (with_field a b c d e f rest hi lo)) ≡ 65535)
unfolding pseudo_sum
validate_checksum-cleared_iff src dst a b c d e f rest hi lo h p q n =
    let cleared = received_sum src dst (with_field a b c d e f rest 0 0) in
    let whole : received_sum src dst (with_field a b c d e f rest hi lo) ≡ cleared + be16 hi lo =
      omega arith in
    rw (validate_checksum_lem src dst (with_field a b c d e f rest 0 0) h (be16 hi lo) n, whole)
      (accept_iff cleared (be16 hi lo) (omega arith) n (omega arith))
  where
    accept_iff :
        (s field : ℕ)
        → 0 < s
        → 0 < field
        → field < 65536
        → (some ((if 65535 - ones_sum s == 0 then 65535 else 65535 - ones_sum s) == field)
            ≡ some true)
          ↔ (ones_sum (s + field) ≡ 65535)
    accept_iff s field p q r = ground arith
