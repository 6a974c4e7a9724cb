-- ===== src/Checksum/Laws.antt =====
-- The checksum routines against the one's-complement sum, and against one another.
use wadjet_link.Prelude.{
  ℕ, zero, suc, ◌+◌, ◌-◌, ◌*◌, ◌/◌, ◌%◌, ◌^◌, ◌<◌, ◌≤◌, ◌≡◌, ◌↔◌, ◌≢◌, refl, List, [], ◌∷◌, ◌==◌,
  if◌then◌else◌, length, arith, get_or, Bool-cases, inl, inr,
}
use wadjet_link.Prelude.Order.{lt_wf}
use wadjet_link.Bytes.{be16, IsBytes}
use wadjet_link.Decoder.Reads.{get_or-IsByte}
use mathlib.Core.WellFounded.{Acc}
use wadjet_link.Checksum.{
  fold_loop, fold_carries, add_words, add_words_but, calculate_checksum, ipv4_checksum,
}

-- The one's-complement value of a sum: the representative of it modulo 65535 in 1 to 65535, or 0.
abbrev pub ones_sum : ℕ → ℕ
ones_sum s = if s == 0 then 0 else (s - 1) % 65535 + 1

ones_sum-fold : (s : ℕ) → ones_sum (s % 2 ^ 16 + s / 2 ^ 16) ≡ ones_sum s
ones_sum-fold s = ground arith

fold_loop_lem : (s : ℕ) (w : Acc ◌<◌ s) → fold_loop s w ≡ ones_sum s
unfolding fold_loop
fold_loop_lem s (Acc.intro _ smaller) = grind (
  arith,
  ones_sum-fold s,
  λ (p : s % 2 ^ 16 + s / 2 ^ 16 < s).
      fold_loop_lem (s % 2 ^ 16 + s / 2 ^ 16) (smaller (s % 2 ^ 16 + s / 2 ^ 16) p),
)

pub fold_carries_lem : (s : ℕ) → fold_carries s ≡ ones_sum s
unfolding fold_carries
fold_carries_lem s = fold_loop_lem s (lt_wf.apply s)

-- The words of a buffer added up with nothing lost.
abbrev pub word_sum : List ℕ → ℕ
word_sum [] = 0
word_sum (b0 ∷ []) = be16 b0 0
word_sum (b0 ∷ b1 ∷ rest) = be16 b0 b1 + word_sum rest

pub word_sum-le : (bs : List ℕ) → IsBytes bs → 2 * word_sum bs ≤ 65535 * length bs + 65535
word_sum-le [] h = omega arith
word_sum-le (b0 ∷ []) h = omega arith
word_sum-le (b0 ∷ b1 ∷ bs) h = omega (arith, word_sum-le bs h.1.1)

pub add_words_lem :
    (sum : ℕ) (bs : List ℕ) → sum + word_sum bs < 2 ^ 32 → add_words sum bs ≡ sum + word_sum bs
unfolding add_words
add_words_lem sum [] h = omega arith
add_words_lem sum (b0 ∷ []) h = omega arith
add_words_lem sum (b0 ∷ b1 ∷ bs) h =
    omega (arith, add_words_lem ((sum + be16 b0 b1) % 2 ^ 32) bs (omega arith))

-- The IPv4 header checksum is the complement of the one's-complement sum of the header's 16-bit
-- words, for any header of bytes up to 64 KiB: neither the 32-bit sum nor the folding loop loses a
-- carry.
pub calculate_checksum_lem :
    (header : List ℕ)
    → IsBytes header
    → length header < 2 ^ 16
    → calculate_checksum header ≡ 65535 - ones_sum (word_sum header)
unfolding calculate_checksum
calculate_checksum_lem header h n =
    let e : add_words 0 header ≡ word_sum header =
      omega (arith, add_words_lem 0 header (omega (arith, word_sum-le header h))) in
    rw (e, fold_carries_lem (word_sum header)) (ground arith)

-- The words of a buffer whose first index is `i`, without the one at index 10.
abbrev word_sum_but : ℕ → List ℕ → ℕ
word_sum_but i [] = 0
word_sum_but i (b0 ∷ []) = if i == 10 then 0 else be16 b0 0
word_sum_but i (b0 ∷ b1 ∷ rest) = (if i == 10 then 0 else be16 b0 b1) + word_sum_but (i + 2) rest

word_sum_but-le : (i : ℕ) (bs : List ℕ) → word_sum_but i bs ≤ word_sum bs
word_sum_but-le i [] = omega arith
word_sum_but-le i (b0 ∷ []) = ground arith
word_sum_but-le i (b0 ∷ b1 ∷ bs) = ground (arith, word_sum_but-le (i + 2) bs)

add_words_but_lem :
    (i sum : ℕ) (bs : List ℕ)
    → sum + word_sum_but i bs < 2 ^ 32
    → add_words_but i sum bs ≡ sum + word_sum_but i bs
unfolding add_words_but
add_words_but_lem i sum [] h = omega arith
add_words_but_lem i sum (b0 ∷ []) h = ground arith
add_words_but_lem i sum (b0 ∷ b1 ∷ bs) h = elim (Bool-cases (i == 10)) [
  | inl e ↦ rw e (ground (arith, add_words_but_lem (i + 2) sum bs))
  | inr e ↦ rw e (ground (arith, add_words_but_lem (i + 2) ((sum + be16 b0 b1) % 2 ^ 32) bs))
]

word_sum_but_above : (i : ℕ) (bs : List ℕ) → 10 < i → word_sum_but i bs ≡ word_sum bs
word_sum_but_above i [] h = refl
word_sum_but_above i (b0 ∷ []) h = ground arith
word_sum_but_above i (b0 ∷ b1 ∷ bs) h = ground (arith, word_sum_but_above (i + 2) bs)

word_sum_split :
    (i k : ℕ) (bs : List ℕ)
    → i + k ≡ 10
    → k % 2 ≡ 0
    → k + 2 ≤ length bs
    → word_sum bs ≡ word_sum_but i bs + be16 (get_or bs k 0) (get_or bs (k + 1) 0)
word_sum_split i k [] e p h = absurd (omega arith)
word_sum_split i k (b0 ∷ []) e p h = absurd (omega arith)
word_sum_split i zero (b0 ∷ b1 ∷ bs) e p h = ground (arith, word_sum_but_above (i + 2) bs)
word_sum_split i (suc zero) (b0 ∷ b1 ∷ bs) e p h = absurd (omega arith)
word_sum_split i (suc (suc k)) (b0 ∷ b1 ∷ bs) e p h = ground (arith, word_sum_split (i + 2) k bs)

-- The checksum field of a header: bytes 10 and 11.
abbrev pub stored_checksum : List ℕ → ℕ
stored_checksum h = be16 (get_or h 10 0) (get_or h 11 0)

word_sum_but_pos : (h : List ℕ) → 12 ≤ length h → 0 < get_or h 0 0 → 0 < word_sum_but 0 h
word_sum_but_pos [] n p = omega arith
word_sum_but_pos (b0 ∷ []) n p = omega arith
word_sum_but_pos (b0 ∷ b1 ∷ bs) n p = omega arith

ipv4_checksum_lem :
    (h : List ℕ)
    → IsBytes h
    → length h < 2 ^ 16
    → ipv4_checksum h ≡ 65535 - ones_sum (word_sum_but 0 h)
unfolding ipv4_checksum
ipv4_checksum_lem h b n =
    let e : add_words_but 0 0 h ≡ word_sum_but 0 h =
      omega
        (arith, add_words_but_lem 0 0 h (omega (arith, word_sum-le h b, word_sum_but-le 0 h))) in
    rw (e, fold_carries_lem (word_sum_but 0 h)) (ground arith)

-- The two checksum routines agree: the receiver's sum over a whole header is 0 exactly when the
-- stored field is the checksum that the sender's routine computes. The header starts with a byte
-- that is not 0, as its version and length do, and the field is not 0xFFFF, the second form of 0.
pub calculate_checksum-zero_iff :
    (h : List ℕ)
    → IsBytes h
    → 12 ≤ length h
    → length h < 2 ^ 16
    → 0 < get_or h 0 0
    → stored_checksum h ≢ 65535
    → (calculate_checksum h ≡ 0) ↔ (stored_checksum h ≡ ipv4_checksum h)
calculate_checksum-zero_iff h b n m v f =
    rw (calculate_checksum_lem h b m, ipv4_checksum_lem h b m)
      (zero_iff (word_sum h) (word_sum_but 0 h) (stored_checksum h)
        (word_sum_split 0 10 h refl refl n) (word_sum_but_pos h n v)
        (omega (arith, get_or-IsByte h 10 b, get_or-IsByte h 11 b)))
  where
    zero_iff :
        (whole rest c : ℕ)
        → whole ≡ rest + c
        → 0 < rest
        → c < 65535
        → (65535 - ones_sum whole ≡ 0) ↔ (c ≡ 65535 - ones_sum rest)
    zero_iff whole rest c e p q = ground arith
