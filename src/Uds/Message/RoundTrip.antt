-- ===== src/Uds/Message/RoundTrip.antt =====
-- Identifiers and memory ranges: what the loops of the parsers read, and that a written list of
-- identifiers is read back.
use wadjet_link.Prelude.{
  ℕ, zero, suc, ◌+◌, ◌*◌, ◌/◌, ◌%◌, ◌^◌, ◌≤◌, ◌<◌, ◌≡◌, refl, List, [], ◌∷◌, ◌++◌, some, ltb, All,
  length, take, drop, arith, ltb→lt, ltb_false→le, Bool-cases, inl, inr,
}
use wadjet_link.Bytes.{be16, IsBytes, ◌>>=◌}
use wadjet_link.Decoder.Reads.{get_elem?_in, be16_in, be16_at, u8_at, get_or-IsByte}
use wadjet_link.Uds.Types.{read_digits, read_be_var}
use wadjet_link.Uds.Requests.{read_identifiers}

-- Big-endian digits behind the number `acc`.
abbrev pub be_value : ℕ → List ℕ → ℕ
be_value acc [] = acc
be_value acc (d ∷ ds) = be_value (acc * 256 + d) ds

take-drop :
    (bs : List ℕ) (i n : ℕ)
    → i < length bs
    → take (suc n) (drop i bs) ≡ u8_at bs i ∷ take n (drop (suc i) bs)
take-drop [] i n h = elim h [ ]
take-drop (x ∷ bs) zero n h = refl
take-drop (x ∷ bs) (suc i) n h = take-drop bs i n (omega arith)

shift_in : (acc b : ℕ) → b < 256 → acc % 2 ^ 64 * 2 ^ 8 % 2 ^ 64 + b ≡ (acc * 256 + b) % 2 ^ 64
shift_in acc b h = omega arith

-- The digits read are the number written there, less what the 64 bits do not hold.
read_digits_lem :
    (len : ℕ) (bs : List ℕ) (i acc : ℕ)
    → IsBytes bs
    → i + len ≤ length bs
    → read_digits len bs i (acc % 2 ^ 64) ≡ some (be_value acc (take len (drop i bs)) % 2 ^ 64)
unfolding read_digits
read_digits_lem zero bs i acc b h = refl
read_digits_lem (suc len) bs i acc b h =
    let byte : u8_at bs i < 256 = get_or-IsByte bs i b in
    let next : i + 1 ≡ suc i = omega arith in
    let rest = read_digits_lem len bs (suc i) (acc * 256 + u8_at bs i) b (omega arith) in
    rw
      (
        read_digits,
        get_elem?_in bs i (omega arith),
        ◌>>=◌,
        shift_in acc (u8_at bs i) byte,
        next,
        take-drop bs i len (omega arith),
      )
      rest

pub read_be_var_lem :
    (bs : List ℕ) (o len : ℕ)
    → IsBytes bs
    → o + len ≤ length bs
    → read_be_var bs o len ≡ some (be_value 0 (take len (drop o bs)) % 2 ^ 64)
read_be_var_lem bs o len b h = read_digits_lem len bs o 0 b h

-- The pairs of bytes as numbers; a byte left over is dropped.
abbrev pub pairs : List ℕ → List ℕ
pairs [] = []
pairs (a ∷ []) = []
pairs (a ∷ b ∷ bs) = be16 a b ∷ pairs bs

pairs-drop :
    (bs : List ℕ) (i : ℕ)
    → i + 1 < length bs
    → pairs (drop i bs) ≡ be16_at bs i ∷ pairs (drop (i + 2) bs)
pairs-drop [] i h = absurd (omega arith)
pairs-drop (x ∷ []) zero h = absurd (omega arith)
pairs-drop (x ∷ y ∷ bs) zero h = refl
pairs-drop (x ∷ bs) (suc i) h =
    let one : suc i + 1 ≡ suc (i + 1) = omega arith in
    let two : suc i + 2 ≡ suc (i + 2) = omega arith in rw (one, two) (pairs-drop bs i (omega arith))

pairs-drop_end : (bs : List ℕ) (i : ℕ) → length bs ≤ i + 1 → pairs (drop i bs) ≡ []
pairs-drop_end [] zero h = refl
pairs-drop_end [] (suc i) h = refl
pairs-drop_end (x ∷ []) zero h = refl
pairs-drop_end (x ∷ y ∷ bs) zero h = absurd (omega arith)
pairs-drop_end (x ∷ bs) (suc i) h = pairs-drop_end bs i (omega arith)

-- The fuel is enough where it reaches the end.
pub read_identifiers_lem :
    (fuel : ℕ) (bs : List ℕ) (i : ℕ)
    → length bs ≤ fuel + i
    → read_identifiers fuel bs i ≡ some (pairs (drop i bs))
unfolding read_identifiers
read_identifiers_lem zero bs i h = rw (pairs-drop_end bs i (omega arith)) refl
read_identifiers_lem (suc fuel) bs i h = elim (Bool-cases (ltb (i + 1) (length bs))) [
  | inl e ↦
      let inside : i + 1 < length bs = ltb→lt _ _ e in
      rw
        (
          read_identifiers,
          e,
          be16_in bs i (omega arith),
          ◌>>=◌,
          read_identifiers_lem fuel bs (i + 2) (omega arith),
          pairs-drop bs i inside,
        )
        refl
  | inr e ↦
      let over = pairs-drop_end bs i (ltb_false→le _ _ e) in rw (read_identifiers, e, over) refl
]

abbrev pub bytes_of : List ℕ → List ℕ
bytes_of [] = []
bytes_of (did ∷ dids) = did / 2 ^ 8 % 256 ∷ did % 256 ∷ bytes_of dids

pub pairs-bytes_of :
    (dids tail : List ℕ)
    → All (λ did. did < 2 ^ 16) dids
    → length tail ≤ 1
    → pairs (bytes_of dids ++ tail) ≡ dids
pairs-bytes_of [] [] h k = refl
pairs-bytes_of [] (x ∷ []) h k = refl
pairs-bytes_of [] (x ∷ y ∷ tail) h k = absurd (omega arith)
pairs-bytes_of (did ∷ dids) tail (b, h) k =
    let same : be16 (did / 2 ^ 8 % 256) (did % 256) ≡ did = omega arith in
    rw (same, pairs-bytes_of dids tail h k) refl
