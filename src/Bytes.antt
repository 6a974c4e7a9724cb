-- ===== src/Bytes.antt =====
-- include/wadjet/core/byte_order.hpp. A buffer is a list of bytes, numbers below 256. A read through
-- a pointer is given the buffer that it points into and the offset: `none` is a read outside it,
-- which in C++ is undefined behaviour. `x << 8 | y` on bytes is `x * 256 + y`.
pub mod RoundTrip
use wadjet_link.Prelude.{
  ℕ, zero, suc, ◌+◌, ◌*◌, ◌/◌, ◌%◌, ◌^◌, ◌<◌, List, [], ◌∷◌, ◌++◌, Option, none, some, All,
}

abbrev pub IsByte : ℕ → Type 0
IsByte b = b < 256

abbrev pub IsBytes : List ℕ → Type 0
IsBytes bs = All IsByte bs

infixl 5 ◌>>=◌
abbrev pub ◌>>=◌ : {A B : Type 0} → Option A → (A → Option B) → Option B
none >>= f = none
some a >>= f = f a

-- `data[i]`
abbrev pub get_elem? {ℓ} : {A : Type ℓ} → List A → ℕ → Option A
get_elem? [] i = none
get_elem? (x ∷ xs) zero = some x
get_elem? (x ∷ xs) (suc i) = get_elem? xs i

abbrev pub be16 : ℕ → ℕ → ℕ
be16 b0 b1 = b0 * 256 + b1

abbrev pub be32 : ℕ → ℕ → ℕ → ℕ → ℕ
be32 b0 b1 b2 b3 = b0 * 2 ^ 24 + b1 * 2 ^ 16 + b2 * 2 ^ 8 + b3

unfoldable pub read_be16 : List ℕ → ℕ → Option ℕ
read_be16 bs o = do b0 ← get_elem? bs o; b1 ← get_elem? bs (o + 1); some (be16 b0 b1)

unfoldable pub read_be32 : List ℕ → ℕ → Option ℕ
read_be32 bs o = do
  b0 ← get_elem? bs o
  b1 ← get_elem? bs (o + 1)
  b2 ← get_elem? bs (o + 2)
  b3 ← get_elem? bs (o + 3)
  some (be32 b0 b1 b2 b3)

unfoldable pub read_be64 : List ℕ → ℕ → Option ℕ
read_be64 bs o = do hi ← read_be32 bs o; lo ← read_be32 bs (o + 4); some (hi * 2 ^ 32 + lo)

unfoldable pub read_le16 : List ℕ → ℕ → Option ℕ
read_le16 bs o = do b0 ← get_elem? bs o; b1 ← get_elem? bs (o + 1); some (b0 + b1 * 2 ^ 8)

unfoldable pub read_le32 : List ℕ → ℕ → Option ℕ
read_le32 bs o = do
  b0 ← get_elem? bs o
  b1 ← get_elem? bs (o + 1)
  b2 ← get_elem? bs (o + 2)
  b3 ← get_elem? bs (o + 3)
  some (b0 + b1 * 2 ^ 8 + b2 * 2 ^ 16 + b3 * 2 ^ 24)

-- A write gives the bytes that it stores from the pointer on; `static_cast<byte>` is `% 256`.
unfoldable pub write_be16 : ℕ → List ℕ
write_be16 v = v / 2 ^ 8 % 256 ∷ v % 256 ∷ []

unfoldable pub write_be32 : ℕ → List ℕ
write_be32 v = v / 2 ^ 24 % 256 ∷ v / 2 ^ 16 % 256 ∷ v / 2 ^ 8 % 256 ∷ v % 256 ∷ []

unfoldable pub write_be64 : ℕ → List ℕ
write_be64 v = write_be32 (v / 2 ^ 32 % 2 ^ 32) ++ write_be32 (v % 2 ^ 32)

unfoldable pub write_le16 : ℕ → List ℕ
write_le16 v = v % 256 ∷ v / 2 ^ 8 % 256 ∷ []

unfoldable pub write_le32 : ℕ → List ℕ
write_le32 v = v % 256 ∷ v / 2 ^ 8 % 256 ∷ v / 2 ^ 16 % 256 ∷ v / 2 ^ 24 % 256 ∷ []
