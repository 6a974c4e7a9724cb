-- ===== src/Bytes/RoundTrip.antt =====
-- What is written in network order is read back, at any position of a buffer.
use wadjet_link.Prelude.{
  ℕ, zero, suc, ◌+◌, ◌^◌, ◌<◌, ◌≡◌, List, [], ◌∷◌, ◌++◌, some, arith, length, ap,
}
use wadjet_link.Bytes.{
  get_elem?, read_be16, read_be32, read_be64, write_be16, write_be32, write_be64,
}

get_elem?-append {ℓ} :
    {A : Type ℓ} (before bs : List A) (i j : ℕ)
    → j ≡ length before + i
    → get_elem? (before ++ bs) j ≡ get_elem? bs i
get_elem?-append [] bs i j e = ap (get_elem? bs) {y = i} (omega arith)
get_elem?-append (x ∷ before) bs i zero e = absurd (omega arith)
get_elem?-append (x ∷ before) bs i (suc j) e = get_elem?-append before bs i j (omega arith)

module _ (before after : List ℕ) (v : ℕ) where
  -- A 16-bit number written in network byte order anywhere in a buffer is read back there.
  pub read_be16-write_be16 :
      v < 2 ^ 16 → read_be16 (before ++ (write_be16 v ++ after)) (length before) ≡ some v
  unfolding read_be16 write_be16
  read_be16-write_be16 h = ground (
    arith,
    get_elem?-append before (write_be16 v ++ after) 0 (length before),
    get_elem?-append before (write_be16 v ++ after) 1 (length before + 1),
  )

  -- A 32-bit number written in network byte order anywhere in a buffer is read back there.
  pub read_be32-write_be32 :
      v < 2 ^ 32 → read_be32 (before ++ (write_be32 v ++ after)) (length before) ≡ some v
  unfolding read_be32 write_be32
  read_be32-write_be32 h = ground (
    arith,
    get_elem?-append before (write_be32 v ++ after) 0 (length before),
    get_elem?-append before (write_be32 v ++ after) 1 (length before + 1),
    get_elem?-append before (write_be32 v ++ after) 2 (length before + 2),
    get_elem?-append before (write_be32 v ++ after) 3 (length before + 3),
  )

  -- A 64-bit number written in network byte order anywhere in a buffer is read back there.
  pub read_be64-write_be64 :
      v < 2 ^ 64 → read_be64 (before ++ (write_be64 v ++ after)) (length before) ≡ some v
  unfolding read_be64 read_be32 write_be64 write_be32
  read_be64-write_be64 h = ground (
    arith,
    get_elem?-append before (write_be64 v ++ after) 0 (length before),
    get_elem?-append before (write_be64 v ++ after) 1 (length before + 1),
    get_elem?-append before (write_be64 v ++ after) 2 (length before + 2),
    get_elem?-append before (write_be64 v ++ after) 3 (length before + 3),
    get_elem?-append before (write_be64 v ++ after) 4 (length before + 4),
    get_elem?-append before (write_be64 v ++ after) 5 (length before + 4 + 1),
    get_elem?-append before (write_be64 v ++ after) 6 (length before + 4 + 2),
    get_elem?-append before (write_be64 v ++ after) 7 (length before + 4 + 3),
  )
