-- ===== src/Decoder/Reads.antt =====
-- What the reads of a context give when they lie inside its data, and what a sub-context keeps.
use wadjet_link.Prelude.{
  ℕ, zero, suc, ◌+◌, ◌-◌, ◌≤◌, ◌<◌, ◌≡◌, refl, List, [], ◌∷◌, some, arith, length, get_or, take,
  drop, take_all, length-drop, length-take,
}
use wadjet_link.Bytes
use wadjet_link.Bytes.{get_elem?, be16, be32, IsBytes}
use wadjet_link.Decoder.{
  ok, DecodeContext, sub_context, read_be16, read_be32, read_bytes, data_at, memcpy,
}

pub get_elem?_in : (bs : List ℕ) (i : ℕ) → i < length bs → get_elem? bs i ≡ some (get_or bs i 0)
get_elem?_in [] i h = elim h [ ]
get_elem?_in (x ∷ bs) zero h = refl
get_elem?_in (x ∷ bs) (suc i) h = get_elem?_in bs i (omega arith)

pub get_or-IsByte : (bs : List ℕ) (i : ℕ) → IsBytes bs → get_or bs i 0 < 256
get_or-IsByte [] i h = omega arith
get_or-IsByte (x ∷ bs) zero h = h.0
get_or-IsByte (x ∷ bs) (suc i) h = get_or-IsByte bs i h.1

-- The numbers that stand at an offset.
abbrev pub u8_at : List ℕ → ℕ → ℕ
u8_at bs o = get_or bs o 0

abbrev pub be16_at : List ℕ → ℕ → ℕ
be16_at bs o = be16 (get_or bs o 0) (get_or bs (o + 1) 0)

abbrev pub be32_at : List ℕ → ℕ → ℕ
be32_at bs o =
    be32 (get_or bs o 0) (get_or bs (o + 1) 0) (get_or bs (o + 2) 0) (get_or bs (o + 3) 0)

module _ (bs : List ℕ) (o : ℕ) where
  pub be16_in : o + 2 ≤ length bs → Bytes.read_be16 bs o ≡ some (be16_at bs o)
  unfolding Bytes.read_be16
  be16_in h = ground (arith, get_elem?_in bs o, get_elem?_in bs (o + 1))

  pub be32_in : o + 4 ≤ length bs → Bytes.read_be32 bs o ≡ some (be32_at bs o)
  unfolding Bytes.read_be32
  be32_in h = ground (
    arith,
    get_elem?_in bs o,
    get_elem?_in bs (o + 1),
    get_elem?_in bs (o + 2),
    get_elem?_in bs (o + 3),
  )

pub memcpy_in : (bs : List ℕ) (n : ℕ) → n ≤ length bs → memcpy bs n ≡ ok (take n bs)
unfolding memcpy
memcpy_in bs n h = ground arith

module _ (c : DecodeContext) (o : ℕ) where
  pub data_at_in : o < length c.bytes → data_at c o ≡ ok (u8_at c.bytes o)
  unfolding data_at
  data_at_in h = ground (arith, get_elem?_in c.bytes o)

  pub read_be16_in : o + 2 ≤ length c.bytes → read_be16 c o ≡ ok (be16_at c.bytes o)
  unfolding read_be16
  read_be16_in h = ground (arith, be16_in c.bytes o)

  pub read_be32_in : o + 4 ≤ length c.bytes → read_be32 c o ≡ ok (be32_at c.bytes o)
  unfolding read_be32
  read_be32_in h = ground (arith, be32_in c.bytes o)

  -- A copy of the bytes that a guarded span holds.
  pub memcpy-read_bytes :
      (n : ℕ) → o + n ≤ length c.bytes → memcpy (read_bytes c o n) n ≡ ok (take n (drop o c.bytes))
  unfolding read_bytes memcpy
  memcpy-read_bytes n h = ground (
    arith,
    length-take n (drop o c.bytes),
    length-drop o c.bytes,
    take_all n (take n (drop o c.bytes)),
  )

-- A sub-context moves the boundary between what is consumed and what remains: the sum stays, and
-- never goes past the end of the packet, whatever the header size.
pub sub_context_accounts :
    (n : ℕ) (c : DecodeContext)
    → ((sub_context n c).original_offset + length (sub_context n c).bytes
        ≡ c.original_offset + length c.bytes)
      × (length (sub_context n c).bytes ≡ length c.bytes - n)
      × ((sub_context n c).layer_info ≡ c.layer_info)
      × ((sub_context n c).timestamp ≡ c.timestamp)
unfolding sub_context
sub_context_accounts n c = ground (arith, length-drop n c.bytes)

-- Inside the data a sub-context is exactly what lies behind the header.
pub sub_context-bytes :
    (n : ℕ) (c : DecodeContext) → n ≤ length c.bytes → (sub_context n c).bytes ≡ drop n c.bytes
unfolding sub_context
sub_context-bytes n c h = ground arith
