-- ===== src/SomeIp/Tp/Message.antt =====
-- The buffer of a message under reassembly, byte by byte.
use wadjet_link.Prelude.{
  ℕ, ◌+◌, ◌-◌, ◌≤◌, ◌≡◌, List, ◌++◌, ◌&&◌, ltb, leb, if◌then◌else◌, length, take, drop, replicate,
  get_or, arith, max, ◌⊎◌, length-append, length-take, length-drop, length-replicate, get_or-append,
  get_or-drop, get_or-take, get_or-replicate, get_or_beyond, eq_of_get_or,
}
use wadjet_link.SomeIp.Tp.{SomeipTpMessage, write_segment, grow, overwrite}

length-grow : (n : ℕ) (xs : List ℕ) → length (grow n xs) ≡ max (length xs) n
length-grow n xs = omega (
  arith,
  length-append xs (replicate (n - length xs) 0),
  length-replicate {A = ℕ} (n - length xs) 0,
)

get_or-grow : (n : ℕ) (xs : List ℕ) (i : ℕ) → get_or (grow n xs) i 0 ≡ get_or xs i 0
get_or-grow n xs i = ground (
  arith,
  get_or-append xs (replicate (n - length xs) 0) i 0,
  get_or-replicate {A = ℕ} (n - length xs) (i - length xs) 0,
  get_or_beyond xs i 0,
)

module _ (offset : ℕ) (segment xs : List ℕ) (fits : offset + length segment ≤ length xs) where
  length-overwrite : length (overwrite offset segment xs) ≡ length xs
  length-overwrite = omega (
    arith,
    length-append (take offset xs) (segment ++ drop (offset + length segment) xs),
    length-append segment (drop (offset + length segment) xs),
    length-take offset xs,
    length-drop (offset + length segment) xs,
  )

  get_or-overwrite :
      (i : ℕ)
      → get_or (overwrite offset segment xs) i 0 ≡ (
          if leb offset i && ltb i (offset + length segment)
          then get_or segment (i - offset) 0
          else get_or xs i 0)
  get_or-overwrite i = ground (
    arith,
    get_or-append (take offset xs) (segment ++ drop (offset + length segment) xs) i 0,
    get_or-append segment (drop (offset + length segment) xs) (i - offset) 0,
    length-take offset xs,
    get_or-take offset xs i 0,
    get_or-drop (offset + length segment) xs (i - offset - length segment) 0,
  )

-- A segment written at an offset gives a buffer that is just long enough for what it had and for the
-- segment; it holds the segment's bytes from the offset on, the old bytes elsewhere, and 0 in a gap.
pub write_segment_lem :
    (offset : ℕ) (segment : List ℕ) (m : SomeipTpMessage)
    → let m' = write_segment offset segment m in
      (length m'.bytes ≡ max (length m.bytes) (offset + length segment))
      × ((i : ℕ)
          → get_or m'.bytes i 0 ≡ (
              if leb offset i && ltb i (offset + length segment)
              then get_or segment (i - offset) 0
              else get_or m.bytes i 0))
unfolding write_segment
write_segment_lem offset segment m =
    let n = offset + length segment in
    let fits : n ≤ length (grow n m.bytes) = omega (arith, length-grow n m.bytes) in
    (
      omega (arith, length-overwrite offset segment (grow n m.bytes) fits, length-grow n m.bytes),
      λ i.
          ground (
            arith,
            get_or-overwrite offset segment (grow n m.bytes) fits i,
            get_or-grow n m.bytes i,
          ),
    )

abbrev pub AreDisjoint : ℕ → List ℕ → ℕ → List ℕ → Type 0
AreDisjoint o s p t = (o + length s ≤ p) ⊎ (p + length t ≤ o)

same_byte :
    (o : ℕ) (s : List ℕ) (p : ℕ) (t : List ℕ) (m : SomeipTpMessage) (i : ℕ)
    → AreDisjoint o s p t
    → get_or (write_segment p t (write_segment o s m)).bytes i 0
      ≡ get_or (write_segment o s (write_segment p t m)).bytes i 0
same_byte o s p t m i d = ground (
  arith,
  (write_segment_lem p t (write_segment o s m)).1 i,
  (write_segment_lem o s m).1 i,
  (write_segment_lem o s (write_segment p t m)).1 i,
  (write_segment_lem p t m).1 i,
)

-- Segments that do not overlap may arrive in either order: the buffer is the same.
pub write_segment_comm :
    (o : ℕ) (s : List ℕ) (p : ℕ) (t : List ℕ) (m : SomeipTpMessage)
    → AreDisjoint o s p t
    → (write_segment p t (write_segment o s m)).bytes
      ≡ (write_segment o s (write_segment p t m)).bytes
write_segment_comm o s p t m d =
    eq_of_get_or _ _ 0
      (omega (
        arith,
        (write_segment_lem p t (write_segment o s m)).0,
        (write_segment_lem o s m).0,
        (write_segment_lem o s (write_segment p t m)).0,
        (write_segment_lem p t m).0,
      ))
      (λ i. same_byte o s p t m i d)
