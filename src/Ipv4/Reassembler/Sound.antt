-- ===== src/Ipv4/Reassembler/Sound.antt =====
-- What the IPv4 reassembler returns, and when it returns nothing.
use wadjet_link.Prelude.{
  ℕ, ◌+◌, ◌<◌, ◌≡◌, ◌≢◌, ◌∙◌, sym, ap, refl, subst, List, [], ◌∷◌, ◌++◌, append_assoc, true, none,
  some, ◌==◌, length, get_or, arith, length-append, get_or-append, Bool-cases, Option-cases, inl,
  inr, ==_iff, ne→==,
}
use wadjet_link.Prelude.Assoc.{lookup, insert, lookup-insert, lookup-erase}
use wadjet_link.Ipv4.Reassembler.{
  Ipv4Fragment, FragmentKey, fragment_key_beq_iff, fragment_key_eq, Entry, Cache, accumulate,
  joined, complete, cleanup_expired, key_of, updated, add_fragment,
}

-- The bytes of every fragment stand at its offset.
abbrev pub Stands : List ℕ → List (ℕ × List ℕ) → Type 0
Stands out [] = Unit
Stands out ((off, bytes) ∷ m) =
    ((i : ℕ) → i < length bytes → get_or out (off + i) 0 ≡ get_or bytes i 0) × Stands out m

accumulate_step :
    (offset acc off : ℕ) (bytes : List ℕ) (m : List (ℕ × List ℕ)) {n : ℕ}
    → accumulate offset acc ((off, bytes) ∷ m) ≡ some n
    → (off ≡ offset) × (accumulate (offset + length bytes) (acc + length bytes) m ≡ some n)
unfolding accumulate
accumulate_step offset acc off bytes m e = elim (Bool-cases (off == offset)) [
  | inl a ↦ ((==_iff off offset).0 a, rw a at e)
  | inr a ↦ let f : none ≡ some _ = rw a at e in cc
]

accumulate-length :
    (offset acc : ℕ) (m : List (ℕ × List ℕ)) {n : ℕ}
    → accumulate offset acc m ≡ some n
    → n ≡ acc + length (joined m)
unfolding joined accumulate
accumulate-length offset acc [] {n} e = let f : acc ≡ n = cc e in omega arith
accumulate-length offset acc ((off, bytes) ∷ m) e =
    let (_, f) = accumulate_step offset acc off bytes m e in
    omega (
      arith,
      accumulate-length (offset + length bytes) (acc + length bytes) m f,
      length-append bytes (joined m),
    )

accumulate-Stands :
    (offset acc : ℕ) (m : List (ℕ × List ℕ)) {n : ℕ} (before : List ℕ)
    → length before ≡ offset
    → accumulate offset acc m ≡ some n
    → Stands (before ++ joined m) m
unfolding joined
accumulate-Stands offset acc [] before l e = tt
accumulate-Stands offset acc ((off, bytes) ∷ m) before l e =
    let (same, f) = accumulate_step offset acc off bytes m e in
    let longer : length (before ++ bytes) ≡ offset + length bytes =
      omega (arith, length-append before bytes) in
    (
      λ i h. ground (
        arith,
        get_or-append before (bytes ++ joined m) (off + i) 0,
        get_or-append bytes (joined m) i 0,
      ),
      subst (λ out. Stands out m) (append_assoc before bytes (joined m))
          (accumulate-Stands (offset + length bytes) (acc + length bytes) m (before ++ bytes) longer
            f),
    )

-- An entry that is complete has seen the last fragment, is as long as that fragment said, and its
-- datagram holds every fragment at its offset.
complete_lem :
    (entry : Entry) (out : List ℕ)
    → complete entry ≡ some out
    → (entry.seen_last ≡ true) × ((length out ≡ entry.total_size) × Stands out entry.fragments)
unfolding complete
complete_lem entry out e = elim (Bool-cases entry.seen_last) [
  | inr s ↦ let f : none ≡ some out = rw s at e in cc
  | inl s ↦ elim (Option-cases (accumulate 0 0 entry.fragments)) [
    | inl n ↦ let f : none ≡ some out = rw (s, n) at e in cc
    | inr (acc, a) ↦ elim (Bool-cases (acc == entry.total_size)) [
      | inr d ↦ let f : none ≡ some out = rw (s, a, d) at e in cc
      | inl d ↦
          let f : some (joined entry.fragments) ≡ some out = rw (s, a, d) at e in
          let same : joined entry.fragments ≡ out = cc f in
          let total : acc ≡ entry.total_size = (==_iff acc entry.total_size).0 d in
          let long = accumulate-length 0 0 entry.fragments a in
          (
            s,
            (
              subst (λ o. length o ≡ entry.total_size) same (omega (arith, long, total)),
              subst (λ o. Stands o entry.fragments) same
                  (accumulate-Stands 0 0 entry.fragments [] refl a),
            ),
          )
    ]
  ]
]

-- When a fragment completes its datagram, what comes back has the length that the last fragment
-- announced and holds every stored fragment at its offset, also where they came out of order; the
-- entry is gone, and the other datagrams are those that the clean-up left.
pub add_fragment_sound :
    (timeout now : ℕ) (frag : Ipv4Fragment) (cache : Cache) (out : List ℕ)
    → (add_fragment timeout now frag cache).0 ≡ some out
    → let entry = updated timeout now frag cache in
      let cache' = (add_fragment timeout now frag cache).1 in
      (length out ≡ entry.total_size)
      × (Stands out entry.fragments
          × ((lookup (key_of frag) cache' ≡ none)
              × ((key : FragmentKey)
                  → key_of frag ≢ key
                  → lookup key cache' ≡ lookup key (cleanup_expired timeout now cache))))
unfolding add_fragment
add_fragment_sound timeout now frag cache out e =
    let key = key_of frag in
    let entry = updated timeout now frag cache in
    let kept = cleanup_expired timeout now cache in
    let stored = insert key entry kept in
    elim (Option-cases (complete entry)) [
      | inl n ↦ let f : none ≡ some out = rw (add_fragment, n) at e in cc
      | inr (whole, c) ↦
          let f : some whole ≡ some out = rw (add_fragment, c) at e in
          let same : whole ≡ out = cc f in
          let s = complete_lem entry out (c ∙ f) in
          rw (add_fragment, c)
            (
              s.1.0,
              (
                s.1.1,
                (
                  ground (arith, lookup-erase key key stored, fragment_key_beq_iff key key),
                  λ other d. ground (
                    arith,
                    lookup-erase key other stored,
                    lookup-insert key other entry kept,
                    fragment_key_beq_iff key other,
                  ),
                ),
              ),
            )
    ]

-- Two neighbours that do not meet, wherever they stand, stop the loop.
accumulate_stops :
    (offset acc : ℕ) (before : List (ℕ × List ℕ)) (p : ℕ) (d : List ℕ) (q : ℕ) (e : List ℕ)
    (behind : List (ℕ × List ℕ))
    → q ≢ p + length d
    → accumulate offset acc (before ++ (p, d) ∷ ((q, e) ∷ behind)) ≡ none
unfolding accumulate
accumulate_stops offset acc [] p d q e behind apart = elim (Bool-cases (p == offset)) [
  | inl a ↦
      let same : p ≡ offset = (==_iff p offset).0 a in
      let no : q ≢ offset + length d = λ f. apart (f ∙ ap (λ n. n + length d) (sym same)) in
      rw (a, ne→== q (offset + length d) no) refl
  | inr a ↦ rw a refl
]
accumulate_stops offset acc ((off, bytes) ∷ before) p d q e behind apart =
    elim (Bool-cases (off == offset)) [
      | inl a ↦ rw a (
          accumulate_stops (offset + length bytes) (acc + length bytes) before p d q e behind apart)
      | inr a ↦ rw a refl
    ]

incomplete : (entry : Entry) → accumulate 0 0 entry.fragments ≡ none → complete entry ≡ none
unfolding complete
incomplete entry e = elim (Bool-cases entry.seen_last) [
  | inl s ↦ rw (s, e) refl
  | inr s ↦ rw s refl
]

-- As long as two stored neighbours overlap or leave a gap, no fragment completes the datagram: the
-- entry stays in the cache with all its fragments.
pub add_fragment_overlap :
    (timeout now : ℕ) (frag : Ipv4Fragment) (cache : Cache) (before : List (ℕ × List ℕ)) (p : ℕ)
    (d : List ℕ) (q : ℕ) (e : List ℕ) (behind : List (ℕ × List ℕ))
    → (updated timeout now frag cache).fragments ≡ before ++ (p, d) ∷ ((q, e) ∷ behind)
    → q ≢ p + length d
    → let r = add_fragment timeout now frag cache in
      (r.0 ≡ none) × (lookup (key_of frag) r.1 ≡ some (updated timeout now frag cache))
unfolding add_fragment
add_fragment_overlap timeout now frag cache before p d q e behind s apart =
    let key = key_of frag in
    let entry = updated timeout now frag cache in
    let kept = cleanup_expired timeout now cache in
    let stop = ap (accumulate 0 0) s ∙ accumulate_stops 0 0 before p d q e behind apart in
    let nothing : complete entry ≡ none = incomplete entry stop in
    rw (add_fragment, nothing)
      (refl, ground (arith, lookup-insert key key entry kept, fragment_key_beq_iff key key))
