-- ===== src/Ipv4/Reassembler/Order.antt =====
-- Two fragments in either order, and the datagram that fragments make up.
use wadjet_link.Prelude.{
  ℕ, ◌+◌, ◌≡◌, ◌≢◌, ◌∙◌, sym, ap, subst, refl, List, [], ◌∷◌, ◌++◌, Bool, true, false, ◌||◌,
  Bool-cases, inl, inr, ◌^◌, Option, none, some, length, arith, length-append, ==_iff,
}
use wadjet_link.Prelude.Assoc.{Eq, lookup, insert, erase, retain, lookup-erase}
use wadjet_link.Prelude.Integers.{duration, exceeds}
use wadjet_link.Ipv4.Reassembler.{
  Ipv4Fragment, FragmentKey, fragment_key_eq, fragment_key_beq_iff, Entry, Cache, put_fragment,
  update_entry, accumulate, joined, complete, cleanup_expired, key_of, updated, add_fragment,
  is_fresh, or_new,
}

put_fragment_comm :
    (o : ℕ) (d : List ℕ) (p : ℕ) (e : List ℕ) (m : List (ℕ × List ℕ))
    → o ≢ p
    → put_fragment o d (put_fragment p e m) ≡ put_fragment p e (put_fragment o d m)
unfolding put_fragment
put_fragment_comm o d p e [] apart = ground arith
put_fragment_comm o d p e ((off, bytes) ∷ m) apart =
    ground (arith, put_fragment_comm o d p e m apart)

-- Two fragments at different offsets, of which one at most is the last of the datagram, leave the
-- same entry in either order of arrival.
update_entry_comm :
    (n0 n1 : ℕ) (f g : Ipv4Fragment) (entry : Entry)
    → f.offset ≢ g.offset
    → (f.mf || g.mf) ≡ true
    → update_entry n1 g (update_entry n0 f entry) ≡ update_entry n1 f (update_entry n0 g entry)
unfolding update_entry
update_entry_comm n0 n1 f g entry apart last = ground (
  arith,
  put_fragment_comm g.offset g.payload f.offset f.payload entry.fragments (λ e. apart (sym e)),
)

-- An entry that is written over an earlier one of its key, which a test kept in between.
module _ {K V : Type 0} ⦃eq : Eq K⦄ (test : V → Bool) (k : K) where
  lookup-retain-insert :
      (v : V) (m : List (K × V)) → test v ≡ true → lookup k (retain test (insert k v m)) ≡ some v
  unfolding lookup retain insert
  lookup-retain-insert v [] t = rw t (ground (arith, eq.beq_iff k k))
  lookup-retain-insert v ((j, w) ∷ m) t = elim (Bool-cases (eq.beq j k)) [
    | inl e ↦ rw (e, t, e) refl
    | inr e ↦ elim (Bool-cases (test w)) [
      | inl d ↦ rw (e, d, e) (lookup-retain-insert v m t)
      | inr d ↦ rw (e, d) (lookup-retain-insert v m t)
    ]
  ]

  insert-retain-insert :
      (u v w : V) (m : List (K × V))
      → test v ≡ true
      → test w ≡ true
      → insert k u (retain test (insert k v m)) ≡ insert k u (retain test (insert k w m))
  unfolding retain insert
  insert-retain-insert u v w [] s t = rw (s, t) (ground (arith, eq.beq_iff k k))
  insert-retain-insert u v w ((j, x) ∷ m) s t = elim (Bool-cases (eq.beq j k)) [
    | inl e ↦ rw (e, s, t, e) refl
    | inr e ↦ elim (Bool-cases (test x)) [
      | inl d ↦ rw (e, d, e) (ap (λ l. (j, x) ∷ l) (insert-retain-insert u v w m s t))
      | inr d ↦ rw (e, d) (insert-retain-insert u v w m s t)
    ]
  ]

-- What a fragment's arrival comes to, of its key, its entry and the cache with the entry in it.
abbrev settled : FragmentKey → Entry → Cache → Option (List ℕ) × Cache
settled key entry stored = elim (complete entry) [
  | none ↦ (none, stored)
  | some out ↦ (some out, erase key stored)
]

add_fragment_settled :
    (timeout now : ℕ) (frag : Ipv4Fragment) (cache : Cache)
    → let entry = updated timeout now frag cache in
      add_fragment timeout now frag cache
      ≡ settled (key_of frag) entry (insert (key_of frag) entry (cleanup_expired timeout now cache))
unfolding add_fragment
add_fragment_settled timeout now frag cache = refl

-- What `g` comes to after `f`, of the keys that the two are stored at.
abbrev outcome :
    ℕ
    → ℕ
    → ℕ
    → Cache
    → Ipv4Fragment
    → Ipv4Fragment
    → FragmentKey
    → FragmentKey
    → Option (List ℕ) × Cache
outcome timeout t0 t1 cache f g k0 k1 =
    let kept = cleanup_expired timeout t0 cache in
    let first = update_entry t0 f (or_new (lookup k0 kept)) in
    let both = update_entry t1 g first in
    settled k1 both (insert k1 both (cleanup_expired timeout t1 (insert k0 first kept)))

module _ (timeout t0 t1 : ℕ) (f g : Ipv4Fragment) (cache : Cache) (same : key_of f ≡ key_of g)
    (in_time : exceeds (duration (10 ^ 9) t1 t0) timeout ≡ false) where
  abbrev first_entry : Entry
  first_entry = updated timeout t0 f cache

  kept_cache :
      complete first_entry ≡ none
      → (add_fragment timeout t0 f cache).1
        ≡ insert (key_of f) first_entry (cleanup_expired timeout t0 cache)
  unfolding add_fragment
  kept_cache n = rw (add_fragment, n) refl

  first_entry_fresh : is_fresh timeout t1 first_entry ≡ true
  unfolding update_entry
  first_entry_fresh = rw in_time refl

  updated_second :
      complete first_entry ≡ none
      → updated timeout t1 g (add_fragment timeout t0 f cache).1 ≡ update_entry t1 g first_entry
  unfolding cleanup_expired
  updated_second n =
      let found =
        lookup-retain-insert (is_fresh timeout t1) (key_of f) first_entry
          (cleanup_expired timeout t0 cache) first_entry_fresh in
      rw (kept_cache n, sym same) (ap (λ o. update_entry t1 g (or_new o)) found)

  add_fragment_second :
      complete first_entry ≡ none
      → add_fragment timeout t1 g (add_fragment timeout t0 f cache).1
        ≡ outcome timeout t0 t1 cache f g (key_of f) (key_of g)
  add_fragment_second n =
      add_fragment_settled timeout t1 g (add_fragment timeout t0 f cache).1
      ∙ rw (updated_second n, kept_cache n) refl

-- Two fragments of one datagram, at different offsets and one at most the last of the datagram, of
-- which neither completes it on its own, and the second of which comes before the entry of the
-- first expires: in either order of arrival the second gives the same answer and leaves the same
-- cache.
pub add_fragment_comm :
    (timeout t0 t1 : ℕ) (f g : Ipv4Fragment) (cache : Cache)
    → key_of f ≡ key_of g
    → f.offset ≢ g.offset
    → (f.mf || g.mf) ≡ true
    → complete (updated timeout t0 f cache) ≡ none
    → complete (updated timeout t0 g cache) ≡ none
    → exceeds (duration (10 ^ 9) t1 t0) timeout ≡ false
    → add_fragment timeout t1 g (add_fragment timeout t0 f cache).1
      ≡ add_fragment timeout t1 f (add_fragment timeout t0 g cache).1
unfolding cleanup_expired lookup update_entry
add_fragment_comm timeout t0 t1 f g cache same apart last n m in_time =
    let key = key_of f in
    let kept = cleanup_expired timeout t0 cache in
    let entry = or_new (lookup key kept) in
    let one : update_entry t1 g (update_entry t0 f entry)
        ≡ update_entry t1 f (update_entry t0 g entry) =
      update_entry_comm t0 t1 f g entry apart last in
    let cached =
      insert-retain-insert (is_fresh timeout t1) key (update_entry t1 f (update_entry t0 g entry))
        (update_entry t0 f entry) (update_entry t0 g entry) kept
        (first_entry_fresh timeout t0 t1 f g cache same in_time)
        (first_entry_fresh timeout t0 t1 g f cache (sym same) in_time) in
    let left =
      subst
        (λ k.
          add_fragment timeout t1 g (add_fragment timeout t0 f cache).1
          ≡ outcome timeout t0 t1 cache f g key k)
        (sym same) (add_fragment_second timeout t0 t1 f g cache same in_time n) in
    let right =
      subst
        (λ k.
          add_fragment timeout t1 f (add_fragment timeout t0 g cache).1
          ≡ outcome timeout t0 t1 cache g f k key)
        (sym same) (add_fragment_second timeout t0 t1 g f cache (sym same) in_time m) in
    left
    ∙ (ap
          (λ e.
            settled key e (
              insert key e
                (cleanup_expired timeout t1 (insert key (update_entry t0 f entry) kept))))
          one
        ∙ ap (λ c. settled key (update_entry t1 f (update_entry t0 g entry)) c) cached)
    ∙ sym right

-- Each fragment begins where the one before it ends.
abbrev pub Tiles : ℕ → List (ℕ × List ℕ) → Type 0
Tiles o [] = Unit
Tiles o ((off, bytes) ∷ m) = (off ≡ o) × Tiles (o + length bytes) m

accumulate-Tiles :
    (o acc : ℕ) (m : List (ℕ × List ℕ))
    → Tiles o m
    → accumulate o acc m ≡ some (acc + length (joined m))
unfolding accumulate joined
accumulate-Tiles o acc [] t = ap some (omega arith)
accumulate-Tiles o acc ((off, bytes) ∷ m) t =
    let same = (==_iff off o).1 t.0 in
    let rest = accumulate-Tiles (o + length bytes) (acc + length bytes) m t.1 in
    let sum : acc + length bytes + length (joined m) ≡ acc + length (bytes ++ joined m) =
      omega (arith, length-append bytes (joined m)) in
    rw same (rest ∙ ap some sum)

complete-Tiles :
    (entry : Entry)
    → entry.seen_last ≡ true
    → Tiles 0 entry.fragments
    → length (joined entry.fragments) ≡ entry.total_size
    → complete entry ≡ some (joined entry.fragments)
unfolding complete
complete-Tiles entry s t l =
    let all : accumulate 0 0 entry.fragments ≡ some (length (joined entry.fragments)) =
      accumulate-Tiles 0 0 entry.fragments t ∙ ap some (omega arith) in
    rw (s, all, (==_iff (length (joined entry.fragments)) entry.total_size).1 l) refl

-- A fragment with which the stored ones tile the datagram, from 0 to the end that the last fragment
-- announced, completes it: the payloads come back one after the other, and the entry is gone.
pub add_fragment_completes :
    (timeout now : ℕ) (frag : Ipv4Fragment) (cache : Cache)
    → (updated timeout now frag cache).seen_last ≡ true
    → Tiles 0 (updated timeout now frag cache).fragments
    → length (joined (updated timeout now frag cache).fragments)
      ≡ (updated timeout now frag cache).total_size
    → let r = add_fragment timeout now frag cache in
      (r.0 ≡ some (joined (updated timeout now frag cache).fragments))
      × (lookup (key_of frag) r.1 ≡ none)
unfolding add_fragment
add_fragment_completes timeout now frag cache s t l =
    let key = key_of frag in
    let entry = updated timeout now frag cache in
    let stored = insert key entry (cleanup_expired timeout now cache) in
    let whole = complete-Tiles entry s t l in
    rw (add_fragment, whole)
      (refl, ground (arith, lookup-erase key key stored, fragment_key_beq_iff key key))
