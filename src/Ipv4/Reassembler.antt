-- ===== src/Ipv4/Reassembler.antt =====
-- `Ipv4FragmentReassembler` of src/protocols/ipv4_reassembler.cpp. An address is its 32-bit number,
-- the map of an entry is the list of its offsets and payloads in ascending order, and times are
-- nanoseconds of the steady clock, which every operation is given.
pub mod Sound
pub mod Order
use wadjet_link.Prelude.{
  ℕ, ◌+◌, ◌^◌, ◌≡◌, ◌↔◌, List, [], ◌∷◌, ◌++◌, Bool, true, false, not, ◌&&◌, Option, none, some, ltb,
  ◌==◌, if◌then◌else◌, length, arith,
}
use wadjet_link.Prelude.Assoc.{Eq, lookup, insert, erase, retain}
use wadjet_link.Prelude.Integers.{duration, exceeds}

pub record Ipv4Fragment : Type 0 where
  pub src_ip : ℕ
  pub dst_ip : ℕ
  pub protocol : ℕ
  pub identification : ℕ
  pub offset : ℕ
  pub mf : Bool
  pub payload : List ℕ

pub record FragmentKey : Type 0 where
  pub src : ℕ
  pub dst : ℕ
  pub proto : ℕ
  pub id : ℕ

abbrev pub fragment_key_beq : FragmentKey → FragmentKey → Bool
fragment_key_beq a b = (a.src == b.src && a.dst == b.dst) && (a.proto == b.proto && a.id == b.id)

pub fragment_key_beq_iff : (a b : FragmentKey) → (fragment_key_beq a b ≡ true) ↔ (a ≡ b)
fragment_key_beq_iff a b = ground arith

instance abbrev pub fragment_key_eq : Eq FragmentKey
fragment_key_eq = record { beq = fragment_key_beq; beq_iff = fragment_key_beq_iff }

pub record Entry : Type 0 where
  pub fragments : List (ℕ × List ℕ)
  pub seen_last : Bool
  pub total_size : ℕ
  pub last_update : ℕ

abbrev pub Cache : Type 0
Cache = List (FragmentKey × Entry)

abbrev pub new_entry : Entry
new_entry = record { fragments = []; seen_last = false; total_size = 0; last_update = 0 }

-- `fragments[offset] = payload;` in an ordered map.
unfoldable pub put_fragment : ℕ → List ℕ → List (ℕ × List ℕ) → List (ℕ × List ℕ)
put_fragment offset payload [] = (offset, payload) ∷ []
put_fragment offset payload ((off, bytes) ∷ m) =
    let rest = put_fragment offset payload m in
    if ltb offset off
    then (offset, payload) ∷ ((off, bytes) ∷ m)
    else if offset == off
    then (off, payload) ∷ m
    else (off, bytes) ∷ rest

unfoldable pub update_entry : ℕ → Ipv4Fragment → Entry → Entry
update_entry now frag entry = record entry {
  fragments = put_fragment frag.offset frag.payload entry.fragments;
  last_update = now;
  seen_last = if frag.mf then entry.seen_last else true;
  total_size = if frag.mf then entry.total_size else frag.offset + length frag.payload;
}

-- The loop that looks for a gap, with its two counters; `none` is the early return.
unfoldable pub accumulate : ℕ → ℕ → List (ℕ × List ℕ) → Option ℕ
accumulate offset acc [] = some acc
accumulate offset acc ((off, bytes) ∷ m) =
    let rest = accumulate (offset + length bytes) (acc + length bytes) m in
    if off == offset then rest else none

unfoldable pub joined : List (ℕ × List ℕ) → List ℕ
joined [] = []
joined ((off, bytes) ∷ m) = bytes ++ joined m

-- The completeness check: the datagram, if it is there.
unfoldable pub complete : Entry → Option (List ℕ)
complete entry = if not entry.seen_last then none else elim (accumulate 0 0 entry.fragments) [
  | none ↦ none
  | some acc ↦ if acc == entry.total_size then some (joined entry.fragments) else none
]

abbrev pub is_fresh : ℕ → ℕ → Entry → Bool
is_fresh timeout now entry = not (exceeds (duration (10 ^ 9) now entry.last_update) timeout)

unfoldable pub cleanup_expired : ℕ → ℕ → Cache → Cache
cleanup_expired timeout now cache = retain (is_fresh timeout now) cache

abbrev pub key_of : Ipv4Fragment → FragmentKey
key_of frag = record {
  src = frag.src_ip;
  dst = frag.dst_ip;
  proto = frag.protocol;
  id = frag.identification;
}

-- `cache_[key]`
abbrev pub or_new : Option Entry → Entry
or_new none = new_entry
or_new (some entry) = entry

-- The entry of a fragment's datagram with the fragment in it.
abbrev pub updated : ℕ → ℕ → Ipv4Fragment → Cache → Entry
updated timeout now frag cache =
    update_entry now frag (or_new (lookup (key_of frag) (cleanup_expired timeout now cache)))

unfoldable pub add_fragment : ℕ → ℕ → Ipv4Fragment → Cache → Option (List ℕ) × Cache
add_fragment timeout now frag cache =
    let key = key_of frag in
    let entry = updated timeout now frag cache in
    let stored = insert key entry (cleanup_expired timeout now cache) in
    elim (complete entry) [ none ↦ (none, stored) | some out ↦ (some out, erase key stored) ]

unfoldable pub clear : Cache → Cache
clear cache = []

unfoldable pub size : Cache → ℕ
size cache = length cache
