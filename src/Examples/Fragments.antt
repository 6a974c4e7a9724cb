-- ===== src/Examples/Fragments.antt =====
-- The IPv4 reassembler at concrete inputs.
use wadjet_link.Prelude.{ℕ, ◌≡◌, ◌≢◌, refl, List, [], ◌∷◌, true, false, none, some, length, arith}
use wadjet_link.Prelude.Assoc.{lookup, insert, erase, retain}
use wadjet_link.Ipv4.Reassembler.{
  Ipv4Fragment, FragmentKey, fragment_key_eq, Cache, put_fragment, update_entry, accumulate, joined,
  complete, cleanup_expired, key_of, updated, add_fragment,
}
use wadjet_link.Ipv4.Reassembler.Order.{Tiles, add_fragment_comm, add_fragment_completes}
use wadjet_link.Ipv4.Reassembler.Sound.{Stands, add_fragment_sound, add_fragment_overlap}

abbrev tail_fragment : Ipv4Fragment
tail_fragment = record {
  src_ip = 1;
  dst_ip = 2;
  protocol = 17;
  identification = 7;
  offset = 8;
  mf = false;
  payload = 9 ∷ 10 ∷ [];
}

abbrev first_fragment : Ipv4Fragment
first_fragment = record tail_fragment {
  offset = 0;
  mf = true;
  payload = 1 ∷ 2 ∷ 3 ∷ 4 ∷ 5 ∷ 6 ∷ 7 ∷ 8 ∷ [];
}

-- The last fragment came first.
abbrev with_tail : Cache
with_tail =
    (
      key_of tail_fragment,
      record {
        fragments = (8, 9 ∷ 10 ∷ []) ∷ [];
        seen_last = true;
        total_size = 10;
        last_update = 100;
      },
    )
    ∷ []

abbrev whole : List ℕ
whole = 1 ∷ 2 ∷ 3 ∷ 4 ∷ 5 ∷ 6 ∷ 7 ∷ 8 ∷ 9 ∷ 10 ∷ []

joins : (add_fragment 30 200 first_fragment with_tail).0 ≡ some whole
unfolding add_fragment complete accumulate joined update_entry put_fragment cleanup_expired retain
    lookup insert erase
joins = refl

add_fragment_sound_example :
    let entry = updated 30 200 first_fragment with_tail in
    let cache = (add_fragment 30 200 first_fragment with_tail).1 in
    (length whole ≡ entry.total_size)
    × (Stands whole entry.fragments
        × ((lookup (key_of first_fragment) cache ≡ none)
            × ((key : FragmentKey)
                → key_of first_fragment ≢ key
                → lookup key cache ≡ lookup key (cleanup_expired 30 200 with_tail))))
add_fragment_sound_example = add_fragment_sound 30 200 first_fragment with_tail whole joins

-- Twelve bytes from offset 0 overlap the tail at offset 8.
abbrev long_fragment : Ipv4Fragment
long_fragment = record first_fragment {
  payload = 1 ∷ 2 ∷ 3 ∷ 4 ∷ 5 ∷ 6 ∷ 7 ∷ 8 ∷ 9 ∷ 10 ∷ 11 ∷ 12 ∷ [];
}

overlaps :
    (updated 30 200 long_fragment with_tail).fragments
    ≡ (0, long_fragment.payload) ∷ ((8, 9 ∷ 10 ∷ []) ∷ [])
unfolding update_entry put_fragment cleanup_expired retain lookup
overlaps = refl

add_fragment_overlap_example :
    let r = add_fragment 30 200 long_fragment with_tail in
    (r.0 ≡ none)
    × (lookup (key_of long_fragment) r.1 ≡ some (updated 30 200 long_fragment with_tail))
add_fragment_overlap_example =
    add_fragment_overlap 30 200 long_fragment with_tail [] 0 long_fragment.payload 8 (9 ∷ 10 ∷ [])
      [] overlaps (λ e. absurd (omega arith))

tail_is_open : complete (updated 30 100 tail_fragment []) ≡ none
unfolding complete accumulate update_entry put_fragment cleanup_expired retain lookup
tail_is_open = refl

first_is_open : complete (updated 30 100 first_fragment []) ≡ none
unfolding complete accumulate update_entry put_fragment cleanup_expired retain lookup
first_is_open = refl

add_fragment_comm_example :
    add_fragment 30 200 tail_fragment (add_fragment 30 100 first_fragment []).1
    ≡ add_fragment 30 200 first_fragment (add_fragment 30 100 tail_fragment []).1
add_fragment_comm_example =
    add_fragment_comm 30 100 200 first_fragment tail_fragment [] refl (λ e. absurd (omega arith))
      refl first_is_open tail_is_open refl

tiled : (updated 30 200 first_fragment with_tail).seen_last ≡ true
unfolding update_entry cleanup_expired retain lookup
tiled = refl

tiles : Tiles 0 (updated 30 200 first_fragment with_tail).fragments
unfolding update_entry put_fragment cleanup_expired retain lookup
tiles = (refl, (refl, tt))

tiles_length :
    length (joined (updated 30 200 first_fragment with_tail).fragments)
    ≡ (updated 30 200 first_fragment with_tail).total_size
unfolding update_entry put_fragment cleanup_expired retain lookup joined
tiles_length = refl

add_fragment_completes_example :
    let r = add_fragment 30 200 first_fragment with_tail in
    (r.0 ≡ some (joined (updated 30 200 first_fragment with_tail).fragments))
    × (lookup (key_of first_fragment) r.1 ≡ none)
add_fragment_completes_example =
    add_fragment_completes 30 200 first_fragment with_tail tiled tiles tiles_length
