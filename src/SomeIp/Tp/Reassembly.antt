-- ===== src/SomeIp/Tp/Reassembly.antt =====
-- The reassembler: its invariant, and when it reports a message as complete.
use wadjet_link.Prelude.{
  ℕ, ◌+◌, ◌≤◌, ◌<◌, ◌≡◌, refl, List, [], ◌∷◌, Bool, true, false, length, take, arith, max, Option,
  some, none, length-take, le→ltb, le→leb, gt→leb, ◌%◌, ◌^◌, dec_le,
}
use wadjet_link.Prelude.Assoc.{
  lookup, insert, retain, Values, lookup-Values, insert-Values, lookup-insert,
}
use wadjet_link.Decoder.{ok, fault, memcpy}
use wadjet_link.SomeIp.Tp.{
  SomeipTpSegment, SomeipTpMessage, TpKey, tp_key_eq, tp_key_beq_iff, Reassembler, max_message_size,
  timeout_ms, is_complete, write_segment, target, add_segment, get_message, cleanup_timed_out,
}
use wadjet_link.SomeIp.Tp.Message.{write_segment_lem}

-- Every message's buffer is exactly as long as its recorded length and at most 16 MB, and its time
-- of the last update is still the initial one.
pub record IsSound (m : SomeipTpMessage) : Type 0 where
  pub filled : m.total_length ≡ length m.bytes
  pub bounded : length m.bytes ≤ max_message_size
  pub untimed : m.last_update_time ≡ 0

abbrev pub Inv : Reassembler → Type 0
Inv r = Values IsSound r

write_segment-IsSound :
    (offset : ℕ) (bytes : List ℕ) (m : SomeipTpMessage)
    → m.total_length ≡ max (length m.bytes) (offset + length bytes)
    → m.total_length ≤ max_message_size
    → m.last_update_time ≡ 0
    → IsSound (write_segment offset bytes m)
write_segment-IsSound offset bytes m f b u =
    let l = (write_segment_lem offset bytes m).0 in
    record {
      filled = unfold write_segment in omega (arith, l);
      bounded = omega (arith, l);
      untimed = unfold write_segment in u;
    }

target-IsSound :
    (key : TpKey) (offset n : ℕ) (bytes : List ℕ) (found : Option SomeipTpMessage)
    → length bytes ≡ n
    → offset + n ≤ max_message_size
    → ((m : SomeipTpMessage) → found ≡ some m → IsSound m)
    → IsSound (write_segment offset bytes (target key (offset + n) found))
target-IsSound key offset n bytes none e b h =
    write_segment-IsSound offset bytes _ (omega arith) (omega arith) refl
target-IsSound key offset n bytes (some m) e b h =
    let s = h m refl in
    write_segment-IsSound offset bytes _ (ground (arith, s)) (ground (arith, s)) refl

complete_of_sound : (m : SomeipTpMessage) → IsSound m → 0 < length m.bytes → is_complete m ≡ true
unfolding is_complete
complete_of_sound m s p = ground arith

get_message-insert :
    (key : TpKey) (m : SomeipTpMessage) (r : Reassembler)
    → is_complete m ≡ true
    → get_message key (insert key m r) ≡ some m
unfolding get_message
get_message-insert key m r done =
    let found : lookup key (insert key m r) ≡ some m =
      rw (lookup-insert key key m r, (tp_key_beq_iff key key).1 refl) refl in
    rw (found, get_message) (rw done refl)

-- A segment that the size checks let through, from a source that holds it.
module _ (key : TpKey) (segment : SomeipTpSegment) (source : List ℕ) (data_size : ℕ)
    (r : Reassembler) where
  abbrev stored : SomeipTpMessage
  stored =
      write_segment segment.offset (take data_size source)
        (target key (segment.offset + data_size) (lookup key r))

  add_segment_accepted :
      segment.offset + data_size ≤ max_message_size
      → data_size ≤ length source
      → add_segment key segment source data_size r ≡ ok (is_complete stored, insert key stored r)
  unfolding add_segment memcpy
  add_segment_accepted h k =
      let e : (segment.offset + data_size % 2 ^ 32) % 2 ^ 32 ≡ segment.offset + data_size =
        omega arith in
      rw
        (
          le→ltb max_message_size segment.offset (omega arith),
          le→ltb max_message_size (segment.offset + data_size) (omega arith),
          le→leb data_size (length source) k,
          e,
        )
        refl

  add_segment_refused :
      max_message_size < segment.offset + data_size
      → add_segment key segment source data_size r ≡ ok (false, r)
  unfolding add_segment
  add_segment_refused h = ground arith

  pub add_segment_overrun :
      segment.offset + data_size ≤ max_message_size
      → length source < data_size
      → add_segment key segment source data_size r ≡ fault
  unfolding add_segment memcpy
  add_segment_overrun h k =
      rw
        (
          le→ltb max_message_size segment.offset (omega arith),
          le→ltb max_message_size (segment.offset + data_size) (omega arith),
          gt→leb data_size (length source) k,
        )
        refl

  stored-IsSound :
      segment.offset + data_size ≤ max_message_size
      → data_size ≤ length source
      → Inv r
      → IsSound stored
  stored-IsSound h k v =
      target-IsSound key segment.offset data_size (take data_size source) (lookup key r)
        (omega (arith, length-take data_size source)) h (λ m f. lookup-Values IsSound key r v f)

  length_stored : data_size ≤ length source → segment.offset + data_size ≤ length stored.bytes
  length_stored k = omega (
    arith,
    (write_segment_lem segment.offset (take data_size source)
        (target key (segment.offset + data_size) (lookup key r))).0,
    length-take data_size source,
  )

  -- Adding a segment whose bytes are all there gives a result, and keeps the invariant: every buffer
  -- stays as long as its recorded length and within 16 MB.
  pub add_segment-Inv :
      data_size ≤ length source
      → Inv r
      → (done : Bool) × (r' : Reassembler) × (add_segment key segment source data_size r
          ≡ ok (done, r'))
        × Inv r'
  add_segment-Inv k v = elim (dec_le (segment.offset + data_size) max_message_size) [
    | yes h ↦ (
      is_complete stored,
      insert key stored r,
      add_segment_accepted h k,
      insert-Values IsSound key stored r (stored-IsSound h k v) v,
    )
    | no h ↦ (false, r, add_segment_refused (omega arith), v)
  ]

  -- Any segment within 16 MB that does not end at 0 makes its message complete at once, the first one
  -- of several too: whether more segments follow is not looked at, and a gap before the segment is
  -- not seen. The message can then be fetched.
  pub add_segment_complete :
      data_size ≤ length source
      → segment.offset + data_size ≤ max_message_size
      → 0 < segment.offset + data_size
      → Inv r
      → (r' : Reassembler) × (m : SomeipTpMessage) × (add_segment key segment source data_size r
          ≡ ok (true, r'))
        × (get_message key r' ≡ some m)
  add_segment_complete k h p v =
      let done : is_complete stored ≡ true =
        complete_of_sound stored (stored-IsSound h k v) (omega (arith, length_stored k)) in
      (
        insert key stored r,
        stored,
        rw done at (add_segment_accepted h k),
        get_message-insert key stored r done,
      )

-- Once the clock has passed 5 seconds the clean-up drops every message, however fresh: the time of
-- the last update that it compares with is never set.
pub cleanup_timed_out_all :
    (now : ℕ) (r : Reassembler) → timeout_ms < now → Inv r → cleanup_timed_out now r ≡ []
unfolding cleanup_timed_out retain
cleanup_timed_out_all now [] h v = refl
cleanup_timed_out_all now ((key, m) ∷ r) h v =
    ground (arith, v.0.untimed, cleanup_timed_out_all now r h v.1)
