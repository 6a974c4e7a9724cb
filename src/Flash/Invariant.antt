-- ===== src/Flash/Invariant.antt =====
-- What holds of every flash sequence that the tracker keeps, through every operation.
mod Helpers
pub mod Requests
pub mod Responses
pub mod Steps
use wadjet_link.Prelude.{
  ℕ, ◌+◌, ◌%◌, ◌^◌, ◌≤◌, ◌≡◌, refl, sym, ap, ◌∙◌, subst, List, [], ◌∷◌, ◌++◌, Bool, true, false,
  Option, none, some, if◌then◌else◌, ltb, length, length-append, All, inl, inr, Bool-cases,
  Option-cases, arith,
}
use wadjet_link.Prelude.Assoc.{
  nat_eq, lookup, insert, erase, Values, lookup-Values, insert-Values, erase-Values,
}
use wadjet_link.Prelude.Keyed.{IsKeyed, insert-IsKeyed, erase-IsKeyed}
use wadjet_link.Flash.Sequence.{FlashBlock, FlashSequence, new_sequence, is_active, FlashEvent}
use wadjet_link.Flash.Tracker.{
  Tracker, put, emit_event, enforce_limit, or_empty, archive_sequence, create_sequence,
  get_or_create_sequence, complete_sequence,
}

abbrev pub sizes : List FlashBlock → ℕ
sizes [] = 0
sizes (block ∷ blocks) = block.data_size + sizes blocks

pub sizes-append : (xs ys : List FlashBlock) → sizes (xs ++ ys) ≡ sizes xs + sizes ys
sizes-append [] ys = omega arith
sizes-append (x ∷ xs) ys = omega (arith, sizes-append xs ys)

-- The bytes are those of the blocks, as a 64-bit number, and the next counter is 1 to 255.
abbrev pub IsSound : FlashSequence → Type 0
IsSound seq =
    (seq.total_bytes_transferred ≡ sizes seq.blocks % 2 ^ 64)
    × ((1 ≤ seq.expected_sequence_counter) × (seq.expected_sequence_counter ≤ 255))

abbrev pub IsShort : ℕ → List FlashSequence → Type 0
IsShort limit hist = (length hist ≤ limit) × All IsSound hist

-- An ECU has one active sequence at most, every sequence is sound, and no history is longer than
-- the options allow.
abbrev pub Sound : Tracker → Type 0
Sound t =
    IsKeyed t.active × (Values IsSound t.active × Values (IsShort t.options.max_history) t.history)

pub new_sequence-IsSound : (ecu tester : ℕ) → IsSound (new_sequence ecu tester)
new_sequence-IsSound ecu tester = (omega arith, (omega arith, omega arith))

pub put-Sound :
    (ecu : ℕ) (seq : FlashSequence) (t : Tracker) → IsSound seq → Sound t → Sound (put ecu seq t)
unfolding put
put-Sound ecu seq t s h =
    (insert-IsKeyed ecu seq t.active h.0, (insert-Values IsSound ecu seq t.active s h.1.0, h.1.1))

pub emit_event-Sound :
    (event : FlashEvent) (seq : FlashSequence) (t : Tracker)
    → Sound t
    → Sound (emit_event event seq t)
unfolding emit_event
emit_event-Sound event seq t h = h

enforce_limit-IsShort :
    (limit : ℕ) (hist : List FlashSequence)
    → All IsSound hist
    → IsShort limit (enforce_limit limit hist)
unfolding enforce_limit
enforce_limit-IsShort limit [] h = (omega arith, tt)
enforce_limit-IsShort limit (seq ∷ hist) h = elim (Bool-cases (ltb limit (length (seq ∷ hist)))) [
  | inl long ↦ rw long (enforce_limit-IsShort limit hist h.1)
  | inr short ↦ rw short (ground arith, h)
]

All-snoc :
    (hist : List FlashSequence) (seq : FlashSequence)
    → All IsSound hist
    → IsSound seq
    → All IsSound (hist ++ seq ∷ [])
All-snoc [] seq h s = (s, tt)
All-snoc (x ∷ hist) seq h s = (h.0, All-snoc hist seq h.1 s)

or_empty-IsSound : (ecu : ℕ) (t : Tracker) → Sound t → All IsSound (or_empty (lookup ecu t.history))
or_empty-IsSound ecu t h = elim (Option-cases (lookup ecu t.history)) [
  | inl n ↦ rw n tt
  | inr (hist, e) ↦ rw e (lookup-Values (IsShort t.options.max_history) ecu t.history h.1.1 e).1
]

pub archive_sequence-Sound : (ecu : ℕ) (t : Tracker) → Sound t → Sound (archive_sequence ecu t)
unfolding archive_sequence
archive_sequence-Sound ecu t h = elim (Option-cases (lookup ecu t.active)) [
  | inl n ↦ rw (archive_sequence, n) h
  | inr (seq, e) ↦
      let s = lookup-Values IsSound ecu t.active h.1.0 e in
      let limit = t.options.max_history in
      let hist = or_empty (lookup ecu t.history) ++ seq ∷ [] in
      rw (archive_sequence, e)
        (
          erase-IsKeyed ecu t.active h.0,
          (
            erase-Values IsSound ecu t.active h.1.0,
            insert-Values (IsShort limit) ecu (enforce_limit limit hist) t.history
                (enforce_limit-IsShort limit hist (All-snoc _ seq (or_empty-IsSound ecu t h) s))
                h.1.1,
          ),
        )
]

create_sequence-Sound :
    (ecu tester : ℕ) (t : Tracker)
    → Sound t
    → let r = create_sequence ecu tester t in IsSound r.0 × Sound r.1
unfolding create_sequence
create_sequence-Sound ecu tester t h = (
  new_sequence-IsSound ecu tester,
  put-Sound ecu (new_sequence ecu tester) (archive_sequence ecu t) (new_sequence-IsSound ecu tester)
      (archive_sequence-Sound ecu t h),
)

pub get_or_create_sequence-Sound :
    (ecu tester : ℕ) (t : Tracker)
    → Sound t
    → let r = get_or_create_sequence ecu tester t in IsSound r.0 × Sound r.1
unfolding get_or_create_sequence
get_or_create_sequence-Sound ecu tester t h = elim (Option-cases (lookup ecu t.active)) [
  | inl n ↦ rw (get_or_create_sequence, n) (create_sequence-Sound ecu tester t h)
  | inr (seq, e) ↦ elim (Bool-cases (is_active seq)) [
    | inl a ↦ rw (get_or_create_sequence, e, a) (lookup-Values IsSound ecu t.active h.1.0 e, h)
    | inr a ↦ rw (get_or_create_sequence, e, a) (create_sequence-Sound ecu tester t h)
  ]
]

pub complete_sequence-Sound :
    (success : Bool) (seq : FlashSequence) (t : Tracker)
    → IsSound seq
    → Sound t
    → let r = complete_sequence success seq t in IsSound r.0 × Sound r.1
unfolding complete_sequence
complete_sequence-Sound true seq t s h = (s, h)
complete_sequence-Sound false seq t s h = (s, h)
