-- ===== src/Flash/Frame.antt =====
-- What the helpers of the tracker leave alone, and where they put a sequence.
use wadjet_link.Prelude.{
  ℕ, ◌≡◌, ◌≢◌, refl, false, none, some, if◌then◌else◌, inl, inr, Bool-cases, Option-cases, arith,
  ==_iff, ◌==◌, subst,
}
use wadjet_link.Prelude.Assoc.{nat_eq, lookup, lookup-insert, lookup-erase}
use wadjet_link.Flash.Sequence.{FlashSequence, is_active}
use wadjet_link.Flash.Tracker.{
  Tracker, put, archive_sequence, create_sequence, get_or_create_sequence,
}

pub put_found :
    (ecu : ℕ) (seq : FlashSequence) (t : Tracker) → lookup ecu (put ecu seq t).active ≡ some seq
unfolding put
put_found ecu seq t = ground (arith, lookup-insert ecu ecu seq t.active)

pub put_other :
    (ecu other : ℕ) (seq : FlashSequence) (t : Tracker)
    → ecu ≢ other
    → lookup other (put ecu seq t).active ≡ lookup other t.active
unfolding put
put_other ecu other seq t d = ground (arith, lookup-insert ecu other seq t.active)

pub archive_sequence-options :
    (ecu : ℕ) (t : Tracker) → (archive_sequence ecu t).options ≡ t.options
unfolding archive_sequence
archive_sequence-options ecu t = elim (Option-cases (lookup ecu t.active)) [
  | inl n ↦ rw (archive_sequence, n) refl
  | inr (seq, e) ↦ rw (archive_sequence, e) refl
]

pub archive_sequence-emitted :
    (ecu : ℕ) (t : Tracker) → (archive_sequence ecu t).emitted ≡ t.emitted
unfolding archive_sequence
archive_sequence-emitted ecu t = elim (Option-cases (lookup ecu t.active)) [
  | inl n ↦ rw (archive_sequence, n) refl
  | inr (seq, e) ↦ rw (archive_sequence, e) refl
]

-- Archived is no longer active, and the other sequences stay.
pub archive_sequence-active :
    (ecu other : ℕ) (t : Tracker)
    → lookup other (archive_sequence ecu t).active
      ≡ (if ecu == other then none else lookup other t.active)
unfolding archive_sequence
archive_sequence-active ecu other t = elim (Option-cases (lookup ecu t.active)) [
  | inl n ↦ elim (Bool-cases (ecu == other)) [
    | inl a ↦
        let same : ecu ≡ other = (==_iff ecu other).0 a in
        rw (archive_sequence, n, a) (subst (λ k. lookup k t.active ≡ none) same n)
    | inr a ↦ rw (archive_sequence, n, a) refl
  ]
  | inr (seq, e) ↦ rw (archive_sequence, e) (lookup-erase ecu other t.active)
]

-- A sequence that is there but not active is replaced.
pub get_or_create_sequence_replaces :
    (ecu tester : ℕ) (t : Tracker) {seq : FlashSequence}
    → lookup ecu t.active ≡ some seq
    → is_active seq ≡ false
    → get_or_create_sequence ecu tester t ≡ create_sequence ecu tester t
unfolding get_or_create_sequence
get_or_create_sequence_replaces ecu tester t e a = rw (get_or_create_sequence, e, a) refl

pub get_or_create_sequence_creates :
    (ecu tester : ℕ) (t : Tracker)
    → lookup ecu t.active ≡ none
    → get_or_create_sequence ecu tester t ≡ create_sequence ecu tester t
unfolding get_or_create_sequence
get_or_create_sequence_creates ecu tester t e = rw (get_or_create_sequence, e) refl

pub get_or_create_sequence-options :
    (ecu tester : ℕ) (t : Tracker) → (get_or_create_sequence ecu tester t).1.options ≡ t.options
unfolding get_or_create_sequence create_sequence put
get_or_create_sequence-options ecu tester t = elim (Option-cases (lookup ecu t.active)) [
  | inl n ↦ rw (get_or_create_sequence, n) (archive_sequence-options ecu t)
  | inr (seq, e) ↦ elim (Bool-cases (is_active seq)) [
    | inl a ↦ rw (get_or_create_sequence, e, a) refl
    | inr a ↦ rw (get_or_create_sequence, e, a) (archive_sequence-options ecu t)
  ]
]
