-- ===== src/Flash/Ends.antt =====
-- How sequences end: by a timeout, and by the response to RequestTransferExit.
use wadjet_link.Prelude.{
  ℕ, ◌+◌, ◌%◌, ◌^◌, ◌≡◌, ◌≢◌, ◌∙◌, ap, refl, subst, List, [], ◌∷◌, Bool, false, not, ◌||◌, ◌==◌,
  Option, none, some, if◌then◌else◌, inl, inr, Bool-cases, Option-cases, arith, ==_iff,
}
use wadjet_link.Prelude.Assoc.{nat_eq, lookup}
use wadjet_link.Prelude.Keyed.{IsKeyed, keep_if}
use wadjet_link.Flash.Sequence.{FlashSequence, Statistics}
use wadjet_link.Flash.Tracker.{Tracker, add64, put, emit_event, complete_sequence}
use wadjet_link.Flash.Tracker.Responses.{process_transfer_exit_response}
use wadjet_link.Flash.Tracker.Upkeep.{is_late, to_timeout, time_out, time_out_all, check_timeouts}
use wadjet_link.Flash.Frame.{put_found, put_other, archive_sequence-active}

abbrev member : ℕ → List ℕ → Bool
member k [] = false
member k (x ∷ xs) = x == k || member k xs

time_out-active :
    (now ecu other : ℕ) (t : Tracker)
    → lookup other (time_out now ecu t).active
      ≡ (if ecu == other then none else lookup other t.active)
unfolding time_out emit_event
time_out-active now ecu other t = elim (Bool-cases (ecu == other)) [
  | inl a ↦ archive_sequence-active ecu other _ ∙ rw a refl
  | inr a ↦
      let apart : ecu ≢ other = λ e. ground (arith, ==_iff ecu other) in
      archive_sequence-active ecu other _ ∙ rw a (put_other ecu other _ _ apart)
]

time_out_all-active :
    (now : ℕ) (ecus : List ℕ) (k : ℕ) (t : Tracker)
    → lookup k (time_out_all now ecus t).active
      ≡ (if member k ecus then none else lookup k t.active)
unfolding time_out_all
time_out_all-active now [] k t = refl
time_out_all-active now (ecu ∷ ecus) k t =
    let rest = time_out_all-active now ecus k (time_out now ecu t) in
    let one = time_out-active now ecu k t in
    elim (Bool-cases (ecu == k)) [
      | inl a ↦ elim (Bool-cases (member k ecus)) [
        | inl b ↦ rest ∙ rw (b, a) refl
        | inr b ↦ rest ∙ rw (b, one, a) refl
      ]
      | inr a ↦ elim (Bool-cases (member k ecus)) [
        | inl b ↦ rest ∙ rw (b, a) refl
        | inr b ↦ rest ∙ rw (b, one, a) refl
      ]
    ]

abbrev late_at : ℕ → ℕ → Option FlashSequence → Bool
late_at now timeout none = false
late_at now timeout (some seq) = is_late now timeout seq

module _ (now timeout k : ℕ) where
  to_timeout_absent :
      (m : List (ℕ × FlashSequence))
      → lookup k m ≡ none
      → member k (to_timeout now timeout m) ≡ false
  unfolding to_timeout lookup
  to_timeout_absent [] h = refl
  to_timeout_absent ((j, seq) ∷ m) h = elim (Bool-cases (j == k)) [
    | inl a ↦ let s : some seq ≡ none = rw a at h in cc
    | inr a ↦
        let rest = to_timeout_absent m (rw a at h) in
        elim (Bool-cases (is_late now timeout seq)) [ inl b ↦ rw (b, a) rest | inr b ↦ rw b rest ]
  ]

  to_timeout-member :
      (m : List (ℕ × FlashSequence))
      → IsKeyed m
      → member k (to_timeout now timeout m) ≡ late_at now timeout (lookup k m)
  unfolding to_timeout lookup
  to_timeout-member [] h = refl
  to_timeout-member ((j, seq) ∷ m) h = elim (Bool-cases (j == k)) [
    | inl a ↦
        let same : j ≡ k = (==_iff j k).0 a in
        let gone = to_timeout_absent m (subst (λ i. lookup i m ≡ none) same h.0) in
        elim (Bool-cases (is_late now timeout seq)) [
          | inl b ↦ rw (b, a, b) refl
          | inr b ↦ rw (b, a, b) gone
        ]
    | inr a ↦
        let rest = to_timeout-member m h.1 in
        elim (Bool-cases (is_late now timeout seq)) [
          | inl b ↦ rw (b, a) rest
          | inr b ↦ rw (b, a) rest
        ]
  ]

-- The check for timeouts takes away exactly the active sequences that started more than
-- `sequence_timeout` whole seconds ago; every other sequence stays as it was.
pub check_timeouts_lem :
    (now k : ℕ) (t : Tracker)
    → IsKeyed t.active
    → lookup k (check_timeouts now t).1.active
      ≡ keep_if (λ seq. not (is_late now t.options.sequence_timeout seq)) (lookup k t.active)
unfolding check_timeouts
check_timeouts_lem now k t h =
    let limit = t.options.sequence_timeout in
    let ecus = to_timeout now limit t.active in
    let all = time_out_all-active now ecus k t in
    let who = to_timeout-member now limit k t.active h in
    elim (Option-cases (lookup k t.active)) [
      | inl n ↦ all ∙ rw (who, n) refl
      | inr (seq, e) ↦ elim (Bool-cases (is_late now limit seq)) [
        | inl b ↦ all ∙ rw (who, e, b) refl
        | inr b ↦ all ∙ rw (who, e, b) refl
      ]
    ]

exit_once :
    (source ecu n : ℕ) (t : Tracker) {seq : FlashSequence}
    → lookup ecu t.active ≡ some seq
    → let t1 = process_transfer_exit_response ecu source n t in
      ((seq' : FlashSequence) × (lookup ecu t1.active ≡ some seq'))
      × (t1.stats ≡ record t.stats { sequences_completed = add64 t.stats.sequences_completed 1 })
unfolding process_transfer_exit_response complete_sequence emit_event put
exit_once source ecu n t e = rw (process_transfer_exit_response, e) ((_, put_found ecu _ t), refl)

-- The sequence stays stored after the response to RequestTransferExit, so a response that comes again
-- completes it again: one sequence started, and the statistics count two completed.
pub process_transfer_exit_response_repeats :
    (source ecu n0 n1 : ℕ) (t : Tracker) {seq : FlashSequence}
    → lookup ecu t.active ≡ some seq
    → let t2 =
        process_transfer_exit_response ecu source n1
          (process_transfer_exit_response ecu source n0 t) in
      (t2.stats.sequences_completed ≡ (t.stats.sequences_completed + 2) % 2 ^ 64)
      × (t2.stats.sequences_started ≡ t.stats.sequences_started)
process_transfer_exit_response_repeats source ecu n0 n1 t e =
    let ((_, f), s) = exit_once source ecu n0 t e in
    let (_, s1) = exit_once source ecu n1 _ f in
    (
      ap (λ (x : Statistics). x.sequences_completed) s1
          ∙ omega (arith, ap (λ (x : Statistics). x.sequences_completed) s),
      ap (λ (x : Statistics). x.sequences_started) s1
          ∙ ap (λ (x : Statistics). x.sequences_started) s,
    )
