-- ===== src/Flash/Erase.antt =====
-- What the tracker makes of the erase routine.
use wadjet_link.Prelude.{
  ℕ, ◌≡◌, ◌∙◌, ap, refl, List, [], ◌∷◌, ◌++◌, true, false, ◌==◌, some, if◌then◌else◌, inl, inr,
  Bool-cases,
}
use wadjet_link.Prelude.Assoc.{nat_eq, lookup}
use wadjet_link.Prelude.Integers.{duration}
use wadjet_link.Flash.Sequence.{
  FlashSequence, erase_started, erase_complete, new_sequence, is_active, is_active_state,
  erase_completed, Options,
}
use wadjet_link.Flash.Tracker.{Tracker, put, emit_event, create_sequence, get_or_create_sequence}
use wadjet_link.Flash.Tracker.Requests.{
  RoutineControlRequest, erase_memory, is_verification, control_erase, process_routine_control,
}
use wadjet_link.Flash.Tracker.Responses.{
  milliseconds, RoutineControlResponse, is_erasing, is_verifying, finish_erase, finish_verification,
  process_routine_control_response,
}
use wadjet_link.Flash.Frame.{
  put_found, get_or_create_sequence_replaces, get_or_create_sequence-options,
}

abbrev pub erase_request : ℕ → RoutineControlRequest
erase_request control = record { routine_control_type = control; routine_identifier = erase_memory }

process_routine_control_erase :
    (control source target timestamp : ℕ) (t : Tracker)
    → t.options.track_erase_routines ≡ true
    → process_routine_control (erase_request control) source target timestamp t
      ≡ control_erase control source target t
unfolding process_routine_control is_verification
process_routine_control_erase control source target timestamp t o =
    elim (Bool-cases (control_erase control source target t).options.track_verification) [
      | inl v ↦ rw (v, o) refl
      | inr v ↦ rw (v, o) refl
    ]

abbrev begun : ℕ → ℕ → Tracker → FlashSequence
begun source target t = record (get_or_create_sequence target source t).0 {
  state = erase_started;
  erase_performed = true;
}

control_erase_found :
    (source target : ℕ) (t : Tracker)
    → lookup target (control_erase 1 source target t).active ≡ some (begun source target t)
unfolding control_erase emit_event
control_erase_found source target t = put_found target _ _

control_erase-options :
    (source target : ℕ) (t : Tracker) → (control_erase 1 source target t).options ≡ t.options
unfolding control_erase emit_event put
control_erase-options source target t = get_or_create_sequence-options target source t

control_erase_again :
    (source target : ℕ) (t : Tracker) {seq : FlashSequence}
    → lookup target t.active ≡ some seq
    → is_active seq ≡ false
    → lookup target (control_erase 3 source target t).active ≡ some (new_sequence target source)
unfolding control_erase emit_event create_sequence
control_erase_again source target t e a =
    rw (get_or_create_sequence_replaces target source t e a) (put_found target _ _)

abbrev pub erase_response : List ℕ → RoutineControlResponse
erase_response status = record { routine_identifier = erase_memory; routine_status_record = status }

abbrev erased : ℕ → FlashSequence → FlashSequence
erased timestamp seq = record seq {
  state = erase_complete;
  erase_duration =
      if seq.start_time == 0
      then seq.erase_duration
      else duration milliseconds timestamp seq.start_time;
}

process_routine_control_response_erases :
    (status : List ℕ) (source target timestamp : ℕ) (t : Tracker) {seq : FlashSequence}
    → lookup source t.active ≡ some seq
    → is_erasing seq.state ≡ true
    → process_routine_control_response (erase_response status) source target timestamp t
      ≡ emit_event erase_completed (erased timestamp seq) (put source (erased timestamp seq) t)
unfolding process_routine_control_response finish_erase finish_verification is_verifying
process_routine_control_response_erases status source target timestamp t e a =
    rw (process_routine_control_response, e, a) refl

process_routine_control_response_idle :
    (resp : RoutineControlResponse) (source target timestamp : ℕ) (t : Tracker)
    {seq : FlashSequence}
    → lookup source t.active ≡ some seq
    → is_erasing seq.state ≡ false
    → is_verifying seq.state ≡ false
    → process_routine_control_response resp source target timestamp t ≡ t
unfolding process_routine_control_response finish_erase finish_verification
process_routine_control_response_idle resp source target timestamp t e a v =
    elim (Bool-cases (resp.routine_identifier == erase_memory)) [
      | inl b ↦ rw (process_routine_control_response, e, b, a, v) refl
      | inr b ↦ rw (process_routine_control_response, e, b, v) refl
    ]

-- Start of the erase routine and then its response, with nothing between them: the sequence of the
-- ECU is in EraseComplete, and EraseCompleted is the one event that the response emits.
pub process_routine_control_completes :
    (source ecu n0 n1 : ℕ) (t : Tracker) (status : List ℕ)
    → t.options.track_erase_routines ≡ true
    → let t1 = process_routine_control (erase_request 1) source ecu n0 t in
      let t2 = process_routine_control_response (erase_response status) ecu source n1 t1 in
      (seq : FlashSequence) × ((seq.state ≡ erase_complete)
        × ((lookup ecu t2.active ≡ some seq)
            × (t2.emitted ≡ t1.emitted ++ (erase_completed, seq) ∷ [])))
unfolding emit_event put is_erasing
process_routine_control_completes source ecu n0 n1 t status o =
    let t1 = control_erase 1 source ecu t in
    let seq = erased n1 (begun source ecu t) in
    let found = control_erase_found source ecu t in
    rw
      (
        process_routine_control_erase 1 source ecu n0 t o,
        process_routine_control_response_erases status ecu source n1 t1 found refl,
      )
      (seq, (refl, (put_found ecu seq t1, refl)))

-- When the tester asks for the routine's results before the response, that request replaces the
-- sequence by a new idle one, and every later response finds nothing to complete: it changes nothing,
-- and the erase is never reported as done.
pub process_routine_control_forgets :
    (source ecu n0 n1 n2 : ℕ) (t : Tracker) (resp : RoutineControlResponse)
    → t.options.track_erase_routines ≡ true
    → let t1 = process_routine_control (erase_request 1) source ecu n0 t in
      let t2 = process_routine_control (erase_request 3) source ecu n1 t1 in
      (lookup ecu t2.active ≡ some (new_sequence ecu source))
      × (process_routine_control_response resp ecu source n2 t2 ≡ t2)
unfolding is_active_state is_erasing is_verifying
process_routine_control_forgets source ecu n0 n1 n2 t resp o =
    let t1 = control_erase 1 source ecu t in
    let found = control_erase_found source ecu t in
    let o1 : t1.options.track_erase_routines ≡ true =
      ap (λ (x : Options). x.track_erase_routines) (control_erase-options source ecu t) ∙ o in
    let again = control_erase_again source ecu t1 found refl in
    rw
      (
        process_routine_control_erase 1 source ecu n0 t o,
        process_routine_control_erase 3 source ecu n1 t1 o1,
      )
      (again, process_routine_control_response_idle resp ecu source n2 _ again refl refl)
