-- ===== src/Flash/Invariant/Requests.antt =====
-- The handlers of requests keep the sequences sound.
use wadjet_link.Prelude.{
  ℕ, ◌≤◌, not, ◌&&◌, if◌then◌else◌, ◌==◌, inl, inr, Bool-cases, Option-cases, arith,
}
use wadjet_link.Prelude.Assoc.{nat_eq, lookup}
use wadjet_link.Flash.Sequence.{FlashSequence}
use wadjet_link.Flash.Tracker.{Tracker}
use wadjet_link.Flash.Tracker.Requests.{
  MemoryRequest, TransferDataRequest, RoutineControlRequest, erase_memory, next_counter, add_block,
  is_verification, control_erase, start_verification, process_request_download,
  process_request_upload, process_transfer_data, process_routine_control,
}
use wadjet_link.Flash.Invariant.{
  sizes-append, IsSound, Sound, put-Sound, emit_event-Sound, get_or_create_sequence-Sound,
}
use wadjet_link.Flash.Invariant.Helpers.{found-IsSound, if-Sound}

pub process_request_download-Sound :
    (req : MemoryRequest) (source target timestamp : ℕ) (t : Tracker)
    → Sound t
    → Sound (process_request_download req source target timestamp t)
unfolding process_request_download
process_request_download-Sound req source target timestamp t h =
    let g = get_or_create_sequence-Sound target source t h in
    emit_event-Sound _ _ _ (put-Sound target _ _ g.0 g.1)

pub process_request_upload-Sound :
    (req : MemoryRequest) (source target timestamp : ℕ) (t : Tracker)
    → Sound t
    → Sound (process_request_upload req source target timestamp t)
unfolding process_request_upload
process_request_upload-Sound req source target timestamp t h =
    let g = get_or_create_sequence-Sound target source t h in
    emit_event-Sound _ _ _ (put-Sound target _ _ g.0 g.1)

pub next_counter_lem : (counter : ℕ) → (1 ≤ next_counter counter) × (next_counter counter ≤ 255)
next_counter_lem counter = unfold next_counter in (ground arith, ground arith)

add_block-IsSound :
    (req : TransferDataRequest) (timestamp : ℕ) (seq : FlashSequence)
    → IsSound seq
    → IsSound (add_block req timestamp seq)
unfolding add_block
add_block-IsSound req timestamp seq h =
    (omega (arith, sizes-append seq.blocks _, h.0), next_counter_lem req.block_sequence_counter)

pub process_transfer_data-Sound :
    (req : TransferDataRequest) (source target timestamp : ℕ) (t : Tracker)
    → Sound t
    → Sound (process_transfer_data req source target timestamp t)
unfolding process_transfer_data
process_transfer_data-Sound req source target timestamp t h =
    elim (Option-cases (lookup target t.active)) [
      | inl n ↦ rw (process_transfer_data, n) h
      | inr (seq, e) ↦
          let s = add_block-IsSound req timestamp seq (found-IsSound target t h e) in
          rw (process_transfer_data, e) (emit_event-Sound _ _ _ (put-Sound target _ t s h))
    ]

control_erase-Sound :
    (control source target : ℕ) (t : Tracker)
    → Sound t
    → Sound (control_erase control source target t)
unfolding control_erase
control_erase-Sound control source target t h =
    let g = get_or_create_sequence-Sound target source t h in
    elim (Bool-cases (control == 1)) [
      | inl a ↦ rw a (emit_event-Sound _ _ _ (put-Sound target _ _ g.0 g.1))
      | inr a ↦ elim (Bool-cases (control == 3)) [
        | inl b ↦ rw (a, b) (emit_event-Sound _ _ _ g.1)
        | inr b ↦ rw (a, b) g.1
      ]
    ]

start_verification-Sound :
    (target : ℕ) (t : Tracker) → Sound t → Sound (start_verification target t)
unfolding start_verification
start_verification-Sound target t h = elim (Option-cases (lookup target t.active)) [
  | inl n ↦ rw (start_verification, n) h
  | inr (seq, e) ↦
      rw (start_verification, e)
        (emit_event-Sound _ _ _ (put-Sound target _ _ (found-IsSound target t h e) h))
]

pub process_routine_control-Sound :
    (req : RoutineControlRequest) (source target timestamp : ℕ) (t : Tracker)
    → Sound t
    → Sound (process_routine_control req source target timestamp t)
unfolding process_routine_control
process_routine_control-Sound req source target timestamp t h =
    let routine = req.routine_identifier in
    let erased = control_erase req.routine_control_type source target t in
    let t0 = if routine == erase_memory then erased else t in
    let h0 : Sound t0 =
      if-Sound (routine == erase_memory) erased t
        (control_erase-Sound req.routine_control_type source target t h) h in
    if-Sound (not t.options.track_erase_routines) t _ h (
      if-Sound (t0.options.track_verification && is_verification routine) _ t0
        (start_verification-Sound target t0 h0) h0)
