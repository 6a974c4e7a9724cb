-- ===== src/Flash/Invariant/Responses.antt =====
-- The handlers of responses keep the sequences sound.
use wadjet_link.Prelude.{
  ℕ, ◌+◌, ◌%◌, ◌^◌, ◌≡◌, refl, sym, ap, ◌∙◌, List, [], ◌∷◌, true, false, not, none, some, ◌==◌, inl,
  inr, Bool-cases, Option-cases, arith,
}
use wadjet_link.Prelude.Assoc.{nat_eq, lookup}
use wadjet_link.Flash.Sequence.{FlashBlock, FlashSequence}
use wadjet_link.Flash.Tracker.{Tracker}
use wadjet_link.Flash.Tracker.Requests.{erase_memory}
use wadjet_link.Flash.Tracker.Responses.{
  NegativeResponseMessage, RoutineControlResponse, matches, acknowledge, fail_last, reject_block,
  is_flash_related, accept_transfer, transfer_data_sid, request_transfer_exit_sid, is_erasing,
  is_verifying, finish_erase, finish_verification, process_request_download_response,
  process_request_upload_response, process_transfer_data_response, process_transfer_exit_response,
  process_negative_response, process_routine_control_response, fail_sequence,
}
use wadjet_link.Flash.Invariant.{
  sizes, IsSound, Sound, put-Sound, emit_event-Sound, complete_sequence-Sound,
}
use wadjet_link.Flash.Invariant.Helpers.{found-IsSound, if-Sound}

accept_transfer-Sound :
    (max_length source timestamp : ℕ) (t : Tracker)
    → Sound t
    → Sound (accept_transfer max_length source timestamp t)
unfolding accept_transfer
accept_transfer-Sound max_length source timestamp t h =
    elim (Option-cases (lookup source t.active)) [
      | inl n ↦ rw (accept_transfer, n) h
      | inr (seq, e) ↦ rw (accept_transfer, e) (put-Sound source _ t (found-IsSound source t h e) h)
    ]

pub process_request_download_response-Sound :
    (max_length source target timestamp : ℕ) (t : Tracker)
    → Sound t
    → Sound (process_request_download_response max_length source target timestamp t)
unfolding process_request_download_response
process_request_download_response-Sound max_length source target timestamp t h =
    accept_transfer-Sound max_length source timestamp t h

pub process_request_upload_response-Sound :
    (max_length source target timestamp : ℕ) (t : Tracker)
    → Sound t
    → Sound (process_request_upload_response max_length source target timestamp t)
unfolding process_request_upload_response
process_request_upload_response-Sound max_length source target timestamp t h =
    accept_transfer-Sound max_length source timestamp t h

sizes-acknowledge :
    (counter : ℕ) (blocks : List FlashBlock) {blocks' : List FlashBlock}
    → acknowledge counter blocks ≡ some blocks'
    → sizes blocks' ≡ sizes blocks
unfolding acknowledge
sizes-acknowledge counter [] e = cc
sizes-acknowledge counter (b ∷ blocks) {blocks'} e = elim (Bool-cases (matches counter b)) [
  | inl m ↦
      let q : some (record b { acknowledged = true } ∷ blocks) ≡ some blocks' = rw m at e in
      let p : record b { acknowledged = true } ∷ blocks ≡ blocks' = cc q in ap sizes (sym p)
  | inr m ↦ elim (Option-cases (acknowledge counter blocks)) [
    | inl n ↦ let q : none ≡ some blocks' = rw (m, n) at e in cc
    | inr (later, f) ↦
        let q : some (b ∷ later) ≡ some blocks' = rw (m, f) at e in
        let p : b ∷ later ≡ blocks' = cc q in
        ap sizes (sym p) ∙ ap (λ n. b.data_size + n) (sizes-acknowledge counter blocks f)
  ]
]

pub process_transfer_data_response-Sound :
    (counter source target timestamp : ℕ) (t : Tracker)
    → Sound t
    → Sound (process_transfer_data_response counter source target timestamp t)
unfolding process_transfer_data_response
process_transfer_data_response-Sound counter source target timestamp t h =
    elim (Option-cases (lookup source t.active)) [
      | inl n ↦ rw (process_transfer_data_response, n) h
      | inr (seq, e) ↦ elim (Option-cases (acknowledge counter seq.blocks)) [
        | inl n ↦ rw (process_transfer_data_response, e, n) h
        | inr (blocks, f) ↦
            let s = found-IsSound source t h e in
            rw (process_transfer_data_response, e, f)
              (emit_event-Sound _ _ _ (
                put-Sound source _ t
                  (omega (arith, s.0, sizes-acknowledge counter seq.blocks f), s.1) h))
      ]
    ]

pub process_transfer_exit_response-Sound :
    (source target timestamp : ℕ) (t : Tracker)
    → Sound t
    → Sound (process_transfer_exit_response source target timestamp t)
unfolding process_transfer_exit_response
process_transfer_exit_response-Sound source target timestamp t h =
    elim (Option-cases (lookup source t.active)) [
      | inl n ↦ rw (process_transfer_exit_response, n) h
      | inr (seq, e) ↦
          let c = complete_sequence-Sound true _ t (found-IsSound source t h e) h in
          rw (process_transfer_exit_response, e)
            (emit_event-Sound _ _ _ (emit_event-Sound _ _ _ (put-Sound source _ _ c.0 c.1)))
    ]

sizes-fail_last :
    (code : ℕ) (blocks : List FlashBlock) → sizes (fail_last code blocks) ≡ sizes blocks
unfolding fail_last
sizes-fail_last code [] = refl
sizes-fail_last code (b ∷ []) = refl
sizes-fail_last code (b ∷ (c ∷ blocks)) =
    ap (λ n. b.data_size + n) (sizes-fail_last code (c ∷ blocks))

fail_last-IsSound :
    (code : ℕ) (seq : FlashSequence)
    → IsSound seq
    → IsSound (record seq { blocks = fail_last code seq.blocks })
fail_last-IsSound code seq s =
    (s.0 ∙ ap (λ n. n % 2 ^ 64) (sym (sizes-fail_last code seq.blocks)), s.1)

fail_sequence-Sound :
    (source : ℕ) (seq : FlashSequence) (t : Tracker)
    → IsSound seq
    → Sound t
    → Sound (fail_sequence source seq t)
fail_sequence-Sound source seq t s h =
    let c = complete_sequence-Sound false seq t s h in
    emit_event-Sound _ _ _ (put-Sound source _ _ c.0 c.1)

reject_block-Sound :
    (code source timestamp : ℕ) (seq : FlashSequence) (t : Tracker)
    → IsSound seq
    → Sound t
    → Sound (reject_block code source timestamp seq t)
unfolding reject_block
reject_block-Sound code source timestamp seq t s h =
    let s0 = fail_last-IsSound code seq s in
    let h0 = emit_event-Sound _ _ _ (put-Sound source _ t s0 h) in
    if-Sound _ _ _ (fail_sequence-Sound source _ _ s0 h0) h0

pub process_negative_response-Sound :
    (nrc : NegativeResponseMessage) (source target timestamp : ℕ) (t : Tracker)
    → Sound t
    → Sound (process_negative_response nrc source target timestamp t)
unfolding process_negative_response
process_negative_response-Sound nrc source target timestamp t h =
    elim (Option-cases (lookup source t.active)) [
      | inl n ↦ rw (process_negative_response, n) h
      | inr (seq, e) ↦
          let s = found-IsSound source t h e in
          let sid = nrc.rejected_service_id in
          elim (Bool-cases (not (is_flash_related sid))) [
            | inl a ↦ rw (process_negative_response, e, a) h
            | inr a ↦ elim (Bool-cases (sid == transfer_data_sid)) [
              | inl b ↦
                  rw (process_negative_response, e, a, b)
                    (reject_block-Sound _ source timestamp _ t s h)
              | inr b ↦ elim (Bool-cases (sid == request_transfer_exit_sid)) [
                | inl c ↦
                    rw (process_negative_response, e, a, b, c)
                      (fail_sequence-Sound source _ _ s (emit_event-Sound _ _ t h))
                | inr c ↦
                    rw (process_negative_response, e, a, b, c) (fail_sequence-Sound source _ t s h)
              ]
            ]
          ]
    ]

finish_erase-Sound :
    (source timestamp : ℕ) (seq : FlashSequence) (t : Tracker)
    → IsSound seq
    → Sound t
    → let r = finish_erase source timestamp seq t in IsSound r.0 × Sound r.1
unfolding finish_erase
finish_erase-Sound source timestamp seq t s h = elim (Bool-cases (is_erasing seq.state)) [
  | inl a ↦ rw a (s, emit_event-Sound _ _ _ (put-Sound source _ t s h))
  | inr a ↦ rw a (s, h)
]

finish_verification-Sound :
    (status : List ℕ) (source : ℕ) (seq : FlashSequence) (t : Tracker)
    → IsSound seq
    → Sound t
    → Sound (finish_verification status source seq t)
unfolding finish_verification
finish_verification-Sound status source seq t s h =
    if-Sound (is_verifying seq.state) _ t (emit_event-Sound _ _ _ (put-Sound source _ t s h)) h

pub process_routine_control_response-Sound :
    (resp : RoutineControlResponse) (source target timestamp : ℕ) (t : Tracker)
    → Sound t
    → Sound (process_routine_control_response resp source target timestamp t)
unfolding process_routine_control_response
process_routine_control_response-Sound resp source target timestamp t h =
    elim (Option-cases (lookup source t.active)) [
      | inl n ↦ rw (process_routine_control_response, n) h
      | inr (seq, e) ↦
          let s = found-IsSound source t h e in
          elim (Bool-cases (resp.routine_identifier == erase_memory)) [
            | inl a ↦
                let f = finish_erase-Sound source timestamp seq t s h in
                rw (process_routine_control_response, e, a)
                  (finish_verification-Sound _ source _ _ f.0 f.1)
            | inr a ↦
                rw (process_routine_control_response, e, a)
                  (finish_verification-Sound _ source seq t s h)
          ]
    ]
