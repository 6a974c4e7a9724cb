-- ===== src/Flash/Tracker/Responses.antt =====
-- The handlers of responses, which the ECU (`source`) sends. The sequence is the one that is stored
-- under the ECU's address; without one nothing happens.
use wadjet_link.Prelude.{
  ℕ, ◌+◌, ◌*◌, ◌%◌, ◌^◌, List, [], ◌∷◌, Bool, true, false, not, ◌&&◌, ◌||◌, Option, none, some, ltb,
  ◌==◌, if◌then◌else◌,
}
use wadjet_link.Prelude.Assoc.{nat_eq, lookup}
use wadjet_link.Prelude.Integers.{duration}
use wadjet_link.Flash.Sequence.{
  FlashBlock, FlashSequence, FlashSequenceState, transferring, verifying, erase_started, erasing,
  erase_complete, erase_completed, block_acknowledged, block_failed, transfer_exit_ok,
  transfer_exit_fail, verification_ok, sequence_complete, sequence_failed,
}
use wadjet_link.Flash.Tracker.{Tracker, add64, put, emit_event, complete_sequence}
use wadjet_link.Flash.Tracker.Requests.{erase_memory}

abbrev pub milliseconds : ℕ
milliseconds = 10 ^ 6

abbrev pub timed : ℕ → FlashSequence → FlashSequence
timed timestamp seq = record seq { total_duration = duration milliseconds timestamp seq.start_time }

unfoldable pub accept_transfer : ℕ → ℕ → ℕ → Tracker → Tracker
accept_transfer max_number_of_block_length source timestamp t = elim (lookup source t.active) [
  | none ↦ t
  | some seq ↦
      let region = record seq.region { max_block_size = max_number_of_block_length % 2 ^ 16 } in
      put source (timed timestamp (record seq { region = region; state = transferring })) t
]

unfoldable pub process_request_download_response : ℕ → ℕ → ℕ → ℕ → Tracker → Tracker
process_request_download_response max_number_of_block_length source target timestamp t =
    accept_transfer max_number_of_block_length source timestamp t

unfoldable pub process_request_upload_response : ℕ → ℕ → ℕ → ℕ → Tracker → Tracker
process_request_upload_response max_number_of_block_length source target timestamp t =
    accept_transfer max_number_of_block_length source timestamp t

abbrev pub matches : ℕ → FlashBlock → Bool
matches counter block = block.sequence_counter == counter && not block.acknowledged

-- The loop stops at the first block that matches; `none` is no match.
unfoldable pub acknowledge : ℕ → List FlashBlock → Option (List FlashBlock)
acknowledge counter [] = none
acknowledge counter (block ∷ blocks) =
    let rest = acknowledge counter blocks in
    if matches counter block
    then some (record block { acknowledged = true } ∷ blocks)
    else elim rest [ none ↦ none | some later ↦ some (block ∷ later) ]

unfoldable pub process_transfer_data_response : ℕ → ℕ → ℕ → ℕ → Tracker → Tracker
process_transfer_data_response block_sequence_counter source target timestamp t =
    elim (lookup source t.active) [
      | none ↦ t
      | some seq0 ↦ elim (acknowledge block_sequence_counter seq0.blocks) [
        | none ↦ t
        | some blocks ↦
            let seq = timed timestamp (record seq0 { blocks = blocks }) in
            emit_event block_acknowledged seq (put source seq t)
      ]
    ]

unfoldable pub process_transfer_exit_response : ℕ → ℕ → ℕ → Tracker → Tracker
process_transfer_exit_response source target timestamp t = elim (lookup source t.active) [
  | none ↦ t
  | some seq0 ↦
      let (seq, t0) =
        complete_sequence true (timed timestamp (record seq0 { end_time = timestamp })) t in
      emit_event sequence_complete seq (emit_event transfer_exit_ok seq (put source seq t0))
]

-- `NegativeResponseMessage`; the service and the code are their bytes.
pub record NegativeResponseMessage : Type 0 where
  pub rejected_service_id : ℕ
  pub negative_response_code : ℕ

abbrev pub request_download_sid : ℕ
request_download_sid = 0x34

abbrev pub request_upload_sid : ℕ
request_upload_sid = 0x35

abbrev pub transfer_data_sid : ℕ
transfer_data_sid = 0x36

abbrev pub request_transfer_exit_sid : ℕ
request_transfer_exit_sid = 0x37

abbrev pub is_flash_related : ℕ → Bool
is_flash_related sid =
    (sid == request_download_sid || sid == request_upload_sid)
    || (sid == transfer_data_sid || sid == request_transfer_exit_sid)

-- `blocks.back().error_code = code;`, if there is a block.
unfoldable pub fail_last : ℕ → List FlashBlock → List FlashBlock
fail_last code [] = []
fail_last code (block ∷ []) = record block { error_code = some code } ∷ []
fail_last code (block ∷ (later ∷ blocks)) = block ∷ fail_last code (later ∷ blocks)

-- `complete_sequence(seq, false)` and what follows it.
abbrev pub fail_sequence : ℕ → FlashSequence → Tracker → Tracker
fail_sequence source seq0 t =
    let (seq, t0) = complete_sequence false seq0 t in
    emit_event sequence_failed seq (put source seq t0)

unfoldable pub reject_block : ℕ → ℕ → ℕ → FlashSequence → Tracker → Tracker
reject_block code source timestamp seq0 t =
    let seq = record seq0 {
      blocks = fail_last code seq0.blocks;
      retry_count = add64 seq0.retry_count 1;
    } in
    let t0 = emit_event block_failed seq (put source seq t) in
    if ltb 3 seq.retry_count
    then fail_sequence source (timed timestamp (record seq { end_time = timestamp })) t0
    else t0

unfoldable pub process_negative_response : NegativeResponseMessage → ℕ → ℕ → ℕ → Tracker → Tracker
process_negative_response nrc source target timestamp t = elim (lookup source t.active) [
  | none ↦ t
  | some seq0 ↦
      let sid = nrc.rejected_service_id in
      let seq = record seq0 { last_error = some nrc.negative_response_code } in
      let stopped = record seq { end_time = timestamp } in
      if not (is_flash_related sid)
      then t
      else if sid == transfer_data_sid
      then reject_block nrc.negative_response_code source timestamp seq t
      else if sid == request_transfer_exit_sid
      then fail_sequence source stopped (emit_event transfer_exit_fail seq t)
      else fail_sequence source stopped t
]

pub record RoutineControlResponse : Type 0 where
  pub routine_identifier : ℕ
  pub routine_status_record : List ℕ

unfoldable pub is_erasing : FlashSequenceState → Bool
is_erasing erase_started = true
is_erasing erasing = true
is_erasing _ = false

unfoldable pub is_verifying : FlashSequenceState → Bool
is_verifying verifying = true
is_verifying _ = false

unfoldable pub finish_erase : ℕ → ℕ → FlashSequence → Tracker → FlashSequence × Tracker
finish_erase source timestamp seq0 t =
    if is_erasing seq0.state
    then (let spent =
          if seq0.start_time == 0
          then seq0.erase_duration
          else duration milliseconds timestamp seq0.start_time in
        let seq = record seq0 { state = erase_complete; erase_duration = spent } in
        (seq, emit_event erase_completed seq (put source seq t)))
    else (seq0, t)

-- The first four bytes of the status record, if it has as many.
unfoldable pub checksum_of : List ℕ → Option ℕ → Option ℕ
checksum_of (b0 ∷ (b1 ∷ (b2 ∷ (b3 ∷ _)))) old = some (b0 * 2 ^ 24 + b1 * 2 ^ 16 + b2 * 2 ^ 8 + b3)
checksum_of _ old = old

unfoldable pub finish_verification : List ℕ → ℕ → FlashSequence → Tracker → Tracker
finish_verification status source seq0 t =
    if is_verifying seq0.state
    then (let seq = record seq0 {
      checksum_verified = true;
      checksum_value = checksum_of status seq0.checksum_value;
    } in
        emit_event verification_ok seq (put source seq t))
    else t

unfoldable pub process_routine_control_response :
    RoutineControlResponse → ℕ → ℕ → ℕ → Tracker → Tracker
process_routine_control_response resp source target timestamp t = elim (lookup source t.active) [
  | none ↦ t
  | some seq0 ↦
      let (seq, t0) =
        if resp.routine_identifier == erase_memory
        then finish_erase source timestamp seq0 t
        else (seq0, t) in
      finish_verification resp.routine_status_record source seq t0
]
