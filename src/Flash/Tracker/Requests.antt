-- ===== src/Flash/Tracker/Requests.antt =====
-- The handlers of requests, which the tester (`source`) sends to the ECU (`target`).
use wadjet_link.Prelude.{
  ℕ, ◌+◌, ◌%◌, ◌^◌, List, [], ◌∷◌, ◌++◌, Bool, true, false, not, ◌&&◌, ◌||◌, none, some, leb, ◌==◌,
  if◌then◌else◌, length,
}
use wadjet_link.Prelude.Assoc.{nat_eq, lookup}
use wadjet_link.Prelude.Integers.{duration}
use wadjet_link.Flash.Sequence.{
  FlashSequence, FlashOperationType, download, upload, downloading, verifying, erase_started,
  FlashEvent, erase_started_event, erase_progress, download_started, upload_started,
  block_transferred, verification_start,
}
use wadjet_link.Flash.Tracker.{Tracker, add64, put, emit_event, get_or_create_sequence}

-- `RequestDownloadRequest` and `RequestUploadRequest`, which hold the same; the format is its byte.
pub record MemoryRequest : Type 0 where
  pub data_format : ℕ
  pub memory_address : ℕ
  pub memory_size : ℕ

abbrev pub start_transfer :
    FlashOperationType → FlashEvent → MemoryRequest → ℕ → ℕ → ℕ → Tracker → Tracker
start_transfer operation event req source target timestamp t =
    let (seq0, t0) = get_or_create_sequence target source t in
    let seq = record seq0 {
      operation_type = operation;
      state = downloading;
      start_time = timestamp;
      region = record seq0.region {
        start_address = req.memory_address;
        size = req.memory_size;
        data_format = req.data_format;
      };
    } in
    let stats = record t0.stats { sequences_started = add64 t0.stats.sequences_started 1 } in
    emit_event event seq (put target seq (record t0 { stats = stats }))

unfoldable pub process_request_download : MemoryRequest → ℕ → ℕ → ℕ → Tracker → Tracker
process_request_download req source target timestamp t =
    start_transfer download download_started req source target timestamp t

unfoldable pub process_request_upload : MemoryRequest → ℕ → ℕ → ℕ → Tracker → Tracker
process_request_upload req source target timestamp t =
    start_transfer upload upload_started req source target timestamp t

pub record TransferDataRequest : Type 0 where
  pub block_sequence_counter : ℕ
  pub transfer_request_parameter_record : List ℕ

-- `static_cast<uint8_t>((counter % 255) + 1)`, and 1 where that is 0.
unfoldable pub next_counter : ℕ → ℕ
next_counter counter = let next = (counter % 255 + 1) % 2 ^ 8 in if next == 0 then 1 else next

unfoldable pub add_block : TransferDataRequest → ℕ → FlashSequence → FlashSequence
add_block req timestamp seq =
    let n = length req.transfer_request_parameter_record in
    record seq {
      blocks =
          seq.blocks
          ++ record {
            sequence_counter = req.block_sequence_counter;
            data_size = n;
            timestamp = timestamp;
            acknowledged = false;
            error_code = none;
          }
            ∷ [];
      total_bytes_transferred = add64 seq.total_bytes_transferred n;
      expected_sequence_counter = next_counter req.block_sequence_counter;
      total_duration = duration (10 ^ 6) timestamp seq.start_time;
    }

abbrev pub count_block : ℕ → Tracker → Tracker
count_block n t = record t {
  stats = record t.stats {
    total_bytes_transferred = add64 t.stats.total_bytes_transferred n;
    total_blocks_transferred = add64 t.stats.total_blocks_transferred 1;
  };
}

unfoldable pub process_transfer_data : TransferDataRequest → ℕ → ℕ → ℕ → Tracker → Tracker
process_transfer_data req source target timestamp t = elim (lookup target t.active) [
  | none ↦ t
  | some seq0 ↦
      let seq = add_block req timestamp seq0 in
      let n = length req.transfer_request_parameter_record in
      emit_event block_transferred seq (count_block n (put target seq t))
]

-- It waits for the response.
unfoldable pub process_transfer_exit : List ℕ → ℕ → ℕ → ℕ → Tracker → Tracker
process_transfer_exit req source target timestamp t = t

-- The type of control is its byte: 1 starts the routine, 3 asks for its results.
pub record RoutineControlRequest : Type 0 where
  pub routine_control_type : ℕ
  pub routine_identifier : ℕ

abbrev pub erase_memory : ℕ
erase_memory = 0xff00

abbrev pub check_programming_dependencies : ℕ
check_programming_dependencies = 0xff01

abbrev pub is_oem_specific : ℕ → Bool
is_oem_specific routine = leb 0xf000 routine

unfoldable pub control_erase : ℕ → ℕ → ℕ → Tracker → Tracker
control_erase control source target t =
    let (seq0, t0) = get_or_create_sequence target source t in
    if control == 1
    then (let seq = record seq0 { state = erase_started; erase_performed = true } in
        let stats = record t0.stats { erase_operations = add64 t0.stats.erase_operations 1 } in
        emit_event erase_started_event seq (put target seq (record t0 { stats = stats })))
    else if control == 3
    then emit_event erase_progress seq0 t0
    else t0

unfoldable pub is_verification : ℕ → Bool
is_verification routine =
    routine == check_programming_dependencies
    || (is_oem_specific routine && not (routine == erase_memory))

unfoldable pub start_verification : ℕ → Tracker → Tracker
start_verification target t = elim (lookup target t.active) [
  | none ↦ t
  | some seq0 ↦
      let seq = record seq0 { state = verifying } in
      let n = t.stats.verification_operations in
      let stats = record t.stats { verification_operations = add64 n 1 } in
      emit_event verification_start seq (put target seq (record t { stats = stats }))
]

unfoldable pub process_routine_control : RoutineControlRequest → ℕ → ℕ → ℕ → Tracker → Tracker
process_routine_control req source target timestamp t =
    if not t.options.track_erase_routines
    then t
    else let t0 =
        if req.routine_identifier == erase_memory
        then control_erase req.routine_control_type source target t
        else t in
      if t0.options.track_verification && is_verification req.routine_identifier
      then start_verification target t0
      else t0
