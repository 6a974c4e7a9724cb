-- ===== src/Flash/Invariant/Steps.antt =====
-- Everything that can happen to a `FlashSequenceTracker`, as a step relation, and the invariant.
use wadjet_link.Prelude.{ℕ, List, [], ◌∷◌, inl, inr, Bool-cases, Option-cases}
use wadjet_link.Prelude.Assoc.{nat_eq, lookup, erase-Values}
use wadjet_link.Flash.Sequence.{is_active, Options, no_statistics}
use wadjet_link.Flash.Tracker.{Tracker}
use wadjet_link.Flash.Tracker.Requests.{
  MemoryRequest, TransferDataRequest, RoutineControlRequest, process_request_download,
  process_request_upload, process_transfer_data, process_transfer_exit, process_routine_control,
}
use wadjet_link.Flash.Tracker.Responses.{
  NegativeResponseMessage, RoutineControlResponse, process_request_download_response,
  process_request_upload_response, process_transfer_data_response, process_transfer_exit_response,
  process_negative_response, process_routine_control_response,
}
use wadjet_link.Flash.Tracker.Upkeep.{
  abort_sequence, clear_history, reset, reset_statistics, or_new, time_out, time_out_all,
  check_timeouts,
}
use wadjet_link.Flash.Invariant.{
  IsSound, IsShort, Sound, new_sequence-IsSound, put-Sound, emit_event-Sound,
  archive_sequence-Sound,
}
use wadjet_link.Flash.Invariant.Helpers.{found-IsSound}
use wadjet_link.Flash.Invariant.Requests.{
  process_request_download-Sound, process_request_upload-Sound, process_transfer_data-Sound,
  process_routine_control-Sound,
}
use wadjet_link.Flash.Invariant.Responses.{
  process_request_download_response-Sound, process_request_upload_response-Sound,
  process_transfer_data_response-Sound, process_transfer_exit_response-Sound,
  process_negative_response-Sound, process_routine_control_response-Sound,
}

abort_sequence-Sound : (now ecu : ℕ) (t : Tracker) → Sound t → Sound (abort_sequence now ecu t)
unfolding abort_sequence
abort_sequence-Sound now ecu t h = elim (Option-cases (lookup ecu t.active)) [
  | inl n ↦ rw (abort_sequence, n) h
  | inr (seq, e) ↦ elim (Bool-cases (is_active seq)) [
    | inl a ↦
        let s = found-IsSound ecu t h e in
        rw (abort_sequence, e, a)
          (archive_sequence-Sound ecu _ (emit_event-Sound _ _ _ (put-Sound ecu _ _ s h)))
    | inr a ↦ rw (abort_sequence, e, a) h
  ]
]

clear_history-Sound : (ecu : ℕ) (t : Tracker) → Sound t → Sound (clear_history ecu t)
unfolding clear_history
clear_history-Sound ecu t h =
    (h.0, (h.1.0, erase-Values (IsShort t.options.max_history) ecu t.history h.1.1))

or_new-IsSound : (ecu : ℕ) (t : Tracker) → Sound t → IsSound (or_new (lookup ecu t.active))
or_new-IsSound ecu t h = elim (Option-cases (lookup ecu t.active)) [
  | inl n ↦ rw n (new_sequence-IsSound 0 0)
  | inr (seq, e) ↦ rw e (found-IsSound ecu t h e)
]

time_out-Sound : (now ecu : ℕ) (t : Tracker) → Sound t → Sound (time_out now ecu t)
unfolding time_out
time_out-Sound now ecu t h =
    let s = or_new-IsSound ecu t h in
    archive_sequence-Sound ecu _ (emit_event-Sound _ _ _ (put-Sound ecu _ _ s h))

time_out_all-Sound :
    (now : ℕ) (ecus : List ℕ) (t : Tracker) → Sound t → Sound (time_out_all now ecus t)
unfolding time_out_all
time_out_all-Sound now [] t h = h
time_out_all-Sound now (ecu ∷ ecus) t h =
    time_out_all-Sound now ecus (time_out now ecu t) (time_out-Sound now ecu t h)

abbrev pub new_tracker : Options → Tracker
new_tracker opts = record {
  options = opts;
  stats = no_statistics;
  active = [];
  history = [];
  emitted = [];
}

pub data Step (t : Tracker) : Tracker → Type 0 where
  download_request :
      (req : MemoryRequest) (source target timestamp : ℕ)
      → Step t (process_request_download req source target timestamp t)
  download_response :
      (max_length source target timestamp : ℕ)
      → Step t (process_request_download_response max_length source target timestamp t)
  upload_request :
      (req : MemoryRequest) (source target timestamp : ℕ)
      → Step t (process_request_upload req source target timestamp t)
  upload_response :
      (max_length source target timestamp : ℕ)
      → Step t (process_request_upload_response max_length source target timestamp t)
  transfer_data :
      (req : TransferDataRequest) (source target timestamp : ℕ)
      → Step t (process_transfer_data req source target timestamp t)
  transfer_data_response :
      (counter source target timestamp : ℕ)
      → Step t (process_transfer_data_response counter source target timestamp t)
  transfer_exit :
      (req : List ℕ) (source target timestamp : ℕ)
      → Step t (process_transfer_exit req source target timestamp t)
  transfer_exit_response :
      (source target timestamp : ℕ)
      → Step t (process_transfer_exit_response source target timestamp t)
  negative_response :
      (nrc : NegativeResponseMessage) (source target timestamp : ℕ)
      → Step t (process_negative_response nrc source target timestamp t)
  routine_control :
      (req : RoutineControlRequest) (source target timestamp : ℕ)
      → Step t (process_routine_control req source target timestamp t)
  routine_control_response :
      (resp : RoutineControlResponse) (source target timestamp : ℕ)
      → Step t (process_routine_control_response resp source target timestamp t)
  abort : (now ecu : ℕ) → Step t (abort_sequence now ecu t)
  timeouts : (now : ℕ) → Step t (check_timeouts now t).1
  history_cleared : (ecu : ℕ) → Step t (clear_history ecu t)
  all_reset : Step t (reset t)
  statistics_reset : Step t (reset_statistics t)

pub Step-Sound : {t t' : Tracker} → Step t t' → Sound t → Sound t'
unfolding process_transfer_exit check_timeouts reset reset_statistics
Step-Sound {t} (download_request r s g n) h = process_request_download-Sound r s g n t h
Step-Sound {t} (download_response m s g n) h = process_request_download_response-Sound m s g n t h
Step-Sound {t} (upload_request r s g n) h = process_request_upload-Sound r s g n t h
Step-Sound {t} (upload_response m s g n) h = process_request_upload_response-Sound m s g n t h
Step-Sound {t} (transfer_data r s g n) h = process_transfer_data-Sound r s g n t h
Step-Sound {t} (transfer_data_response c s g n) h = process_transfer_data_response-Sound c s g n t h
Step-Sound {t} (transfer_exit r s g n) h = h
Step-Sound {t} (transfer_exit_response s g n) h = process_transfer_exit_response-Sound s g n t h
Step-Sound {t} (negative_response r s g n) h = process_negative_response-Sound r s g n t h
Step-Sound {t} (routine_control r s g n) h = process_routine_control-Sound r s g n t h
Step-Sound {t} (routine_control_response r s g n) h =
    process_routine_control_response-Sound r s g n t h
Step-Sound {t} (abort now ecu) h = abort_sequence-Sound now ecu t h
Step-Sound {t} (timeouts now) h = time_out_all-Sound now _ t h
Step-Sound {t} (history_cleared ecu) h = clear_history-Sound ecu t h
Step-Sound {t} all_reset h = (tt, (tt, tt))
Step-Sound {t} statistics_reset h = h

pub data Reached (opts : Options) : Tracker → Type 0 where
  start : Reached opts (new_tracker opts)
  next : {t t' : Tracker} → Reached opts t → Step t t' → Reached opts t'

-- Whatever messages, aborts, timeouts and resets a tracker sees, it keeps one sequence per ECU at
-- most, no history is longer than `max_history`, and of every sequence, active or archived, the bytes
-- transferred are those of its blocks (modulo 2^64) and the expected counter is 1 to 255.
pub Reached-Sound : (opts : Options) {t : Tracker} → Reached opts t → Sound t
Reached-Sound opts start = (tt, (tt, tt))
Reached-Sound opts (next r s) = Step-Sound s (Reached-Sound opts r)
