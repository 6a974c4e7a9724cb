-- ===== src/Examples/FlashRuns.antt =====
-- The flash sequence tracker at concrete inputs.
use wadjet_link.Prelude.{◌≡◌, ◌*◌, ◌%◌, ◌^◌, refl, List, [], ◌∷◌, true, not, none, some}
use wadjet_link.Prelude.Assoc.{nat_eq, lookup}
use wadjet_link.Prelude.Keyed.{IsKeyed, keep_if}
use wadjet_link.Flash.Sequence.{
  FlashSequence, transferring, complete, new_sequence, successful_blocks, Options,
}
use wadjet_link.Flash.Tracker.{Tracker}
use wadjet_link.Flash.Tracker.Requests.{
  MemoryRequest, TransferDataRequest, process_request_download, process_transfer_data,
}
use wadjet_link.Flash.Tracker.Responses.{
  NegativeResponseMessage, process_request_download_response, process_transfer_exit_response,
}
use wadjet_link.Flash.Tracker.Upkeep.{is_late, check_timeouts}
use wadjet_link.Flash.Invariant.{Sound}
use wadjet_link.Flash.Invariant.Steps.{
  new_tracker, start, next, download_request, transfer_data, Reached-Sound,
}
use wadjet_link.Flash.Transfer.{
  Payload, send_all, region_of, process_transfer_exit_response_completes,
}
use wadjet_link.Flash.Ends.{check_timeouts_lem}

abbrev defaults : Options
defaults = record {
  track_erase_routines = true;
  track_verification = true;
  max_history = 100;
  sequence_timeout = 300;
}

abbrev empty_tracker : Tracker
empty_tracker = new_tracker defaults

abbrev request : MemoryRequest
request = record { data_format = 0; memory_address = 0x8000; memory_size = 5 }

abbrev block : TransferDataRequest
block = record { block_sequence_counter = 1; transfer_request_parameter_record = 7 ∷ 8 ∷ [] }

Reached-Sound_example :
    Sound
      (process_transfer_data block 14 16 9 (process_request_download request 14 16 5 empty_tracker))
Reached-Sound_example =
    Reached-Sound defaults
      (next (next start (download_request request 14 16 5)) (transfer_data block 14 16 9))

abbrev busy : FlashSequence
busy = record (new_sequence 16 14) { state = transferring; start_time = 5 }

abbrev busy_tracker : Tracker
busy_tracker = record empty_tracker { active = (16, busy) ∷ [] }

busy_found : lookup 16 busy_tracker.active ≡ some busy
unfolding lookup
busy_found = refl

nothing_found : lookup 16 empty_tracker.active ≡ none
unfolding lookup
nothing_found = refl

busy_tracker-IsKeyed : IsKeyed busy_tracker.active
unfolding lookup
busy_tracker-IsKeyed = (refl, tt)

abbrev refusal : NegativeResponseMessage
refusal = record { rejected_service_id = 0x36; negative_response_code = 0x72 }

abbrev two_payloads : List Payload
two_payloads = (1 ∷ 2 ∷ 3 ∷ [], (10, 11)) ∷ (4 ∷ 5 ∷ [], (12, 13)) ∷ []

process_transfer_exit_response_completes_example :
    let t1 =
      process_request_download_response 256 16 14 6
        (process_request_download request 14 16 5 empty_tracker) in
    let t2 = process_transfer_exit_response 16 14 20 (send_all 14 16 two_payloads 1 t1) in
    (seq : FlashSequence) × ((lookup 16 t2.active ≡ some seq)
      × ((seq.state ≡ complete)
          × ((seq.region ≡ region_of request 256)
              × ((successful_blocks seq ≡ 2) × (seq.total_bytes_transferred ≡ 5 % 2 ^ 64)))))
process_transfer_exit_response_completes_example =
    process_transfer_exit_response_completes request 256 14 16 5 6 20 two_payloads empty_tracker
      nothing_found

check_timeouts_lem_example :
    lookup 16 (check_timeouts (400 * 10 ^ 9) busy_tracker).1.active
    ≡ keep_if (λ seq. not (is_late (400 * 10 ^ 9) 300 seq)) (lookup 16 busy_tracker.active)
check_timeouts_lem_example = check_timeouts_lem (400 * 10 ^ 9) 16 busy_tracker busy_tracker-IsKeyed
