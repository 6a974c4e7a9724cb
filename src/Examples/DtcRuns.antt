-- ===== src/Examples/DtcRuns.antt =====
-- The manager of trouble codes at concrete inputs.
use wadjet_link.Prelude.{
  ℕ, ◌+◌, ◌≡◌, ◌↔◌, refl, [], ◌∷◌, true, none, some, ◌==◌, if◌then◌else◌, length, arith,
}
use wadjet_link.Prelude.Assoc.{nat_eq, lookup, insert, erase}
use wadjet_link.Dtc.Types.{
  Dtc, to_value, DtcStatusMask, no_status, DtcRecord, blank_record, DtcFilter, all_dtcs,
  ReadDtcInformationResponse,
}
use wadjet_link.Dtc.{
  Options, Ecus, DtcManager, no_data, new_manager, get_in, new_record, total_in, enforce_limits,
  get_or_create_dtc, create_dtc, limit_ecu, erase_oldest, oldest, limit_total, emit_event,
}
use wadjet_link.Dtc.Updates.{
  add_dtc, with_status, status_changed, process_read_dtc_response, process_clear_dtc_response,
}
use wadjet_link.Dtc.Queries.{get_dtc, get_dtcs, count_dtcs, statistics}
use wadjet_link.Dtc.Limits.{IsWithin, enforce_limits-IsWithin}
use wadjet_link.Dtc.Locks.{HasContents, process_read_dtc_response-none_iff}
use wadjet_link.Dtc.Records.{IsOnly, add_dtc-IsOnly}
use wadjet_link.Dtc.Clearing.{
  IsChanged, all_cleared, one_cleared, process_clear_dtc_response_all,
  process_clear_dtc_response_one,
}
use wadjet_link.Dtc.Reach.{created, next, added, cleared, Reached-IsLimited}
use wadjet_link.Dtc.Invariant.{IsLimited}
use wadjet_link.Dtc.Counting.{only_active, only_confirmed, count_dtcs_lem}

abbrev options : Options
options = record {
  max_dtcs_per_ecu = 2;
  max_total_dtcs = 3;
  keep_cleared_history = true;
  max_cleared_history = 1;
  track_occurrences = true;
}

abbrev failed : DtcStatusMask
failed = record no_status { test_failed = true }

abbrev code : ℕ → Dtc
code n = record { high_byte = 0; middle_byte = 0; low_byte = n }

-- One code of ECU 7, seen at 5.
abbrev known : DtcRecord
known = record (new_record 5 7 (code 9)) { status = failed }

abbrev old : DtcRecord
old = record (new_record 1 7 (code 3)) { status = failed }

abbrev busy : DtcManager
busy = record {
  options = options;
  stats = record {
    total_dtcs = 1;
    total_ecus = 0;
    active_dtcs = 1;
    confirmed_dtcs = 0;
    dtc_events_processed = 0;
    clear_operations = 0;
  };
  ecu_data = (7, record no_data { dtcs = (9, known) ∷ []; cleared_history = old ∷ [] }) ∷ [];
  callbacks = 1 ∷ [];
  called = [];
}

abbrev snapshot : ReadDtcInformationResponse
snapshot = record { sub_function = 4; dtc_list = []; dtc_record_data = 0 ∷ 0 ∷ 9 ∷ 1 ∷ 0xaa ∷ [] }

process_read_dtc_response-none_iff_example :
    (process_read_dtc_response (λ i. 10 + i) snapshot 7 10 busy ≡ none) ↔ HasContents snapshot
process_read_dtc_response-none_iff_example =
    process_read_dtc_response-none_iff (λ i. 10 + i) snapshot 7 10 busy

-- Five records of two ECUs are one too many for the first and two too many together.
abbrev full : Ecus
full =
    (
      7,
      record no_data {
        dtcs =
            (1, new_record 3 7 (code 1))
            ∷ (2, new_record 1 7 (code 2))
            ∷ (3, new_record 2 7 (code 3))
            ∷ [];
      },
    )
    ∷ (
      8,
      record no_data { dtcs = (4, new_record 9 8 (code 4)) ∷ (5, new_record 8 8 (code 5)) ∷ [] },
    )
    ∷ []

enforce_limits-IsWithin_example : IsWithin options 7 full (enforce_limits options 7 full)
unfolding lookup
enforce_limits-IsWithin_example =
    enforce_limits-IsWithin options 7 full (refl, (refl, tt)) refl (λ e. absurd (omega arith))

add_dtc-IsOnly_example :
    IsOnly 7
      (to_value (code 9))
      (with_status true no_status 20 known)
      busy.ecu_data
      (add_dtc 20 (code 9) no_status 7 20 busy).ecu_data
unfolding lookup to_value total_in
add_dtc-IsOnly_example =
    add_dtc-IsOnly 20 7 (code 9) busy no_status 20
      (record { here = omega arith; everywhere = omega arith })

process_clear_dtc_response_all_example :
    IsChanged 7 20 busy (all_cleared 7 20 busy) (process_clear_dtc_response 0xFFFFFF 7 true 20 busy)
process_clear_dtc_response_all_example = process_clear_dtc_response_all 7 20 busy

process_clear_dtc_response_one_example :
    IsChanged 7 20 busy
      (one_cleared 7 20 busy 9 known)
      (process_clear_dtc_response 9 7 true 20 busy)
    × ((key : ℕ)
        → lookup key (one_cleared 7 20 busy 9 known).dtcs
          ≡ (if 9 == key then none else get_in 7 key busy.ecu_data))
    × (length (one_cleared 7 20 busy 9 known).cleared_history ≡ 2)
unfolding lookup
process_clear_dtc_response_one_example =
    process_clear_dtc_response_one 7 20 busy 9 known (omega arith) refl

count_dtcs_lem_example :
    ((f : DtcFilter) → count_dtcs 20 f busy ≡ length (get_dtcs 20 f busy))
    × ((statistics busy).total_dtcs ≡ count_dtcs 20 all_dtcs busy)
    × ((statistics busy).active_dtcs ≡ count_dtcs 20 only_active busy)
    × ((statistics busy).confirmed_dtcs ≡ count_dtcs 20 only_confirmed busy)
count_dtcs_lem_example = count_dtcs_lem 20 busy

-- With no room at all a code that is added leaves a blank record in its place.
add_dtc_blank :
    get_dtc
      (code 9)
      7
      (add_dtc 20 (code 9) no_status 7 20 (new_manager (record options { max_dtcs_per_ecu = 0 })))
    ≡ some (record blank_record { last_updated = 20 })
unfolding add_dtc get_dtc get_or_create_dtc create_dtc enforce_limits limit_ecu erase_oldest oldest
    limit_total total_in lookup insert erase to_value new_manager emit_event status_changed
add_dtc_blank = refl

Reached-IsLimited_example :
    IsLimited options (
      process_clear_dtc_response 9 7 true 30
        (add_dtc 20 (code 9) failed 7 20 (new_manager options)))
Reached-IsLimited_example =
    Reached-IsLimited (next (next created (added 20 (code 9) failed 7 20)) (cleared 9 7 true 30))
