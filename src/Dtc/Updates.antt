-- ===== src/Dtc/Updates.antt =====
-- The operations of the manager that change its state. `held` tells whether the calling thread holds
-- the mutex already.
use wadjet_link.Prelude.{
  ℕ, suc, ◌+◌, ◌%◌, ◌^◌, List, [], ◌∷◌, ◌++◌, Bool, true, false, not, ◌&&◌, ◌||◌, Option, none,
  some, ltb, ◌==◌, if◌then◌else◌, length, drop, get_or,
}
use wadjet_link.Prelude.Assoc.{nat_eq, lookup, insert, erase}
use wadjet_link.Bytes.{◌>>=◌}
use wadjet_link.Dtc.{
  DtcManager, EcuData, Ecus, Dtcs, locked, emit_event, data_of, get_or_create_dtc, update,
}
use wadjet_link.Dtc.Types.{
  Dtc, from_value, to_value, DtcStatusMask, DtcAndStatus, ReadDtcInformationResponse,
  SnapshotRecord, DtcRecord, moved_from, dtc_added, dtc_updated, dtc_cleared, all_dtcs_cleared,
  snapshot_received, extended_received, dtc_count_changed, no_statistics,
}

abbrev pub differ : Bool → Bool → Bool
differ true b = not b
differ false b = b

unfoldable pub status_changed : DtcStatusMask → DtcStatusMask → Bool
status_changed old new =
    differ old.test_failed new.test_failed
    || differ old.confirmed_dtc new.confirmed_dtc
    || differ old.pending_dtc new.pending_dtc

abbrev pub count_if : Bool → ℕ → ℕ
count_if test n = if test then (n + 1) % 2 ^ 64 else n

abbrev pub count_new : DtcStatusMask → DtcManager → DtcManager
count_new status m = record m {
  stats = record m.stats {
    total_dtcs = (m.stats.total_dtcs + 1) % 2 ^ 64;
    active_dtcs = count_if status.test_failed m.stats.active_dtcs;
    confirmed_dtcs = count_if status.confirmed_dtc m.stats.confirmed_dtcs;
  };
}

abbrev pub with_status : Bool → DtcStatusMask → ℕ → DtcRecord → DtcRecord
with_status again status timestamp r = record r {
  status = status;
  last_updated = timestamp;
  occurrence_count = if again then (r.occurrence_count + 1) % 2 ^ 32 else r.occurrence_count;
}

-- It locks nothing, whoever calls it.
unfoldable pub add_dtc : ℕ → Dtc → DtcStatusMask → ℕ → ℕ → DtcManager → DtcManager
add_dtc now dtc status ecu timestamp m =
    let (r, is_new, m1) = get_or_create_dtc now ecu dtc m in
    let r1 = with_status (not is_new && m.options.track_occurrences) status timestamp r in
    let m2 = update ecu dtc r1 m1 in
    if is_new
    then emit_event dtc_added ecu (some r1) (count_new status m2)
    else if status_changed r.status status
    then emit_event dtc_updated ecu (some r1) m2
    else m2

unfoldable pub add_snapshot : Bool → ℕ → Dtc → ℕ → ℕ → List ℕ → ℕ → DtcManager → Option DtcManager
add_snapshot held now dtc ecu number bytes timestamp m =
    let (r, _, m1) = get_or_create_dtc now ecu dtc m in
    let taken : SnapshotRecord = record {
      record_number = number;
      bytes = bytes;
      timestamp = timestamp;
    } in
    let r1 = record r { snapshots = r.snapshots ++ taken ∷ [] } in
    locked held (emit_event snapshot_received ecu (some r1) (update ecu dtc r1 m1))

unfoldable pub add_extended_data : Bool → ℕ → Dtc → ℕ → List ℕ → ℕ → DtcManager → Option DtcManager
add_extended_data held now dtc ecu bytes timestamp m =
    let (r, _, m1) = get_or_create_dtc now ecu dtc m in
    let r1 = record r { extended_data = bytes; last_updated = timestamp } in
    locked held (emit_event extended_received ecu (some r1) (update ecu dtc r1 m1))

-- The loop over the list: `clock i` is the reading of the clock for its i-th code.
unfoldable pub add_dtcs : (ℕ → ℕ) → ℕ → List DtcAndStatus → ℕ → ℕ → DtcManager → DtcManager
add_dtcs clock i [] ecu timestamp m = m
add_dtcs clock i (d ∷ ds) ecu timestamp m =
    add_dtcs clock (suc i) ds ecu timestamp (add_dtc (clock i) d.dtc d.status ecu timestamp m)

abbrev pub dtc_in : List ℕ → Dtc
dtc_in bytes = record {
  high_byte = get_or bytes 0 0;
  middle_byte = get_or bytes 1 0;
  low_byte = get_or bytes 2 0;
}

abbrev pub is_snapshot : ℕ → Bool
is_snapshot sub = sub == 0x04 || sub == 0x03

abbrev pub is_extended : ℕ → Bool
is_extended sub = sub == 0x06 || sub == 0x16

-- The switch on the sub-function; `held` is the state of the mutex there. More than 4 or 3 bytes are
-- at least 3.
unfoldable pub add_record_data :
    Bool → ℕ → ReadDtcInformationResponse → ℕ → ℕ → DtcManager → Option DtcManager
add_record_data held now resp ecu timestamp m =
    let bytes = resp.dtc_record_data in
    if is_snapshot resp.sub_function
    then if ltb 4 (length bytes)
      then add_snapshot held now (dtc_in bytes) ecu (get_or bytes 3 0) (drop 4 bytes) timestamp m
      else some m
    else if is_extended resp.sub_function
    then if ltb 3 (length bytes)
      then add_extended_data held now (dtc_in bytes) ecu (drop 3 bytes) timestamp m
      else some m
    else some m

abbrev pub begin_read : ℕ → ℕ → DtcManager → DtcManager
begin_read ecu timestamp m = record m {
  stats = record m.stats { dtc_events_processed = (m.stats.dtc_events_processed + 1) % 2 ^ 64 };
  ecu_data = insert ecu (record (data_of ecu m.ecu_data) { last_read = timestamp }) m.ecu_data;
}

abbrev pub count_of : ℕ → DtcManager → ℕ
count_of ecu m = length (data_of ecu m.ecu_data).dtcs

-- It holds the mutex from start to end.
unfoldable pub process_read_dtc_response :
    (ℕ → ℕ) → ReadDtcInformationResponse → ℕ → ℕ → DtcManager → Option DtcManager
process_read_dtc_response clock resp ecu timestamp m = do
  let m1 = add_dtcs clock 0 resp.dtc_list ecu timestamp (begin_read ecu timestamp m)
  m2 ← add_record_data true (clock (length resp.dtc_list)) resp ecu timestamp m1
  some (if count_of ecu m2 == count_of ecu m then m2 else emit_event dtc_count_changed ecu none m2)

-- `while (history.size() > max) history.erase(history.begin());`
unfoldable pub trim : ℕ → List DtcRecord → List DtcRecord
trim limit [] = []
trim limit (r ∷ history) =
    let rest = trim limit history in if ltb limit (length (r ∷ history)) then rest else r ∷ history

unfoldable pub move_to_history : ℕ → Dtcs → List DtcRecord → List DtcRecord
move_to_history limit [] history = history
move_to_history limit ((key, r) ∷ dtcs) history =
    move_to_history limit dtcs (trim limit (history ++ r ∷ []))

abbrev pub clear_all_of : ℕ → EcuData → DtcManager → DtcManager
clear_all_of ecu d m =
    let history =
      if m.options.keep_cleared_history
      then move_to_history m.options.max_cleared_history d.dtcs d.cleared_history
      else d.cleared_history in
    let m1 = record m {
      ecu_data = insert ecu (record d { dtcs = []; cleared_history = history }) m.ecu_data;
    } in
    if ltb 0 (length d.dtcs) then emit_event all_dtcs_cleared ecu none m1 else m1

-- The event is emitted with the record that was moved away, where the history keeps it.
abbrev pub clear_found : ℕ → ℕ → EcuData → DtcRecord → DtcManager → DtcManager
clear_found ecu key d r m =
    let keep = m.options.keep_cleared_history in
    let history = if keep then d.cleared_history ++ r ∷ [] else d.cleared_history in
    emit_event dtc_cleared ecu (some (if keep then moved_from r else r)) (record m {
      ecu_data =
          insert ecu (record d { dtcs = erase key d.dtcs; cleared_history = history }) m.ecu_data;
    })

abbrev pub clear_one_of : ℕ → ℕ → EcuData → DtcManager → DtcManager
clear_one_of ecu key d m = elim (lookup key d.dtcs) [
  | none ↦ m
  | some r ↦ clear_found ecu key d r m
]

unfoldable pub process_clear_dtc_response : ℕ → ℕ → Bool → ℕ → DtcManager → DtcManager
process_clear_dtc_response group_of_dtc ecu success timestamp m =
    if not success
    then m
    else let d = record (data_of ecu m.ecu_data) { last_clear = timestamp } in
      let m1 = record m {
        stats = record m.stats { clear_operations = (m.stats.clear_operations + 1) % 2 ^ 64 };
        ecu_data = insert ecu d m.ecu_data;
      } in
      if group_of_dtc == 0xFFFFFF
      then clear_all_of ecu d m1
      else clear_one_of ecu (to_value (from_value group_of_dtc)) d m1

unfoldable pub on_event : ℕ → DtcManager → DtcManager
on_event callback m = record m { callbacks = m.callbacks ++ callback ∷ [] }

unfoldable pub clear_callbacks : DtcManager → DtcManager
clear_callbacks m = record m { callbacks = [] }

unfoldable pub clear_ecu : ℕ → DtcManager → DtcManager
clear_ecu ecu m = elim (lookup ecu m.ecu_data) [
  | none ↦ m
  | some d ↦
      emit_event all_dtcs_cleared ecu none
        (record m { ecu_data = insert ecu (record d { dtcs = [] }) m.ecu_data })
]

abbrev pub emptied : Ecus → Ecus
emptied [] = []
emptied ((ecu, d) ∷ es) = (ecu, record d { dtcs = [] }) ∷ emptied es

abbrev pub report_cleared : Ecus → DtcManager → DtcManager
report_cleared [] m = m
report_cleared ((ecu, d) ∷ es) m = report_cleared es (emit_event all_dtcs_cleared ecu none m)

unfoldable pub clear_all : DtcManager → DtcManager
clear_all m = report_cleared m.ecu_data (record m { ecu_data = emptied m.ecu_data })

unfoldable pub reset : DtcManager → DtcManager
reset m = record m { ecu_data = []; stats = no_statistics }
