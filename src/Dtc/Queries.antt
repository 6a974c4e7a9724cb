-- ===== src/Dtc/Queries.antt =====
-- The queries of the manager. `held` tells whether the calling thread holds the mutex already, and
-- `now` is the reading of the steady clock, which no record is later than.
use wadjet_link.Prelude.{
  ℕ, ◌+◌, ◌-◌, ◌/◌, ◌^◌, List, [], ◌∷◌, ◌++◌, Bool, true, false, not, ◌&&◌, ◌||◌, Option, none,
  some, ltb, ◌==◌, if◌then◌else◌, length, drop, min,
}
use wadjet_link.Prelude.Assoc.{nat_eq, lookup}
use wadjet_link.Bytes.{◌>>=◌}
use wadjet_link.Dtc.{DtcManager, EcuData, Ecus, Dtcs, locked, is_empty, total_in, get_in}
use wadjet_link.Dtc.Types.{
  Dtc, to_value, prefix_of, DtcStatusMask, DtcRecord, DtcFilter, for_ecu, EcuStatistics,
  GlobalStatistics,
}

abbrev pub is_active : DtcRecord → Bool
is_active r = r.status.test_failed

abbrev pub is_confirmed : DtcRecord → Bool
is_confirmed r = r.status.confirmed_dtc

abbrev pub is_pending : DtcRecord → Bool
is_pending r = r.status.pending_dtc

abbrev pub failed_since_clear : DtcRecord → Bool
failed_since_clear r = r.status.test_failed_since_last_clear

-- In milliseconds, of which the clock's ticks are a millionth.
abbrev pub age : ℕ → DtcRecord → ℕ
age now r = (now - r.first_seen) / 10 ^ 6

abbrev pub time_since_update : ℕ → DtcRecord → ℕ
time_since_update now r = (now - r.last_updated) / 10 ^ 6

abbrev pub shares_status : DtcStatusMask → DtcStatusMask → Bool
shares_status mask status =
    (mask.test_failed && status.test_failed)
    || (mask.confirmed_dtc && status.confirmed_dtc)
    || (mask.pending_dtc && status.pending_dtc)
    || (mask.test_failed_since_last_clear && status.test_failed_since_last_clear)

abbrev pub young_enough : ℕ → Option ℕ → DtcRecord → Bool
young_enough now none r = true
young_enough now (some max) r = not (ltb max (age now r))

abbrev pub has_prefix : Option ℕ → DtcRecord → Bool
has_prefix none r = true
has_prefix (some c) r = prefix_of r.dtc == c

abbrev pub has_status : Option DtcStatusMask → DtcRecord → Bool
has_status none r = true
has_status (some mask) r = shares_status mask r.status

-- `address != 0 && address != ecu` is where a filter leaves an ECU out.
abbrev pub covers : ℕ → ℕ → Bool
covers address ecu = address == 0 || address == ecu

-- The severity of a filter is never looked at.
unfoldable pub matches_filter : ℕ → DtcRecord → DtcFilter → Bool
matches_filter now r f =
    covers f.ecu_address r.ecu_address
    && (not f.active_only || is_active r)
    && (not f.confirmed_only || is_confirmed r)
    && (not f.pending_only || is_pending r)
    && young_enough now f.max_age r
    && has_prefix f.category_prefix r
    && has_status f.status_mask r

unfoldable pub matching : ℕ → DtcFilter → Dtcs → List DtcRecord
matching now f [] = []
matching now f ((key, r) ∷ m) =
    let rest = matching now f m in if matches_filter now r f then r ∷ rest else rest

unfoldable pub matching_all : ℕ → DtcFilter → Ecus → List DtcRecord
matching_all now f [] = []
matching_all now f ((ecu, d) ∷ es) =
    let rest = matching_all now f es in
    if covers f.ecu_address ecu then matching now f d.dtcs ++ rest else rest

unfoldable pub get_dtcs : ℕ → DtcFilter → DtcManager → List DtcRecord
get_dtcs now f m = matching_all now f m.ecu_data

unfoldable pub get_dtc : Dtc → ℕ → DtcManager → Option DtcRecord
get_dtc dtc ecu m = get_in ecu (to_value dtc) m.ecu_data

unfoldable pub get_ecu_dtcs : ℕ → ℕ → DtcManager → List DtcRecord
get_ecu_dtcs now ecu m = get_dtcs now (for_ecu ecu) m

unfoldable pub count_matching : ℕ → DtcFilter → ℕ → Dtcs → ℕ
count_matching now f count [] = count
count_matching now f count ((key, r) ∷ m) =
    count_matching now f (if matches_filter now r f then count + 1 else count) m

unfoldable pub count_all : ℕ → DtcFilter → ℕ → Ecus → ℕ
count_all now f count [] = count
count_all now f count ((ecu, d) ∷ es) =
    count_all now f (if covers f.ecu_address ecu then count_matching now f count d.dtcs else count)
      es

unfoldable pub count_dtcs : ℕ → DtcFilter → DtcManager → ℕ
count_dtcs now f m = count_all now f 0 m.ecu_data

abbrev pub is_some : Option DtcRecord → Bool
is_some none = false
is_some (some r) = true

unfoldable pub has_dtc : Dtc → ℕ → DtcManager → Bool
has_dtc dtc ecu m = is_some (get_dtc dtc ecu m)

unfoldable pub with_dtcs : Ecus → List ℕ
with_dtcs [] = []
with_dtcs ((ecu, d) ∷ es) = let rest = with_dtcs es in if is_empty d.dtcs then rest else ecu ∷ rest

unfoldable pub get_ecus_with_dtcs : DtcManager → List ℕ
get_ecus_with_dtcs m = with_dtcs m.ecu_data

abbrev pub newest : ℕ → List DtcRecord → List DtcRecord
newest max_count history = drop (length history - min max_count (length history)) history

unfoldable pub get_cleared_history : ℕ → ℕ → DtcManager → List DtcRecord
get_cleared_history ecu max_count m = elim (lookup ecu m.ecu_data) [
  | none ↦ []
  | some d ↦ newest max_count d.cleared_history
]

unfoldable pub count_where : (DtcRecord → Bool) → Dtcs → ℕ
count_where test [] = 0
count_where test ((key, r) ∷ m) = (if test r then 1 else 0) + count_where test m

abbrev pub no_ecu_statistics : ℕ → EcuStatistics
no_ecu_statistics ecu = record {
  ecu_address = ecu;
  total_dtcs = 0;
  active_dtcs = 0;
  confirmed_dtcs = 0;
  pending_dtcs = 0;
  dtcs_since_clear = 0;
  last_read = 0;
  last_clear = 0;
}

abbrev pub statistics_of : ℕ → EcuData → EcuStatistics
statistics_of ecu d = record {
  ecu_address = ecu;
  total_dtcs = length d.dtcs;
  active_dtcs = count_where is_active d.dtcs;
  confirmed_dtcs = count_where is_confirmed d.dtcs;
  pending_dtcs = count_where is_pending d.dtcs;
  dtcs_since_clear = count_where failed_since_clear d.dtcs;
  last_read = d.last_read;
  last_clear = d.last_clear;
}

abbrev pub ecu_statistics : ℕ → Option EcuData → EcuStatistics
ecu_statistics ecu none = no_ecu_statistics ecu
ecu_statistics ecu (some d) = statistics_of ecu d

unfoldable pub get_ecu_statistics : Bool → ℕ → DtcManager → Option EcuStatistics
get_ecu_statistics held ecu m = locked held (ecu_statistics ecu (lookup ecu m.ecu_data))

-- The loop runs under the lock.
unfoldable pub all_statistics : DtcManager → Ecus → Option (List EcuStatistics)
all_statistics m [] = some []
all_statistics m ((ecu, d) ∷ es) = do
  s ← get_ecu_statistics true ecu m
  rest ← all_statistics m es
  some (s ∷ rest)

unfoldable pub get_all_statistics : DtcManager → Option (List EcuStatistics)
get_all_statistics m = all_statistics m m.ecu_data

unfoldable pub count_everywhere : (DtcRecord → Bool) → Ecus → ℕ
count_everywhere test [] = 0
count_everywhere test ((ecu, d) ∷ es) = count_where test d.dtcs + count_everywhere test es

unfoldable pub statistics : DtcManager → GlobalStatistics
statistics m = record m.stats {
  total_ecus = length m.ecu_data;
  total_dtcs = total_in m.ecu_data;
  active_dtcs = count_everywhere is_active m.ecu_data;
  confirmed_dtcs = count_everywhere is_confirmed m.ecu_data;
}
