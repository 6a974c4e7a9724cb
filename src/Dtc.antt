-- ===== src/Dtc.antt =====
-- `DTCManager` of src/protocols/diagnostic/dtc_manager.cpp, which keeps the trouble codes that ECUs
-- report. `Types` has the codes and records. Times are ticks of the steady clock, nanoseconds, and
-- `now` is its reading. A callback is the number that it is known by, and `called` lists the calls,
-- the oldest first. `none` as the result of an operation is a second lock of the mutex by the thread
-- that holds it, which C++ does not define.
pub mod Types
pub mod Updates
pub mod Queries
pub mod Busiest
pub mod Limits
pub mod Locks
pub mod Records
pub mod Clearing
pub mod Counting
pub mod Maps
pub mod Invariant
pub mod Reach
use wadjet_link.Prelude.{
  ℕ, zero, suc, ◌+◌, ◌%◌, ◌^◌, List, [], ◌∷◌, ◌++◌, Bool, true, false, Option, none, some, ltb, leb,
  ◌==◌, if◌then◌else◌, length, map,
}
use wadjet_link.Prelude.Assoc.{nat_eq, lookup, insert, erase}
use wadjet_link.Dtc.Types.{
  Dtc, to_value, DtcRecord, blank_record, DtcEvent, GlobalStatistics, no_statistics,
}

pub record Options : Type 0 where
  pub max_dtcs_per_ecu : ℕ
  pub max_total_dtcs : ℕ
  pub keep_cleared_history : Bool
  pub max_cleared_history : ℕ
  pub track_occurrences : Bool

abbrev pub Dtcs : Type 0
Dtcs = List (ℕ × DtcRecord)

pub record EcuData : Type 0 where
  pub dtcs : Dtcs
  pub cleared_history : List DtcRecord
  pub last_read : ℕ
  pub last_clear : ℕ

abbrev pub no_data : EcuData
no_data = record { dtcs = []; cleared_history = []; last_read = 0; last_clear = 0 }

abbrev pub Ecus : Type 0
Ecus = List (ℕ × EcuData)

abbrev pub Call : Type 0
Call = ℕ × DtcEvent × ℕ × Option DtcRecord

pub record DtcManager : Type 0 where
  pub options : Options
  pub stats : GlobalStatistics
  pub ecu_data : Ecus
  pub callbacks : List ℕ
  pub called : List Call

unfoldable pub new_manager : Options → DtcManager
new_manager options = record {
  options = options;
  stats = no_statistics;
  ecu_data = [];
  callbacks = [];
  called = [];
}

-- `std::lock_guard<std::mutex> lock(mutex_);`
abbrev pub locked {ℓ} : {A : Type ℓ} → Bool → A → Option A
locked held result = if held then none else some result

unfoldable pub emit_event : DtcEvent → ℕ → Option DtcRecord → DtcManager → DtcManager
emit_event event ecu dtc_record m = record m {
  called = m.called ++ map (λ f. (f, event, ecu, dtc_record)) m.callbacks;
}

-- `ecu_data_[ecu]`, which adds what is not there when it is written back.
abbrev pub data_or_new : Option EcuData → EcuData
data_or_new none = no_data
data_or_new (some d) = d

abbrev pub data_of : ℕ → Ecus → EcuData
data_of ecu es = data_or_new (lookup ecu es)

-- The first of the records that were seen first.
unfoldable pub oldest : ℕ × DtcRecord → Dtcs → ℕ
oldest best [] = best.0
oldest best (entry ∷ dtcs) =
    oldest (if ltb entry.1.first_seen best.1.first_seen then entry else best) dtcs

unfoldable pub erase_oldest : Dtcs → Dtcs
erase_oldest [] = []
erase_oldest (entry ∷ dtcs) = erase (oldest entry dtcs) (entry ∷ dtcs)

-- The loop over one ECU: the first number is its fuel, and one record goes in every round.
unfoldable pub limit_ecu : ℕ → ℕ → Dtcs → Dtcs
limit_ecu zero limit dtcs = dtcs
limit_ecu (suc n) limit dtcs =
    let rest = limit_ecu n limit (erase_oldest dtcs) in
    if ltb limit (length dtcs) then rest else dtcs

unfoldable pub total_in : Ecus → ℕ
total_in [] = 0
total_in ((ecu, d) ∷ es) = length d.dtcs + total_in es

-- The ECU with the most records, from the best so far.
unfoldable pub busiest : ℕ → ℕ → Ecus → ℕ
busiest best count [] = best
busiest best count ((ecu, d) ∷ es) =
    let more = ltb count (length d.dtcs) in
    busiest (if more then ecu else best) (if more then length d.dtcs else count) es

abbrev pub is_empty : Dtcs → Bool
is_empty [] = true
is_empty (entry ∷ dtcs) = false

-- One round of the second loop, or `none` where it breaks.
unfoldable pub limit_round : Ecus → Option Ecus
limit_round es =
    let ecu = busiest 0 0 es in
    let d = data_of ecu es in
    if ecu == 0
    then none
    else if is_empty d.dtcs
    then none
    else some (insert ecu (record d { dtcs = erase_oldest d.dtcs }) es)

-- The second loop counts `total` down.
unfoldable pub limit_total : ℕ → ℕ → Ecus → Ecus
limit_total zero limit es = es
limit_total (suc total) limit es =
    if ltb limit (suc total)
    then elim (limit_round es) [ none ↦ es | some es1 ↦ limit_total total limit es1 ]
    else es

unfoldable pub enforce_limits : Options → ℕ → Ecus → Ecus
enforce_limits o ecu es =
    let d = data_of ecu es in
    let few = limit_ecu (length d.dtcs) o.max_dtcs_per_ecu d.dtcs in
    let es1 = insert ecu (record d { dtcs = few }) es in
    limit_total (total_in es1) o.max_total_dtcs es1

-- Write one record of one ECU.
abbrev pub put_dtc : ℕ → ℕ → DtcRecord → Ecus → Ecus
put_dtc ecu key r es =
    let d = data_of ecu es in insert ecu (record d { dtcs = insert key r d.dtcs }) es

abbrev pub get_in : ℕ → ℕ → Ecus → Option DtcRecord
get_in ecu key es = lookup key (data_of ecu es).dtcs

abbrev pub record_or_blank : Option DtcRecord → DtcRecord
record_or_blank none = blank_record
record_or_blank (some r) = r

abbrev pub new_record : ℕ → ℕ → Dtc → DtcRecord
new_record now ecu dtc = record blank_record {
  dtc = dtc;
  ecu_address = ecu;
  first_seen = now;
  last_updated = now;
}

-- A new record with the limits kept. When it is itself what the limits removed, `dtcs[key]` adds a
-- blank one in its place.
unfoldable pub create_dtc : ℕ → ℕ → Dtc → DtcManager → DtcRecord × DtcManager
create_dtc now ecu dtc m =
    let added = put_dtc ecu (to_value dtc) (new_record now ecu dtc) m.ecu_data in
    let kept = enforce_limits m.options ecu added in
    let r = record_or_blank (get_in ecu (to_value dtc) kept) in
    (r, record m { ecu_data = put_dtc ecu (to_value dtc) r kept })

-- The record, whether it is new, and the manager that holds it.
unfoldable pub get_or_create_dtc : ℕ → ℕ → Dtc → DtcManager → DtcRecord × Bool × DtcManager
get_or_create_dtc now ecu dtc m = elim (get_in ecu (to_value dtc) m.ecu_data) [
  | none ↦ let (r, m1) = create_dtc now ecu dtc m in (r, true, m1)
  | some r ↦ (r, false, m)
]

-- Write a record that a reference leads to.
abbrev pub update : ℕ → Dtc → DtcRecord → DtcManager → DtcManager
update ecu dtc r m = record m { ecu_data = put_dtc ecu (to_value dtc) r m.ecu_data }
