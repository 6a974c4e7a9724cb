-- ===== src/Dtc/Types.antt =====
-- The codes of uds_types.hpp and the records, events, filters and statistics of
-- include/wadjet/protocols/diagnostic/dtc_manager.hpp. A sub-function is its byte, and a character
-- its code.
use wadjet_link.Prelude.{
  ℕ, ◌+◌, ◌*◌, ◌/◌, ◌%◌, ◌^◌, List, [], Bool, false, Option, none, leb, if◌then◌else◌,
}

pub record Dtc : Type 0 where
  pub high_byte : ℕ
  pub middle_byte : ℕ
  pub low_byte : ℕ

abbrev pub no_dtc : Dtc
no_dtc = record { high_byte = 0; middle_byte = 0; low_byte = 0 }

unfoldable pub from_value : ℕ → Dtc
from_value v = record {
  high_byte = v / 2 ^ 16 % 256;
  middle_byte = v / 2 ^ 8 % 256;
  low_byte = v % 256;
}

unfoldable pub to_value : Dtc → ℕ
to_value d = d.high_byte * 2 ^ 16 + d.middle_byte * 2 ^ 8 + d.low_byte

-- The first character of `to_string`: P, C, B or U.
unfoldable pub prefix_of : Dtc → ℕ
prefix_of d =
    let category = d.high_byte / 2 ^ 4 % 16 in
    if leb category 3 then 80 else if leb category 5 then 67 else if leb category 7 then 66 else 85

pub record DtcStatusMask : Type 0 where
  pub test_failed : Bool
  pub test_failed_this_operation_cycle : Bool
  pub pending_dtc : Bool
  pub confirmed_dtc : Bool
  pub test_not_completed_since_last_clear : Bool
  pub test_failed_since_last_clear : Bool
  pub test_not_completed_this_operation_cycle : Bool
  pub warning_indicator_requested : Bool

abbrev pub no_status : DtcStatusMask
no_status = record {
  test_failed = false;
  test_failed_this_operation_cycle = false;
  pending_dtc = false;
  confirmed_dtc = false;
  test_not_completed_since_last_clear = false;
  test_failed_since_last_clear = false;
  test_not_completed_this_operation_cycle = false;
  warning_indicator_requested = false;
}

pub record DtcAndStatus : Type 0 where
  pub dtc : Dtc
  pub status : DtcStatusMask

pub record ReadDtcInformationResponse : Type 0 where
  pub sub_function : ℕ
  pub dtc_list : List DtcAndStatus
  pub dtc_record_data : List ℕ

pub record SnapshotRecord : Type 0 where
  pub record_number : ℕ
  pub bytes : List ℕ
  pub timestamp : ℕ

pub record DtcRecord : Type 0 where
  pub dtc : Dtc
  pub status : DtcStatusMask
  pub ecu_address : ℕ
  pub first_seen : ℕ
  pub last_updated : ℕ
  pub occurrence_count : ℕ
  pub severity : Option ℕ
  pub functional_unit : Option ℕ
  pub extended_data : List ℕ
  pub snapshots : List SnapshotRecord

-- `DTCRecord{}`
abbrev pub blank_record : DtcRecord
blank_record = record {
  dtc = no_dtc;
  status = no_status;
  ecu_address = 0;
  first_seen = 0;
  last_updated = 0;
  occurrence_count = 1;
  severity = none;
  functional_unit = none;
  extended_data = [];
  snapshots = [];
}

-- What a record keeps when its contents are moved away.
abbrev pub moved_from : DtcRecord → DtcRecord
moved_from r = record r { extended_data = []; snapshots = [] }

pub data DtcEvent : Type 0 where
  dtc_added dtc_updated dtc_cleared all_dtcs_cleared snapshot_received : DtcEvent
  extended_received dtc_count_changed : DtcEvent

pub record DtcFilter : Type 0 where
  pub ecu_address : ℕ
  pub status_mask : Option DtcStatusMask
  pub severity : Option ℕ
  pub active_only : Bool
  pub confirmed_only : Bool
  pub pending_only : Bool
  pub max_age : Option ℕ
  pub category_prefix : Option ℕ

abbrev pub all_dtcs : DtcFilter
all_dtcs = record {
  ecu_address = 0;
  status_mask = none;
  severity = none;
  active_only = false;
  confirmed_only = false;
  pending_only = false;
  max_age = none;
  category_prefix = none;
}

abbrev pub for_ecu : ℕ → DtcFilter
for_ecu ecu = record all_dtcs { ecu_address = ecu }

pub record EcuStatistics : Type 0 where
  pub ecu_address : ℕ
  pub total_dtcs : ℕ
  pub active_dtcs : ℕ
  pub confirmed_dtcs : ℕ
  pub pending_dtcs : ℕ
  pub dtcs_since_clear : ℕ
  pub last_read : ℕ
  pub last_clear : ℕ

pub record GlobalStatistics : Type 0 where
  pub total_dtcs : ℕ
  pub total_ecus : ℕ
  pub active_dtcs : ℕ
  pub confirmed_dtcs : ℕ
  pub dtc_events_processed : ℕ
  pub clear_operations : ℕ

abbrev pub no_statistics : GlobalStatistics
no_statistics = record {
  total_dtcs = 0;
  total_ecus = 0;
  active_dtcs = 0;
  confirmed_dtcs = 0;
  dtc_events_processed = 0;
  clear_operations = 0;
}
