-- ===== src/Dtc/Locks.antt =====
-- When the manager locks its mutex a second time.
use wadjet_link.Prelude.{ℕ, ◌≡◌, ◌<◌, ◌↔◌, ◌⊎◌, true, false, none, length, arith}
use wadjet_link.Dtc.{DtcManager}
use wadjet_link.Dtc.Types.{ReadDtcInformationResponse}
use wadjet_link.Dtc.Updates.{
  is_snapshot, is_extended, add_snapshot, add_extended_data, add_record_data, add_dtcs, begin_read,
  process_read_dtc_response,
}

-- The responses with contents: a snapshot or extended data behind its code.
abbrev pub HasContents : ReadDtcInformationResponse → Type 0
HasContents resp =
    ((is_snapshot resp.sub_function ≡ true) × (4 < length resp.dtc_record_data))
    ⊎ ((is_snapshot resp.sub_function ≡ false)
        × (is_extended resp.sub_function ≡ true)
        × (3 < length resp.dtc_record_data))

add_record_data-none_iff :
    (now : ℕ) (resp : ReadDtcInformationResponse) (ecu timestamp : ℕ) (m : DtcManager)
    → (add_record_data true now resp ecu timestamp m ≡ none) ↔ HasContents resp
unfolding add_record_data add_snapshot add_extended_data
add_record_data-none_iff now resp ecu timestamp m = ground arith

-- A response to the reading of trouble codes locks the mutex a second time, and so has no defined
-- outcome, exactly when it brings a snapshot (sub-functions 3 and 4, more than 4 bytes) or extended
-- data (6 and 0x16, more than 3 bytes): no such contents are ever stored.
pub process_read_dtc_response-none_iff :
    (clock : ℕ → ℕ) (resp : ReadDtcInformationResponse) (ecu timestamp : ℕ) (m : DtcManager)
    → (process_read_dtc_response clock resp ecu timestamp m ≡ none) ↔ HasContents resp
unfolding process_read_dtc_response
process_read_dtc_response-none_iff clock resp ecu timestamp m = ground (
  arith,
  add_record_data-none_iff (clock (length resp.dtc_list)) resp ecu timestamp
      (add_dtcs clock 0 resp.dtc_list ecu timestamp (begin_read ecu timestamp m)),
)
