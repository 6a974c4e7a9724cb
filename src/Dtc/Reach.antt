-- ===== src/Dtc/Reach.antt =====
-- The managers that any sequence of operations reaches.
use wadjet_link.Prelude.{ℕ, ◌≡◌, refl, List, Bool, false, some}
use wadjet_link.Prelude.Assoc.{nat_eq}
use wadjet_link.Dtc.Types.{Dtc, DtcStatusMask, ReadDtcInformationResponse}
use wadjet_link.Dtc.{Options, DtcManager, new_manager}
use wadjet_link.Dtc.Updates.{
  add_dtc, add_snapshot, add_extended_data, process_read_dtc_response, process_clear_dtc_response,
  on_event, clear_callbacks, clear_ecu, clear_all, reset,
}
use wadjet_link.Dtc.Invariant.{
  IsLimited, AllSome-at, add_dtc-IsLimited, add_snapshot-AllSome, add_extended_data-AllSome,
  process_read_dtc_response-AllSome, process_clear_dtc_response-IsLimited, clear_ecu-IsLimited,
  emptied-IsKeyed, emptied-Values, report_cleared-IsLimited,
}

pub data Step (m : DtcManager) : DtcManager → Type 0 where
  added :
      (now : ℕ) (dtc : Dtc) (status : DtcStatusMask) (ecu timestamp : ℕ)
      → Step m (add_dtc now dtc status ecu timestamp m)
  snapshot_added :
      (now : ℕ) (dtc : Dtc) (ecu number : ℕ) (bytes : List ℕ) (timestamp : ℕ) (m1 : DtcManager)
      → add_snapshot false now dtc ecu number bytes timestamp m ≡ some m1
      → Step m m1
  extended_added :
      (now : ℕ) (dtc : Dtc) (ecu : ℕ) (bytes : List ℕ) (timestamp : ℕ) (m1 : DtcManager)
      → add_extended_data false now dtc ecu bytes timestamp m ≡ some m1
      → Step m m1
  read :
      (clock : ℕ → ℕ) (resp : ReadDtcInformationResponse) (ecu timestamp : ℕ) (m1 : DtcManager)
      → process_read_dtc_response clock resp ecu timestamp m ≡ some m1
      → Step m m1
  cleared :
      (group ecu : ℕ) (success : Bool) (timestamp : ℕ)
      → Step m (process_clear_dtc_response group ecu success timestamp m)
  callback_added : (f : ℕ) → Step m (on_event f m)
  callbacks_cleared : Step m (clear_callbacks m)
  ecu_cleared : (ecu : ℕ) → Step m (clear_ecu ecu m)
  all_cleared : Step m (clear_all m)
  was_reset : Step m (reset m)

pub data Reached (o : Options) : DtcManager → Type 0 where
  created : Reached o (new_manager o)
  next : {m m1 : DtcManager} → Reached o m → Step m m1 → Reached o m1

module _ (o : Options) where
  Step-IsLimited : {m m1 : DtcManager} → Step m m1 → IsLimited o m → IsLimited o m1
  unfolding on_event clear_callbacks clear_all reset
  Step-IsLimited {m} (added now dtc status ecu timestamp) h =
      add_dtc-IsLimited o now ecu dtc m h status timestamp
  Step-IsLimited {m} (snapshot_added now dtc ecu number bytes timestamp m1 e) h =
      AllSome-at (IsLimited o) _ m1 e
        (add_snapshot-AllSome o now ecu dtc m h number bytes timestamp)
  Step-IsLimited {m} (extended_added now dtc ecu bytes timestamp m1 e) h =
      AllSome-at (IsLimited o) _ m1 e (add_extended_data-AllSome o now ecu dtc m h bytes timestamp)
  Step-IsLimited {m} (read clock resp ecu timestamp m1 e) h =
      AllSome-at (IsLimited o) _ m1 e
        (process_read_dtc_response-AllSome o clock resp ecu timestamp m h)
  Step-IsLimited {m} (cleared group ecu success timestamp) h =
      process_clear_dtc_response-IsLimited o group ecu success timestamp m h
  Step-IsLimited (callback_added f) h = record { same = h.same; maps = h.maps }
  Step-IsLimited callbacks_cleared h = record { same = h.same; maps = h.maps }
  Step-IsLimited {m} (ecu_cleared ecu) h = clear_ecu-IsLimited o ecu m h
  Step-IsLimited {m} all_cleared h = report_cleared-IsLimited o m.ecu_data _ (record {
    same = h.same;
    maps = record {
      ecus = emptied-IsKeyed m.ecu_data h.maps.ecus;
      tables = emptied-Values o.max_dtcs_per_ecu m.ecu_data;
    };
  })
  Step-IsLimited was_reset h = record { same = h.same; maps = record { ecus = tt; tables = tt } }

-- Whatever operations a manager has met, in any order: its options are as given, every ECU has one
-- entry and every code of it one record, and no ECU has more than one record above the limit for one
-- ECU.
pub Reached-IsLimited : {o : Options} {m : DtcManager} → Reached o m → IsLimited o m
unfolding new_manager
Reached-IsLimited created = record { same = refl; maps = record { ecus = tt; tables = tt } }
Reached-IsLimited {o} (next r s) = Step-IsLimited o s (Reached-IsLimited r)
