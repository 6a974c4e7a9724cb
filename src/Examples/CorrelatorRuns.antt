-- ===== src/Examples/CorrelatorRuns.antt =====
-- The request correlator at concrete inputs.
use wadjet_link.Prelude.{ℕ, ◌≡◌, refl, [], ◌∷◌, true, false, none, some, arith}
use wadjet_link.Prelude.Assoc.{lookup}
use wadjet_link.Uds.Types.{UdsHeader, UdsServiceMessage, MessageDirection, monostate}
use wadjet_link.Correlator.{
  Options, RequestCorrelator, new_correlator, record_request, key_of, pending_at, new_pending,
  response_key,
}
use wadjet_link.Correlator.Types.{defaults, TransportInfo, doip, PendingRequest, address_eq}
use wadjet_link.Correlator.Responses.{pair_of, process_response}
use wadjet_link.Correlator.Matching.{process_response_mismatched}
use wadjet_link.Correlator.Invariant.{IsBounded}
use wadjet_link.Correlator.Reach.{Reached-IsBounded, created, next, responded}

abbrev options : Options
options = record {
  max_pending_per_address = 2;
  max_total_pending = 1000;
  auto_timeout_check = true;
  timing = defaults;
}

abbrev header_of : MessageDirection → ℕ → UdsHeader
header_of direction sid = record {
  service_id = sid;
  direction = direction;
  sub_function = none;
  suppress_positive_response = false;
  rejected_service_id = none;
  negative_response_code = none;
  service_data = [];
  raw_data = sid ∷ [];
}

abbrev asked : UdsHeader
asked = header_of MessageDirection.request 0x22

abbrev reply : UdsHeader
reply = header_of MessageDirection.positive_response 0x22

abbrev to_ecu : TransportInfo
to_ecu = record {
  type = doip;
  source_address = 14;
  target_address = 16;
  timestamp = 5;
  sequence_number = none;
}

abbrev from_ecu : TransportInfo
from_ecu = record to_ecu { source_address = 16; target_address = 14; timestamp = 90 }

abbrev waiting_for : ℕ → PendingRequest
waiting_for sid = new_pending (header_of MessageDirection.request sid) monostate to_ecu

-- Requests of the services 0x10 and 0x22 wait, the older one first.
abbrev busy : RequestCorrelator
busy = record (new_correlator options) {
  pending_requests = (key_of to_ecu, waiting_for 0x10 ∷ waiting_for 0x22 ∷ []) ∷ [];
}

abbrev stray : UdsHeader
stray = header_of MessageDirection.positive_response 0x31

process_response_mismatched_example :
    ((process_response stray monostate from_ecu busy).0
      ≡ some (pair_of stray monostate from_ecu (waiting_for 0x10)))
    × (pending_at (response_key from_ecu) (process_response stray monostate from_ecu busy).1
        ≡ waiting_for 0x10 ∷ waiting_for 0x22 ∷ [])
    × ((process_response stray monostate from_ecu
          (process_response stray monostate from_ecu busy).1).0
        ≡ some (pair_of stray monostate from_ecu (waiting_for 0x10)))
unfolding lookup
process_response_mismatched_example =
    process_response_mismatched stray monostate from_ecu busy (waiting_for 0x10)
      (waiting_for 0x22 ∷ []) (refl, (refl, (refl, tt)), refl)

Reached-IsBounded_example :
    IsBounded 2 (process_response reply monostate from_ecu (new_correlator options)).1
    × ((header : UdsHeader) (message : UdsServiceMessage) (transport : TransportInfo)
        → (d : RequestCorrelator) × (record_request header message transport
              (process_response reply monostate from_ecu (new_correlator options)).1
            ≡ some d))
Reached-IsBounded_example =
    Reached-IsBounded (next created (responded reply monostate from_ecu)) (omega arith)
