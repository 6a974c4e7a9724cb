-- ===== src/Correlator/Queries.antt =====
-- The queries of the correlator and the operations that check times or set the state.
use wadjet_link.Prelude.{
  ℕ, ◌+◌, List, [], ◌∷◌, ◌++◌, none, some, ◌==◌, if◌then◌else◌, length, take, reverse,
}
use wadjet_link.Correlator.{no_statistics, RequestCorrelator, increment, emit_event, pending_at}
use wadjet_link.Correlator.Types.{
  DiagnosticTiming, RequestResponsePair, PendingRequest, AddressPairKey, address_eq,
  request_timeout, is_timed_out,
}

unfoldable pub pending_count : AddressPairKey → RequestCorrelator → ℕ
pending_count key c = length (pending_at key c)

unfoldable pub total_in : List (AddressPairKey × List PendingRequest) → ℕ
total_in [] = 0
total_in ((key, q) ∷ m) = length q + total_in m

unfoldable pub total_pending : RequestCorrelator → ℕ
total_pending c = total_in c.pending_requests

unfoldable pub get_pending : AddressPairKey → RequestCorrelator → List PendingRequest
get_pending key c = pending_at key c

-- The newest pairs first.
unfoldable pub get_completed : ℕ → RequestCorrelator → List RequestResponsePair
get_completed max_count c = take max_count (reverse c.completed)

unfoldable pub of_service : ℕ → List RequestResponsePair → List RequestResponsePair
of_service sid [] = []
of_service sid (p ∷ ps) =
    let rest = of_service sid ps in if p.request.header.service_id == sid then p ∷ rest else rest

unfoldable pub get_completed_by_service : ℕ → ℕ → RequestCorrelator → List RequestResponsePair
get_completed_by_service sid max_count c = take max_count (of_service sid (reverse c.completed))

-- One list: the requests that stay, and those that timed out in their order.
unfoldable pub expire :
    ℕ → DiagnosticTiming → List PendingRequest → List PendingRequest × List PendingRequest
expire now timing [] = ([], [])
expire now timing (p ∷ q) =
    let (kept, gone) = expire now timing q in
    if is_timed_out now timing p then (kept, p ∷ gone) else (p ∷ kept, gone)

abbrev pub report_timeout : PendingRequest → RequestCorrelator → RequestCorrelator
report_timeout p c =
    let c1 = emit_event request_timeout none (some p) c in
    record c1 { stats = record c1.stats { pending_timeouts = increment c1.stats.pending_timeouts } }

unfoldable pub report_timeouts : List PendingRequest → RequestCorrelator → RequestCorrelator
report_timeouts [] c = c
report_timeouts (p ∷ gone) c = report_timeouts gone (report_timeout p c)

unfoldable pub expire_all :
    ℕ
    → DiagnosticTiming
    → List (AddressPairKey × List PendingRequest)
    → List (AddressPairKey × List PendingRequest) × List PendingRequest
expire_all now timing [] = ([], [])
expire_all now timing ((key, q) ∷ m) =
    let (kept, gone) = expire now timing q in
    let (rest, later) = expire_all now timing m in ((key, kept) ∷ rest, gone ++ later)

unfoldable pub check_timeouts : ℕ → RequestCorrelator → ℕ × RequestCorrelator
check_timeouts now c =
    let (kept, gone) = expire_all now c.options.timing c.pending_requests in
    (length gone, report_timeouts gone (record c { pending_requests = kept }))

unfoldable pub set_timing : DiagnosticTiming → RequestCorrelator → RequestCorrelator
set_timing timing c = record c { options = record c.options { timing = timing } }

unfoldable pub on_event : ℕ → RequestCorrelator → RequestCorrelator
on_event callback c = record c { callbacks = c.callbacks ++ callback ∷ [] }

unfoldable pub clear_callbacks : RequestCorrelator → RequestCorrelator
clear_callbacks c = record c { callbacks = [] }

unfoldable pub clear_pending : RequestCorrelator → RequestCorrelator
clear_pending c = record c { pending_requests = [] }

unfoldable pub clear_history : RequestCorrelator → RequestCorrelator
clear_history c = record c { completed = [] }

unfoldable pub reset : RequestCorrelator → RequestCorrelator
reset c = record c { pending_requests = []; completed = [] }

unfoldable pub reset_statistics : RequestCorrelator → RequestCorrelator
reset_statistics c = record c { stats = no_statistics }
