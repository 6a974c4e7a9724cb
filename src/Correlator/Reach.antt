-- ===== src/Correlator/Reach.antt =====
-- The correlators that any sequence of operations reaches.
use wadjet_link.Prelude.{
  ℕ, ◌<◌, ◌≡◌, refl, List, [], ◌∷◌, some, arith, inl, inr, Bool-cases, Option-cases,
}
use wadjet_link.Uds.Types.{UdsHeader, UdsServiceMessage}
use wadjet_link.Correlator.Types.{DiagnosticTiming, TransportInfo, PendingRequest, address_eq}
use wadjet_link.Correlator.{Options, RequestCorrelator, new_correlator, emit_event, record_request}
use wadjet_link.Correlator.Responses.{
  find_pending_for_response, is_response_pending, pair_of, process_response,
}
use wadjet_link.Correlator.Queries.{
  report_timeout, report_timeouts, check_timeouts, set_timing, on_event, clear_callbacks,
  clear_pending, clear_history, reset, reset_statistics,
}
use wadjet_link.Correlator.Lengths.{expire_all-Short}
use wadjet_link.Correlator.Invariant.{
  IsBounded, record_request-IsBounded, record_request_gives, waiting-IsBounded, finish-IsBounded,
}

process_response-IsBounded :
    (limit : ℕ) (c : RequestCorrelator) (header : UdsHeader) (message : UdsServiceMessage)
    (transport : TransportInfo)
    → IsBounded limit c
    → IsBounded limit (process_response header message transport c).1
unfolding process_response emit_event
process_response-IsBounded limit c header message transport h =
    elim (Option-cases (find_pending_for_response header transport c)) [
      | inl n ↦
          rw (process_response, n)
            (record {
              limit_kept = h.limit_kept;
              short = h.short;
              history = h.history;
              accounted = h.accounted;
            })
      | inr (p, e) ↦ elim (Bool-cases (is_response_pending header)) [
        | inl y ↦ rw (process_response, e, y) (waiting-IsBounded limit c h header transport p)
        | inr y ↦
            rw (process_response, e, y)
              (finish-IsBounded limit c h header transport (pair_of header message transport p))
      ]
    ]

report_timeouts-IsBounded :
    (limit : ℕ) (gone : List PendingRequest) (c : RequestCorrelator)
    → IsBounded limit c
    → IsBounded limit (report_timeouts gone c)
unfolding report_timeouts emit_event
report_timeouts-IsBounded limit [] c h = h
report_timeouts-IsBounded limit (p ∷ gone) c h =
    report_timeouts-IsBounded limit gone (report_timeout p c) (record {
      limit_kept = h.limit_kept;
      short = h.short;
      history = h.history;
      accounted = h.accounted;
    })

pub data Step (c : RequestCorrelator) : RequestCorrelator → Type 0 where
  requested :
      (header : UdsHeader) (message : UdsServiceMessage) (transport : TransportInfo)
      (d : RequestCorrelator)
      → record_request header message transport c ≡ some d
      → Step c d
  responded :
      (header : UdsHeader) (message : UdsServiceMessage) (transport : TransportInfo)
      → Step c (process_response header message transport c).1
  timeouts_checked : (now : ℕ) → Step c (check_timeouts now c).1
  timing_set : (timing : DiagnosticTiming) → Step c (set_timing timing c)
  callback_added : (f : ℕ) → Step c (on_event f c)
  callbacks_cleared : Step c (clear_callbacks c)
  pending_cleared : Step c (clear_pending c)
  history_cleared : Step c (clear_history c)
  all_cleared : Step c (reset c)
  statistics_reset : Step c (reset_statistics c)

pub data Reached (options : Options) : RequestCorrelator → Type 0 where
  created : Reached options (new_correlator options)
  next : {c d : RequestCorrelator} → Reached options c → Step c d → Reached options d

module _ (limit : ℕ) where
  Step-IsBounded : {c d : RequestCorrelator} → Step c d → IsBounded limit c → IsBounded limit d
  unfolding check_timeouts set_timing on_event clear_callbacks clear_pending clear_history reset
      reset_statistics
  Step-IsBounded {c} (requested header message transport d e) h =
      record_request-IsBounded limit c h header message transport d e
  Step-IsBounded {c} (responded header message transport) h =
      process_response-IsBounded limit c header message transport h
  Step-IsBounded {c} (timeouts_checked now) h = report_timeouts-IsBounded limit _ _ (record {
    limit_kept = h.limit_kept;
    short = expire_all-Short limit now c.options.timing c.pending_requests h.short;
    history = h.history;
    accounted = h.accounted;
  })
  Step-IsBounded (timing_set timing) h = record {
    limit_kept = h.limit_kept;
    short = h.short;
    history = h.history;
    accounted = h.accounted;
  }
  Step-IsBounded (callback_added f) h = record {
    limit_kept = h.limit_kept;
    short = h.short;
    history = h.history;
    accounted = h.accounted;
  }
  Step-IsBounded callbacks_cleared h = record {
    limit_kept = h.limit_kept;
    short = h.short;
    history = h.history;
    accounted = h.accounted;
  }
  Step-IsBounded pending_cleared h = record {
    limit_kept = h.limit_kept;
    short = tt;
    history = h.history;
    accounted = h.accounted;
  }
  Step-IsBounded history_cleared h = record {
    limit_kept = h.limit_kept;
    short = h.short;
    history = omega arith;
    accounted = h.accounted;
  }
  Step-IsBounded all_cleared h = record {
    limit_kept = h.limit_kept;
    short = tt;
    history = omega arith;
    accounted = h.accounted;
  }
  Step-IsBounded statistics_reset h = record {
    limit_kept = h.limit_kept;
    short = h.short;
    history = h.history;
    accounted = refl;
  }

IsBounded-Reached :
    {options : Options} {c : RequestCorrelator}
    → Reached options c
    → IsBounded options.max_pending_per_address c
unfolding new_correlator
IsBounded-Reached created = record {
  limit_kept = refl;
  short = tt;
  history = omega arith;
  accounted = refl;
}
IsBounded-Reached {options} (next r st) =
    Step-IsBounded options.max_pending_per_address st (IsBounded-Reached r)

-- Whatever operations a correlator with a positive limit has met, in any order and with any
-- requests, responses and times: no pair of addresses has more requests waiting than the limit of
-- the options, which no operation changes, the history holds at most 1000 pairs, the responses
-- counted as matched are those counted as positive and as negative together, modulo 2 ^ 64, and any
-- next request can be recorded.
pub Reached-IsBounded :
    {options : Options} {c : RequestCorrelator}
    → Reached options c
    → 0 < options.max_pending_per_address
    → IsBounded options.max_pending_per_address c
      × ((header : UdsHeader) (message : UdsServiceMessage) (transport : TransportInfo)
          → (d : RequestCorrelator) × (record_request header message transport c ≡ some d))
Reached-IsBounded {options} {c} r pos =
    let h = IsBounded-Reached r in
    (
      h,
      λ header message transport.
          record_request_gives options.max_pending_per_address c h header message transport pos,
    )
