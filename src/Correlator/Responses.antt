-- ===== src/Correlator/Responses.antt =====
-- `find_pending_for_response` and `process_response`.
use wadjet_link.Prelude.{
  ℕ, ◌+◌, ◌%◌, ◌^◌, List, [], ◌∷◌, ◌++◌, Bool, true, false, ◌&&◌, Option, none, some, ltb, ◌==◌,
  if◌then◌else◌, length,
}
use wadjet_link.Prelude.Assoc.{insert}
use wadjet_link.Uds.Types.{UdsHeader, UdsServiceMessage, is_negative_response}
use wadjet_link.Correlator.Types.{
  TransportInfo, RequestResponsePair, PendingRequest, address_eq, response_received,
  response_pending, unmatched_response, positive_response, negative_response,
}
use wadjet_link.Correlator.{
  RequestCorrelator, max_completed_history, increment, emit_event, response_key, pending_at,
}

abbrev pub has_service : ℕ → PendingRequest → Bool
has_service sid p = p.request.header.service_id == sid

-- The first request of the service.
unfoldable pub find_service : ℕ → List PendingRequest → Option PendingRequest
find_service sid [] = none
find_service sid (p ∷ q) = if has_service sid p then some p else find_service sid q

abbrev pub front : List PendingRequest → Option PendingRequest
front [] = none
front (p ∷ q) = some p

abbrev pub or_front : Option PendingRequest → List PendingRequest → Option PendingRequest
or_front none q = front q
or_front (some p) q = some p

-- If no request has the service of the response, it is the oldest.
unfoldable pub find_pending_for_response :
    UdsHeader → TransportInfo → RequestCorrelator → Option PendingRequest
find_pending_for_response header transport c =
    let q = pending_at (response_key transport) c in or_front (find_service header.service_id q) q

abbrev pub count_pending : PendingRequest → PendingRequest
count_pending p = record p { pending_count = (p.pending_count + 1) % 2 ^ 32 }

-- `pending->pending_count++` through the pointer that was found: to the first request of the
-- service, or to the oldest.
unfoldable pub count_service : ℕ → List PendingRequest → Option (List PendingRequest)
count_service sid [] = none
count_service sid (p ∷ q) =
    let rest = count_service sid q in
    if has_service sid p
    then some (count_pending p ∷ q)
    else elim rest [ none ↦ none | some r ↦ some (p ∷ r) ]

abbrev pub count_front : List PendingRequest → List PendingRequest
count_front [] = []
count_front (p ∷ q) = count_pending p ∷ q

unfoldable pub count_found : ℕ → List PendingRequest → List PendingRequest
count_found sid q = elim (count_service sid q) [ none ↦ count_front q | some r ↦ r ]

-- The first request of the service is removed, if there is one.
unfoldable pub remove_service : ℕ → List PendingRequest → List PendingRequest
remove_service sid [] = []
remove_service sid (p ∷ q) =
    let rest = remove_service sid q in if has_service sid p then q else p ∷ rest

abbrev pub is_response_pending : UdsHeader → Bool
is_response_pending header =
    is_negative_response header
    && elim header.negative_response_code [ none ↦ false | some nrc ↦ nrc == 0x78 ]

-- A final answer is still to come.
unfoldable pub keep_waiting :
    UdsHeader → TransportInfo → PendingRequest → RequestCorrelator → RequestCorrelator
keep_waiting header transport pending c =
    let key = response_key transport in
    emit_event response_pending none (some (count_pending pending)) (record c {
      pending_requests =
          insert key (count_found header.service_id (pending_at key c)) c.pending_requests;
      stats = record c.stats { response_pending_count = increment c.stats.response_pending_count };
    })

abbrev pub pair_of :
    UdsHeader → UdsServiceMessage → TransportInfo → PendingRequest → RequestResponsePair
pair_of header message transport pending = record {
  request = pending.request;
  response = some (record {
    header = header;
    message = message;
    transport = transport;
    timestamp = transport.timestamp;
    pending_count = pending.pending_count;
  });
}

unfoldable pub count_response : Bool → RequestResponsePair → RequestCorrelator → RequestCorrelator
count_response true pair c = emit_event negative_response (some pair) none (record c {
  stats = record c.stats {
    responses_matched = increment c.stats.responses_matched;
    negative_responses = increment c.stats.negative_responses;
  };
})
count_response false pair c = emit_event positive_response (some pair) none (record c {
  stats = record c.stats {
    responses_matched = increment c.stats.responses_matched;
    positive_responses = increment c.stats.positive_responses;
  };
})

abbrev pub drop_front : List RequestResponsePair → List RequestResponsePair
drop_front [] = []
drop_front (p ∷ ps) = ps

unfoldable pub remember : RequestResponsePair → List RequestResponsePair → List RequestResponsePair
remember pair completed =
    let all = completed ++ pair ∷ [] in
    if ltb max_completed_history (length all) then drop_front all else all

unfoldable pub finish :
    UdsHeader → TransportInfo → RequestResponsePair → RequestCorrelator → RequestCorrelator
finish header transport pair c =
    let key = response_key transport in
    let c1 =
      emit_event response_received (some pair) none
        (count_response (is_negative_response header) pair c) in
    record c1 {
      pending_requests =
          insert key (remove_service header.service_id (pending_at key c1)) c1.pending_requests;
      completed = remember pair c1.completed;
    }

unfoldable pub process_response :
    UdsHeader
    → UdsServiceMessage
    → TransportInfo
    → RequestCorrelator
    → Option RequestResponsePair × RequestCorrelator
process_response header message transport c = elim (find_pending_for_response header transport c) [
  | none ↦ (
    none,
    emit_event unmatched_response none none (record c {
      stats = record c.stats { responses_unmatched = increment c.stats.responses_unmatched };
    }),
  )
  | some pending ↦
      if is_response_pending header then (none, keep_waiting header transport pending c) else (
        some (pair_of header message transport pending),
        finish header transport (pair_of header message transport pending) c,
      )
]
