-- ===== src/Correlator.antt =====
-- `RequestCorrelator` of src/protocols/diagnostic/request_correlator.cpp, which pairs UDS responses
-- with the requests that wait for them. `Types` has the requests and pairs. Times are ticks of the
-- steady clock, nanoseconds. A callback is the number that it is known by, and `called` lists the
-- calls, the oldest first. The locks are left out: every operation holds the one mutex from start to
-- end. `none` as the result of an operation is an access that C++ does not define.
pub mod Types
pub mod Responses
pub mod Queries
pub mod Lists
pub mod Matching
pub mod Timeouts
pub mod Lengths
pub mod Invariant
pub mod Reach
use wadjet_link.Prelude.{
  ℕ, ◌+◌, ◌%◌, ◌^◌, List, [], ◌∷◌, ◌++◌, Bool, true, false, ◌&&◌, Option, none, some, ltb, leb,
  ◌==◌, if◌then◌else◌, length, map,
}
use wadjet_link.Prelude.Assoc.{lookup, insert}
use wadjet_link.Uds.Types.{UdsHeader, UdsServiceMessage, is_negative_response}
use wadjet_link.Correlator.Types.{
  DiagnosticTiming, TransportInfo, Request, Response, RequestResponsePair, PendingRequest,
  AddressPairKey, address_eq, CorrelationEvent, request_sent, response_received, response_pending,
  request_timeout, unmatched_response, positive_response, negative_response, is_timed_out,
}

pub record Options : Type 0 where
  pub max_pending_per_address : ℕ
  pub max_total_pending : ℕ
  pub auto_timeout_check : Bool
  pub timing : DiagnosticTiming

pub record Statistics : Type 0 where
  pub requests_recorded : ℕ
  pub responses_matched : ℕ
  pub responses_unmatched : ℕ
  pub pending_timeouts : ℕ
  pub positive_responses : ℕ
  pub negative_responses : ℕ
  pub response_pending_count : ℕ

abbrev pub no_statistics : Statistics
no_statistics = record {
  requests_recorded = 0;
  responses_matched = 0;
  responses_unmatched = 0;
  pending_timeouts = 0;
  positive_responses = 0;
  negative_responses = 0;
  response_pending_count = 0;
}

abbrev pub Call : Type 0
Call = ℕ × CorrelationEvent × Option RequestResponsePair × Option PendingRequest

pub record RequestCorrelator : Type 0 where
  pub options : Options
  pub stats : Statistics
  pub pending_requests : List (AddressPairKey × List PendingRequest)
  pub completed : List RequestResponsePair
  pub callbacks : List ℕ
  pub called : List Call

abbrev pub max_completed_history : ℕ
max_completed_history = 1000

abbrev pub increment : ℕ → ℕ
increment n = (n + 1) % 2 ^ 64

unfoldable pub new_correlator : Options → RequestCorrelator
new_correlator options = record {
  options = options;
  stats = no_statistics;
  pending_requests = [];
  completed = [];
  callbacks = [];
  called = [];
}

unfoldable pub emit_event :
    CorrelationEvent
    → Option RequestResponsePair
    → Option PendingRequest
    → RequestCorrelator
    → RequestCorrelator
emit_event event pair pending c = record c {
  called = c.called ++ map (λ f. (f, event, pair, pending)) c.callbacks;
}

abbrev pub list_of : Option (List PendingRequest) → List PendingRequest
list_of none = []
list_of (some q) = q

-- `pop_front`, which is not defined on an empty deque.
abbrev pub pop_front : List PendingRequest → Option (List PendingRequest)
pop_front [] = none
pop_front (p ∷ q) = some q

-- The list at the limit loses its oldest request.
unfoldable pub make_room : ℕ → List PendingRequest → Option (List PendingRequest)
make_room limit q = if leb limit (length q) then pop_front q else some q

abbrev pub new_pending : UdsHeader → UdsServiceMessage → TransportInfo → PendingRequest
new_pending header message transport = record {
  request = record {
    header = header;
    message = message;
    transport = transport;
    timestamp = transport.timestamp;
  };
  pending_count = 0;
  suppress_positive_response = header.suppress_positive_response;
}

abbrev pub key_of : TransportInfo → AddressPairKey
key_of t = record { source = t.source_address; target = t.target_address }

-- The addresses of a response are those of its request, reversed.
abbrev pub response_key : TransportInfo → AddressPairKey
response_key t = record { source = t.target_address; target = t.source_address }

abbrev pub pending_at : AddressPairKey → RequestCorrelator → List PendingRequest
pending_at key c = list_of (lookup key c.pending_requests)

abbrev pub push :
    AddressPairKey → PendingRequest → List PendingRequest → RequestCorrelator → RequestCorrelator
push key pending q c = emit_event request_sent none (some pending) (record c {
  pending_requests = insert key (q ++ pending ∷ []) c.pending_requests;
  stats = record c.stats { requests_recorded = increment c.stats.requests_recorded };
})

unfoldable pub record_request :
    UdsHeader → UdsServiceMessage → TransportInfo → RequestCorrelator → Option RequestCorrelator
record_request header message transport c =
    elim (make_room c.options.max_pending_per_address (pending_at (key_of transport) c)) [
      | none ↦ none
      | some q ↦ some (push (key_of transport) (new_pending header message transport) q c)
    ]
