-- ===== src/Correlator/Types.antt =====
-- request_correlator.hpp and diagnostic_types.hpp: requests, responses and pairs.
use wadjet_link.Prelude.{
  ℕ, ◌≡◌, ◌↔◌, Bool, true, false, not, ◌&&◌, Option, none, some, ltb, ◌==◌, if◌then◌else◌, ◌^◌,
  arith,
}
use wadjet_link.Prelude.Assoc.{Eq}
use wadjet_link.Prelude.Integers.{ℤ, duration, exceeds}
use wadjet_link.Uds.Types.{UdsHeader, UdsServiceMessage, is_negative_response}

-- The limits are milliseconds.
pub record DiagnosticTiming : Type 0 where
  pub p2_server_max : ℕ
  pub p2_star_server_max : ℕ
  pub s3_server : ℕ
  pub p3_client : ℕ
  pub p4_server : ℕ

abbrev pub defaults : DiagnosticTiming
defaults = record {
  p2_server_max = 50;
  p2_star_server_max = 5000;
  s3_server = 5000;
  p3_client = 50;
  p4_server = 0;
}

pub data TransportType : Type 0 where
  doip iso_tp raw_udp raw_tcp unknown : TransportType

pub record TransportInfo : Type 0 where
  pub type : TransportType
  pub source_address : ℕ
  pub target_address : ℕ
  pub timestamp : ℕ
  pub sequence_number : Option ℕ

pub record Request : Type 0 where
  pub header : UdsHeader
  pub message : UdsServiceMessage
  pub transport : TransportInfo
  pub timestamp : ℕ

pub record Response : Type 0 where
  pub header : UdsHeader
  pub message : UdsServiceMessage
  pub transport : TransportInfo
  pub timestamp : ℕ
  pub pending_count : ℕ

pub record RequestResponsePair : Type 0 where
  pub request : Request
  pub response : Option Response

abbrev pub milliseconds : ℕ
milliseconds = 10 ^ 6

unfoldable pub is_complete : RequestResponsePair → Bool
is_complete p = elim p.response [ none ↦ false | some r ↦ true ]

unfoldable pub is_positive : RequestResponsePair → Bool
is_positive p = elim p.response [ none ↦ false | some r ↦ not (is_negative_response r.header) ]

unfoldable pub is_negative : RequestResponsePair → Bool
is_negative p = elim p.response [ none ↦ false | some r ↦ is_negative_response r.header ]

unfoldable pub get_nrc : RequestResponsePair → Option ℕ
get_nrc p = elim p.response [
  | none ↦ none
  | some r ↦ if is_negative_response r.header then r.header.negative_response_code else none
]

unfoldable pub response_time : RequestResponsePair → Option ℤ
response_time p = elim p.response [
  | none ↦ none
  | some r ↦ some (duration milliseconds r.timestamp p.request.timestamp)
]

abbrev pub within : Option ℤ → ℕ → Bool
within none limit = false
within (some t) limit = not (exceeds t limit)

unfoldable pub within_p2 : DiagnosticTiming → RequestResponsePair → Bool
unfolding response_time
within_p2 timing p = within (response_time p) timing.p2_server_max

unfoldable pub within_p2_star : DiagnosticTiming → RequestResponsePair → Bool
unfolding response_time
within_p2_star timing p = within (response_time p) timing.p2_star_server_max

pub record PendingRequest : Type 0 where
  pub request : Request
  pub pending_count : ℕ
  pub suppress_positive_response : Bool

abbrev pub elapsed : ℕ → PendingRequest → ℤ
elapsed now p = duration milliseconds now p.request.timestamp

unfoldable pub is_timed_out : ℕ → DiagnosticTiming → PendingRequest → Bool
is_timed_out now timing p =
    if ltb 0 p.pending_count
    then exceeds (elapsed now p) timing.p2_star_server_max
    else exceeds (elapsed now p) timing.p2_server_max

pub data CorrelationEvent : Type 0 where
  request_sent response_received response_pending request_timeout : CorrelationEvent
  unmatched_response positive_response negative_response : CorrelationEvent

pub record AddressPairKey : Type 0 where
  pub source : ℕ
  pub target : ℕ

abbrev pub address_beq : AddressPairKey → AddressPairKey → Bool
address_beq a b = a.source == b.source && a.target == b.target

pub address_beq_iff : (a b : AddressPairKey) → (address_beq a b ≡ true) ↔ (a ≡ b)
address_beq_iff a b = ground arith

instance abbrev pub address_eq : Eq AddressPairKey
address_eq = record { beq = address_beq; beq_iff = address_beq_iff }
