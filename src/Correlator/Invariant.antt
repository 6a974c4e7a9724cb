-- ===== src/Correlator/Invariant.antt =====
-- The bounds and the accounts that every operation of the correlator keeps.
use wadjet_link.Prelude.{
  ℕ, ◌+◌, ◌%◌, ◌^◌, ◌≤◌, ◌<◌, ◌≡◌, refl, subst, [], ◌∷◌, ◌++◌, Option, none, some, length,
  length-append, arith, inl, inr, Bool-cases, Option-cases,
}
use wadjet_link.Prelude.Assoc.{Values, insert-Values}
use wadjet_link.Uds.Types.{UdsHeader, UdsServiceMessage, is_negative_response}
use wadjet_link.Correlator.Types.{TransportInfo, RequestResponsePair, PendingRequest, address_eq}
use wadjet_link.Correlator.{
  RequestCorrelator, max_completed_history, emit_event, make_room, response_key, pending_at, key_of,
  new_pending, record_request, push,
}
use wadjet_link.Correlator.Responses.{
  count_found, remove_service, keep_waiting, count_response, finish,
}
use wadjet_link.Correlator.Lengths.{
  Short, make_room_lem, make_room_gives, pending_at-Short, remove_service-length,
  count_found-length, remember-length,
}

pub record IsBounded (limit : ℕ) (c : RequestCorrelator) : Type 0 where
  pub limit_kept : c.options.max_pending_per_address ≡ limit
  pub short : Values (Short limit) c.pending_requests
  pub history : length c.completed ≤ max_completed_history
  pub accounted :
      c.stats.responses_matched ≡ (c.stats.positive_responses + c.stats.negative_responses) % 2 ^ 64

module _ (limit : ℕ) (c : RequestCorrelator) (h : IsBounded limit c) where
  pub record_request-IsBounded :
      (header : UdsHeader) (message : UdsServiceMessage) (transport : TransportInfo)
      (d : RequestCorrelator)
      → record_request header message transport c ≡ some d
      → IsBounded limit d
  unfolding record_request emit_event
  record_request-IsBounded header message transport d e =
      let key = key_of transport in
      let room = c.options.max_pending_per_address in
      elim (Option-cases (make_room room (pending_at key c))) [
        | inl n ↦
            let bad : ◌≡◌ {A = Option RequestCorrelator} none (some d) =
              rw (record_request, n) at e in
            cc
        | inr (q, f) ↦
            let pushed : some (push key (new_pending header message transport) q c) ≡ some d =
              rw (record_request, f) at e in
            let same : push key (new_pending header message transport) q c ≡ d = cc pushed in
            let free : length q + 1 ≤ limit =
              make_room_lem limit (pending_at key c) q (pending_at-Short limit key c h.short)
                (rw (h.limit_kept) at f) in
            let fits : Short limit (q ++ new_pending header message transport ∷ []) =
              omega (arith, length-append q (new_pending header message transport ∷ [])) in
            subst (IsBounded limit) same (record {
              limit_kept = h.limit_kept;
              short = insert-Values (Short limit) key _ c.pending_requests fits h.short;
              history = h.history;
              accounted = h.accounted;
            })
      ]

  pub record_request_gives :
      (header : UdsHeader) (message : UdsServiceMessage) (transport : TransportInfo)
      → 0 < limit
      → (d : RequestCorrelator) × (record_request header message transport c ≡ some d)
  unfolding record_request
  record_request_gives header message transport pos =
      let room = c.options.max_pending_per_address in
      let (q, e) =
        make_room_gives room (pending_at (key_of transport) c) (omega (arith, h.limit_kept)) in
      (
        push (key_of transport) (new_pending header message transport) q c,
        rw (record_request, e) refl,
      )

  pub waiting-IsBounded :
      (header : UdsHeader) (transport : TransportInfo) (p : PendingRequest)
      → IsBounded limit (keep_waiting header transport p c)
  unfolding keep_waiting emit_event
  waiting-IsBounded header transport p =
      let key = response_key transport in
      let fits : Short limit (count_found header.service_id (pending_at key c)) = omega (
        arith,
        count_found-length header.service_id (pending_at key c),
        pending_at-Short limit key c h.short,
      ) in
      record {
        limit_kept = h.limit_kept;
        short = insert-Values (Short limit) key _ c.pending_requests fits h.short;
        history = h.history;
        accounted = h.accounted;
      }

  pub finish-IsBounded :
      (header : UdsHeader) (transport : TransportInfo) (pair : RequestResponsePair)
      → IsBounded limit (finish header transport pair c)
  unfolding finish count_response emit_event
  finish-IsBounded header transport pair =
      let key = response_key transport in
      let fits : Short limit (remove_service header.service_id (pending_at key c)) = omega (
        arith,
        remove_service-length header.service_id (pending_at key c),
        pending_at-Short limit key c h.short,
      ) in
      let short = insert-Values (Short limit) key _ c.pending_requests fits h.short in
      let history = remember-length pair c.completed h.history in
      elim (Bool-cases (is_negative_response header)) [
        | inl e ↦
            rw (finish, e)
              (record {
                limit_kept = h.limit_kept;
                short = short;
                history = history;
                accounted = omega (arith, h.accounted);
              })
        | inr e ↦
            rw (finish, e)
              (record {
                limit_kept = h.limit_kept;
                short = short;
                history = history;
                accounted = omega (arith, h.accounted);
              })
      ]
