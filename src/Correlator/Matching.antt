-- ===== src/Correlator/Matching.antt =====
-- Which request a response is paired with, and which requests wait on afterwards.
use wadjet_link.Prelude.{
  ◌<◌, ◌≡◌, ◌≢◌, refl, ◌∙◌, List, [], ◌∷◌, ◌++◌, true, false, Option, none, some, length, arith,
  append-nil, gt→leb,
}
use wadjet_link.Prelude.Assoc.{lookup, lookup-insert}
use wadjet_link.Uds.Types.{UdsHeader, UdsServiceMessage}
use wadjet_link.Correlator.Types.{
  TransportInfo, RequestResponsePair, PendingRequest, AddressPairKey, address_eq,
}
use wadjet_link.Correlator.{
  RequestCorrelator, increment, emit_event, response_key, pending_at, key_of, new_pending,
  make_room, record_request, push,
}
use wadjet_link.Correlator.Responses.{
  has_service, find_pending_for_response, count_pending, count_found, is_response_pending,
  keep_waiting, pair_of, remember, finish, process_response,
}
use wadjet_link.Correlator.Lists.{
  Without, find_service_first, find_service-none, remove_service_first, remove_service-none,
  count_service_first, same_key, other_key, finish_here, finish_elsewhere, finish-completed,
}

module _ (header : UdsHeader) (message : UdsServiceMessage) (transport : TransportInfo)
    (c : RequestCorrelator) where
  abbrev pub answer : Option RequestResponsePair × RequestCorrelator
  answer = process_response header message transport c

  -- What a response does that is paired with this request.
  answered :
      (p : PendingRequest)
      → find_pending_for_response header transport c ≡ some p
      → is_response_pending header ≡ false
      → answer ≡ (
        some (pair_of header message transport p),
        finish header transport (pair_of header message transport p) c,
      )
  unfolding process_response
  answered p f n = rw (process_response, f, n) refl

  module _ (older newer : List PendingRequest) (p : PendingRequest) where
    -- The request `p` waits at the addresses of the response, and is the first there for its service.
    abbrev pub Waiting : Type 0
    Waiting =
        (lookup (response_key transport) c.pending_requests ≡ some (older ++ p ∷ newer))
        × Without header.service_id older
        × (has_service header.service_id p ≡ true)

    found : Waiting → find_pending_for_response header transport c ≡ some p
    unfolding find_pending_for_response
    found (e, w, s) =
        rw (find_pending_for_response, e, find_service_first header.service_id older newer p w s)
          refl

    pub process_response_matches :
        Waiting
        → is_response_pending header ≡ false
        → (answer.0 ≡ some (pair_of header message transport p))
          × (pending_at (response_key transport) answer.1 ≡ older ++ newer)
          × ((key : AddressPairKey)
              → key ≢ response_key transport
              → lookup key answer.1.pending_requests ≡ lookup key c.pending_requests)
          × (answer.1.completed ≡ remember (pair_of header message transport p) c.completed)
          × (answer.1.stats.responses_matched ≡ increment c.stats.responses_matched)
    process_response_matches h n =
        let pair = pair_of header message transport p in
        let (kept, counted) = finish-completed header transport pair c in
        rw (answered p (found h) n) (
          refl,
          finish_here header transport pair c
              ∙ rw (h.0) (remove_service_first header.service_id older newer p h.1 h.2),
          finish_elsewhere header transport pair c,
          kept,
          counted,
        )

    -- A response that only asks to wait leaves every request where it is: it is counted at the
    -- oldest request for its service at its addresses, reversed, nothing is paired and the history
    -- stays.
    pub process_response_waits :
        Waiting
        → is_response_pending header ≡ true
        → (answer.0 ≡ none)
          × (pending_at (response_key transport) answer.1 ≡ older ++ count_pending p ∷ newer)
          × ((key : AddressPairKey)
              → key ≢ response_key transport
              → lookup key answer.1.pending_requests ≡ lookup key c.pending_requests)
          × (answer.1.completed ≡ c.completed)
    unfolding process_response keep_waiting emit_event count_found
    process_response_waits h y =
        rw (process_response, found h, y)
          (
            refl,
            rw
                (
                  keep_waiting,
                  lookup-insert,
                  same_key (response_key transport),
                  h.0,
                  count_found,
                  count_service_first header.service_id older newer p h.1 h.2,
                )
                refl,
            λ key d.
                rw (keep_waiting, lookup-insert, other_key (response_key transport) key d) refl,
            refl,
          )

  module _ (p : PendingRequest) (q : List PendingRequest) where
    -- No request at the addresses of the response is for its service; `p` is the oldest.
    abbrev pub Stranger : Type 0
    Stranger =
        (lookup (response_key transport) c.pending_requests ≡ some (p ∷ q))
        × Without header.service_id (p ∷ q)
        × (is_response_pending header ≡ false)

    front_found : Stranger → find_pending_for_response header transport c ≡ some p
    unfolding find_pending_for_response
    front_found (e, w, n) =
        rw (find_pending_for_response, e, find_service-none header.service_id (p ∷ q) w) refl

    stranger_keeps : Stranger → pending_at (response_key transport) answer.1 ≡ p ∷ q
    stranger_keeps (e, w, n) = rw (answered p (front_found (e, w, n)) n) (
        finish_here header transport (pair_of header message transport p) c
        ∙ rw e (remove_service-none header.service_id (p ∷ q) w))

    -- A response for whose service no request waits at its addresses is paired with the oldest
    -- request there, although that is for another service, and this request keeps waiting: nothing
    -- is removed, and the same response again is paired with the same request again.
    pub process_response_mismatched :
        Stranger
        → (answer.0 ≡ some (pair_of header message transport p))
          × (pending_at (response_key transport) answer.1 ≡ p ∷ q)
          × ((process_response header message transport answer.1).0
              ≡ some (pair_of header message transport p))
    unfolding process_response find_pending_for_response
    process_response_mismatched h =
        let kept = stranger_keeps h in
        let again : find_pending_for_response header transport answer.1 ≡ some p =
          rw (find_pending_for_response, kept, find_service-none header.service_id (p ∷ q) h.1)
            refl in
        (rw (answered p (front_found h) h.2) refl, kept, rw (process_response, again, h.2) refl)

module _ (header : UdsHeader) (message : UdsServiceMessage) (transport : TransportInfo)
    (c : RequestCorrelator) where
  abbrev pub recorded : PendingRequest
  recorded = new_pending header message transport

  -- A request that is recorded where none for its service waits and the limit is not reached is the
  -- one that the next response for its service, with the addresses reversed, is paired with. After
  -- that the requests that wait are those from before.
  pub record_request_answered :
      (reply : UdsHeader) (answer_message : UdsServiceMessage) (back : TransportInfo)
      → Without header.service_id (pending_at (key_of transport) c)
      → length (pending_at (key_of transport) c) < c.options.max_pending_per_address
      → reply.service_id ≡ header.service_id
      → back.source_address ≡ transport.target_address
      → back.target_address ≡ transport.source_address
      → is_response_pending reply ≡ false
      → (d : RequestCorrelator) × (record_request header message transport c ≡ some d)
        × ((process_response reply answer_message back d).0
            ≡ some (pair_of reply answer_message back recorded))
        × (pending_at (key_of transport) (process_response reply answer_message back d).1
            ≡ pending_at (key_of transport) c)
  unfolding record_request make_room emit_event
  record_request_answered reply answer_message back w room sid a b n =
      let q = pending_at (key_of transport) c in
      let free : make_room c.options.max_pending_per_address q ≡ some q =
        rw (make_room, gt→leb _ _ room) refl in
      let d = push (key_of transport) recorded q c in
      let key : response_key back ≡ key_of transport = cc in
      let there : lookup (response_key back) d.pending_requests ≡ some (q ++ recorded ∷ []) =
        rw (key, lookup-insert, same_key (key_of transport)) refl in
      let first : has_service reply.service_id recorded ≡ true = ground arith in
      let others : Without reply.service_id q = rw sid w in
      let (e, f, _, _, _) =
        process_response_matches reply answer_message back d q [] recorded (there, others, first)
          n in
      (d, rw (record_request, free) refl, e, rw (key, append-nil q) at f)
