-- ===== src/Correlator/Lists.antt =====
-- The steps of `process_response`: the search, the removal and the counting, and what they keep.
use wadjet_link.Prelude.{
  ℕ, ◌≡◌, ◌≢◌, refl, sym, ap, List, [], ◌∷◌, ◌++◌, true, false, none, some, All, if◌then◌else◌, inl,
  inr, Bool-cases,
}
use wadjet_link.Prelude.Assoc.{lookup, lookup-insert}
use wadjet_link.Uds.Types.{UdsHeader, is_negative_response}
use wadjet_link.Correlator.Types.{
  TransportInfo, RequestResponsePair, PendingRequest, AddressPairKey, address_eq, address_beq,
  address_beq_iff,
}
use wadjet_link.Correlator.{RequestCorrelator, increment, emit_event, response_key, pending_at}
use wadjet_link.Correlator.Responses.{
  has_service, find_service, count_pending, count_service, remove_service, count_response, remember,
  finish,
}

-- None of the requests is for this service.
abbrev pub Without : ℕ → List PendingRequest → Type 0
Without sid q = All (λ p. has_service sid p ≡ false) q

module _ (sid : ℕ) where
  pub find_service_first :
      (older newer : List PendingRequest) (p : PendingRequest)
      → Without sid older
      → has_service sid p ≡ true
      → find_service sid (older ++ p ∷ newer) ≡ some p
  unfolding find_service
  find_service_first [] newer p w e = rw (find_service, e) refl
  find_service_first (q ∷ older) newer p (n, w) e =
      rw (find_service, n) (find_service_first older newer p w e)

  pub find_service-none : (q : List PendingRequest) → Without sid q → find_service sid q ≡ none
  unfolding find_service
  find_service-none [] w = refl
  find_service-none (p ∷ q) (n, w) = rw (find_service, n) (find_service-none q w)

  pub remove_service_first :
      (older newer : List PendingRequest) (p : PendingRequest)
      → Without sid older
      → has_service sid p ≡ true
      → remove_service sid (older ++ p ∷ newer) ≡ older ++ newer
  unfolding remove_service
  remove_service_first [] newer p w e = rw (remove_service, e) refl
  remove_service_first (q ∷ older) newer p (n, w) e =
      rw (remove_service, n) (ap (λ r. q ∷ r) (remove_service_first older newer p w e))

  pub remove_service-none : (q : List PendingRequest) → Without sid q → remove_service sid q ≡ q
  unfolding remove_service
  remove_service-none [] w = refl
  remove_service-none (p ∷ q) (n, w) =
      rw (remove_service, n) (ap (λ r. p ∷ r) (remove_service-none q w))

  pub count_service_first :
      (older newer : List PendingRequest) (p : PendingRequest)
      → Without sid older
      → has_service sid p ≡ true
      → count_service sid (older ++ p ∷ newer) ≡ some (older ++ count_pending p ∷ newer)
  unfolding count_service
  count_service_first [] newer p w e = rw (count_service, e) refl
  count_service_first (q ∷ older) newer p (n, w) e =
      rw (count_service, n, count_service_first older newer p w e) refl

pub same_key : (key : AddressPairKey) → address_beq key key ≡ true
same_key key = (address_beq_iff key key).1 refl

pub other_key : (key other : AddressPairKey) → other ≢ key → address_beq key other ≡ false
other_key key other d = elim (Bool-cases (address_beq key other)) [
  | inl e ↦ absurd (d (sym ((address_beq_iff key other).0 e)))
  | inr e ↦ e
]

module _ (header : UdsHeader) (transport : TransportInfo) (pair : RequestResponsePair)
    (c : RequestCorrelator) where
  pub finish-pending :
      (key : AddressPairKey)
      → lookup key (finish header transport pair c).pending_requests ≡ (
          if address_beq (response_key transport) key
          then some (remove_service header.service_id (pending_at (response_key transport) c))
          else lookup key c.pending_requests)
  unfolding finish emit_event count_response
  finish-pending key =
      let q = remove_service header.service_id (pending_at (response_key transport) c) in
      elim (Bool-cases (is_negative_response header)) [
        | inl e ↦ rw (finish, e) (lookup-insert (response_key transport) key q c.pending_requests)
        | inr e ↦ rw (finish, e) (lookup-insert (response_key transport) key q c.pending_requests)
      ]

  pub finish_here :
      pending_at (response_key transport) (finish header transport pair c)
      ≡ remove_service header.service_id (pending_at (response_key transport) c)
  finish_here = rw (finish-pending (response_key transport), same_key (response_key transport)) refl

  pub finish_elsewhere :
      (key : AddressPairKey)
      → key ≢ response_key transport
      → lookup key (finish header transport pair c).pending_requests ≡ lookup key c.pending_requests
  finish_elsewhere key d = rw (finish-pending key, other_key (response_key transport) key d) refl

  pub finish-completed :
      ((finish header transport pair c).completed ≡ remember pair c.completed)
      × ((finish header transport pair c).stats.responses_matched
          ≡ increment c.stats.responses_matched)
  unfolding finish emit_event count_response
  finish-completed = elim (Bool-cases (is_negative_response header)) [
    | inl e ↦ rw (finish, e) (refl, refl)
    | inr e ↦ rw (finish, e) (refl, refl)
  ]
