-- ===== src/Correlator/Lengths.antt =====
-- How long the lists of the correlator get.
use wadjet_link.Prelude.{
  ℕ, ◌+◌, ◌-◌, ◌≤◌, ◌<◌, ◌≡◌, refl, List, [], ◌∷◌, ◌++◌, Option, none, some, ltb, leb, length,
  length-append, arith, inl, inr, Bool-cases, Option-cases, gt→leb,
}
use wadjet_link.Prelude.Assoc.{lookup, Values, lookup-Values}
use wadjet_link.Correlator.Types.{
  DiagnosticTiming, RequestResponsePair, PendingRequest, AddressPairKey, address_eq, is_timed_out,
}
use wadjet_link.Correlator.{RequestCorrelator, max_completed_history, make_room, pending_at}
use wadjet_link.Correlator.Responses.{
  has_service, count_pending, count_service, count_found, remove_service, remember, drop_front,
}
use wadjet_link.Correlator.Queries.{expire, expire_all}

abbrev pub Short : ℕ → List PendingRequest → Type 0
Short limit q = length q ≤ limit

module _ (limit : ℕ) where
  pub make_room_lem :
      (q r : List PendingRequest)
      → length q ≤ limit
      → make_room limit q ≡ some r
      → length r + 1 ≤ limit
  unfolding make_room
  make_room_lem [] r h e = elim (Bool-cases (leb limit 0)) [
    | inl t ↦ let bad : ◌≡◌ {A = Option (List PendingRequest)} none (some r) = rw t at e in cc
    | inr t ↦ let same : some [] ≡ some r = rw t at e in ground arith
  ]
  make_room_lem (p ∷ q) r h e = elim (Bool-cases (leb limit (length (p ∷ q)))) [
    | inl t ↦ let same : some q ≡ some r = rw t at e in ground arith
    | inr t ↦ let same : some (p ∷ q) ≡ some r = rw t at e in ground arith
  ]

  pub make_room_gives :
      (q : List PendingRequest)
      → 0 < limit
      → (r : List PendingRequest) × (make_room limit q ≡ some r)
  unfolding make_room
  make_room_gives [] h = ([], rw (gt→leb limit 0 h) refl)
  make_room_gives (p ∷ q) h = elim (Bool-cases (leb limit (length (p ∷ q)))) [
    | inl t ↦ (q, rw t refl)
    | inr t ↦ (p ∷ q, rw t refl)
  ]

  pub pending_at-Short :
      (key : AddressPairKey) (c : RequestCorrelator)
      → Values (Short limit) c.pending_requests
      → length (pending_at key c) ≤ limit
  pending_at-Short key c h = elim (Option-cases (lookup key c.pending_requests)) [
    | inl n ↦ rw n (omega arith)
    | inr (q, e) ↦ rw e (lookup-Values (Short limit) key c.pending_requests h e)
  ]

pub remove_service-length :
    (sid : ℕ) (q : List PendingRequest) → length (remove_service sid q) ≤ length q
unfolding remove_service
remove_service-length sid [] = omega arith
remove_service-length sid (p ∷ q) = ground (arith, remove_service-length sid q)

count_service-length :
    (sid : ℕ) (q r : List PendingRequest) → count_service sid q ≡ some r → length r ≡ length q
unfolding count_service
count_service-length sid [] r e = cc
count_service-length sid (p ∷ q) r e = elim (Bool-cases (has_service sid p)) [
  | inl t ↦
      let same : some (count_pending p ∷ q) ≡ some r = rw (count_service, t) at e in ground arith
  | inr t ↦ elim (Option-cases (count_service sid q)) [
    | inl n ↦
        let bad : ◌≡◌ {A = Option (List PendingRequest)} none (some r) =
          rw (count_service, t, n) at e in
        cc
    | inr (s, f) ↦
        let same : some (p ∷ s) ≡ some r = rw (count_service, t, f) at e in
        ground (arith, count_service-length sid q s f)
  ]
]

pub count_found-length : (sid : ℕ) (q : List PendingRequest) → length (count_found sid q) ≡ length q
unfolding count_found
count_found-length sid [] = elim (Option-cases (count_service sid [])) [
  | inl n ↦ rw (count_found, n) refl
  | inr (r, e) ↦ rw (count_found, e) (count_service-length sid [] r e)
]
count_found-length sid (p ∷ q) = elim (Option-cases (count_service sid (p ∷ q))) [
  | inl n ↦ rw (count_found, n) refl
  | inr (r, e) ↦ rw (count_found, e) (count_service-length sid (p ∷ q) r e)
]

drop_front-length : (ps : List RequestResponsePair) → length (drop_front ps) ≡ length ps - 1
drop_front-length [] = refl
drop_front-length (p ∷ ps) = omega arith

pub remember-length :
    (pair : RequestResponsePair) (completed : List RequestResponsePair)
    → length completed ≤ max_completed_history
    → length (remember pair completed) ≤ max_completed_history
unfolding remember
remember-length pair completed h =
    let one = length-append completed (pair ∷ []) in
    elim (Bool-cases (ltb max_completed_history (length (completed ++ pair ∷ [])))) [
      | inl e ↦ rw (remember, e) (omega (arith, one, drop_front-length (completed ++ pair ∷ [])))
      | inr e ↦ rw (remember, e) (ground (arith, one))
    ]

expire-length :
    (now : ℕ) (timing : DiagnosticTiming) (q : List PendingRequest)
    → length (expire now timing q).0 ≤ length q
unfolding expire
expire-length now timing [] = omega arith
expire-length now timing (p ∷ q) = elim (Bool-cases (is_timed_out now timing p)) [
  | inl e ↦ rw (expire, e) (omega (arith, expire-length now timing q))
  | inr e ↦ rw (expire, e) (omega (arith, expire-length now timing q))
]

pub expire_all-Short :
    (limit now : ℕ) (timing : DiagnosticTiming) (m : List (AddressPairKey × List PendingRequest))
    → Values (Short limit) m
    → Values (Short limit) (expire_all now timing m).0
unfolding expire_all
expire_all-Short limit now timing [] h = tt
expire_all-Short limit now timing ((key, q) ∷ m) (b, h) =
    (omega (arith, expire-length now timing q), expire_all-Short limit now timing m h)
