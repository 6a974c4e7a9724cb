-- ===== src/Correlator/Timeouts.antt =====
-- `check_timeouts`: which requests it drops and what it counts.
use wadjet_link.Prelude.{
  ℕ, ◌≡◌, refl, ap, List, [], ◌∷◌, Option, none, some, if◌then◌else◌, inl, inr, Bool-cases,
}
use wadjet_link.Correlator.Types.{DiagnosticTiming, PendingRequest, address_eq, is_timed_out}

-- The requests that are not timed out.
abbrev pub waiting : ℕ → DiagnosticTiming → List PendingRequest → List PendingRequest
waiting now timing [] = []
waiting now timing (p ∷ q) =
    let rest = waiting now timing q in if is_timed_out now timing p then rest else p ∷ rest

module _ (now : ℕ) (timing : DiagnosticTiming) where
  waiting_all :
      (q : List PendingRequest) → waiting now timing (waiting now timing q) ≡ waiting now timing q
  waiting_all [] = refl
  waiting_all (p ∷ q) = elim (Bool-cases (is_timed_out now timing p)) [
    | inl e ↦ rw e (waiting_all q)
    | inr e ↦ rw (e, e) (ap (λ r. p ∷ r) (waiting_all q))
  ]

  abbrev lists : Option (List PendingRequest) → Option (List PendingRequest)
  lists none = none
  lists (some q) = some (waiting now timing q)
