-- ===== src/Dtc/Counting.antt =====
-- The counts of the manager against the lists of records, and the statistics of all ECUs.
use wadjet_link.Prelude.{
  ℕ, ◌+◌, ◌≡◌, ◌≢◌, ◌∙◌, refl, sym, [], ◌∷◌, Bool, true, none, length, arith, inl, inr, Bool-cases,
  length-append,
}
use wadjet_link.Dtc.Types.{DtcRecord, DtcFilter, all_dtcs}
use wadjet_link.Dtc.{DtcManager, Ecus, Dtcs, total_in}
use wadjet_link.Dtc.Queries.{
  is_active, is_confirmed, covers, matches_filter, matching, matching_all, get_dtcs, count_matching,
  count_all, count_dtcs, count_where, count_everywhere, statistics, get_ecu_statistics,
  all_statistics, get_all_statistics,
}

module _ (now : ℕ) (f : DtcFilter) where
  count_matching_lem : (n : ℕ) (m : Dtcs) → count_matching now f n m ≡ n + length (matching now f m)
  unfolding count_matching matching
  count_matching_lem n [] = omega arith
  count_matching_lem n ((k, r) ∷ m) = elim (Bool-cases (matches_filter now r f)) [
    | inl t ↦ rw (t) (omega (arith, count_matching_lem (n + 1) m))
    | inr t ↦ rw (t) (count_matching_lem n m)
  ]

  count_all_lem : (n : ℕ) (es : Ecus) → count_all now f n es ≡ n + length (matching_all now f es)
  unfolding count_all matching_all
  count_all_lem n [] = omega arith
  count_all_lem n ((e, d) ∷ es) = elim (Bool-cases (covers f.ecu_address e)) [
    | inl t ↦ rw t (
        omega (
          arith,
          count_all_lem (count_matching now f n d.dtcs) es,
          count_matching_lem n d.dtcs,
          length-append (matching now f d.dtcs) (matching_all now f es),
        ))
    | inr t ↦ rw t (count_all_lem n es)
  ]

-- A filter that looks at nothing but one test of the record.
abbrev Tests : (DtcRecord → Bool) → DtcFilter → Type 0
Tests test f = (now : ℕ) (r : DtcRecord) → matches_filter now r f ≡ test r

module _ (test : DtcRecord → Bool) (f : DtcFilter) (h : Tests test f) (now : ℕ) where
  count_where-matching : (m : Dtcs) → count_where test m ≡ length (matching now f m)
  unfolding count_where matching
  count_where-matching [] = refl
  count_where-matching ((k, r) ∷ m) = elim (Bool-cases (test r)) [
    | inl t ↦ rw (h now r, t) (omega (arith, count_where-matching m))
    | inr t ↦ rw (h now r, t) (omega (arith, count_where-matching m))
  ]

  count_everywhere-matching :
      (es : Ecus)
      → ((e : ℕ) → covers f.ecu_address e ≡ true)
      → count_everywhere test es ≡ length (matching_all now f es)
  unfolding count_everywhere matching_all
  count_everywhere-matching [] z = refl
  count_everywhere-matching ((e, d) ∷ es) z = rw (z e) (
      omega (
        arith,
        count_where-matching d.dtcs,
        count_everywhere-matching es z,
        length-append (matching now f d.dtcs) (matching_all now f es),
      ))

abbrev pub only_active : DtcFilter
only_active = record all_dtcs { active_only = true }

abbrev pub only_confirmed : DtcFilter
only_confirmed = record all_dtcs { confirmed_only = true }

all-Tests : Tests (λ r. true) all_dtcs
unfolding matches_filter
all-Tests now r = ground arith

active-Tests : Tests is_active only_active
unfolding matches_filter
active-Tests now r = ground arith

confirmed-Tests : Tests is_confirmed only_confirmed
unfolding matches_filter
confirmed-Tests now r = ground arith

count_where-true : (m : Dtcs) → count_where (λ r. true) m ≡ length m
unfolding count_where
count_where-true [] = refl
count_where-true ((k, r) ∷ m) = omega (arith, count_where-true m)

total_in-everywhere : (es : Ecus) → total_in es ≡ count_everywhere (λ r. true) es
unfolding total_in count_everywhere
total_in-everywhere [] = refl
total_in-everywhere ((e, d) ∷ es) = omega (arith, total_in-everywhere es, count_where-true d.dtcs)

-- For every filter the count is the length of the list, and the statistics of the manager are the
-- counts of the filters for all, for active and for confirmed codes, whatever happened before.
pub count_dtcs_lem :
    (now : ℕ) (m : DtcManager)
    → ((f : DtcFilter) → count_dtcs now f m ≡ length (get_dtcs now f m))
      × ((statistics m).total_dtcs ≡ count_dtcs now all_dtcs m)
      × ((statistics m).active_dtcs ≡ count_dtcs now only_active m)
      × ((statistics m).confirmed_dtcs ≡ count_dtcs now only_confirmed m)
unfolding count_dtcs get_dtcs statistics
count_dtcs_lem now m =
    let counted : (f : DtcFilter)
        → count_all now f 0 m.ecu_data ≡ length (matching_all now f m.ecu_data) =
      λ f. omega (arith, count_all_lem now f 0 m.ecu_data) in
    (
      counted,
      total_in-everywhere m.ecu_data
          ∙ count_everywhere-matching (λ r. true) all_dtcs all-Tests now m.ecu_data (λ e. refl)
          ∙ sym (counted all_dtcs),
      count_everywhere-matching is_active only_active active-Tests now m.ecu_data (λ e. refl)
          ∙ sym (counted only_active),
      count_everywhere-matching is_confirmed only_confirmed confirmed-Tests now m.ecu_data
            (λ e. refl)
          ∙ sym (counted only_confirmed),
    )

-- The statistics of all ECUs lock the mutex a second time as soon as one ECU is known.
pub get_all_statistics-none : (m : DtcManager) → m.ecu_data ≢ [] → get_all_statistics m ≡ none
unfolding get_all_statistics all_statistics get_ecu_statistics
get_all_statistics-none m h = all-none m.ecu_data h
  where
    all-none : (es : Ecus) → es ≢ [] → all_statistics m es ≡ none
    all-none [] n = absurd (n refl)
    all-none (e ∷ es) n = refl
