-- ===== src/Prelude/Keyed.antt =====
-- Association lists in which no key stands twice.
use mathlib.Core.Path.{◌≡◌, refl, subst}
use mathlib.Core.Logic.{inl, inr}
use mathlib.Core.Bool.{Bool, false}
use mathlib.Core.Option.{Option, none, some}
use mathlib.Core.List.{List, [], ◌∷◌}
use native.Mathlib.Omega.{arith}
use wadjet_link.Prelude.Tests.{if◌then◌else◌, Bool-cases}
use wadjet_link.Prelude.Assoc.{Eq, lookup, insert, erase, retain, lookup-insert, lookup-erase}

abbrev pub keep_if {κ} : {V : Type κ} → (V → Bool) → Option V → Option V
keep_if test none = none
keep_if test (some v) = if test v then some v else none

module _ {ℓ} {K : Type ℓ} ⦃e : Eq K⦄ where
  beq_false : (a b : K) → e.beq a b ≡ false → e.beq b a ≡ false
  beq_false a b h = ground (arith, e.beq_iff a b, e.beq_iff b a)

module _ {ℓ κ} {K : Type ℓ} {V : Type κ} ⦃e : Eq K⦄ where
  abbrev pub IsKeyed : List (K × V) → Type κ
  IsKeyed [] = Unit
  IsKeyed ((k, v) ∷ m) = (lookup k m ≡ none) × IsKeyed m

  lookup-retain-none :
      (test : V → Bool) (k : K) (m : List (K × V))
      → lookup k m ≡ none
      → lookup k (retain test m) ≡ none
  unfolding lookup retain
  lookup-retain-none test k [] h = refl
  lookup-retain-none test k ((j, w) ∷ m) h = elim (Bool-cases (e.beq j k)) [
    | inl t ↦ let s : some w ≡ none = rw t at h in cc
    | inr t ↦
        let rest = lookup-retain-none test k m (rw t at h) in
        elim (Bool-cases (test w)) [ inl d ↦ rw (d, t) rest | inr d ↦ rw d rest ]
  ]

  pub lookup-retain :
      (test : V → Bool) (k : K) (m : List (K × V))
      → IsKeyed m
      → lookup k (retain test m) ≡ keep_if test (lookup k m)
  unfolding lookup retain
  lookup-retain test k [] h = refl
  lookup-retain test k ((j, w) ∷ m) h = elim (Bool-cases (e.beq j k)) [
    | inl t ↦
        let same : j ≡ k = (e.beq_iff j k).0 t in
        let gone = lookup-retain-none test k m (subst (λ i. lookup i m ≡ none) same h.0) in
        elim (Bool-cases (test w)) [ inl d ↦ rw (d, t, d) refl | inr d ↦ rw (d, t, d) gone ]
    | inr t ↦
        let rest = lookup-retain test k m h.1 in
        elim (Bool-cases (test w)) [ inl d ↦ rw (d, t) rest | inr d ↦ rw (d, t) rest ]
  ]

  pub retain-IsKeyed : (test : V → Bool) (m : List (K × V)) → IsKeyed m → IsKeyed (retain test m)
  unfolding retain
  retain-IsKeyed test [] h = tt
  retain-IsKeyed test ((j, w) ∷ m) h = elim (Bool-cases (test w)) [
    | inl d ↦ rw d (lookup-retain-none test j m h.0, retain-IsKeyed test m h.1)
    | inr d ↦ rw d (retain-IsKeyed test m h.1)
  ]

  pub insert-IsKeyed : (k : K) (v : V) (m : List (K × V)) → IsKeyed m → IsKeyed (insert k v m)
  unfolding insert lookup
  insert-IsKeyed k v [] h = (refl, tt)
  insert-IsKeyed k v ((j, w) ∷ m) h = elim (Bool-cases (e.beq j k)) [
    | inl t ↦ rw t (h.0, h.1)
    | inr t ↦
        let other = beq_false j k t in
        rw t (rw (lookup-insert k j v m, other) h.0, insert-IsKeyed k v m h.1)
  ]

  pub erase-IsKeyed : (k : K) (m : List (K × V)) → IsKeyed m → IsKeyed (erase k m)
  unfolding erase
  erase-IsKeyed k [] h = tt
  erase-IsKeyed k ((j, w) ∷ m) h = elim (Bool-cases (e.beq j k)) [
    | inl t ↦ rw t (erase-IsKeyed k m h.1)
    | inr t ↦
        let other = beq_false j k t in
        rw t (rw (lookup-erase k j m, other) h.0, erase-IsKeyed k m h.1)
  ]
