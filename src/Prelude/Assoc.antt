-- ===== src/Prelude/Assoc.antt =====
-- Keys with a Boolean equality, and maps as association lists: `insert` replaces the value of a key
-- in place, or adds the key at the end.
use Prim.Native.Nat.{ℕ}
use mathlib.Core.Path.{◌≡◌, refl, subst}
use mathlib.Core.Logic.{◌↔◌, inl, inr}
use mathlib.Core.Bool.{Bool, true}
use mathlib.Core.Option.{Option, none, some}
use mathlib.Core.List.{List, [], ◌∷◌}
use native.Mathlib.Omega.{arith}
use wadjet_link.Prelude.Tests.{if◌then◌else◌, ◌==◌, ==_iff, Bool-cases}

pub record Eq {ℓ} (A : Type ℓ) : Type ℓ where
  pub beq : A → A → Bool
  pub beq_iff : (a b : A) → (beq a b ≡ true) ↔ (a ≡ b)

abbrev nat_beq : ℕ → ℕ → Bool
nat_beq a b = a == b

instance abbrev pub nat_eq : Eq ℕ
nat_eq = record { beq = nat_beq; beq_iff = ==_iff }

module _ {ℓ κ} {K : Type ℓ} {V : Type κ} where
  -- The values that a test keeps.
  unfoldable pub retain : (V → Bool) → List (K × V) → List (K × V)
  retain test [] = []
  retain test ((j, w) ∷ m) = let rest = retain test m in if test w then (j, w) ∷ rest else rest

module _ {ℓ κ} {K : Type ℓ} {V : Type κ} ⦃e : Eq K⦄ where
  unfoldable pub lookup : K → List (K × V) → Option V
  lookup k [] = none
  lookup k ((j, v) ∷ m) = if e.beq j k then some v else lookup k m

  unfoldable pub insert : K → V → List (K × V) → List (K × V)
  insert k v [] = (k, v) ∷ []
  insert k v ((j, w) ∷ m) = if e.beq j k then (j, v) ∷ m else (j, w) ∷ insert k v m

  unfoldable pub erase : K → List (K × V) → List (K × V)
  erase k [] = []
  erase k ((j, w) ∷ m) = let rest = erase k m in if e.beq j k then rest else (j, w) ∷ rest

  pub lookup-insert :
      (k j : K) (v : V) (m : List (K × V))
      → lookup j (insert k v m) ≡ (if e.beq k j then some v else lookup j m)
  unfolding lookup insert
  lookup-insert k j v [] = refl
  lookup-insert k j v ((i, w) ∷ m) =
      ground (arith, e.beq_iff k j, e.beq_iff i k, e.beq_iff i j, lookup-insert k j v m)

  pub lookup-erase :
      (k j : K) (m : List (K × V)) → lookup j (erase k m) ≡ (if e.beq k j then none else lookup j m)
  unfolding lookup erase
  lookup-erase k j [] = ground arith
  lookup-erase k j ((i, w) ∷ m) =
      ground (arith, e.beq_iff k j, e.beq_iff i k, e.beq_iff i j, lookup-erase k j m)

-- Every value of the map satisfies `P`.
abbrev pub Values {ℓ κ μ} : {K : Type ℓ} {V : Type κ} → (V → Type μ) → List (K × V) → Type μ
Values P [] = Unit
Values P ((k, v) ∷ m) = P v × Values P m

module _ {ℓ κ μ} {K : Type ℓ} {V : Type κ} (P : V → Type μ) ⦃e : Eq K⦄ where
  pub lookup-Values : (k : K) (m : List (K × V)) {v : V} → Values P m → lookup k m ≡ some v → P v
  unfolding lookup
  lookup-Values k [] h f = cc
  lookup-Values k ((j, w) ∷ m) {v} h f = elim (Bool-cases (e.beq j k)) [
    | inl t ↦ let s : some w ≡ some v = rw t at f in let q : w ≡ v = cc s in subst P q h.0
    | inr t ↦ lookup-Values k m h.1 (rw t at f)
  ]

  pub insert-Values :
      (k : K) (v : V) (m : List (K × V)) → P v → Values P m → Values P (insert k v m)
  unfolding insert
  insert-Values k v [] p h = (p, tt)
  insert-Values k v ((j, w) ∷ m) p h = elim (Bool-cases (e.beq j k)) [
    | inl t ↦ rw t (p, h.1)
    | inr t ↦ rw t (h.0, insert-Values k v m p h.1)
  ]

  pub erase-Values : (k : K) (m : List (K × V)) → Values P m → Values P (erase k m)
  unfolding erase
  erase-Values k [] h = tt
  erase-Values k ((j, w) ∷ m) h = elim (Bool-cases (e.beq j k)) [
    | inl t ↦ rw t (erase-Values k m h.1)
    | inr t ↦ rw t (h.0, erase-Values k m h.1)
  ]

module _ {ℓ κ μ} {K : Type ℓ} {V : Type κ} (P : V → Type μ) where
  pub retain-Values : (test : V → Bool) (m : List (K × V)) → Values P m → Values P (retain test m)
  unfolding retain
  retain-Values test [] h = tt
  retain-Values test ((j, w) ∷ m) h = elim (Bool-cases (test w)) [
    | inl t ↦ rw t (h.0, retain-Values test m h.1)
    | inr t ↦ rw t (retain-Values test m h.1)
  ]
