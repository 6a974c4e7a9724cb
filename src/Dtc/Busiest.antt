-- ===== src/Dtc/Busiest.antt =====
-- One round of each loop of `enforce_limits`: the record that goes, and the ECU that loses it.
use wadjet_link.Prelude.{
  ℕ, zero, suc, ◌+◌, ◌≤◌, ◌<◌, ◌≡◌, ◌≢◌, ◌⊎◌, refl, [], ◌∷◌, Bool, true, false, ◌||◌, none, some,
  ◌==◌, length, arith, inl, inr, Bool-cases, ne→==, le→ltb, lt→ltb, dec_lt, ==_iff, subst, sym,
}
use wadjet_link.Prelude.Assoc.{nat_eq, lookup, insert, erase, lookup-insert}
use wadjet_link.Prelude.Keyed.{IsKeyed, insert-IsKeyed}
use wadjet_link.Dtc.Types.{DtcRecord}
use wadjet_link.Dtc.{
  EcuData, Ecus, Dtcs, data_of, oldest, erase_oldest, limit_ecu, total_in, busiest, is_empty,
  limit_round,
}

abbrev has_key : ℕ → Dtcs → Bool
has_key k [] = false
has_key k ((j, r) ∷ m) = (j == k) || has_key k m

pub erase-length : (k : ℕ) (m : Dtcs) → length (erase k m) ≤ length m
unfolding erase
erase-length k [] = omega arith
erase-length k ((j, r) ∷ m) = ground (arith, erase-length k m)

erase_shorter : (k : ℕ) (m : Dtcs) → has_key k m ≡ true → length (erase k m) < length m
unfolding erase
erase_shorter k [] h = cc
erase_shorter k ((j, r) ∷ m) h = ground (arith, erase-length k m, erase_shorter k m)

oldest_found : (best : ℕ × DtcRecord) (m : Dtcs) → has_key (oldest best m) (best ∷ m) ≡ true
unfolding oldest
oldest_found best [] = ground arith
oldest_found best (e ∷ m) = ground (arith, oldest_found best m, oldest_found e m)

erase_oldest-length : (m : Dtcs) → (m ≡ []) ⊎ (length (erase_oldest m) < length m)
unfolding erase_oldest
erase_oldest-length [] = inl refl
erase_oldest-length (e ∷ m) = inr (erase_shorter (oldest e m) (e ∷ m) (oldest_found e m))

pub erase_oldest-le : (m : Dtcs) → length (erase_oldest m) ≤ length m
unfolding erase_oldest
erase_oldest-le [] = omega arith
erase_oldest-le (e ∷ m) = erase-length (oldest e m) (e ∷ m)

pub limit_ecu-le : (n limit : ℕ) (m : Dtcs) → length (limit_ecu n limit m) ≤ length m
unfolding limit_ecu
limit_ecu-le zero limit m = omega arith
limit_ecu-le (suc n) limit m =
    ground (arith, limit_ecu-le n limit (erase_oldest m), erase_oldest-le m)

pub limit_ecu_lem :
    (n limit : ℕ) (m : Dtcs) → length m ≤ n + limit → length (limit_ecu n limit m) ≤ limit
unfolding limit_ecu
limit_ecu_lem zero limit m h = omega arith
limit_ecu_lem (suc n) limit m h = elim (erase_oldest-length m) [
  | inl e ↦ rw e (ground arith)
  | inr l ↦ ground (arith, limit_ecu_lem n limit (erase_oldest m))
]

pub total_in-insert :
    (ecu : ℕ) (d : EcuData) (es : Ecus)
    → total_in (insert ecu d es) + length (data_of ecu es).dtcs ≡ total_in es + length d.dtcs
unfolding total_in insert lookup
total_in-insert ecu d [] = omega arith
total_in-insert ecu d ((e, c) ∷ es) = elim (Bool-cases (e == ecu)) [
  | inl t ↦ rw t (omega arith)
  | inr f ↦ rw f (omega (arith, total_in-insert ecu d es))
]

-- What the search for the busiest ECU finds: it is a known one with more records than the best so
-- far, or no ECU has more than that.
abbrev AllWithin : ℕ → Ecus → Type 0
AllWithin count [] = Unit
AllWithin count ((ecu, d) ∷ es) = (length d.dtcs ≤ count) × AllWithin count es

AllWithin-zero : (es : Ecus) → AllWithin 0 es → total_in es ≡ 0
unfolding total_in
AllWithin-zero [] h = refl
AllWithin-zero ((e, d) ∷ es) h = omega (arith, AllWithin-zero es h.1)

abbrev Found : ℕ → ℕ → Ecus → Type 0
Found b count es = (d : EcuData) × (lookup b es ≡ some d) × (count < length d.dtcs)

Found-later :
    (b count low e : ℕ) (d : EcuData) (es : Ecus)
    → lookup e es ≡ none
    → low ≤ count
    → Found b count es
    → Found b low ((e, d) ∷ es)
unfolding lookup
Found-later b count low e d es k l (c, f, n) = elim (Bool-cases (e == b)) [
  | inl t ↦
      let gone : lookup b es ≡ none = subst (λ i. lookup i es ≡ none) ((==_iff e b).0 t) k in cc
  | inr t ↦ (c, rw t f, omega arith)
]

busiest_more :
    (best count e : ℕ) (d : EcuData) (es : Ecus)
    → count < length d.dtcs
    → busiest best count ((e, d) ∷ es) ≡ busiest e (length d.dtcs) es
unfolding busiest
busiest_more best count e d es h = rw (busiest, lt→ltb count (length d.dtcs) h) refl

busiest_few :
    (best count e : ℕ) (d : EcuData) (es : Ecus)
    → length d.dtcs ≤ count
    → busiest best count ((e, d) ∷ es) ≡ busiest best count es
unfolding busiest
busiest_few best count e d es h = rw (busiest, le→ltb count (length d.dtcs) h) refl

abbrev Outcome : ℕ → ℕ → ℕ → Ecus → Type 0
Outcome b best count es = ((b ≡ best) × AllWithin count es) ⊎ Found b count es

busiest_lem :
    (best count : ℕ) (es : Ecus) → IsKeyed es → Outcome (busiest best count es) best count es
unfolding busiest lookup
busiest_lem best count [] k = inl (refl, tt)
busiest_lem best count ((e, d) ∷ es) k = elim (dec_lt count (length d.dtcs)) [
  | yes more ↦
      let n = length d.dtcs in
      let head : lookup e ((e, d) ∷ es) ≡ some d = ground arith in
      let tail : Outcome (busiest e n es) best count ((e, d) ∷ es) = elim (busiest_lem e n es k.1) [
        | inl (q, all) ↦ inr (d, subst (λ b. lookup b ((e, d) ∷ es) ≡ some d) (sym q) head, more)
        | inr f ↦ inr (Found-later (busiest e n es) n count e d es k.0 (omega arith) f)
      ] in
      subst (λ b. Outcome b best count ((e, d) ∷ es)) (sym (busiest_more best count e d es more))
        tail
  | no few ↦
      let tail : Outcome (busiest best count es) best count ((e, d) ∷ es) =
        elim (busiest_lem best count es k.1) [
          | inl (q, all) ↦ inl (q, (omega arith, all))
          | inr f ↦ inr (Found-later (busiest best count es) count count e d es k.0 (omega arith) f)
        ] in
      subst (λ b. Outcome b best count ((e, d) ∷ es))
        (sym (busiest_few best count e d es (omega arith))) tail
]

-- One round of the second loop makes the total smaller while anything is left, if no ECU has the
-- address 0.
pub record IsReady (es : Ecus) : Type 0 where
  pub keyed : IsKeyed es
  pub no_zero : lookup 0 es ≡ none

length_pos : (m : Dtcs) → 0 < length m → is_empty m ≡ false
length_pos [] h = elim h [ ]
length_pos (e ∷ m) h = refl

abbrev pub Shrinks : Ecus → Ecus → Type 0
Shrinks es es1 = (e : ℕ) → length (data_of e es1).dtcs ≤ length (data_of e es).dtcs

pub record IsRound (es es1 : Ecus) : Type 0 where
  pub ready : IsReady es1
  pub fewer : total_in es1 < total_in es
  pub shrinks : Shrinks es es1

erased_shorter : (m : Dtcs) → 0 < length m → length (erase_oldest m) < length m
erased_shorter [] h = elim h [ ]
erased_shorter (e ∷ m) h = elim (erase_oldest-length (e ∷ m)) [ inl n ↦ cc | inr l ↦ l ]

insert-Shrinks :
    (es : Ecus) (b : ℕ) (d : EcuData)
    → lookup b es ≡ some d
    → Shrinks es (insert b (record d { dtcs = erase_oldest d.dtcs }) es)
insert-Shrinks es b d f e =
    rw (data_of, lookup-insert)
      (elim (Bool-cases (b == e)) [
        | inl t ↦
            let same : lookup e es ≡ some d =
              subst (λ i. lookup i es ≡ some d) ((==_iff b e).0 t) f in
            rw (t, same) (erase_oldest-le d.dtcs)
        | inr t ↦ rw t (omega arith)
      ])

erase_at-IsRound :
    (es : Ecus) (b : ℕ) (d : EcuData)
    → IsReady es
    → b ≢ 0
    → lookup b es ≡ some d
    → 0 < length d.dtcs
    → IsRound es (insert b (record d { dtcs = erase_oldest d.dtcs }) es)
erase_at-IsRound es b d r nz f n =
    let d1 = record d { dtcs = erase_oldest d.dtcs } in
    record {
      ready = record {
        keyed = insert-IsKeyed b d1 es r.keyed;
        no_zero = rw (lookup-insert, ne→== b 0 nz) r.no_zero;
      };
      fewer =
          let gone : length d1.dtcs < length d.dtcs = erased_shorter d.dtcs n in
          let at : length (data_of b es).dtcs ≡ length d.dtcs = rw (data_of, f) refl in
          omega (arith, total_in-insert b d1 es);
      shrinks = insert-Shrinks es b d f;
    }

pub limit_round_lem :
    (es : Ecus)
    → IsReady es
    → ((limit_round es ≡ none) × (total_in es ≡ 0))
      ⊎ ((es1 : Ecus) × (limit_round es ≡ some es1) × IsRound es es1)
unfolding limit_round
limit_round_lem es r = elim (busiest_lem 0 0 es r.keyed) [
  | inl (q, all) ↦ inl (rw q refl, AllWithin-zero es all)
  | inr (d, f, pos) ↦
      let b = busiest 0 0 es in
      let nz : busiest 0 0 es ≢ 0 = λ q.
        let at : lookup 0 es ≡ some d = subst (λ i. lookup i es ≡ some d) q f in
        let no = r.no_zero in cc in
      inr (
        insert b (record d { dtcs = erase_oldest d.dtcs }) es,
        rw (f, ne→== (busiest 0 0 es) 0 nz, length_pos d.dtcs pos) refl,
        erase_at-IsRound es b d r nz f pos,
      )
]
