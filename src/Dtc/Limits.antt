-- ===== src/Dtc/Limits.antt =====
-- The two loops of `enforce_limits`: they end, and what they leave.
use wadjet_link.Prelude.{
  ℕ, zero, suc, ◌≤◌, ◌≡◌, ◌≢◌, refl, none, ◌==◌, length, arith, inl, inr, Bool-cases, ne→==, le→ltb,
  lt→ltb, dec_lt, ==_iff, subst,
}
use wadjet_link.Prelude.Assoc.{nat_eq, lookup, insert, lookup-insert}
use wadjet_link.Prelude.Keyed.{IsKeyed, insert-IsKeyed}
use wadjet_link.Dtc.{
  Options, EcuData, Ecus, Dtcs, data_of, limit_ecu, total_in, limit_total, enforce_limits,
}
use wadjet_link.Dtc.Busiest.{
  limit_ecu-le, limit_ecu_lem, total_in-insert, IsReady, Shrinks, limit_round_lem,
}

pub le_trans : {a b c : ℕ} → a ≤ b → b ≤ c → a ≤ c
le_trans p q = omega arith

record Limited (limit : ℕ) (es es1 : Ecus) : Type 0 where
  total : total_in es1 ≤ limit
  shrinks : Shrinks es es1

Limited-same : (limit : ℕ) (es : Ecus) → total_in es ≤ limit → Limited limit es es
Limited-same limit es h = record { total = h; shrinks = λ e. omega arith }

limit_total_lem :
    (n limit : ℕ) (es : Ecus)
    → IsReady es
    → total_in es ≤ n
    → Limited limit es (limit_total n limit es)
unfolding limit_total
limit_total_lem zero limit es r h = Limited-same limit es (omega arith)
limit_total_lem (suc n) limit es r h = elim (dec_lt limit (suc n)) [
  | yes over ↦ rw (lt→ltb limit (suc n) over) (elim (limit_round_lem es r) [
    | inl (stop, none_left) ↦ rw stop (Limited-same limit es (omega arith))
    | inr (es1, go, round) ↦
        let rest = limit_total_lem n limit es1 round.ready (omega (arith, round.fewer)) in
        rw go (record {
          total = rest.total;
          shrinks = λ e. le_trans (rest.shrinks e) (round.shrinks e);
        })
  ])
  | no fits ↦ rw (le→ltb limit (suc n) (omega arith)) (Limited-same limit es (omega arith))
]

-- What the enforced limits leave of the records of all ECUs.
pub record IsWithin (o : Options) (ecu : ℕ) (es es1 : Ecus) : Type 0 where
  pub per_ecu : length (data_of ecu es1).dtcs ≤ o.max_dtcs_per_ecu
  pub total : total_in es1 ≤ o.max_total_dtcs
  pub shrinks : (e : ℕ) → length (data_of e es1).dtcs ≤ length (data_of e es).dtcs

-- If no ECU has the address 0, enforcing the limits for an ECU leaves it at most the records that one
-- ECU may have and all ECUs together at most the records that the manager may have, and gives no ECU
-- more records than before.
pub enforce_limits-IsWithin :
    (o : Options) (ecu : ℕ) (es : Ecus)
    → IsKeyed es
    → lookup 0 es ≡ none
    → ecu ≢ 0
    → IsWithin o ecu es (enforce_limits o ecu es)
unfolding enforce_limits
enforce_limits-IsWithin o ecu es k z nz =
    let d = data_of ecu es in
    let few = limit_ecu (length d.dtcs) o.max_dtcs_per_ecu d.dtcs in
    let d1 : EcuData = record d { dtcs = few } in
    let es1 = insert ecu d1 es in
    let ready : IsReady es1 = record {
      keyed = insert-IsKeyed ecu d1 es k;
      no_zero = rw (lookup-insert, ne→== ecu 0 nz) z;
    } in
    let l = limit_total_lem (total_in es1) o.max_total_dtcs es1 ready (omega arith) in
    let at : data_of ecu es1 ≡ d1 = ground (arith, lookup-insert ecu ecu d1 es) in
    let short : length few ≤ o.max_dtcs_per_ecu =
      limit_ecu_lem (length d.dtcs) o.max_dtcs_per_ecu d.dtcs (omega arith) in
    record {
      per_ecu = le_trans (l.shrinks ecu) (rw at short);
      total = l.total;
      shrinks = λ e. le_trans (l.shrinks e) (
          rw (data_of, lookup-insert)
            (elim (Bool-cases (ecu == e)) [
              | inl t ↦
                  let same = (==_iff ecu e).0 t in
                  rw t (
                    subst (λ i. length few ≤ length (data_of i es).dtcs) same
                      (limit_ecu-le (length d.dtcs) o.max_dtcs_per_ecu d.dtcs))
              | inr t ↦ rw t (omega arith)
            ]));
    }

limit_ecu-same : (n limit : ℕ) (m : Dtcs) → length m ≤ limit → limit_ecu n limit m ≡ m
unfolding limit_ecu
limit_ecu-same zero limit m h = refl
limit_ecu-same (suc n) limit m h = rw (le→ltb limit (length m) h) refl

limit_total-same : (n limit : ℕ) (es : Ecus) → n ≤ limit → limit_total n limit es ≡ es
unfolding limit_total
limit_total-same zero limit es h = refl
limit_total-same (suc n) limit es h = rw (le→ltb limit (suc n) h) refl

-- Limits that are not exceeded remove nothing.
pub enforce_limits-same :
    (o : Options) (ecu : ℕ) (es : Ecus)
    → length (data_of ecu es).dtcs ≤ o.max_dtcs_per_ecu
    → total_in es ≤ o.max_total_dtcs
    → enforce_limits o ecu es ≡ insert ecu (data_of ecu es) es
unfolding enforce_limits
enforce_limits-same o ecu es h t =
    let d = data_of ecu es in
    let n : total_in (insert ecu d es) ≤ o.max_total_dtcs =
      omega (arith, total_in-insert ecu d es) in
    rw
      (
        limit_ecu-same (length d.dtcs) o.max_dtcs_per_ecu d.dtcs h,
        limit_total-same (total_in (insert ecu d es)) o.max_total_dtcs (insert ecu d es) n,
      )
      refl
