-- ===== src/Dtc/Maps.antt =====
-- The maps of the manager: every key stands once, and no ECU has more than one record above its limit.
use wadjet_link.Prelude.{
  ℕ, zero, suc, ◌+◌, ◌≡◌, ◌≤◌, refl, ap, [], ◌∷◌, Option, none, some, ltb, ◌==◌, length, arith, inl,
  inr, Bool-cases, Option-cases, subst, ==_iff,
}
use wadjet_link.Prelude.Assoc.{
  nat_eq, lookup, insert, Values, lookup-Values, insert-Values, lookup-insert,
}
use wadjet_link.Prelude.Keyed.{IsKeyed, insert-IsKeyed, erase-IsKeyed}
use wadjet_link.Dtc.Types.{DtcRecord}
use wadjet_link.Dtc.{
  Options, EcuData, Ecus, Dtcs, data_of, get_in, put_dtc, erase_oldest, limit_ecu, limit_round,
  limit_total, enforce_limits, total_in, busiest, is_empty,
}
use wadjet_link.Dtc.Busiest.{Shrinks, erase_oldest-le, limit_ecu_lem}
use wadjet_link.Dtc.Limits.{le_trans}
use wadjet_link.Dtc.Records.{length-insert}

module _ (limit : ℕ) where
  abbrev pub IsTable : EcuData → Type 0
  IsTable d = IsKeyed d.dtcs × (length d.dtcs ≤ limit + 1)

  -- Every ECU has one entry, and every code of it one record, of which there are at most one more
  -- than the limit.
  pub record IsMap (es : Ecus) : Type 0 where
    pub ecus : IsKeyed es
    pub tables : Values IsTable es

  pub data_of-IsTable : (ecu : ℕ) (es : Ecus) → IsMap es → IsTable (data_of ecu es)
  data_of-IsTable ecu es h = elim (Option-cases (lookup ecu es)) [
    | inl n ↦ rw (data_of, n) (tt, omega arith)
    | inr (d, f) ↦ rw (data_of, f) (lookup-Values IsTable ecu es h.tables f)
  ]

  pub insert-IsMap :
      (ecu : ℕ) (d : EcuData) (es : Ecus) → IsTable d → IsMap es → IsMap (insert ecu d es)
  insert-IsMap ecu d es t h = record {
    ecus = insert-IsKeyed ecu d es h.ecus;
    tables = insert-Values IsTable ecu d es t h.tables;
  }

erase_oldest-IsKeyed : (m : Dtcs) → IsKeyed m → IsKeyed (erase_oldest m)
unfolding erase_oldest
erase_oldest-IsKeyed [] h = tt
erase_oldest-IsKeyed (e ∷ m) h = erase-IsKeyed _ (e ∷ m) h

limit_ecu-IsKeyed : (n limit : ℕ) (m : Dtcs) → IsKeyed m → IsKeyed (limit_ecu n limit m)
unfolding limit_ecu
limit_ecu-IsKeyed zero limit m h = h
limit_ecu-IsKeyed (suc n) limit m h = elim (Bool-cases (ltb limit (length m))) [
  | inl t ↦ rw t (limit_ecu-IsKeyed n limit (erase_oldest m) (erase_oldest-IsKeyed m h))
  | inr t ↦ rw t h
]

insert-insert :
    (ecu : ℕ) (c d : EcuData) (es : Ecus) → insert ecu d (insert ecu c es) ≡ insert ecu d es
unfolding insert
insert-insert ecu c d [] = ground arith
insert-insert ecu c d ((e, b) ∷ es) = elim (Bool-cases (e == ecu)) [
  | inl t ↦ rw (t, t) refl
  | inr t ↦ rw (t, t) (ap (λ m. (e, b) ∷ m) (insert-insert ecu c d es))
]

insert-Shorter :
    (ecu : ℕ) (d : EcuData) (es : Ecus)
    → length d.dtcs ≤ length (data_of ecu es).dtcs
    → Shrinks es (insert ecu d es)
insert-Shorter ecu d es h e = elim (Bool-cases (ecu == e)) [
  | inl t ↦
      let same : length d.dtcs ≤ length (data_of e es).dtcs =
        subst (λ i. length d.dtcs ≤ length (data_of i es).dtcs) ((==_iff ecu e).0 t) h in
      rw (data_of, lookup-insert, t) same
  | inr t ↦ rw (data_of, lookup-insert, t) (omega arith)
]

record Kept (limit : ℕ) (es es1 : Ecus) : Type 0 where
  map : IsMap limit es1
  fewer : Shrinks es es1

limit_round-Kept :
    (limit : ℕ) (es es1 : Ecus) → IsMap limit es → limit_round es ≡ some es1 → Kept limit es es1
unfolding limit_round
limit_round-Kept limit es es1 h e =
    let b = busiest 0 0 es in
    let d = data_of b es in
    let t = data_of-IsTable limit b es h in
    elim (Bool-cases (b == 0)) [
      | inl z ↦ let bad : ◌≡◌ {A = Option Ecus} none (some es1) = rw (limit_round, z) at e in cc
      | inr z ↦ elim (Bool-cases (is_empty d.dtcs)) [
        | inl u ↦
            let bad : ◌≡◌ {A = Option Ecus} none (some es1) = rw (limit_round, z, u) at e in cc
        | inr u ↦
            let d1 : EcuData = record d { dtcs = erase_oldest d.dtcs } in
            let go : some (insert b d1 es) ≡ some es1 = rw (limit_round, z, u) at e in
            let same : insert b d1 es ≡ es1 = cc go in
            subst (Kept limit es) same (record {
              map =
                  insert-IsMap limit b d1 es
                    (erase_oldest-IsKeyed d.dtcs t.0, omega (arith, erase_oldest-le d.dtcs)) h;
              fewer = insert-Shorter b d1 es (erase_oldest-le d.dtcs);
            })
      ]
    ]

limit_total-Kept :
    (n limit total : ℕ) (es : Ecus) → IsMap limit es → Kept limit es (limit_total n total es)
unfolding limit_total
limit_total-Kept zero limit total es h = record { map = h; fewer = λ e. omega arith }
limit_total-Kept (suc n) limit total es h = elim (Bool-cases (ltb total (suc n))) [
  | inl t ↦ elim (Option-cases (limit_round es)) [
    | inl r ↦ rw (t, r) (record { map = h; fewer = λ e. omega arith })
    | inr (es1, r) ↦
        let k = limit_round-Kept limit es es1 h r in
        let rest = limit_total-Kept n limit total es1 k.map in
        rw (t, r) (record { map = rest.map; fewer = λ e. le_trans (rest.fewer e) (k.fewer e) })
  ]
  | inr t ↦ rw t (record { map = h; fewer = λ e. omega arith })
]

length-insert_known :
    (key : ℕ) (r s : DtcRecord) (m : Dtcs)
    → lookup key m ≡ some r
    → length (insert key s m) ≡ length m
unfolding lookup insert
length-insert_known key r s [] h = cc
length-insert_known key r s ((j, v) ∷ m) h = elim (Bool-cases (j == key)) [
  | inl t ↦ rw t refl
  | inr t ↦ rw t (ap suc (length-insert_known key r s m (rw t at h)))
]

module _ (limit ecu key : ℕ) (es : Ecus) (h : IsMap limit es) where
  -- Writing the record of a known code.
  pub put_known-IsMap :
      (r s : DtcRecord) → get_in ecu key es ≡ some r → IsMap limit (put_dtc ecu key s es)
  put_known-IsMap r s f =
      let t = data_of-IsTable limit ecu es h in
      insert-IsMap limit ecu _ es
        (
          insert-IsKeyed key s (data_of ecu es).dtcs t.0,
          omega (arith, length-insert_known key r s (data_of ecu es).dtcs f),
        )
        h

  -- Adding a record, with the limits enforced and the record looked up again.
  pub put_new-IsMap :
      (o : Options) (r s : DtcRecord)
      → o.max_dtcs_per_ecu ≡ limit
      → IsMap limit (put_dtc ecu key s (enforce_limits o ecu (put_dtc ecu key r es)))
  unfolding enforce_limits
  put_new-IsMap o r s q =
      let d = data_of ecu es in
      let t = data_of-IsTable limit ecu es h in
      let d0 : EcuData = record d { dtcs = insert key r d.dtcs } in
      let few = limit_ecu (length d0.dtcs) o.max_dtcs_per_ecu d0.dtcs in
      let d1 : EcuData = record d0 { dtcs = few } in
      let short : length few ≤ limit =
        omega (arith, limit_ecu_lem (length d0.dtcs) o.max_dtcs_per_ecu d0.dtcs (omega arith)) in
      let table : IsTable limit d1 = (
        limit_ecu-IsKeyed (length d0.dtcs) o.max_dtcs_per_ecu d0.dtcs
            (insert-IsKeyed key r d.dtcs t.0),
        omega arith,
      ) in
      let m1 = insert-IsMap limit ecu d1 es table h in
      let es1 = insert ecu d1 es in
      let final = limit_total (total_in es1) o.max_total_dtcs es1 in
      let k = limit_total-Kept (total_in es1) limit o.max_total_dtcs es1 m1 in
      let at : data_of ecu (insert ecu d0 es) ≡ d0 = ground (arith, lookup-insert ecu ecu d0 es) in
      let at1 : data_of ecu es1 ≡ d1 = ground (arith, lookup-insert ecu ecu d1 es) in
      let kept : length (data_of ecu final).dtcs ≤ limit = le_trans (k.fewer ecu) (rw at1 short) in
      let t1 = data_of-IsTable limit ecu final k.map in
      let enforced : enforce_limits o ecu (insert ecu d0 es) ≡ final =
        rw (at, insert-insert ecu d0 d1 es) refl in
      rw enforced (
        insert-IsMap limit ecu _ final
          (
            insert-IsKeyed key s (data_of ecu final).dtcs t1.0,
            omega (arith, length-insert key s (data_of ecu final).dtcs),
          )
          k.map)
