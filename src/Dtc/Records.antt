-- ===== src/Dtc/Records.antt =====
-- What a code that is added does to the records.
use wadjet_link.Prelude.{
  ℕ, ◌+◌, ◌%◌, ◌^◌, ◌≤◌, ◌<◌, ◌≡◌, refl, [], ◌∷◌, Bool, true, false, not, ◌&&◌, none, some, ◌==◌,
  if◌then◌else◌, length, arith, inl, inr, Bool-cases, Option-cases, ==_iff, ap, subst, ◌∙◌,
}
use wadjet_link.Prelude.Assoc.{nat_eq, insert, lookup-insert}
use wadjet_link.Dtc.Types.{Dtc, to_value, DtcStatusMask, no_status, DtcRecord}
use wadjet_link.Dtc.{
  DtcManager, Dtcs, EcuData, Ecus, data_of, get_in, put_dtc, new_record, create_dtc,
  get_or_create_dtc, emit_event, total_in,
}
use wadjet_link.Dtc.Busiest.{total_in-insert}
use wadjet_link.Dtc.Limits.{enforce_limits-same}
use wadjet_link.Dtc.Updates.{add_dtc, with_status, status_changed}

module _ (ecu key : ℕ) (r : DtcRecord) (es : Ecus) where
  pub get_in-put :
      (e k : ℕ)
      → get_in e k (put_dtc ecu key r es)
        ≡ (if ecu == e then (if key == k then some r else get_in ecu k es) else get_in e k es)
  get_in-put e k = elim (Bool-cases (ecu == e)) [
    | inl t ↦ rw (get_in, data_of, lookup-insert, t) (lookup-insert key k r (data_of ecu es).dtcs)
    | inr t ↦ rw (get_in, data_of, lookup-insert, t) refl
  ]

-- The record of `(ecu, key)` is `r`, and every other one is as before.
abbrev pub IsOnly : ℕ → ℕ → DtcRecord → Ecus → Ecus → Type 0
IsOnly ecu key r es es1 =
    (e k : ℕ) → get_in e k es1 ≡ (if (ecu == e) && (key == k) then some r else get_in e k es)

put-IsOnly : (ecu key : ℕ) (r : DtcRecord) (es : Ecus) → IsOnly ecu key r es (put_dtc ecu key r es)
put-IsOnly ecu key r es e k = get_in-put ecu key r es e k ∙ (elim (Bool-cases (ecu == e)) [
  | inl t ↦
      let same : get_in ecu k es ≡ get_in e k es = ap (λ i. get_in i k es) ((==_iff ecu e).0 t) in
      elim (Bool-cases (key == k)) [ inl u ↦ rw (t, u) refl | inr u ↦ rw (t, u) same ]
  | inr t ↦ rw t refl
])

IsOnly-put :
    (ecu key : ℕ) (r s : DtcRecord) (es es1 : Ecus)
    → IsOnly ecu key r es es1
    → IsOnly ecu key s es (put_dtc ecu key s es1)
IsOnly-put ecu key r s es es1 h e k =
    put-IsOnly ecu key s es1 e k ∙ (elim (Bool-cases ((ecu == e) && (key == k))) [
      | inl t ↦ rw t refl
      | inr t ↦ rw t (h e k ∙ (rw t refl))
    ])

get_in-same :
    (ecu e k : ℕ) (es : Ecus) → get_in e k (insert ecu (data_of ecu es) es) ≡ get_in e k es
get_in-same ecu e k es = elim (Bool-cases (ecu == e)) [
  | inl t ↦
      rw (get_in, data_of, lookup-insert, t)
        (ap (λ i. get_in i k es) {x = ecu} {y = e} ((==_iff ecu e).0 t))
  | inr t ↦ rw (get_in, data_of, lookup-insert, t) refl
]

IsOnly-same :
    (ecu key : ℕ) (r : DtcRecord) (es es1 : Ecus)
    → IsOnly ecu key r es es1
    → IsOnly ecu key r es (insert ecu (data_of ecu es1) es1)
IsOnly-same ecu key r es es1 h e k = get_in-same ecu e k es1 ∙ h e k

IsOnly-at :
    (ecu key : ℕ) (r : DtcRecord) (es es1 : Ecus)
    → IsOnly ecu key r es es1
    → get_in ecu key es1 ≡ some r
IsOnly-at ecu key r es es1 h = h ecu key ∙ ground arith

IsOnly-refl :
    (ecu key : ℕ) (r : DtcRecord) (es : Ecus) → get_in ecu key es ≡ some r → IsOnly ecu key r es es
IsOnly-refl ecu key r es f e k = elim (Bool-cases ((ecu == e) && (key == k))) [
  | inl t ↦
      let same_ecu : ecu ≡ e = ground arith in
      let same_key : key ≡ k = ground arith in
      rw t (
        subst (λ i. get_in i k es ≡ some r) same_ecu
          (subst (λ i. get_in ecu i es ≡ some r) same_key f))
  | inr t ↦ rw t refl
]

pub length-insert : (key : ℕ) (r : DtcRecord) (m : Dtcs) → length (insert key r m) ≤ length m + 1
unfolding insert
length-insert key r [] = omega arith
length-insert key r ((j, s) ∷ m) = ground (arith, length-insert key r m)

not-not : (b : Bool) → not (not b) ≡ b
not-not true = refl
not-not false = refl

-- There is room for one more record.
pub record HasRoom (ecu : ℕ) (m : DtcManager) : Type 0 where
  pub here : length (data_of ecu m.ecu_data).dtcs < m.options.max_dtcs_per_ecu
  pub everywhere : total_in m.ecu_data < m.options.max_total_dtcs

module _ (now ecu : ℕ) (dtc : Dtc) (m : DtcManager) where
  create_dtc_lem :
      HasRoom ecu m
      → ((create_dtc now ecu dtc m).0 ≡ new_record now ecu dtc)
        × IsOnly ecu
            (to_value dtc)
            (new_record now ecu dtc)
            m.ecu_data
            (create_dtc now ecu dtc m).1.ecu_data
  unfolding create_dtc
  create_dtc_lem room =
      let key = to_value dtc in
      let r = new_record now ecu dtc in
      let d = data_of ecu m.ecu_data in
      let d1 : EcuData = record d { dtcs = insert key r d.dtcs } in
      let added = put_dtc ecu key r m.ecu_data in
      let at : data_of ecu added ≡ d1 = ground (arith, lookup-insert ecu ecu d1 m.ecu_data) in
      let here : length (data_of ecu added).dtcs ≤ m.options.max_dtcs_per_ecu =
        rw at (omega (arith, length-insert key r d.dtcs, room.here)) in
      let all : total_in added ≤ m.options.max_total_dtcs =
        omega
          (arith, total_in-insert ecu d1 m.ecu_data, length-insert key r d.dtcs, room.everywhere) in
      let only = IsOnly-same ecu key r m.ecu_data added (put-IsOnly ecu key r m.ecu_data) in
      rw (enforce_limits-same m.options ecu added here all, IsOnly-at ecu key r m.ecu_data _ only)
        (refl, IsOnly-put ecu key r r m.ecu_data _ only)

  -- The record of a code that was never seen.
  abbrev pub fresh_record : DtcRecord
  fresh_record = record {
    dtc = dtc;
    status = no_status;
    ecu_address = ecu;
    first_seen = now;
    last_updated = now;
    occurrence_count = 1;
    severity = none;
    functional_unit = none;
    extended_data = [];
    snapshots = [];
  }

  -- The record that a code has, or its new one.
  abbrev pub record_now : DtcRecord
  record_now = elim (get_in ecu (to_value dtc) m.ecu_data) [ none ↦ fresh_record | some r ↦ r ]

  abbrev pub is_known : Bool
  is_known = elim (get_in ecu (to_value dtc) m.ecu_data) [ none ↦ false | some r ↦ true ]

  get_or_create_dtc_lem :
      HasRoom ecu m
      → ((get_or_create_dtc now ecu dtc m).0 ≡ record_now)
        × ((get_or_create_dtc now ecu dtc m).1 ≡ not is_known)
        × IsOnly ecu
            (to_value dtc)
            record_now
            m.ecu_data
            (get_or_create_dtc now ecu dtc m).2.ecu_data
  unfolding get_or_create_dtc
  get_or_create_dtc_lem room = elim (Option-cases (get_in ecu (to_value dtc) m.ecu_data)) [
    | inl n ↦
        let (e, only) = create_dtc_lem room in
        rw (get_or_create_dtc, record_now, is_known, n) (e, refl, only)
    | inr (r, f) ↦
        rw (get_or_create_dtc, record_now, is_known, f)
          (refl, refl, IsOnly-refl ecu (to_value dtc) r m.ecu_data f)
  ]

  pub add_dtc-ecu_data :
      (status : DtcStatusMask) (timestamp : ℕ)
      → (add_dtc now dtc status ecu timestamp m).ecu_data
        ≡ put_dtc ecu
            (to_value dtc)
            (with_status
              (not (get_or_create_dtc now ecu dtc m).1 && m.options.track_occurrences)
              status
              timestamp
              (get_or_create_dtc now ecu dtc m).0)
            (get_or_create_dtc now ecu dtc m).2.ecu_data
  unfolding add_dtc emit_event
  add_dtc-ecu_data status timestamp = elim (Bool-cases (get_or_create_dtc now ecu dtc m).1) [
    | inl t ↦ rw (add_dtc, t) refl
    | inr t ↦ elim (Bool-cases (status_changed (get_or_create_dtc now ecu dtc m).0.status status)) [
      | inl u ↦ rw (add_dtc, t, u) refl
      | inr u ↦ rw (add_dtc, t, u) refl
    ]
  ]

  -- The record of a code after it is added: its status and time are those given.
  abbrev pub reported : DtcStatusMask → ℕ → DtcRecord
  reported status timestamp = record {
    dtc = record_now.dtc;
    status = status;
    ecu_address = record_now.ecu_address;
    first_seen = record_now.first_seen;
    last_updated = timestamp;
    occurrence_count =
        if is_known && m.options.track_occurrences
        then (record_now.occurrence_count + 1) % 2 ^ 32
        else record_now.occurrence_count;
    severity = record_now.severity;
    functional_unit = record_now.functional_unit;
    extended_data = record_now.extended_data;
    snapshots = record_now.snapshots;
  }

  -- Where the limits leave room for one more record, a code that is added has then just one record
  -- of its ECU: its earlier one or, when it is not known, a new one first seen now, with the status
  -- and the time given and, when it was known and occurrences are tracked, with one occurrence more.
  -- The record of every other code and ECU is as before.
  pub add_dtc-IsOnly :
      (status : DtcStatusMask) (timestamp : ℕ)
      → HasRoom ecu m
      → IsOnly ecu
          (to_value dtc)
          (reported status timestamp)
          m.ecu_data
          (add_dtc now dtc status ecu timestamp m).ecu_data
  add_dtc-IsOnly status timestamp room =
      let (e, new, only) = get_or_create_dtc_lem room in
      rw (add_dtc-ecu_data status timestamp, e, new, not-not is_known)
        (IsOnly-put ecu (to_value dtc) record_now (reported status timestamp) m.ecu_data _ only)
