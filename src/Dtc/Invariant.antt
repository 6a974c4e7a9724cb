-- ===== src/Dtc/Invariant.antt =====
-- What every operation of the manager keeps.
use wadjet_link.Prelude.{
  ℕ, suc, ◌+◌, ◌≡◌, ◌%◌, ◌^◌, refl, ap, List, [], ◌∷◌, Bool, true, false, Option, none, some, ltb,
  ◌==◌, length, arith, inl, inr, Bool-cases, Option-cases, subst, ◌⊎◌, ◌∙◌,
}
use wadjet_link.Prelude.Assoc.{nat_eq, lookup, insert, Values}
use wadjet_link.Prelude.Keyed.{IsKeyed, erase-IsKeyed}
use wadjet_link.Dtc.Types.{
  Dtc, to_value, DtcStatusMask, DtcAndStatus, ReadDtcInformationResponse, DtcRecord,
}
use wadjet_link.Dtc.{
  Options, EcuData, Ecus, DtcManager, emit_event, data_of, get_in, put_dtc, create_dtc,
  get_or_create_dtc, new_record,
}
use wadjet_link.Dtc.Updates.{
  add_dtc, add_snapshot, add_extended_data, add_dtcs, add_record_data, begin_read, count_of,
  process_read_dtc_response, process_clear_dtc_response, clear_all_of, clear_one_of, clear_ecu,
  emptied, report_cleared,
}
use wadjet_link.Dtc.Busiest.{erase-length}
use wadjet_link.Dtc.Records.{get_in-put, add_dtc-ecu_data}
use wadjet_link.Dtc.Maps.{
  IsTable, IsMap, data_of-IsTable, insert-IsMap, put_known-IsMap, put_new-IsMap,
}

-- What every operation keeps: the options and the shape of the maps.
pub record IsLimited (o : Options) (m : DtcManager) : Type 0 where
  pub same : m.options ≡ o
  pub maps : IsMap o.max_dtcs_per_ecu m.ecu_data

abbrev pub AllSome : (DtcManager → Type 0) → Option DtcManager → Type 0
AllSome P none = Unit
AllSome P (some m) = P m

pub AllSome-at :
    (P : DtcManager → Type 0) (x : Option DtcManager) (m : DtcManager)
    → x ≡ some m
    → AllSome P x
    → P m
AllSome-at P x m e h = subst (AllSome P) e h

record IsGiven (o : Options) (ecu key : ℕ) (r : DtcRecord) (m : DtcManager) : Type 0 where
  sound : IsLimited o m
  found : get_in ecu key m.ecu_data ≡ some r

module _ (o : Options) (now ecu : ℕ) (dtc : Dtc) (m : DtcManager) (h : IsLimited o m) where
  create_dtc-IsGiven :
      IsGiven o ecu (to_value dtc) (create_dtc now ecu dtc m).0 (create_dtc now ecu dtc m).1
  unfolding create_dtc
  create_dtc-IsGiven = record {
    sound = record {
      same = h.same;
      maps =
          put_new-IsMap o.max_dtcs_per_ecu ecu (to_value dtc) m.ecu_data h.maps m.options
            (new_record now ecu dtc) _ (ap (λ p. p.max_dtcs_per_ecu) h.same);
    };
    found = rw (get_in-put) (ground arith);
  }

  get_or_create_dtc-IsGiven :
      IsGiven o ecu
        (to_value dtc)
        (get_or_create_dtc now ecu dtc m).0
        (get_or_create_dtc now ecu dtc m).2
  unfolding get_or_create_dtc
  get_or_create_dtc-IsGiven = elim (Option-cases (get_in ecu (to_value dtc) m.ecu_data)) [
    | inl n ↦ rw (get_or_create_dtc, n) create_dtc-IsGiven
    | inr (r, f) ↦ rw (get_or_create_dtc, f) (record { sound = h; found = f })
  ]

  -- The manager after the record that was got is written again.
  update-IsMap :
      (r : DtcRecord)
      → IsMap o.max_dtcs_per_ecu
          (put_dtc ecu (to_value dtc) r (get_or_create_dtc now ecu dtc m).2.ecu_data)
  update-IsMap r =
      let g = get_or_create_dtc-IsGiven in
      put_known-IsMap o.max_dtcs_per_ecu ecu (to_value dtc) _ g.sound.maps
        (get_or_create_dtc now ecu dtc m).0 r g.found

  add_dtc-options :
      (status : DtcStatusMask) (timestamp : ℕ)
      → (add_dtc now dtc status ecu timestamp m).options ≡ o
  unfolding add_dtc emit_event
  add_dtc-options status timestamp =
      let g = get_or_create_dtc-IsGiven in grind (arith, g.sound.same)

  pub add_dtc-IsLimited :
      (status : DtcStatusMask) (timestamp : ℕ)
      → IsLimited o (add_dtc now dtc status ecu timestamp m)
  add_dtc-IsLimited status timestamp = record {
    same = add_dtc-options status timestamp;
    maps = rw (add_dtc-ecu_data now ecu dtc m status timestamp) (update-IsMap _);
  }

  pub add_snapshot-AllSome :
      (number : ℕ) (bytes : List ℕ) (timestamp : ℕ)
      → AllSome (IsLimited o) (add_snapshot false now dtc ecu number bytes timestamp m)
  unfolding add_snapshot emit_event
  add_snapshot-AllSome number bytes timestamp =
      let g = get_or_create_dtc-IsGiven in record { same = g.sound.same; maps = update-IsMap _ }

  pub add_extended_data-AllSome :
      (bytes : List ℕ) (timestamp : ℕ)
      → AllSome (IsLimited o) (add_extended_data false now dtc ecu bytes timestamp m)
  unfolding add_extended_data emit_event
  add_extended_data-AllSome bytes timestamp =
      let g = get_or_create_dtc-IsGiven in record { same = g.sound.same; maps = update-IsMap _ }

module _ (o : Options) where
  set_data-IsLimited :
      (ecu : ℕ) (d : EcuData) (m m1 : DtcManager)
      → IsLimited o m
      → IsTable o.max_dtcs_per_ecu d
      → m1.options ≡ m.options
      → m1.ecu_data ≡ insert ecu d m.ecu_data
      → IsLimited o m1
  set_data-IsLimited ecu d m m1 h t p q = record {
    same = p ∙ h.same;
    maps = rw q (insert-IsMap o.max_dtcs_per_ecu ecu d m.ecu_data t h.maps);
  }

  add_dtcs-IsLimited :
      (clock : ℕ → ℕ) (i : ℕ) (ds : List DtcAndStatus) (ecu timestamp : ℕ) (m : DtcManager)
      → IsLimited o m
      → IsLimited o (add_dtcs clock i ds ecu timestamp m)
  unfolding add_dtcs
  add_dtcs-IsLimited clock i [] ecu timestamp m h = h
  add_dtcs-IsLimited clock i (d ∷ ds) ecu timestamp m h =
      add_dtcs-IsLimited clock (suc i) ds ecu timestamp _
        (add_dtc-IsLimited o (clock i) ecu d.dtc m h d.status timestamp)

  begin_read-IsLimited :
      (ecu timestamp : ℕ) (m : DtcManager)
      → IsLimited o m
      → IsLimited o (begin_read ecu timestamp m)
  begin_read-IsLimited ecu timestamp m h =
      set_data-IsLimited ecu _ m _ h (data_of-IsTable o.max_dtcs_per_ecu ecu m.ecu_data h.maps) refl
        refl

  add_record_data-locked :
      (now : ℕ) (resp : ReadDtcInformationResponse) (ecu timestamp : ℕ) (m : DtcManager)
      → (add_record_data true now resp ecu timestamp m ≡ none)
        ⊎ (add_record_data true now resp ecu timestamp m ≡ some m)
  unfolding add_record_data add_snapshot add_extended_data
  add_record_data-locked now resp ecu timestamp m = ground arith

  pub process_read_dtc_response-AllSome :
      (clock : ℕ → ℕ) (resp : ReadDtcInformationResponse) (ecu timestamp : ℕ) (m : DtcManager)
      → IsLimited o m
      → AllSome (IsLimited o) (process_read_dtc_response clock resp ecu timestamp m)
  unfolding process_read_dtc_response emit_event
  process_read_dtc_response-AllSome clock resp ecu timestamp m h =
      let read = add_dtcs clock 0 resp.dtc_list ecu timestamp (begin_read ecu timestamp m) in
      let s =
        add_dtcs-IsLimited clock 0 resp.dtc_list ecu timestamp _
          (begin_read-IsLimited ecu timestamp m h) in
      elim (add_record_data-locked (clock (length resp.dtc_list)) resp ecu timestamp read) [
        | inl n ↦ rw (process_read_dtc_response, n) tt
        | inr k ↦ elim (Bool-cases (count_of ecu read == count_of ecu m)) [
          | inl t ↦ rw (process_read_dtc_response, k, t) s
          | inr t ↦ rw (process_read_dtc_response, k, t) (record { same = s.same; maps = s.maps })
        ]
      ]

  -- A list of records that loses all or some.
  clear_all_of-IsLimited :
      (ecu : ℕ) (d : EcuData) (m : DtcManager) → IsLimited o m → IsLimited o (clear_all_of ecu d m)
  unfolding emit_event
  clear_all_of-IsLimited ecu d m h = elim (Bool-cases (ltb 0 (length d.dtcs))) [
    | inl t ↦ rw (clear_all_of, t) (set_data-IsLimited ecu _ m _ h (tt, omega arith) refl refl)
    | inr t ↦ rw (clear_all_of, t) (set_data-IsLimited ecu _ m _ h (tt, omega arith) refl refl)
  ]

  clear_one_of-IsLimited :
      (ecu key : ℕ) (d : EcuData) (m : DtcManager)
      → IsTable o.max_dtcs_per_ecu d
      → IsLimited o m
      → IsLimited o (clear_one_of ecu key d m)
  unfolding emit_event
  clear_one_of-IsLimited ecu key d m t h = elim (Option-cases (lookup key d.dtcs)) [
    | inl n ↦ rw (clear_one_of, n) h
    | inr (r, f) ↦
        rw (clear_one_of, f)
          (set_data-IsLimited ecu _ m _ h
            (erase-IsKeyed key d.dtcs t.0, omega (arith, erase-length key d.dtcs)) refl refl)
  ]

  pub process_clear_dtc_response-IsLimited :
      (group ecu : ℕ) (success : Bool) (timestamp : ℕ) (m : DtcManager)
      → IsLimited o m
      → IsLimited o (process_clear_dtc_response group ecu success timestamp m)
  unfolding process_clear_dtc_response
  process_clear_dtc_response-IsLimited group ecu false timestamp m h = h
  process_clear_dtc_response-IsLimited group ecu true timestamp m h =
      let t = data_of-IsTable o.max_dtcs_per_ecu ecu m.ecu_data h.maps in
      let d : EcuData = record (data_of ecu m.ecu_data) { last_clear = timestamp } in
      let m1 : DtcManager = record m {
        stats = record m.stats { clear_operations = (m.stats.clear_operations + 1) % 2 ^ 64 };
        ecu_data = insert ecu d m.ecu_data;
      } in
      let h1 : IsLimited o m1 = set_data-IsLimited ecu d m m1 h t refl refl in
      elim (Bool-cases (group == 0xFFFFFF)) [
        | inl e ↦ rw (process_clear_dtc_response, e) (clear_all_of-IsLimited ecu d m1 h1)
        | inr e ↦ rw (process_clear_dtc_response, e) (clear_one_of-IsLimited ecu _ d m1 t h1)
      ]

  pub clear_ecu-IsLimited :
      (ecu : ℕ) (m : DtcManager) → IsLimited o m → IsLimited o (clear_ecu ecu m)
  unfolding clear_ecu emit_event
  clear_ecu-IsLimited ecu m h = elim (Option-cases (lookup ecu m.ecu_data)) [
    | inl n ↦ rw (clear_ecu, n) h
    | inr (d, f) ↦ rw (clear_ecu, f) (set_data-IsLimited ecu _ m _ h (tt, omega arith) refl refl)
  ]

lookup-emptied-none : (ecu : ℕ) (es : Ecus) → lookup ecu es ≡ none → lookup ecu (emptied es) ≡ none
unfolding lookup
lookup-emptied-none ecu [] h = refl
lookup-emptied-none ecu ((e, d) ∷ es) h = elim (Bool-cases (e == ecu)) [
  | inl t ↦ let bad : ◌≡◌ {A = Option EcuData} (some d) none = rw t at h in cc
  | inr t ↦ rw t (lookup-emptied-none ecu es (rw t at h))
]

pub emptied-IsKeyed : (es : Ecus) → IsKeyed es → IsKeyed (emptied es)
emptied-IsKeyed [] h = tt
emptied-IsKeyed ((e, d) ∷ es) h = (lookup-emptied-none e es h.0, emptied-IsKeyed es h.1)

pub emptied-Values : (limit : ℕ) (es : Ecus) → Values (IsTable limit) (emptied es)
emptied-Values limit [] = tt
emptied-Values limit ((e, d) ∷ es) = ((tt, omega arith), emptied-Values limit es)

pub report_cleared-IsLimited :
    (o : Options) (es : Ecus) (m : DtcManager) → IsLimited o m → IsLimited o (report_cleared es m)
unfolding emit_event
report_cleared-IsLimited o [] m h = h
report_cleared-IsLimited o ((e, d) ∷ es) m h =
    report_cleared-IsLimited o es _ (record { same = h.same; maps = h.maps })
