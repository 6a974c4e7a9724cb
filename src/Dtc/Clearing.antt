-- ===== src/Dtc/Clearing.antt =====
-- What a positive response to the clearing of codes does.
use wadjet_link.Prelude.{
  ℕ, suc, ◌+◌, ◌-◌, ◌^◌, ◌<◌, ◌≡◌, ◌≢◌, ◌∙◌, refl, sym, ap, List, [], ◌∷◌, ◌++◌, true, none, some,
  ltb, ◌==◌, if◌then◌else◌, length, drop, arith, inl, inr, Bool-cases, ne→==, length-append,
  length-drop, append_assoc, drop-drop, drop_left, drop_nil, dec_lt, lt→ltb, le→ltb,
}
use wadjet_link.Prelude.Assoc.{nat_eq, lookup, insert, erase, lookup-insert, lookup-erase}
use wadjet_link.Dtc.Types.{from_value, to_value, DtcRecord}
use wadjet_link.Dtc.{DtcManager, Dtcs, EcuData, data_of, emit_event, get_in}
use wadjet_link.Dtc.Updates.{trim, move_to_history, clear_one_of, process_clear_dtc_response}

-- The last `n` of a list, all of them if it has fewer.
abbrev pub last_of {ℓ} : {A : Type ℓ} → ℕ → List A → List A
last_of n xs = drop (length xs - n) xs

trim_lem : (limit : ℕ) (h : List DtcRecord) → trim limit h ≡ last_of limit h
unfolding trim
trim_lem limit [] = sym (drop_nil (0 - limit))
trim_lem limit (r ∷ h) = elim (dec_lt limit (length (r ∷ h))) [
  | yes long ↦ rw (lt→ltb limit (length (r ∷ h)) long) (
      trim_lem limit h
      ∙ ap (λ n. drop n (r ∷ h)) {x = suc (length h - limit)} {y = length (r ∷ h) - limit}
          (omega arith))
  | no short ↦
      rw (le→ltb limit (length (r ∷ h)) (omega arith))
        (ap (λ n. drop n (r ∷ h)) {x = 0} {y = length (r ∷ h) - limit} (omega arith))
]

last_of_twice {ℓ} :
    {A : Type ℓ} (limit : ℕ) (a b : List A)
    → last_of limit (last_of limit a ++ b) ≡ last_of limit (a ++ b)
last_of_twice limit a b =
    let n = length a - limit in
    let k = length (drop n a ++ b) - limit in
    ap (drop k) (sym (drop_left n a b (omega arith)))
    ∙ drop-drop n k (a ++ b)
    ∙ ap (λ i. drop i (a ++ b)) {x = n + k} {y = length (a ++ b) - limit}
        (omega (arith, length-append a b, length-append (drop n a) b, length-drop n a))

abbrev pub records_of : Dtcs → List DtcRecord
records_of [] = []
records_of ((key, r) ∷ m) = r ∷ records_of m

move_to_history_lem :
    (limit : ℕ) (key : ℕ) (r : DtcRecord) (m : Dtcs) (h : List DtcRecord)
    → move_to_history limit ((key, r) ∷ m) h ≡ last_of limit (h ++ r ∷ records_of m)
unfolding move_to_history
move_to_history_lem limit key r [] h = trim_lem limit (h ++ r ∷ [])
move_to_history_lem limit key r ((k, s) ∷ m) h =
    move_to_history_lem limit k s m (trim limit (h ++ r ∷ []))
    ∙ ap (λ a. last_of limit (a ++ s ∷ records_of m)) (trim_lem limit (h ++ r ∷ []))
    ∙ last_of_twice limit (h ++ r ∷ []) (s ∷ records_of m)
    ∙ ap (last_of limit) (append_assoc h (r ∷ []) (s ∷ records_of m))

-- What the history keeps when all codes are cleared.
abbrev pub kept_history : ℕ → Dtcs → List DtcRecord → List DtcRecord
kept_history limit [] history = history
kept_history limit (e ∷ m) history = last_of limit (history ++ records_of (e ∷ m))

move_to_history-kept :
    (limit : ℕ) (m : Dtcs) (h : List DtcRecord) → move_to_history limit m h ≡ kept_history limit m h
unfolding move_to_history
move_to_history-kept limit [] h = refl
move_to_history-kept limit ((k, r) ∷ m) h = move_to_history_lem limit k r m h

module _ (ecu timestamp : ℕ) (m : DtcManager) where
  -- The state of one ECU that the operation leaves, with the others as before.
  pub record IsChanged (d : EcuData) (m1 : DtcManager) : Type 0 where
    pub at : (e : ℕ) → lookup e m1.ecu_data ≡ (if ecu == e then some d else lookup e m.ecu_data)

  insert_twice-at :
      (d c : EcuData) (m1 : DtcManager) (e : ℕ)
      → m1.ecu_data ≡ insert ecu d (insert ecu c m.ecu_data)
      → lookup e m1.ecu_data ≡ (if ecu == e then some d else lookup e m.ecu_data)
  insert_twice-at d c m1 e s = elim (Bool-cases (ecu == e)) [
    | inl t ↦ rw (s, lookup-insert, t) refl
    | inr t ↦ rw (s, lookup-insert, t, lookup-insert, t) refl
  ]

  insert_twice-IsChanged :
      (d c : EcuData) (m1 : DtcManager)
      → m1.ecu_data ≡ insert ecu d (insert ecu c m.ecu_data)
      → IsChanged d m1
  insert_twice-IsChanged d c m1 s = record { at = λ e. insert_twice-at d c m1 e s }

  abbrev pub all_cleared : EcuData
  all_cleared =
      let d = data_of ecu m.ecu_data in
      record d {
        dtcs = [];
        cleared_history =
            if m.options.keep_cleared_history
            then kept_history m.options.max_cleared_history d.dtcs d.cleared_history
            else d.cleared_history;
        last_clear = timestamp;
      }

  clear_all-ecu_data :
      (process_clear_dtc_response 0xFFFFFF ecu true timestamp m).ecu_data
      ≡ insert ecu all_cleared
          (insert ecu (record (data_of ecu m.ecu_data) { last_clear = timestamp }) m.ecu_data)
  unfolding process_clear_dtc_response emit_event
  clear_all-ecu_data =
      let d = data_of ecu m.ecu_data in
      rw (sym (move_to_history-kept m.options.max_cleared_history d.dtcs d.cleared_history))
        (elim (Bool-cases (ltb 0 (length d.dtcs))) [
          | inl t ↦ rw (process_clear_dtc_response, t) refl
          | inr t ↦ rw (process_clear_dtc_response, t) refl
        ])

  -- The clearing of all codes that an ECU confirms leaves it no record and moves its records, in the
  -- order of the map, to the end of its history, of which then the last `max_cleared_history` stay;
  -- without records, or without a history to keep, the history stays. The other ECUs are as before.
  pub process_clear_dtc_response_all :
      IsChanged all_cleared (process_clear_dtc_response 0xFFFFFF ecu true timestamp m)
  process_clear_dtc_response_all =
      insert_twice-IsChanged all_cleared _
        (process_clear_dtc_response 0xFFFFFF ecu true timestamp m) clear_all-ecu_data

  abbrev pub one_cleared : ℕ → DtcRecord → EcuData
  one_cleared key r =
      let d = data_of ecu m.ecu_data in
      record d {
        dtcs = erase key d.dtcs;
        cleared_history =
            if m.options.keep_cleared_history
            then d.cleared_history ++ r ∷ []
            else d.cleared_history;
        last_clear = timestamp;
      }

  clear_one-ecu_data :
      (group : ℕ) (r : DtcRecord)
      → group ≢ 0xFFFFFF
      → get_in ecu (to_value (from_value group)) m.ecu_data ≡ some r
      → (process_clear_dtc_response group ecu true timestamp m).ecu_data
        ≡ insert ecu
            (one_cleared (to_value (from_value group)) r)
            (insert ecu (record (data_of ecu m.ecu_data) { last_clear = timestamp }) m.ecu_data)
  unfolding process_clear_dtc_response emit_event
  clear_one-ecu_data group r n f =
      rw (process_clear_dtc_response, ne→== group 0xFFFFFF n, clear_one_of, f) refl

  -- The code of a 24-bit group is the group itself.
  to_value-from_value : (group : ℕ) → group < 2 ^ 24 → to_value (from_value group) ≡ group
  unfolding to_value from_value
  to_value-from_value group h = omega arith

  -- The clearing of one known code, a group other than 0xFFFFFF, removes just the record of this code
  -- from its ECU and, where the history is kept, adds it to the history, which grows by one whatever
  -- `max_cleared_history` is. The other ECUs are as before.
  pub process_clear_dtc_response_one :
      (group : ℕ) (r : DtcRecord)
      → group < 0xFFFFFF
      → get_in ecu group m.ecu_data ≡ some r
      → IsChanged (one_cleared group r) (process_clear_dtc_response group ecu true timestamp m)
        × ((key : ℕ)
            → lookup key (one_cleared group r).dtcs
              ≡ (if group == key then none else get_in ecu key m.ecu_data))
        × (length (one_cleared group r).cleared_history
            ≡ length (data_of ecu m.ecu_data).cleared_history
              + (if m.options.keep_cleared_history then 1 else 0))
  process_clear_dtc_response_one group r n f =
      let code = to_value-from_value group (omega arith) in
      let found : get_in ecu (to_value (from_value group)) m.ecu_data ≡ some r = rw code f in
      let at = clear_one-ecu_data group r (omega arith) found in
      (
        insert_twice-IsChanged (one_cleared group r) _
            (process_clear_dtc_response group ecu true timestamp m) (rw code at at),
        λ key. lookup-erase group key (data_of ecu m.ecu_data).dtcs,
        ground (arith, length-append (data_of ecu m.ecu_data).cleared_history (r ∷ [])),
      )
