-- ===== src/Uds/Session/Unlocked.antt =====
-- Which security levels are unlocked after the bytes of any message.
use wadjet_link.Prelude.{
  ℕ, ◌-◌, ◌<◌, ◌≡◌, ◌≢◌, refl, sym, subst, List, [], ◌∷◌, Bool, true, false, some, ◌==◌,
  if◌then◌else◌, inl, inr, Bool-cases, arith, ==_iff, ◌∙◌, ◌⊎◌,
}
use wadjet_link.Bytes.{IsBytes}
use wadjet_link.Decoder.Reads.{u8_at}
use wadjet_link.Uds.Types.{request, positive_response, UdsDecodeResult}
use wadjet_link.Uds.Message.{UdsResult, ok, err, decode}
use wadjet_link.Uds.Message.Safety.{Describes, direction_of, service_of}
use wadjet_link.Uds.Message.Total.{decode-Explains}
use wadjet_link.Uds.Session.{
  UdsSession, update_activity, process_decoded, process_result, process_message,
}
use wadjet_link.Uds.Session.Security.{is_unlocked}
use wadjet_link.Uds.Session.Unlocking.{grants, ends, after, act-open}
use wadjet_link.Uds.Session.Bytes.{
  message_in, message_of, grants_in, ends_in, grants_key, ends_session, ends_reset, grants_not,
  ends_not,
}

module _ (bs : List ℕ) (r : UdsDecodeResult) (fits : Describes bs (ok r)) where
  not_response :
      (k : ℕ)
      → u8_at bs 0 ≢ k
      → 64 < k
      → ¬ ((r.header.service_id ≡ k - 64) × (r.header.direction ≡ positive_response))
  not_response k n big (p, q) =
      let d : direction_of bs ≡ positive_response = sym fits.0.direction ∙ q in
      let s : service_of (direction_of bs) bs ≡ k - 64 = sym fits.0.service ∙ p in
      let t : u8_at bs 0 - 64 ≡ k - 64 = subst (λ x. service_of x bs ≡ k - 64) d s in
      n (omega arith)

  not_request :
      (k : ℕ) → u8_at bs 0 ≢ k → ¬ ((r.header.service_id ≡ k) × (r.header.direction ≡ request))
  not_request k n (p, q) =
      let d : direction_of bs ≡ request = sym fits.0.direction ∙ q in
      let s : service_of (direction_of bs) bs ≡ k = sym fits.0.service ∙ p in
      n (subst (λ x. service_of x bs ≡ k) d s)

module _ (is_request : Bool) (level : ℕ) where
  grants_other :
      (bs : List ℕ) (r : UdsResult)
      → u8_at bs 0 ≢ 0x67
      → Describes bs r
      → grants (message_in r) is_request level ≡ false
  grants_other bs (err e) n d = refl
  grants_other bs (ok r) n d =
      grants_not level r.header.service_id r.header.direction r.message is_request d.2
        (not_response bs r d 0x67 n (omega arith))

  ends_other :
      (bs : List ℕ) (r : UdsResult)
      → u8_at bs 0 ≢ 0x50
      → u8_at bs 0 ≢ 0x11
      → Describes bs r
      → ends (message_in r) is_request level ≡ false
  ends_other bs (err e) n k d = refl
  ends_other bs (ok r) n k d =
      ends_not level r.header.service_id r.header.direction r.message is_request d.2
        (not_response bs r d 0x50 n (omega arith)) (not_request bs r d 0x11 k)

  grants_first :
      (bs : List ℕ)
      → IsBytes bs
      → u8_at bs 0 ≡ 0x67
      → grants (message_of (decode bs)) is_request level ≡ grants_in bs is_request level
  grants_first [] h e = absurd (omega arith)
  grants_first (sid ∷ rest) (b, h) e =
      subst
        (λ x.
          grants (message_of (decode (x ∷ rest))) is_request level
          ≡ grants_in (x ∷ rest) is_request level)
        (sym e) (grants_key level is_request rest h)

  grants_lem :
      (bs : List ℕ)
      → IsBytes bs
      → grants (message_of (decode bs)) is_request level ≡ grants_in bs is_request level
  grants_lem bs h = elim (Bool-cases (u8_at bs 0 == 0x67)) [
    | inl e ↦ grants_first bs h ((==_iff (u8_at bs 0) 0x67).0 e)
    | inr e ↦
        let (r, d, f) = decode-Explains bs h in
        rw (d, grants_other bs r (ground arith) f, e) (ground arith)
  ]

  ends_first :
      (bs : List ℕ)
      → (u8_at bs 0 ≡ 0x50) ⊎ (u8_at bs 0 ≡ 0x11)
      → ends (message_of (decode bs)) is_request level ≡ ends_in bs is_request level
  ends_first [] (inl e) = absurd (omega arith)
  ends_first [] (inr e) = absurd (omega arith)
  ends_first (sid ∷ rest) (inl e) =
      subst
        (λ x.
          ends (message_of (decode (x ∷ rest))) is_request level
          ≡ ends_in (x ∷ rest) is_request level)
        (sym e) (ends_session level is_request rest)
  ends_first (sid ∷ rest) (inr e) =
      subst
        (λ x.
          ends (message_of (decode (x ∷ rest))) is_request level
          ≡ ends_in (x ∷ rest) is_request level)
        (sym e) (ends_reset level is_request rest)

  pub ends_lem :
      (bs : List ℕ)
      → IsBytes bs
      → ends (message_of (decode bs)) is_request level ≡ ends_in bs is_request level
  ends_lem bs h = elim (Bool-cases (u8_at bs 0 == 0x50)) [
    | inl e ↦ ends_first bs (inl ((==_iff (u8_at bs 0) 0x50).0 e))
    | inr e ↦ elim (Bool-cases (u8_at bs 0 == 0x11)) [
      | inl k ↦ ends_first bs (inr ((==_iff (u8_at bs 0) 0x11).0 k))
      | inr k ↦
          let (r, d, f) = decode-Explains bs h in
          rw (d, ends_other bs r (ground arith) (ground arith) f, e, k) (ground arith)
    ]
  ]

module _ (now later level : ℕ) (is_request : Bool) (s : UdsSession) where
  process_result-open :
      (bs : List ℕ) (r : UdsResult)
      → Describes bs r
      → is_unlocked later level (process_result now r is_request s).1.security
        ≡ after later level
            (grants (message_in r) is_request level)
            (ends (message_in r) is_request s.session_type)
            (is_unlocked later level s.security)
  unfolding process_result process_decoded update_activity
  process_result-open bs (err e) d = refl
  process_result-open bs (ok r) d =
      act-open later level now r.header.service_id r.header.direction r.message is_request
        (update_activity now s) d.2

  -- After any message, at any time, a security level is unlocked exactly if the message is the
  -- positive answer to a key of this level (0x67 and an even access type, whose half is the level),
  -- or if it was unlocked before and the message is neither a positive answer to a change to another
  -- session nor a request to reset the ECU. In every case the bytes are read inside their span.
  pub process_message_unlocks :
      (bs : List ℕ)
      → IsBytes bs
      → (decoded : Bool) × (t : UdsSession) × (process_message now bs is_request s
          ≡ some (decoded, t))
        × (is_unlocked later level t.security ≡ (
            if grants_in bs is_request level
            then true
            else if ends_in bs is_request s.session_type
            then false
            else is_unlocked later level s.security))
  unfolding process_message
  process_message_unlocks bs h =
      let (r, d, f) = decode-Explains bs h in
      let g : grants (message_in r) is_request level ≡ grants_in bs is_request level =
        rw d at (grants_lem is_request level bs h) in
      let k : ends (message_in r) is_request s.session_type ≡ ends_in bs is_request s.session_type =
        rw d at (ends_lem is_request s.session_type bs h) in
      (
        (process_result now r is_request s).0,
        (process_result now r is_request s).1,
        rw (process_message, d) refl,
        rw (← g, ← k) (process_result-open bs r f),
      )
