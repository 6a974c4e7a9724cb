-- ===== src/Uds/Session/Bytes.antt =====
-- The messages that move the security levels, told from their bytes.
use wadjet_link.Prelude.{
  ℕ, ◌/◌, ◌%◌, ◌≡◌, refl, List, [], ◌∷◌, Bool, true, false, not, ◌&&◌, Option, none, some, ltb, leb,
  ◌==◌, if◌then◌else◌, inl, inr, Bool-cases, arith, length, le→ltb, le→leb,
}
use wadjet_link.Bytes.{IsBytes}
use wadjet_link.Decoder.Reads.{u8_at}
use wadjet_link.Uds.Types.{
  MessageDirection, request, positive_response, negative_response_sid, UdsServiceMessage, monostate,
  diagnostic_session_control_response, security_access_response, ecu_reset_request,
}
use wadjet_link.Uds.Reads.{Fits}
use wadjet_link.Uds.Message.{
  UdsResult, ok, err, decode, dispatch_sid, parse_request, parse_positive_response, request_message,
  response_message, response_to_request, has_response_bit,
}
use wadjet_link.Uds.Message.Safety.{
  request_header-Fits, response_header-Fits, request_message-Yields, response_message-Yields,
}
use wadjet_link.Uds.Requests.{parse_ecu_reset_request}
use wadjet_link.Uds.Requests.Yields.{rest_from-Gives}
use wadjet_link.Uds.Responses.Yields.{read_timing-Gives}
use wadjet_link.Uds.Responses.{
  parse_security_access_response, parse_diagnostic_session_control_response,
}
use wadjet_link.Uds.Session.Unlocking.{grants, ends}

abbrev pub message_in : UdsResult → UdsServiceMessage
message_in (ok r) = r.message
message_in (err e) = monostate

abbrev pub message_of : Option UdsResult → UdsServiceMessage
message_of none = monostate
message_of (some r) = message_in r

abbrev or_monostate : Option UdsServiceMessage → UdsServiceMessage
or_monostate none = monostate
or_monostate (some m) = m

module _ (sid : ℕ) (rest : List ℕ) where
  decode_response :
      (sid == negative_response_sid) ≡ false
      → has_response_bit sid ≡ true
      → message_of (decode (sid ∷ rest))
        ≡ or_monostate (response_message (response_to_request sid) (sid ∷ rest))
  unfolding decode dispatch_sid parse_positive_response
  decode_response n e =
      let one : ltb (length (sid ∷ rest)) 1 ≡ false = le→ltb _ _ (omega arith) in
      let (h, eh, _) = response_header-Fits (response_to_request sid) (sid ∷ rest) (omega arith) in
      let (m, em, _) = response_message-Yields (response_to_request sid) (sid ∷ rest) in
      rw (decode, one, dispatch_sid, n, e, parse_positive_response, eh, em) refl

  decode_request :
      (sid == negative_response_sid) ≡ false
      → has_response_bit sid ≡ false
      → message_of (decode (sid ∷ rest)) ≡ or_monostate (request_message sid (sid ∷ rest))
  unfolding decode dispatch_sid parse_request
  decode_request n e =
      let one : ltb (length (sid ∷ rest)) 1 ≡ false = le→ltb _ _ (omega arith) in
      let (h, eh, _) = request_header-Fits sid (sid ∷ rest) (omega arith) in
      let (m, em, _) = request_message-Yields sid (sid ∷ rest) in
      rw (decode, one, dispatch_sid, n, e, parse_request, eh, em) refl

-- A positive answer to a key: the access type is even, and the level is its half.
abbrev pub grants_in : List ℕ → Bool → ℕ → Bool
grants_in bs is_request level =
    not is_request
    && u8_at bs 0 == 0x67
    && leb 2 (length bs)
    && u8_at bs 1 % 2 == 0
    && u8_at bs 1 / 2 == level

-- A positive answer to a change to another session, or a request to reset the ECU.
abbrev pub ends_in : List ℕ → Bool → ℕ → Bool
ends_in bs is_request type =
    if is_request
    then u8_at bs 0 == 0x11 && leb 2 (length bs)
    else u8_at bs 0 == 0x50 && leb 2 (length bs) && not (type == u8_at bs 1)

access_message :
    (t : ℕ) (rest : List ℕ)
    → (seed : List ℕ) × (parse_security_access_response (0x67 ∷ t ∷ rest)
        ≡ some (security_access_response (record { access_type = t; security_seed = seed })))
unfolding parse_security_access_response
access_message t rest =
    let two : ltb (length (0x67 ∷ t ∷ rest)) 2 ≡ false = le→ltb _ _ (omega arith) in
    let (seed, e) = rest_from-Gives 2 (0x67 ∷ t ∷ rest) in
    elim (Bool-cases (t % 2 == 1)) [
      | inl odd ↦ (seed, rw (parse_security_access_response, two, odd, e) refl)
      | inr even ↦ ([], rw (parse_security_access_response, two, even) refl)
    ]

session_message :
    (t : ℕ) (rest : List ℕ)
    → (p2 p2_star : ℕ) × (parse_diagnostic_session_control_response (0x50 ∷ t ∷ rest)
        ≡ some (
            diagnostic_session_control_response (record {
              session_type = t;
              p2_server_max_ms = p2;
              p2_star_server_max_ms = p2_star;
            })))
unfolding parse_diagnostic_session_control_response
session_message t rest =
    let two : ltb (length (0x50 ∷ t ∷ rest)) 2 ≡ false = le→ltb _ _ (omega arith) in
    let (times, e) = read_timing-Gives (0x50 ∷ t ∷ rest) in
    (times.0, times.1, rw (parse_diagnostic_session_control_response, two, e) refl)

at_least_two : (s t : ℕ) (rest : List ℕ) → leb 2 (length (s ∷ t ∷ rest)) ≡ true
at_least_two s t rest = le→leb _ _ (omega arith)

module _ (level : ℕ) where
  pub grants_key :
      (is_request : Bool) (rest : List ℕ)
      → IsBytes rest
      → grants (message_of (decode (0x67 ∷ rest))) is_request level
        ≡ grants_in (0x67 ∷ rest) is_request level
  unfolding response_message parse_security_access_response
  grants_key false [] h = rw (decode_response 0x67 [] refl refl) refl
  grants_key true [] h = rw (decode_response 0x67 [] refl refl) refl
  grants_key true (t ∷ rest) (b, h) =
      let (seed, e) = access_message t rest in
      rw (decode_response 0x67 (t ∷ rest) refl refl, response_message, e) refl
  grants_key false (t ∷ rest) (b, h) =
      let (seed, e) = access_message t rest in
      rw (decode_response 0x67 (t ∷ rest) refl refl, response_message, e, at_least_two 0x67 t rest)
        (ground arith)

  pub ends_session :
      (is_request : Bool) (rest : List ℕ)
      → ends (message_of (decode (0x50 ∷ rest))) is_request level
        ≡ ends_in (0x50 ∷ rest) is_request level
  unfolding response_message parse_diagnostic_session_control_response
  ends_session false [] = rw (decode_response 0x50 [] refl refl) refl
  ends_session true [] = rw (decode_response 0x50 [] refl refl) refl
  ends_session true (t ∷ rest) =
      let (p2, p2_star, e) = session_message t rest in
      rw (decode_response 0x50 (t ∷ rest) refl refl, response_message, e) refl
  ends_session false (t ∷ rest) =
      let (p2, p2_star, e) = session_message t rest in
      rw (decode_response 0x50 (t ∷ rest) refl refl, response_message, e, at_least_two 0x50 t rest)
        refl

  pub ends_reset :
      (is_request : Bool) (rest : List ℕ)
      → ends (message_of (decode (0x11 ∷ rest))) is_request level
        ≡ ends_in (0x11 ∷ rest) is_request level
  unfolding request_message parse_ecu_reset_request
  ends_reset false [] = rw (decode_request 0x11 [] refl refl) refl
  ends_reset true [] = rw (decode_request 0x11 [] refl refl) refl
  ends_reset false (t ∷ rest) =
      let two : ltb (length (0x11 ∷ t ∷ rest)) 2 ≡ false = le→ltb _ _ (omega arith) in
      rw (decode_request 0x11 (t ∷ rest) refl refl, request_message, parse_ecu_reset_request, two)
        refl
  ends_reset true (t ∷ rest) =
      let two : ltb (length (0x11 ∷ t ∷ rest)) 2 ≡ false = le→ltb _ _ (omega arith) in
      rw
        (
          decode_request 0x11 (t ∷ rest) refl refl,
          request_message,
          parse_ecu_reset_request,
          two,
          at_least_two 0x11 t rest,
        )
        refl

  -- A message of another service or direction moves nothing.
  pub grants_not :
      (sid : ℕ) (d : MessageDirection) (m : UdsServiceMessage) (is_request : Bool)
      → Fits sid d m
      → ¬ ((sid ≡ 0x27) × (d ≡ positive_response))
      → grants m is_request level ≡ false
  grants_not sid d (security_access_response r) is_request f n = absurd (n f)
  grants_not sid d m is_request f n = refl

  pub ends_not :
      (sid : ℕ) (d : MessageDirection) (m : UdsServiceMessage) (is_request : Bool)
      → Fits sid d m
      → ¬ ((sid ≡ 0x10) × (d ≡ positive_response))
      → ¬ ((sid ≡ 0x11) × (d ≡ request))
      → ends m is_request level ≡ false
  ends_not sid d (diagnostic_session_control_response r) is_request f n k = absurd (n f)
  ends_not sid d (ecu_reset_request r) is_request f n k = absurd (k f)
  ends_not sid d m is_request f n k = refl
