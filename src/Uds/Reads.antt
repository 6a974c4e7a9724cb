-- ===== src/Uds/Reads.antt =====
-- What a service parser gives, and the reads that stay inside a span.
use wadjet_link.Prelude.{
  ℕ, zero, suc, ◌+◌, ◌*◌, ◌%◌, ◌^◌, ◌≤◌, ◌<◌, ◌≡◌, refl, List, Bool, true, false, Option, some, ltb,
  if◌then◌else◌, length, drop, arith, le→leb, ltb_false→le, Bool-cases, inl, inr,
}
use wadjet_link.Bytes.{get_elem?, read_be16, ◌>>=◌}
use wadjet_link.Decoder.Reads.{get_elem?_in, be16_in}
use wadjet_link.Uds.ServiceId
use wadjet_link.Uds.Types.{
  MessageDirection, request, positive_response, negative_response, subspan, read_digits,
  UdsServiceMessage, monostate, negative_response_message, diagnostic_session_control_request,
  ecu_reset_request, security_access_request, tester_present_request,
  read_data_by_identifier_request, write_data_by_identifier_request, routine_control_request,
  request_download_request, transfer_data_request, request_transfer_exit_request,
  diagnostic_session_control_response, ecu_reset_response, security_access_response,
  tester_present_response, read_data_by_identifier_response, write_data_by_identifier_response,
  routine_control_response, request_download_response, transfer_data_response,
  request_transfer_exit_response,
}

-- The message is unparsed, or of this service and direction.
abbrev pub Fits : ℕ → MessageDirection → UdsServiceMessage → Type 0
Fits sid d monostate = Unit
Fits sid d (diagnostic_session_control_request m) =
    (sid ≡ ServiceId.diagnostic_session_control) × (d ≡ request)
Fits sid d (ecu_reset_request m) = (sid ≡ ServiceId.ecu_reset) × (d ≡ request)
Fits sid d (security_access_request m) = (sid ≡ ServiceId.security_access) × (d ≡ request)
Fits sid d (tester_present_request m) = (sid ≡ ServiceId.tester_present) × (d ≡ request)
Fits sid d (read_data_by_identifier_request m) =
    (sid ≡ ServiceId.read_data_by_identifier) × (d ≡ request)
Fits sid d (write_data_by_identifier_request m) =
    (sid ≡ ServiceId.write_data_by_identifier) × (d ≡ request)
Fits sid d (routine_control_request m) = (sid ≡ ServiceId.routine_control) × (d ≡ request)
Fits sid d (request_download_request m) = (sid ≡ ServiceId.request_download) × (d ≡ request)
Fits sid d (transfer_data_request m) = (sid ≡ ServiceId.transfer_data) × (d ≡ request)
Fits sid d (request_transfer_exit_request m) =
    (sid ≡ ServiceId.request_transfer_exit) × (d ≡ request)
Fits sid d (diagnostic_session_control_response m) =
    (sid ≡ ServiceId.diagnostic_session_control) × (d ≡ positive_response)
Fits sid d (ecu_reset_response m) = (sid ≡ ServiceId.ecu_reset) × (d ≡ positive_response)
Fits sid d (security_access_response m) =
    (sid ≡ ServiceId.security_access) × (d ≡ positive_response)
Fits sid d (tester_present_response m) = (sid ≡ ServiceId.tester_present) × (d ≡ positive_response)
Fits sid d (read_data_by_identifier_response m) =
    (sid ≡ ServiceId.read_data_by_identifier) × (d ≡ positive_response)
Fits sid d (write_data_by_identifier_response m) =
    (sid ≡ ServiceId.write_data_by_identifier) × (d ≡ positive_response)
Fits sid d (routine_control_response m) =
    (sid ≡ ServiceId.routine_control) × (d ≡ positive_response)
Fits sid d (request_download_response m) =
    (sid ≡ ServiceId.request_download) × (d ≡ positive_response)
Fits sid d (transfer_data_response m) = (sid ≡ ServiceId.transfer_data) × (d ≡ positive_response)
Fits sid d (request_transfer_exit_response m) =
    (sid ≡ ServiceId.request_transfer_exit) × (d ≡ positive_response)
Fits sid d (negative_response_message m) = (d ≡ negative_response) × (m.rejected_service_id ≡ sid)

-- The reads stay inside the span.
abbrev pub Gives {ℓ} : {A : Type ℓ} → Option A → Type ℓ
Gives {A} o = (a : A) × (o ≡ some a)

abbrev pub Yields : ℕ → MessageDirection → Option UdsServiceMessage → Type 0
Yields sid d o = (m : UdsServiceMessage) × (o ≡ some m) × Fits sid d m

pub >>=-Yields :
    {A : Type 0} (sid : ℕ) (d : MessageDirection) (o : Option A) (f : A → Option UdsServiceMessage)
    → Gives o
    → ((a : A) → Yields sid d (f a))
    → Yields sid d (o >>= f)
>>=-Yields sid d o f (a, e) g = rw e (g a)

pub unless_short :
    (sid : ℕ) (d : MessageDirection) (n : ℕ) (bs : List ℕ) (o : Option UdsServiceMessage)
    → (n ≤ length bs → Yields sid d o)
    → Yields sid d (if ltb (length bs) n then some monostate else o)
unless_short sid d n bs o f = elim (Bool-cases (ltb (length bs) n)) [
  | inl short ↦ rw short (monostate, refl, tt)
  | inr long ↦ rw long (f (ltb_false→le (length bs) n long))
]

pub if-Gives :
    {A : Type 0} (test : Bool) (x y : Option A)
    → (test ≡ true → Gives x)
    → (test ≡ false → Gives y)
    → Gives (if test then x else y)
if-Gives true x y f g = f refl
if-Gives false x y f g = g refl

pub >>=-Gives :
    {A B : Type 0} (o : Option A) (f : A → Option B)
    → Gives o
    → ((a : A) → Gives (f a))
    → Gives (o >>= f)
>>=-Gives o f (a, e) g = rw e (g a)

pub get_elem?-Gives : (bs : List ℕ) (i : ℕ) → i < length bs → Gives (get_elem? bs i)
get_elem?-Gives bs i h = (_, get_elem?_in bs i h)

pub read_be16-Gives : (bs : List ℕ) (o : ℕ) → o + 2 ≤ length bs → Gives (read_be16 bs o)
read_be16-Gives bs o h = (_, be16_in bs o h)

pub subspan_in : (n : ℕ) (bs : List ℕ) → n ≤ length bs → subspan n bs ≡ some (drop n bs)
unfolding subspan
subspan_in n bs h = rw (le→leb n (length bs) h) refl

pub read_digits-Gives :
    (len : ℕ) (bs : List ℕ) (i acc : ℕ) → i + len ≤ length bs → Gives (read_digits len bs i acc)
unfolding read_digits
read_digits-Gives zero bs i acc h = (acc, refl)
read_digits-Gives (suc len) bs i acc h =
    >>=-Gives (get_elem? bs i) _ (get_elem?-Gives bs i (omega arith))
      (λ b. read_digits-Gives len bs (i + 1) (acc * 2 ^ 8 % 2 ^ 64 + b) (omega arith))
