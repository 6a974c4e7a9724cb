-- ===== src/Uds/Session/Trace.antt =====
-- The session over a run of messages, each with the time at which it comes.
use wadjet_link.Prelude.{
  ℕ, ◌+◌, ◌*◌, ◌^◌, ◌≤◌, ◌<◌, ◌≡◌, refl, sym, subst, All, List, [], ◌∷◌, Bool, true, false, ◌&&◌,
  Option, some, leb, ◌==◌, arith, length,
}
use wadjet_link.Bytes.{IsBytes, ◌>>=◌}
use wadjet_link.Decoder.Reads.{u8_at}
use wadjet_link.Uds.Types.{UdsServiceMessage, ecu_reset_request}
use wadjet_link.Uds.Message.{UdsResult, ok, err, decode}
use wadjet_link.Uds.Message.Safety.{Describes, direction_of, least_length}
use wadjet_link.Uds.Message.Total.{decode-Explains}
use wadjet_link.Uds.Session.{
  UdsSession, active, timed_out, update_activity, process_decoded, process_result, process_message,
}
use wadjet_link.Uds.Session.Security.{is_unlocked}
use wadjet_link.Uds.Session.Queries.{is_timed_out, is_active, state_at}
use wadjet_link.Uds.Session.Unlocking.{ends}
use wadjet_link.Uds.Session.Bytes.{message_in, ends_in}
use wadjet_link.Uds.Session.Unlocked.{ends_lem, process_message_unlocks}
use wadjet_link.Uds.Session.Timeout.{IsAlive, resets, act-IsAlive}

resets-ends : (m : UdsServiceMessage) → ends m true 0 ≡ false → resets m true ≡ false
resets-ends (ecu_reset_request r) h = h
resets-ends m h = refl

resets_not : (m : UdsServiceMessage) → resets m false ≡ false
resets_not (ecu_reset_request r) = refl
resets_not m = refl

-- Long enough to be decoded, and no request to reset the ECU.
abbrev pub Lasting : List ℕ → Bool → Type 0
Lasting bs is_request =
    IsBytes bs
    × (least_length (direction_of bs) ≤ length bs)
    × ((is_request && u8_at bs 0 == 0x11 && leb 2 (length bs)) ≡ false)

module _ (bs : List ℕ) where
  resets_lem :
      (is_request : Bool) (r : UdsResult)
      → Lasting bs is_request
      → decode bs ≡ some r
      → resets (message_in r) is_request ≡ false
  resets_lem false r h e = resets_not (message_in r)
  resets_lem true r h e =
      let k : ends (message_in r) true 0 ≡ ends_in bs true 0 = rw e at (ends_lem true 0 bs h.0) in
      resets-ends (message_in r) (rw k h.2)

module _ (now last : ℕ) (bs : List ℕ) (is_request : Bool) (s : UdsSession) where
  process_result-IsAlive :
      (r : UdsResult)
      → Describes bs r
      → least_length (direction_of bs) ≤ length bs
      → resets (message_in r) is_request ≡ false
      → IsAlive last s
      → IsAlive now (process_result now r is_request s).1
  unfolding process_result process_decoded update_activity
  process_result-IsAlive (err e) d l n a = absurd (omega (arith, d.1))
  process_result-IsAlive (ok r) d l n a =
      act-IsAlive now r.header.service_id r.header.direction r.message is_request
        (update_activity now s) d.2 n
        (record { running = a.running; five_seconds = a.five_seconds; since = refl })

  process_result-decoded :
      (r : UdsResult)
      → Describes bs r
      → least_length (direction_of bs) ≤ length bs
      → (process_result now r is_request s).0 ≡ true
  unfolding process_result
  process_result-decoded (err e) d l = absurd (omega (arith, d.1))
  process_result-decoded (ok r) d l = refl

  process_message-IsAlive :
      Lasting bs is_request
      → IsAlive last s
      → (t : UdsSession) × (process_message now bs is_request s ≡ some (true, t)) × IsAlive now t
  unfolding process_message
  process_message-IsAlive h a =
      let (r, d, f) = decode-Explains bs h.0 in
      let t = (process_result now r is_request s).1 in
      let same : process_result now r is_request s ≡ (true, t) =
        ground (arith, process_result-decoded r f h.1) in
      (
        t,
        rw (process_message, d, same) refl,
        process_result-IsAlive r f h.1 (resets_lem bs is_request r h d) a,
      )

-- five seconds
abbrev pub s3_time : ℕ
s3_time = 5000 * 10 ^ 6

is_active-IsAlive :
    (last end : ℕ) (s : UdsSession) → IsAlive last s → is_active end s ≡ leb end (last + s3_time)
unfolding is_active is_timed_out
is_active-IsAlive last end s a = ground arith

pub record Message : Type 0 where
  pub time : ℕ
  pub bytes : List ℕ
  pub is_request : Bool

unfoldable pub run : List Message → UdsSession → Option UdsSession
run [] s = some s
run (m ∷ ms) s = process_message m.time m.bytes m.is_request s >>= λ r. run ms r.1

abbrev pub last_time : ℕ → List Message → ℕ
last_time last [] = last
last_time last (m ∷ ms) = last_time m.time ms

-- An active session with the default S3 time stays alive under any run of messages that are long
-- enough to be decoded and do not ask for a reset of the ECU, requests and responses alike: at
-- every later moment it counts as active exactly until five seconds after the last of them.
pub run_active :
    (last : ℕ) (ms : List Message) (s : UdsSession)
    → All (λ m. Lasting m.bytes m.is_request) ms
    → IsAlive last s
    → (t : UdsSession) × (run ms s ≡ some t)
      × ((end : ℕ) → is_active end t ≡ leb end (last_time last ms + s3_time))
unfolding run
run_active last [] s h a = (s, refl, λ end. is_active-IsAlive last end s a)
run_active last (m ∷ ms) s (h, hs) a =
    let (t, e, alive) = process_message-IsAlive m.time last m.bytes m.is_request s h a in
    let (u, f, g) = run_active m.time ms t hs alive in (u, rw (run, e) f, g)

-- The end of the S3 time does not end the session: past it the session counts as timed out, but the
-- next message that is long enough and neither ends nor changes the session makes it active again,
-- with every security level unlocked that was.
pub process_message_revives :
    (now last level : ℕ) (bs : List ℕ) (is_request : Bool) (s : UdsSession)
    → IsAlive last s
    → last + s3_time < now
    → Lasting bs is_request
    → ends_in bs is_request s.session_type ≡ false
    → is_unlocked now level s.security ≡ true
    → (state_at now s ≡ timed_out)
      × ((t : UdsSession) × (process_message now bs is_request s ≡ some (true, t))
          × (state_at now t ≡ active)
          × (is_unlocked now level t.security ≡ true))
unfolding state_at is_timed_out
process_message_revives now last level bs is_request s a late h stays open_before =
    let (t, e, alive) = process_message-IsAlive now last bs is_request s h a in
    let (b, u, f, g) = process_message_unlocks now now level is_request s bs h.0 in
    let same : t ≡ u = cc in
    let unlocked : is_unlocked now level u.security ≡ true =
      ground (arith, g, stays, open_before) in
    (
      ground arith,
      (
        t,
        e,
        ground arith,
        subst (λ x. is_unlocked now level x.security ≡ true) (sym same) unlocked,
      ),
    )
