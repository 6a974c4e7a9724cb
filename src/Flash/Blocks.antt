-- ===== src/Flash/Blocks.antt =====
-- The blocks of a flash sequence: acknowledged, failed and sent again.
use wadjet_link.Prelude.{
  ℕ, ◌+◌, ◌*◌, ◌%◌, ◌^◌, ◌<◌, ◌≡◌, ap, refl, List, [], ◌∷◌, ◌++◌, append_assoc, true, false, ltb,
  some, length, All, arith, ==_iff,
}
use wadjet_link.Prelude.Assoc.{nat_eq, lookup}
use wadjet_link.Flash.Sequence.{
  FlashBlock, FlashSequence, successful_in, successful_blocks, failed_in, failed_blocks,
}
use wadjet_link.Flash.Tracker.{Tracker, emit_event, add64}
use wadjet_link.Flash.Tracker.Requests.{TransferDataRequest, add_block, process_transfer_data}
use wadjet_link.Flash.Tracker.Responses.{
  timed, matches, acknowledge, NegativeResponseMessage, transfer_data_sid, fail_last, reject_block,
  process_transfer_data_response, process_negative_response,
}
use wadjet_link.Flash.Frame.{put_found}

abbrev pub IsAcknowledged : FlashBlock → Type 0
IsAcknowledged block = block.acknowledged ≡ true

pub acknowledge_skips :
    (c : ℕ) (xs : List FlashBlock) (b : FlashBlock) (ys : List FlashBlock)
    → All IsAcknowledged xs
    → b.acknowledged ≡ false
    → b.sequence_counter ≡ c
    → acknowledge c (xs ++ b ∷ ys) ≡ some (xs ++ record b { acknowledged = true } ∷ ys)
unfolding acknowledge
acknowledge_skips c [] b ys h a s = rw ((==_iff b.sequence_counter c).1 s, a) refl
acknowledge_skips c (x ∷ xs) b ys h a s =
    let no : matches c x ≡ false = ground (arith, h.0) in
    rw (no, acknowledge_skips c xs b ys h.1 a s) refl

fail_last-snoc :
    (code : ℕ) (xs : List FlashBlock) (b : FlashBlock)
    → fail_last code (xs ++ b ∷ []) ≡ xs ++ record b { error_code = some code } ∷ []
unfolding fail_last
fail_last-snoc code [] b = refl
fail_last-snoc code (x ∷ []) b = refl
fail_last-snoc code (x ∷ (y ∷ xs)) b = ap (λ m. x ∷ m) (fail_last-snoc code (y ∷ xs) b)

pub successful_in-append :
    (xs ys : List FlashBlock) → successful_in (xs ++ ys) ≡ successful_in xs + successful_in ys
unfolding successful_in
successful_in-append [] ys = omega arith
successful_in-append (x ∷ xs) ys = ground (arith, successful_in-append xs ys)

failed_in-append : (xs ys : List FlashBlock) → failed_in (xs ++ ys) ≡ failed_in xs + failed_in ys
unfolding failed_in
failed_in-append [] ys = omega arith
failed_in-append (x ∷ xs) ys = ground (arith, failed_in-append xs ys)

module _ (source ecu timestamp : ℕ) (t : Tracker) {seq : FlashSequence}
    (e : lookup ecu t.active ≡ some seq) where
  pub process_transfer_data_found :
      (req : TransferDataRequest)
      → lookup ecu (process_transfer_data req source ecu timestamp t).active
        ≡ some (add_block req timestamp seq)
  unfolding process_transfer_data emit_event
  process_transfer_data_found req = rw (process_transfer_data, e) (put_found ecu _ t)

  pub process_transfer_data_response_found :
      (c : ℕ) {blocks : List FlashBlock}
      → acknowledge c seq.blocks ≡ some blocks
      → lookup ecu (process_transfer_data_response c ecu source timestamp t).active
        ≡ some (timed timestamp (record seq { blocks = blocks }))
  unfolding process_transfer_data_response emit_event
  process_transfer_data_response_found c f =
      rw (process_transfer_data_response, e, f) (put_found ecu _ t)

  process_negative_response_found :
      (code : ℕ)
      → ltb 3 (add64 seq.retry_count 1) ≡ false
      → let nrc : NegativeResponseMessage = record {
        rejected_service_id = transfer_data_sid;
        negative_response_code = code;
      } in
        lookup ecu (process_negative_response nrc ecu source timestamp t).active
        ≡ some (record seq {
          last_error = some code;
          blocks = fail_last code seq.blocks;
          retry_count = add64 seq.retry_count 1;
        })
  unfolding process_negative_response reject_block emit_event
  process_negative_response_found code r = rw (process_negative_response, e, r) (put_found ecu _ t)

acknowledge-retry :
    (c code : ℕ) (xs : List FlashBlock) (b b' : FlashBlock)
    → All IsAcknowledged xs
    → b.acknowledged ≡ false
    → b.sequence_counter ≡ c
    → acknowledge c (fail_last code (xs ++ b ∷ []) ++ b' ∷ [])
      ≡ some (xs ++ record b { error_code = some code; acknowledged = true } ∷ (b' ∷ []))
acknowledge-retry c code xs b b' h a s =
    let failed = record b { error_code = some code } in
    rw (fail_last-snoc code xs b, append_assoc xs (failed ∷ []) (b' ∷ []))
      (acknowledge_skips c xs failed (b' ∷ []) h a s)

-- A block is sent, refused, sent again under the same counter and accepted, while every earlier block
-- is acknowledged and fewer than three blocks were refused before. The acknowledgement goes to the
-- refused block, not to the one that was accepted: the sequence counts no more successful blocks than
-- before, one more failed one, and the payload twice.
pub process_transfer_data_retry :
    (source ecu c code n0 n1 n2 n3 : ℕ) (payload : List ℕ) (t : Tracker) {seq : FlashSequence}
    → lookup ecu t.active ≡ some seq
    → All IsAcknowledged seq.blocks
    → seq.retry_count < 3
    → let req : TransferDataRequest = record {
      block_sequence_counter = c;
      transfer_request_parameter_record = payload;
    } in
      let nrc : NegativeResponseMessage = record {
        rejected_service_id = transfer_data_sid;
        negative_response_code = code;
      } in
      let t1 = process_transfer_data req source ecu n0 t in
      let t2 = process_negative_response nrc ecu source n1 t1 in
      let t3 = process_transfer_data req source ecu n2 t2 in
      let t4 = process_transfer_data_response c ecu source n3 t3 in
      (seq' : FlashSequence) × ((lookup ecu t4.active ≡ some seq')
        × ((successful_blocks seq' ≡ successful_blocks seq)
            × ((failed_blocks seq' ≡ failed_blocks seq + 1)
                × (seq'.total_bytes_transferred
                    ≡ (seq.total_bytes_transferred + 2 * length payload) % 2 ^ 64))))
unfolding add_block successful_blocks successful_in failed_blocks failed_in
process_transfer_data_retry source ecu c code n0 n1 n2 n3 payload t {seq} e h r =
    let req : TransferDataRequest = record {
      block_sequence_counter = c;
      transfer_request_parameter_record = payload;
    } in
    let few : ltb 3 (add64 seq.retry_count 1) ≡ false = ground arith in
    let e1 = process_transfer_data_found source ecu n0 t e req in
    let e2 = process_negative_response_found source ecu n1 _ e1 code few in
    let e3 = process_transfer_data_found source ecu n2 _ e2 req in
    let e4 =
      process_transfer_data_response_found source ecu n3 _ e3 c
        (acknowledge-retry c code seq.blocks _ _ h refl refl) in
    (
      _,
      (
        e4,
        (
          omega (arith, successful_in-append seq.blocks _),
          (omega (arith, failed_in-append seq.blocks _), omega arith),
        ),
      ),
    )
