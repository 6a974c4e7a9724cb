-- ===== src/Flash/Transfer.antt =====
-- A whole download, from its request to the response to RequestTransferExit.
use wadjet_link.Prelude.{
  ℕ, ◌+◌, ◌%◌, ◌^◌, ◌≡◌, refl, subst, List, [], ◌∷◌, ◌++◌, true, none, some, length, length-append,
  All, arith,
}
use wadjet_link.Prelude.Assoc.{nat_eq, lookup}
use wadjet_link.Flash.Sequence.{
  FlashBlock, FlashRegion, FlashSequence, downloading, complete, is_good, new_sequence,
  successful_in, successful_blocks,
}
use wadjet_link.Flash.Tracker.{Tracker, emit_event, create_sequence, complete_sequence}
use wadjet_link.Flash.Tracker.Requests.{
  MemoryRequest, TransferDataRequest, next_counter, add_block, process_request_download,
  process_transfer_data,
}
use wadjet_link.Flash.Tracker.Responses.{
  accept_transfer, process_request_download_response, process_transfer_data_response,
  process_transfer_exit_response,
}
use wadjet_link.Flash.Invariant.{sizes, sizes-append}
use wadjet_link.Flash.Frame.{put_found, get_or_create_sequence_creates}
use wadjet_link.Flash.Blocks.{
  IsAcknowledged, acknowledge_skips, process_transfer_data_found,
  process_transfer_data_response_found,
}

-- A payload, the time at which it is sent and the time at which it is acknowledged.
abbrev pub Payload : Type 0
Payload = List ℕ × (ℕ × ℕ)

abbrev pub payload_bytes : List Payload → ℕ
payload_bytes [] = 0
payload_bytes ((bytes, times) ∷ ps) = length bytes + payload_bytes ps

-- The payloads one after the other, each with its response; the counters follow one another.
abbrev pub send_all : ℕ → ℕ → List Payload → ℕ → Tracker → Tracker
send_all source ecu [] c t = t
send_all source ecu ((bytes, (sent, answered)) ∷ ps) c t = send_all source ecu ps (next_counter c) (
    process_transfer_data_response c ecu source answered (
      process_transfer_data
        (record { block_sequence_counter = c; transfer_request_parameter_record = bytes }) source
        ecu sent t))

abbrev IsGood : FlashBlock → Type 0
IsGood block = is_good block ≡ true

IsGood→IsAcknowledged : (xs : List FlashBlock) → All IsGood xs → All IsAcknowledged xs
IsGood→IsAcknowledged [] h = tt
IsGood→IsAcknowledged (x ∷ xs) h =
    let a : x.acknowledged ≡ true = ground (arith, h.0) in (a, IsGood→IsAcknowledged xs h.1)

IsGood-snoc :
    (xs : List FlashBlock) (b : FlashBlock) → All IsGood xs → IsGood b → All IsGood (xs ++ b ∷ [])
IsGood-snoc [] b h g = (g, tt)
IsGood-snoc (x ∷ xs) b h g = (h.0, IsGood-snoc xs b h.1 g)

successful_in-IsGood : (xs : List FlashBlock) → All IsGood xs → successful_in xs ≡ length xs
unfolding successful_in
successful_in-IsGood [] h = refl
successful_in-IsGood (x ∷ xs) h = rw h.0 (omega (arith, successful_in-IsGood xs h.1))

-- All blocks are good, the bytes are theirs, and so many blocks and bytes were sent.
record IsSent (seq : FlashSequence) (n bytes : ℕ) : Type 0 where
  good : All IsGood seq.blocks
  total : seq.total_bytes_transferred ≡ sizes seq.blocks % 2 ^ 64
  count : length seq.blocks ≡ n
  volume : sizes seq.blocks ≡ bytes

-- The sequence of the ECU has sent so many blocks and bytes of the region.
abbrev HasSent : ℕ → ℕ → ℕ → FlashRegion → List (ℕ × FlashSequence) → Type 0
HasSent ecu n bytes region active =
    (seq : FlashSequence) × ((lookup ecu active ≡ some seq)
      × (IsSent seq n bytes × (seq.region ≡ region)))

send_one-HasSent :
    (source ecu c sent answered n k : ℕ) (bytes : List ℕ) {region : FlashRegion} (t : Tracker)
    → HasSent ecu n k region t.active
    → let req : TransferDataRequest = record {
      block_sequence_counter = c;
      transfer_request_parameter_record = bytes;
    } in
      HasSent ecu
        (n + 1)
        (k + length bytes)
        region
        (process_transfer_data_response c ecu source answered
          (process_transfer_data req source ecu sent t)).active
unfolding add_block
send_one-HasSent source ecu c sent answered n k bytes t (seq, (e, (s, r))) =
    let req : TransferDataRequest = record {
      block_sequence_counter = c;
      transfer_request_parameter_record = bytes;
    } in
    let e1 = process_transfer_data_found source ecu sent t e req in
    let acked = IsGood→IsAcknowledged seq.blocks s.good in
    let e2 =
      process_transfer_data_response_found source ecu answered _ e1 c
        (acknowledge_skips c seq.blocks _ [] acked refl refl) in
    (
      _,
      (
        e2,
        (
          record {
            good = IsGood-snoc seq.blocks _ s.good refl;
            total = omega (arith, s.total, sizes-append seq.blocks _);
            count = omega (arith, s.count, length-append seq.blocks _);
            volume = omega (arith, s.volume, sizes-append seq.blocks _);
          },
          r,
        ),
      ),
    )

same-HasSent :
    (ecu : ℕ) {n m k j : ℕ} {region : FlashRegion} (active : List (ℕ × FlashSequence))
    → n ≡ m
    → k ≡ j
    → HasSent ecu n k region active
    → HasSent ecu m j region active
same-HasSent ecu {n} {m} {k} {j} {region} active p q h =
    subst (λ x. HasSent ecu x j region active) p (subst (λ y. HasSent ecu n y region active) q h)

send_all-HasSent :
    (source ecu c n k : ℕ) (ps : List Payload) {region : FlashRegion} (t : Tracker)
    → HasSent ecu n k region t.active
    → HasSent ecu (n + length ps) (k + payload_bytes ps) region (send_all source ecu ps c t).active
send_all-HasSent source ecu c n k [] t h = same-HasSent ecu _ (omega arith) (omega arith) h
send_all-HasSent source ecu c n k ((bytes, (sent, answered)) ∷ ps) t h =
    same-HasSent ecu _ (omega arith) (omega arith) (
      send_all-HasSent source ecu (next_counter c) (n + 1) (k + length bytes) ps _
        (send_one-HasSent source ecu c sent answered n k bytes t h))

abbrev pub region_of : MemoryRequest → ℕ → FlashRegion
region_of req max_length = record {
  start_address = req.memory_address;
  size = req.memory_size;
  data_format = req.data_format;
  max_block_size = max_length % 2 ^ 16;
}

abbrev begin_download : MemoryRequest → ℕ → ℕ → ℕ → ℕ → ℕ → Tracker → Tracker
begin_download req max_length source ecu n0 n1 t =
    process_request_download_response max_length ecu source n1
      (process_request_download req source ecu n0 t)

download_found :
    (req : MemoryRequest) (source ecu n0 : ℕ) (t : Tracker)
    → lookup ecu t.active ≡ none
    → lookup ecu (process_request_download req source ecu n0 t).active
      ≡ some (record (new_sequence ecu source) {
        state = downloading;
        start_time = n0;
        region = record (region_of req 0) { max_block_size = 0 };
      })
unfolding process_request_download emit_event create_sequence
download_found req source ecu n0 t e =
    rw (get_or_create_sequence_creates ecu source t e) (put_found ecu _ _)

begin_download-HasSent :
    (req : MemoryRequest) (max_length source ecu n0 n1 : ℕ) (t : Tracker)
    → lookup ecu t.active ≡ none
    → HasSent ecu 0 0
        (region_of req max_length)
        (begin_download req max_length source ecu n0 n1 t).active
unfolding process_request_download_response accept_transfer
begin_download-HasSent req max_length source ecu n0 n1 t e =
    let t1 = process_request_download req source ecu n0 t in
    let e1 = download_found req source ecu n0 t e in
    rw (accept_transfer, e1)
      (
        _,
        (
          put_found ecu _ t1,
          (record { good = tt; total = omega arith; count = refl; volume = refl }, refl),
        ),
      )

-- A download that an ECU without a sequence accepts, payloads that it acknowledges one after the
-- other, and its response to RequestTransferExit, with nothing of this ECU between them: the sequence
-- is Complete, describes the requested region, has one successful block for each payload and the
-- bytes of all of them (modulo 2^64).
pub process_transfer_exit_response_completes :
    (req : MemoryRequest) (max_length source ecu n0 n1 n2 : ℕ) (ps : List Payload) (t : Tracker)
    → lookup ecu t.active ≡ none
    → let t1 =
        process_request_download_response max_length ecu source n1
          (process_request_download req source ecu n0 t) in
      let t2 = process_transfer_exit_response ecu source n2 (send_all source ecu ps 1 t1) in
      (seq : FlashSequence) × ((lookup ecu t2.active ≡ some seq)
        × ((seq.state ≡ complete)
            × ((seq.region ≡ region_of req max_length)
                × ((successful_blocks seq ≡ length ps)
                    × (seq.total_bytes_transferred ≡ payload_bytes ps % 2 ^ 64)))))
unfolding process_transfer_exit_response emit_event complete_sequence successful_blocks
process_transfer_exit_response_completes req max_length source ecu n0 n1 n2 ps t e =
    let t1 = begin_download req max_length source ecu n0 n1 t in
    let t2 = send_all source ecu ps 1 t1 in
    let (seq, (f, (s, r))) =
      send_all-HasSent source ecu 1 0 0 ps t1
        (begin_download-HasSent req max_length source ecu n0 n1 t e) in
    rw (process_transfer_exit_response, f)
      (
        _,
        (
          put_found ecu _ _,
          (
            refl,
            (
              r,
              (
                omega (arith, successful_in-IsGood seq.blocks s.good, s.count),
                omega (arith, s.total, s.volume),
              ),
            ),
          ),
        ),
      )
