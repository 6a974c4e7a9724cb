-- ===== src/SomeIp/Tp.antt =====
-- SOME/IP-TP of include/wadjet/protocols/someip.hpp and src/protocols/someip.cpp: a segment, the
-- message under reassembly and the reassembler, whose map is keyed by message and request ID.
pub mod Message
pub mod Reassembly
use wadjet_link.Prelude.{
  ℕ, ◌+◌, ◌-◌, ◌*◌, ◌%◌, ◌^◌, List, [], ◌∷◌, ◌++◌, Bool, true, false, not, ◌&&◌, Option, none, some,
  ltb, leb, ◌==◌, if◌then◌else◌, length, take, drop, replicate, ==_iff, ◌≡◌, ◌↔◌, arith,
}
use wadjet_link.Prelude.Assoc.{Eq, lookup, insert, erase, retain}
use wadjet_link.Bytes.{get_elem?}
use wadjet_link.Decoder.{Decoded, ok, err, fault, ◌>>=◌, or_fault, memcpy}

abbrev pub max_message_size : ℕ
max_message_size = 16 * 1024 * 1024

abbrev pub timeout_ms : ℕ
timeout_ms = 5000

pub record SomeipTpSegment : Type 0 where
  pub offset : ℕ
  pub more_segments : Bool

-- `SomeipTpSegment::parse`, from the bytes that the pointer reaches.
unfoldable pub parse_segment : List ℕ → Decoded SomeipTpSegment
parse_segment p = do
  b0 ← or_fault (get_elem? p 0)
  b1 ← or_fault (get_elem? p 1)
  b2 ← or_fault (get_elem? p 2)
  b3 ← or_fault (get_elem? p 3)
  ok (record {
    offset = (b1 * 2 ^ 16 + b2 * 2 ^ 8 + b3) * 4 % 2 ^ 32;
    more_segments = not (b0 % 2 == 0);
  })

pub record SomeipTpMessage : Type 0 where
  pub message_id : ℕ
  pub request_id : ℕ
  pub total_length : ℕ
  pub bytes : List ℕ
  pub last_update_time : ℕ

unfoldable pub is_complete : SomeipTpMessage → Bool
is_complete m = leb m.total_length (length m.bytes) && ltb 0 m.total_length

-- `data.resize(n)` where `n` is larger than the size.
abbrev pub grow : ℕ → List ℕ → List ℕ
grow n xs = xs ++ replicate (n - length xs) 0

-- `std::memcpy(data.data() + offset, segment, size)`
abbrev pub overwrite : ℕ → List ℕ → List ℕ → List ℕ
overwrite offset segment xs = take offset xs ++ (segment ++ drop (offset + length segment) xs)

-- `SomeipTpMessage::add_segment`, once the segment's bytes are read.
unfoldable pub write_segment : ℕ → List ℕ → SomeipTpMessage → SomeipTpMessage
write_segment offset segment m = record m {
  bytes = overwrite offset segment (grow (offset + length segment) m.bytes);
}

pub record TpKey : Type 0 where
  pub message_id : ℕ
  pub request_id : ℕ

abbrev pub tp_key_beq : TpKey → TpKey → Bool
tp_key_beq a b = a.message_id == b.message_id && a.request_id == b.request_id

pub tp_key_beq_iff : (a b : TpKey) → (tp_key_beq a b ≡ true) ↔ (a ≡ b)
tp_key_beq_iff a b = ground arith

instance abbrev pub tp_key_eq : Eq TpKey
tp_key_eq = record { beq = tp_key_beq; beq_iff = tp_key_beq_iff }

abbrev pub Reassembler : Type 0
Reassembler = List (TpKey × SomeipTpMessage)

-- The message that a segment goes to: a new one, or the old one, made longer where it must be.
abbrev pub target : TpKey → ℕ → Option SomeipTpMessage → SomeipTpMessage
target key segment_end none = record {
  message_id = key.message_id;
  request_id = key.request_id;
  total_length = segment_end;
  bytes = [];
  last_update_time = 0;
}
target key segment_end (some m) = record m {
  total_length = if ltb m.total_length segment_end then segment_end else m.total_length;
  last_update_time = 0;
}

-- `SomeipTpReassembler::add_segment`; `source` is what the data pointer can read.
unfoldable pub add_segment :
    TpKey → SomeipTpSegment → List ℕ → ℕ → Reassembler → Decoded (Bool × Reassembler)
add_segment key segment source data_size r =
    if ltb max_message_size segment.offset
    then ok (false, r)
    else if ltb max_message_size (segment.offset + data_size)
    then ok (false, r)
    else (memcpy source data_size >>= λ bytes.
        let segment_end = (segment.offset + data_size % 2 ^ 32) % 2 ^ 32 in
        let m = write_segment segment.offset bytes (target key segment_end (lookup key r)) in
        ok (is_complete m, insert key m r))

unfoldable pub get_message : TpKey → Reassembler → Option SomeipTpMessage
get_message key r = elim (lookup key r) [
  | none ↦ none
  | some m ↦ if is_complete m then some m else none
]

unfoldable pub remove_message : TpKey → Reassembler → Reassembler
remove_message key r = erase key r

abbrev pub is_live : ℕ → SomeipTpMessage → Bool
is_live now m = not (ltb m.last_update_time now && ltb timeout_ms (now - m.last_update_time))

unfoldable pub cleanup_timed_out : ℕ → Reassembler → Reassembler
cleanup_timed_out now r = retain (is_live now) r
