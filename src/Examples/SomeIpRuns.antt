-- ===== src/Examples/SomeIpRuns.antt =====
-- SOME/IP-TP and the SOME/IP header at concrete inputs.
use wadjet_link.Prelude.{ℕ, ◌≡◌, refl, List, [], ◌∷◌, Bool, true, false, some, arith}
use wadjet_link.Decoder.{ok, fault, DecodeContext, no_layer_info}
use wadjet_link.SomeIp.Tp.{
  SomeipTpMessage, SomeipTpSegment, TpKey, Reassembler, add_segment, get_message,
}
use wadjet_link.SomeIp.Tp.Reassembly.{Inv, add_segment-Inv, add_segment_complete}
use wadjet_link.SomeIp.Header.{DecoderOptions, decode_someip}
use wadjet_link.SomeIp.Header.Safety.{IsSafe, decode_someip-IsSafe, decode_someip_overrun}

abbrev key : TpKey
key = record { message_id = 0x12340001; request_id = 0x00010002 }

abbrev half_message : SomeipTpMessage
half_message = record {
  message_id = 0x12340001;
  request_id = 0x00010002;
  total_length = 4;
  bytes = 1 ∷ 2 ∷ 3 ∷ 4 ∷ [];
  last_update_time = 0;
}

-- The first segment of several, and one behind a gap.
abbrev first_of_many : SomeipTpSegment
first_of_many = record { offset = 0; more_segments = true }

abbrev behind_a_gap : SomeipTpSegment
behind_a_gap = record { offset = 64; more_segments = true }

add_segment-Inv_example :
    (done : Bool) × (r : Reassembler) × (add_segment key first_of_many (1 ∷ 2 ∷ []) 2 []
      ≡ ok (done, r))
    × Inv r
add_segment-Inv_example = add_segment-Inv key first_of_many (1 ∷ 2 ∷ []) 2 [] (omega arith) tt

add_segment_complete_example :
    (r : Reassembler) × (m : SomeipTpMessage) × (add_segment key behind_a_gap (1 ∷ 2 ∷ []) 2 []
      ≡ ok (true, r))
    × (get_message key r ≡ some m)
add_segment_complete_example =
    add_segment_complete key behind_a_gap (1 ∷ 2 ∷ []) 2 [] (omega arith) (omega arith)
      (omega arith) tt

abbrev defaults : DecoderOptions
defaults = record {
  validate_protocol_version = true;
  allow_invalid_version = false;
  enable_tp_reassembly = true;
}

abbrev context_of : List ℕ → DecodeContext
context_of bytes = record {
  bytes = bytes;
  original_offset = 42;
  timestamp = 0;
  layer_info = no_layer_info;
}

-- A request with a TP header and two bytes of payload, and the same that announces a kilobyte.
abbrev tp_request : ℕ → ℕ → List ℕ
tp_request hi lo =
    0x12 ∷ 0x34 ∷ 0x00 ∷ 0x01 ∷ 0x00 ∷ 0x00 ∷ hi ∷ lo ∷ 0x00 ∷ 0x01 ∷ 0x00 ∷ 0x02 ∷ 1 ∷ 1 ∷ 0x20 ∷ 0
    ∷ 1 ∷ 0 ∷ 0 ∷ 0 ∷ 0xaa ∷ 0xbb ∷ []

decode_someip-IsSafe_example :
    IsSafe (context_of (tp_request 0 14)) (decode_someip defaults (context_of (tp_request 0 14)) [])
decode_someip-IsSafe_example =
    decode_someip-IsSafe defaults (context_of (tp_request 0 14)) [] (omega arith) tt

decode_someip_overrun_example : decode_someip defaults (context_of (tp_request 4 0)) [] ≡ fault
decode_someip_overrun_example =
    decode_someip_overrun defaults (context_of (tp_request 4 0)) [] (omega arith) refl refl refl
      (omega arith) (omega arith) (omega arith)
