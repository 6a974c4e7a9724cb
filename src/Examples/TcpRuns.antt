-- ===== src/Examples/TcpRuns.antt =====
-- The TCP decoder and the connection tracker at concrete inputs.
use wadjet_link.Prelude.{◌≡◌, refl, List, [], ◌∷◌, true, false, leb}
use wadjet_link.Decoder.{DecodeContext, no_layer_info}
use wadjet_link.Tcp.Options.Layout.{Item, no_operation, option}
use wadjet_link.Tcp.Header.{TcpFlags, tcp_flags, TcpHeader, DecoderOptions, decode_tcp}
use wadjet_link.Tcp.Header.Bounds.{IsSafe, decode_tcp-IsSafe}
use wadjet_link.Tcp.Tracker.{
  close_wait, ConnectionKey, TcpConnection, Tracker, new_connection, next_state, may_retransmit,
  update_connection, is_retransmission, key_eq,
}
use wadjet_link.Tcp.Tracker.States.{Shown, created, packet}
use wadjet_link.Tcp.Tracker.Retransmission.{update_all, is_retransmission_iff_old}

abbrev syn_options : List Item
syn_options =
    option (record { kind = 2; body = 0x05 ∷ 0xb4 ∷ [] })
    ∷ no_operation
    ∷ option (record { kind = 4; body = [] })
    ∷ []

abbrev all_options : DecoderOptions
all_options = record { parse_options = true; validate_checksum = false }

abbrev segment : DecodeContext
segment = record {
  bytes =
      0x04 ∷ 0xd2 ∷ 0x34 ∷ 0x58 ∷ 0x00 ∷ 0x00 ∷ 0x03 ∷ 0xe8 ∷ 0x00 ∷ 0x00 ∷ 0x00 ∷ 0x00 ∷ 0x60
      ∷ 0x02 ∷ 0xff ∷ 0xff ∷ 0x00 ∷ 0x00 ∷ 0x00 ∷ 0x00 ∷ 0x02 ∷ 0x04 ∷ 0x05 ∷ 0xb4 ∷ [];
  original_offset = 34;
  timestamp = 0;
  layer_info = record no_layer_info { ip_protocol = 6 };
}

decode_tcp-IsSafe_example : IsSafe segment (decode_tcp all_options segment)
decode_tcp-IsSafe_example = decode_tcp-IsSafe all_options segment

abbrev with_flags : TcpFlags → TcpHeader
with_flags f = record {
  src_port = 1234;
  dst_port = 13400;
  seq_num = 1000;
  ack_num = 500;
  data_offset = 5;
  flags = f;
  window = 8192;
  checksum = 0;
  urgent_ptr = 0;
  options = [];
  checksum_valid = true;
}

abbrev syn_segment : TcpHeader
unfolding tcp_flags
syn_segment = with_flags (tcp_flags 2)

abbrev ack_segment : TcpHeader
unfolding tcp_flags
ack_segment = record (with_flags (tcp_flags 16)) { seq_num = 1001; ack_num = 501 }

abbrev fin_segment : TcpHeader
unfolding tcp_flags
fin_segment = record (with_flags (tcp_flags 17)) { seq_num = 1001; ack_num = 501 }

abbrev key : ConnectionKey
key = record { local_ip = 1; remote_ip = 2; local_port = 13400; remote_port = 1234 }

abbrev connected : TcpConnection
connected =
    update_connection (update_connection (new_connection key 5) syn_segment 10) ack_segment 20

abbrev connected_shown : Shown (ack_segment.flags ∷ syn_segment.flags ∷ []) connected
connected_shown = packet _ _ ack_segment 20 (packet _ _ syn_segment 10 (created key 5))

connected_may_retransmit : may_retransmit connected.state ≡ true
unfolding update_connection next_state may_retransmit syn_segment ack_segment
connected_may_retransmit = refl

connected_still_open : may_retransmit (update_connection connected ack_segment 30).state ≡ true
unfolding update_connection next_state may_retransmit syn_segment ack_segment
connected_still_open = refl

is_retransmission_iff_old_example :
    is_retransmission (update_all connected ((ack_segment, 30) ∷ [])) ack_segment
    ≡ leb ack_segment.seq_num connected.remote_seq
unfolding ack_segment
is_retransmission_iff_old_example =
    is_retransmission_iff_old connected ((ack_segment, 30) ∷ []) ack_segment (refl, tt)
      connected_still_open refl refl

abbrev no_connections : Tracker
no_connections = []

abbrev one_connection : Tracker
one_connection = (key, record connected { state = close_wait }) ∷ []
