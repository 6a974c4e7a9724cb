-- ===== src/Tcp/Tracker.antt =====
-- `TcpConnectionTracker` of src/protocols/tcp.cpp. The map of connections is a list of keys and
-- connections, and a pointer into it is the connection, which `store` writes back. Times are
-- nanoseconds of the steady clock.
pub mod States
pub mod Retransmission
pub mod Table
use wadjet_link.Prelude.{
  ℕ, ◌-◌, ◌*◌, ◌/◌, ◌^◌, ◌≡◌, ◌↔◌, List, [], ◌∷◌, Bool, true, false, not, ◌&&◌, ◌||◌, Option, none,
  some, ltb, leb, ◌==◌, if◌then◌else◌, length, ==_iff, arith,
}
use wadjet_link.Prelude.Assoc.{Eq, lookup, insert, retain}
use wadjet_link.Tcp.Options.{TcpOption}
use wadjet_link.Tcp.Header.{TcpFlags, TcpHeader, get_mss, get_window_scale}

pub data TcpState : Type 0 where
  closed listen syn_sent syn_received established fin_wait1 fin_wait2 : TcpState
  closing time_wait close_wait last_ack : TcpState

pub record ConnectionKey : Type 0 where
  pub local_ip : ℕ
  pub remote_ip : ℕ
  pub local_port : ℕ
  pub remote_port : ℕ

-- The four fields for the addresses and the ports are the one field `key`.
pub record TcpConnection : Type 0 where
  pub state : TcpState
  pub local_seq : ℕ
  pub remote_seq : ℕ
  pub local_ack : ℕ
  pub remote_ack : ℕ
  pub key : ConnectionKey
  pub local_window : ℕ
  pub remote_window : ℕ
  pub local_window_scale : ℕ
  pub remote_window_scale : ℕ
  pub out_of_order_buffer : List ℕ
  pub last_seen : ℕ
  pub has_sack_perm : Bool
  pub remote_mss : ℕ

abbrev pub key_beq : ConnectionKey → ConnectionKey → Bool
key_beq a b =
    (a.local_ip == b.local_ip && a.remote_ip == b.remote_ip)
    && (a.local_port == b.local_port && a.remote_port == b.remote_port)

pub key_beq_iff : (a b : ConnectionKey) → (key_beq a b ≡ true) ↔ (a ≡ b)
key_beq_iff a b = ground arith

instance abbrev pub key_eq : Eq ConnectionKey
key_eq = record { beq = key_beq; beq_iff = key_beq_iff }

abbrev pub Tracker : Type 0
Tracker = List (ConnectionKey × TcpConnection)

abbrev pub new_connection : ConnectionKey → ℕ → TcpConnection
new_connection key now = record {
  state = closed;
  local_seq = 0;
  remote_seq = 0;
  local_ack = 0;
  remote_ack = 0;
  key = key;
  local_window = 65535;
  remote_window = 65535;
  local_window_scale = 0;
  remote_window_scale = 0;
  out_of_order_buffer = [];
  last_seen = now;
  has_sack_perm = false;
  remote_mss = 536;
}

abbrev pub store : ConnectionKey → TcpConnection → Tracker → Tracker
store key conn t = insert key conn t

unfoldable pub get_connection : ConnectionKey → Bool → ℕ → Tracker → Option TcpConnection × Tracker
get_connection key create_if_missing now t = elim (lookup key t) [
  | some conn ↦ (some conn, t)
  | none ↦
      if create_if_missing
      then (some (new_connection key now), insert key (new_connection key now) t)
      else (none, t)
]

-- The switch of `update_connection`.
unfoldable pub next_state : TcpState → TcpFlags → TcpState
next_state closed f = if f.syn && not f.ack then syn_received else closed
next_state listen f = if f.syn && not f.ack then syn_received else listen
next_state syn_sent f =
    if f.syn && f.ack then established else if f.syn then syn_received else syn_sent
next_state syn_received f = if f.ack && not f.syn then established else syn_received
next_state established f = if f.fin then close_wait else if f.rst then closed else established
next_state fin_wait1 f =
    if f.fin && f.ack
    then time_wait
    else if f.fin
    then closing
    else if f.ack
    then fin_wait2
    else if f.rst
    then closed
    else fin_wait1
next_state fin_wait2 f = if f.fin then time_wait else if f.rst then closed else fin_wait2
next_state closing f = if f.ack then time_wait else if f.rst then closed else closing
next_state close_wait f = if f.rst then closed else close_wait
next_state last_ack f = if f.ack then closed else if f.rst then closed else last_ack
next_state time_wait f = if f.rst then closed else time_wait

-- The loop over the options looks for kind 4.
sack_permitted : List TcpOption → Bool
sack_permitted [] = false
sack_permitted (o ∷ os) = o.kind == 4 || sack_permitted os

abbrev pub or_else : Option ℕ → ℕ → ℕ
or_else none d = d
or_else (some v) d = v

unfoldable pub update_connection : TcpConnection → TcpHeader → ℕ → TcpConnection
unfolding sack_permitted
update_connection conn h now = record conn {
  last_seen = now;
  remote_seq = if h.flags.syn then h.seq_num else conn.remote_seq;
  remote_ack = if h.flags.ack then h.ack_num else conn.remote_ack;
  remote_mss = or_else (get_mss h) conn.remote_mss;
  remote_window_scale = or_else (get_window_scale h) conn.remote_window_scale;
  has_sack_perm = sack_permitted h.options || conn.has_sack_perm;
  remote_window = h.window;
  state = next_state conn.state h.flags;
}

unfoldable pub may_retransmit : TcpState → Bool
may_retransmit established = true
may_retransmit fin_wait1 = true
may_retransmit fin_wait2 = true
may_retransmit close_wait = true
may_retransmit closing = true
may_retransmit last_ack = true
may_retransmit _ = false

unfoldable pub is_retransmission : TcpConnection → TcpHeader → Bool
is_retransmission conn h =
    if not (may_retransmit conn.state)
    then false
    else if not h.flags.syn && not h.flags.fin
    then leb h.seq_num conn.remote_seq
    else false

unfoldable pub should_erase : TcpState → ℕ → Bool
should_erase closed elapsed = true
should_erase time_wait elapsed = leb 30 elapsed
should_erase syn_sent elapsed = leb 120 elapsed
should_erase syn_received elapsed = leb 120 elapsed
should_erase _ elapsed = false

abbrev pub stays : ℕ → TcpConnection → Bool
stays now conn = not (should_erase conn.state ((now - conn.last_seen) / 10 ^ 9))

unfoldable pub cleanup_expired : ℕ → Tracker → Tracker
cleanup_expired now t = retain (stays now) t

unfoldable pub clear : Tracker → Tracker
clear t = []

unfoldable pub size : Tracker → ℕ
size t = length t
