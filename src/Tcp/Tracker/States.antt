-- ===== src/Tcp/Tracker/States.antt =====
-- The states that a connection of `TcpConnectionTracker` goes through.
use wadjet_link.Prelude.{ℕ, ◌≡◌, ◌⊎◌, List, [], ◌∷◌, Bool, true, false, not, ◌&&◌, ◌||◌}
use wadjet_link.Tcp.Header.{TcpFlags, TcpHeader}
use wadjet_link.Tcp.Tracker.{
  TcpState, closed, syn_received, established, close_wait, ConnectionKey, TcpConnection,
  new_connection, update_connection,
}

-- The segments that a connection was shown, the last one first.
pub data Shown : List TcpFlags → TcpConnection → Type 0 where
  created : (key : ConnectionKey) (now : ℕ) → Shown [] (new_connection key now)
  packet :
      (fs : List TcpFlags) (conn : TcpConnection) (h : TcpHeader) (now : ℕ)
      → Shown fs conn
      → Shown (h.flags ∷ fs) (update_connection conn h now)

-- A SYN without ACK has come, and a handshake: such a SYN, and an ACK without SYN after it.
abbrev pub HasSyn : List TcpFlags → Type 0
HasSyn [] = ⊥
HasSyn (f ∷ fs) = ((f.syn ≡ true) × (f.ack ≡ false)) ⊎ HasSyn fs

abbrev pub HasHandshake : List TcpFlags → Type 0
HasHandshake [] = ⊥
HasHandshake (f ∷ fs) = ((f.ack ≡ true) × (f.syn ≡ false) × HasSyn fs) ⊎ HasHandshake fs

-- What a state asks of the segments before it; the other states are never reached.
abbrev pub Earned : TcpState → List TcpFlags → Type 0
Earned closed fs = Unit
Earned syn_received fs = HasSyn fs
Earned established fs = HasHandshake fs
Earned close_wait fs = HasHandshake fs
Earned _ fs = ⊥

-- The segments of a connection that nobody opened, of one that waits for the end of its handshake,
-- and of one whose handshake is over and that nobody ends since.
abbrev pub unopened : List TcpFlags → Bool
unopened [] = true
unopened (f ∷ fs) = not (f.syn && not f.ack) && unopened fs

abbrev pub half_open : List TcpFlags → Bool
half_open [] = false
half_open (f ∷ fs) =
    (f.syn && not f.ack && unopened fs) || (not (f.ack && not f.syn) && half_open fs)

abbrev pub opened : List TcpFlags → Bool
opened [] = false
opened (f ∷ fs) = (f.ack && not f.syn && half_open fs) || (not (f.fin || f.rst) && opened fs)
