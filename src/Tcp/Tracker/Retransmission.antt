-- ===== src/Tcp/Tracker/Retransmission.antt =====
-- What `TcpConnectionTracker::is_retransmission` tells of a segment.
use wadjet_link.Prelude.{ℕ, ◌≡◌, ◌∙◌, refl, List, [], ◌∷◌, true, false, leb}
use wadjet_link.Tcp.Header.{TcpHeader}
use wadjet_link.Tcp.Tracker.{TcpConnection, may_retransmit, update_connection, is_retransmission}

-- A connection after the segments, which are in the order of arrival.
abbrev pub update_all : TcpConnection → List (TcpHeader × ℕ) → TcpConnection
update_all conn [] = conn
update_all conn ((h, now) ∷ rest) = update_all (update_connection conn h now) rest

abbrev pub HasNoSyn : List (TcpHeader × ℕ) → Type 0
HasNoSyn [] = Unit
HasNoSyn ((h, now) ∷ rest) = (h.flags.syn ≡ false) × HasNoSyn rest

update_all-remote_seq :
    (conn : TcpConnection) (segments : List (TcpHeader × ℕ))
    → HasNoSyn segments
    → (update_all conn segments).remote_seq ≡ conn.remote_seq
unfolding update_connection
update_all-remote_seq conn [] n = refl
update_all-remote_seq conn ((h, now) ∷ rest) n =
    update_all-remote_seq (update_connection conn h now) rest n.1 ∙ rw n.0 refl

-- After any segments without SYN a data segment (neither SYN nor FIN) on a connection in a state that
-- exchanges data is called a retransmission exactly when its sequence number is at most the
-- connection's `remote_seq` from before those segments: data that was seen never counts.
pub is_retransmission_iff_old :
    (conn : TcpConnection) (segments : List (TcpHeader × ℕ)) (h : TcpHeader)
    → HasNoSyn segments
    → may_retransmit (update_all conn segments).state ≡ true
    → h.flags.syn ≡ false
    → h.flags.fin ≡ false
    → is_retransmission (update_all conn segments) h ≡ leb h.seq_num conn.remote_seq
unfolding is_retransmission
is_retransmission_iff_old conn segments h n s y f =
    rw (s, y, f, update_all-remote_seq conn segments n) refl
