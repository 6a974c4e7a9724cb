-- ===== src/Tcp/Tracker/Table.antt =====
-- The map of `TcpConnectionTracker`: its keys stay distinct, and what a clean-up leaves in it.
use wadjet_link.Prelude.{ℕ, ◌≡◌, ◌≢◌, refl, true, none, inl, inr, Option-cases, arith}
use wadjet_link.Prelude.Assoc.{lookup, lookup-insert}
use wadjet_link.Prelude.Keyed.{IsKeyed, keep_if, lookup-retain, retain-IsKeyed, insert-IsKeyed}
use wadjet_link.Tcp.Tracker.{
  ConnectionKey, key_beq_iff, key_eq, Tracker, new_connection, get_connection, stays,
  cleanup_expired,
}

-- Asked to create what is missing, `get_connection` gives a connection, which the map then holds
-- under the key: the old one where there was one, otherwise a new one. It keeps the keys distinct and
-- what is stored under the others.
pub get_connection_creates :
    (key : ConnectionKey) (now : ℕ) (t : Tracker)
    → IsKeyed t
    → let r = get_connection key true now t in
      (r.0 ≢ none)
      × ((lookup key r.1 ≡ r.0)
          × (IsKeyed r.1
              × ((other : ConnectionKey) → key ≢ other → lookup other r.1 ≡ lookup other t)))
unfolding get_connection
get_connection_creates key now t k = elim (Option-cases (lookup key t)) [
  | inl n ↦
      let conn = new_connection key now in
      rw (get_connection, n)
        (
          (λ e. cc),
          (
            ground (arith, lookup-insert key key conn t, key_beq_iff key key),
            (
              insert-IsKeyed key conn t k,
              λ other d. ground (arith, lookup-insert key other conn t, key_beq_iff key other),
            ),
          ),
        )
  | inr (conn, s) ↦ rw (get_connection, s) ((λ e. cc), (s, (k, λ other d. refl)))
]

-- A clean-up removes exactly the connections that `should_erase` names at their age in whole seconds,
-- at every key, and keeps the keys distinct.
pub lookup-cleanup_expired :
    (now : ℕ) (t : Tracker)
    → IsKeyed t
    → IsKeyed (cleanup_expired now t)
      × ((key : ConnectionKey)
          → lookup key (cleanup_expired now t) ≡ keep_if (stays now) (lookup key t))
unfolding cleanup_expired
lookup-cleanup_expired now t k =
    (retain-IsKeyed (stays now) t k, λ key. lookup-retain (stays now) key t k)
