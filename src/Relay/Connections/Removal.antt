-- ===== src/Relay/Connections/Removal.antt =====
-- `removeConnection` of relay/relay.go: only the socket that is still stored under the key goes.
use gerbil.Prelude.{
  ℕ, ◌≡◌, ◌≢◌, inl, inr, refl, true, false, some, ◌∷◌, arith, ◌==◌, Text, text_eq, pos, ◌-ℤ◌,
  Option-cases, Bool-cases,
}
use gerbil.Table.{load, delete}
use gerbil.Relay.Connections.{Connections, DestinationConn, remove_connection}
use gerbil.Relay.Connections.Invariant.{IsSound, removed-IsSound}

-- A stale removal, whose key holds another socket by now or none, changes nothing and says so.
remove_connection_stale :
    (s : Connections) (key : Text) (target : DestinationConn)
    → ((c : DestinationConn) → load key s.table ≡ some c → c.conn ≢ target.conn)
    → remove_connection s key target ≡ (s, false)
unfolding remove_connection
remove_connection_stale s key target other = elim (Option-cases (load key s.table)) [
  | inl e ↦ rw (e, remove_connection) refl
  | inr (c, e) ↦ let ne = other c e in rw (e, remove_connection) (ground arith)
]

-- Otherwise the entry is gone, its socket is closed, and the other entries are as before.
pub remove_connection_current :
    (s : Connections) (key : Text) (target c : DestinationConn)
    → load key s.table ≡ some c
    → c.conn ≡ target.conn
    → remove_connection s key target ≡ (
      record s {
        table = delete key s.table;
        connection_count = s.connection_count -ℤ pos 1;
        closed = target.conn ∷ s.closed;
      },
      true,
    )
unfolding remove_connection
remove_connection_current s key target c here same = ground arith

pub remove_connection-IsSound :
    (d : ℕ) (s : Connections) (key : Text) (target : DestinationConn)
    → IsSound d s
    → IsSound d (remove_connection s key target).0
unfolding remove_connection
remove_connection-IsSound d s key target v = elim (Option-cases (load key s.table)) [
  | inl e ↦ rw (e, remove_connection) v
  | inr (c, e) ↦ elim (Bool-cases (c.conn == target.conn)) [
    | inl same ↦
        let eq : c.conn ≡ target.conn = ground arith in
        rw (e, remove_connection, same) (rw eq at (removed-IsSound d s v key c e))
    | inr other ↦ rw (e, remove_connection, other) v
  ]
]
