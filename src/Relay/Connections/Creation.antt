-- ===== src/Relay/Connections/Creation.antt =====
-- `getOrCreateConnection` of relay/relay.go: it keeps the pool sound and within its cap, and the
-- socket that it returns is open and stored under the key.
use gerbil.Prelude.{
  ℕ, suc, ◌+◌, ◌≤◌, ◌<◌, ◌≡◌, inl, inr, refl, Bool, true, false, Option, none, some, [], ◌∷◌, arith,
  ◌==◌, Text, text_eq, text_beq_iff, pos, ◌+ℤ◌, lebℤ, length, Option-cases, Bool-cases,
}
use gerbil.Table.{Table, load, count_if, load-store, load-delete}
use gerbil.Table.Laws.{length-delete, length-store_new, length-store_old}
use gerbil.Relay.Address.{UdpAddr, connection_key}
use gerbil.Relay.Connections.{
  Connections, DestinationConn, make_space, create, get_found, get_or_create_connection,
}
use gerbil.Relay.Connections.Invariant.{IsSound, occurrences, created-IsSound, touched-IsSound}
use gerbil.Relay.Connections.Eviction.{evict_lru_connection-IsSound, evict_lru_connection_lem}

-- The cap that the code enforces when `connectionCount` is short by `d`.
pub record IsWithin (limit d : ℕ) (s : Connections) : Type 0 where
  pub sound : IsSound d s
  pub bounded : length s.table ≤ limit + d

below_limit :
    (d limit : ℕ) (s : Connections)
    → IsSound d s
    → lebℤ (pos limit) s.connection_count ≡ false
    → length s.table < limit + d
unfolding ◌+ℤ◌
below_limit d limit s v h = ground (arith, v.counted)

at_limit :
    (d limit : ℕ) (s : Connections)
    → IsSound d s
    → lebℤ (pos limit) s.connection_count ≡ true
    → limit + d ≤ length s.table
unfolding ◌+ℤ◌
at_limit d limit s v h = ground (arith, v.counted)

-- Making space leaves room for one more entry, and does not add the key.
make_space-IsWithin :
    (d limit : ℕ) (s : Connections)
    → 0 < limit
    → IsWithin limit d s
    → IsSound d (make_space s limit) × (length (make_space s limit).table < limit + d)
unfolding make_space
make_space-IsWithin d limit s pos_limit w =
    elim (Bool-cases (lebℤ (pos limit) s.connection_count)) [
      | inr space ↦ rw space (w.sound, below_limit d limit s w.sound space)
      | inl no_space ↦
          let reached = at_limit d limit s w.sound no_space in
          let (k, c, here, evicted, _, _) =
            evict_lru_connection_lem d s w.sound (omega (arith, reached)) in
          rw no_space (
            evict_lru_connection-IsSound d s w.sound,
            rw evicted (omega (arith, w.bounded, length-delete k c s.table w.sound.distinct here)),
          )
    ]

make_space-load-none :
    (d limit : ℕ) (s : Connections) (key : Text)
    → IsSound d s
    → 0 < limit
    → load key s.table ≡ none
    → load key (make_space s limit).table ≡ none
unfolding make_space
make_space-load-none d limit s key v pos_limit new =
    elim (Bool-cases (lebℤ (pos limit) s.connection_count)) [
      | inr space ↦ rw space new
      | inl no_space ↦
          let reached = at_limit d limit s v no_space in
          let (k, c, here, evicted, _, _) =
            evict_lru_connection_lem d s v (omega (arith, reached)) in
          rw (no_space, evicted) (ground (arith, load-delete k key s.table))
    ]

create-IsWithin :
    (d limit : ℕ) (s : Connections) (key : Text) (now : ℕ) (dials : Bool)
    → IsSound d s
    → length s.table < limit + d
    → load key s.table ≡ none
    → IsWithin limit d (create s key now dials).0
unfolding create
create-IsWithin d limit s key now true v space new = record {
  sound = created-IsSound d s v key now new;
  bounded =
      omega
        (arith, length-store_new key (record { conn = s.next_conn; last_used = now }) s.table new);
}
create-IsWithin d limit s key now false v space new = record { sound = v; bounded = omega arith }

get_found-IsWithin :
    (d limit : ℕ) (s : Connections) (key : Text) (now : ℕ) (dials : Bool)
    (o : Option DestinationConn)
    → load key s.table ≡ o
    → 0 < limit
    → IsWithin limit d s
    → IsWithin limit d (get_found o s key limit now dials).0
unfolding get_found
get_found-IsWithin d limit s key now dials (some c) e pos_limit w = record {
  sound = touched-IsSound d s w.sound key now c e;
  bounded =
      omega (arith, w.bounded, length-store_old key (record c { last_used = now }) c s.table e);
}
get_found-IsWithin d limit s key now dials none e pos_limit w =
    let (sound, space) = make_space-IsWithin d limit s pos_limit w in
    create-IsWithin d limit (make_space s limit) key now dials sound space
      (make_space-load-none d limit s key w.sound pos_limit e)

-- With a positive cap, a call of getOrCreateConnection, whether the socket is found, dialled or
-- refused, keeps the pool sound (distinct keys, connectionCount short of the number of entries by
-- the drift d, every socket either in the pool once or closed once) and its size at most the cap
-- plus d.
pub get_or_create_connection-IsWithin :
    (d limit : ℕ) (s : Connections) (dest remote : UdpAddr) (now : ℕ) (dials : Bool)
    → 0 < limit
    → IsWithin limit d s
    → IsWithin limit d (get_or_create_connection limit s dest remote now dials).0
unfolding get_or_create_connection
get_or_create_connection-IsWithin d limit s dest remote now dials pos_limit w =
    get_found-IsWithin d limit s (connection_key dest remote) now dials _ refl pos_limit w

get_found-stored :
    (limit : ℕ) (s : Connections) (key : Text) (now : ℕ) (dials : Bool) (o : Option DestinationConn)
    (n : ℕ)
    → (get_found o s key limit now dials).1 ≡ some n
    → load key (get_found o s key limit now dials).0.table
      ≡ some (record { conn = n; last_used = now })
unfolding get_found create
get_found-stored limit s key now dials (some c) n h =
    ground (arith, text_beq_iff key key, load-store key key (record c { last_used = now }) s.table)
get_found-stored limit s key now true none n h =
    let s' = make_space s limit in
    ground (
      arith,
      text_beq_iff key key,
      load-store key key (record { conn = s'.next_conn; last_used = now }) s'.table,
    )
get_found-stored limit s key now false none n h = ground arith

count_pos :
    (t : Table Text DestinationConn) (key : Text) (c : DestinationConn)
    → load key t ≡ some c
    → 1 ≤ count_if (λ k x. x.conn == c.conn) t
unfolding load count_if
count_pos [] key c h = ground arith
count_pos ((i, w) ∷ t) key c h = ground (arith, count_pos t key c)

-- No socket of a sound pool is closed.
IsSound-open :
    (d : ℕ) (s : Connections) (key : Text) (c : DestinationConn)
    → IsSound d s
    → load key s.table ≡ some c
    → occurrences c.conn s.closed ≡ 0
IsSound-open d s key c v h = ground (arith, v.accounted c.conn, count_pos s.table key c h)

-- With a positive cap and a pool that is sound and within it, a socket returned by
-- getOrCreateConnection is stored under the key of the two addresses with the present time as its
-- last use, and is not closed.
pub get_or_create_connection_open :
    (d limit : ℕ) (s : Connections) (dest remote : UdpAddr) (now : ℕ) (dials : Bool) (n : ℕ)
    → 0 < limit
    → IsWithin limit d s
    → (get_or_create_connection limit s dest remote now dials).1 ≡ some n
    → let s' = (get_or_create_connection limit s dest remote now dials).0 in
      (load (connection_key dest remote) s'.table ≡ some (record { conn = n; last_used = now }))
      × (occurrences n s'.closed ≡ 0)
unfolding get_or_create_connection
get_or_create_connection_open d limit s dest remote now dials n pos_limit w h =
    let key = connection_key dest remote in
    let stored = get_found-stored limit s key now dials (load key s.table) n h in
    let after = get_found-IsWithin d limit s key now dials _ refl pos_limit w in
    (stored, IsSound-open d _ key _ after.sound stored)

-- Below its cap the pool grows by one at a new key, and no socket is closed.
get_or_create_connection_grows :
    (d limit : ℕ) (s : Connections) (dest remote : UdpAddr) (now : ℕ)
    → IsSound d s
    → load (connection_key dest remote) s.table ≡ none
    → length s.table < limit + d
    → let s' = (get_or_create_connection limit s dest remote now true).0 in
      (length s'.table ≡ suc (length s.table)) × (s'.closed ≡ s.closed)
unfolding get_or_create_connection get_found create make_space
get_or_create_connection_grows d limit s dest remote now v new space =
    let key = connection_key dest remote in
    elim (Bool-cases (lebℤ (pos limit) s.connection_count)) [
      | inl no_space ↦ absurd (omega (arith, at_limit d limit s v no_space))
      | inr below ↦
          rw (new, get_or_create_connection, below)
            (
              length-store_new key (record { conn = s.next_conn; last_used = now }) s.table new,
              refl,
            )
    ]

-- Where DialUDP succeeds there is always a socket: the cap evicts, it does not refuse.
pub get_or_create_connection_total :
    (limit : ℕ) (s : Connections) (dest remote : UdpAddr) (now : ℕ)
    → (n : ℕ) × ((get_or_create_connection limit s dest remote now true).1 ≡ some n)
unfolding get_or_create_connection get_found create
get_or_create_connection_total limit s dest remote now =
    elim (Option-cases (load (connection_key dest remote) s.table)) [
      | inl e ↦ ((make_space s limit).next_conn, rw (e, get_or_create_connection) refl)
      | inr (c, e) ↦ (c.conn, rw (e, get_or_create_connection) refl)
    ]
