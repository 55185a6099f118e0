-- ===== src/Relay/Examples/Pool.antt =====
-- Runs of the socket pool of relay/relay.go, with a cap of two.
use gerbil.Prelude.{
  ℕ, ◌+◌, ◌*◌, ◌<◌, ◌≤◌, ◌≡◌, refl, take, true, some, [], ◌∷◌, arith, Text, text_eq, codes, pos,
  negsuc, ◌+ℤ◌, ◌-ℤ◌, length, itoa_ℕ, nat_eq,
}
use gerbil.Table.{load, store, delete, count_if}
use gerbil.Relay.Address.{UdpAddr, connection_key, contains_byte}
use gerbil.Relay.Keys.{IsV4Text}
use gerbil.Relay.Connections.{
  Connections, DestinationConn, get_or_create_connection, evict_lru_connection,
  cleanup_idle_connections, is_idle, remove_connection, remove_where, least_used,
}
use gerbil.Relay.Connections.Invariant.{IsSound, init, init-IsSound}
use gerbil.Relay.Connections.Creation.{IsWithin, get_or_create_connection-IsWithin}
use gerbil.Relay.Connections.Eviction.{evict_lru_connection_lem}
use gerbil.Relay.Connections.Cleanup.{cleanup_idle_connections-drift}

abbrev pub newt : UdpAddr
newt = record { ip = codes "10.0.0.7"; port = 51820 }

abbrev pub olm : UdpAddr
olm = record { ip = codes "198.51.100.4"; port = 40000 }

abbrev other_olm : UdpAddr
other_olm = record { ip = codes "198.51.100.5"; port = 40001 }

abbrev third_olm : UdpAddr
third_olm = record { ip = codes "198.51.100.6"; port = 40002 }

newt-IsV4Text : IsV4Text newt.ip
unfolding contains_byte
newt-IsV4Text = record { no_colon = refl; no_dash = refl }

olm-IsV4Text : IsV4Text olm.ip
unfolding contains_byte
olm-IsV4Text = record { no_colon = refl; no_dash = refl }

pub init-IsWithin : IsWithin 2 0 init
init-IsWithin = record { sound = init-IsSound; bounded = omega arith }

abbrev one : Connections
one = (get_or_create_connection 2 init newt olm 100 true).0

abbrev two : Connections
two = (get_or_create_connection 2 one newt other_olm 200 true).0

one-IsWithin : IsWithin 2 0 one
one-IsWithin =
    get_or_create_connection-IsWithin 0 2 init newt olm 100 true (omega arith) init-IsWithin

two-IsWithin : IsWithin 2 0 two
two-IsWithin =
    get_or_create_connection-IsWithin 0 2 one newt other_olm 200 true (omega arith) one-IsWithin

get_or_create_connection-IsWithin_example :
    IsWithin 2 0 (get_or_create_connection 2 two newt third_olm 300 true).0
get_or_create_connection-IsWithin_example =
    get_or_create_connection-IsWithin 0 2 two newt third_olm 300 true (omega arith) two-IsWithin

program : Unit {0}
unfolding get_or_create_connection connection_key itoa_ℕ load store delete evict_lru_connection
    cleanup_idle_connections count_if ◌+ℤ◌ ◌-ℤ◌ remove_where remove_connection least_used
program = tt

-- The third connection evicts the first.
two_full :
    (length two.table ≡ 2) × ((get_or_create_connection 2 two newt third_olm 300 true).1 ≡ some 2)
unfolding program
two_full = (refl, refl)

evicted : (get_or_create_connection 2 two newt third_olm 300 true).0.closed ≡ 0 ∷ []
unfolding program
evicted = refl

two_pos : 0 < length two.table
unfolding program
two_pos = omega arith

evict_lru_connection_lem_example :
    (k : Text) × (c : DestinationConn) × (load k two.table ≡ some c)
    × (evict_lru_connection two ≡ record two {
      table = delete k two.table;
      connection_count = two.connection_count -ℤ pos 1;
      closed = c.conn ∷ two.closed;
    })
    × ((i : Text) (u : DestinationConn)
        → load i (take 64 two.table) ≡ some u
        → c.last_used ≤ u.last_used)
    × (length two.table ≤ 64
        → (i : Text) (u : DestinationConn) → load i two.table ≡ some u
        → c.last_used ≤ u.last_used)
evict_lru_connection_lem_example = evict_lru_connection_lem 0 two two-IsWithin.sound two_pos

-- Five minutes and a bit later both sockets are idle.
abbrev later : ℕ
later = 300 * 1000000000 + 500

cleanup_idle_connections-drift_example :
    IsSound (0 + count_if (is_idle later) two.table) (cleanup_idle_connections two later)
cleanup_idle_connections-drift_example =
    (cleanup_idle_connections-drift 0 two later two-IsWithin.sound).0

-- The pool is empty and its count is -2.
drift_run :
    ((cleanup_idle_connections two later).table ≡ [])
    × ((cleanup_idle_connections two later).connection_count ≡ negsuc 1)
unfolding program
drift_run = (refl, refl)

abbrev drifted : Connections
drifted = cleanup_idle_connections two later

drifted-IsSound : IsSound 2 drifted
unfolding program
drifted-IsSound = cleanup_idle_connections-drift_example

abbrev three : Connections
three =
    (get_or_create_connection 2
      (get_or_create_connection 2 (get_or_create_connection 2 drifted newt olm later true).0 newt
        other_olm later true).0
      newt third_olm later true).0

-- Three sockets are open under a cap of two.
over_cap : length three.table ≡ 3
unfolding program
over_cap = refl

abbrev newt6 : UdpAddr
newt6 = record { ip = codes "fd00::7"; port = 51820 }

abbrev olm6 : UdpAddr
olm6 = record { ip = codes "2001:db8::4"; port = 40000 }
