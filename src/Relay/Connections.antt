-- ===== src/Relay/Connections.antt =====
-- The pool of outbound UDP sockets (relay/relay.go): `getOrCreateConnection`, `removeConnection`,
-- `evictLRUConnection`, one round of `cleanupIdleConnections`, and `clearConnectionsForWGIP`.
-- A socket is named by a number that is never used again, so that `CompareAndDelete` compares
-- pointers; the closed sockets are listed. The creating mutex makes each function below one step.
pub mod Removal
pub mod Invariant
pub mod Creation
pub mod Cleanup
pub mod Eviction
use gerbil.Prelude.{
  ℕ, suc, ◌+◌, ◌*◌, ◌≡◌, Bool, true, false, Option, none, some, List, [], ◌∷◌, if◌then◌else◌, ltb,
  leb, ◌==◌, Text, text_eq, ℤ, pos, ◌+ℤ◌, ◌-ℤ◌, lebℤ, length, ◌&&◌, take,
}
use gerbil.Table.{Table, load, store, delete}
use gerbil.Relay.Address.{UdpAddr, connection_key, contains_ip}

pub record DestinationConn : Type 0 where
  pub conn : ℕ
  pub last_used : ℕ

-- `connections` and `connectionCount` of UDPProxyServer.
pub record Connections : Type 0 where
  pub table : Table Text DestinationConn
  pub connection_count : ℤ
  pub next_conn : ℕ
  pub closed : List ℕ

abbrev pub eviction_sample_size : ℕ
eviction_sample_size = 64

-- Five minutes, in nanoseconds.
abbrev idle_threshold : ℕ
idle_threshold = 5 * 60 * 1000000000

-- CompareAndDelete, and what follows it if it succeeds.
remove_found : Option DestinationConn → Connections → Text → DestinationConn → Connections × Bool
remove_found none s key target = (s, false)
remove_found (some current) s key target =
    if current.conn == target.conn
    then (
      record s {
        table = delete key s.table;
        connection_count = s.connection_count -ℤ pos 1;
        closed = target.conn ∷ s.closed;
      },
      true,
    )
    else (s, false)

unfoldable pub remove_connection : Connections → Text → DestinationConn → Connections × Bool
unfolding remove_found
remove_connection s key target = remove_found (load key s.table) s key target

-- The oldest of the entries that the scan visits; the first of them, if several are.
unfoldable pub least_used :
    Option (Text × DestinationConn) → Table Text DestinationConn → Option (Text × DestinationConn)
least_used best [] = best
least_used none ((k, v) ∷ t) = least_used (some (k, v)) t
least_used (some (j, w)) ((k, v) ∷ t) =
    least_used (if ltb v.last_used w.last_used then some (k, v) else some (j, w)) t

evict_found : Option (Text × DestinationConn) → Connections → Connections
unfolding remove_connection
evict_found none s = s
evict_found (some (k, v)) s = (remove_connection s k v).0

unfoldable pub evict_lru_connection : Connections → Connections
unfolding evict_found least_used
evict_lru_connection s = evict_found (least_used none (take eviction_sample_size s.table)) s

make_space : Connections → ℕ → Connections
unfolding evict_lru_connection
make_space s max_udp_connections =
    if lebℤ (pos max_udp_connections) s.connection_count then evict_lru_connection s else s

-- DialUDP, and the entry for the new socket. `dials` says whether the call succeeds.
create : Connections → Text → ℕ → Bool → Connections × Option ℕ
create s key now dials =
    if dials
    then (
      record s {
        table = store key (record { conn = s.next_conn; last_used = now }) s.table;
        connection_count = s.connection_count +ℤ pos 1;
        next_conn = suc s.next_conn;
      },
      some s.next_conn,
    )
    else (s, none)

get_found : Option DestinationConn → Connections → Text → ℕ → ℕ → Bool → Connections × Option ℕ
unfolding make_space create
get_found (some c) s key max_udp_connections now dials =
    (record s { table = store key (record c { last_used = now }) s.table }, some c.conn)
get_found none s key max_udp_connections now dials =
    create (make_space s max_udp_connections) key now dials

-- The result is the socket, or nothing where DialUDP fails.
unfoldable pub get_or_create_connection :
    ℕ → Connections → UdpAddr → UdpAddr → ℕ → Bool → Connections × Option ℕ
unfolding get_found
get_or_create_connection max_udp_connections s dest remote now dials =
    let key = connection_key dest remote in
    get_found (load key s.table) s key max_udp_connections now dials

-- A `Range` that calls `removeConnection` for the entries that pass a test, and counts.
unfoldable pub remove_where :
    (Text → DestinationConn → Bool) → Table Text DestinationConn → Connections → Connections × ℕ
unfolding remove_connection
remove_where test [] s = (s, 0)
remove_where test ((k, v) ∷ t) s =
    let (s', done) = if test k v then remove_connection s k v else (s, false) in
    let (s'', removed) = remove_where test t s' in (s'', if done then suc removed else removed)

-- now-destConn.lastUsed.Load() > int64(5*time.Minute)
abbrev pub is_idle : ℕ → Text → DestinationConn → Bool
is_idle now key c = ltb (c.last_used + idle_threshold) now

subtract_removed : Connections → ℕ → Connections
subtract_removed s removed =
    if ltb 0 removed then record s { connection_count = s.connection_count -ℤ pos removed } else s

-- One tick of `cleanupIdleConnections`.
unfoldable pub cleanup_idle_connections : Connections → ℕ → Connections
unfolding remove_where subtract_removed
cleanup_idle_connections s now =
    let (s', removed) = remove_where (is_idle now) s.table s in subtract_removed s' removed

pub clear_connections_for_wg_ip : Connections → Text → Connections
unfolding remove_where
clear_connections_for_wg_ip s wg_ip = (remove_where (λ key c. contains_ip key wg_ip) s.table s).0
