-- ===== src/Relay/Packets.antt =====
-- The packet path of the relay (relay/relay.go): `getCachedAddr`, `handleWireGuardPacket`, and one
-- round of `handleResponses`, over the state of `UDPProxyServer` that they read and write.
-- What leaves the process is listed: `sent` by outbound sockets, `replies` by the main listener.
-- The clock is read once for each packet. Metrics and log lines are left out.
pub mod Forwarding
pub mod Invariant
pub mod Dropped
pub mod Routing
pub mod Transport
use gerbil.Prelude.{
  ℕ, suc, ◌+◌, ◌*◌, Bool, true, false, Option, none, some, List, [], ◌∷◌, if◌then◌else◌, ltb, leb,
  ◌==◌, Text, text_eq, ℤ, length, ◌&&◌,
}
use gerbil.Table.{Table, load, store, delete}
use gerbil.Relay.Address.{UdpAddr, addr_string, ip_port_key}
use gerbil.Relay.Wire.{
  Indices, extract_wire_guard_indices, byte_at, handshake_initiation, handshake_response,
  transport_data, is_wire_guard,
}
use gerbil.Relay.Connections.{Connections, get_or_create_connection}
use gerbil.Relay.Sessions.{
  Sessions, store_client_response, store_dest_response, lookup_session, track_communication_pattern,
  minutes,
}
use gerbil.Relay.Mappings.{PeerDestination, ProxyMapping, Mappings}

pub record CachedAddr : Type 0 where
  pub addr : UdpAddr
  pub expires_at : ℕ

pub record Server : Type 0 where
  pub mappings : Mappings
  pub connections : Connections
  pub sessions : Sessions
  pub addr_cache : Table Text CachedAddr
  pub sent : List (ℕ × Text)
  pub replies : List (UdpAddr × Text)

-- What the system answers while a packet is handled: the time, `net.ResolveUDPAddr`, whether
-- `net.DialUDP` succeeds, whether a write on a socket or on the listener does.
pub record World : Type 0 where
  pub now : ℕ
  pub max_udp_connections : ℕ
  pub resolve : Text → Option UdpAddr
  pub dials : UdpAddr → Bool
  pub writes : ℕ → Bool
  pub replies_to : UdpAddr → Bool

resolve_and_cache : Option UdpAddr → Server → World → Text → Server × Option UdpAddr
resolve_and_cache none s w key = (s, none)
resolve_and_cache (some addr) s w key = (
  record s {
    addr_cache = store key (record { addr = addr; expires_at = w.now + minutes 5 }) s.addr_cache;
  },
  some addr,
)

cached_or_resolve : Option CachedAddr → Server → World → Text → Server × Option UdpAddr
unfolding resolve_and_cache
cached_or_resolve none s w key = resolve_and_cache (w.resolve key) s w key
cached_or_resolve (some entry) s w key =
    if ltb w.now entry.expires_at
    then (s, some entry.addr)
    else resolve_and_cache (w.resolve key) (record s { addr_cache = delete key s.addr_cache }) w key

pub get_cached_addr : Server → World → Text → ℤ → Server × Option UdpAddr
unfolding cached_or_resolve
get_cached_addr s w ip port =
    cached_or_resolve (load (ip_port_key ip port) s.addr_cache) s w (ip_port_key ip port)

-- conn.Write(packet)
pub write_packet : Server → World → Text → ℕ → Server
write_packet s w packet conn =
    if w.writes conn then record s { sent = (conn, packet) ∷ s.sent } else s

-- What precedes a write of transport data: `trackCommunicationPattern` from the client's side.
pub track_if : Option ℕ → Server → World → UdpAddr → UdpAddr → Server
track_if none s w remote dest = s
track_if (some receiver_index) s w remote dest = record s {
  sessions = track_communication_pattern s.sessions remote dest receiver_index true w.now;
}

forward_on : Option ℕ → Server → World → Option ℕ → Text → UdpAddr → UdpAddr → Server
unfolding write_packet track_if
forward_on none s w tracked packet remote dest = s
forward_on (some conn) s w tracked packet remote dest =
    write_packet (track_if tracked s w remote dest) w packet conn

-- A connection for the address, and the packet on it. `tracked` is the receiver index of
-- transport data.
pub forward_to : Server → World → Option ℕ → Text → UdpAddr → UdpAddr → Server
unfolding forward_on
forward_to s w tracked packet remote dest =
    let (connections, conn) =
      get_or_create_connection w.max_udp_connections s.connections dest remote w.now
        (w.dials dest) in
    forward_on conn (record s { connections = connections }) w tracked packet remote dest

forward_resolved : Option UdpAddr → Server → World → Option ℕ → Text → UdpAddr → Server
unfolding forward_to
forward_resolved none s w tracked packet remote = s
forward_resolved (some dest) s w tracked packet remote = forward_to s w tracked packet remote dest

-- One round of the loops over `proxyMapping.Destinations`.
pub forward_dest : Server → World → Option ℕ → Text → UdpAddr → PeerDestination → Server
unfolding get_cached_addr forward_resolved
forward_dest s w tracked packet remote d =
    let (s', addr) = get_cached_addr s w d.destination_ip d.destination_port in
    forward_resolved addr s' w tracked packet remote

pub forward_all : World → Option ℕ → Text → UdpAddr → List PeerDestination → Server → Server
unfolding forward_dest
forward_all w tracked packet remote [] s = s
forward_all w tracked packet remote (d ∷ ds) s =
    forward_all w tracked packet remote ds (forward_dest s w tracked packet remote d)

forward_transport :
    Option UdpAddr → Server → World → ℕ → Text → UdpAddr → List PeerDestination → Server
unfolding forward_to forward_all
forward_transport (some dest) s w receiver_index packet remote destinations =
    forward_to s w (some receiver_index) packet remote dest
forward_transport none s w receiver_index packet remote destinations =
    forward_all w (some receiver_index) packet remote destinations s

-- The switch over the message type.
dispatch : Server → World → Indices → Text → UdpAddr → List PeerDestination → Server
unfolding forward_transport
dispatch s w x packet remote destinations =
    if byte_at packet 0 == handshake_initiation
    then forward_all w none packet remote destinations s
    else if byte_at packet 0 == handshake_response
    then forward_all w none packet remote destinations (record s {
      sessions = store_client_response s.sessions x.receiver_index x.sender_index remote w.now;
    })
    else if byte_at packet 0 == transport_data
    then (let (sessions, dest) = lookup_session s.sessions x.receiver_index w.now in
        forward_transport dest (record s { sessions = sessions }) w x.receiver_index packet remote
          destinations)
    else forward_all w none packet remote destinations s

with_mapping : Option ProxyMapping → Server → World → Indices → Text → UdpAddr → Server
unfolding dispatch
with_mapping none s w x packet remote = s
with_mapping (some mapping) s w x packet remote =
    dispatch
      (record s {
        mappings = store (addr_string remote) (record mapping { last_used = w.now }) s.mappings;
      })
      w x packet remote mapping.destinations

with_indices : Option Indices → Server → World → Text → UdpAddr → Server
unfolding with_mapping
with_indices none s w packet remote = s
with_indices (some x) s w packet remote =
    with_mapping (load (addr_string remote) s.mappings) s w x packet remote

pub handle_wire_guard_packet : Server → World → Text → UdpAddr → Server
unfolding with_indices
handle_wire_guard_packet s w packet remote =
    if length packet == 0
    then s
    else with_indices (extract_wire_guard_indices packet) s w packet remote

learn : Option Indices → Server → World → Text → UdpAddr → UdpAddr → Server
learn none s w packet dest remote = s
learn (some x) s w packet dest remote =
    if byte_at packet 0 == handshake_response
    then record s {
      sessions = store_dest_response s.sessions x.receiver_index x.sender_index dest w.now;
    }
    else if byte_at packet 0 == transport_data
    then record s {
      sessions = track_communication_pattern s.sessions dest remote x.receiver_index false w.now;
    }
    else s

-- One packet read by `handleResponses` from the connection to `dest`.
pub handle_response : Server → World → Text → UdpAddr → UdpAddr → Server
unfolding learn
handle_response s w packet dest remote =
    let s' =
      if is_wire_guard packet
      then learn (extract_wire_guard_indices packet) s w packet dest remote
      else s in
    if w.replies_to remote then record s' { replies = (remote, packet) ∷ s'.replies } else s'
