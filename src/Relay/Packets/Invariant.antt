-- ===== src/Relay/Packets/Invariant.antt =====
-- Every packet, from a client or from a destination, keeps the relay's state sound
-- (`handleWireGuardPacket` and `handleResponses` of relay/relay.go).
use gerbil.Prelude.{
  ℕ, ◌<◌, ◌≡◌, true, false, Option, none, some, List, [], ◌∷◌, if◌then◌else◌, ◌==◌, Text, length,
  Bool-cases, inl, inr, text_eq,
}
use gerbil.Table.{store}
use gerbil.Relay.Address.{UdpAddr, addr_string}
use gerbil.Relay.Wire.{
  Indices, extract_wire_guard_indices, byte_at, handshake_initiation, handshake_response,
  transport_data, is_wire_guard,
}
use gerbil.Relay.Connections.{get_or_create_connection}
use gerbil.Relay.Connections.Creation.{IsWithin, get_or_create_connection-IsWithin}
use gerbil.Relay.Sessions.{Sessions, lookup_session, store_client_response, store_dest_response}
use gerbil.Relay.Sessions.Lookup.{IsAllocated, lookup_session-IsAllocated, put_session-IsAllocated}
use gerbil.Relay.Sessions.Clearing.{track_communication_pattern-IsAllocated}
use gerbil.Relay.Mappings.{PeerDestination, ProxyMapping}
use gerbil.Relay.Packets.Forwarding.{get_cached_addr-Same}
use gerbil.Relay.Packets.{
  Server, World, get_cached_addr, write_packet, track_if, forward_on, forward_to, forward_resolved,
  forward_dest, forward_all, forward_transport, dispatch, with_mapping, with_indices,
  handle_wire_guard_packet, learn, handle_response,
}

-- The pool of sockets is sound and within its cap, and the session maps hold valid pointers.
pub record IsHealthy (limit drift : ℕ) (s : Server) : Type 0 where
  pub pool : IsWithin limit drift s.connections
  pub sessions : IsAllocated s.sessions

-- A health-preserving change touches neither the pool nor the sessions.
pub same-IsHealthy :
    (limit drift : ℕ) (s t : Server)
    → t.connections ≡ s.connections
    → t.sessions ≡ s.sessions
    → IsHealthy limit drift s
    → IsHealthy limit drift t
same-IsHealthy limit drift s t e f h = record { pool = rw e h.pool; sessions = rw f h.sessions }

module _ (drift : ℕ) (w : World) (pos_limit : 0 < w.max_udp_connections) where
  abbrev Healthy : Server → Type 0
  Healthy = IsHealthy w.max_udp_connections drift

  write_packet-IsHealthy :
      (s : Server) (packet : Text) (conn : ℕ) → Healthy s → Healthy (write_packet s w packet conn)
  unfolding write_packet
  write_packet-IsHealthy s packet conn h = elim (Bool-cases (w.writes conn)) [
    | inl e ↦ rw e (record { pool = h.pool; sessions = h.sessions })
    | inr e ↦ rw e h
  ]

  track_if-IsHealthy :
      (t : Option ℕ) (s : Server) (remote dest : UdpAddr)
      → Healthy s
      → Healthy (track_if t s w remote dest)
  unfolding track_if
  track_if-IsHealthy none s remote dest h = h
  track_if-IsHealthy (some i) s remote dest h = record {
    pool = h.pool;
    sessions =
        track_communication_pattern-IsAllocated s.sessions remote dest i true w.now h.sessions;
  }

  forward_on-IsHealthy :
      (conn : Option ℕ) (s : Server) (t : Option ℕ) (packet : Text) (remote dest : UdpAddr)
      → Healthy s
      → Healthy (forward_on conn s w t packet remote dest)
  unfolding forward_on
  forward_on-IsHealthy none s t packet remote dest h = h
  forward_on-IsHealthy (some conn) s t packet remote dest h =
      write_packet-IsHealthy (track_if t s w remote dest) packet conn
        (track_if-IsHealthy t s remote dest h)

  forward_to-IsHealthy :
      (s : Server) (t : Option ℕ) (packet : Text) (remote dest : UdpAddr)
      → Healthy s
      → Healthy (forward_to s w t packet remote dest)
  unfolding forward_to
  forward_to-IsHealthy s t packet remote dest h =
      let r =
        get_or_create_connection w.max_udp_connections s.connections dest remote w.now
          (w.dials dest) in
      forward_on-IsHealthy r.1 (record s { connections = r.0 }) t packet remote dest
        (record {
          pool =
              get_or_create_connection-IsWithin drift w.max_udp_connections s.connections dest
                remote w.now (w.dials dest) pos_limit h.pool;
          sessions = h.sessions;
        })

  forward_resolved-IsHealthy :
      (o : Option UdpAddr) (s : Server) (t : Option ℕ) (packet : Text) (remote : UdpAddr)
      → Healthy s
      → Healthy (forward_resolved o s w t packet remote)
  unfolding forward_resolved
  forward_resolved-IsHealthy none s t packet remote h = h
  forward_resolved-IsHealthy (some dest) s t packet remote h =
      forward_to-IsHealthy s t packet remote dest h

  pub forward_dest-IsHealthy :
      (s : Server) (t : Option ℕ) (packet : Text) (remote : UdpAddr) (d : PeerDestination)
      → Healthy s
      → Healthy (forward_dest s w t packet remote d)
  unfolding forward_dest
  forward_dest-IsHealthy s t packet remote d h =
      let r = get_cached_addr s w d.destination_ip d.destination_port in
      let same = get_cached_addr-Same s w d.destination_ip d.destination_port in
      forward_resolved-IsHealthy r.1 r.0 t packet remote
        (same-IsHealthy w.max_udp_connections drift s r.0 same.connections same.sessions h)

  forward_all-IsHealthy :
      (t : Option ℕ) (packet : Text) (remote : UdpAddr) (ds : List PeerDestination) (s : Server)
      → Healthy s
      → Healthy (forward_all w t packet remote ds s)
  unfolding forward_all
  forward_all-IsHealthy t packet remote [] s h = h
  forward_all-IsHealthy t packet remote (d ∷ ds) s h =
      forward_all-IsHealthy t packet remote ds (forward_dest s w t packet remote d)
        (forward_dest-IsHealthy s t packet remote d h)

  sessions-IsHealthy :
      (s : Server) (t : Sessions) → Healthy s → IsAllocated t → Healthy (record s { sessions = t })
  sessions-IsHealthy s t h a = record { pool = h.pool; sessions = a }

  forward_transport-IsHealthy :
      (o : Option UdpAddr) (s : Server) (i : ℕ) (packet : Text) (remote : UdpAddr)
      (ds : List PeerDestination)
      → Healthy s
      → Healthy (forward_transport o s w i packet remote ds)
  unfolding forward_transport
  forward_transport-IsHealthy (some dest) s i packet remote ds h =
      forward_to-IsHealthy s (some i) packet remote dest h
  forward_transport-IsHealthy none s i packet remote ds h =
      forward_all-IsHealthy (some i) packet remote ds s h

  dispatch-IsHealthy :
      (s : Server) (x : Indices) (packet : Text) (remote : UdpAddr) (ds : List PeerDestination)
      → Healthy s
      → Healthy (dispatch s w x packet remote ds)
  unfolding dispatch store_client_response
  dispatch-IsHealthy s x packet remote ds h =
      elim (Bool-cases (byte_at packet 0 == handshake_initiation)) [
        | inl a ↦ rw a (forward_all-IsHealthy none packet remote ds s h)
        | inr a ↦ elim (Bool-cases (byte_at packet 0 == handshake_response)) [
          | inl b ↦
              rw (a, b)
                (forward_all-IsHealthy none packet remote ds
                  (record s {
                    sessions =
                        store_client_response s.sessions x.receiver_index x.sender_index remote
                          w.now;
                  })
                  (sessions-IsHealthy s _ h (put_session-IsAllocated s.sessions _ _ h.sessions)))
          | inr b ↦ elim (Bool-cases (byte_at packet 0 == transport_data)) [
            | inl c ↦
                let r = lookup_session s.sessions x.receiver_index w.now in
                rw (a, b, c)
                  (forward_transport-IsHealthy r.1 (record s { sessions = r.0 }) x.receiver_index
                    packet remote ds
                    (sessions-IsHealthy s r.0 h
                      (lookup_session-IsAllocated s.sessions x.receiver_index w.now h.sessions)))
            | inr c ↦ rw (a, b, c) (forward_all-IsHealthy none packet remote ds s h)
          ]
        ]
      ]

  with_mapping-IsHealthy :
      (o : Option ProxyMapping) (s : Server) (x : Indices) (packet : Text) (remote : UdpAddr)
      → Healthy s
      → Healthy (with_mapping o s w x packet remote)
  unfolding with_mapping
  with_mapping-IsHealthy none s x packet remote h = h
  with_mapping-IsHealthy (some m) s x packet remote h =
      dispatch-IsHealthy
        (record s {
          mappings = store (addr_string remote) (record m { last_used = w.now }) s.mappings;
        })
        x packet remote m.destinations (record { pool = h.pool; sessions = h.sessions })

  with_indices-IsHealthy :
      (o : Option Indices) (s : Server) (packet : Text) (remote : UdpAddr)
      → Healthy s
      → Healthy (with_indices o s w packet remote)
  unfolding with_indices
  with_indices-IsHealthy none s packet remote h = h
  with_indices-IsHealthy (some x) s packet remote h = with_mapping-IsHealthy _ s x packet remote h

  -- With a positive cap, handling any packet from any client keeps the state healthy: the pool
  -- stays sound and within the cap plus its drift, and every pointer of the session maps leads to
  -- a session.
  pub handle_wire_guard_packet-IsHealthy :
      (s : Server) (packet : Text) (remote : UdpAddr)
      → IsHealthy w.max_udp_connections drift s
      → IsHealthy w.max_udp_connections drift (handle_wire_guard_packet s w packet remote)
  unfolding handle_wire_guard_packet
  handle_wire_guard_packet-IsHealthy s packet remote h = elim (Bool-cases (length packet == 0)) [
    | inl e ↦ rw e h
    | inr e ↦ rw e (with_indices-IsHealthy _ s packet remote h)
  ]

  learn-IsHealthy :
      (o : Option Indices) (s : Server) (packet : Text) (dest remote : UdpAddr)
      → Healthy s
      → Healthy (learn o s w packet dest remote)
  unfolding learn store_dest_response
  learn-IsHealthy none s packet dest remote h = h
  learn-IsHealthy (some x) s packet dest remote h =
      elim (Bool-cases (byte_at packet 0 == handshake_response)) [
        | inl b ↦
            rw b (sessions-IsHealthy s _ h (put_session-IsAllocated s.sessions _ _ h.sessions))
        | inr b ↦ elim (Bool-cases (byte_at packet 0 == transport_data)) [
          | inl c ↦
              rw (b, c)
                (sessions-IsHealthy s _ h (
                  track_communication_pattern-IsAllocated s.sessions dest remote x.receiver_index
                    false w.now h.sessions))
          | inr c ↦ rw (b, c) h
        ]
      ]

  -- With a positive cap, a packet read from a destination keeps the state healthy in the same
  -- sense.
  handle_response-IsHealthy :
      (s : Server) (packet : Text) (dest remote : UdpAddr)
      → IsHealthy w.max_udp_connections drift s
      → IsHealthy w.max_udp_connections drift (handle_response s w packet dest remote)
  unfolding handle_response
  handle_response-IsHealthy s packet dest remote h =
      let learned = learn-IsHealthy (extract_wire_guard_indices packet) s packet dest remote h in
      elim (Bool-cases (is_wire_guard packet)) [
        | inl a ↦ rw a (replied _ learned)
        | inr a ↦ rw a (replied s h)
      ]
    where
      replied :
          (t : Server)
          → Healthy t
          → Healthy (
              if w.replies_to remote
              then record t { replies = (remote, packet) ∷ t.replies }
              else t)
      replied t k = elim (Bool-cases (w.replies_to remote)) [
        | inl e ↦ rw e (record { pool = k.pool; sessions = k.sessions })
        | inr e ↦ rw e k
      ]
