-- ===== src/Relay/Packets/Transport.antt =====
-- Where `handleWireGuardPacket` of relay/relay.go sends what: handshakes to every destination of
-- the mapping, transport data to the peer of its session alone.
use gerbil.Prelude.{
  ℕ, ◌<◌, ◌≡◌, refl, true, false, Option, none, some, ◌∷◌, arith, ◌==◌, ==_iff, Text, text_eq,
  length, ◌∙◌, ap,
}
use gerbil.Table.{load, store}
use gerbil.Relay.Address.{UdpAddr, addr_string}
use gerbil.Relay.Wire.{
  Indices, extract_wire_guard_indices, byte_at, is_wire_guard, handshake_initiation,
  handshake_response, transport_data,
}
use gerbil.Relay.WireLaws.{Message, IsWellFormed, encode, extract-encode, indices}
use gerbil.Relay.Connections.{get_or_create_connection}
use gerbil.Relay.Connections.Creation.{
  IsWithin, get_or_create_connection_open, get_or_create_connection_total,
}
use gerbil.Relay.Sessions.{lookup_session, store_dest_response}
use gerbil.Relay.Sessions.Lookup.{lookup-put_session, put_session-IsAllocated}
use gerbil.Relay.Mappings.{ProxyMapping}
use gerbil.Relay.Packets.{
  Server, World, forward_to, forward_on, write_packet, forward_transport, dispatch, with_mapping,
  with_indices, handle_wire_guard_packet, handle_response, learn,
}
use gerbil.Relay.Packets.Forwarding.{Broadcasts, forward_all-Broadcasts}
use gerbil.Relay.Packets.Invariant.{IsHealthy}
use gerbil.Relay.Packets.Routing.{SentOnly, AreServed, forward_all-AreServed, track_if_frame}

readable_not_empty :
    (packet : Text) (x : Indices)
    → extract_wire_guard_indices packet ≡ some x
    → (length packet == 0) ≡ false
unfolding extract_wire_guard_indices
readable_not_empty packet x h = ground arith

-- The state of the switch: the client's mapping is marked as used.
abbrev pub touched : Server → World → UdpAddr → ProxyMapping → Server
touched s w remote mapping = record s {
  mappings = store (addr_string remote) (record mapping { last_used = w.now }) s.mappings;
}

-- A readable packet of a known client reaches the switch.
handle-readable :
    (s : Server) (w : World) (packet : Text) (x : Indices) (remote : UdpAddr)
    (mapping : ProxyMapping)
    → extract_wire_guard_indices packet ≡ some x
    → load (addr_string remote) s.mappings ≡ some mapping
    → handle_wire_guard_packet s w packet remote
      ≡ dispatch (touched s w remote mapping) w x packet remote mapping.destinations
unfolding handle_wire_guard_packet with_indices with_mapping
handle-readable s w packet x remote mapping readable known =
    rw (readable_not_empty packet x readable, readable, known) refl

initiation_type :
    (i : ℕ) (rest : Text)
    → (byte_at (encode (Message.initiation i rest)) 0 == handshake_initiation) ≡ true
unfolding encode byte_at
initiation_type i rest = refl

-- A handshake initiation of a client with a mapping is sent as copies of the packet only.
initiation_copies :
    (s : Server) (w : World) (sender : ℕ) (rest : Text) (remote : UdpAddr) (mapping : ProxyMapping)
    → IsWellFormed (Message.initiation sender rest)
    → load (addr_string remote) s.mappings ≡ some mapping
    → let packet = encode (Message.initiation sender rest) in
      Broadcasts s
        (handle_wire_guard_packet s w packet remote)
        w
        packet
        (length mapping.destinations)
unfolding dispatch
initiation_copies s w sender rest remote mapping f known =
    let m = Message.initiation sender rest in
    let sent =
      forward_all-Broadcasts w none (encode m) remote mapping.destinations
        (touched s w remote mapping) in
    rw
      (
        handle-readable s w (encode m) (indices m) remote mapping (extract-encode m f) known,
        dispatch,
        initiation_type sender rest,
      )
      (record {
        copies = sent.copies;
        added = sent.added;
        faithful = sent.faithful;
        bounded = sent.bounded;
        complete = sent.complete;
      })

-- With a positive cap and a healthy state, a well-formed handshake initiation of a client with a
-- mapping is sent as copies of the packet only, at most one for each destination of the mapping,
-- and exactly one for each if every name resolves and every dial and write succeeds. What each
-- gets, in their order, is nothing or one copy on the open socket from the client to its address:
-- what its name resolves to, or a cached address of it that has not expired.
pub initiation-Broadcasts :
    (drift : ℕ) (s : Server) (w : World) (sender : ℕ) (rest : Text) (remote : UdpAddr)
    (mapping : ProxyMapping)
    → IsWellFormed (Message.initiation sender rest)
    → 0 < w.max_udp_connections
    → IsHealthy w.max_udp_connections drift s
    → load (addr_string remote) s.mappings ≡ some mapping
    → let packet = encode (Message.initiation sender rest) in
      let t = handle_wire_guard_packet s w packet remote in
      Broadcasts s t w packet (length mapping.destinations)
      × AreServed w packet remote mapping.destinations (touched s w remote mapping) t
unfolding dispatch
initiation-Broadcasts drift s w sender rest remote mapping f pos_limit h known = (
  initiation_copies s w sender rest remote mapping f known,
  (let m = Message.initiation sender rest in
      rw
        (
          handle-readable s w (encode m) (indices m) remote mapping (extract-encode m f) known,
          dispatch,
          initiation_type sender rest,
        )
        (forward_all-AreServed drift w pos_limit (encode m) remote mapping.destinations
          (touched s w remote mapping) (record { pool = h.pool; sessions = h.sessions }))),
)

transport_type :
    (i : ℕ) (rest : Text)
    → ((byte_at (encode (Message.transport i rest)) 0 == handshake_initiation) ≡ false)
      × ((byte_at (encode (Message.transport i rest)) 0 == handshake_response) ≡ false)
      × ((byte_at (encode (Message.transport i rest)) 0 == transport_data) ≡ true)
unfolding encode byte_at
transport_type i rest = (refl, refl, refl)

forward_to-sends :
    (drift : ℕ) (s : Server) (w : World) (t : Option ℕ) (packet : Text) (remote dest : UdpAddr)
    → 0 < w.max_udp_connections
    → IsWithin w.max_udp_connections drift s.connections
    → w.dials dest ≡ true
    → ((n : ℕ) → w.writes n ≡ true)
    → SentOnly s (forward_to s w t packet remote dest) w packet remote dest
unfolding forward_to forward_on write_packet
forward_to-sends drift s w t packet remote dest pos_limit pool dials writes =
    let (n, got) =
      get_or_create_connection_total w.max_udp_connections s.connections dest remote w.now in
    let (stored, open_socket) =
      get_or_create_connection_open drift w.max_udp_connections s.connections dest remote w.now true
        n pos_limit pool got in
    let after = record s {
      connections =
          (get_or_create_connection w.max_udp_connections s.connections dest remote w.now true).0;
    } in
    let (same_sent, same_pool) = track_if_frame t after w remote dest in
    rw (dials, got, forward_on, writes n)
      (n, ap (λ l. (n, packet) ∷ l) same_sent, rw same_pool stored, rw same_pool open_socket)

-- Transport data whose receiver index leads to a destination goes there and nowhere else.
transport_to_session :
    (drift : ℕ) (s : Server) (w : World) (receiver : ℕ) (rest : Text) (remote dest : UdpAddr)
    (mapping : ProxyMapping)
    → IsWellFormed (Message.transport receiver rest)
    → 0 < w.max_udp_connections
    → IsHealthy w.max_udp_connections drift s
    → load (addr_string remote) s.mappings ≡ some mapping
    → (lookup_session s.sessions receiver w.now).1 ≡ some dest
    → w.dials dest ≡ true
    → ((n : ℕ) → w.writes n ≡ true)
    → let packet = encode (Message.transport receiver rest) in
      SentOnly s (handle_wire_guard_packet s w packet remote) w packet remote dest
unfolding dispatch forward_transport
transport_to_session drift s w receiver rest remote dest mapping f pos_limit h known session dials
      writes =
    let m = Message.transport receiver rest in
    let (not_initiation, not_response, is_transport) = transport_type receiver rest in
    rw
      (
        handle-readable s w (encode m) (indices m) remote mapping (extract-encode m f) known,
        dispatch,
        not_initiation,
        not_response,
        is_transport,
        session,
      )
      (forward_to-sends drift
        (record (touched s w remote mapping) {
          sessions = (lookup_session s.sessions receiver w.now).0;
        })
        w (some receiver) (encode m) remote dest pos_limit h.pool dials writes)

response_type :
    (i j : ℕ) (rest : Text)
    → (is_wire_guard (encode (Message.response i j rest)) ≡ true)
      × ((byte_at (encode (Message.response i j rest)) 0 == handshake_response) ≡ true)
unfolding encode byte_at is_wire_guard
response_type i j rest = (ground arith, refl)

-- A destination's handshake response stores its session and leaves the rest to the reply.
response_learnt :
    (s : Server) (w : World) (sender receiver : ℕ) (rest : Text) (dest remote : UdpAddr)
    → IsWellFormed (Message.response sender receiver rest)
    → let t = handle_response s w (encode (Message.response sender receiver rest)) dest remote in
      (t.sessions ≡ store_dest_response s.sessions receiver sender dest w.now)
      × (t.mappings ≡ s.mappings)
      × (t.connections ≡ s.connections)
      × (t.sent ≡ s.sent)
unfolding handle_response learn
response_learnt s w sender receiver rest dest remote f =
    let m = Message.response sender receiver rest in
    let (wire_guard, response) = response_type sender receiver rest in
    rw (wire_guard, extract-encode m f, learn, response) (ground arith)

-- When a destination has answered a handshake with sender index i, the next transport packet that
-- a client with a mapping sends with receiver index i leaves as exactly one copy, on the open
-- socket from the client to that destination, and nothing else is sent. The conditions: both
-- packets are well formed, the cap is positive, the state before is healthy, and dialling and
-- writing succeed.
pub transport_after_response :
    (drift : ℕ) (s : Server) (w later : World) (sender receiver : ℕ) (rest data_rest : Text)
    (dest answered remote : UdpAddr) (mapping : ProxyMapping)
    → IsWellFormed (Message.response sender receiver rest)
    → IsWellFormed (Message.transport sender data_rest)
    → 0 < later.max_udp_connections
    → IsHealthy later.max_udp_connections drift s
    → load (addr_string remote) s.mappings ≡ some mapping
    → later.dials dest ≡ true
    → ((n : ℕ) → later.writes n ≡ true)
    → let s' = handle_response s w (encode (Message.response sender receiver rest)) dest answered in
      let packet = encode (Message.transport sender data_rest) in
      SentOnly s (handle_wire_guard_packet s' later packet remote) later packet remote dest
unfolding store_dest_response
transport_after_response drift s w later sender receiver rest data_rest dest answered remote mapping
      f g pos_limit h known dials writes =
    let s' = handle_response s w (encode (Message.response sender receiver rest)) dest answered in
    let (learnt, mappings, pool, sent) = response_learnt s w sender receiver rest dest answered f in
    let (n, e, stored, open_socket) =
      transport_to_session drift s' later sender data_rest remote dest mapping g pos_limit
        (record {
          pool = rw pool h.pool;
          sessions = rw learnt (put_session-IsAllocated s.sessions _ _ h.sessions);
        })
        (rw mappings known)
        (rw learnt (
          lookup-put_session s.sessions _ _ sender later.now h.sessions
          ∙ ground (arith, ==_iff sender sender)))
        dials writes in
    (
      n,
      e ∙ ap (λ l. (n, encode (Message.transport sender data_rest)) ∷ l) sent,
      stored,
      open_socket,
    )
