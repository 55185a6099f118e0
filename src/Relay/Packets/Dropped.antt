-- ===== src/Relay/Packets/Dropped.antt =====
-- The packets that `handleWireGuardPacket` of relay/relay.go drops without a trace, and those that it
-- forwards after an update of the mapping.
use gerbil.Prelude.{
  ℕ, ◌<◌, ◌≡◌, false, ◌⊎◌, inl, inr, refl, true, Option, none, some, List, ◌∷◌, ◌==◌, Text, text_eq,
  pos, length, Bool-cases, ◌∙◌,
}
use gerbil.Table.{load}
use gerbil.Relay.Address.{UdpAddr, addr_string, contains_byte}
use gerbil.Relay.Wire.{Indices, extract_wire_guard_indices, cookie_reply}
use gerbil.Relay.WireLaws.{Message, IsWellFormed, encode, cookie_reply_refused}
use gerbil.Relay.Mappings.{PeerDestination, ProxyMapping, update_proxy_mapping}
use gerbil.Relay.Mappings.Updates.{load-update_proxy_mapping, load-update_proxy_mapping_v6}
use gerbil.Relay.Packets.Forwarding.{Broadcasts}
use gerbil.Relay.Packets.Invariant.{IsHealthy}
use gerbil.Relay.Packets.Routing.{AreServed}
use gerbil.Relay.Packets.Transport.{touched, initiation-Broadcasts}
use gerbil.Relay.Packets.{Server, World, with_indices, with_mapping, handle_wire_guard_packet}

with_indices_dropped :
    (o : Option Indices) (s : Server) (w : World) (packet : Text) (remote : UdpAddr)
    → load (addr_string remote) s.mappings ≡ none
    → with_indices o s w packet remote ≡ s
unfolding with_indices with_mapping
with_indices_dropped none s w packet remote h = refl
with_indices_dropped (some x) s w packet remote h = rw h refl

-- A packet without readable indices, or from an address that has no mapping, changes nothing.
handle_wire_guard_packet_dropped :
    (s : Server) (w : World) (packet : Text) (remote : UdpAddr)
    → (extract_wire_guard_indices packet ≡ none) ⊎ (load (addr_string remote) s.mappings ≡ none)
    → handle_wire_guard_packet s w packet remote ≡ s
unfolding handle_wire_guard_packet
handle_wire_guard_packet_dropped s w packet remote h = elim (Bool-cases (length packet == 0)) [
  | inl e ↦ rw e refl
  | inr e ↦ rw e (dropped h)
]
  where
    dropped :
        (extract_wire_guard_indices packet ≡ none) ⊎ (load (addr_string remote) s.mappings ≡ none)
        → with_indices (extract_wire_guard_indices packet) s w packet remote ≡ s
    dropped (inl e) = rw (e, with_indices) refl
    dropped (inr e) = with_indices_dropped _ s w packet remote e

-- handleWireGuardPacket leaves the state as it is on every cookie reply: nothing is forwarded,
-- even for a client with a mapping.
cookie_reply_dropped :
    (s : Server) (w : World) (rest : Text) (remote : UdpAddr)
    → handle_wire_guard_packet s w (cookie_reply ∷ rest) remote ≡ s
cookie_reply_dropped s w rest remote =
    handle_wire_guard_packet_dropped s w (cookie_reply ∷ rest) remote
      (inl (cookie_reply_refused rest).1)

-- An IPv6 client stays unknown after `UpdateProxyMapping` for it: its packets are dropped.
v6_client_dropped :
    (s : Server) (w : World) (packet : Text) (remote : UdpAddr)
    (destinations : List PeerDestination) (stored_at : ℕ)
    → contains_byte b':' remote.ip ≡ true
    → load (addr_string remote) s.mappings ≡ none
    → let s' = record s {
      mappings = update_proxy_mapping s.mappings remote.ip (pos remote.port) destinations stored_at;
    } in
      handle_wire_guard_packet s' w packet remote ≡ s'
v6_client_dropped s w packet remote destinations stored_at v6 unknown =
    handle_wire_guard_packet_dropped _ w packet remote
      (inr (load-update_proxy_mapping_v6 s.mappings remote destinations stored_at v6 ∙ unknown))

-- After UpdateProxyMapping for a client that had no mapping, a well-formed handshake initiation
-- of that client changes nothing if its IP has a colon; and otherwise, with a positive cap and a
-- healthy state, it is sent as copies of the packet only, at most one for each destination of the
-- update, and exactly one for each if every name resolves and every dial and write succeeds. What
-- each gets, in their order, is nothing or one copy on the open socket from the client to its
-- address: what its name resolves to, or a cached address of it that has not expired.
pub updated_client_lem :
    (drift : ℕ) (s : Server) (w : World) (sender : ℕ) (rest : Text) (remote : UdpAddr)
    (destinations : List PeerDestination) (stored_at : ℕ)
    → IsWellFormed (Message.initiation sender rest)
    → 0 < w.max_udp_connections
    → IsHealthy w.max_udp_connections drift s
    → load (addr_string remote) s.mappings ≡ none
    → let s' = record s {
      mappings = update_proxy_mapping s.mappings remote.ip (pos remote.port) destinations stored_at;
    } in
      let packet = encode (Message.initiation sender rest) in
      let t = handle_wire_guard_packet s' w packet remote in
      let known : ProxyMapping = record { destinations = destinations; last_used = stored_at } in
      ((contains_byte b':' remote.ip ≡ true) × (t ≡ s'))
      ⊎ ((contains_byte b':' remote.ip ≡ false)
          × Broadcasts s' t w packet (length destinations)
          × AreServed w packet remote destinations (touched s' w remote known) t)
updated_client_lem drift s w sender rest remote destinations stored_at formed pos_limit h unknown =
    let s' = record s {
      mappings = update_proxy_mapping s.mappings remote.ip (pos remote.port) destinations stored_at;
    } in
    elim (Bool-cases (contains_byte b':' remote.ip)) [
      | inl v6 ↦ inl (
        v6,
        v6_client_dropped s w (encode (Message.initiation sender rest)) remote destinations
            stored_at v6 unknown,
      )
      | inr v4 ↦
          let (copies, served) =
            initiation-Broadcasts drift s' w sender rest remote
              (record { destinations = destinations; last_used = stored_at }) formed pos_limit
              (record { pool = h.pool; sessions = h.sessions })
              (load-update_proxy_mapping s.mappings remote destinations stored_at v4) in
          inr (v4, copies, served)
    ]
