-- ===== src/Control/Requests/Forwarding.antt =====
-- From the control API of main.go to the packets of relay/relay.go: destinations that
-- `handleUpdateDestinations` accepts are those that the relay forwards to.
use gerbil.Prelude.{
  ℕ, ◌<◌, ◌≡◌, false, some, List, arith, Text, text_eq, text_beq_iff, inl, inr, ap, sym, ◌∙◌, pos,
  length,
}
use gerbil.Table.{load, load-store}
use gerbil.Relay.Address.{UdpAddr, addr_string, contains_byte}
use gerbil.Relay.Keys.{ip_port_key-addr_string}
use gerbil.Relay.WireLaws.{Message, encode, IsWellFormed}
use gerbil.Relay.Mappings.{PeerDestination, ProxyMapping, Mappings, update_proxy_mapping}
use gerbil.Relay.Packets.{Server, World, handle_wire_guard_packet}
use gerbil.Relay.Packets.Forwarding.{Broadcasts}
use gerbil.Relay.Packets.Transport.{touched, initiation-Broadcasts}
use gerbil.Relay.Packets.Routing.{AreServed}
use gerbil.Relay.Packets.Invariant.{IsHealthy}
use gerbil.Control.Peers.{Env}
use gerbil.Control.Requests.{Api, UpdateDestinationsRequest, handle_update_destinations}
use gerbil.Control.Requests.Handlers.{stored, handle_update_destinations_lem}

-- The request names the client by its address.
abbrev pub request_of : UdpAddr → List PeerDestination → UpdateDestinationsRequest
request_of remote destinations = record {
  source_ip = remote.ip;
  source_port = pos remote.port;
  destinations = destinations;
}

load-update_proxy_mapping :
    (m : Mappings) (remote : UdpAddr) (destinations : List PeerDestination) (now : ℕ)
    → contains_byte b':' remote.ip ≡ false
    → load
        (addr_string remote)
        (update_proxy_mapping m remote.ip (pos remote.port) destinations now)
      ≡ some (record { destinations = destinations; last_used = now })
unfolding update_proxy_mapping
load-update_proxy_mapping m remote destinations now plain =
    rw ((ip_port_key-addr_string remote).1 plain) (
      ground (
        arith,
        load-store (addr_string remote) (addr_string remote)
            (record { destinations = destinations; last_used = now }) m,
        text_beq_iff (addr_string remote) (addr_string remote),
      ))

-- If handleUpdateDestinations answers 200 to a request that names a client by its IPv4 address
-- and port, then a relay with the mappings it leaves, a positive cap and a healthy state
-- broadcasts a well-formed handshake initiation of that client to the destinations of the
-- request: copies of the packet only, at most one for each, and exactly one for each if every
-- name resolves and every dial and write succeeds. What each gets, in their order, is nothing or
-- one copy on the open socket from the client to its address: what its name resolves to, or a
-- cached address of it that has not expired.
pub accepted_destinations-AreServed :
    {D : Type 0} (env : Env D) (notify_url method : Text) (now : ℕ) (api : Api D) (remote : UdpAddr)
    (destinations : List PeerDestination) (drift : ℕ) (s : Server) (w : World) (sender : ℕ)
    (rest : Text)
    → (handle_update_destinations env notify_url method now
        (some (request_of remote destinations))
        api).1
      ≡ 200
    → contains_byte b':' remote.ip ≡ false
    → s.mappings
      ≡ (handle_update_destinations env notify_url method now
          (some (request_of remote destinations))
          api).0.mappings
    → IsWellFormed (Message.initiation sender rest)
    → 0 < w.max_udp_connections
    → IsHealthy w.max_udp_connections drift s
    → let packet = encode (Message.initiation sender rest) in
      let t = handle_wire_guard_packet s w packet remote in
      let known : ProxyMapping = record { destinations = destinations; last_used = now } in
      Broadcasts s t w packet (length destinations)
      × AreServed w packet remote destinations (touched s w remote known) t
accepted_destinations-AreServed env notify_url method now api remote destinations drift s w sender
      rest ok plain shared formed pos_limit healthy =
    let request = request_of remote destinations in
    elim (handle_update_destinations_lem env notify_url now method (some request) api) [
      | inr (bad, (same, refused)) ↦ absurd (refused ok)
      | inl (good, (r, body, done)) ↦
          let r_is : request ≡ r = cc in
          let mappings : s.mappings ≡ (stored env notify_url now request api).mappings =
            shared
            ∙ ap (λ x. x.0.mappings) done
            ∙ ap (λ x. (stored env notify_url now x api).mappings) (sym r_is) in
          initiation-Broadcasts drift s w sender rest remote
            (record { destinations = destinations; last_used = now }) formed pos_limit healthy
            (ap (load (addr_string remote)) mappings
              ∙ load-update_proxy_mapping api.mappings remote destinations now plain)
    ]
