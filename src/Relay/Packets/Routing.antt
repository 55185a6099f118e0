-- ===== src/Relay/Packets/Routing.antt =====
-- To which addresses and on which sockets the forwarding loop of relay/relay.go sends.
use gerbil.Prelude.{
  ℕ, ◌<◌, ◌≡◌, ◌⊎◌, inl, inr, refl, true, Option, none, some, List, [], ◌∷◌, ltb, Text, text_eq,
  Bool-cases, Option-cases, ap, ◌∙◌,
}
use gerbil.Table.{load}
use gerbil.Relay.Address.{UdpAddr, connection_key, ip_port_key}
use gerbil.Relay.Connections.Invariant.{occurrences}
use gerbil.Relay.Connections.{get_or_create_connection}
use gerbil.Relay.Connections.Creation.{get_or_create_connection_open}
use gerbil.Relay.Mappings.{PeerDestination}
use gerbil.Relay.Packets.{
  Server, World, CachedAddr, get_cached_addr, cached_or_resolve, resolve_and_cache, write_packet,
  track_if, forward_on, forward_to, forward_resolved, forward_dest, forward_all,
}
use gerbil.Relay.Packets.Forwarding.{get_cached_addr-Same}
use gerbil.Relay.Packets.Invariant.{IsHealthy, same-IsHealthy, forward_dest-IsHealthy}

-- What is sent to one destination: one copy, on the open socket of the two addresses.
abbrev pub SentOnly : Server → Server → World → Text → UdpAddr → UdpAddr → Type 0
SentOnly s t w packet remote dest =
    (n : ℕ) × (t.sent ≡ (n, packet) ∷ s.sent)
    × (load (connection_key dest remote) t.connections.table
        ≡ some (record { conn = n; last_used = w.now }))
    × (occurrences n t.connections.closed ≡ 0)

-- The address of a destination: what the name resolves to, or an address that was cached for it and
-- has not expired.
abbrev IsAddressOf : Server → World → Text → UdpAddr → Type 0
IsAddressOf s w key dest =
    (w.resolve key ≡ some dest)
    ⊎ ((entry : CachedAddr) × (load key s.addr_cache ≡ some entry)
        × (entry.addr ≡ dest)
        × (ltb w.now entry.expires_at ≡ true))

-- A destination gets nothing, or one copy at its address.
abbrev IsServed : Server → Server → World → Text → UdpAddr → PeerDestination → Type 0
IsServed s t w packet remote d =
    (t.sent ≡ s.sent)
    ⊎ ((dest : UdpAddr) × IsAddressOf s w (ip_port_key d.destination_ip d.destination_port) dest
        × SentOnly s t w packet remote dest)

-- The destinations are served one after the other, and nothing else is sent.
pub AreServed : World → Text → UdpAddr → List PeerDestination → Server → Server → Type 0
AreServed w packet remote [] s t = t.sent ≡ s.sent
AreServed w packet remote (d ∷ ds) s t =
    let s' = forward_dest s w none packet remote d in
    IsServed s s' w packet remote d × AreServed w packet remote ds s' t

resolve_and_cache-some :
    (o : Option UdpAddr) (s : Server) (w : World) (key : Text) (dest : UdpAddr)
    → (resolve_and_cache o s w key).1 ≡ some dest
    → o ≡ some dest
unfolding resolve_and_cache
resolve_and_cache-some none s w key dest e = absurd (cc)
resolve_and_cache-some (some a) s w key dest e = e

cached_or_resolve-IsAddressOf :
    (s : Server) (w : World) (key : Text) (dest : UdpAddr)
    → (cached_or_resolve (load key s.addr_cache) s w key).1 ≡ some dest
    → IsAddressOf s w key dest
unfolding cached_or_resolve
cached_or_resolve-IsAddressOf s w key dest e = elim (Option-cases (load key s.addr_cache)) [
  | inl missing ↦ inl (resolve_and_cache-some (w.resolve key) _ w key dest (rw missing at e))
  | inr (entry, cached) ↦ elim (Bool-cases (ltb w.now entry.expires_at)) [
    | inl fresh ↦ inr (entry, cached, cc (rw (cached, fresh) at e), fresh)
    | inr old ↦ inl (resolve_and_cache-some (w.resolve key) _ w key dest (rw (cached, old) at e))
  ]
]

pub track_if_frame :
    (t : Option ℕ) (s : Server) (w : World) (remote dest : UdpAddr)
    → ((track_if t s w remote dest).sent ≡ s.sent)
      × ((track_if t s w remote dest).connections ≡ s.connections)
unfolding track_if
track_if_frame none s w remote dest = (refl, refl)
track_if_frame (some i) s w remote dest = (refl, refl)

module _ (drift : ℕ) (w : World) (pos_limit : 0 < w.max_udp_connections) where
  abbrev Healthy : Server → Type 0
  Healthy s = IsHealthy w.max_udp_connections drift s

  -- A packet for an address is lost, or sent on its socket.
  forward_to-SentOnly :
      (s : Server) (t : Option ℕ) (packet : Text) (remote dest : UdpAddr)
      → Healthy s
      → let s' = forward_to s w t packet remote dest in
        (s'.sent ≡ s.sent) ⊎ SentOnly s s' w packet remote dest
  unfolding forward_to forward_on write_packet
  forward_to-SentOnly s t packet remote dest h =
      let r =
        get_or_create_connection w.max_udp_connections s.connections dest remote w.now
          (w.dials dest) in
      elim (Option-cases r.1) [
        | inl failed ↦ rw failed (inl refl)
        | inr (n, got) ↦
            let (stored, open_socket) =
              get_or_create_connection_open drift w.max_udp_connections s.connections dest remote
                w.now (w.dials dest) n pos_limit h.pool got in
            let after = record s { connections = r.0 } in
            let (same_sent, same_pool) = track_if_frame t after w remote dest in
            elim (Bool-cases (w.writes n)) [
              | inr lost ↦ rw (got, forward_on, lost) (inl same_sent)
              | inl written ↦
                  rw (got, forward_on, written)
                    (inr (
                      n,
                      ap (λ l. (n, packet) ∷ l) same_sent,
                      rw same_pool stored,
                      rw same_pool open_socket,
                    ))
            ]
      ]

  forward_resolved-IsServed :
      (o : Option UdpAddr) (s u : Server) (t : Option ℕ) (packet : Text) (remote : UdpAddr)
      (d : PeerDestination)
      → Healthy u
      → u.sent ≡ s.sent
      → ((dest : UdpAddr)
          → o ≡ some dest
          → IsAddressOf s w (ip_port_key d.destination_ip d.destination_port) dest)
      → IsServed s (forward_resolved o u w t packet remote) w packet remote d
  unfolding forward_resolved
  forward_resolved-IsServed none s u t packet remote d h same found = inl same
  forward_resolved-IsServed (some dest) s u t packet remote d h same found =
      elim (forward_to-SentOnly u t packet remote dest h) [
        | inl lost ↦ inl (lost ∙ same)
        | inr (n, added, stored, open_socket) ↦ inr (
          dest,
          found dest refl,
          (n, added ∙ ap (λ l. (n, packet) ∷ l) same, stored, open_socket),
        )
      ]

  forward_dest-IsServed :
      (s : Server) (t : Option ℕ) (packet : Text) (remote : UdpAddr) (d : PeerDestination)
      → Healthy s
      → IsServed s (forward_dest s w t packet remote d) w packet remote d
  unfolding forward_dest get_cached_addr
  forward_dest-IsServed s t packet remote d h =
      let key = ip_port_key d.destination_ip d.destination_port in
      let r = get_cached_addr s w d.destination_ip d.destination_port in
      let same = get_cached_addr-Same s w d.destination_ip d.destination_port in
      forward_resolved-IsServed r.1 s r.0 t packet remote d
        (same-IsHealthy w.max_udp_connections drift s r.0 same.connections same.sessions h)
        same.sent (cached_or_resolve-IsAddressOf s w key)

  pub forward_all-AreServed :
      (packet : Text) (remote : UdpAddr) (ds : List PeerDestination) (s : Server)
      → Healthy s
      → AreServed w packet remote ds s (forward_all w none packet remote ds s)
  unfolding forward_all AreServed
  forward_all-AreServed packet remote [] s h = refl
  forward_all-AreServed packet remote (d ∷ ds) s h = (
    forward_dest-IsServed s none packet remote d h,
    forward_all-AreServed packet remote ds (forward_dest s w none packet remote d)
        (forward_dest-IsHealthy drift w pos_limit s none packet remote d h),
  )
