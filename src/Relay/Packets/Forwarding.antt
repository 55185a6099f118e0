-- ===== src/Relay/Packets/Forwarding.antt =====
-- What the forwarding loops of relay/relay.go send, and which parts of the state they leave alone.
use mathlib.Core.List.{append_assoc}
use gerbil.Prelude.{
  sym, length-append, ℕ, ◌≤◌, ◌≡◌, refl, true, Option, none, some, List, [], ◌∷◌, ◌++◌, arith, ltb,
  Text, ℤ, length, All, Bool-cases, Option-cases, ◌⊎◌, inl, inr, ap, ◌∙◌, text_eq,
}
use gerbil.Table.{load, delete}
use gerbil.Relay.Address.{UdpAddr, ip_port_key}
use gerbil.Relay.Connections.{get_or_create_connection}
use gerbil.Relay.Connections.Creation.{get_or_create_connection_total}
use gerbil.Relay.Mappings.{PeerDestination}
use gerbil.Relay.Packets.{
  Server, World, CachedAddr, get_cached_addr, cached_or_resolve, resolve_and_cache, write_packet,
  track_if, forward_on, forward_to, forward_resolved, forward_dest, forward_all,
}

-- Resolving an address changes the address cache only.
pub record Same (s t : Server) : Type 0 where
  pub connections : t.connections ≡ s.connections
  pub sessions : t.sessions ≡ s.sessions
  pub sent : t.sent ≡ s.sent

resolve_and_cache-Same :
    (o : Option UdpAddr) (s : Server) (w : World) (key : Text)
    → Same s (resolve_and_cache o s w key).0
unfolding resolve_and_cache
resolve_and_cache-Same none s w key = ground arith
resolve_and_cache-Same (some addr) s w key = ground arith

cached_or_resolve-Same :
    (o : Option CachedAddr) (s : Server) (w : World) (key : Text)
    → Same s (cached_or_resolve o s w key).0
unfolding cached_or_resolve
cached_or_resolve-Same none s w key = resolve_and_cache-Same (w.resolve key) s w key
cached_or_resolve-Same (some entry) s w key = elim (Bool-cases (ltb w.now entry.expires_at)) [
  | inl e ↦ rw e (ground arith)
  | inr e ↦
      let r =
        resolve_and_cache-Same (w.resolve key) (record s { addr_cache = delete key s.addr_cache }) w
          key in
      rw e (record { connections = r.connections; sessions = r.sessions; sent = r.sent })
]

pub get_cached_addr-Same :
    (s : Server) (w : World) (ip : Text) (port : ℤ) → Same s (get_cached_addr s w ip port).0
unfolding get_cached_addr
get_cached_addr-Same s w ip port =
    cached_or_resolve-Same (load (ip_port_key ip port) s.addr_cache) s w (ip_port_key ip port)

-- Every name resolves, every dial and every write succeeds.
pub record Succeeds (w : World) : Type 0 where
  pub resolves : (key : Text) → (a : UdpAddr) × (w.resolve key ≡ some a)
  pub dials : (a : UdpAddr) → w.dials a ≡ true
  pub writes : (n : ℕ) → w.writes n ≡ true

cached_or_resolve_total :
    (o : Option CachedAddr) (s : Server) (w : World) (key : Text)
    → Succeeds w
    → (a : UdpAddr) × ((cached_or_resolve o s w key).1 ≡ some a)
unfolding cached_or_resolve resolve_and_cache
cached_or_resolve_total none s w key ok = let (a, e) = ok.resolves key in (a, rw e refl)
cached_or_resolve_total (some entry) s w key ok = elim (Bool-cases (ltb w.now entry.expires_at)) [
  | inl e ↦ (entry.addr, rw e refl)
  | inr e ↦ let (a, f) = ok.resolves key in (a, rw (e, f) refl)
]

get_cached_addr_total :
    (s : Server) (w : World) (ip : Text) (port : ℤ)
    → Succeeds w
    → (a : UdpAddr) × ((get_cached_addr s w ip port).1 ≡ some a)
unfolding get_cached_addr
get_cached_addr_total s w ip port ok = cached_or_resolve_total _ s w (ip_port_key ip port) ok

-- At most one copy of the packet is sent, and exactly one where all succeeds.
abbrev SendsAtMostOne : Server → Server → World → Text → Type 0
SendsAtMostOne s t w packet =
    (((t.sent ≡ s.sent) × (Succeeds w → ⊥)) ⊎ ((n : ℕ) × (t.sent ≡ (n, packet) ∷ s.sent)))

track_if-sent :
    (t : Option ℕ) (s : Server) (w : World) (remote dest : UdpAddr)
    → (track_if t s w remote dest).sent ≡ s.sent
unfolding track_if
track_if-sent none s w remote dest = refl
track_if-sent (some i) s w remote dest = refl

forward_on-sent :
    (n : ℕ) (s : Server) (w : World) (t : Option ℕ) (packet : Text) (remote dest : UdpAddr)
    → SendsAtMostOne s (forward_on (some n) s w t packet remote dest) w packet
unfolding forward_on write_packet
forward_on-sent n s w t packet remote dest = elim (Bool-cases (w.writes n)) [
  | inl e ↦ rw e (inr (n, ap (λ l. (n, packet) ∷ l) (track_if-sent t s w remote dest)))
  | inr e ↦ rw e (inl (track_if-sent t s w remote dest, λ ok. cc (ok.writes n)))
]

forward_to-sent :
    (s : Server) (w : World) (t : Option ℕ) (packet : Text) (remote dest : UdpAddr)
    → SendsAtMostOne s (forward_to s w t packet remote dest) w packet
unfolding forward_to
forward_to-sent s w t packet remote dest =
    let r =
      get_or_create_connection w.max_udp_connections s.connections dest remote w.now
        (w.dials dest) in
    elim (Option-cases r.1) [
      | inl e ↦ rw e (
          inl (
            refl,
            λ ok.
                let (n, f) =
                  get_or_create_connection_total w.max_udp_connections s.connections dest remote
                    w.now in
                cc (rw (ok.dials dest) at e, f),
          ))
      | inr (n, e) ↦
          rw e (forward_on-sent n (record s { connections = r.0 }) w t packet remote dest)
    ]

forward_resolved-sent :
    (o : Option UdpAddr) (s : Server) (w : World) (t : Option ℕ) (packet : Text) (remote : UdpAddr)
    → (Succeeds w → (a : UdpAddr) × (o ≡ some a))
    → SendsAtMostOne s (forward_resolved o s w t packet remote) w packet
unfolding forward_resolved
forward_resolved-sent none s w t packet remote h = inl (refl, λ ok. cc ((h ok).1))
forward_resolved-sent (some dest) s w t packet remote h = forward_to-sent s w t packet remote dest

forward_dest-sent :
    (s : Server) (w : World) (t : Option ℕ) (packet : Text) (remote : UdpAddr) (d : PeerDestination)
    → SendsAtMostOne s (forward_dest s w t packet remote d) w packet
unfolding forward_dest
forward_dest-sent s w t packet remote d =
    let r = get_cached_addr s w d.destination_ip d.destination_port in
    let same = get_cached_addr-Same s w d.destination_ip d.destination_port in
    rw same.sent at (
      forward_resolved-sent r.1 r.0 w t packet remote
        (get_cached_addr_total s w d.destination_ip d.destination_port))

abbrev IsCopy : Text → ℕ × Text → Type 0
IsCopy packet x = x.1 ≡ packet

-- What a broadcast to `n` destinations adds: copies of the packet, at most one for each, and
-- exactly one for each where every call succeeds.
pub record Broadcasts (s t : Server) (w : World) (packet : Text) (n : ℕ) : Type 0 where
  pub copies : List (ℕ × Text)
  pub added : t.sent ≡ copies ++ s.sent
  pub faithful : All (IsCopy packet) copies
  pub bounded : length copies ≤ n
  pub complete : Succeeds w → length copies ≡ n

copies-append :
    (packet : Text) (xs : List (ℕ × Text)) (n : ℕ)
    → All (IsCopy packet) xs
    → All (IsCopy packet) (xs ++ (n, packet) ∷ [])
copies-append packet [] n h = (refl, tt)
copies-append packet (x ∷ xs) n h = (h.0, copies-append packet xs n h.1)

pub forward_all-Broadcasts :
    (w : World) (t : Option ℕ) (packet : Text) (remote : UdpAddr) (ds : List PeerDestination)
    (s : Server)
    → Broadcasts s (forward_all w t packet remote ds s) w packet (length ds)
unfolding forward_all
forward_all-Broadcasts w t packet remote [] s = record {
  copies = [];
  added = refl;
  faithful = tt;
  bounded = omega arith;
  complete = λ ok. refl;
}
forward_all-Broadcasts w t packet remote (d ∷ ds) s =
    let rest = forward_all-Broadcasts w t packet remote ds (forward_dest s w t packet remote d) in
    joined rest (forward_dest-sent s w t packet remote d)
  where
    joined :
        Broadcasts
          (forward_dest s w t packet remote d)
          (forward_all w t packet remote ds (forward_dest s w t packet remote d))
          w
          packet
          (length ds)
        → SendsAtMostOne s (forward_dest s w t packet remote d) w packet
        → Broadcasts s
            (forward_all w t packet remote ds (forward_dest s w t packet remote d))
            w
            packet
            (length (d ∷ ds))
    joined rest (inl (e, failed)) = record {
      copies = rest.copies;
      added = rest.added ∙ ap (λ l. rest.copies ++ l) e;
      faithful = rest.faithful;
      bounded = omega (arith, rest.bounded);
      complete = λ ok. absurd (failed ok);
    }
    joined rest (inr (n, e)) = record {
      copies = rest.copies ++ (n, packet) ∷ [];
      added =
          rest.added
          ∙ ap (λ l. rest.copies ++ l) e
          ∙ sym (append_assoc rest.copies ((n, packet) ∷ []) s.sent);
      faithful = copies-append packet rest.copies n rest.faithful;
      bounded = omega (arith, rest.bounded, length-append rest.copies ((n, packet) ∷ []));
      complete =
          λ ok. omega (arith, rest.complete ok, length-append rest.copies ((n, packet) ∷ []));
    }
