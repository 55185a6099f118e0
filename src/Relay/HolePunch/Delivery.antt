-- ===== src/Relay/HolePunch/Delivery.antt =====
-- What becomes of a hole punch message in relay/relay.go: it reaches the server, or the server has
-- just accepted the same.
use gerbil.Prelude.{
  ℕ, ◌+◌, ◌<◌, ◌≡◌, refl, Bool, true, false, none, some, List, [], ◌∷◌, ◌++◌, arith, length, Text,
  text_eq, text_beq_iff, Bool-cases, Option-cases, inl, inr, pos,
}
use gerbil.Table.{load, load-store}
use gerbil.Relay.Address.{UdpAddr, ip_port_key}
use gerbil.Relay.Wire.{is_wire_guard}
use gerbil.Relay.RateLimit.{allow}
use gerbil.Relay.EndpointCache.{EndpointCache, CachedEndpointState, CachedEndpointEntry, load_entry}
use gerbil.Relay.Mappings.{PeerDestination}
use gerbil.Relay.Packets.{World}
use gerbil.Relay.HolePunch.{
  Relay, Codec, ClientEndpoint, HolePunchMessage, HolePunchEvent, packet_worker, NotifyReply,
  endpoint_notifier_worker, hole_punch, with_message, punch_endpoint, enqueue, notify_capacity,
  cache_key, cached_state, same_state, notify_server, accept_mapping, decode_message, endpoint_of,
  is_fresh,
}
use gerbil.Relay.HolePunch.Steps.{Reach, endpoint_cache_ttl}
use gerbil.Relay.HolePunch.Backed.{Accepted, IsBacked}
use gerbil.Relay.HolePunch.Reachable.{Reach-IsSound}

same_state-eq : (a b : CachedEndpointState) → same_state a b ≡ true → a ≡ b
same_state-eq a b h = ground (
  arith,
  text_beq_iff a.olm_id b.olm_id,
  text_beq_iff a.newt_id b.newt_id,
  text_beq_iff a.token b.token,
  text_beq_iff a.ip b.ip,
  text_beq_iff a.public_key b.public_key,
)

load_entry-some :
    (c : EndpointCache) (key : Text) (now : ℕ) (v : CachedEndpointEntry)
    → (load_entry c key now).1 ≡ some v
    → (load key c.entries ≡ some v) × (now < v.cached_at + c.ttl)
unfolding load_entry
load_entry-some c key now v h = elim (Option-cases (load key c.entries)) [
  | inl e ↦ absurd (ground (arith, e))
  | inr (w, e) ↦ ground (arith, e)
]

-- The server accepted a notification that is the same but for its time, less than the TTL ago.
abbrev pub HasAccepted : Relay → ClientEndpoint → ℕ → Type 0
HasAccepted r e now =
    (at : ℕ) × Accepted (cache_key e) (cached_state e) at r.accepted
    × (now < at + endpoint_cache_ttl)

fresh-HasAccepted :
    (r : Relay) (e : ClientEndpoint) (now : ℕ)
    → IsBacked r.accepted r.last_endpoint_cache
    → is_fresh (load_entry r.last_endpoint_cache (cache_key e) now).1 (cached_state e) ≡ true
    → HasAccepted r e now
fresh-HasAccepted r e now b h =
    elim (Option-cases (load_entry r.last_endpoint_cache (cache_key e) now).1) [
      | inl missed ↦ absurd (ground (arith, missed))
      | inr (v, found) ↦
          let (stored, young) = load_entry-some r.last_endpoint_cache (cache_key e) now v found in
          let eq = same_state-eq v.state (cached_state e) (rw found at h) in
          let backed = b.backs (cache_key e) v stored in
          (v.cached_at, rw eq at backed, rw b.ttl at young)
    ]

punch-dedup :
    (r : Relay) (done : Bool) (e : ClientEndpoint) (now : ℕ)
    → IsBacked r.accepted r.last_endpoint_cache
    → (punch_endpoint r done e now).1 ≡ HolePunchEvent.deduplicated ∷ HolePunchEvent.success ∷ []
    → HasAccepted r e now
unfolding punch_endpoint enqueue
punch-dedup r done e now b h =
    elim (Bool-cases
      (is_fresh (load_entry r.last_endpoint_cache (cache_key e) now).1 (cached_state e))) [
        | inl fresh ↦ fresh-HasAccepted r e now b fresh
        | inr stale ↦ absurd (ground (arith, stale))
      ]

hole_punch-dedup :
    (r : Relay) (codec : Codec) (done : Bool) (packet : Text) (remote : UdpAddr) (now : ℕ)
    → IsBacked r.accepted r.last_endpoint_cache
    → (hole_punch r codec done packet remote now).1
      ≡ HolePunchEvent.deduplicated ∷ HolePunchEvent.success ∷ []
    → (msg : HolePunchMessage) × (decode_message codec r.private_key packet ≡ some msg)
      × HasAccepted r (endpoint_of r msg remote now) now
unfolding hole_punch with_message endpoint_of
hole_punch-dedup r codec done packet remote now b h =
    let (limiter, allowed) = allow r.hole_punch_rate_limiter remote.ip now in
    let r' : Relay = record r { hole_punch_rate_limiter = limiter } in
    elim (Bool-cases allowed) [
      | inr refused ↦ absurd (ground (arith, refused))
      | inl passed ↦ elim (Option-cases (decode_message codec r.private_key packet)) [
        | inl bad ↦ absurd (ground (arith, passed, bad))
        | inr (msg, good) ↦ (
          msg,
          good,
          punch-dedup r' done (endpoint_of r msg remote now) now b (rw (passed, good) at h),
        )
      ]
    ]

-- In every reachable state, if packetWorker drops a hole punch message as a duplicate, then the
-- message decodes, and the server has accepted a notification with the same identity, token,
-- address and key less than the TTL of 2.5 seconds before.
pub deduplicated_was_accepted :
    (r : Relay) (w : World) (codec : Codec) (done : Bool) (packet : Text) (remote : UdpAddr)
    → Reach r
    → (packet_worker r w codec done packet remote).1
      ≡ HolePunchEvent.deduplicated ∷ HolePunchEvent.success ∷ []
    → (msg : HolePunchMessage) × (decode_message codec r.private_key packet ≡ some msg)
      × HasAccepted r (endpoint_of r msg remote w.now) w.now
unfolding packet_worker
deduplicated_was_accepted r w codec done packet remote reach h =
    elim (Bool-cases (is_wire_guard packet)) [
      | inl wire ↦ absurd (ground (arith, wire))
      | inr punch ↦
          hole_punch-dedup r codec done packet remote w.now (Reach-IsSound reach).cache
            (rw punch at h)
    ]

-- Rounds of the notifier, with the reply and the time of each.
pub notify_rounds : Relay → List (NotifyReply × ℕ) → Relay
unfolding endpoint_notifier_worker
notify_rounds r [] = r
notify_rounds r ((reply, now) ∷ rounds) =
    notify_rounds (endpoint_notifier_worker r reply now) rounds

notify_server-queue :
    (r : Relay) (e : ClientEndpoint) (reply : NotifyReply) (now : ℕ)
    → (notify_server r e reply now).notify_queue ≡ r.notify_queue
unfolding notify_server accept_mapping
notify_server-queue r e NotifyReply.no_answer now = refl
notify_server-queue r e (NotifyReply.answered status none) now = refl
notify_server-queue r e (NotifyReply.answered status (some ds)) now = ground arith

-- The endpoint's mapping is that of an accepted reply.
abbrev pub HasMapping : Relay → ClientEndpoint → List PeerDestination → ℕ → Type 0
HasMapping r e destinations now =
    load (ip_port_key e.ip (pos e.port)) r.server.mappings
    ≡ some (record { destinations = destinations; last_used = now })

notify_server-HasMapping :
    (r : Relay) (e : ClientEndpoint) (destinations : List PeerDestination) (now : ℕ)
    → HasMapping
        (notify_server r e (NotifyReply.answered 200 (some destinations)) now)
        e
        destinations
        now
unfolding notify_server accept_mapping
notify_server-HasMapping r e destinations now = ground (
  arith,
  load-store (ip_port_key e.ip (pos e.port)) (ip_port_key e.ip (pos e.port))
      (record { destinations = destinations; last_used = now }) r.server.mappings,
  text_beq_iff (ip_port_key e.ip (pos e.port)) (ip_port_key e.ip (pos e.port)),
)

-- The queue is first in, first out: the last of it has its answer after as many rounds.
rounds-HasMapping :
    (r : Relay) (e : ClientEndpoint) (destinations : List PeerDestination) (now : ℕ)
    (queue : List ClientEndpoint) (rounds : List (NotifyReply × ℕ))
    → r.notify_queue ≡ queue ++ e ∷ []
    → length rounds ≡ length queue
    → HasMapping
        (notify_rounds r (rounds ++ (NotifyReply.answered 200 (some destinations), now) ∷ []))
        e
        destinations
        now
unfolding notify_rounds endpoint_notifier_worker
rounds-HasMapping r e destinations now [] [] q l =
    rw q (notify_server-HasMapping (record r { notify_queue = [] }) e destinations now)
rounds-HasMapping r e destinations now [] (x ∷ rounds) q l = absurd (omega (arith, l))
rounds-HasMapping r e destinations now (d ∷ queue) [] q l = absurd (omega (arith, l))
rounds-HasMapping r e destinations now (d ∷ queue) ((reply, at) ∷ rounds) q l = rw q (
    rounds-HasMapping (notify_server (record r { notify_queue = queue ++ e ∷ [] }) d reply at) e
      destinations now queue rounds
      (notify_server-queue (record r { notify_queue = queue ++ e ∷ [] }) d reply at)
      (omega (arith, l)))

punch-queued :
    (r : Relay) (e : ClientEndpoint) (now : ℕ)
    → is_fresh (load_entry r.last_endpoint_cache (cache_key e) now).1 (cached_state e) ≡ false
    → length r.notify_queue < notify_capacity
    → (punch_endpoint r false e now).0.notify_queue ≡ r.notify_queue ++ e ∷ []
unfolding punch_endpoint enqueue
punch-queued r e now stale room = ground (arith, stale)

hole_punch-queued :
    (r : Relay) (codec : Codec) (packet : Text) (remote : UdpAddr) (now : ℕ)
    (msg : HolePunchMessage)
    → IsBacked r.accepted r.last_endpoint_cache
    → (allow r.hole_punch_rate_limiter remote.ip now).1 ≡ true
    → decode_message codec r.private_key packet ≡ some msg
    → length r.notify_queue < notify_capacity
    → ¬ HasAccepted r (endpoint_of r msg remote now) now
    → (hole_punch r codec false packet remote now).0.notify_queue
      ≡ r.notify_queue ++ endpoint_of r msg remote now ∷ []
unfolding hole_punch with_message endpoint_of
hole_punch-queued r codec packet remote now msg b passed good room unknown =
    let r' : Relay = record r {
      hole_punch_rate_limiter = (allow r.hole_punch_rate_limiter remote.ip now).0;
    } in
    let e = endpoint_of r msg remote now in
    elim (Bool-cases
      (is_fresh (load_entry r.last_endpoint_cache (cache_key e) now).1 (cached_state e))) [
        | inl fresh ↦ absurd (unknown (fresh-HasAccepted r e now b fresh))
        | inr stale ↦ rw (passed, good) (punch-queued r' e now stale room)
      ]

-- In every reachable state, a decodable hole punch message that the rate limiter lets through,
-- while the queue has room and the server has not accepted the same endpoint within the TTL,
-- reaches the server: after as many rounds of the notifier as the queue was long, whatever their
-- replies, one more round with an accepting reply stores its destinations as the mapping of the
-- client's address. No other packet comes between, and the relay is not stopping.
pub hole_punch_is_delivered :
    (r : Relay) (w : World) (codec : Codec) (packet : Text) (remote : UdpAddr)
    (msg : HolePunchMessage) (destinations : List PeerDestination) (now : ℕ)
    (rounds : List (NotifyReply × ℕ))
    → Reach r
    → is_wire_guard packet ≡ false
    → (allow r.hole_punch_rate_limiter remote.ip w.now).1 ≡ true
    → decode_message codec r.private_key packet ≡ some msg
    → length r.notify_queue < notify_capacity
    → ¬ HasAccepted r (endpoint_of r msg remote w.now) w.now
    → length rounds ≡ length r.notify_queue
    → HasMapping
        (notify_rounds
          (packet_worker r w codec false packet remote).0
          (rounds ++ (NotifyReply.answered 200 (some destinations), now) ∷ []))
        (endpoint_of r msg remote w.now)
        destinations
        now
unfolding packet_worker
hole_punch_is_delivered r w codec packet remote msg destinations now rounds reach punch passed good
      room unknown l =
    let queued =
      hole_punch-queued r codec packet remote w.now msg (Reach-IsSound reach).cache passed good room
        unknown in
    rounds-HasMapping (packet_worker r w codec false packet remote).0
      (endpoint_of r msg remote w.now) destinations now r.notify_queue rounds (rw punch queued) l
