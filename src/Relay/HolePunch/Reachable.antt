-- ===== src/Relay/HolePunch/Reachable.antt =====
-- What holds of the relay of relay/relay.go in every state that its workers reach.
use gerbil.Prelude.{
  ℕ, ◌≤◌, inl, inr, refl, Bool, Option, none, some, List, [], ◌∷◌, arith, ◌==◌, ltb, length,
  length-append, Text, text_eq, Bool-cases,
}
use gerbil.Table.{load}
use gerbil.Relay.Address.{UdpAddr}
use gerbil.Relay.Wire.{is_wire_guard}
use gerbil.Relay.RateLimit.{allow}
use gerbil.Relay.EndpointCache.{load_entry, new_endpoint_cache}
use gerbil.Relay.EndpointCache.Laws.{new_endpoint_cache-IsValid}
use gerbil.Relay.Packets.{World}
use gerbil.Relay.HolePunch.{
  Relay, Codec, ClientEndpoint, HolePunchMessage, packet_worker, NotifyReply,
  endpoint_notifier_worker, notify_next, hole_punch, with_message, punch_endpoint, enqueue,
  notify_capacity, cache_key, cached_state, notify_server, decode_message, endpoint_of, is_fresh,
}
use gerbil.Relay.HolePunch.Steps.{
  Step, take_packet, notify, cleanup_cache, cleanup_limiter, IsNew, Reach, start, next,
  endpoint_cache_ttl, max_endpoint_cache_entries,
}
use gerbil.Relay.HolePunch.Backed.{
  IsBacked, load_entry-IsBacked, accepted-IsBacked, delete_expired-IsBacked,
}

-- The queue is within the capacity of its channel, and the cache is backed.
pub record IsSound (r : Relay) : Type 0 where
  pub cache : IsBacked r.accepted r.last_endpoint_cache
  pub queue : length r.notify_queue ≤ notify_capacity

enqueue-IsSound :
    (r : Relay) (done : Bool) (e : ClientEndpoint) → IsSound r → IsSound (enqueue r done e).0
unfolding enqueue
enqueue-IsSound r done e s = elim (Bool-cases done) [
  | inl stop ↦ rw stop s
  | inr go_on ↦ elim (Bool-cases (ltb (length r.notify_queue) notify_capacity)) [
    | inr full ↦ rw (go_on, full) s
    | inl room ↦
        rw (go_on, room)
          (record {
            cache = s.cache;
            queue = ground (arith, length-append r.notify_queue (e ∷ []));
          })
  ]
]

punch_endpoint-IsSound :
    (r : Relay) (done : Bool) (e : ClientEndpoint) (now : ℕ)
    → IsSound r
    → IsSound (punch_endpoint r done e now).0
unfolding punch_endpoint
punch_endpoint-IsSound r done e now s =
    let (cache, entry) = load_entry r.last_endpoint_cache (cache_key e) now in
    let r' : Relay = record r { last_endpoint_cache = cache } in
    let loaded : IsSound r' = record {
      cache = load_entry-IsBacked r.accepted r.last_endpoint_cache (cache_key e) now s.cache;
      queue = s.queue;
    } in
    elim (Bool-cases (is_fresh entry (cached_state e))) [
      | inl fresh ↦ rw fresh (record { cache = loaded.cache; queue = loaded.queue })
      | inr changed ↦
          let q = enqueue-IsSound r' done e loaded in
          rw changed (record { cache = q.cache; queue = q.queue })
    ]

hole_punch-IsSound :
    (r : Relay) (codec : Codec) (done : Bool) (packet : Text) (remote : UdpAddr) (now : ℕ)
    → IsSound r
    → IsSound (hole_punch r codec done packet remote now).0
unfolding hole_punch
hole_punch-IsSound r codec done packet remote now s =
    let (limiter, allowed) = allow r.hole_punch_rate_limiter remote.ip now in
    let r' : Relay = record r { hole_punch_rate_limiter = limiter } in
    let s' : IsSound r' = record { cache = s.cache; queue = s.queue } in
    elim (Bool-cases allowed) [
      | inr refused ↦ rw refused s'
      | inl passed ↦ rw passed (decoded (decode_message codec r.private_key packet) r' s')
    ]
  where
    decoded :
        (m : Option HolePunchMessage) (r : Relay)
        → IsSound r
        → IsSound (with_message m r done remote now).0
    decoded none r s = s
    decoded (some msg) r s = punch_endpoint-IsSound r done (endpoint_of r msg remote now) now s

packet_worker-IsSound :
    (r : Relay) (w : World) (codec : Codec) (done : Bool) (packet : Text) (remote : UdpAddr)
    → IsSound r
    → IsSound (packet_worker r w codec done packet remote).0
unfolding packet_worker
packet_worker-IsSound r w codec done packet remote s = elim (Bool-cases (is_wire_guard packet)) [
  | inl wire ↦ rw wire (record { cache = s.cache; queue = s.queue })
  | inr punch ↦
      let p = hole_punch-IsSound r codec done packet remote w.now s in
      rw punch (record { cache = p.cache; queue = p.queue })
]

notify_server-IsSound :
    (r : Relay) (e : ClientEndpoint) (reply : NotifyReply) (now : ℕ)
    → IsSound r
    → IsSound (notify_server r e reply now)
unfolding notify_server
notify_server-IsSound r e NotifyReply.no_answer now s = s
notify_server-IsSound r e (NotifyReply.answered status none) now s = s
notify_server-IsSound r e (NotifyReply.answered status (some ds)) now s =
    elim (Bool-cases (status == 200)) [
      | inl answer ↦ rw answer (record {
        cache = accepted-IsBacked r.accepted r.last_endpoint_cache e now s.cache;
        queue = s.queue;
      })
      | inr other ↦ rw other s
    ]

notifier-IsSound :
    (r : Relay) (reply : NotifyReply) (now : ℕ)
    → IsSound r
    → IsSound (endpoint_notifier_worker r reply now)
unfolding endpoint_notifier_worker
notifier-IsSound r reply now s = with_queue r.notify_queue s.queue
  where
    with_queue :
        (queue : List ClientEndpoint)
        → length queue ≤ notify_capacity
        → IsSound (notify_next r queue reply now)
    with_queue [] h = s
    with_queue (e ∷ queue) h =
        notify_server-IsSound (record r { notify_queue = queue }) e reply now
          (record { cache = s.cache; queue = omega (arith, h) })

Step-IsSound : {r s : Relay} → Step r s → IsSound r → IsSound s
Step-IsSound (take_packet r w codec done packet remote) s =
    packet_worker-IsSound r w codec done packet remote s
Step-IsSound (notify r reply now) s = notifier-IsSound r reply now s
Step-IsSound (cleanup_cache r now) s = record {
  cache = delete_expired-IsBacked r.accepted r.last_endpoint_cache now s.cache;
  queue = s.queue;
}
Step-IsSound (cleanup_limiter r now) s = record { cache = s.cache; queue = s.queue }

new-IsSound : {r : Relay} → IsNew r → IsSound r
unfolding new_endpoint_cache load
new-IsSound {r} n = record {
  cache =
      rw (n.cache, n.accepted)
        (record {
          valid = new_endpoint_cache-IsValid max_endpoint_cache_entries endpoint_cache_ttl;
          backs = λ key entry h. absurd (cc);
          size = refl;
          ttl = refl;
        });
  queue = rw n.queue (omega arith);
}

-- In every state that packets, notifications and the two cleanups reach in any order, the
-- notification queue is within the capacity of its channel, the endpoint cache holds at most
-- 10000 entries under distinct keys, and each of them is one that the server accepted at that
-- time.
pub Reach-IsSound : {r : Relay} → Reach r → IsSound r
Reach-IsSound (start n) = new-IsSound n
Reach-IsSound (next reach step) = Step-IsSound step (Reach-IsSound reach)
