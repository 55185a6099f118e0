-- ===== src/Relay/Examples/Punching.antt =====
-- Hole punch messages on the relay of relay/relay.go: the first is notified and accepted, the same
-- one second later is not notified, and three seconds later it is again.
use gerbil.Prelude.{
  ℕ, ◌≡◌, refl, ◌*◌, true, false, some, [], ◌∷◌, arith, Text, text_eq, inl, inr, codes,
}
use gerbil.Table.{load, store}
use gerbil.Relay.Wire.{is_wire_guard}
use gerbil.Relay.RateLimit.{allow}
use gerbil.Relay.EndpointCache.{new_endpoint_cache, load_entry, store_entry, make_room}
use gerbil.Relay.HolePunch.{
  Relay, Codec, HolePunchMessage, HolePunchEvent, packet_worker, NotifyReply,
  endpoint_notifier_worker, decode_message, endpoint_of,
}
use gerbil.Relay.HolePunch.Steps.{Step, IsNew, Reach, start, next}
use gerbil.Relay.HolePunch.Backed.{Accepted}
use gerbil.Relay.HolePunch.Reachable.{IsSound, Reach-IsSound}
use gerbil.Relay.HolePunch.Delivery.{
  HasAccepted, HasMapping, notify_rounds, deduplicated_was_accepted, hole_punch_is_delivered,
}
use gerbil.Relay.Examples.Pool.{newt, olm}
use gerbil.Relay.Examples.Traffic.{server, world, dest_of}

abbrev message : HolePunchMessage
message = record { olm_id = codes "o"; newt_id = []; token = codes "t"; public_key = codes "k" }

abbrev codec : Codec
codec = record {
  unmarshal_encrypted =
      λ p. some (record { ephemeral_public_key = codes "e"; nonce = []; ciphertext = p });
  unmarshal_message = λ p. some message;
  parse_key = λ k. some k;
  x25519 = λ a b. some b;
  nonce_size = 0;
  aead_open = λ secret nonce ciphertext. some ciphertext;
}

abbrev new : Relay
new = record {
  server = server;
  hole_punch_rate_limiter = [];
  last_endpoint_cache = record { entries = []; max_entries = 10000; ttl = 2500000000 };
  notify_queue = [];
  private_key = [];
  public_key = [];
  reachable_at = [];
  released = 0;
  accepted = [];
}

abbrev punch : Text
punch = codes "{}"

abbrev second : ℕ
second = 1000000000

abbrev reply : NotifyReply
reply = NotifyReply.answered 200 (some (dest_of newt ∷ []))

new-IsNew : IsNew new
unfolding new_endpoint_cache
new-IsNew = record { cache = refl; queue = refl; accepted = refl }

abbrev punched : Relay
punched = (packet_worker new (world 0) codec false punch olm).0

abbrev known : Relay
known = endpoint_notifier_worker punched reply 1

known-Reach : Reach known
known-Reach =
    next (next (start new-IsNew) (Step.take_packet new (world 0) codec false punch olm))
      (Step.notify punched reply 1)

Reach-IsSound_example : IsSound known
Reach-IsSound_example = Reach-IsSound known-Reach

again :
    (packet_worker known (world second) codec false punch olm).1
    ≡ HolePunchEvent.deduplicated ∷ HolePunchEvent.success ∷ []
unfolding packet_worker endpoint_notifier_worker is_wire_guard allow load store load_entry
    store_entry make_room
again = refl

deduplicated_was_accepted_example :
    (msg : HolePunchMessage) × (decode_message codec known.private_key punch ≡ some msg)
    × HasAccepted known (endpoint_of known msg olm second) second
deduplicated_was_accepted_example =
    deduplicated_was_accepted known (world second) codec false punch olm known-Reach again

not_wire : is_wire_guard punch ≡ false
unfolding is_wire_guard
not_wire = refl

passes : (allow known.hole_punch_rate_limiter olm.ip (3 * second)).1 ≡ true
unfolding packet_worker endpoint_notifier_worker is_wire_guard allow load store load_entry
passes = refl

decoded : decode_message codec known.private_key punch ≡ some message
unfolding packet_worker endpoint_notifier_worker is_wire_guard allow load store load_entry
    decode_message
decoded = refl

nothing_queued : known.notify_queue ≡ []
unfolding packet_worker endpoint_notifier_worker is_wire_guard allow load store load_entry
nothing_queued = refl

one_accepted : known.accepted ≡ (endpoint_of known message olm 0, 1) ∷ []
unfolding packet_worker endpoint_notifier_worker is_wire_guard allow load store load_entry
    endpoint_of
one_accepted = refl

expired : ¬ HasAccepted known (endpoint_of known message olm (3 * second)) (3 * second)
unfolding Accepted
expired (at, a, young) = elim (rw one_accepted at a) [
  | inl (key, state, now) ↦ omega (arith, now, young)
  | inr impossible ↦ absurd impossible
]

hole_punch_is_delivered_example :
    HasMapping
      (notify_rounds
        (packet_worker known (world (3 * second)) codec false punch olm).0
        ((reply, 3 * second) ∷ []))
      (endpoint_of known message olm (3 * second))
      (dest_of newt ∷ [])
      (3 * second)
hole_punch_is_delivered_example =
    hole_punch_is_delivered known (world (3 * second)) codec punch olm message (dest_of newt ∷ [])
      (3 * second) [] known-Reach not_wire passes decoded (rw nothing_queued (omega arith)) expired
      (rw nothing_queued refl)
