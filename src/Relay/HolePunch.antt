-- ===== src/Relay/HolePunch.antt =====
-- Hole punch messages (relay/relay.go): `packetWorker` over both kinds of packets, `decryptMessage`,
-- `endpointNotifierWorker` and `notifyServer`. The ciphers, JSON and HTTP are arguments. The clock is
-- read once for a packet and once for a notification. `accepted` and `released` are for reading
-- only: the notifications that the server accepted, with their times, and the buffers given back.
pub mod Steps
pub mod Backed
pub mod Reachable
pub mod Delivery
use gerbil.Prelude.{
  ℕ, suc, ◌+◌, ◌/◌, ◌≡◌, Bool, true, false, not, ◌&&◌, Option, none, some, List, [], ◌∷◌, ◌++◌,
  if◌then◌else◌, ltb, ◌==◌, length, Text, text_eq, text_beq, pos,
}
use gerbil.Table.{Table, load, store}
use gerbil.Relay.Address.{UdpAddr, ip_port_key}
use gerbil.Relay.Wire.{is_wire_guard}
use gerbil.Relay.RateLimit.{RateLimitEntry, allow}
use gerbil.Relay.EndpointCache.{
  EndpointCache, CachedEndpointState, CachedEndpointEntry, load_entry, store_entry,
}
use gerbil.Relay.Mappings.{PeerDestination, ProxyMapping}
use gerbil.Relay.Sessions.{clear_sessions_for_ip}
use gerbil.Relay.Packets.{Server, World, handle_wire_guard_packet}

pub record EncryptedHolePunchMessage : Type 0 where
  pub ephemeral_public_key : Text
  pub nonce : Text
  pub ciphertext : Text

pub record HolePunchMessage : Type 0 where
  pub olm_id : Text
  pub newt_id : Text
  pub token : Text
  pub public_key : Text

pub record ClientEndpoint : Type 0 where
  pub olm_id : Text
  pub newt_id : Text
  pub token : Text
  pub ip : Text
  pub port : ℕ
  pub timestamp : ℕ
  pub reachable_at : Text
  pub exit_node_public_key : Text
  pub client_public_key : Text

-- What the libraries do: JSON, the parsing of keys, X25519, and the AEAD cipher under a secret.
pub record Codec : Type 0 where
  pub unmarshal_encrypted : Text → Option EncryptedHolePunchMessage
  pub unmarshal_message : Text → Option HolePunchMessage
  pub parse_key : Text → Option Text
  pub x25519 : Text → Text → Option Text
  pub nonce_size : ℕ
  pub aead_open : Text → Text → Text → Option Text

-- The server of `Packets` with the fields that only hole punching uses.
pub record Relay : Type 0 where
  pub server : Server
  pub hole_punch_rate_limiter : Table Text RateLimitEntry
  pub last_endpoint_cache : EndpointCache
  pub notify_queue : List ClientEndpoint
  pub private_key : Text
  pub public_key : Text
  pub reachable_at : Text
  pub released : ℕ
  pub accepted : List (ClientEndpoint × ℕ)

-- The reasons of `RecordHolePunchEvent`.
pub data HolePunchEvent : Type 0 where
  rate_limited : HolePunchEvent
  failed : HolePunchEvent
  deduplicated : HolePunchEvent
  queue_full : HolePunchEvent
  success : HolePunchEvent

-- The capacity of `notifyChan`.
abbrev pub notify_capacity : ℕ
notify_capacity = 1000

infixl 5 ◌>>=◌
abbrev ◌>>=◌ {ℓ κ} : {A : Type ℓ} {B : Type κ} → Option A → (A → Option B) → Option B
none >>= f = none
some a >>= f = f a

abbrev guard {ℓ} : {A : Type ℓ} → Bool → Option A → Option A
guard true a = a
guard false a = none

decrypt_message : Codec → Text → EncryptedHolePunchMessage → Option Text
decrypt_message codec private_key msg = do
  eph_pub_key ← codec.parse_key msg.ephemeral_public_key
  shared_secret ← codec.x25519 private_key eph_pub_key
  guard (length msg.nonce == codec.nonce_size)
      (codec.aead_open shared_secret msg.nonce msg.ciphertext)

-- The message of a packet, if each step of its decoding succeeds.
unfoldable pub decode_message : Codec → Text → Text → Option HolePunchMessage
unfolding decrypt_message
decode_message codec private_key packet = do
  enc_msg ← codec.unmarshal_encrypted packet
  decrypted_data ←
      guard (not (text_beq enc_msg.ephemeral_public_key []))
        (decrypt_message codec private_key enc_msg)
  codec.unmarshal_message decrypted_data

unfoldable pub endpoint_of : Relay → HolePunchMessage → UdpAddr → ℕ → ClientEndpoint
endpoint_of r msg remote now = record {
  olm_id = msg.olm_id;
  newt_id = msg.newt_id;
  token = msg.token;
  ip = remote.ip;
  port = remote.port;
  timestamp = now / 1000000000;
  reachable_at = r.reachable_at;
  exit_node_public_key = r.public_key;
  client_public_key = msg.public_key;
}

-- endpoint.OlmID + ":" + endpoint.NewtID
abbrev pub cache_key : ClientEndpoint → Text
cache_key e = e.olm_id ++ b':' ∷ e.newt_id

abbrev pub cached_state : ClientEndpoint → CachedEndpointState
cached_state e = record {
  olm_id = e.olm_id;
  newt_id = e.newt_id;
  token = e.token;
  ip = e.ip;
  port = e.port;
  public_key = e.client_public_key;
}

-- entry.state == newState
abbrev pub same_state : CachedEndpointState → CachedEndpointState → Bool
same_state a b =
    text_beq a.olm_id b.olm_id
    && (text_beq a.newt_id b.newt_id
        && (text_beq a.token b.token
            && (text_beq a.ip b.ip && ((a.port == b.port) && text_beq a.public_key b.public_key))))

abbrev pub is_fresh : Option CachedEndpointEntry → CachedEndpointState → Bool
is_fresh none new_state = false
is_fresh (some entry) new_state = same_state entry.state new_state

abbrev clear_sessions : Relay → Text → Relay
clear_sessions r ip = record r {
  server = record r.server { sessions = clear_sessions_for_ip r.server.sessions ip };
}

-- The select: it sends if there is room; while the server stops it may take ctx.Done instead, and
-- `done` says that it does.
pub enqueue : Relay → Bool → ClientEndpoint → Relay × List HolePunchEvent
enqueue r done endpoint =
    if done
    then (r, [])
    else if ltb (length r.notify_queue) notify_capacity
    then (record r { notify_queue = r.notify_queue ++ endpoint ∷ [] }, [])
    else (r, HolePunchEvent.queue_full ∷ [])

pub punch_endpoint : Relay → Bool → ClientEndpoint → ℕ → Relay × List HolePunchEvent
unfolding enqueue
punch_endpoint r done endpoint now =
    let (cache, entry) = load_entry r.last_endpoint_cache (cache_key endpoint) now in
    let r' : Relay = record r { last_endpoint_cache = cache } in
    let (queued, events) = enqueue r' done endpoint in
    if is_fresh entry (cached_state endpoint)
    then (clear_sessions r' endpoint.ip, HolePunchEvent.deduplicated ∷ HolePunchEvent.success ∷ [])
    else (clear_sessions queued endpoint.ip, events ++ HolePunchEvent.success ∷ [])

pub with_message :
    Option HolePunchMessage → Relay → Bool → UdpAddr → ℕ → Relay × List HolePunchEvent
unfolding punch_endpoint endpoint_of
with_message none r done remote now = (r, HolePunchEvent.failed ∷ [])
with_message (some msg) r done remote now = punch_endpoint r done (endpoint_of r msg remote now) now

pub hole_punch : Relay → Codec → Bool → Text → UdpAddr → ℕ → Relay × List HolePunchEvent
unfolding with_message decode_message
hole_punch r codec done packet remote now =
    let (limiter, allowed) = allow r.hole_punch_rate_limiter remote.ip now in
    let r' : Relay = record r { hole_punch_rate_limiter = limiter } in
    if allowed
    then with_message (decode_message codec r.private_key packet) r' done remote now
    else (r', HolePunchEvent.rate_limited ∷ [])

abbrev release : Relay × List HolePunchEvent → Relay × List HolePunchEvent
release (r, events) = (record r { released = suc r.released }, events)

-- One packet of `packetChan`. Every path gives the buffer back.
unfoldable pub packet_worker :
    Relay → World → Codec → Bool → Text → UdpAddr → Relay × List HolePunchEvent
unfolding hole_punch
packet_worker r w codec done packet remote = release (
    if is_wire_guard packet
    then (record r { server = handle_wire_guard_packet r.server w packet remote }, [])
    else hole_punch r codec done packet remote w.now)

-- What becomes of the request: no answer, or a status and the destinations if the body decodes.
pub data NotifyReply : Type 0 where
  no_answer : NotifyReply
  answered : (status : ℕ) (body : Option (List PeerDestination)) → NotifyReply

pub accept_mapping : Relay → ClientEndpoint → List PeerDestination → ℕ → Relay
accept_mapping r e destinations now = record r {
  server = record r.server {
    mappings =
        store (ip_port_key e.ip (pos e.port))
          (record { destinations = destinations; last_used = now }) r.server.mappings;
  };
  last_endpoint_cache =
      store_entry r.last_endpoint_cache (cache_key e)
        (record { state = cached_state e; cached_at = now });
  accepted = (e, now) ∷ r.accepted;
}

pub notify_server : Relay → ClientEndpoint → NotifyReply → ℕ → Relay
unfolding accept_mapping
notify_server r e NotifyReply.no_answer now = r
notify_server r e (NotifyReply.answered status none) now = r
notify_server r e (NotifyReply.answered status (some destinations)) now =
    if status == 200 then accept_mapping r e destinations now else r

-- One round of the notifier on the queue; an empty queue blocks it.
notify_next : Relay → List ClientEndpoint → NotifyReply → ℕ → Relay
unfolding notify_server
notify_next r [] reply now = r
notify_next r (e ∷ queue) reply now = notify_server (record r { notify_queue = queue }) e reply now

unfoldable pub endpoint_notifier_worker : Relay → NotifyReply → ℕ → Relay
unfolding notify_next
endpoint_notifier_worker r reply now = notify_next r r.notify_queue reply now
