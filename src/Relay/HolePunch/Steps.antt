-- ===== src/Relay/HolePunch/Steps.antt =====
-- The relay under its workers (relay/relay.go): each packet, each notification and each tick of the
-- cleanups of the endpoint cache and the rate limiter is a step, in any order.
use gerbil.Prelude.{ℕ, ◌*◌, ◌≡◌, Bool, [], Text}
use gerbil.Relay.Address.{UdpAddr}
use gerbil.Relay.RateLimit.{cleanup_hole_punch_rate_limiter}
use gerbil.Relay.EndpointCache.{new_endpoint_cache, delete_expired}
use gerbil.Relay.Packets.{World}
use gerbil.Relay.HolePunch.{Relay, Codec, packet_worker, NotifyReply, endpoint_notifier_worker}

abbrev pub max_endpoint_cache_entries : ℕ
max_endpoint_cache_entries = 10000

abbrev pub endpoint_cache_ttl : ℕ
endpoint_cache_ttl = 2500 * 1000000

pub data Step : Relay → Relay → Type 0 where
  take_packet :
      (r : Relay) (w : World) (codec : Codec) (done : Bool) (packet : Text) (remote : UdpAddr)
      → Step r (packet_worker r w codec done packet remote).0
  notify :
      (r : Relay) (reply : NotifyReply) (now : ℕ) → Step r (endpoint_notifier_worker r reply now)
  cleanup_cache :
      (r : Relay) (now : ℕ)
      → Step r (record r { last_endpoint_cache = delete_expired r.last_endpoint_cache now })
  cleanup_limiter :
      (r : Relay) (now : ℕ)
      → Step r (record r {
        hole_punch_rate_limiter = cleanup_hole_punch_rate_limiter r.hole_punch_rate_limiter now;
      })

-- What `NewUDPProxyServer` makes of the fields that hole punching uses.
pub record IsNew (r : Relay) : Type 0 where
  pub cache :
      r.last_endpoint_cache ≡ new_endpoint_cache max_endpoint_cache_entries endpoint_cache_ttl
  pub queue : r.notify_queue ≡ []
  pub accepted : r.accepted ≡ []

pub data Reach : Relay → Type 0 where
  start : {r : Relay} → IsNew r → Reach r
  next : {r s : Relay} → Reach r → Step r s → Reach s
