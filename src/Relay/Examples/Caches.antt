-- ===== src/Relay/Examples/Caches.antt =====
-- Runs of the endpoint cache, the rate limiter and the wire format of relay/relay.go.
use gerbil.Prelude.{
  ap, ◌≢◌, ℕ, ◌<◌, ◌≡◌, refl, false, none, some, [], ◌∷◌, arith, text_eq, codes, min, inl, All,
}
use gerbil.Table.{load, store, delete}
use gerbil.Relay.Address.{contains_byte}
use gerbil.Relay.Wire.{byte_at}
use gerbil.Relay.WireLaws.{Message, encode}
use gerbil.Relay.EndpointCache.{
  EndpointCache, CachedEndpointState, CachedEndpointEntry, new_endpoint_cache, load_entry,
  store_entry, make_room, oldest,
}
use gerbil.Relay.EndpointCache.Oldest.{IsValid}
use gerbil.Relay.EndpointCache.Laws.{new_endpoint_cache-IsValid, store_entry-IsValid}
use gerbil.Relay.RateLimit.{RateLimitEntry, allowed_count, allowed_count-fresh}
use gerbil.Relay.Examples.Pool.{newt}

abbrev endpoint : CachedEndpointState
endpoint = record {
  olm_id = codes "olm";
  newt_id = [];
  token = codes "t";
  ip = codes "198.51.100.4";
  port = 40000;
  public_key = codes "k";
}

abbrev at : ℕ → CachedEndpointEntry
at now = record { state = endpoint; cached_at = now }

abbrev empty : EndpointCache
empty = new_endpoint_cache 2 100

abbrev full : EndpointCache
full = store_entry (store_entry empty (codes "a") (at 1)) (codes "b") (at 2)

full-IsValid : IsValid full
full-IsValid =
    store_entry-IsValid (store_entry empty (codes "a") (at 1)) (codes "b") (at 2)
      (store_entry-IsValid empty (codes "a") (at 1) (new_endpoint_cache-IsValid 2 100))

program : Unit {0}
unfolding new_endpoint_cache store_entry load_entry load store delete make_room oldest
program = tt

full_stored :
    (load (codes "a") full.entries ≡ some (at 1))
    × (load (codes "b") full.entries ≡ some (at 2))
    × (load (codes "a") (store_entry full (codes "c") (at 3)).entries ≡ none)
unfolding program
full_stored = (refl, refl, refl)

c_a : codes "c" ≢ codes "a"
unfolding byte_at
c_a e = omega (arith, ap (λ s. byte_at s 0) e)

full_pos : 0 < full.max_entries
unfolding program
full_pos = omega arith

no_entry : load {V = RateLimitEntry} (codes "198.51.100.4") [] ≡ none
unfolding load
no_entry = refl

allowed_count-fresh_example :
    allowed_count [] (codes "198.51.100.4") (7 ∷ 8 ∷ 9 ∷ 10 ∷ []) ≡ min 4 2
allowed_count-fresh_example =
    allowed_count-fresh [] (codes "198.51.100.4") 7 (8 ∷ 9 ∷ 10 ∷ []) (inl no_entry)
      (omega arith, (omega arith, (omega arith, tt)))

abbrev response : Message
response = Message.response 22 11 []

response_bytes : All (λ b. b < 256) (encode response)
unfolding encode
response_bytes = (
  omega arith,
  (
    omega arith,
    (
      omega arith,
      (
        omega arith,
        (
          omega arith,
          (
            omega arith,
            (
              omega arith,
              (omega arith, (omega arith, (omega arith, (omega arith, (omega arith, tt))))),
            ),
          ),
        ),
      ),
    ),
  ),
)

newt_plain : contains_byte b':' newt.ip ≡ false
unfolding contains_byte
newt_plain = refl
