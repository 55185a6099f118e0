-- ===== src/Relay/EndpointCache.antt =====
-- The bounded cache of hole punch endpoints (relay/relay.go, `endpointCache`). Times are
-- nanoseconds; `now` is what `time.Now` returns in the call.
pub mod Oldest
pub mod Laws
pub mod Origin
use gerbil.Prelude.{
  ℕ, ◌+◌, ◌≡◌, Bool, true, false, Option, none, some, List, [], ◌∷◌, if◌then◌else◌, ltb, leb, Text,
  length, text_eq,
}
use gerbil.Table.{Table, load, store, delete, delete_if}

pub record CachedEndpointState : Type 0 where
  pub olm_id : Text
  pub newt_id : Text
  pub token : Text
  pub ip : Text
  pub port : ℕ
  pub public_key : Text

pub record CachedEndpointEntry : Type 0 where
  pub state : CachedEndpointState
  pub cached_at : ℕ

pub record EndpointCache : Type 0 where
  pub entries : Table Text CachedEndpointEntry
  pub max_entries : ℕ
  pub ttl : ℕ

unfoldable pub new_endpoint_cache : ℕ → ℕ → EndpointCache
new_endpoint_cache max_entries ttl = record { entries = []; max_entries = max_entries; ttl = ttl }

-- time.Since(entry.cachedAt) >= c.ttl
abbrev pub is_expired : ℕ → ℕ → CachedEndpointEntry → Bool
is_expired now ttl entry = leb (entry.cached_at + ttl) now

load_found :
    EndpointCache
    → Text
    → ℕ
    → Option CachedEndpointEntry
    → EndpointCache × Option CachedEndpointEntry
load_found c key now none = (c, none)
load_found c key now (some entry) =
    if is_expired now c.ttl entry
    then (record c { entries = delete key c.entries }, none)
    else (c, some entry)

unfoldable pub load_entry : EndpointCache → Text → ℕ → EndpointCache × Option CachedEndpointEntry
unfolding load_found
load_entry c key now = load_found c key now (load key c.entries)

-- The loop over the entries keeps the first entry with the least time.
unfoldable pub oldest :
    Option (Text × CachedEndpointEntry)
    → Table Text CachedEndpointEntry
    → Option (Text × CachedEndpointEntry)
oldest best [] = best
oldest none ((k, v) ∷ t) = oldest (some (k, v)) t
oldest (some (j, w)) ((k, v) ∷ t) =
    oldest (if ltb v.cached_at w.cached_at then some (k, v) else some (j, w)) t

delete_oldest :
    Option (Text × CachedEndpointEntry)
    → Table Text CachedEndpointEntry
    → Table Text CachedEndpointEntry
delete_oldest none t = t
delete_oldest (some (k, v)) t = delete k t

is_present : Option CachedEndpointEntry → Bool
is_present none = false
is_present (some v) = true

unfoldable pub make_room : EndpointCache → Text → Table Text CachedEndpointEntry
unfolding oldest delete_oldest is_present
make_room c key =
    if is_present (load key c.entries)
    then c.entries
    else if leb c.max_entries (length c.entries)
    then delete_oldest (oldest none c.entries) c.entries
    else c.entries

unfoldable pub store_entry : EndpointCache → Text → CachedEndpointEntry → EndpointCache
unfolding make_room
store_entry c key entry =
    if leb c.max_entries 0 then c else record c { entries = store key entry (make_room c key) }

pub delete_expired : EndpointCache → ℕ → EndpointCache
delete_expired c now = record c {
  entries = delete_if (λ key entry. is_expired now c.ttl entry) c.entries;
}
