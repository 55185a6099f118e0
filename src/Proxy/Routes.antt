-- ===== src/Proxy/Routes.antt =====
-- Routing of a host name (proxy/proxy.go): `getRoute`, `selectStickyEndpoint`, and the part of
-- `UpdateLocalSNIs` that it reads. The route cache is the package go-cache: its operations and its
-- documented behaviour are parameters. The route API answers by an argument. Times are nanoseconds.
pub mod Laws
pub mod Sticky
use gerbil.Prelude.{
  ℕ, suc, zero, ◌+◌, ◌*◌, ◌/◌, ◌%◌, ◌^◌, ◌<◌, ◌≡◌, ◌≢◌, Bool, true, false, ◌||◌, Option, none, some,
  List, [], ◌∷◌, if◌then◌else◌, ◌==◌, Text, text_beq, length, get_elem?,
}

pub record RouteRecord : Type 0 where
  pub hostname : Text
  pub target_host : Text
  pub target_port : ℕ
  pub remote : Bool

-- The operations of go-cache that the proxy calls. A stored nothing is a negative result; the last
-- argument of `get` and `set` is the time of the call.
pub record RouteCache (C : Type 0) : Type 0 where
  pub get : C → Text → ℕ → Option (Option RouteRecord)
  pub set : C → Text → Option RouteRecord → ℕ → ℕ → C
  pub delete : C → Text → C

-- What the package documents: an item is there until its duration has passed, and only the key of
-- a call is affected.
pub record IsRouteCache {C : Type 0} (cache : RouteCache C) : Type 0 where
  pub get-set :
      (c : C) (key : Text) (v : Option RouteRecord) (duration now later : ℕ)
      → later < now + duration
      → cache.get (cache.set c key v duration now) key later ≡ some v
  pub get-delete : (c : C) (key : Text) (now : ℕ) → cache.get (cache.delete c key) key now ≡ none
  pub get-delete-other :
      (c : C) (key other : Text) (now : ℕ)
      → key ≢ other
      → cache.get (cache.delete c key) other now ≡ cache.get c other now

-- The fields of SNIProxy that routing reads, and the host names that the API was asked for.
pub record SniProxy (C : Type 0) : Type 0 where
  pub local_proxy_addr : Text
  pub local_proxy_port : ℕ
  pub local_overrides : List Text
  pub local_snis : List Text
  pub routes : C
  pub asked : List Text

-- What `httpClient.Do` and the decoder return: an error, or a status and the endpoints, if the
-- body decodes.
pub data ApiReply : Type 0 where
  failed : ApiReply
  response : (status : ℕ) (body : Option (List Text)) → ApiReply

-- (nil, err), (nil, nil) and (route, nil).
pub data RouteResult : Type 0 where
  error : RouteResult
  no_route : RouteResult
  routed : (route : RouteRecord) → RouteResult

-- A key of a map[string]struct{}.
unfoldable pub has_name : Text → List Text → Bool
has_name name [] = false
has_name name (x ∷ xs) = text_beq x name || has_name name xs

-- a ^ b on the lowest `bits` bits.
xor : ℕ → ℕ → ℕ → ℕ
xor zero a b = 0
xor (suc bits) a b = (a + b) % 2 + 2 * xor bits (a / 2) (b / 2)

-- hash/fnv: one byte of New32a.
fnv_write : ℕ → Text → ℕ
unfolding xor
fnv_write hash [] = hash
fnv_write hash (b ∷ bytes) = fnv_write (xor 32 hash b * 16777619 % 2 ^ 32) bytes

pub fnv_sum32 : Text → ℕ
unfolding fnv_write
fnv_sum32 bytes = fnv_write 2166136261 bytes

-- endpoints[index]
element : Option Text → Text
element none = []
element (some e) = e

pub select_sticky_endpoint : Text → Text → List Text → Text
unfolding fnv_sum32 element
select_sticky_endpoint local_proxy_addr client_addr [] = local_proxy_addr
select_sticky_endpoint local_proxy_addr client_addr (e ∷ []) = e
select_sticky_endpoint local_proxy_addr client_addr (e ∷ f ∷ es) =
    element (get_elem? (e ∷ f ∷ es) (fnv_sum32 client_addr % (length (e ∷ f ∷ es) % 2 ^ 32)))

abbrev pub minute : ℕ
minute = 60000000000

-- The default expiration given to cache.New: three seconds.
abbrev pub default_expiration : ℕ
default_expiration = 3000000000

module _ {C : Type 0} (cache : RouteCache C) where
  abbrev pub local_route : SniProxy C → Text → RouteRecord
  local_route p hostname = record {
    hostname = hostname;
    target_host = p.local_proxy_addr;
    target_port = p.local_proxy_port;
    remote = false;
  }

  pub resolved_route : SniProxy C → Text → Text → List Text → RouteRecord
  unfolding select_sticky_endpoint
  resolved_route p hostname client_addr [] = local_route p hostname
  resolved_route p hostname client_addr (e ∷ es) = record {
    hostname = hostname;
    target_host = select_sticky_endpoint p.local_proxy_addr client_addr (e ∷ es);
    target_port = 443;
    remote = true;
  }

  decoded : Option (List Text) → SniProxy C → Text → Text → ℕ → SniProxy C × RouteResult
  unfolding resolved_route
  decoded none p hostname client_addr now = (p, RouteResult.error)
  decoded (some endpoints) p hostname client_addr now =
      let route = resolved_route p hostname client_addr endpoints in
      (
        record p { routes = cache.set p.routes hostname (some route) default_expiration now },
        RouteResult.routed route,
      )

  unfoldable pub replied : ApiReply → SniProxy C → Text → Text → ℕ → SniProxy C × RouteResult
  unfolding decoded
  replied ApiReply.failed p hostname client_addr now = (p, RouteResult.error)
  replied (ApiReply.response status body) p hostname client_addr now =
      if status == 404
      then (record p { routes = cache.set p.routes hostname none minute now }, RouteResult.no_route)
      else if status == 200
      then decoded body p hostname client_addr now
      else (p, RouteResult.error)

  unfoldable pub cached_or_asked :
      Option (Option RouteRecord)
      → SniProxy C
      → Text
      → Text
      → (Text → ApiReply)
      → ℕ
      → SniProxy C × RouteResult
  unfolding replied
  cached_or_asked (some none) p hostname client_addr api now = (p, RouteResult.no_route)
  cached_or_asked (some (some route)) p hostname client_addr api now = (p, RouteResult.routed route)
  cached_or_asked none p hostname client_addr api now =
      replied (api hostname) (record p { asked = hostname ∷ p.asked }) hostname client_addr now

  unfoldable pub get_route :
      SniProxy C → Text → Text → (Text → ApiReply) → ℕ → SniProxy C × RouteResult
  unfolding cached_or_asked has_name
  get_route p hostname client_addr api now =
      if has_name hostname p.local_overrides
      then (p, RouteResult.routed (local_route p hostname))
      else if has_name hostname p.local_snis
      then (p, RouteResult.routed (local_route p hostname))
      else cached_or_asked (cache.get p.routes hostname now) p hostname client_addr api now

  -- The loop of `UpdateLocalSNIs` over the new domains: each is dropped from the cache.
  pub invalidate : List Text → C → C
  invalidate [] c = c
  invalidate (d ∷ ds) c = invalidate ds (cache.delete c d)

  pub update_local_snis : SniProxy C → List Text → SniProxy C
  unfolding invalidate
  update_local_snis p full_domains = record p {
    local_snis = full_domains;
    routes = invalidate full_domains p.routes;
  }
