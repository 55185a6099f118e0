-- ===== src/Proxy/Examples/Routing.antt =====
-- Routes of proxy/proxy.go with a route cache that is an association list.
use gerbil.Prelude.{
  ℕ, ◌*◌, ◌+◌, ◌≡◌, ◌^◌, ◌⊎◌, refl, true, false, Option, none, some, List, [], ◌∷◌, arith,
  if◌then◌else◌, ltb, Text, text_eq, text_beq_iff, codes, get_elem?, All,
}
use gerbil.Table.{Table, load, store, delete, load-store, load-delete}
use gerbil.Proxy.Routes.{
  RouteRecord, RouteCache, IsRouteCache, SniProxy, ApiReply, RouteResult, has_name, get_route,
  update_local_snis, resolved_route, replied, cached_or_asked, select_sticky_endpoint,
}
use gerbil.Proxy.Routes.Sticky.{select_sticky_endpoint_lem}
use gerbil.Proxy.Routes.Laws.{get_route_again}
use gerbil.Proxy.Dialing.{
  IpAddr, Prefix, dial_route, is_allowed, all_allowed, Tried, dial_route_lem,
}

abbrev pub Entry : Type 0
Entry = Option RouteRecord × ℕ

-- An item is there until its time.
abbrev unexpired : Option Entry → ℕ → Option (Option RouteRecord)
unexpired none now = none
unexpired (some (v, expiry)) now = if ltb now expiry then some v else none

abbrev pub items : RouteCache (Table Text Entry)
items = record {
  get = λ c key now. unexpired (load key c) now;
  set = λ c key v duration now. store key (v, now + duration) c;
  delete = λ c key. delete key c;
}

items-IsRouteCache : IsRouteCache items
items-IsRouteCache = record {
  get-set = λ c key v duration now later soon. ground (
    arith,
    load-store {K = Text} {V = Entry} key key (v, now + duration) c,
    text_beq_iff key key,
  );
  get-delete = λ c key now.
      ground (arith, load-delete {K = Text} {V = Entry} key key c, text_beq_iff key key);
  get-delete-other = λ c key other now ne.
      ground (arith, load-delete {K = Text} {V = Entry} key other c, text_beq_iff key other);
}

abbrev pub proxy : SniProxy (Table Text Entry)
proxy = record {
  local_proxy_addr = codes "127.0.0.1";
  local_proxy_port = 443;
  local_overrides = codes "admin.example" ∷ [];
  local_snis = [];
  routes = [];
  asked = [];
}

abbrev pub site : Text
site = codes "site.example"

abbrev two_endpoints : List Text
two_endpoints = codes "10.0.0.1" ∷ codes "10.0.0.2" ∷ []

abbrev api : Text → ApiReply
api name = ApiReply.response 200 (some two_endpoints)

abbrev no_api : Text → ApiReply
no_api name = ApiReply.response 404 none

abbrev client : Text
client = codes "198.51.100.4:40000"

abbrev client_again : Text
client_again = codes "198.51.100.4:40001"

not_overridden : has_name site proxy.local_overrides ≡ false
unfolding has_name
not_overridden = refl

not_local : has_name site proxy.local_snis ≡ false
unfolding has_name
not_local = refl

listed : has_name site (site ∷ []) ≡ true
unfolding has_name
listed = refl

not_cached : items.get proxy.routes site 0 ≡ none
unfolding load
not_cached = refl

get_route_again_example :
    let (p', answer) = get_route items proxy site client api 0 in
    (answer ≡ RouteResult.routed (resolved_route items proxy site client two_endpoints))
    × (get_route items p' site client_again api 1000 ≡ (p', answer))
get_route_again_example =
    get_route_again items items-IsRouteCache proxy site client client_again api api 0 1000
      (codes "10.0.0.1") (codes "10.0.0.2" ∷ []) not_overridden not_local not_cached refl
      (omega arith)

abbrev updated : SniProxy (Table Text Entry)
updated = update_local_snis items proxy (site ∷ [])

abbrev failing : Text → ApiReply
failing name = ApiReply.failed

fails : (get_route items proxy site client failing 0).1 ≡ RouteResult.error
unfolding get_route cached_or_asked replied has_name load
fails = refl

select_sticky_endpoint_lem_example :
    (i : ℕ) × (get_elem? two_endpoints i
      ≡ some (select_sticky_endpoint proxy.local_proxy_addr client two_endpoints))
select_sticky_endpoint_lem_example =
    select_sticky_endpoint_lem proxy.local_proxy_addr client two_endpoints (omega arith)
      (omega arith)

-- 10.0.0.0/8
abbrev private : List Prefix
private = (record { addr = IpAddr.v4 (167772160); length = 8 }) ∷ []

abbrev remote_route : RouteRecord
remote_route = record {
  hostname = site;
  target_host = codes "node.example";
  target_port = 443;
  remote = true;
}

abbrev answers : List IpAddr
answers = IpAddr.v4 (167772160 + 1) ∷ IpAddr.v6 (65535 * 2 ^ 32 + 167772160 + 2) ∷ []

dial_route_lem_example :
    let r = dial_route remote_route private (λ host. some answers) (λ ip. true) (λ host. true) in
    ((r.0 ≡ []) × ((answers ≡ []) ⊎ (all_allowed private answers ≡ false)))
    ⊎ (All (λ ip. is_allowed private ip ≡ true) answers × Tried (λ ip. true) answers r)
dial_route_lem_example =
    dial_route_lem remote_route private (λ host. some answers) (λ ip. true) (λ host. true) answers
      refl refl
