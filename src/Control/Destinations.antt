-- ===== src/Control/Destinations.antt =====
-- The /router proxy of main.go: `splitDestHeader`, `hostname`, `validateRouterDestination`,
-- `handleRouter` with the rewriting of `routerProxy`, and `dialRouterContext` with
-- `routerIPAllowed`. Headers are a map under lower-case names. An address is its bits; an
-- IPv4-mapped one is its IPv4 address. Name resolution and dialling are arguments.
pub mod Dials
pub mod Rewriting
use gerbil.Prelude.{
  ℕ, suc, ◌+◌, ◌*◌, ◌^◌, Bool, true, false, not, ◌&&◌, ◌||◌, Option, none, some, List, [], ◌∷◌,
  ◌++◌, if◌then◌else◌, leb, Text, text_eq, text_beq, codes, ℤ, pos, lebℤ, atoi,
}
use gerbil.Strings.{cut, split_host_port, starts_with, drop_prefix}
use gerbil.Table.{Table, load, delete}
use gerbil.Control.Router.{Network, unrestricted_router_networks}
use gerbil.Control.Router.Cover
use gerbil.Control.Router.Families.{admits}

scheme_or_http : Text → Option (Text × Text) → Text × Text
scheme_or_http dest none = (codes "http", dest)
scheme_or_http dest (some (scheme, rest)) = (scheme, rest)

pub split_dest_header : Text → Text × Text
unfolding cut scheme_or_http
split_dest_header dest = scheme_or_http dest (cut dest (codes "://"))

host_or_whole : Text → Option (Text × Text) → Text
host_or_whole hostport none = hostport
host_or_whole hostport (some (host, port)) = host

hostname : Text → Text
unfolding split_host_port host_or_whole
hostname hostport = host_or_whole hostport (split_host_port hostport)

-- port < 1 || port > 65535, or no number
pub is_port : Option ℤ → Bool
is_port none = false
is_port (some port) = lebℤ (pos 1) port && lebℤ port (pos 65535)

pub is_address : Option (Text × Text) → Bool
unfolding is_port atoi
is_address none = false
is_address (some (host, port)) = not (text_beq host []) && is_port (atoi port)

-- Whether there is no error.
pub validate_router_destination : Text → Bool
unfolding split_dest_header is_address
validate_router_destination dest =
    let (scheme, hostport) = split_dest_header dest in
    (text_beq scheme (codes "http") || text_beq scheme (codes "https"))
    && is_address (split_host_port hostport)

abbrev pub pangolin_dest_header : Text
pangolin_dest_header = codes "p-dest-header"

abbrev pub pangolin_host_header : Text
pangolin_host_header = codes "p-dest-host-header"

abbrev pub max_router_request_body_bytes : ℕ
max_router_request_body_bytes = 32 * 2 ^ 20

pub record RouterRequest : Type 0 where
  pub headers : Table Text Text
  pub path : Text
  pub content_length : ℤ

-- What is sent on: the URL, the Host header, the name for TLS if it is given, and the headers.
pub record OutRequest : Type 0 where
  pub scheme : Text
  pub url_host : Text
  pub path : Text
  pub host : Text
  pub sni : Option Text
  pub headers : Table Text Text

pub data RouterResult : Type 0 where
  refused : (status : ℕ) → RouterResult
  forwarded : (out : OutRequest) → RouterResult

-- Header.Get
abbrev pub get_header : Text → Table Text Text → Text
get_header name headers = elim (load name headers) [ none ↦ [] | some value ↦ value ]

trim_prefix : Text → Text → Text
trim_prefix prefix s = if starts_with prefix s then drop_prefix prefix s else s

pub rewrite_path : Text → Text
unfolding trim_prefix
rewrite_path path =
    let rest = trim_prefix (codes "/router") path in
    if starts_with (b'/' ∷ []) rest then rest else b'/' ∷ rest

-- The Rewrite function of routerProxy.
unfoldable pub rewrite : RouterRequest → OutRequest
unfolding split_dest_header rewrite_path hostname
rewrite r =
    let (scheme, dest) = split_dest_header (get_header pangolin_dest_header r.headers) in
    let host_override = get_header pangolin_host_header r.headers in
    record {
      scheme = scheme;
      url_host = dest;
      path = rewrite_path r.path;
      host = if text_beq host_override [] then dest else host_override;
      sni = if text_beq host_override [] then none else some (hostname host_override);
      headers = delete pangolin_host_header (delete pangolin_dest_header r.headers);
    }

unfoldable pub handle_router : RouterRequest → RouterResult
unfolding validate_router_destination rewrite
handle_router r =
    let dest = get_header pangolin_dest_header r.headers in
    if text_beq dest []
    then RouterResult.refused 400
    else if not (validate_router_destination dest)
    then RouterResult.refused 400
    else if not (lebℤ r.content_length (pos max_router_request_body_bytes))
    then RouterResult.refused 413
    else RouterResult.forwarded (rewrite r)

pub record RouterAddr : Type 0 where
  pub is_v6 : Bool
  pub bits : List Bool

-- IP.IsGlobalUnicast: not the broadcast, the unspecified, a loopback, a multicast or a link-local
-- address.
is_all : Bool → List Bool → Bool
is_all b [] = true
is_all true (c ∷ bits) = c && is_all true bits
is_all false (c ∷ bits) = not c && is_all false bits

is_loopback_v6 : List Bool → Bool
is_loopback_v6 [] = false
is_loopback_v6 (b ∷ []) = b
is_loopback_v6 (b ∷ c ∷ bits) = not b && is_loopback_v6 (c ∷ bits)

abbrev octet_127 : List Bool
octet_127 = false ∷ true ∷ true ∷ true ∷ true ∷ true ∷ true ∷ true ∷ []

abbrev multicast_v4 : List Bool
multicast_v4 = true ∷ true ∷ true ∷ false ∷ []

-- 169.254
abbrev link_local_v4 : List Bool
link_local_v4 =
    true ∷ false ∷ true ∷ false ∷ true ∷ false ∷ false ∷ true ∷ true ∷ true ∷ true ∷ true ∷ true
    ∷ true ∷ true ∷ false ∷ []

abbrev multicast_v6 : List Bool
multicast_v6 = true ∷ true ∷ true ∷ true ∷ true ∷ true ∷ true ∷ true ∷ []

-- fe80::/10
abbrev link_local_v6 : List Bool
link_local_v6 = true ∷ true ∷ true ∷ true ∷ true ∷ true ∷ true ∷ false ∷ true ∷ false ∷ []

is_global_unicast : RouterAddr → Bool
unfolding is_all is_loopback_v6
is_global_unicast a =
    if a.is_v6
    then not (is_all false a.bits)
      && (not (is_loopback_v6 a.bits)
          && (not (Cover.starts_with multicast_v6 a.bits)
              && not (Cover.starts_with link_local_v6 a.bits)))
    else not (is_all true a.bits)
      && (not (is_all false a.bits)
          && (not (Cover.starts_with octet_127 a.bits)
              && (not (Cover.starts_with multicast_v4 a.bits)
                  && not (Cover.starts_with link_local_v4 a.bits))))

pub router_ip_allowed : List Network → RouterAddr → Bool
unfolding is_global_unicast
router_ip_allowed networks a =
    is_global_unicast a && admits a.is_v6 (unrestricted_router_networks networks) 0 networks a.bits

pub all_router_allowed : List Network → List RouterAddr → Bool
unfolding router_ip_allowed
all_router_allowed networks [] = true
all_router_allowed networks (a ∷ others) =
    router_ip_allowed networks a && all_router_allowed networks others

-- The attempts, and the address of the connection or none for an error.
pub dial_in_turn : (RouterAddr → Bool) → List RouterAddr → List RouterAddr × Option RouterAddr
dial_in_turn dials [] = ([], none)
dial_in_turn dials (a ∷ others) =
    let (attempts, result) = dial_in_turn dials others in
    if dials a then (a ∷ [], some a) else (a ∷ attempts, result)

dial_checked :
    Option (List Network)
    → (RouterAddr → Bool)
    → List RouterAddr
    → List RouterAddr × Option RouterAddr
unfolding all_router_allowed dial_in_turn
dial_checked none dials resolved = ([], none)
dial_checked (some networks) dials resolved =
    if all_router_allowed networks resolved then dial_in_turn dials resolved else ([], none)

pub dial_answers :
    Option (List RouterAddr)
    → Option (List Network)
    → (RouterAddr → Bool)
    → List RouterAddr × Option RouterAddr
unfolding dial_checked
dial_answers none networks dials = ([], none)
dial_answers (some []) networks dials = ([], none)
dial_answers (some (a ∷ others)) networks dials = dial_checked networks dials (a ∷ others)

dial_host :
    Option (Text × Text)
    → (Text → Option (List RouterAddr))
    → Option (List Network)
    → (RouterAddr → Text → Bool)
    → List RouterAddr × Option RouterAddr
unfolding dial_answers
dial_host none resolve networks dials = ([], none)
dial_host (some (host, port)) resolve networks dials =
    dial_answers (resolve host) networks (λ a. dials a port)

-- `networks` is what `routerAllowedNetworks` reads of the device.
pub dial_router_context :
    Text
    → (Text → Option (List RouterAddr))
    → Option (List Network)
    → (RouterAddr → Text → Bool)
    → List RouterAddr × Option RouterAddr
unfolding dial_host split_host_port
dial_router_context addr resolve networks dials =
    dial_host (split_host_port addr) resolve networks dials
