-- ===== src/Proxy/Handling.antt =====
-- One connection of the SNI proxy (proxy/proxy.go): `handleConnection` from the PROXY header to the
-- start of `pipe`, with `extractSNI`. A connection is the bytes that its client sends; what the
-- network, crypto/tls and the route API answer is an argument.
pub mod Laws
pub mod Success
pub mod TwoProxies
use gerbil.Prelude.{
  ℕ, Bool, true, false, not, ◌&&◌, Option, none, some, List, [], ◌∷◌, ◌++◌, if◌then◌else◌, Text,
  itoa, take, drop,
}
use gerbil.Proxy.Routes.{
  has_name, RouteCache, RouteRecord, SniProxy, ApiReply, RouteResult, get_route,
}
use gerbil.Proxy.Dialing.{IpAddr, Prefix, DialResult, dial_route}
use gerbil.Proxy.Tunnels.{Tunnels, register}
use gerbil.Proxy.Header.{
  Ip, Addr, ProxyProtocolInfo, Parsed, regular, parse_proxy_protocol_header,
  build_proxy_protocol_header, build_proxy_protocol_header_from_info,
}

-- The fields of SNIProxy that are set at the start.
pub record Settings : Type 0 where
  pub trusted_upstreams : List Text
  pub allowed_networks : List Prefix
  pub proxy_protocol : Bool

-- A client's connection: its number, RemoteAddr, the host and the text of it, what a first read
-- returns, and the bytes that come after those.
pub record Client : Type 0 where
  pub conn : ℕ
  pub remote_addr : Addr
  pub remote_host : Text
  pub remote_text : Text
  pub first_read : Option Text
  pub later : Text

-- What the calls of other packages return: whether the read deadline can be set and cleared; the
-- server name of a ClientHello, if there is one, and how many bytes reading it took; the route
-- API and the time; the resolver and the dials; net.ParseIP; the local address of the connection
-- to the target, and whether the header can be written to it.
pub record World : Type 0 where
  pub sets_deadline : Bool
  pub clears_deadline : Bool
  pub client_hello : Text → Option Text × ℕ
  pub api : Text → ApiReply
  pub now : ℕ
  pub lookup_net_ip : Text → Option (List IpAddr)
  pub dials : IpAddr → Bool
  pub dials_name : Text → Bool
  pub parse_ip : Text → Option Ip
  pub local_addr : Addr
  pub writes : Bool

-- Where the handler returns early.
pub data Drop : Type 0 where
  bad_header : Drop
  deadline_not_set : Drop
  no_hello : Drop
  no_hostname : Drop
  deadline_not_cleared : Drop
  route_error : Drop
  route_not_found : Drop
  not_connected : Drop
  header_not_sent : Drop

-- How far the handler comes: an early return, or the start of `pipe`, with what was written to the
-- target before and what the reader of the client's side gives.
pub data Outcome : Type 0 where
  dropped : (reason : Drop) → Outcome
  piped : (hostname : Text) (target : DialResult) (header reader : Text) → Outcome

pub record Handling (C : Type 0) : Type 0 where
  pub proxy : SniProxy C
  pub tunnels : Tunnels
  pub attempts : List IpAddr
  pub outcome : Outcome

unfoldable pub text_of : Option Text → Text
text_of none = []
text_of (some s) = s

-- The bytes that no read has taken when the header was looked for: only a trusted connection is
-- read for it.
unfoldable pub unread : List Text → Client → Text
unfolding has_name text_of
unread trusted_upstreams client =
    if has_name client.remote_host trusted_upstreams
    then client.later
    else text_of client.first_read ++ client.later

-- Without trusted upstreams no header is looked for.
unfoldable pub client_header : List Text → Client → Option Parsed
client_header [] client = regular []
client_header (u ∷ us) client =
    parse_proxy_protocol_header (u ∷ us) client.remote_host client.first_read

-- peekClientHello and the test of the name: `n` bytes were read, and are read again.
named : Option Text → ℕ → Text → Option (Text × Text)
named none n bytes = none
named (some []) n bytes = none
named (some (c ∷ name)) n bytes = some (c ∷ name, take n bytes ++ drop n bytes)

pub extract_sni : (Text → Option Text × ℕ) → Text → Option (Text × Text)
unfolding named
extract_sni client_hello bytes = let (hello, n) = client_hello bytes in named hello n bytes

pub client_text : Option ProxyProtocolInfo → Client → Text
client_text none client = client.remote_text
client_text (some info) client = info.src_ip ++ b':' ∷ itoa info.src_port

pub sent_header : Option ProxyProtocolInfo → Client → World → Text
sent_header none client world = build_proxy_protocol_header client.remote_addr world.local_addr
sent_header (some info) client world =
    build_proxy_protocol_header_from_info world.parse_ip info world.local_addr

-- The header of a connection, if the proxy writes one.
pub header_for : Settings → Option ProxyProtocolInfo → Client → World → Text
unfolding sent_header
header_for settings info client world =
    if settings.proxy_protocol then sent_header info client world else []

abbrev pub dialling : Settings → World → RouteRecord → List IpAddr × DialResult
dialling settings world route =
    dial_route route settings.allowed_networks world.lookup_net_ip world.dials world.dials_name

module _ {C : Type 0} (cache : RouteCache C) (settings : Settings) (client : Client)
    (world : World) where
  pub connected_to :
      SniProxy C
      → Tunnels
      → List IpAddr
      → DialResult
      → Option ProxyProtocolInfo
      → Text
      → Text
      → Handling C
  unfolding header_for
  connected_to p t attempts target info hostname reader =
      if settings.proxy_protocol && not world.writes
      then record {
        proxy = p;
        tunnels = t;
        attempts = attempts;
        outcome = Outcome.dropped Drop.header_not_sent;
      }
      else record {
        proxy = p;
        tunnels = register t hostname client.conn;
        attempts = attempts;
        outcome = Outcome.piped hostname target (header_for settings info client world) reader;
      }

  pub dialled :
      SniProxy C
      → Tunnels
      → List IpAddr
      → DialResult
      → Option ProxyProtocolInfo
      → Text
      → Text
      → Handling C
  unfolding connected_to
  dialled p t attempts (DialResult.connected_name host) info hostname reader =
      connected_to p t attempts (DialResult.connected_name host) info hostname reader
  dialled p t attempts (DialResult.connected ip) info hostname reader =
      connected_to p t attempts (DialResult.connected ip) info hostname reader
  dialled p t attempts _ info hostname reader = record {
    proxy = p;
    tunnels = t;
    attempts = attempts;
    outcome = Outcome.dropped Drop.not_connected;
  }

  pub dropped_at : SniProxy C → Tunnels → Drop → Handling C
  dropped_at p t reason = record {
    proxy = p;
    tunnels = t;
    attempts = [];
    outcome = Outcome.dropped reason;
  }

  pub route_found :
      SniProxy C → Tunnels → RouteResult → Option ProxyProtocolInfo → Text → Text → Handling C
  unfolding dialled dropped_at
  route_found p t RouteResult.error info hostname reader = dropped_at p t Drop.route_error
  route_found p t RouteResult.no_route info hostname reader = dropped_at p t Drop.route_not_found
  route_found p t (RouteResult.routed route) info hostname reader =
      let (attempts, target) = dialling settings world route in
      dialled p t attempts target info hostname reader

  pub sni_found :
      SniProxy C → Tunnels → Option (Text × Text) → Option ProxyProtocolInfo → Handling C
  unfolding route_found dropped_at client_text
  sni_found p t none info = dropped_at p t Drop.no_hello
  sni_found p t (some ([], reader)) info = dropped_at p t Drop.no_hostname
  sni_found p t (some (c ∷ name, reader)) info =
      if not world.clears_deadline
      then dropped_at p t Drop.deadline_not_cleared
      else let (routed, result) =
          get_route cache p (c ∷ name) (client_text info client) world.api world.now in
        route_found routed t result info (c ∷ name) reader

  pub header_read : SniProxy C → Tunnels → Option Parsed → Handling C
  unfolding sni_found dropped_at extract_sni unread
  header_read p t none = dropped_at p t Drop.bad_header
  header_read p t (some parsed) =
      if not world.sets_deadline
      then dropped_at p t Drop.deadline_not_set
      else sni_found p t
          (extract_sni world.client_hello
            (parsed.replay ++ unread settings.trusted_upstreams client))
          parsed.info

  pub handle_connection : SniProxy C → Tunnels → Handling C
  unfolding header_read client_header
  handle_connection p t = header_read p t (client_header settings.trusted_upstreams client)
