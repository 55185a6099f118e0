-- ===== src/Proxy/Examples/Handling.antt =====
-- Connections of proxy/proxy.go through one proxy and through two.
use gerbil.Prelude.{
  ◌≡◌, ◌≢◌, ◌⊎◌, refl, true, false, none, some, [], ◌∷◌, ◌++◌, arith, Text, codes, text_eq,
}
use gerbil.Table.{Table, load}
use gerbil.Proxy.Routes.{has_name, get_route, RouteRecord, SniProxy, RouteResult, ApiReply}
use gerbil.Proxy.Dialing.{DialResult, dial_route}
use gerbil.Proxy.Dialing.Reached.{IsFailed}
use gerbil.Proxy.Tunnels.{Tunnels, register, drop_removed, conns_of}
use gerbil.Proxy.Tunnels.Laws.{has_conn}
use gerbil.Proxy.Tunnels.Late.{updates, late_tunnel_stays}
use gerbil.Proxy.Header.{Addr, build_proxy_protocol_header}
use gerbil.Proxy.Handling.{
  Settings, Client, World, Outcome, client_header, unread, text_of, header_for, dialling,
  handle_connection,
}
use gerbil.Proxy.Handling.Laws.{IsDropped, IsPiped, handle_connection_lem}
use gerbil.Proxy.Handling.TwoProxies.{sent, two_proxies_lem}
use gerbil.Proxy.Handling.Success.{handle_connection-Pipes}
use gerbil.Proxy.Examples.Routing.{Entry, items, proxy, site}
use gerbil.Proxy.Examples.Headers.{
  client as client_ip, next as next_ip, target as target_ip, parse_ip, upstream as upstream_host,
  client-IsWord, target-IsWord, hello,
}

abbrev no_tunnels : Tunnels
no_tunnels = record { active_tunnels = []; closed = [] }

-- Both proxies have the name as their own.
abbrev local_proxy : SniProxy (Table Text Entry)
local_proxy = record proxy { local_snis = site ∷ [] }

abbrev first_settings : Settings
first_settings = record { trusted_upstreams = []; allowed_networks = []; proxy_protocol = true }

abbrev second_settings : Settings
second_settings = record first_settings { trusted_upstreams = upstream_host ∷ [] }

abbrev client : Client
client = record {
  conn = 3;
  remote_addr = Addr.tcp client_ip 40000;
  remote_host = client_ip.text;
  remote_text = codes "9.9.9.9:40000";
  first_read = some hello;
  later = 5 ∷ 6 ∷ [];
}

-- A ClientHello is three bytes here, and names the site.
abbrev first_world : World
first_world = record {
  sets_deadline = true;
  clears_deadline = true;
  client_hello = λ bytes. (some site, 3);
  api = λ name. ApiReply.failed;
  now = 0;
  lookup_net_ip = λ name. none;
  dials = λ ip. false;
  dials_name = λ name. true;
  parse_ip = parse_ip;
  local_addr = Addr.tcp target_ip 443;
  writes = true;
}

abbrev second_world : World
second_world = record first_world { local_addr = Addr.tcp next_ip 8443 }

handle_connection_lem_example :
    let h = handle_connection items first_settings client first_world local_proxy no_tunnels in
    IsDropped no_tunnels h
    ⊎ IsPiped items first_settings client first_world local_proxy no_tunnels h
handle_connection_lem_example =
    handle_connection_lem items first_settings client first_world local_proxy no_tunnels

abbrev route : RouteRecord
route = record {
  hostname = site;
  target_host = codes "127.0.0.1";
  target_port = 443;
  remote = false;
}

abbrev target : DialResult
target = DialResult.connected_name (codes "127.0.0.1")

abbrev first_header : Text
first_header = header_for first_settings none client first_world

-- The connection of the first proxy to the second.
abbrev upstream : Client
upstream = record {
  conn = 9;
  remote_addr = Addr.tcp target_ip 50000;
  remote_host = upstream_host;
  remote_text = codes "10.0.0.9:50000";
  first_read = some (first_header ++ hello);
  later = 5 ∷ 6 ∷ [];
}

is_named : site ≢ []
is_named e = cc

routed_local :
    (text : Text)
    → (get_route items local_proxy site text first_world.api 0).1 ≡ RouteResult.routed route
unfolding get_route has_name
routed_local text = refl

reached_local :
    (settings : Settings) (world : World)
    → world.dials_name (codes "127.0.0.1") ≡ true
    → (dialling settings world route).1 ≡ target
unfolding dial_route
reached_local settings world e = rw e refl

connects_local :
    (settings : Settings) (world : World)
    → world.dials_name (codes "127.0.0.1") ≡ true
    → ¬ IsFailed (dialling settings world route).1
connects_local settings world e f = rw (reached_local settings world e) at f

first_received :
    client_header first_settings.trusted_upstreams client
    ≡ some (record { info = none; replay = []; deadline = false })
unfolding client_header
first_received = refl

first_run :
    (handle_connection items first_settings client first_world local_proxy no_tunnels).outcome
    ≡ Outcome.piped site target first_header (hello ++ 5 ∷ 6 ∷ [])
unfolding unread has_name text_of dial_route
first_run =
    (handle_connection-Pipes items first_settings client first_world local_proxy no_tunnels
      (record { info = none; replay = []; deadline = false }) site route first_received refl refl
      is_named refl (routed_local _) (connects_local first_settings first_world refl) refl).0

second_trusted : has_name upstream_host second_settings.trusted_upstreams ≡ true
unfolding has_name
second_trusted = refl

first_direct : has_name client.remote_host first_settings.trusted_upstreams ≡ false
unfolding has_name
first_direct = refl

two_proxies_lem_example :
    (handle_connection items second_settings upstream second_world local_proxy no_tunnels).outcome
    ≡ Outcome.piped site
        (dialling second_settings second_world route).1
        (build_proxy_protocol_header (Addr.tcp client_ip 40000) (Addr.tcp next_ip 8443))
        (sent client)
two_proxies_lem_example =
    two_proxies_lem items first_settings second_settings client upstream first_world second_world
      local_proxy local_proxy no_tunnels no_tunnels client_ip target_ip next_ip 40000 443 8443 site
      target first_header (hello ++ 5 ∷ 6 ∷ []) hello route first_direct second_trusted refl refl
      refl refl refl client-IsWord target-IsWord (omega arith) (omega arith) refl refl first_run
      refl refl refl refl refl (routed_local _) (connects_local second_settings second_world refl)
      refl

was_local : has_name site (site ∷ []) ≡ true
unfolding has_name
was_local = refl

not_new : has_name site [] ≡ false
unfolding has_name
not_new = refl

late_tunnel_stays_example :
    (load site (drop_removed (site ∷ []) [] no_tunnels).active_tunnels ≡ none)
    × (has_conn 3 (
          conns_of (
            load site
              (updates []
                ([] ∷ [])
                (register (drop_removed (site ∷ []) [] no_tunnels) site 3)).active_tunnels))
        ≡ true)
late_tunnel_stays_example =
    late_tunnel_stays (site ∷ []) [] ([] ∷ []) no_tunnels site 3 was_local not_new (not_new, tt)
