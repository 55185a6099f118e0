-- ===== src/Proxy/Handling/Success.antt =====
-- When `handleConnection` of proxy/proxy.go pipes.
use gerbil.Prelude.{
  ℕ, ◌≡◌, ◌≢◌, refl, true, false, not, ◌&&◌, Option, some, List, [], ◌∷◌, ◌++◌, Text, subst, sym,
  arith,
}
use gerbil.Proxy.Routes.{RouteCache, RouteRecord, SniProxy, RouteResult, get_route}
use gerbil.Proxy.Dialing.{DialResult, IpAddr}
use gerbil.Proxy.Dialing.Reached.{IsFailed}
use gerbil.Proxy.Tunnels.{Tunnels, register}
use gerbil.Proxy.Header.{ProxyProtocolInfo, Parsed}
use gerbil.Proxy.Handling.{
  Settings, Client, World, Outcome, Handling, unread, client_header, extract_sni, client_text,
  header_for, connected_to, dialled, dialling, route_found, sni_found, header_read,
  handle_connection,
}
use gerbil.Proxy.Handling.Laws.{extract_sni-named, cleared, set}

module _ {C : Type 0} (cache : RouteCache C) (settings : Settings) (client : Client)
    (world : World) where
  -- The connection is piped to `target` as a tunnel of the name.
  abbrev Pipes : Tunnels → Option ProxyProtocolInfo → Text → DialResult → Text → Handling C → Type 0
  Pipes t info hostname target reader h =
      (h.outcome ≡ Outcome.piped hostname target (header_for settings info client world) reader)
      × (h.tunnels ≡ register t hostname client.conn)

  module _ (p : SniProxy C) (t : Tunnels) (writes : world.writes ≡ true) where
    connected_to-Pipes :
        (attempts : List IpAddr) (target : DialResult) (info : Option ProxyProtocolInfo)
        (hostname reader : Text)
        → Pipes t info hostname target reader
            (connected_to cache settings client world p t attempts target info hostname reader)
    unfolding connected_to
    connected_to-Pipes attempts target info hostname reader =
        let sent : (settings.proxy_protocol && not world.writes) ≡ false = ground arith in
        rw sent (refl, refl)

    dialled-Pipes :
        (attempts : List IpAddr) (target : DialResult) (info : Option ProxyProtocolInfo)
        (hostname reader : Text)
        → ¬ IsFailed target
        → Pipes t info hostname target reader
            (dialled cache settings client world p t attempts target info hostname reader)
    unfolding dialled
    dialled-Pipes attempts DialResult.unresolved info hostname reader ok = absurd (ok tt)
    dialled-Pipes attempts DialResult.no_addresses info hostname reader ok = absurd (ok tt)
    dialled-Pipes attempts DialResult.outside_networks info hostname reader ok = absurd (ok tt)
    dialled-Pipes attempts DialResult.unreachable info hostname reader ok = absurd (ok tt)
    dialled-Pipes attempts (DialResult.connected_name host) info hostname reader ok =
        connected_to-Pipes attempts (DialResult.connected_name host) info hostname reader
    dialled-Pipes attempts (DialResult.connected ip) info hostname reader ok =
        connected_to-Pipes attempts (DialResult.connected ip) info hostname reader

  module _ (p : SniProxy C) (t : Tunnels) (parsed : Parsed) (c : ℕ) (name : Text)
      (route : RouteRecord)
      (accepted : client_header settings.trusted_upstreams client ≡ some parsed)
      (sets : world.sets_deadline ≡ true) (clears : world.clears_deadline ≡ true)
      (hello : (world.client_hello (parsed.replay ++ unread settings.trusted_upstreams client)).0
        ≡ some (c ∷ name))
      (found : (get_route cache p (c ∷ name) (client_text parsed.info client) world.api world.now).1
        ≡ RouteResult.routed route)
      (connects : ¬ IsFailed (dialling settings world route).1) (writes : world.writes ≡ true) where
    abbrev IsSuccess : Handling C → Type 0
    IsSuccess =
        Pipes t parsed.info (c ∷ name) (dialling settings world route).1
          (parsed.replay ++ unread settings.trusted_upstreams client)

    route_found-IsSuccess :
        (routed : SniProxy C)
        → IsSuccess (
            route_found cache settings client world routed t
              (RouteResult.routed route)
              parsed.info
              (c ∷ name)
              (parsed.replay ++ unread settings.trusted_upstreams client))
    unfolding route_found
    route_found-IsSuccess routed =
        dialled-Pipes routed t writes (dialling settings world route).0
          (dialling settings world route).1 parsed.info (c ∷ name)
          (parsed.replay ++ unread settings.trusted_upstreams client) connects

    sni_found-IsSuccess : IsSuccess (
        sni_found cache settings client world p t
          (extract_sni world.client_hello
            (parsed.replay ++ unread settings.trusted_upstreams client))
          parsed.info)
    sni_found-IsSuccess =
        subst (λ o. IsSuccess (sni_found cache settings client world p t o parsed.info))
          (sym (
            extract_sni-named world.client_hello
              (parsed.replay ++ unread settings.trusted_upstreams client) c name hello))
          (subst (λ h. IsSuccess h)
            (sym (cleared cache settings client world p t parsed accepted c name clears))
            (subst
              (λ r. IsSuccess (
                route_found cache settings client world
                  (get_route cache p (c ∷ name) (client_text parsed.info client) world.api
                    world.now).0
                  t r parsed.info (c ∷ name)
                  (parsed.replay ++ unread settings.trusted_upstreams client)))
              (sym found) (route_found-IsSuccess _)))

    handle_connection_named-Pipes : IsSuccess (handle_connection cache settings client world p t)
    unfolding handle_connection
    handle_connection_named-Pipes =
        subst (λ o. IsSuccess (header_read cache settings client world p t o)) (sym accepted)
          (subst (λ h. IsSuccess h) (sym (set cache settings client world p t parsed accepted sets))
            sni_found-IsSuccess)

  -- Where all goes well, the connection is piped.
  pub handle_connection-Pipes :
      (p : SniProxy C) (t : Tunnels) (parsed : Parsed) (hostname : Text) (route : RouteRecord)
      → client_header settings.trusted_upstreams client ≡ some parsed
      → world.sets_deadline ≡ true
      → world.clears_deadline ≡ true
      → hostname ≢ []
      → (world.client_hello (parsed.replay ++ unread settings.trusted_upstreams client)).0
        ≡ some hostname
      → (get_route cache p hostname (client_text parsed.info client) world.api world.now).1
        ≡ RouteResult.routed route
      → ¬ IsFailed (dialling settings world route).1
      → world.writes ≡ true
      → Pipes t parsed.info hostname
          (dialling settings world route).1
          (parsed.replay ++ unread settings.trusted_upstreams client)
          (handle_connection cache settings client world p t)
  handle_connection-Pipes p t parsed [] route accepted sets clears ne hello found connects writes =
      absurd (ne refl)
  handle_connection-Pipes p t parsed (c ∷ name) route accepted sets clears ne hello found connects
        writes =
      handle_connection_named-Pipes p t parsed c name route accepted sets clears hello found
        connects writes
