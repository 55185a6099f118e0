-- ===== src/Proxy/Handling/Laws.antt =====
-- What becomes of a connection in `handleConnection` of proxy/proxy.go: it is dropped, or piped to
-- a target that its route allows.
use gerbil.Prelude.{
  ℕ, zero, suc, ◌≡◌, ◌≢◌, ◌⊎◌, inl, inr, refl, true, not, ◌&&◌, Option, none, some, List, [], ◌∷◌,
  ◌++◌, if◌then◌else◌, Text, take, drop, Bool-cases, Option-cases, ap, subst, sym, ◌∙◌,
}
use gerbil.Proxy.Routes.{RouteCache, RouteRecord, SniProxy, RouteResult, get_route}
use gerbil.Proxy.Dialing.{DialResult, IpAddr, dial_route}
use gerbil.Proxy.Dialing.Reached.{IsFailed, IsReached, dial_route-IsReached}
use gerbil.Proxy.Tunnels.{Tunnels, register}
use gerbil.Proxy.Header.{ProxyProtocolInfo, Parsed}
use gerbil.Proxy.Handling.{
  Settings, Client, World, Drop, Outcome, Handling, unread, client_header, extract_sni, named,
  client_text, header_for, connected_to, dialled, route_found, sni_found, header_read, dropped_at,
  handle_connection,
}

abbrev pub IsDropped : {C : Type 0} → Tunnels → Handling C → Type 0
IsDropped t h = (h.tunnels ≡ t) × (reason : Drop) × (h.outcome ≡ Outcome.dropped reason)

take-append-drop : (n : ℕ) (s : Text) → take n s ++ drop n s ≡ s
take-append-drop zero s = refl
take-append-drop (suc n) [] = refl
take-append-drop (suc n) (c ∷ s) = ap (λ l. c ∷ l) (take-append-drop n s)

named_lem :
    (hello : Option Text) (n : ℕ) (bytes : Text)
    → (named hello n bytes ≡ none)
      ⊎ ((c : ℕ) × (name : Text) × (hello ≡ some (c ∷ name))
          × (named hello n bytes ≡ some (c ∷ name, bytes)))
unfolding named
named_lem none n bytes = inl refl
named_lem (some []) n bytes = inl refl
named_lem (some (c ∷ name)) n bytes =
    inr (c, name, refl, ap (λ l. some (c ∷ name, l)) (take-append-drop n bytes))

-- extractSNI gives the name of the ClientHello and a reader of all bytes, also of those it read.
extract_sni_lem :
    (client_hello : Text → Option Text × ℕ) (bytes : Text)
    → (extract_sni client_hello bytes ≡ none)
      ⊎ ((c : ℕ) × (name : Text) × ((client_hello bytes).0 ≡ some (c ∷ name))
          × (extract_sni client_hello bytes ≡ some (c ∷ name, bytes)))
unfolding extract_sni
extract_sni_lem client_hello bytes = named_lem (client_hello bytes).0 (client_hello bytes).1 bytes

pub extract_sni-named :
    (client_hello : Text → Option Text × ℕ) (bytes : Text) (c : ℕ) (name : Text)
    → (client_hello bytes).0 ≡ some (c ∷ name)
    → extract_sni client_hello bytes ≡ some (c ∷ name, bytes)
unfolding extract_sni named
extract_sni-named client_hello bytes c name hello =
    ap (λ o. named o (client_hello bytes).1 bytes) hello
    ∙ ap (λ l. some (c ∷ name, l)) (take-append-drop (client_hello bytes).1 bytes)

module _ {C : Type 0} (cache : RouteCache C) (settings : Settings) (client : Client)
    (world : World) where
  -- The connection is piped: its ClientHello named the host, the route of that name was found, its
  -- target was reached, and the connection is a tunnel of the name.
  pub record IsPiped (p : SniProxy C) (t : Tunnels) (h : Handling C) : Type 0 where
    pub parsed : Parsed
    pub hostname : Text
    pub route : RouteRecord
    pub target : DialResult
    pub header_accepted : client_header settings.trusted_upstreams client ≡ some parsed
    pub hello_named :
        (world.client_hello (parsed.replay ++ unread settings.trusted_upstreams client)).0
        ≡ some hostname
    pub has_hostname : hostname ≢ []
    pub has_route :
        get_route cache p hostname (client_text parsed.info client) world.api world.now
        ≡ (h.proxy, RouteResult.routed route)
    pub reached : IsReached settings.allowed_networks route target
    pub was_piped :
        h.outcome
        ≡ Outcome.piped hostname target
            (header_for settings parsed.info client world)
            (parsed.replay ++ unread settings.trusted_upstreams client)
    pub registered : h.tunnels ≡ register t hostname client.conn

  -- The last steps: a dial that reached the target, and the header.
  abbrev IsStarted :
      SniProxy C
      → Tunnels
      → DialResult
      → Option ProxyProtocolInfo
      → Text
      → Text
      → Handling C
      → Type 0
  IsStarted p t target info hostname reader h =
      (h.proxy ≡ p)
      × (h.outcome ≡ Outcome.piped hostname target (header_for settings info client world) reader)
      × (h.tunnels ≡ register t hostname client.conn)

  connected_to_lem :
      (p : SniProxy C) (t : Tunnels) (attempts : List IpAddr) (target : DialResult)
      (info : Option ProxyProtocolInfo) (hostname reader : Text)
      → let h = connected_to cache settings client world p t attempts target info hostname reader in
        IsDropped t h ⊎ IsStarted p t target info hostname reader h
  unfolding connected_to
  connected_to_lem p t attempts target info hostname reader =
      elim (Bool-cases (settings.proxy_protocol && not world.writes)) [
        | inl failed ↦ rw failed (inl (refl, Drop.header_not_sent, refl))
        | inr fine ↦ rw fine (inr (refl, refl, refl))
      ]

  dialled_lem :
      (p : SniProxy C) (t : Tunnels) (attempts : List IpAddr) (target : DialResult)
      (info : Option ProxyProtocolInfo) (hostname reader : Text) (route : RouteRecord)
      → IsFailed target ⊎ IsReached settings.allowed_networks route target
      → let h = dialled cache settings client world p t attempts target info hostname reader in
        IsDropped t h
        ⊎ (IsReached settings.allowed_networks route target
            × IsStarted p t target info hostname reader h)
  unfolding dialled
  dialled_lem p t attempts DialResult.unresolved info hostname reader route r =
      inl (refl, Drop.not_connected, refl)
  dialled_lem p t attempts DialResult.no_addresses info hostname reader route r =
      inl (refl, Drop.not_connected, refl)
  dialled_lem p t attempts DialResult.outside_networks info hostname reader route r =
      inl (refl, Drop.not_connected, refl)
  dialled_lem p t attempts DialResult.unreachable info hostname reader route r =
      inl (refl, Drop.not_connected, refl)
  dialled_lem p t attempts (DialResult.connected_name host) info hostname reader route
        (inl failed) =
      absurd failed
  dialled_lem p t attempts (DialResult.connected_name host) info hostname reader route (inr r) =
      elim (connected_to_lem p t attempts (DialResult.connected_name host) info hostname reader) [
        | inl d ↦ inl d
        | inr started ↦ inr (r, started)
      ]
  dialled_lem p t attempts (DialResult.connected ip) info hostname reader route (inl failed) =
      absurd failed
  dialled_lem p t attempts (DialResult.connected ip) info hostname reader route (inr r) =
      elim (connected_to_lem p t attempts (DialResult.connected ip) info hostname reader) [
        | inl d ↦ inl d
        | inr started ↦ inr (r, started)
      ]

  -- A routing result and how the handler goes on with it.
  route_found_lem :
      (p : SniProxy C) (t : Tunnels) (r : RouteResult) (info : Option ProxyProtocolInfo)
      (hostname reader : Text)
      → let h = route_found cache settings client world p t r info hostname reader in
        IsDropped t h
        ⊎ ((route : RouteRecord) × (target : DialResult) × (r ≡ RouteResult.routed route)
            × IsReached settings.allowed_networks route target
            × IsStarted p t target info hostname reader h)
  unfolding route_found dropped_at
  route_found_lem p t RouteResult.error info hostname reader = inl (refl, Drop.route_error, refl)
  route_found_lem p t RouteResult.no_route info hostname reader =
      inl (refl, Drop.route_not_found, refl)
  route_found_lem p t (RouteResult.routed route) info hostname reader =
      let d =
        dial_route route settings.allowed_networks world.lookup_net_ip world.dials
          world.dials_name in
      elim (dialled_lem p t d.0 d.1 info hostname reader route (
        dial_route-IsReached settings.allowed_networks world.lookup_net_ip world.dials
          world.dials_name route)) [
            | inl dropped ↦ inl dropped
            | inr (reached, started) ↦ inr (route, d.1, refl, reached, started)
          ]

  module _ (p : SniProxy C) (t : Tunnels) (parsed : Parsed)
      (accepted : client_header settings.trusted_upstreams client ≡ some parsed) where
    abbrev Bytes : Text
    Bytes = parsed.replay ++ unread settings.trusted_upstreams client

    abbrev routing : Text → SniProxy C × RouteResult
    routing hostname =
        get_route cache p hostname (client_text parsed.info client) world.api world.now

    pub cleared :
        (c : ℕ) (name : Text)
        → world.clears_deadline ≡ true
        → sni_found cache settings client world p t (some (c ∷ name, Bytes)) parsed.info
          ≡ route_found cache settings client world
              (routing (c ∷ name)).0
              t
              (routing (c ∷ name)).1
              parsed.info
              (c ∷ name)
              Bytes
    unfolding sni_found
    cleared c name e =
        ap
          (λ b.
            if not b
            then dropped_at cache settings client world p t Drop.deadline_not_cleared
            else route_found cache settings client world (routing (c ∷ name)).0 t
                (routing (c ∷ name)).1 parsed.info (c ∷ name) Bytes)
          e

    after_routing :
        (c : ℕ) (name : Text)
        → (world.client_hello Bytes).0 ≡ some (c ∷ name)
        → let h =
            route_found cache settings client world
              (routing (c ∷ name)).0
              t
              (routing (c ∷ name)).1
              parsed.info
              (c ∷ name)
              Bytes in
          IsDropped t h ⊎ IsPiped p t h
    after_routing c name hello =
        let q = routing (c ∷ name) in
        elim (route_found_lem q.0 t q.1 parsed.info (c ∷ name) Bytes) [
          | inl dropped ↦ inl dropped
          | inr (route, target, found, reached, (same, outcome, registered)) ↦ inr (record {
            parsed = parsed;
            hostname = c ∷ name;
            route = route;
            target = target;
            header_accepted = accepted;
            hello_named = hello;
            has_hostname = λ e. cc;
            has_route = cc;
            reached = reached;
            was_piped = outcome;
            registered = registered;
          })
        ]

    sni_found_lem :
        (c : ℕ) (name : Text)
        → (world.client_hello Bytes).0 ≡ some (c ∷ name)
        → let h = sni_found cache settings client world p t (some (c ∷ name, Bytes)) parsed.info in
          IsDropped t h ⊎ IsPiped p t h
    unfolding sni_found dropped_at
    sni_found_lem c name hello = elim (Bool-cases world.clears_deadline) [
      | inr failed ↦ inl (rw failed refl, Drop.deadline_not_cleared, rw failed refl)
      | inl fine ↦
          subst (λ h. IsDropped t h ⊎ IsPiped p t h) (sym (cleared c name fine))
            (after_routing c name hello)
    ]

    pub set :
        world.sets_deadline ≡ true
        → header_read cache settings client world p t (some parsed)
          ≡ sni_found cache settings client world p t
              (extract_sni world.client_hello Bytes)
              parsed.info
    unfolding header_read
    set e =
        ap
          (λ b.
            if not b
            then dropped_at cache settings client world p t Drop.deadline_not_set
            else sni_found cache settings client world p t (extract_sni world.client_hello Bytes)
                parsed.info)
          e

    after_extracting :
        let h =
          sni_found cache settings client world p t
            (extract_sni world.client_hello Bytes)
            parsed.info in
        IsDropped t h ⊎ IsPiped p t h
    unfolding sni_found dropped_at
    after_extracting = elim (extract_sni_lem world.client_hello Bytes) [
      | inl e ↦ inl (rw e refl, Drop.no_hello, rw e refl)
      | inr (c, name, hello, e) ↦
          subst
            (λ o.
              let h = sni_found cache settings client world p t o parsed.info in
              IsDropped t h ⊎ IsPiped p t h)
            (sym e) (sni_found_lem c name hello)
    ]

    header_read_lem :
        let h = header_read cache settings client world p t (some parsed) in
        IsDropped t h ⊎ IsPiped p t h
    unfolding header_read dropped_at
    header_read_lem = elim (Bool-cases world.sets_deadline) [
      | inr failed ↦ inl (rw failed refl, Drop.deadline_not_set, rw failed refl)
      | inl fine ↦ subst (λ h. IsDropped t h ⊎ IsPiped p t h) (sym (set fine)) after_extracting
    ]

  -- handleConnection either drops a connection, and then the tunnels stay as they were; or pipes
  -- it: then the PROXY header was accepted, the ClientHello named a host, getRoute found a route
  -- for it, the target is that of a local route by its name or else an address within the allowed
  -- networks, the target has got the PROXY header first, if the proxy writes one, what is piped
  -- to it is all bytes behind the header of the client, also those that were read for the name,
  -- and the connection is registered as a tunnel of the name.
  pub handle_connection_lem :
      (p : SniProxy C) (t : Tunnels)
      → let h = handle_connection cache settings client world p t in IsDropped t h ⊎ IsPiped p t h
  unfolding handle_connection header_read dropped_at
  handle_connection_lem p t =
      elim (Option-cases (client_header settings.trusted_upstreams client)) [
        | inl e ↦ inl (rw e refl, Drop.bad_header, rw e refl)
        | inr (parsed, e) ↦
            subst
              (λ o.
                let h = header_read cache settings client world p t o in
                IsDropped t h ⊎ IsPiped p t h)
              (sym e) (header_read_lem p t parsed e)
      ]
