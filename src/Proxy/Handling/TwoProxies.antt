-- ===== src/Proxy/Handling/TwoProxies.antt =====
-- Two proxies of proxy/proxy.go in a row: what the second one sends to its target.
use mathlib.Core.Option.{some-injective}
use gerbil.Prelude.{
  ℕ, ◌≡◌, ◌≢◌, ◌<◌, ◌^◌, refl, true, false, none, some, List, [], ◌∷◌, ◌++◌, Text, pos, inl, inr,
  ap, sym, ◌∙◌,
}
use gerbil.Proxy.Routes.{has_name, RouteCache, RouteRecord, SniProxy, RouteResult, get_route}
use gerbil.Proxy.Dialing.{DialResult}
use gerbil.Proxy.Dialing.Reached.{IsFailed}
use gerbil.Proxy.Tunnels.{Tunnels}
use gerbil.Proxy.Header.{
  Ip, Addr, ProxyProtocolInfo, Parsed, regular, header_info, build_proxy_protocol_header,
  mapped_prefix, parse_proxy_protocol_header,
}
use gerbil.Proxy.Header.Fields.{IsWord}
use gerbil.Proxy.Header.Laws.{parse-untrusted}
use gerbil.Proxy.Header.Chain.{parse-build, build-from_info}
use gerbil.Proxy.Handling.Success.{handle_connection-Pipes}
use gerbil.Proxy.Handling.{
  Settings, Client, World, Outcome, unread, client_header, text_of, client_text, header_for,
  sent_header, dialling, handle_connection,
}
use gerbil.Proxy.Handling.Laws.{handle_connection_lem}

client_header_untrusted :
    (trusted : List Text) (client : Client)
    → has_name client.remote_host trusted ≡ false
    → client_header trusted client ≡ regular []
unfolding client_header
client_header_untrusted [] client h = refl
client_header_untrusted (u ∷ us) client h =
    parse-untrusted (u ∷ us) client.remote_host client.first_read h

client_header_trusted :
    (trusted : List Text) (client : Client)
    → has_name client.remote_host trusted ≡ true
    → client_header trusted client
      ≡ parse_proxy_protocol_header trusted client.remote_host client.first_read
unfolding client_header has_name
client_header_trusted [] client h = cc
client_header_trusted (u ∷ us) client h = refl

unread_untrusted :
    (trusted : List Text) (client : Client)
    → has_name client.remote_host trusted ≡ false
    → unread trusted client ≡ text_of client.first_read ++ client.later
unfolding unread
unread_untrusted trusted client h = rw h refl

unread_trusted :
    (trusted : List Text) (client : Client)
    → has_name client.remote_host trusted ≡ true
    → unread trusted client ≡ client.later
unfolding unread
unread_trusted trusted client h = rw h refl

-- All that a client sends.
abbrev pub sent : Client → Text
sent client = text_of client.first_read ++ client.later

-- What is known of a connection whose header is not looked for.
abbrev regular_parsed : Parsed
regular_parsed = record { info = none; replay = []; deadline = false }

-- A connection that no upstream is trusted for, where it is piped.
direct_lem :
    {C : Type 0} (cache : RouteCache C) (settings : Settings) (client : Client) (world : World)
    (p : SniProxy C) (t : Tunnels) (hostname : Text) (target : DialResult) (header reader : Text)
    → has_name client.remote_host settings.trusted_upstreams ≡ false
    → (handle_connection cache settings client world p t).outcome
      ≡ Outcome.piped hostname target header reader
    → (header ≡ header_for settings none client world)
      × (reader ≡ sent client)
      × ((world.client_hello (sent client)).0 ≡ some hostname)
      × (hostname ≢ [])
direct_lem cache settings client world p t hostname target header reader untrusted piped =
    elim (handle_connection_lem cache settings client world p t) [
      | inl (same, reason, dropped) ↦ cc
      | inr i ↦
          let plain : regular_parsed ≡ i.parsed = some-injective regular_parsed i.parsed (
            sym (client_header_untrusted settings.trusted_upstreams client untrusted)
            ∙ i.header_accepted) in
          let head : header_for settings i.parsed.info client world
              ≡ header_for settings none client world =
            ap (λ q. header_for settings q.info client world) (sym plain) in
          let all : i.parsed.replay ++ unread settings.trusted_upstreams client ≡ sent client =
            ap (λ q. q.replay ++ unread settings.trusted_upstreams client) (sym plain)
            ∙ unread_untrusted settings.trusted_upstreams client untrusted in
          let host : i.hostname ≡ hostname = cc (i.was_piped) in
          (
            cc (i.was_piped),
            cc (i.was_piped),
            sym (ap (λ l. (world.client_hello l).0) all) ∙ i.hello_named ∙ ap (λ l. some l) host,
            λ e. i.has_hostname (host ∙ e),
          )
    ]

-- A client that connects to a first proxy, and the connection of the first proxy to a second one
-- that trusts it. Both write PROXY headers.
module _ {C : Type 0} (cache : RouteCache C) (a b : Settings) (client upstream : Client)
    (wa wb : World) (pa pb : SniProxy C) (ta tb : Tunnels) (ip at_a at_b : Ip)
    (port port_a port_b : ℕ) (hostname : Text) (target : DialResult) (header reader part : Text)
    (route : RouteRecord) (direct : has_name client.remote_host a.trusted_upstreams ≡ false)
    (trusted : has_name upstream.remote_host b.trusted_upstreams ≡ true)
    (writes_a : a.proxy_protocol ≡ true) (writes_b : b.proxy_protocol ≡ true)
    (from : client.remote_addr ≡ Addr.tcp ip port) (out_a : wa.local_addr ≡ Addr.tcp at_a port_a)
    (out_b : wb.local_addr ≡ Addr.tcp at_b port_b) (word : IsWord ip.text)
    (word_a : IsWord at_a.text) (small : port < 2 ^ 63) (small_a : port_a < 2 ^ 63)
    (bare : wb.parse_ip ip.text ≡ some ip)
    (mapped : wb.parse_ip (mapped_prefix ++ ip.text) ≡ some ip)
    (piped : (handle_connection cache a client wa pa ta).outcome
      ≡ Outcome.piped hostname target header reader)
    (first : upstream.first_read ≡ some (header ++ part)) (rest : part ++ upstream.later ≡ reader)
    (same_tls : wb.client_hello ≡ wa.client_hello) (sets : wb.sets_deadline ≡ true)
    (clears : wb.clears_deadline ≡ true)
    (routed : (get_route cache pb hostname
        (client_text (some (header_info ip (pos port) at_a port_a)) upstream)
        wb.api
        wb.now).1
      ≡ RouteResult.routed route)
    (connects : ¬ IsFailed (dialling b wb route).1) (writes : wb.writes ≡ true) where
  abbrev info : ProxyProtocolInfo
  info = header_info ip (pos port) at_a port_a

  abbrev parsed_b : Parsed
  parsed_b = record { info = some info; replay = part; deadline = false }

  first_named :
      (header ≡ header_for a none client wa)
      × (reader ≡ sent client)
      × ((wa.client_hello (sent client)).0 ≡ some hostname)
      × (hostname ≢ [])
  first_named = direct_lem cache a client wa pa ta hostname target header reader direct piped

  first_header : header ≡ build_proxy_protocol_header (Addr.tcp ip port) (Addr.tcp at_a port_a)
  unfolding header_for sent_header
  first_header = first_named.0 ∙ rw (writes_a, from, out_a) refl

  accepted_b : client_header b.trusted_upstreams upstream ≡ some parsed_b
  accepted_b =
      client_header_trusted b.trusted_upstreams upstream trusted
      ∙ ap (parse_proxy_protocol_header b.trusted_upstreams upstream.remote_host)
          (first ∙ ap (λ h. some (h ++ part)) first_header)
      ∙ parse-build wb.parse_ip ip at_a port port_a word word_a small small_a bare mapped
          b.trusted_upstreams upstream.remote_host part trusted

  all_bytes : part ++ unread b.trusted_upstreams upstream ≡ sent client
  all_bytes =
      ap (λ l. part ++ l) (unread_trusted b.trusted_upstreams upstream trusted)
      ∙ rest
      ∙ first_named.1

  second_header :
      header_for b (some info) upstream wb
      ≡ build_proxy_protocol_header (Addr.tcp ip port) (Addr.tcp at_b port_b)
  unfolding header_for sent_header
  second_header =
      rw (writes_b, out_b)
        (build-from_info wb.parse_ip ip at_a port port_a word word_a small small_a bare mapped at_b
          port_b)

  same_hello : (wb.client_hello (part ++ unread b.trusted_upstreams upstream)).0 ≡ some hostname
  same_hello =
      ap (λ f. (f (part ++ unread b.trusted_upstreams upstream)).0) same_tls
      ∙ ap (λ l. (wa.client_hello l).0) all_bytes
      ∙ first_named.2

  -- Let a first proxy, which does not trust the client, pipe a client's connection to a second
  -- one, which trusts the first. If both write PROXY headers, read ClientHellos alike, and use
  -- TCP, the second gets the whole header in its first read, and its deadlines, route, dial and
  -- write succeed, then it pipes to its target, under the name that the first one found, the
  -- header that names the client and the second proxy's own address, and then exactly the bytes
  -- that the client sent. The addresses of the client and of the first proxy's connection are
  -- words with ports below 2^63, and parsing an IP gives the client for its text with and without
  -- ::ffff:.
  pub two_proxies_lem :
      (handle_connection cache b upstream wb pb tb).outcome
      ≡ Outcome.piped hostname
          (dialling b wb route).1
          (build_proxy_protocol_header (Addr.tcp ip port) (Addr.tcp at_b port_b))
          (sent client)
  two_proxies_lem =
      (handle_connection-Pipes cache b upstream wb pb tb parsed_b hostname route accepted_b sets
        clears first_named.3 same_hello routed connects writes).0
      ∙ ap
          (λ h.
            Outcome.piped hostname (dialling b wb route).1 h
              (part ++ unread b.trusted_upstreams upstream))
          second_header
      ∙ ap
          (Outcome.piped hostname (dialling b wb route).1
            (build_proxy_protocol_header (Addr.tcp ip port) (Addr.tcp at_b port_b)))
          all_bytes
