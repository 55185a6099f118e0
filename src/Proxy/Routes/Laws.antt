-- ===== src/Proxy/Routes/Laws.antt =====
-- What `getRoute` of proxy/proxy.go answers: local names, the cache, the API, and what remains of
-- an answer for the next client.
use gerbil.Prelude.{
  ℕ, ◌+◌, ◌<◌, ◌≡◌, ◌⊎◌, inl, inr, refl, true, false, Option, none, some, List, [], ◌∷◌, arith,
  Text, text_beq, text_beq_iff, Bool-cases, ◌∙◌,
}
use gerbil.Proxy.Routes.{
  RouteRecord, RouteCache, IsRouteCache, SniProxy, ApiReply, RouteResult, has_name, local_route,
  resolved_route, decoded, replied, cached_or_asked, get_route, invalidate, update_local_snis,
  default_expiration, minute,
}

module _ {C : Type 0} (cache : RouteCache C) (laws : IsRouteCache cache) where
  invalidate-get-none :
      (ds : List Text) (c : C) (d : Text) (now : ℕ)
      → (has_name d ds ≡ true) ⊎ (cache.get c d now ≡ none)
      → cache.get (invalidate cache ds c) d now ≡ none
  unfolding invalidate has_name
  invalidate-get-none [] c d now (inl h) = absurd (cc)
  invalidate-get-none [] c d now (inr h) = h
  invalidate-get-none (x ∷ ds) c d now h =
      invalidate-get-none ds (cache.delete c x) d now (elim (Bool-cases (text_beq x d)) [
        | inl same ↦ inr (rw ((text_beq_iff x d).0 same) (laws.get-delete c d now))
        | inr other ↦ elim h [
          | inl listed ↦ inl (rw other at listed)
          | inr absent ↦ inr (
              laws.get-delete-other c x d now (λ e. absurd (cc (other, (text_beq_iff x d).1 e)))
              ∙ absent)
        ]
      ])

  -- A name that is local or overridden.
  abbrev IsLocal : SniProxy C → Text → Type 0
  IsLocal p hostname =
      (has_name hostname p.local_overrides ≡ true) ⊎ (has_name hostname p.local_snis ≡ true)

  get_route_of_local :
      (p : SniProxy C) (hostname client_addr : Text) (api : Text → ApiReply) (now : ℕ)
      → IsLocal p hostname
      → get_route cache p hostname client_addr api now
        ≡ (p, RouteResult.routed (local_route cache p hostname))
  unfolding get_route
  get_route_of_local p hostname client_addr api now (inl h) = rw h refl
  get_route_of_local p hostname client_addr api now (inr h) =
      elim (Bool-cases (has_name hostname p.local_overrides)) [
        | inl o ↦ rw o refl
        | inr o ↦ rw (o, h) refl
      ]

  get_route-update_local_snis :
      (p : SniProxy C) (full_domains : List Text) (hostname client_addr : Text)
      (api : Text → ApiReply) (now : ℕ)
      → let p' = update_local_snis cache p full_domains in
        (has_name hostname full_domains ≡ true
          → get_route cache p' hostname client_addr api now
            ≡ (p', RouteResult.routed (local_route cache p hostname)))
        × (has_name hostname p.local_overrides ≡ false
            → has_name hostname full_domains ≡ false
            → get_route cache p' hostname client_addr api now
              ≡ cached_or_asked cache
                  (cache.get p'.routes hostname now)
                  p'
                  hostname
                  client_addr
                  api
                  now)
  unfolding update_local_snis get_route
  get_route-update_local_snis p full_domains hostname client_addr api now = (
    (λ listed.
        get_route_of_local (update_local_snis cache p full_domains) hostname client_addr api now
          (inr listed)),
    (λ plain unlisted. rw (plain, unlisted) refl),
  )

  -- A host name that was local and is not in the next list of UpdateLocalSNIs nor overridden is
  -- looked up at the API at once: getRoute answers with no route from the cache. The cache is any
  -- that has the documented behaviour of go-cache.
  get_route_after_removal :
      (p : SniProxy C) (before after : List Text) (hostname client_addr : Text)
      (api : Text → ApiReply) (now : ℕ)
      → has_name hostname p.local_overrides ≡ false
      → has_name hostname before ≡ true
      → has_name hostname after ≡ false
      → let p' = update_local_snis cache (update_local_snis cache p before) after in
        get_route cache p' hostname client_addr api now
        ≡ replied cache
            (api hostname)
            (record p' { asked = hostname ∷ p.asked })
            hostname
            client_addr
            now
  unfolding update_local_snis get_route cached_or_asked
  get_route_after_removal p before after hostname client_addr api now plain listed unlisted =
      rw
        (
          plain,
          unlisted,
          invalidate-get-none after (invalidate cache before p.routes) hostname now
              (inr (invalidate-get-none before p.routes hostname now (inl listed))),
        )
        refl

  -- If the API answers a cache miss for a name that is neither local nor overridden with
  -- endpoints, getRoute answers with the endpoint chosen for this client, and within three
  -- seconds it gives the same route to every other client, whatever its address, without asking
  -- again. The cache is any that has the documented behaviour of go-cache.
  pub get_route_again :
      (p : SniProxy C) (hostname client_addr other : Text) (api api' : Text → ApiReply)
      (now later : ℕ) (e : Text) (es : List Text)
      → has_name hostname p.local_overrides ≡ false
      → has_name hostname p.local_snis ≡ false
      → cache.get p.routes hostname now ≡ none
      → api hostname ≡ ApiReply.response 200 (some (e ∷ es))
      → later < now + default_expiration
      → let (p', answer) = get_route cache p hostname client_addr api now in
        (answer ≡ RouteResult.routed (resolved_route cache p hostname client_addr (e ∷ es)))
        × (get_route cache p' hostname other api' later ≡ (p', answer))
  unfolding get_route cached_or_asked replied decoded resolved_route
  get_route_again p hostname client_addr other api api' now later e es plain far missing reply
        soon =
      let route = resolved_route cache p hostname client_addr (e ∷ es) in
      rw
        (
          plain,
          far,
          missing,
          cached_or_asked,
          reply,
          replied,
          plain,
          far,
          laws.get-set p.routes hostname (some route) default_expiration now later soon,
        )
        (refl, refl)

  get_route_not_found :
      (p : SniProxy C) (hostname client_addr other : Text) (api api' : Text → ApiReply)
      (now later : ℕ) (body : Option (List Text))
      → has_name hostname p.local_overrides ≡ false
      → has_name hostname p.local_snis ≡ false
      → cache.get p.routes hostname now ≡ none
      → api hostname ≡ ApiReply.response 404 body
      → later < now + minute
      → let (p', answer) = get_route cache p hostname client_addr api now in
        (answer ≡ RouteResult.no_route)
        × (get_route cache p' hostname other api' later ≡ (p', RouteResult.no_route))
  unfolding get_route cached_or_asked replied
  get_route_not_found p hostname client_addr other api api' now later body plain far missing reply
        soon =
      rw
        (
          plain,
          far,
          missing,
          cached_or_asked,
          reply,
          replied,
          plain,
          far,
          laws.get-set p.routes hostname none minute now later soon,
        )
        (refl, refl)

  replied_error :
      (r : ApiReply) (p : SniProxy C) (hostname client_addr : Text) (now : ℕ)
      → (replied cache r p hostname client_addr now).1 ≡ RouteResult.error
      → (replied cache r p hostname client_addr now).0 ≡ p
  unfolding replied decoded
  replied_error ApiReply.failed p hostname client_addr now h = refl
  replied_error (ApiReply.response status none) p hostname client_addr now h = ground arith
  replied_error (ApiReply.response status (some es)) p hostname client_addr now h = ground arith

  cached_or_asked_error :
      (o : Option (Option RouteRecord)) (p : SniProxy C) (hostname client_addr : Text)
      (api : Text → ApiReply) (now : ℕ)
      → (cached_or_asked cache o p hostname client_addr api now).1 ≡ RouteResult.error
      → (cached_or_asked cache o p hostname client_addr api now).0
        ≡ record p { asked = hostname ∷ p.asked }
  unfolding cached_or_asked
  cached_or_asked_error none p hostname client_addr api now h =
      replied_error (api hostname) (record p { asked = hostname ∷ p.asked }) hostname client_addr
        now h
  cached_or_asked_error (some none) p hostname client_addr api now h = absurd (cc)
  cached_or_asked_error (some (some r)) p hostname client_addr api now h = absurd (cc)

  -- Where getRoute returns an error, the cache is as before and nothing but the API request has
  -- happened, so that the next lookup asks again.
  get_route_error :
      (p : SniProxy C) (hostname client_addr : Text) (api : Text → ApiReply) (now : ℕ)
      → (get_route cache p hostname client_addr api now).1 ≡ RouteResult.error
      → (get_route cache p hostname client_addr api now).0 ≡ record p { asked = hostname ∷ p.asked }
  unfolding get_route
  get_route_error p hostname client_addr api now h =
      elim (Bool-cases (has_name hostname p.local_overrides)) [
        | inl o ↦ absurd (cc (rw o at h))
        | inr o ↦ elim (Bool-cases (has_name hostname p.local_snis)) [
          | inl l ↦ absurd (cc (rw (o, l) at h))
          | inr l ↦
              rw (o, l)
                (cached_or_asked_error (cache.get p.routes hostname now) p hostname client_addr api
                  now (rw (o, l) at h))
        ]
      ]
