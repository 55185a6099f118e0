-- ===== src/Control/Requests/Handlers.antt =====
-- What `handleUpdateDestinations` of main.go accepts, and what the relay then does with packets.
use gerbil.Prelude.{
  ℕ, ◌≡◌, ◌≢◌, ◌⊎◌, refl, true, false, Option, none, some, List, [], ◌∷◌, arith, leb, Text, text_eq,
  text_beq, text_beq_iff, codes, length, Bool-cases, Option-cases, inl, inr, sym, subst, ℤ, pos,
  lebℤ, ◌≤ℤ◌, All,
}
use gerbil.Relay.Mappings.{PeerDestination, update_proxy_mapping}
use gerbil.Control.Peers.{Env}
use gerbil.Control.Requests.{
  Api, UpdateDestinationsRequest, any_missing, update_destinations, handle_update_destinations,
}

abbrev IsUsable : PeerDestination → Type 0
IsUsable d = (d.destination_ip ≢ []) × (pos 1 ≤ℤ d.destination_port)

-- A request that may change the mappings.
abbrev IsAcceptable : UpdateDestinationsRequest → Type 0
IsAcceptable r =
    (r.source_ip ≢ [])
    × (pos 1 ≤ℤ r.source_port)
    × (r.destinations ≢ [])
    × All IsUsable r.destinations

text-cases : (t : Text) → ((t ≡ []) × (text_beq t [] ≡ true)) ⊎ ((t ≢ []) × (text_beq t [] ≡ false))
text-cases [] = inl (refl, refl)
text-cases (c ∷ t) = inr (ground arith, refl)

port-cases :
    (port : ℤ)
    → ((¬ (pos 1 ≤ℤ port)) × (lebℤ port (pos 0) ≡ true))
      ⊎ ((pos 1 ≤ℤ port) × (lebℤ port (pos 0) ≡ false))
port-cases port = elim (Bool-cases (lebℤ port (pos 0))) [
  | inl low ↦ inl ((λ h. ground (arith, low, h)), low)
  | inr high ↦ inr (ground (arith, high), high)
]

missing-cases :
    (ds : List PeerDestination)
    → ((¬ All IsUsable ds) × (any_missing ds ≡ true)) ⊎ (All IsUsable ds × (any_missing ds ≡ false))
unfolding any_missing
missing-cases [] = inr (tt, refl)
missing-cases (d ∷ ds) = elim (text-cases d.destination_ip) [
  | inl (empty, t) ↦ inl ((λ a. a.0.0 empty), rw t refl)
  | inr (named, t) ↦ elim (port-cases d.destination_port) [
    | inl (low, p) ↦ inl ((λ a. low a.0.1), rw (t, p) refl)
    | inr (high, p) ↦ elim (missing-cases ds) [
      | inl (bad, m) ↦ inl ((λ a. bad a.1), rw (t, p) m)
      | inr (good, m) ↦ inr (((named, high), good), rw (t, p) m)
    ]
  ]
]

some-eq : {A : Type 0} (a b : A) → some a ≡ some b → a ≡ b
some-eq a b h = cc

list-cases :
    (ds : List PeerDestination)
    → ((¬ (ds ≢ [])) × (leb (length ds) 0 ≡ true)) ⊎ ((ds ≢ []) × (leb (length ds) 0 ≡ false))
list-cases [] = inl ((λ h. h refl), refl)
list-cases (d ∷ ds) = inr (ground arith, ground arith)

module _ {D : Type 0} (env : Env D) (notify_url : Text) (now : ℕ) where
  abbrev pub stored : UpdateDestinationsRequest → Api D → Api D
  stored r api = record api {
    mappings = update_proxy_mapping api.mappings r.source_ip r.source_port r.destinations now;
  }

  abbrev pub Refused : Api D → Api D × ℕ → Type 0
  Refused api result = (result.0 ≡ api) × (result.1 ≢ 200)

  update_destinations-cases :
      (r : UpdateDestinationsRequest) (api : Api D)
      → (IsAcceptable r
          × (api.control.relay ≢ none)
          × (update_destinations env notify_url now (some r) api ≡ (stored r api, 200)))
        ⊎ ((¬ (IsAcceptable r × (api.control.relay ≢ none)))
            × Refused api (update_destinations env notify_url now (some r) api))
  unfolding update_destinations
  update_destinations-cases r api = elim (text-cases r.source_ip) [
    | inl (empty, t) ↦ rw t (inr ((λ g. g.0.0 empty), (refl, ground arith)))
    | inr (named, t) ↦ elim (port-cases r.source_port) [
      | inl (low, p) ↦ rw (t, p) (inr ((λ g. low g.0.1), (refl, ground arith)))
      | inr (high, p) ↦ elim (list-cases r.destinations) [
        | inl (empty, l) ↦ rw (t, p, l) (inr ((λ g. empty g.0.2), (refl, ground arith)))
        | inr (some_left, l) ↦ elim (missing-cases r.destinations) [
          | inl (bad, m) ↦ rw (t, p, l, m) (inr ((λ g. bad g.0.3), (refl, ground arith)))
          | inr (good, m) ↦ elim (Option-cases api.control.relay) [
            | inl off ↦ rw (t, p, l, m, off) (inr ((λ g. g.1 refl), (refl, ground arith)))
            | inr (relay, on) ↦
                rw (t, p, l, m, on) (inl ((named, high, some_left, good), (ground arith), refl))
          ]
        ]
      ]
    ]
  ]

  -- A POST whose body is an acceptable request, while the relay runs.
  abbrev pub IsGood : Text → Option UpdateDestinationsRequest → Api D → Type 0
  IsGood method body api =
      (method ≡ codes "POST")
      × (api.control.relay ≢ none)
      × ((r : UpdateDestinationsRequest) × (body ≡ some r) × IsAcceptable r)

  -- handleUpdateDestinations either answers 200 and stores the mapping of the request, and then
  -- it was a POST with a source, a positive port, and at least one destination, each with an IP
  -- and a positive port, while the relay runs; or one of these fails, the state is as before and
  -- the answer is another.
  pub handle_update_destinations_lem :
      (method : Text) (body : Option UpdateDestinationsRequest) (api : Api D)
      → (IsGood method body api
          × ((r : UpdateDestinationsRequest) × (body ≡ some r)
              × (handle_update_destinations env notify_url method now body api
                  ≡ (stored r api, 200))))
        ⊎ ((¬ IsGood method body api)
            × Refused api (handle_update_destinations env notify_url method now body api))
  unfolding handle_update_destinations
  handle_update_destinations_lem method body api =
      elim (Bool-cases (text_beq method (codes "POST"))) [
        | inr other ↦ rw other (
            inr (
              (λ g. absurd (ground (arith, other, (text_beq_iff method (codes "POST")).1 g.0))),
              (refl, ground arith),
            ))
        | inl post ↦ rw post (posted body ((text_beq_iff method (codes "POST")).0 post))
      ]
    where
      posted :
          (body : Option UpdateDestinationsRequest)
          → method ≡ codes "POST"
          → (IsGood method body api
              × ((r : UpdateDestinationsRequest) × (body ≡ some r)
                  × (update_destinations env notify_url now body api ≡ (stored r api, 200))))
            ⊎ ((¬ IsGood method body api)
                × Refused api (update_destinations env notify_url now body api))
      posted none e = inr ((λ g. absurd (cc (g.2.1))), (refl, ground arith))
      posted (some r) e = elim (update_destinations-cases r api) [
        | inl (good, on, done) ↦ inl ((e, on, (r, refl, good)), (r, refl, done))
        | inr (bad, refused) ↦
            inr ((λ g. bad (subst IsAcceptable (sym (some-eq r g.2.0 g.2.1)) g.2.2, g.1)), refused)
      ]
