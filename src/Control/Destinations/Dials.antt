-- ===== src/Control/Destinations/Dials.antt =====
-- Which addresses `dialRouterContext` of main.go dials.
use gerbil.Prelude.{
  ◌≡◌, ◌↔◌, ◌⊎◌, refl, Bool, true, false, Option, none, some, List, [], ◌∷◌, ◌++◌, arith, Text,
  length, Bool-cases, inl, inr, ap, All,
}
use gerbil.Strings.{split_host_port}
use gerbil.Control.Router.{Network, unrestricted_router_networks}
use gerbil.Control.Router.Families.{admits, AreNetworks, HasFree}
use gerbil.Control.Router.Blocking.{unrestricted_router_networks_lem}
use gerbil.Control.Destinations.{
  RouterAddr, router_ip_allowed, all_router_allowed, dial_in_turn, dial_answers,
  dial_router_context,
}

-- The address is in the list, and is not allowed.
abbrev HasForbidden : List Network → List RouterAddr → Type 0
HasForbidden networks [] = ⊥
HasForbidden networks (a ∷ others) =
    (router_ip_allowed networks a ≡ false) ⊎ HasForbidden networks others

abbrev Fail : (RouterAddr → Bool) → List RouterAddr → Type 0
Fail dials = All λ a. dials a ≡ false

-- The addresses were dialled in order up to the first that answers, which is the connection.
abbrev Tried : (RouterAddr → Bool) → List RouterAddr → List RouterAddr → Option RouterAddr → Type 0
Tried dials resolved attempts none = (attempts ≡ resolved) × Fail dials attempts
Tried dials resolved attempts (some a) =
    (failed : List RouterAddr) × (rest : List RouterAddr) × (attempts ≡ failed ++ a ∷ [])
    × (resolved ≡ failed ++ a ∷ rest)
    × Fail dials failed
    × (dials a ≡ true)

dial_in_turn-Tried :
    (dials : RouterAddr → Bool) (resolved : List RouterAddr)
    → Tried dials resolved (dial_in_turn dials resolved).0 (dial_in_turn dials resolved).1
unfolding dial_in_turn
dial_in_turn-Tried dials [] = (refl, tt)
dial_in_turn-Tried dials (a ∷ others) = elim (Bool-cases (dials a)) [
  | inl answers ↦ rw answers ([], others, refl, refl, tt, answers)
  | inr fails ↦ rw fails (
      later (dial_in_turn dials others).0 (dial_in_turn dials others).1 fails
        (dial_in_turn-Tried dials others))
]
  where
    later :
        (attempts : List RouterAddr) (result : Option RouterAddr)
        → dials a ≡ false
        → Tried dials others attempts result
        → Tried dials (a ∷ others) (a ∷ attempts) result
    later attempts none fails (all, failed) = (ap (λ l. a ∷ l) all, (fails, failed))
    later attempts (some b) fails (failed, rest, e, f, bad, good) =
        (a ∷ failed, rest, ap (λ l. a ∷ l) e, ap (λ l. a ∷ l) f, (fails, bad), good)

allowed-cases :
    (networks : List Network) (resolved : List RouterAddr)
    → (All (λ a. router_ip_allowed networks a ≡ true) resolved
        × (all_router_allowed networks resolved ≡ true))
      ⊎ (HasForbidden networks resolved × (all_router_allowed networks resolved ≡ false))
unfolding all_router_allowed
allowed-cases networks [] = inl (tt, refl)
allowed-cases networks (a ∷ others) = elim (Bool-cases (router_ip_allowed networks a)) [
  | inr forbidden ↦ inr (inl forbidden, rw forbidden refl)
  | inl allowed ↦ elim (allowed-cases networks others) [
    | inl (all, e) ↦ inl ((allowed, all), rw allowed e)
    | inr (some_bad, e) ↦ inr (inr some_bad, rw allowed e)
  ]
]

-- Nothing is dialled as there is no address or one is forbidden; or all are allowed and tried.
abbrev pub Outcome :
    List Network
    → (RouterAddr → Bool)
    → List RouterAddr
    → List RouterAddr × Option RouterAddr
    → Type 0
Outcome networks dials resolved result =
    (((resolved ≡ []) ⊎ HasForbidden networks resolved) × (result ≡ ([], none)))
    ⊎ (All (λ a. router_ip_allowed networks a ≡ true) resolved
        × Tried dials resolved result.0 result.1)

dial_answers-Outcome :
    (networks : List Network) (dials : RouterAddr → Bool) (resolved : List RouterAddr)
    → Outcome networks dials resolved (dial_answers (some resolved) (some networks) dials)
unfolding dial_answers
dial_answers-Outcome networks dials [] = inl (inl refl, refl)
dial_answers-Outcome networks dials (a ∷ others) = elim (allowed-cases networks (a ∷ others)) [
  | inl (all, e) ↦ rw e (inr (all, dial_in_turn-Tried dials (a ∷ others)))
  | inr (bad, e) ↦ rw e (inl (inr bad, refl))
]

-- If the host of the address resolves, dialRouterContext dials nothing when there is no address
-- or one of them is not allowed, and otherwise tries the addresses in order up to the first that
-- answers, which is the connection.
pub dial_router_context_lem :
    (addr host port : Text) (resolve : Text → Option (List RouterAddr)) (resolved : List RouterAddr)
    (networks : List Network) (dials : RouterAddr → Text → Bool)
    → split_host_port addr ≡ some (host, port)
    → resolve host ≡ some resolved
    → Outcome networks
        (λ a. dials a port)
        resolved
        (dial_router_context addr resolve (some networks) dials)
unfolding dial_router_context
dial_router_context_lem addr host port resolve resolved networks dials parsed found =
    rw (parsed, found) (dial_answers-Outcome networks (λ a. dials a port) resolved)

-- An address list that holds the address is never dialled.
abbrev pub IsNeverDialled : List Network → RouterAddr → Type 0
IsNeverDialled networks a =
    (before after : List RouterAddr) (dials : RouterAddr → Bool)
    → dial_answers (some (before ++ a ∷ after)) (some networks) dials ≡ ([], none)

forbidden-refused :
    (networks : List Network) (a : RouterAddr) (before after : List RouterAddr)
    → router_ip_allowed networks a ≡ false
    → all_router_allowed networks (before ++ a ∷ after) ≡ false
unfolding all_router_allowed
forbidden-refused networks a [] after h = rw h refl
forbidden-refused networks a (b ∷ before) after h =
    ground (arith, forbidden-refused networks a before after h)

forbidden-IsNeverDialled :
    (networks : List Network) (a : RouterAddr)
    → router_ip_allowed networks a ≡ false
    → IsNeverDialled networks a
unfolding dial_answers
forbidden-IsNeverDialled networks a h [] after dials =
    rw (forbidden-refused networks a [] after h) refl
forbidden-IsNeverDialled networks a h (b ∷ before) after dials =
    rw (forbidden-refused networks a (b ∷ before) after h) refl

not_admitted :
    (v6 : Bool) (networks : List Network) (bits : List Bool)
    → admits v6 (unrestricted_router_networks networks) 0 networks bits ≡ false
    → router_ip_allowed networks (record { is_v6 = v6; bits = bits }) ≡ false
unfolding router_ip_allowed
not_admitted v6 networks bits h = ground (arith, h)

-- If no prefix of a peer network is longer than the addresses of its family, then there is an
-- IPv4 address and an IPv6 address such that nothing is ever dialled for a host that resolves to
-- it among others: no configuration of full covers opens the router to a whole family.
family-IsNeverDialled :
    (networks : List Network)
    → AreNetworks networks
    → ((bits : List Bool) × (length bits ≡ 32)
        × IsNeverDialled networks (record { is_v6 = false; bits = bits }))
      × ((bits : List Bool) × (length bits ≡ 128)
          × IsNeverDialled networks (record { is_v6 = true; bits = bits }))
family-IsNeverDialled networks a =
    let (v4, v6, rest) = unrestricted_router_networks_lem networks a in
    (
      (
        v4.0,
        v4.1,
        forbidden-IsNeverDialled networks (record { is_v6 = false; bits = v4.0 })
            (not_admitted false networks v4.0 v4.2),
      ),
      (
        v6.0,
        v6.1,
        forbidden-IsNeverDialled networks (record { is_v6 = true; bits = v6.0 })
            (not_admitted true networks v6.0 v6.2),
      ),
    )

-- If no prefix of a peer network is longer than the addresses of its family, then the networks
-- that unrestrictedRouterNetworks does not block leave an address of either family free, it
-- blocks nothing exactly if the given networks already leave one of either free, and every
-- address is in a network that is not blocked, or else nothing is dialled for a host that
-- resolves to it, whatever it resolves to besides.
pub blocked_networks_lem :
    (networks : List Network)
    → AreNetworks networks
    → let blocked = unrestricted_router_networks networks in
      HasFree false networks blocked
      × HasFree true networks blocked
      × ((blocked ≡ []) ↔ (HasFree false networks [] × HasFree true networks []))
      × ((a : RouterAddr)
          → IsNeverDialled networks a ⊎ (admits a.is_v6 blocked 0 networks a.bits ≡ true))
blocked_networks_lem networks a =
    let (v4, v6, nothing) = unrestricted_router_networks_lem networks a in
    (
      v4,
      v6,
      nothing,
      (λ address.
          elim (Bool-cases (
            admits address.is_v6 (unrestricted_router_networks networks) 0 networks address.bits)) [
              | inl there ↦ inr there
              | inr out ↦ inl (
                  forbidden-IsNeverDialled networks address
                    (not_admitted address.is_v6 networks address.bits out))
            ]),
    )
