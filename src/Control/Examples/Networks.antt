-- ===== src/Control/Examples/Networks.antt =====
-- Two halves of the IPv4 addresses among the networks of the router of main.go, and one more.
use gerbil.Prelude.{◌≡◌, Bool, true, false, List, [], ◌∷◌, arith, refl}
use gerbil.Control.Router.{Network, unrestricted_router_networks}
use gerbil.Control.Router.Cover.{starts_with}
use gerbil.Control.Router.Families.{admits, AreNetworks}

abbrev half : Bool → Network
half b = record { prefix = b ∷ []; is_v6 = false }

abbrev quarter : Network
quarter = record { prefix = true ∷ false ∷ []; is_v6 = true }

abbrev networks : List Network
networks = half false ∷ quarter ∷ half true ∷ []

networks-AreNetworks : AreNetworks networks
networks-AreNetworks = (omega arith, (omega arith, (omega arith, tt)))

halves_blocked : unrestricted_router_networks networks ≡ 2 ∷ 0 ∷ []
unfolding unrestricted_router_networks
halves_blocked = refl

half_refused :
    (admits false [] 0 networks (true ∷ []) ≡ true)
    × (admits false (unrestricted_router_networks networks) 0 networks (true ∷ []) ≡ false)
unfolding admits starts_with unrestricted_router_networks
half_refused = (refl, refl)
