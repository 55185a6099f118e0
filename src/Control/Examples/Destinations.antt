-- ===== src/Control/Examples/Destinations.antt =====
-- Requests to /router of main.go, and what is dialled for them.
use gerbil.Prelude.{
  ◌≡◌, ◌↔◌, ◌⊎◌, refl, Bool, true, false, Option, some, List, [], ◌∷◌, arith, Text, codes, pos,
  text_eq,
}
use gerbil.Table.{load}
use gerbil.Strings.{split_host_port, starts_with, cut, has_byte}
use gerbil.Control.Router.{Network, unrestricted_router_networks}
use gerbil.Control.Router.Families.{admits, HasFree}
use gerbil.Control.Destinations.{
  RouterRequest, RouterResult, RouterAddr, handle_router, rewrite, dial_router_context,
  pangolin_dest_header,
}
use gerbil.Control.Destinations.Dials.{
  Outcome, IsNeverDialled, dial_router_context_lem, blocked_networks_lem,
}
use gerbil.Control.Destinations.Rewriting.{IsSafe, handle_router_lem}

abbrev request : RouterRequest
request = record {
  headers = (pangolin_dest_header, codes "https://100.96.128.1:443") ∷ [];
  path = codes "/router/v1/chat";
  content_length = pos 20;
}

sent_on : handle_router request ≡ RouterResult.forwarded (rewrite request)
unfolding handle_router load split_host_port has_byte starts_with cut
sent_on = refl

handle_router_lem_example : IsSafe request (rewrite request)
handle_router_lem_example = handle_router_lem request (rewrite request) sent_on

rewritten : (rewrite request).path ≡ codes "/v1/chat"
unfolding rewrite starts_with load
rewritten = refl

abbrev half : Bool → Network
half b = record { prefix = b ∷ []; is_v6 = false }

abbrev networks : List Network
networks = half false ∷ half true ∷ []

abbrev address : RouterAddr
address = record { is_v6 = false; bits = false ∷ true ∷ [] }

abbrev resolve : Text → Option (List RouterAddr)
resolve host = some (address ∷ [])

abbrev dials : RouterAddr → Text → Bool
dials a port = true

split : split_host_port (codes "host:443") ≡ some (codes "host", codes "443")
unfolding split_host_port has_byte cut
split = refl

dial_router_context_lem_example :
    Outcome networks
      (λ a. dials a (codes "443"))
      (address ∷ [])
      (dial_router_context (codes "host:443") resolve (some networks) dials)
dial_router_context_lem_example =
    dial_router_context_lem (codes "host:443") (codes "host") (codes "443") resolve (address ∷ [])
      networks dials split refl

blocked_networks_lem_example :
    let blocked = unrestricted_router_networks networks in
    HasFree false networks blocked
    × HasFree true networks blocked
    × ((blocked ≡ []) ↔ (HasFree false networks [] × HasFree true networks []))
    × ((a : RouterAddr)
        → IsNeverDialled networks a ⊎ (admits a.is_v6 blocked 0 networks a.bits ≡ true))
blocked_networks_lem_example = blocked_networks_lem networks (omega arith, (omega arith, tt))
