-- ===== src/Control/Requests.antt =====
-- The control API of main.go: `requireControlAuth`, `handlePeer` with its two handlers, and the
-- handlers that change the relay's mappings and the proxy's local names. A body is what its JSON
-- decodes to, none if it does not or is too large. A response is its status.
pub mod Auth
pub mod Handlers
pub mod Forwarding
use gerbil.Prelude.{
  ℕ, suc, Bool, true, false, not, ◌&&◌, ◌||◌, Option, none, some, List, [], ◌∷◌, ◌++◌,
  if◌then◌else◌, leb, Text, text_beq, codes, take, length, ℤ, pos, lebℤ,
}
use gerbil.Strings.{cut, equal_fold}
use gerbil.Relay.Mappings.{
  PeerDestination, Mappings, update_proxy_mapping, update_destination_in_mappings,
}
use gerbil.Control.Peers.{Peer, Env, Control, add_peer_internal, remove_peer_internal}

abbrev pub max_token_len : ℕ
max_token_len = 1024

-- strings.Cut with its third result: without the separator the text is the first part.
abbrev cut_or_whole : Text → Option (Text × Text) → Text × Text × Bool
cut_or_whole s none = (s, [], false)
cut_or_whole s (some (before, after)) = (before, after, true)

-- `sum256` is the hash; equal hashes are compared in constant time.
pub is_authorized : (Text → Text) → Text → Text → Bool
unfolding cut equal_fold
is_authorized sum256 control_api_token header =
    let (scheme, token, ok) = cut_or_whole header (cut header (b' ' ∷ [])) in
    let token' = if leb (length token) max_token_len then token else take max_token_len token in
    ok
    && (equal_fold scheme (codes "Bearer")
        && (not (text_beq token' []) && text_beq (sum256 token') (sum256 control_api_token)))

require_control_auth {ℓ} : {S : Type ℓ} → (Text → Text) → Text → Text → (S → S × ℕ) → S → S × ℕ
unfolding is_authorized
require_control_auth sum256 control_api_token header next s =
    if is_authorized sum256 control_api_token header then next s else (s, 401)

-- What the handlers change: the peers, the mappings of the relay, and the notifications that are
-- sent, if `notifyURL` is set.
pub record Api (D : Type 0) : Type 0 where
  pub control : Control D
  pub mappings : Mappings
  pub notified : List (Text × Text)

record ProxyMappingUpdate : Type 0 where
  pub old_destination : PeerDestination
  pub new_destination : PeerDestination

pub record UpdateDestinationsRequest : Type 0 where
  pub source_ip : Text
  pub source_port : ℤ
  pub destinations : List PeerDestination

-- ip == "" and port <= 0
abbrev is_missing : PeerDestination → Bool
is_missing d = text_beq d.destination_ip [] || lebℤ d.destination_port (pos 0)

unfoldable pub any_missing : List PeerDestination → Bool
any_missing [] = false
any_missing (d ∷ ds) = is_missing d || any_missing ds

abbrev is_none {ℓ} : {A : Type ℓ} → Option A → Bool
is_none none = true
is_none (some a) = false

module _ {D : Type 0} (env : Env D) (notify_url : Text) where
  -- The goroutine of `notifyPeerChange`; its failures are only logged.
  notify_peer_change : Text → Text → Api D → Api D
  notify_peer_change action public_key api =
      if text_beq notify_url []
      then api
      else record api { notified = (action, public_key) ∷ api.notified }

  answer_peer : Text → Text → ℕ → Api D → Control D × Bool → Api D × ℕ
  unfolding notify_peer_change
  answer_peer action public_key status api (control, true) =
      (notify_peer_change action public_key (record api { control = control }), status)
  answer_peer action public_key status api (control, false) =
      (record api { control = control }, 500)

  handle_add_peer : Option Peer → Api D → Api D × ℕ
  unfolding answer_peer
  handle_add_peer none api = (api, 400)
  handle_add_peer (some peer) api =
      answer_peer (codes "add") peer.public_key 201 api (add_peer_internal env api.control peer)

  -- The query parameter public_key is empty if it is missing.
  handle_remove_peer : Text → Api D → Api D × ℕ
  unfolding answer_peer
  handle_remove_peer public_key api =
      if text_beq public_key []
      then (api, 400)
      else answer_peer (codes "remove") public_key 200 api
          (remove_peer_internal env api.control public_key)

  handle_peer : Text → Option Peer → Text → Api D → Api D × ℕ
  unfolding handle_add_peer handle_remove_peer
  handle_peer method body public_key api =
      if text_beq method (codes "POST")
      then handle_add_peer body api
      else if text_beq method (codes "DELETE")
      then handle_remove_peer public_key api
      else (api, 405)

  update_mapping : ℕ → Option ProxyMappingUpdate → Api D → Api D × ℕ
  update_mapping now none api = (api, 400)
  update_mapping now (some update) api =
      if text_beq update.old_destination.destination_ip []
        || text_beq update.new_destination.destination_ip []
      then (api, 400)
      else if lebℤ update.old_destination.destination_port (pos 0)
          || lebℤ update.new_destination.destination_port (pos 0)
      then (api, 400)
      else if is_none api.control.relay
      then (api, 500)
      else (
        record api {
          mappings =
              (update_destination_in_mappings update.old_destination update.new_destination now
                api.mappings).0;
        },
        200,
      )

  handle_update_proxy_mapping : Text → ℕ → Option ProxyMappingUpdate → Api D → Api D × ℕ
  unfolding update_mapping
  handle_update_proxy_mapping method now body api =
      if text_beq method (codes "POST") then update_mapping now body api else (api, 405)

  pub update_destinations : ℕ → Option UpdateDestinationsRequest → Api D → Api D × ℕ
  unfolding any_missing
  update_destinations now none api = (api, 400)
  update_destinations now (some request) api =
      if text_beq request.source_ip []
      then (api, 400)
      else if lebℤ request.source_port (pos 0)
      then (api, 400)
      else if leb (length request.destinations) 0
      then (api, 400)
      else if any_missing request.destinations
      then (api, 400)
      else if is_none api.control.relay
      then (api, 500)
      else (
        record api {
          mappings =
              update_proxy_mapping api.mappings request.source_ip request.source_port
                request.destinations now;
        },
        200,
      )

  unfoldable pub handle_update_destinations :
      Text → ℕ → Option UpdateDestinationsRequest → Api D → Api D × ℕ
  unfolding update_destinations
  handle_update_destinations method now body api =
      if text_beq method (codes "POST") then update_destinations now body api else (api, 405)

-- `update` is the proxy's `UpdateLocalSNIs`.
handle_update_local_snis {ℓ} :
    {S : Type ℓ} → (List Text → S → S) → Text → Option (List Text) → S → S × ℕ
handle_update_local_snis update method none s =
    if text_beq method (codes "POST") then (s, 400) else (s, 405)
handle_update_local_snis update method (some full_domains) s =
    if text_beq method (codes "POST") then (update full_domains s, 200) else (s, 405)

handle_healthz : Text → ℕ
handle_healthz method = if text_beq method (codes "GET") then 200 else 405
