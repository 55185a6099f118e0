-- ===== src/Control/Examples/Requests.antt =====
-- Requests to the control API of main.go.
use gerbil.Prelude.{
  ◌≡◌, ◌↔◌, ◌⊎◌, refl, true, false, some, List, [], ◌∷◌, arith, Text, codes, pos, text_eq,
}
use gerbil.Relay.Address.{UdpAddr, contains_byte}
use gerbil.Relay.WireLaws.{Message, encode}
use gerbil.Relay.Connections.{Connections}
use gerbil.Relay.Connections.Invariant.{init-IsSound}
use gerbil.Relay.Connections.Creation.{IsWithin}
use gerbil.Relay.Sessions.Lookup.{no_sessions, no_sessions-IsAllocated}
use gerbil.Relay.Mappings.{PeerDestination}
use gerbil.Relay.Packets.{Server, World, handle_wire_guard_packet}
use gerbil.Relay.Packets.Forwarding.{Broadcasts}
use gerbil.Relay.Packets.Routing.{AreServed}
use gerbil.Relay.Packets.Transport.{touched}
use gerbil.Control.Peers.{DevicePeer}
use gerbil.Control.Requests.{
  Api, UpdateDestinationsRequest, is_authorized, handle_update_destinations, any_missing,
}
use gerbil.Control.Requests.Auth.{HasToken, is_authorized_iff}
use gerbil.Control.Requests.Handlers.{stored, Refused, IsGood, handle_update_destinations_lem}
use gerbil.Control.Requests.Forwarding.{request_of, accepted_destinations-AreServed}
use gerbil.Control.Examples.Peers.{env, control}

abbrev token : Text
token = codes "0123456789abcdef0123456789abcdef"

abbrev identity : Text → Text
identity t = t

is_authorized_iff_example :
    (is_authorized identity token (codes "bearer 0123456789abcdef0123456789abcdef") ≡ true)
    ↔ HasToken token (codes "bearer 0123456789abcdef0123456789abcdef")
is_authorized_iff_example =
    is_authorized_iff identity token (omega arith) (λ t short h. h)
      (codes "bearer 0123456789abcdef0123456789abcdef")

abbrev olm : UdpAddr
olm = record { ip = codes "198.51.100.4"; port = 40000 }

abbrev newt : PeerDestination
newt = record { destination_ip = codes "10.0.0.7"; destination_port = pos 51820 }

abbrev pool : Connections
pool = record { table = []; connection_count = pos 0; next_conn = 0; closed = [] }

abbrev api : Api (List DevicePeer)
api = record { control = record control { relay = some pool }; mappings = []; notified = [] }

handle_update_destinations_lem_example :
    (IsGood env [] 5 (codes "POST") (some (request_of olm (newt ∷ []))) api
      × ((r : UpdateDestinationsRequest) × (some (request_of olm (newt ∷ [])) ≡ some r)
          × (handle_update_destinations env []
                (codes "POST")
                5
                (some (request_of olm (newt ∷ [])))
                api
              ≡ (stored env [] 5 r api, 200))))
    ⊎ ((¬ IsGood env [] 5 (codes "POST") (some (request_of olm (newt ∷ []))) api)
        × Refused env [] 5 api (
            handle_update_destinations env []
              (codes "POST")
              5
              (some (request_of olm (newt ∷ [])))
              api))
handle_update_destinations_lem_example =
    handle_update_destinations_lem env [] 5 (codes "POST") (some (request_of olm (newt ∷ []))) api

answered :
    (handle_update_destinations env [] (codes "POST") 5 (some (request_of olm (newt ∷ []))) api).1
    ≡ 200
unfolding handle_update_destinations any_missing
answered = refl

plain : contains_byte b':' olm.ip ≡ false
unfolding contains_byte
plain = refl

abbrev updated : Api (List DevicePeer)
updated =
    (handle_update_destinations env [] (codes "POST") 5 (some (request_of olm (newt ∷ []))) api).0

abbrev server : Server
server = record {
  mappings = updated.mappings;
  connections = pool;
  sessions = no_sessions;
  addr_cache = [];
  sent = [];
  replies = [];
}

abbrev world : World
world = record {
  now = 6;
  max_udp_connections = 2;
  resolve = λ key. some (record { ip = codes "10.0.0.7"; port = 51820 });
  dials = λ a. true;
  writes = λ n. true;
  replies_to = λ a. true;
}

pool-IsWithin : IsWithin 2 0 pool
pool-IsWithin = record { sound = init-IsSound; bounded = omega arith }

abbrev packet : Text
packet = encode (Message.initiation 11 (9 ∷ 9 ∷ 9 ∷ 9 ∷ []))

accepted_destinations-AreServed_example :
    let after = handle_wire_guard_packet server world packet olm in
    Broadcasts server after world packet 1
    × AreServed world packet olm
        (newt ∷ [])
        (touched server world olm (record { destinations = newt ∷ []; last_used = 5 }))
        after
accepted_destinations-AreServed_example =
    accepted_destinations-AreServed env [] (codes "POST") 5 api olm (newt ∷ []) 0 server world 11
      (9 ∷ 9 ∷ 9 ∷ 9 ∷ []) answered plain refl (omega arith, omega arith) (omega arith)
      (record { pool = pool-IsWithin; sessions = no_sessions-IsAllocated })
