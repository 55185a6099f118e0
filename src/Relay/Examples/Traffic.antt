-- ===== src/Relay/Examples/Traffic.antt =====
-- Packets on the relay of relay/relay.go: a client, a destination, and a full handshake.
use gerbil.Prelude.{
  suc, ℕ, ◌⊎◌, ◌≡◌, ◌≢◌, refl, true, false, none, some, [], ◌∷◌, arith, Text, text_eq, pos, length,
  itoa_ℕ, nat_eq,
}
use gerbil.Table.{load, store, delete_if, IsMap}
use gerbil.Relay.Address.{UdpAddr, addr_string, contains_byte}
use gerbil.Relay.WireLaws.{Message, encode}
use gerbil.Relay.Connections.Invariant.{init}
use gerbil.Relay.Sessions.{
  Sessions, CommunicationPattern, lookup_session, follow, put_session, session_key,
  store_dest_response, try_rebuild_session, cannot_rebuild, clear_sessions_for_ip, session_passes,
}
use gerbil.Relay.Sessions.Lookup.{no_sessions, no_sessions-IsAllocated}
use gerbil.Relay.Sessions.Rebuild.{rebuild_duplicates}
use gerbil.Relay.Sessions.Clearing.{clear_sessions_for_ip_lem}
use gerbil.Relay.Mappings.{PeerDestination, ProxyMapping, update_proxy_mapping}
use gerbil.Relay.Packets.{Server, World, handle_wire_guard_packet, handle_response}
use gerbil.Relay.Packets.Forwarding.{Broadcasts}
use gerbil.Relay.Packets.Dropped.{updated_client_lem}
use gerbil.Relay.Packets.Routing.{SentOnly, AreServed}
use gerbil.Relay.Packets.Invariant.{IsHealthy, handle_wire_guard_packet-IsHealthy}
use gerbil.Relay.Packets.Transport.{touched, initiation-Broadcasts, transport_after_response}
use gerbil.Relay.Examples.Pool.{newt, olm, init-IsWithin}

abbrev pub dest_of : UdpAddr → PeerDestination
dest_of a = record { destination_ip = a.ip; destination_port = pos a.port }

abbrev one_dest : ProxyMapping
one_dest = record { destinations = dest_of newt ∷ []; last_used = 0 }

abbrev pub server : Server
server = record {
  mappings = (addr_string olm, one_dest) ∷ [];
  connections = init;
  sessions = no_sessions;
  addr_cache = [];
  sent = [];
  replies = [];
}

abbrev pub world : ℕ → World
world now = record {
  now = now;
  max_udp_connections = 2;
  resolve = λ key. some newt;
  dials = λ a. true;
  writes = λ n. true;
  replies_to = λ a. true;
}

abbrev unmapped : Server
unmapped = record server { mappings = [] }

server-IsHealthy : IsHealthy 2 0 server
server-IsHealthy = record { pool = init-IsWithin; sessions = no_sessions-IsAllocated }

client_known : load (addr_string olm) server.mappings ≡ some one_dest
unfolding load addr_string itoa_ℕ contains_byte
client_known = refl

abbrev tail : Text
tail = 9 ∷ 9 ∷ 9 ∷ 9 ∷ []

-- The client starts, the destination answers, and the client's data follows the answer.
initiation-Broadcasts_example :
    let packet = encode (Message.initiation 11 tail) in
    let after = handle_wire_guard_packet server (world 10) packet olm in
    Broadcasts server after (world 10) packet 1
    × AreServed
        (world 10)
        packet
        olm
        one_dest.destinations
        (touched server (world 10) olm one_dest)
        after
initiation-Broadcasts_example =
    initiation-Broadcasts 0 server (world 10) 11 tail olm one_dest (omega arith, omega arith)
      (omega arith) server-IsHealthy client_known

transport_after_response_example :
    SentOnly server
      (handle_wire_guard_packet
        (handle_response server (world 10) (encode (Message.response 22 11 tail)) newt olm)
        (world 20)
        (encode (Message.transport 22 tail))
        olm)
      (world 20)
      (encode (Message.transport 22 tail))
      olm
      newt
transport_after_response_example =
    transport_after_response 0 server (world 10) (world 20) 22 11 tail tail newt olm olm one_dest
      (omega arith, omega arith) (omega arith, omega arith) (omega arith) server-IsHealthy
      client_known refl (λ n. refl)

handle_wire_guard_packet-IsHealthy_example :
    IsHealthy 2 0
      (handle_wire_guard_packet server (world 10) (encode (Message.initiation 11 tail)) olm)
handle_wire_guard_packet-IsHealthy_example =
    handle_wire_guard_packet-IsHealthy 0 (world 10) (omega arith) server
      (encode (Message.initiation 11 tail)) olm server-IsHealthy

-- The mapping of an IPv4 client is used as soon as it is stored.
unknown : load (addr_string olm) unmapped.mappings ≡ none
unfolding load
unknown = refl

updated_client_lem_example :
    let updated = record unmapped {
      mappings =
          update_proxy_mapping unmapped.mappings olm.ip (pos olm.port) one_dest.destinations 10;
    } in
    let packet = encode (Message.initiation 11 tail) in
    let after = handle_wire_guard_packet updated (world 10) packet olm in
    let known : ProxyMapping = record { destinations = one_dest.destinations; last_used = 10 } in
    ((contains_byte b':' olm.ip ≡ true) × (after ≡ updated))
    ⊎ ((contains_byte b':' olm.ip ≡ false)
        × Broadcasts updated after (world 10) packet 1
        × AreServed
            (world 10)
            packet
            olm
            one_dest.destinations
            (touched updated (world 10) olm known)
            after)
updated_client_lem_example =
    updated_client_lem 0 unmapped (world 10) 11 tail olm one_dest.destinations 10
      (omega arith, omega arith) (omega arith)
      (record { pool = server-IsHealthy.pool; sessions = server-IsHealthy.sessions }) unknown

-- Sessions: the destination's answer, stored once.
abbrev answered : Sessions
answered = store_dest_response no_sessions 11 22 newt 10

abbrev pattern : CommunicationPattern
pattern = record {
  from_client = olm;
  to_destination = newt;
  client_index = 22;
  dest_index = 11;
  last_from_client = 100;
  last_from_dest = 90;
  packet_count = 4;
}

rebuilds : cannot_rebuild pattern ≡ false
unfolding cannot_rebuild
rebuilds = refl

not_indexed : load pattern.client_index no_sessions.by_receiver_index ≡ none
unfolding load
not_indexed = refl

no_such_key : load (session_key 11 22) no_sessions.wg_sessions ≡ none
unfolding load
no_such_key = refl

rebuild_duplicates_example :
    (length (try_rebuild_session answered pattern 100).wg_sessions
      ≡ suc (length answered.wg_sessions))
    × (load (session_key 22 11) (try_rebuild_session answered pattern 100).wg_sessions ≢ none)
    × (load (session_key 11 22) (try_rebuild_session answered pattern 100).wg_sessions ≢ none)
rebuild_duplicates_example =
    rebuild_duplicates no_sessions 11 22 newt 10 100 pattern no_sessions-IsAllocated (omega arith)
      no_such_key refl refl rebuilds

answered-IsMap : IsMap answered.wg_sessions
unfolding store_dest_response put_session store load
answered-IsMap = (refl, tt)

clear_sessions_for_ip_lem_example :
    (lookup_session (clear_sessions_for_ip answered newt.ip) 22 20).1
    ≡ (lookup_session answered 22 20).1
clear_sessions_for_ip_lem_example =
    (clear_sessions_for_ip_lem answered newt.ip answered-IsMap).1 22 20

-- The client's session is cleared from the map, and its data still goes to the cleared address.
cleared_run :
    ((clear_sessions_for_ip answered newt.ip).wg_sessions ≡ [])
    × ((lookup_session (clear_sessions_for_ip answered newt.ip) 22 20).1 ≡ some newt)
unfolding clear_sessions_for_ip lookup_session store_dest_response put_session store load delete_if
    follow session_passes
cleared_run = (refl, refl)
