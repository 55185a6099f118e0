-- ===== src/Relay/Sessions.antt =====
-- WireGuard sessions and communication patterns (relay/relay.go): the stores of
-- `handleWireGuardPacket` and `handleResponses`, the fast path of transport data,
-- `trackCommunicationPattern`, `tryRebuildSession`, `clearSessionsForIP` and the cleanups.
-- Sessions are shared by pointers: a heap holds them, and both maps hold numbers into it. Times
-- are nanoseconds since Go's zero time, so that 0 is a time that was never set.
pub mod Lookup
pub mod Rebuild
pub mod Clearing
use gerbil.Prelude.{
  ℕ, suc, ◌+◌, ◌-◌, ◌*◌, Bool, true, false, ◌||◌, Option, none, some, List, [], ◌∷◌, ◌++◌,
  if◌then◌else◌, ltb, leb, ◌==◌, Text, text_eq, text_beq, nat_eq, itoa_ℕ,
}
use gerbil.Table.{Table, load, store, delete_if}
use gerbil.Relay.Address.{UdpAddr, addr_string}

pub record Session : Type 0 where
  pub receiver_index : ℕ
  pub sender_index : ℕ
  pub dest_addr : UdpAddr
  pub last_seen : ℕ

pub record CommunicationPattern : Type 0 where
  pub from_client : UdpAddr
  pub to_destination : UdpAddr
  pub client_index : ℕ
  pub dest_index : ℕ
  pub last_from_client : ℕ
  pub last_from_dest : ℕ
  pub packet_count : ℕ

pub record Sessions : Type 0 where
  pub heap : Table ℕ Session
  pub next_session : ℕ
  pub wg_sessions : Table Text ℕ
  pub by_receiver_index : Table ℕ ℕ
  pub comm_patterns : Table Text CommunicationPattern

abbrev pub seconds : ℕ → ℕ
seconds n = n * 1000000000

abbrev pub minutes : ℕ → ℕ
minutes n = n * 60000000000

-- fmt.Sprintf("%d:%d", a, b)
pub session_key : ℕ → ℕ → Text
session_key a b = itoa_ℕ a ++ b':' ∷ itoa_ℕ b

-- A new session, under its key and under its sender index.
unfoldable pub put_session : Sessions → Text → Session → Sessions
put_session s key session = record s {
  heap = store s.next_session session s.heap;
  next_session = suc s.next_session;
  wg_sessions = store key s.next_session s.wg_sessions;
  by_receiver_index = store session.sender_index s.next_session s.by_receiver_index;
}

-- A handshake response from a client: the key is receiver:sender.
unfoldable pub store_client_response : Sessions → ℕ → ℕ → UdpAddr → ℕ → Sessions
unfolding put_session
store_client_response s receiver sender remote now =
    put_session s (session_key receiver sender) (record {
      receiver_index = receiver;
      sender_index = sender;
      dest_addr = remote;
      last_seen = now;
    })

-- A handshake response from a destination: the key is sender:receiver.
unfoldable pub store_dest_response : Sessions → ℕ → ℕ → UdpAddr → ℕ → Sessions
unfolding put_session
store_dest_response s receiver sender dest now =
    put_session s (session_key sender receiver) (record {
      receiver_index = receiver;
      sender_index = sender;
      dest_addr = dest;
      last_seen = now;
    })

-- UpdateLastSeen, through a pointer.
pub update_last_seen : Sessions → ℕ → Session → ℕ → Sessions
update_last_seen s ptr session now = record s {
  heap = store ptr (record session { last_seen = now }) s.heap;
}

-- A map's pointer, followed into the heap.
unfoldable pub follow : Sessions → Option ℕ → Option (ℕ × Session)
follow s none = none
follow s (some ptr) = elim (load ptr s.heap) [ none ↦ none | some session ↦ some (ptr, session) ]

seen : Sessions → Option (ℕ × Session) → ℕ → Sessions × Option UdpAddr
unfolding update_last_seen
seen s none now = (s, none)
seen s (some (ptr, session)) now = (update_last_seen s ptr session now, some session.dest_addr)

-- The fast path of transport data: the destination known for a receiver index, marked as seen.
unfoldable pub lookup_session : Sessions → ℕ → ℕ → Sessions × Option UdpAddr
unfolding follow seen
lookup_session s receiver_index now =
    seen s (follow s (load receiver_index s.by_receiver_index)) now

-- The absolute value of LastFromClient.Sub(LastFromDest).
abbrev time_diff : CommunicationPattern → ℕ
time_diff p =
    if leb p.last_from_dest p.last_from_client
    then p.last_from_client - p.last_from_dest
    else p.last_from_dest - p.last_from_client

unfoldable pub cannot_rebuild : CommunicationPattern → Bool
cannot_rebuild p =
    (p.client_index == 0)
    || ((p.dest_index == 0) || (ltb p.packet_count 4 || leb (seconds 30) (time_diff p)))

index_if_missing : Option ℕ → Sessions → ℕ → ℕ → Sessions
index_if_missing none s index ptr = record s {
  by_receiver_index = store index ptr s.by_receiver_index;
}
index_if_missing (some other) s index ptr = s

create_rebuilt : Sessions → CommunicationPattern → ℕ → Sessions
unfolding put_session
create_rebuilt s p now = put_session s (session_key p.dest_index p.client_index) (record {
  receiver_index = p.dest_index;
  sender_index = p.client_index;
  dest_addr = p.to_destination;
  last_seen = now;
})

rebuild : Sessions → CommunicationPattern → ℕ → Option (ℕ × Session) → Sessions
unfolding create_rebuilt index_if_missing update_last_seen
rebuild s p now none = create_rebuilt s p now
rebuild s p now (some (ptr, session)) =
    if text_beq (addr_string session.dest_addr) (addr_string p.to_destination)
    then index_if_missing (load p.client_index s.by_receiver_index)
        (update_last_seen s ptr session now) p.client_index ptr
    else create_rebuilt s p now

pub try_rebuild_session : Sessions → CommunicationPattern → ℕ → Sessions
unfolding rebuild cannot_rebuild follow
try_rebuild_session s p now =
    if cannot_rebuild p
    then s
    else rebuild s p now (follow s (load (session_key p.dest_index p.client_index) s.wg_sessions))

-- A packet seen in one direction updates the pattern that is there already.
pub update_pattern : CommunicationPattern → ℕ → Bool → ℕ → CommunicationPattern
update_pattern p receiver_index true now = record p {
  last_from_client = now;
  client_index = if p.client_index == 0 then receiver_index else p.client_index;
  packet_count = suc p.packet_count;
}
update_pattern p receiver_index false now = record p {
  last_from_dest = now;
  dest_index = if p.dest_index == 0 then receiver_index else p.dest_index;
  packet_count = suc p.packet_count;
}

new_pattern : UdpAddr → UdpAddr → ℕ → Bool → ℕ → CommunicationPattern
new_pattern client dest receiver_index true now = record {
  from_client = client;
  to_destination = dest;
  client_index = receiver_index;
  dest_index = 0;
  last_from_client = now;
  last_from_dest = 0;
  packet_count = 1;
}
new_pattern client dest receiver_index false now = record {
  from_client = client;
  to_destination = dest;
  client_index = 0;
  dest_index = receiver_index;
  last_from_client = 0;
  last_from_dest = now;
  packet_count = 1;
}

-- fmt.Sprintf("%s-%s", clientAddr.String(), destAddr.String())
abbrev pub pattern_key : UdpAddr → UdpAddr → Text
pattern_key client dest = addr_string client ++ b'-' ∷ addr_string dest

track : Option CommunicationPattern → Sessions → UdpAddr → UdpAddr → ℕ → Bool → ℕ → Sessions
unfolding try_rebuild_session update_pattern new_pattern
track (some p) s client dest receiver_index from_client now =
    let p' = update_pattern p receiver_index from_client now in
    try_rebuild_session
      (record s { comm_patterns = store (pattern_key client dest) p' s.comm_patterns }) p' now
track none s client dest receiver_index from_client now = record s {
  comm_patterns =
      store (pattern_key client dest) (new_pattern client dest receiver_index from_client now)
        s.comm_patterns;
}

pub track_communication_pattern : Sessions → UdpAddr → UdpAddr → ℕ → Bool → ℕ → Sessions
unfolding track
track_communication_pattern s from to receiver_index from_client now =
    let client = if from_client then from else to in
    let dest = if from_client then to else from in
    track (load (pattern_key client dest) s.comm_patterns) s client dest receiver_index from_client
      now

-- The test of a session behind a pointer.
unfoldable pub session_passes : (Session → Bool) → Table ℕ Session → ℕ → Bool
session_passes test heap ptr = elim (load ptr heap) [ none ↦ false | some session ↦ test session ]

unfoldable pub clear_sessions_for_ip : Sessions → Text → Sessions
unfolding session_passes
clear_sessions_for_ip s ip = record s {
  wg_sessions =
      delete_if (λ key ptr. session_passes (λ session. text_beq session.dest_addr.ip ip) s.heap ptr)
        s.wg_sessions;
}

pub cleanup_idle_sessions : Sessions → ℕ → Sessions
unfolding session_passes
cleanup_idle_sessions s now = record s {
  wg_sessions =
      delete_if
        (λ key ptr. session_passes (λ session. ltb (session.last_seen + minutes 15) now) s.heap ptr)
        s.wg_sessions;
}

-- The later of the two times.
abbrev pub last_activity : CommunicationPattern → ℕ
last_activity p =
    if ltb p.last_from_client p.last_from_dest then p.last_from_dest else p.last_from_client

pub cleanup_idle_communication_patterns : Sessions → ℕ → Sessions
cleanup_idle_communication_patterns s now = record s {
  comm_patterns = delete_if (λ key p. ltb (last_activity p + minutes 20) now) s.comm_patterns;
}
