-- ===== src/Relay/Sessions/Clearing.antt =====
-- Taking sessions and patterns out (relay/relay.go): `clearSessionsForIP` after a hole punch, and
-- the two periodic cleanups.
use gerbil.Prelude.{
  ℕ, ◌+◌, ◌≡◌, Bool, ◌&&◌, Option, none, some, arith, if◌then◌else◌, ltb, Text, text_eq, text_beq,
  nat_eq,
}
use gerbil.Table.{Table, load, store, delete_if, IsMap, load-delete_if, unless}
use gerbil.Relay.Address.{UdpAddr}
use gerbil.Relay.Sessions.{
  Sessions, CommunicationPattern, lookup_session, follow, session_passes, clear_sessions_for_ip,
  cleanup_idle_sessions, cleanup_idle_communication_patterns, minutes, last_activity,
  track_communication_pattern, track, pattern_key, update_pattern,
}
use gerbil.Relay.Sessions.Lookup.{IsAllocated}
use gerbil.Relay.Sessions.Rebuild.{try_rebuild_session-IsAllocated}

-- A removal by a test on the sessions keeps the pointers valid.
removal-IsAllocated :
    (s : Sessions) (test : Text → ℕ → Bool)
    → IsMap s.wg_sessions
    → IsAllocated s
    → IsAllocated (record s { wg_sessions = delete_if test s.wg_sessions })
removal-IsAllocated s test m a = record {
  fresh = a.fresh;
  known = λ key ptr h. a.known key ptr (ground (arith, load-delete_if test key s.wg_sessions m));
  indexed = a.indexed;
}

-- clearSessionsForIP removes from wgSessions exactly the sessions whose destination has the IP,
-- if the keys are distinct; the index by receiver index still leads every transport packet where
-- it led before.
pub clear_sessions_for_ip_lem :
    (s : Sessions) (ip : Text)
    → IsMap s.wg_sessions
    → ((key : Text)
        → load key (clear_sessions_for_ip s ip).wg_sessions
          ≡ unless
              (session_passes (λ x. text_beq x.dest_addr.ip ip) s.heap)
              (load key s.wg_sessions))
      × ((index now : ℕ)
          → (lookup_session (clear_sessions_for_ip s ip) index now).1
            ≡ (lookup_session s index now).1)
unfolding clear_sessions_for_ip lookup_session follow
clear_sessions_for_ip_lem s ip m = (
  (λ key.
      load-delete_if (λ k ptr. session_passes (λ x. text_beq x.dest_addr.ip ip) s.heap ptr) key
        s.wg_sessions m),
  (λ index now. ground arith),
)

clear_sessions_for_ip-IsAllocated :
    (s : Sessions) (ip : Text)
    → IsMap s.wg_sessions
    → IsAllocated s
    → IsAllocated (clear_sessions_for_ip s ip)
unfolding clear_sessions_for_ip
clear_sessions_for_ip-IsAllocated s ip m a = removal-IsAllocated s _ m a

-- The cleanup of sessions takes out exactly those not seen for more than fifteen minutes, and
-- leaves them in the index by receiver index too.
cleanup_idle_sessions_lem :
    (s : Sessions) (now : ℕ)
    → IsMap s.wg_sessions
    → ((key : Text)
        → load key (cleanup_idle_sessions s now).wg_sessions
          ≡ unless
              (session_passes (λ x. ltb (x.last_seen + minutes 15) now) s.heap)
              (load key s.wg_sessions))
      × ((index later : ℕ)
          → (lookup_session (cleanup_idle_sessions s now) index later).1
            ≡ (lookup_session s index later).1)
unfolding cleanup_idle_sessions lookup_session follow
cleanup_idle_sessions_lem s now m = (
  (λ key.
      load-delete_if (λ k ptr. session_passes (λ x. ltb (x.last_seen + minutes 15) now) s.heap ptr)
        key s.wg_sessions m),
  (λ index later. ground arith),
)

-- A pattern outlives the cleanup exactly if it saw a packet, in either direction, in the last
-- twenty minutes.
load-cleanup_patterns :
    (s : Sessions) (now : ℕ) (key : Text) (p : CommunicationPattern)
    → IsMap s.comm_patterns
    → load key s.comm_patterns ≡ some p
    → load key (cleanup_idle_communication_patterns s now).comm_patterns ≡ (
        if ltb (p.last_from_client + minutes 20) now && ltb (p.last_from_dest + minutes 20) now
        then none
        else some p)
unfolding cleanup_idle_communication_patterns
load-cleanup_patterns s now key p m here = ground (
  arith,
  load-delete_if (λ (k : Text) (p : CommunicationPattern). ltb (last_activity p + minutes 20) now)
      key s.comm_patterns m,
)

patterns-IsAllocated :
    (s : Sessions) (t : Table Text CommunicationPattern)
    → IsAllocated s
    → IsAllocated (record s { comm_patterns = t })
patterns-IsAllocated s t a = record { fresh = a.fresh; known = a.known; indexed = a.indexed }

track-IsAllocated :
    (s : Sessions) (o : Option CommunicationPattern) (client dest : UdpAddr) (index : ℕ)
    (from_client : Bool) (now : ℕ)
    → IsAllocated s
    → IsAllocated (track o s client dest index from_client now)
unfolding track
track-IsAllocated s none client dest index from_client now a = patterns-IsAllocated s _ a
track-IsAllocated s (some p) client dest index from_client now a =
    let p' = update_pattern p index from_client now in
    let stored = store (pattern_key client dest) p' s.comm_patterns in
    try_rebuild_session-IsAllocated (record s { comm_patterns = stored }) p' now
      (patterns-IsAllocated s stored a)

pub track_communication_pattern-IsAllocated :
    (s : Sessions) (from to : UdpAddr) (index : ℕ) (from_client : Bool) (now : ℕ)
    → IsAllocated s
    → IsAllocated (track_communication_pattern s from to index from_client now)
unfolding track_communication_pattern
track_communication_pattern-IsAllocated s from to index from_client now a =
    track-IsAllocated s _ _ _ index from_client now a
