-- ===== src/Relay/Sessions/Lookup.antt =====
-- The fast path of transport data in relay/relay.go: which destination a receiver index leads to
-- after a handshake, and that the pointers of both maps stay valid.
use gerbil.Prelude.{
  ℕ, ◌≤◌, ◌≡◌, ◌≢◌, inl, inr, refl, Option, none, some, [], arith, if◌then◌else◌, ◌==◌, ==_iff,
  Text, text_eq, nat_eq, Option-cases,
}
use gerbil.Table.{load, load-store}
use gerbil.Relay.Sessions.{Session, Sessions, put_session, update_last_seen, follow, lookup_session}

-- Every pointer of the maps leads to a session, and the next pointer is unused.
pub record IsAllocated (s : Sessions) : Type 0 where
  pub fresh : (ptr : ℕ) → s.next_session ≤ ptr → load ptr s.heap ≡ none
  pub known : (key : Text) (ptr : ℕ) → load key s.wg_sessions ≡ some ptr → load ptr s.heap ≢ none
  pub indexed : (index ptr : ℕ) → load index s.by_receiver_index ≡ some ptr → load ptr s.heap ≢ none

abbrev pub no_sessions : Sessions
no_sessions = record {
  heap = [];
  next_session = 0;
  wg_sessions = [];
  by_receiver_index = [];
  comm_patterns = [];
}

pub no_sessions-IsAllocated : IsAllocated no_sessions
unfolding load
no_sessions-IsAllocated = record {
  fresh = λ ptr h. refl;
  known = λ key ptr h. absurd (cc);
  indexed = λ index ptr h. absurd (cc);
}

pub put_session-IsAllocated :
    (s : Sessions) (key : Text) (x : Session) → IsAllocated s → IsAllocated (put_session s key x)
unfolding put_session
put_session-IsAllocated s key x a = record {
  fresh = λ ptr h. ground (
    arith,
    load-store s.next_session ptr x s.heap,
    a.fresh ptr (omega arith),
    ==_iff s.next_session ptr,
  );
  known = λ k ptr h. ground (
    arith,
    load-store s.next_session ptr x s.heap,
    load-store key k s.next_session s.wg_sessions,
    a.known k ptr,
    ==_iff s.next_session ptr,
  );
  indexed = λ i ptr h. ground (
    arith,
    load-store s.next_session ptr x s.heap,
    load-store x.sender_index i s.next_session s.by_receiver_index,
    a.indexed i ptr,
    ==_iff s.next_session ptr,
  );
}

pub update_last_seen-IsAllocated :
    (s : Sessions) (ptr : ℕ) (x : Session) (now : ℕ)
    → load ptr s.heap ≡ some x
    → IsAllocated s
    → IsAllocated (update_last_seen s ptr x now)
unfolding update_last_seen
update_last_seen-IsAllocated s ptr x now here a = record {
  fresh = λ q h.
      ground
        (arith, load-store ptr q (record x { last_seen = now }) s.heap, a.fresh q h, ==_iff ptr q);
  known = λ k q h.
      ground (arith, load-store ptr q (record x { last_seen = now }) s.heap, a.known k q h);
  indexed = λ i q h.
      ground (arith, load-store ptr q (record x { last_seen = now }) s.heap, a.indexed i q h);
}

pub follow-load :
    (s : Sessions) (o : Option ℕ) (ptr : ℕ) (x : Session)
    → follow s o ≡ some (ptr, x)
    → (o ≡ some ptr) × (load ptr s.heap ≡ some x)
unfolding follow
follow-load s none ptr x h = ground arith
follow-load s (some q) ptr x h = ground arith

pub lookup_session-IsAllocated :
    (s : Sessions) (index now : ℕ) → IsAllocated s → IsAllocated (lookup_session s index now).0
unfolding lookup_session
lookup_session-IsAllocated s index now a =
    elim (Option-cases (follow s (load index s.by_receiver_index))) [
      | inl e ↦ rw e a
      | inr ((ptr, x), e) ↦
          rw e (update_last_seen-IsAllocated s ptr x now (follow-load s _ ptr x e).1 a)
    ]

-- A handshake leads the transport data with its sender index to its destination, and leaves the
-- other indices as they were.
pub lookup-put_session :
    (s : Sessions) (key : Text) (x : Session) (index now : ℕ)
    → IsAllocated s
    → (lookup_session (put_session s key x) index now).1
      ≡ (if x.sender_index == index then some x.dest_addr else (lookup_session s index now).1)
unfolding lookup_session put_session follow
lookup-put_session s key x index now a = elim (Option-cases (load index s.by_receiver_index)) [
  | inl e ↦ ground (
    arith,
    load-store x.sender_index index s.next_session s.by_receiver_index,
    load-store s.next_session s.next_session x s.heap,
    ==_iff s.next_session s.next_session,
  )
  | inr (ptr, e) ↦ ground (
    arith,
    load-store x.sender_index index s.next_session s.by_receiver_index,
    load-store s.next_session s.next_session x s.heap,
    load-store s.next_session ptr x s.heap,
    ==_iff s.next_session s.next_session,
    ==_iff s.next_session ptr,
    a.fresh s.next_session (omega arith),
    a.indexed index ptr e,
  )
]

lookup-update_last_seen :
    (s : Sessions) (ptr : ℕ) (x : Session) (index now later : ℕ)
    → load ptr s.heap ≡ some x
    → (lookup_session (update_last_seen s ptr x now) index later).1
      ≡ (lookup_session s index later).1
unfolding lookup_session update_last_seen follow
lookup-update_last_seen s ptr x index now later here =
    elim (Option-cases (load index s.by_receiver_index)) [
      | inl e ↦ ground arith
      | inr (q, e) ↦
          ground (arith, load-store ptr q (record x { last_seen = now }) s.heap, ==_iff ptr q)
    ]

-- Marking a session as seen changes no destination.
lookup-lookup :
    (s : Sessions) (index other now later : ℕ)
    → (lookup_session (lookup_session s index now).0 other later).1
      ≡ (lookup_session s other later).1
unfolding lookup_session
lookup-lookup s index other now later =
    elim (Option-cases (follow s (load index s.by_receiver_index))) [
      | inl e ↦ rw e refl
      | inr ((ptr, x), e) ↦
          rw e (lookup-update_last_seen s ptr x other now later (follow-load s _ ptr x e).1)
    ]
