-- ===== src/Relay/Sessions/Rebuild.antt =====
-- `tryRebuildSession` of relay/relay.go: when it acts, where transport data goes afterwards, and
-- the session that it makes a second time.
use gerbil.Prelude.{
  ℕ, suc, ◌+◌, ◌≤◌, ◌<◌, ◌≡◌, ◌≢◌, ◌↔◌, inl, inr, refl, false, Option, none, some, [], ◌∷◌, ◌++◌,
  arith, ==_iff, Text, text_eq, text_beq, text_beq_iff, nat_eq, length, Option-cases, Bool-cases,
  ◌∙◌, itoa_ℕ, itoa_ℕ-Digits, itoa_ℕ-injective, Digits,
}
use gerbil.Table.{Table, load, store, load-store}
use gerbil.Table.Laws.{length-store_new}
use gerbil.Relay.Address.{UdpAddr, addr_string}
use gerbil.Relay.Sessions.{
  Session, Sessions, CommunicationPattern, put_session, store_dest_response, update_last_seen,
  follow, lookup_session, session_key, cannot_rebuild, try_rebuild_session, rebuild, create_rebuilt,
  index_if_missing, seconds,
}
use gerbil.Relay.Sessions.Lookup.{
  IsAllocated, put_session-IsAllocated, update_last_seen-IsAllocated, follow-load,
  lookup-put_session,
}

-- A session is rebuilt only once both indices are known, four packets were counted, and the last
-- packets of the two directions lie less than thirty seconds apart.
cannot_rebuild_iff :
    (p : CommunicationPattern)
    → (cannot_rebuild p ≡ false) ↔ (
        (p.client_index ≢ 0)
        × (p.dest_index ≢ 0)
        × (4 ≤ p.packet_count)
        × (p.last_from_client < p.last_from_dest + seconds 30)
        × (p.last_from_dest < p.last_from_client + seconds 30))
unfolding cannot_rebuild
cannot_rebuild_iff p = ground arith

index_if_missing-IsAllocated :
    (o : Option ℕ) (s : Sessions) (index ptr : ℕ) (x : Session)
    → load ptr s.heap ≡ some x
    → IsAllocated s
    → IsAllocated (index_if_missing o s index ptr)
unfolding index_if_missing
index_if_missing-IsAllocated none s index ptr x here a = record {
  fresh = a.fresh;
  known = a.known;
  indexed = λ i q h. ground (arith, load-store index i ptr s.by_receiver_index, a.indexed i q);
}
index_if_missing-IsAllocated (some q) s index ptr x here a = a

load-update_last_seen :
    (s : Sessions) (ptr : ℕ) (x : Session) (now : ℕ)
    → load ptr (update_last_seen s ptr x now).heap ≡ some (record x { last_seen = now })
unfolding update_last_seen
load-update_last_seen s ptr x now =
    ground (arith, load-store ptr ptr (record x { last_seen = now }) s.heap, ==_iff ptr ptr)

rebuild-IsAllocated :
    (s : Sessions) (p : CommunicationPattern) (now : ℕ) (o : Option (ℕ × Session))
    → ((ptr : ℕ) (x : Session) → o ≡ some (ptr, x) → load ptr s.heap ≡ some x)
    → IsAllocated s
    → IsAllocated (rebuild s p now o)
unfolding rebuild create_rebuilt
rebuild-IsAllocated s p now none found a = put_session-IsAllocated s _ _ a
rebuild-IsAllocated s p now (some (ptr, x)) found a =
    elim (Bool-cases (text_beq (addr_string x.dest_addr) (addr_string p.to_destination))) [
      | inl same ↦ rw same (
          index_if_missing-IsAllocated _ (update_last_seen s ptr x now) p.client_index ptr
            (record x { last_seen = now }) (load-update_last_seen s ptr x now)
            (update_last_seen-IsAllocated s ptr x now (found ptr x refl) a))
      | inr other ↦ rw other (put_session-IsAllocated s _ _ a)
    ]

pub try_rebuild_session-IsAllocated :
    (s : Sessions) (p : CommunicationPattern) (now : ℕ)
    → IsAllocated s
    → IsAllocated (try_rebuild_session s p now)
unfolding try_rebuild_session
try_rebuild_session-IsAllocated s p now a = elim (Bool-cases (cannot_rebuild p)) [
  | inl no_action ↦ rw no_action a
  | inr acts ↦ rw acts (rebuild-IsAllocated s p now _ (λ ptr x e. (follow-load s _ ptr x e).1) a)
]

lookup-indexed :
    (s : Sessions) (index ptr : ℕ) (x : Session) (later : ℕ)
    → load ptr s.heap ≡ some x
    → (lookup_session (index_if_missing none s index ptr) index later).1 ≡ some x.dest_addr
unfolding lookup_session follow index_if_missing
lookup-indexed s index ptr x later here =
    ground (arith, load-store index index ptr s.by_receiver_index, ==_iff index index)

-- If the pattern passes the test of tryRebuildSession, its client index leads nowhere, and the
-- session pointers are valid, then after the call the client index leads to an address that reads
-- like the pattern's destination.
lookup-try_rebuild_session :
    (s : Sessions) (p : CommunicationPattern) (now later : ℕ)
    → IsAllocated s
    → cannot_rebuild p ≡ false
    → load p.client_index s.by_receiver_index ≡ none
    → (d : UdpAddr) × ((lookup_session (try_rebuild_session s p now) p.client_index later).1
        ≡ some d)
      × (addr_string d ≡ addr_string p.to_destination)
unfolding try_rebuild_session rebuild create_rebuilt
lookup-try_rebuild_session s p now later a acts missing =
    elim (Option-cases (follow s (load (session_key p.dest_index p.client_index) s.wg_sessions))) [
      | inl e ↦
          rw (acts, e)
            (
              p.to_destination,
              lookup-put_session s _ _ p.client_index later a
                  ∙ ground (arith, ==_iff p.client_index p.client_index),
              refl,
            )
      | inr ((ptr, x), e) ↦
          elim (Bool-cases (text_beq (addr_string x.dest_addr) (addr_string p.to_destination))) [
            | inl same ↦
                rw (acts, e, rebuild, same, missing)
                  (
                    x.dest_addr,
                    lookup-indexed (update_last_seen s ptr x now) p.client_index ptr
                        (record x { last_seen = now }) later (load-update_last_seen s ptr x now),
                    (text_beq_iff _ _).0 same,
                  )
            | inr other ↦
                rw (acts, e, rebuild, other)
                  (
                    p.to_destination,
                    lookup-put_session s _ _ p.client_index later a
                        ∙ ground (arith, ==_iff p.client_index p.client_index),
                    refl,
                  )
          ]
    ]

-- Decimal digits are no colons.
before_colon : (s t r q : Text) → Digits s → Digits t → s ++ b':' ∷ r ≡ t ++ b':' ∷ q → s ≡ t
before_colon [] [] r q d e h = refl
before_colon [] (c ∷ t) r q d e h = ground arith
before_colon (b ∷ s) [] r q d e h = ground arith
before_colon (b ∷ s) (c ∷ t) r q d e h = ground (arith, before_colon s t r q d.1 e.1)

session_key-ne : (a b : ℕ) → a ≢ b → session_key a b ≢ session_key b a
unfolding session_key
session_key-ne a b ne h = ne (
    itoa_ℕ-injective a b (
      before_colon (itoa_ℕ a) (itoa_ℕ b) (itoa_ℕ b) (itoa_ℕ a) (itoa_ℕ-Digits a) (itoa_ℕ-Digits b)
        h))

try_rebuild_creates :
    (s : Sessions) (p : CommunicationPattern) (now : ℕ)
    → cannot_rebuild p ≡ false
    → load (session_key p.dest_index p.client_index) s.wg_sessions ≡ none
    → (try_rebuild_session s p now).wg_sessions
      ≡ store (session_key p.dest_index p.client_index) s.next_session s.wg_sessions
unfolding try_rebuild_session put_session
try_rebuild_creates s p now acts absent = rw (acts, absent) refl

twice_stored :
    (k j : Text) (a b : ℕ) (t : Table Text ℕ)
    → j ≢ k
    → load k t ≡ none
    → (load k (store j a t) ≡ none)
      × (length (store k b (store j a t)) ≡ suc (length (store j a t)))
      × (load j (store k b (store j a t)) ≢ none)
      × (load k (store k b (store j a t)) ≢ none)
twice_stored k j a b t ne h =
    let absent : load k (store j a t) ≡ none =
      ground (arith, text_beq_iff j k, load-store j k a t) in
    (
      absent,
      length-store_new k b (store j a t) absent,
      ground (
        arith,
        text_beq_iff k j,
        text_beq_iff j j,
        load-store k j b (store j a t),
        load-store j j a t,
      ),
      ground (arith, text_beq_iff k k, load-store k k b (store j a t)),
    )

-- If a destination's handshake response with two different indices is stored and a pattern with
-- the same two indices then passes the test of tryRebuildSession, and no session stood under
-- receiver:sender before, the session map grows by one, and holds the pair of indices under both
-- orders.
pub rebuild_duplicates :
    (s : Sessions) (receiver sender : ℕ) (dest : UdpAddr) (seen_at now : ℕ)
    (p : CommunicationPattern)
    → IsAllocated s
    → sender ≢ receiver
    → load (session_key receiver sender) s.wg_sessions ≡ none
    → p.client_index ≡ sender
    → p.dest_index ≡ receiver
    → cannot_rebuild p ≡ false
    → let s' = store_dest_response s receiver sender dest seen_at in
      (length (try_rebuild_session s' p now).wg_sessions ≡ suc (length s'.wg_sessions))
      × (load (session_key sender receiver) (try_rebuild_session s' p now).wg_sessions ≢ none)
      × (load (session_key receiver sender) (try_rebuild_session s' p now).wg_sessions ≢ none)
unfolding store_dest_response
rebuild_duplicates s receiver sender dest seen_at now p a ne absent c d acts =
    let s' = store_dest_response s receiver sender dest seen_at in
    let key = session_key receiver sender in
    let same : session_key p.dest_index p.client_index ≡ key = rw (c, d) refl in
    let (missing, longer, first, second) =
      twice_stored key (session_key sender receiver) s.next_session s'.next_session s.wg_sessions
        (session_key-ne sender receiver ne) absent in
    let created : (try_rebuild_session s' p now).wg_sessions
        ≡ store key s'.next_session s'.wg_sessions =
      rw same at (try_rebuild_creates s' p now acts (rw same missing)) in
    rw created (longer, first, second)
