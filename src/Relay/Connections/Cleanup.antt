-- ===== src/Relay/Connections/Cleanup.antt =====
-- `cleanupIdleConnections` and `clearConnectionsForWGIP` of relay/relay.go: which entries go, and
-- what becomes of `connectionCount`.
use gerbil.Prelude.{
  ℕ, suc, ◌+◌, ◌≡◌, inl, inr, refl, Bool, true, Option, none, some, [], ◌∷◌, arith, if◌then◌else◌,
  ltb, Text, text_eq, text_beq_iff, ℤ, pos, ◌+ℤ◌, ◌-ℤ◌, length, Bool-cases, ap, ◌∙◌,
}
use gerbil.Table.{Table, load, delete, count_if, IsMap, load-delete, unless}
use gerbil.Relay.Address.{UdpAddr, connection_key, contains_ip}
use gerbil.Relay.Keys.{IsV4Text, contains_ip-connection_key}
use gerbil.Relay.Connections.{
  Connections, DestinationConn, remove_connection, remove_where, is_idle, subtract_removed,
  cleanup_idle_connections, clear_connections_for_wg_ip,
}
use gerbil.Relay.Connections.Invariant.{IsSound}
use gerbil.Relay.Connections.Removal.{remove_connection-IsSound, remove_connection_current}

unless_lem {ℓ} :
    {V : Type ℓ} (test : V → Bool) (o rest : Option V)
    → rest ≡ o
    → elim o [ none ↦ rest | some c ↦ if test c then none else some c ] ≡ unless test o
unless_lem test none rest e = e
unless_lem test (some v) rest e = refl

unless-true : (b : Bool) (o : Option DestinationConn) → b ≡ true → unless (λ c. b) o ≡ none
unless-true b none h = refl
unless-true b (some c) h = rw h refl

subtract_removed-table : (s : Connections) (n : ℕ) → (subtract_removed s n).table ≡ s.table
unfolding subtract_removed
subtract_removed-table s n = ground arith

abbrev Entries : Type 0
Entries = Table Text DestinationConn

module _ (test : Text → DestinationConn → Bool) where
  remove_where-IsSound :
      (d : ℕ) (t : Entries) (s : Connections) → IsSound d s → IsSound d (remove_where test t s).0
  unfolding remove_where
  remove_where-IsSound d [] s v = v
  remove_where-IsSound d ((k, c) ∷ t) s v = elim (Bool-cases (test k c)) [
    | inl hit ↦
        rw hit (
          remove_where-IsSound d t (remove_connection s k c).0
            (remove_connection-IsSound d s k c v))
    | inr miss ↦ rw miss (remove_where-IsSound d t s v)
  ]

  -- The scan's entries are still in the pool when the scan reaches them.
  abbrev Present : Entries → Connections → Type 0
  Present t s = (k : Text) (c : DestinationConn) → load k t ≡ some c → load k s.table ≡ some c

  head_present : (k : Text) (c : DestinationConn) (t : Entries) → load k ((k, c) ∷ t) ≡ some c
  unfolding load
  head_present k c t = ground (arith, text_beq_iff k k)

  later :
      (k : Text) (c : DestinationConn) (t : Entries) (s : Connections)
      → IsMap ((k, c) ∷ t)
      → Present ((k, c) ∷ t) s
      → Present t s
  unfolding load
  later k c t s m p j x h = p j x (ground (arith, text_beq_iff k j, m.0))

  abbrev without : Text → DestinationConn → Connections → Connections
  without k c s = record s {
    table = delete k s.table;
    connection_count = s.connection_count -ℤ pos 1;
    closed = c.conn ∷ s.closed;
  }

  still :
      (k : Text) (c : DestinationConn) (t : Entries) (s : Connections)
      → IsMap ((k, c) ∷ t)
      → Present ((k, c) ∷ t) s
      → Present t (without k c s)
  still k c t s m p j x h =
      ground (arith, text_beq_iff k j, load-delete k j s.table, later k c t s m p j x h, m.0)

  abbrev Removed : Entries → Connections → Type 0
  Removed t s =
      ((j : Text)
        → load j (remove_where test t s).0.table
          ≡ elim (load j t) [ none ↦ load j s.table | some c ↦ if test j c then none else some c ])
      × ((remove_where test t s).1 ≡ count_if test t)

  remove_where-Removed : (t : Entries) (s : Connections) → IsMap t → Present t s → Removed t s
  unfolding remove_where load count_if
  remove_where-Removed [] s m p = ((λ j. refl), refl)
  remove_where-Removed ((k, c) ∷ t) s m p = elim (Bool-cases (test k c)) [
    | inl hit ↦
        let (loads, counts) = remove_where-Removed t (without k c s) m.1 (still k c t s m p) in
        rw (hit, remove_connection_current s k c c (p k c (head_present k c t)) refl)
          (
            (λ j. ground (arith, loads j, text_beq_iff k j, load-delete k j s.table, m.0)),
            ap suc counts,
          )
    | inr miss ↦
        let (loads, counts) = remove_where-Removed t s m.1 (later k c t s m p) in
        rw miss (
          (λ j. ground (arith, loads j, text_beq_iff k j, m.0, p k c (head_present k c t))),
          counts,
        )
  ]

  -- The removal of every entry that passes the test.
  remove_where_lem :
      (d : ℕ) (s : Connections)
      → IsSound d s
      → IsSound d (remove_where test s.table s).0
        × ((j : Text)
            → load j (remove_where test s.table s).0.table ≡ unless (test j) (load j s.table))
        × ((remove_where test s.table s).1 ≡ count_if test s.table)
  remove_where_lem d s v =
      let (loads, counts) = remove_where-Removed s.table s v.distinct (λ k c h. h) in
      (
        remove_where-IsSound d s.table s v,
        (λ j. loads j ∙ unless_lem (test j) (load j s.table) _ refl),
        counts,
      )

counted_twice : (a : ℤ) (d n m : ℕ) → a +ℤ pos d ≡ pos m → (a -ℤ pos n) +ℤ pos (d + n) ≡ pos m
unfolding ◌+ℤ◌ ◌-ℤ◌
counted_twice a d n m h = ground arith

subtract_removed-IsSound :
    (d n : ℕ) (s : Connections) → IsSound d s → IsSound (d + n) (subtract_removed s n)
unfolding subtract_removed
subtract_removed-IsSound d n s v = elim (Bool-cases (ltb 0 n)) [
  | inl some_gone ↦ rw some_gone (record {
    distinct = v.distinct;
    counted = counted_twice s.connection_count d n (length s.table) v.counted;
    accounted = v.accounted;
  })
  | inr none_gone ↦ let e : d + n ≡ d = ground arith in rw (none_gone, e) v
]

-- A tick of cleanupIdleConnections on a sound pool removes and closes the idle sockets and no
-- other, and leaves connectionCount short of the number of entries by one more for each removed
-- socket, since removeConnection has already counted it down.
pub cleanup_idle_connections-drift :
    (d : ℕ) (s : Connections) (now : ℕ)
    → IsSound d s
    → IsSound (d + count_if (is_idle now) s.table) (cleanup_idle_connections s now)
      × ((j : Text)
          → load j (cleanup_idle_connections s now).table ≡ unless (is_idle now j) (load j s.table))
unfolding cleanup_idle_connections
cleanup_idle_connections-drift d s now v =
    let (sound, loads, counts) = remove_where_lem (is_idle now) d s v in
    (
      rw (← counts) (subtract_removed-IsSound d _ _ sound),
      (λ j. ap (load j) (subtract_removed-table _ _) ∙ loads j),
    )

-- Clearing a peer removes the connections whose key names its IP and no other, and keeps the
-- count right.
clear_connections_for_wg_ip-IsSound :
    (d : ℕ) (s : Connections) (wg_ip : Text)
    → IsSound d s
    → IsSound d (clear_connections_for_wg_ip s wg_ip)
      × ((j : Text)
          → load j (clear_connections_for_wg_ip s wg_ip).table
            ≡ unless (λ c. contains_ip j wg_ip) (load j s.table))
unfolding clear_connections_for_wg_ip
clear_connections_for_wg_ip-IsSound d s wg_ip v =
    let (sound, loads, counts) = remove_where_lem (λ key c. contains_ip key wg_ip) d s v in
    (sound, loads)

-- After clearConnectionsForWGIP on a sound pool for the IP of either end of a connection between
-- two IPv4 addresses, no entry is left for it.
clear_connections_for_wg_ip_v4 :
    (d : ℕ) (s : Connections) (dest remote : UdpAddr)
    → IsSound d s
    → IsV4Text dest.ip
    → IsV4Text remote.ip
    → (load (connection_key dest remote) (clear_connections_for_wg_ip s dest.ip).table ≡ none)
      × (load (connection_key dest remote) (clear_connections_for_wg_ip s remote.ip).table ≡ none)
clear_connections_for_wg_ip_v4 d s dest remote v vd vr = (
  (clear_connections_for_wg_ip-IsSound d s dest.ip v).1 (connection_key dest remote)
      ∙ unless-true _ (load (connection_key dest remote) s.table) (
          contains_ip-connection_key dest remote dest.ip vd vr vd.no_colon
          ∙ ground (arith, text_beq_iff dest.ip dest.ip)),
  (clear_connections_for_wg_ip-IsSound d s remote.ip v).1 (connection_key dest remote)
      ∙ unless-true _ (load (connection_key dest remote) s.table) (
          contains_ip-connection_key dest remote remote.ip vd vr vr.no_colon
          ∙ ground (arith, text_beq_iff remote.ip remote.ip)),
)
