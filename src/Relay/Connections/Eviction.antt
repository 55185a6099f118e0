-- ===== src/Relay/Connections/Eviction.antt =====
-- `evictLRUConnection` of relay/relay.go: it takes out exactly one entry of a pool that has any,
-- the least recently used of the first 64 that the scan visits.
use gerbil.Prelude.{
  ℕ, suc, zero, ◌≤◌, ◌<◌, ◌≡◌, ◌≢◌, ◌⊎◌, inl, inr, refl, none, some, [], ◌∷◌, arith, Text, text_eq,
  text_beq_iff, pos, ◌-ℤ◌, length, take, take_of_length-le, Option-cases, ap, ◌∙◌,
}
use gerbil.Table.{Table, load, delete, IsMap}
use gerbil.Relay.Connections.{
  Connections, DestinationConn, evict_found, least_used, evict_lru_connection, eviction_sample_size,
}
use gerbil.Relay.Connections.Invariant.{IsSound}
use gerbil.Relay.Connections.Removal.{remove_connection-IsSound, remove_connection_current}

abbrev Entries : Type 0
Entries = Table Text DestinationConn

module _ (k : Text) (v : DestinationConn) where
  least_used-le-best :
      (j : Text) (w : DestinationConn) (t : Entries)
      → least_used (some (j, w)) t ≡ some (k, v)
      → v.last_used ≤ w.last_used
  unfolding least_used
  least_used-le-best j w [] h = ground arith
  least_used-le-best j w ((a, x) ∷ t) h =
      ground (arith, least_used-le-best j w t, least_used-le-best a x t)

  least_used-le :
      (j : Text) (w : DestinationConn) (t : Entries) (i : Text) (u : DestinationConn)
      → least_used (some (j, w)) t ≡ some (k, v)
      → load i t ≡ some u
      → v.last_used ≤ u.last_used
  unfolding least_used load
  least_used-le j w [] i u h l = ground arith
  least_used-le j w ((a, x) ∷ t) i u h l = ground (
    arith,
    least_used-le-best j w t,
    least_used-le-best a x t,
    least_used-le j w t i u,
    least_used-le a x t i u,
  )

  least_used-mem :
      (j : Text) (w : DestinationConn) (t : Entries)
      → IsMap t
      → least_used (some (j, w)) t ≡ some (k, v)
      → (load k t ≡ some v) ⊎ ((k ≡ j) × (v ≡ w))
  unfolding least_used load
  least_used-mem j w [] m h = ground arith
  least_used-mem j w ((a, x) ∷ t) m h =
      ground (arith, text_beq_iff a k, least_used-mem j w t m.1, least_used-mem a x t m.1)

least_used-ne : (j : Text) (w : DestinationConn) (t : Entries) → least_used (some (j, w)) t ≢ none
unfolding least_used
least_used-ne j w [] = ground arith
least_used-ne j w ((a, x) ∷ t) = ground (arith, least_used-ne j w t, least_used-ne a x t)

least_used_found :
    (t : Entries)
    → 0 < length t
    → IsMap t
    → (k : Text) × (v : DestinationConn) × (least_used none t ≡ some (k, v))
      × (load k t ≡ some v)
      × ((i : Text) (u : DestinationConn) → load i t ≡ some u → v.last_used ≤ u.last_used)
unfolding least_used load
least_used_found [] h m = absurd (omega arith)
least_used_found ((a, x) ∷ t) h m = elim (Option-cases (least_used (some (a, x)) t)) [
  | inl e ↦ absurd (least_used-ne a x t e)
  | inr ((k, v), e) ↦ (
    k,
    v,
    e,
    ground (arith, text_beq_iff a k, least_used-mem k v a x t m.1 e),
    (λ i u l. ground (arith, least_used-le-best k v a x t e, least_used-le k v a x t i u e)),
  )
]

load-take :
    (n : ℕ) (k : Text) (v : DestinationConn) (t : Entries)
    → load k (take n t) ≡ some v
    → load k t ≡ some v
unfolding load
load-take zero k v t h = ground arith
load-take (suc n) k v [] h = h
load-take (suc n) k v ((i, w) ∷ t) h = ground (arith, load-take n k v t)

load-take-none : (n : ℕ) (k : Text) (t : Entries) → load k t ≡ none → load k (take n t) ≡ none
unfolding load
load-take-none zero k t h = refl
load-take-none (suc n) k [] h = h
load-take-none (suc n) k ((i, w) ∷ t) h = ground (arith, load-take-none n k t)

take-IsMap : (n : ℕ) (t : Entries) → IsMap t → IsMap (take n t)
take-IsMap zero t m = tt
take-IsMap (suc n) [] m = tt
take-IsMap (suc n) ((i, w) ∷ t) m = (load-take-none n i t m.0, take-IsMap n t m.1)

take_pos : (n : ℕ) (t : Entries) → 0 < length t → 0 < length (take (suc n) t)
take_pos n [] h = h
take_pos n (x ∷ t) h = omega arith

pub evict_lru_connection-IsSound :
    (d : ℕ) (s : Connections) → IsSound d s → IsSound d (evict_lru_connection s)
unfolding evict_lru_connection
evict_lru_connection-IsSound d s v =
    elim (Option-cases (least_used none (take eviction_sample_size s.table))) [
      | inl e ↦ rw e v
      | inr ((k, c), e) ↦ rw e (remove_connection-IsSound d s k c v)
    ]

-- On a sound pool that is not empty, evictLRUConnection removes and closes exactly one socket and
-- counts it down; among the first 64 entries that the scan visits none was used longer ago, and
-- so none at all in a pool of at most 64.
pub evict_lru_connection_lem :
    (d : ℕ) (s : Connections)
    → IsSound d s
    → 0 < length s.table
    → (k : Text) × (c : DestinationConn) × (load k s.table ≡ some c)
      × (evict_lru_connection s ≡ record s {
        table = delete k s.table;
        connection_count = s.connection_count -ℤ pos 1;
        closed = c.conn ∷ s.closed;
      })
      × ((i : Text) (u : DestinationConn)
          → load i (take eviction_sample_size s.table) ≡ some u
          → c.last_used ≤ u.last_used)
      × (length s.table ≤ eviction_sample_size
          → (i : Text) (u : DestinationConn) → load i s.table ≡ some u
          → c.last_used ≤ u.last_used)
unfolding evict_lru_connection
evict_lru_connection_lem d s v h =
    let (k, c, found, here, least) =
      least_used_found (take eviction_sample_size s.table) (take_pos 63 s.table h)
        (take-IsMap eviction_sample_size s.table v.distinct) in
    let stored = load-take eviction_sample_size k c s.table here in
    (
      k,
      c,
      stored,
      ap (λ o. evict_found o s) found
          ∙ ap (λ r. r.0) (remove_connection_current s k c c stored refl),
      least,
      (λ few i u here'. least i u (rw (take_of_length-le eviction_sample_size s.table few) here')),
    )
