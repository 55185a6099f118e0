-- ===== src/Relay/Connections/Invariant.antt =====
-- What the pool of sockets of relay/relay.go keeps: `connectionCount` beside the number of
-- entries, and every socket ever dialled either once in the pool or once among the closed ones.
use gerbil.Prelude.{
  ℕ, suc, ◌+◌, ◌≡◌, refl, none, some, List, [], ◌∷◌, arith, if◌then◌else◌, ltb, ◌==◌, Text, text_eq,
  ℤ, pos, ◌+ℤ◌, ◌-ℤ◌, length, ◌∙◌,
}
use gerbil.Table.{load, store, delete, count_if, IsMap}
use gerbil.Table.Laws.{
  store-IsMap, delete-IsMap, length-store_new, length-store_old, length-delete, count_if-delete,
  count_if-store_new, count_if-store_old,
}
use gerbil.Relay.Connections.{Connections, DestinationConn}

abbrev pub occurrences : ℕ → List ℕ → ℕ
occurrences n [] = 0
occurrences n (m ∷ ms) = (if m == n then 1 else 0) + occurrences n ms

-- How often a socket stands in the pool or among the closed ones.
abbrev census : Connections → ℕ → ℕ
census s n = count_if (λ k c. c.conn == n) s.table + occurrences n s.closed

-- `drift` is by how much `connectionCount` falls short of the number of entries.
pub record IsSound (drift : ℕ) (s : Connections) : Type 0 where
  pub distinct : IsMap s.table
  pub counted : s.connection_count +ℤ pos drift ≡ pos (length s.table)
  pub accounted : (n : ℕ) → census s n ≡ (if ltb n s.next_conn then 1 else 0)

abbrev pub init : Connections
init = record { table = []; connection_count = pos 0; next_conn = 0; closed = [] }

pub init-IsSound : IsSound 0 init
unfolding count_if ◌+ℤ◌
init-IsSound = record { distinct = tt; counted = refl; accounted = λ n. ground arith }

count_down : (a : ℤ) (d n : ℕ) → a +ℤ pos d ≡ pos (suc n) → (a -ℤ pos 1) +ℤ pos d ≡ pos n
unfolding ◌+ℤ◌ ◌-ℤ◌
count_down a d n h = ground arith

count_up : (a : ℤ) (d n : ℕ) → a +ℤ pos d ≡ pos n → (a +ℤ pos 1) +ℤ pos d ≡ pos (suc n)
unfolding ◌+ℤ◌
count_up a d n h = ground arith

module _ (d : ℕ) (s : Connections) (v : IsSound d s) (key : Text) where
  -- Taking out an entry closes its socket and counts down by one.
  pub removed-IsSound :
      (c : DestinationConn)
      → load key s.table ≡ some c
      → IsSound d (record s {
        table = delete key s.table;
        connection_count = s.connection_count -ℤ pos 1;
        closed = c.conn ∷ s.closed;
      })
  removed-IsSound c here = record {
    distinct = delete-IsMap key s.table v.distinct;
    counted =
        count_down s.connection_count d (length (delete key s.table))
          (v.counted ∙ ground (arith, length-delete key c s.table v.distinct here));
    accounted = λ n. ground (
      arith,
      v.accounted n,
      count_if-delete (λ (k : Text) (x : DestinationConn). x.conn == n) key c s.table v.distinct
          here,
    );
  }

  -- A new socket under a new key counts up by one.
  pub created-IsSound :
      (now : ℕ)
      → load key s.table ≡ none
      → IsSound d (record s {
        table = store key (record { conn = s.next_conn; last_used = now }) s.table;
        connection_count = s.connection_count +ℤ pos 1;
        next_conn = suc s.next_conn;
      })
  created-IsSound now new = record {
    distinct = store-IsMap key _ s.table v.distinct;
    counted =
        rw (length-store_new key (record { conn = s.next_conn; last_used = now }) s.table new)
          (count_up s.connection_count d (length s.table) v.counted);
    accounted = λ n. ground (
      arith,
      v.accounted n,
      count_if-store_new (λ (k : Text) (x : DestinationConn). x.conn == n) key
          (record { conn = s.next_conn; last_used = now }) s.table new,
    );
  }

  -- A use only changes the time of the entry.
  pub touched-IsSound :
      (now : ℕ) (c : DestinationConn)
      → load key s.table ≡ some c
      → IsSound d (record s { table = store key (record c { last_used = now }) s.table })
  touched-IsSound now c here = record {
    distinct = store-IsMap key _ s.table v.distinct;
    counted = rw (length-store_old key (record c { last_used = now }) c s.table here) v.counted;
    accounted = λ n. ground (
      arith,
      v.accounted n,
      count_if-store_old (λ (k : Text) (x : DestinationConn). x.conn == n) key
          (record c { last_used = now }) c s.table here,
    );
  }
