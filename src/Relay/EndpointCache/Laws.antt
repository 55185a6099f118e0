-- ===== src/Relay/EndpointCache/Laws.antt =====
-- The endpoint cache of relay/relay.go: its bound, what a load answers, and which entry a store
-- evicts.
use gerbil.Prelude.{
  ℕ, ◌+◌, ◌≤◌, ◌<◌, ◌≡◌, ◌≢◌, none, some, [], ◌∷◌, arith, if◌then◌else◌, leb, Text, text_eq,
  text_beq_iff, length, inl, inr, Bool-cases, ◌∙◌,
}
use gerbil.Table.{Table, load, store, delete, load-store, load-delete, load-delete_if}
use gerbil.Table.Laws.{
  store-IsMap, delete-IsMap, delete_if-IsMap, length-store_new, length-store_old, length-delete,
  length-delete_if,
}
use gerbil.Relay.EndpointCache.{
  EndpointCache, CachedEndpointEntry, new_endpoint_cache, is_expired, load_entry, store_entry,
  delete_expired, make_room,
}
use gerbil.Relay.EndpointCache.Oldest.{IsValid, IsSpacious, make_room-IsSpacious, ltb_leb}

pub new_endpoint_cache-IsValid : (n ttl : ℕ) → IsValid (new_endpoint_cache n ttl)
unfolding new_endpoint_cache
new_endpoint_cache-IsValid n ttl = record { distinct = tt; bounded = omega arith }

length-delete-le : (k : Text) (t : Table Text CachedEndpointEntry) → length (delete k t) ≤ length t
unfolding delete
length-delete-le k [] = omega arith
length-delete-le k ((i, v) ∷ t) = ground (arith, length-delete-le k t)

pub load_entry-IsValid :
    (c : EndpointCache) (key : Text) (now : ℕ) → IsValid c → IsValid (load_entry c key now).0
unfolding load_entry
load_entry-IsValid c key now v =
    ground (arith, delete-IsMap key c.entries v.distinct, length-delete-le key c.entries)

pub delete_expired-IsValid :
    (c : EndpointCache) (now : ℕ) → IsValid c → IsValid (delete_expired c now)
unfolding delete_expired
delete_expired-IsValid c now v = record {
  distinct = delete_if-IsMap (λ key entry. is_expired now c.ttl entry) c.entries v.distinct;
  bounded = omega (
    arith,
    v.bounded,
    length-delete_if (λ (key : Text) (entry : CachedEndpointEntry). is_expired now c.ttl entry)
        c.entries,
  );
}

-- A store into an endpoint cache with distinct keys and at most maxEntries entries keeps both.
pub store_entry-IsValid :
    (c : EndpointCache) (key : Text) (entry : CachedEndpointEntry)
    → IsValid c
    → IsValid (store_entry c key entry)
unfolding store_entry
store_entry-IsValid c key entry v = elim (Bool-cases (leb c.max_entries 0)) [
  | inl none_kept ↦ rw none_kept v
  | inr some_kept ↦ rw some_kept (stored (make_room-IsSpacious c key v (ground arith)))
]
  where
    stored : IsSpacious c key → IsValid (record c { entries = store key entry (make_room c key) })
    stored (inl ((w, e), same)) = rw same (record {
      distinct = store-IsMap key entry c.entries v.distinct;
      bounded = omega (arith, v.bounded, length-store_old key entry w c.entries e);
    })
    stored (inr (inl (e, space, same))) = rw same (record {
      distinct = store-IsMap key entry c.entries v.distinct;
      bounded = omega (arith, length-store_new key entry c.entries e);
    })
    stored (inr (inr (e, (k, w, here, same, least)))) = rw same (record {
      distinct = store-IsMap key entry _ (delete-IsMap k c.entries v.distinct);
      bounded = ground (
        arith,
        v.bounded,
        load-delete k key c.entries,
        length-store_new key entry (delete k c.entries),
        length-delete k w c.entries v.distinct here,
      );
    })

-- In a cache that may hold an entry, a load after a store of the same key answers with the stored
-- entry until its age reaches the TTL, and then with nothing.
load-store_entry :
    (c : EndpointCache) (key : Text) (entry : CachedEndpointEntry) (now : ℕ)
    → 0 < c.max_entries
    → (load_entry (store_entry c key entry) key now).1
      ≡ (if is_expired now c.ttl entry then none else some entry)
unfolding store_entry load_entry
load-store_entry c key entry now pos =
    let e : load key (store key entry (make_room c key)) ≡ some entry =
      load-store key key entry (make_room c key) ∙ ground (arith, text_beq_iff key key) in
    rw (ltb_leb c.max_entries pos, e) (ground arith)

-- A load never answers with an expired entry, nor with anything but what is stored.
load_entry_sound :
    (c : EndpointCache) (key : Text) (now : ℕ) (entry : CachedEndpointEntry)
    → (load_entry c key now).1 ≡ some entry
    → (load key c.entries ≡ some entry) × (now < entry.cached_at + c.ttl)
unfolding load_entry
load_entry_sound c key now entry h = ground arith

-- If a store under another key pushes an entry out of a valid endpoint cache, every entry that
-- was in the cache is as young as it or younger.
store_entry_evicts_oldest :
    (c : EndpointCache) (key k : Text) (entry old : CachedEndpointEntry)
    → IsValid c
    → key ≢ k
    → load k c.entries ≡ some old
    → load k (store_entry c key entry).entries ≡ none
    → (i : Text) (u : CachedEndpointEntry) → load i c.entries ≡ some u
    → old.cached_at ≤ u.cached_at
unfolding store_entry
store_entry_evicts_oldest c key k entry old v ne here gone i u other =
    elim (Bool-cases (leb c.max_entries 0)) [
      | inl none_kept ↦ absurd (cc (rw none_kept at gone))
      | inr some_kept ↦ evicted (make_room-IsSpacious c key v (ground arith)) (rw some_kept at gone)
    ]
  where
    evicted :
        IsSpacious c key
        → load k (store key entry (make_room c key)) ≡ none
        → old.cached_at ≤ u.cached_at
    evicted (inl (_, same)) g = ground (arith, text_beq_iff key k, load-store key k entry c.entries)
    evicted (inr (inl (_, _, same))) g =
        ground (arith, text_beq_iff key k, load-store key k entry c.entries)
    evicted (inr (inr (_, (j, w, stored, same, least)))) g = ground (
      arith,
      text_beq_iff key k,
      text_beq_iff j k,
      load-store key k entry (delete j c.entries),
      load-delete j k c.entries,
      least i u other,
    )

-- After the periodic cleanup a load finds what it found before, unless it has expired.
load-delete_expired :
    (c : EndpointCache) (key : Text) (now : ℕ)
    → IsValid c
    → (load_entry (delete_expired c now) key now).1 ≡ (load_entry c key now).1
unfolding delete_expired load_entry
load-delete_expired c key now v =
    rw (load-delete_if (λ k entry. is_expired now c.ttl entry) key c.entries v.distinct)
      (ground arith)
