-- ===== src/Relay/EndpointCache/Oldest.antt =====
-- The search of `endpointCache.Store` (relay/relay.go) for the oldest entry, and the room it makes.
use gerbil.Prelude.{
  ℕ, ◌≤◌, ◌<◌, ◌≡◌, ◌≢◌, refl, false, none, some, [], ◌∷◌, arith, leb, Text, text_eq, text_beq_iff,
  length, ◌⊎◌, inl, inr, Option-cases, Bool-cases, leb→le,
}
use gerbil.Table.{Table, load, delete, IsMap}
use gerbil.Relay.EndpointCache.{EndpointCache, CachedEndpointEntry, oldest, make_room}

-- The keys are distinct, and there are at most `max_entries` of them.
pub record IsValid (c : EndpointCache) : Type 0 where
  pub distinct : IsMap c.entries
  pub bounded : length c.entries ≤ c.max_entries

pub ltb_leb : (n : ℕ) → 0 < n → leb n 0 ≡ false
ltb_leb n h = ground arith

abbrev Entries : Type 0
Entries = Table Text CachedEndpointEntry

module _ (k : Text) (v : CachedEndpointEntry) where
  oldest-le-best :
      (j : Text) (w : CachedEndpointEntry) (t : Entries)
      → oldest (some (j, w)) t ≡ some (k, v)
      → v.cached_at ≤ w.cached_at
  unfolding oldest
  oldest-le-best j w [] h = ground arith
  oldest-le-best j w ((a, x) ∷ t) h = ground (arith, oldest-le-best j w t, oldest-le-best a x t)

  oldest-le :
      (j : Text) (w : CachedEndpointEntry) (t : Entries) (i : Text) (u : CachedEndpointEntry)
      → oldest (some (j, w)) t ≡ some (k, v)
      → load i t ≡ some u
      → v.cached_at ≤ u.cached_at
  unfolding oldest load
  oldest-le j w [] i u h l = ground arith
  oldest-le j w ((a, x) ∷ t) i u h l =
      ground (
        arith,
        oldest-le-best j w t,
        oldest-le-best a x t,
        oldest-le j w t i u,
        oldest-le a x t i u,
      )

  oldest-mem :
      (j : Text) (w : CachedEndpointEntry) (t : Entries)
      → IsMap t
      → oldest (some (j, w)) t ≡ some (k, v)
      → (load k t ≡ some v) ⊎ ((k ≡ j) × (v ≡ w))
  unfolding oldest load
  oldest-mem j w [] m h = ground arith
  oldest-mem j w ((a, x) ∷ t) m h =
      ground (arith, text_beq_iff a k, oldest-mem j w t m.1, oldest-mem a x t m.1)

oldest-ne : (j : Text) (w : CachedEndpointEntry) (t : Entries) → oldest (some (j, w)) t ≢ none
unfolding oldest
oldest-ne j w [] = ground arith
oldest-ne j w ((a, x) ∷ t) = ground (arith, oldest-ne j w t, oldest-ne a x t)

-- The search over a whole table finds one of its entries, and none is older.
oldest_found :
    (t : Entries)
    → 0 < length t
    → IsMap t
    → (k : Text) × (v : CachedEndpointEntry) × (oldest none t ≡ some (k, v))
      × (load k t ≡ some v)
      × ((i : Text) (u : CachedEndpointEntry) → load i t ≡ some u → v.cached_at ≤ u.cached_at)
unfolding oldest load
oldest_found [] h m = absurd (omega arith)
oldest_found ((a, x) ∷ t) h m = elim (Option-cases (oldest (some (a, x)) t)) [
  | inl e ↦ absurd (oldest-ne a x t e)
  | inr ((k, v), e) ↦ (
    k,
    v,
    e,
    ground (arith, text_beq_iff a k, oldest-mem k v a x t m.1 e),
    (λ i u l. ground (arith, oldest-le-best k v a x t e, oldest-le k v a x t i u e)),
  )
]

-- The three ways in which a store finds room: the key is there, there is space, or the oldest
-- entry goes.
abbrev pub IsSpacious : EndpointCache → Text → Type 0
IsSpacious c key =
    (((v : CachedEndpointEntry) × (load key c.entries ≡ some v)) × (make_room c key ≡ c.entries))
    ⊎ ((load key c.entries ≡ none)
        × (length c.entries < c.max_entries)
        × (make_room c key ≡ c.entries))
    ⊎ ((load key c.entries ≡ none)
        × ((k : Text) × (v : CachedEndpointEntry) × (load k c.entries ≡ some v)
            × (make_room c key ≡ delete k c.entries)
            × ((i : Text) (u : CachedEndpointEntry)
                → load i c.entries ≡ some u
                → v.cached_at ≤ u.cached_at)))

pub make_room-IsSpacious :
    (c : EndpointCache) (key : Text) → IsValid c → 0 < c.max_entries → IsSpacious c key
unfolding make_room
make_room-IsSpacious c key v pos = elim (Option-cases (load key c.entries)) [
  | inr (w, e) ↦ inl ((w, e), rw e refl)
  | inl e ↦ elim (Bool-cases (leb c.max_entries (length c.entries))) [
    | inr space ↦ inr (inl (e, ground arith, rw (e, space) refl))
    | inl full ↦
        let (k, w, found, here, least) =
          oldest_found c.entries (omega (arith, leb→le _ _ full)) v.distinct in
        inr (inr (e, (k, w, here, rw (e, full, found) refl, least)))
  ]
]
