-- ===== src/Relay/EndpointCache/Origin.antt =====
-- Where the entries of the endpoint cache of relay/relay.go come from: what removals leave was there.
use gerbil.Prelude.{
  ℕ, ◌≡◌, refl, none, some, arith, leb, length, Text, text_eq, Bool-cases, Option-cases, inl, inr,
}
use gerbil.Table.{load, delete, load-delete, load-delete_if, IsMap}
use gerbil.Relay.EndpointCache.{
  EndpointCache, CachedEndpointEntry, is_expired, delete_expired, make_room, oldest, delete_oldest,
}

pub load-delete-some :
    (k j : Text) (c : EndpointCache) (entry : CachedEndpointEntry)
    → load j (delete k c.entries) ≡ some entry
    → load j c.entries ≡ some entry
load-delete-some k j c entry h = ground (arith, load-delete k j c.entries)

pub make_room-some :
    (c : EndpointCache) (key j : Text) (w : CachedEndpointEntry)
    → load j (make_room c key) ≡ some w
    → load j c.entries ≡ some w
unfolding make_room
make_room-some c key j w h = elim (Option-cases (load key c.entries)) [
  | inr (v, e) ↦ rw e at h
  | inl e ↦ elim (Bool-cases (leb c.max_entries (length c.entries))) [
    | inr room ↦ rw (e, room) at h
    | inl full ↦ evicted (rw (e, full) at h)
  ]
]
  where
    evicted :
        load j (delete_oldest (oldest none c.entries) c.entries) ≡ some w
        → load j c.entries ≡ some w
    evicted h = elim (Option-cases (oldest none c.entries)) [
      | inl e ↦ rw e at h
      | inr ((k, v), e) ↦ load-delete-some k j c w (rw e at h)
    ]

pub load-delete_expired :
    (c : EndpointCache) (now : ℕ) (j : Text) (w : CachedEndpointEntry)
    → IsMap c.entries
    → load j (delete_expired c now).entries ≡ some w
    → load j c.entries ≡ some w
unfolding delete_expired
load-delete_expired c now j w m h = ground (
  arith,
  load-delete_if (λ (key : Text) (entry : CachedEndpointEntry). is_expired now c.ttl entry) j
      c.entries m,
)

pub delete_expired-fields :
    (c : EndpointCache) (now : ℕ)
    → ((delete_expired c now).max_entries ≡ c.max_entries) × ((delete_expired c now).ttl ≡ c.ttl)
unfolding delete_expired
delete_expired-fields c now = (refl, refl)
