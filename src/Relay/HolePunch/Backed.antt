-- ===== src/Relay/HolePunch/Backed.antt =====
-- The endpoint cache of relay/relay.go holds only what the server accepted.
use gerbil.Prelude.{
  ℕ, ◌≡◌, ◌⊎◌, inl, inr, some, List, [], ◌∷◌, arith, leb, Text, text_eq, text_beq, text_beq_iff,
  Bool-cases, Option-cases, ◌∙◌, subst,
}
use gerbil.Table.{load, store, load-store}
use gerbil.Relay.EndpointCache.{
  EndpointCache, CachedEndpointState, CachedEndpointEntry, load_entry, store_entry, delete_expired,
  make_room, is_expired,
}
use gerbil.Relay.EndpointCache.Oldest.{IsValid}
use gerbil.Relay.EndpointCache.Laws.{
  store_entry-IsValid, load_entry-IsValid, delete_expired-IsValid,
}
use gerbil.Relay.EndpointCache.Origin.{
  load-delete-some, make_room-some, load-delete_expired, delete_expired-fields,
}
use gerbil.Relay.HolePunch.{ClientEndpoint, cache_key, cached_state}
use gerbil.Relay.HolePunch.Steps.{endpoint_cache_ttl, max_endpoint_cache_entries}

-- The server accepted a notification with this cache key and state at the time.
unfoldable pub Accepted : Text → CachedEndpointState → ℕ → List (ClientEndpoint × ℕ) → Type 0
Accepted key state at [] = ⊥
Accepted key state at ((e, now) ∷ log) =
    ((cache_key e ≡ key) × (cached_state e ≡ state) × (now ≡ at)) ⊎ Accepted key state at log

abbrev Backs : List (ClientEndpoint × ℕ) → EndpointCache → Type 0
Backs log c =
    (key : Text) (entry : CachedEndpointEntry)
    → load key c.entries ≡ some entry
    → Accepted key entry.state entry.cached_at log

-- The invariant of the cache under a log of what was accepted.
pub record IsBacked (log : List (ClientEndpoint × ℕ)) (c : EndpointCache) : Type 0 where
  pub valid : IsValid c
  pub backs : Backs log c
  pub size : c.max_entries ≡ max_endpoint_cache_entries
  pub ttl : c.ttl ≡ endpoint_cache_ttl

pub load_entry-IsBacked :
    (log : List (ClientEndpoint × ℕ)) (c : EndpointCache) (key : Text) (now : ℕ)
    → IsBacked log c
    → IsBacked log (load_entry c key now).0
unfolding load_entry
load_entry-IsBacked log c key now b = elim (Option-cases (load key c.entries)) [
  | inl e ↦ rw e b
  | inr (entry, e) ↦ elim (Bool-cases (is_expired now c.ttl entry)) [
    | inl old ↦
        rw (e, old)
          (record {
            valid = subst IsValid (ground (arith, e, old)) (load_entry-IsValid c key now b.valid);
            backs = λ j w h. b.backs j w (load-delete-some key j c w h);
            size = b.size;
            ttl = b.ttl;
          })
    | inr young ↦ rw (e, young) b
  ]
]

pub delete_expired-IsBacked :
    (log : List (ClientEndpoint × ℕ)) (c : EndpointCache) (now : ℕ)
    → IsBacked log c
    → IsBacked log (delete_expired c now)
delete_expired-IsBacked log c now b = record {
  valid = delete_expired-IsValid c now b.valid;
  backs = λ j w h. b.backs j w (load-delete_expired c now j w b.valid.distinct h);
  size = (delete_expired-fields c now).0 ∙ b.size;
  ttl = (delete_expired-fields c now).1 ∙ b.ttl;
}

-- A store after a notification was accepted keeps the cache backed by the longer log.
pub accepted-IsBacked :
    (log : List (ClientEndpoint × ℕ)) (c : EndpointCache) (e : ClientEndpoint) (now : ℕ)
    → IsBacked log c
    → IsBacked
        ((e, now) ∷ log)
        (store_entry c (cache_key e) (record { state = cached_state e; cached_at = now }))
unfolding store_entry Accepted
accepted-IsBacked log c e now b = elim (Bool-cases (leb c.max_entries 0)) [
  | inl none_kept ↦ absurd (ground (arith, b.size))
  | inr some_kept ↦
      let entry : CachedEndpointEntry = record { state = cached_state e; cached_at = now } in
      let valid = store_entry-IsValid c (cache_key e) entry b.valid in
      record {
        valid = valid;
        backs = λ j w h. backed j w (rw some_kept at h);
        size = rw some_kept b.size;
        ttl = rw some_kept b.ttl;
      }
]
  where
    backed :
        (j : Text) (w : CachedEndpointEntry)
        → load j (
            store
              (cache_key e)
              (record { state = cached_state e; cached_at = now })
              (make_room c (cache_key e)))
          ≡ some w
        → Accepted j w.state w.cached_at ((e, now) ∷ log)
    backed j w h = elim (Bool-cases (text_beq (cache_key e) j)) [
      | inl same ↦ inl (
        (text_beq_iff (cache_key e) j).0 same,
        ground (
          arith,
          load-store (cache_key e) j (record { state = cached_state e; cached_at = now })
              (make_room c (cache_key e)),
        ),
        ground (
          arith,
          load-store (cache_key e) j (record { state = cached_state e; cached_at = now })
              (make_room c (cache_key e)),
        ),
      )
      | inr other ↦ inr (
          b.backs j w (
            make_room-some c (cache_key e) j w (
              ground (
                arith,
                load-store (cache_key e) j (record { state = cached_state e; cached_at = now })
                    (make_room c (cache_key e)),
              ))))
    ]
