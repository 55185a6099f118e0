-- ===== src/Table.antt =====
-- Go's maps and `sync.Map`s (relay/relay.go, proxy/proxy.go): association lists. The order of
-- the list stands for the unspecified order in which `Range` visits the entries.
pub mod Laws
use gerbil.Prelude.{
  ℕ, suc, ◌≡◌, refl, Bool, Option, none, some, List, [], ◌∷◌, arith, if◌then◌else◌, Eq,
}

abbrev pub Table {ℓ κ} : Type ℓ → Type κ → Type (ℓ ⊔ κ)
Table K V = List (K × V)

-- What a removal of the entries that pass a test leaves under a key.
abbrev pub unless {ℓ} : {V : Type ℓ} → (V → Bool) → Option V → Option V
unless test none = none
unless test (some v) = if test v then none else some v

module _ {ℓ κ} {K : Type ℓ} {V : Type κ} ⦃e : Eq K⦄ where
  unfoldable pub load : K → Table K V → Option V
  load k [] = none
  load k ((j, v) ∷ t) = if e.beq j k then some v else load k t

  -- A store replaces the value under the key, or adds an entry.
  unfoldable pub store : K → V → Table K V → Table K V
  store k v [] = (k, v) ∷ []
  store k v ((j, w) ∷ t) = if e.beq j k then (j, v) ∷ t else (j, w) ∷ store k v t

  unfoldable pub delete : K → Table K V → Table K V
  delete k [] = []
  delete k ((j, w) ∷ t) = if e.beq j k then delete k t else (j, w) ∷ delete k t

  -- `Range` with a callback that deletes the entries that pass a test.
  unfoldable pub delete_if : (K → V → Bool) → Table K V → Table K V
  delete_if p [] = []
  delete_if p ((j, w) ∷ t) = if p j w then delete_if p t else (j, w) ∷ delete_if p t

  -- How many entries pass the test.
  unfoldable pub count_if : (K → V → Bool) → Table K V → ℕ
  count_if p [] = 0
  count_if p ((j, w) ∷ t) = if p j w then suc (count_if p t) else count_if p t

  -- No key stands twice.
  abbrev pub IsMap : Table K V → Type κ
  IsMap [] = Unit
  IsMap ((k, v) ∷ t) = (load k t ≡ none) × IsMap t

  pub load-store :
      (k j : K) (v : V) (t : Table K V)
      → load j (store k v t) ≡ (if e.beq k j then some v else load j t)
  unfolding load store
  load-store k j v [] = refl
  load-store k j v ((i, w) ∷ t) =
      ground (arith, e.beq_iff k j, e.beq_iff i k, e.beq_iff i j, load-store k j v t)

  pub load-delete :
      (k j : K) (t : Table K V) → load j (delete k t) ≡ (if e.beq k j then none else load j t)
  unfolding load delete
  load-delete k j [] = ground arith
  load-delete k j ((i, w) ∷ t) =
      ground (arith, e.beq_iff k j, e.beq_iff i k, e.beq_iff i j, load-delete k j t)

  pub load-delete_if :
      (p : K → V → Bool) (j : K) (t : Table K V)
      → IsMap t
      → load j (delete_if p t) ≡ unless (p j) (load j t)
  unfolding load delete_if
  load-delete_if p j [] m = refl
  load-delete_if p j ((i, w) ∷ t) m = ground (arith, e.beq_iff i j, load-delete_if p j t m.1)
