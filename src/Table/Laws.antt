-- ===== src/Table/Laws.antt =====
-- How the map operations change the number of entries, and that they keep the keys distinct.
use gerbil.Prelude.{
  suc, ◌+◌, ◌≤◌, ◌≡◌, refl, Bool, none, some, [], ◌∷◌, arith, if◌then◌else◌, Eq, length,
}
use gerbil.Table.{Table, load, store, delete, delete_if, count_if, IsMap, load-store, load-delete}

module _ {ℓ κ} {K : Type ℓ} {V : Type κ} ⦃e : Eq K⦄ where
  pub store-IsMap : (k : K) (v : V) (t : Table K V) → IsMap t → IsMap (store k v t)
  unfolding load store
  store-IsMap k v [] m = ground arith
  store-IsMap k v ((i, w) ∷ t) m =
      ground (arith, e.beq_iff i k, e.beq_iff k i, load-store k i v t, store-IsMap k v t m.1)

  pub delete-IsMap : (k : K) (t : Table K V) → IsMap t → IsMap (delete k t)
  unfolding delete
  delete-IsMap k [] m = tt
  delete-IsMap k ((i, w) ∷ t) m = ground (arith, load-delete k i t, delete-IsMap k t m.1)

  load-delete_if-none :
      (p : K → V → Bool) (j : K) (t : Table K V) → load j t ≡ none → load j (delete_if p t) ≡ none
  unfolding load delete_if
  load-delete_if-none p j [] h = refl
  load-delete_if-none p j ((i, w) ∷ t) h = ground (arith, load-delete_if-none p j t)

  pub delete_if-IsMap : (p : K → V → Bool) (t : Table K V) → IsMap t → IsMap (delete_if p t)
  unfolding delete_if
  delete_if-IsMap p [] m = tt
  delete_if-IsMap p ((i, w) ∷ t) m =
      ground (arith, load-delete_if-none p i t m.0, delete_if-IsMap p t m.1)

  pub length-store_new :
      (k : K) (v : V) (t : Table K V) → load k t ≡ none → length (store k v t) ≡ suc (length t)
  unfolding load store
  length-store_new k v [] h = refl
  length-store_new k v ((i, w) ∷ t) h = ground (arith, length-store_new k v t)

  pub length-store_old :
      (k : K) (v w : V) (t : Table K V) → load k t ≡ some w → length (store k v t) ≡ length t
  unfolding load store
  length-store_old k v w [] h = ground arith
  length-store_old k v w ((i, u) ∷ t) h = ground (arith, length-store_old k v w t)

  delete_absent : (k : K) (t : Table K V) → load k t ≡ none → delete k t ≡ t
  unfolding load delete
  delete_absent k [] h = refl
  delete_absent k ((i, w) ∷ t) h = ground (arith, delete_absent k t)

  pub length-delete :
      (k : K) (w : V) (t : Table K V)
      → IsMap t
      → load k t ≡ some w
      → suc (length (delete k t)) ≡ length t
  unfolding load delete
  length-delete k w [] m h = ground arith
  length-delete k w ((i, u) ∷ t) m h =
      ground (arith, e.beq_iff i k, length-delete k w t m.1, delete_absent k t)

  pub length-delete_if :
      (p : K → V → Bool) (t : Table K V) → length (delete_if p t) + count_if p t ≡ length t
  unfolding delete_if count_if
  length-delete_if p [] = refl
  length-delete_if p ((i, w) ∷ t) = ground (arith, length-delete_if p t)

  count_if-le : (p : K → V → Bool) (t : Table K V) → count_if p t ≤ length t
  unfolding count_if
  count_if-le p [] = omega arith
  count_if-le p ((i, w) ∷ t) = ground (arith, count_if-le p t)

  pub count_if-delete :
      (p : K → V → Bool) (k : K) (w : V) (t : Table K V)
      → IsMap t
      → load k t ≡ some w
      → count_if p (delete k t) + (if p k w then 1 else 0) ≡ count_if p t
  unfolding load delete count_if
  count_if-delete p k w [] m h = ground arith
  count_if-delete p k w ((i, u) ∷ t) m h =
      ground (arith, e.beq_iff i k, count_if-delete p k w t m.1, delete_absent k t)

  pub count_if-store_new :
      (p : K → V → Bool) (k : K) (v : V) (t : Table K V)
      → load k t ≡ none
      → count_if p (store k v t) ≡ count_if p t + (if p k v then 1 else 0)
  unfolding load store count_if
  count_if-store_new p k v [] h = ground arith
  count_if-store_new p k v ((i, u) ∷ t) h = ground (arith, count_if-store_new p k v t)

  pub count_if-store_old :
      (p : K → V → Bool) (k : K) (v w : V) (t : Table K V)
      → load k t ≡ some w
      → count_if p (store k v t) + (if p k w then 1 else 0)
        ≡ count_if p t + (if p k v then 1 else 0)
  unfolding load store count_if
  count_if-store_old p k v w [] h = ground arith
  count_if-store_old p k v w ((i, u) ∷ t) h =
      ground (arith, e.beq_iff i k, count_if-store_old p k v w t)
