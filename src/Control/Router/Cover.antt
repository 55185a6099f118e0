-- ===== src/Control/Router/Cover.antt =====
-- The trie of main.go is covered exactly if its networks leave no address free.
use gerbil.Prelude.{
  ℕ, suc, zero, ◌≤◌, ◌≡◌, inl, inr, refl, Bool, true, false, not, ◌&&◌, ◌||◌, List, [], ◌∷◌, arith,
  length, max, sym, Bool-cases, ap,
}
use gerbil.Control.Router.{Trie, insert, router_cidr_covered}

-- Whether a network of the trie holds the address.
unfoldable pub holds : Trie → List Bool → Bool
holds Trie.missing bits = false
holds (Trie.node l r (i ∷ indexes)) bits = true
holds (Trie.node l r []) [] = false
holds (Trie.node l r []) (true ∷ bits) = holds r bits
holds (Trie.node l r []) (false ∷ bits) = holds l bits

unfoldable pub starts_with : List Bool → List Bool → Bool
starts_with [] bits = true
starts_with (p ∷ prefix) [] = false
starts_with (true ∷ prefix) (b ∷ bits) = b && starts_with prefix bits
starts_with (false ∷ prefix) (b ∷ bits) = not b && starts_with prefix bits

unfoldable pub height : Trie → ℕ
height Trie.missing = 0
height (Trie.node l r indexes) = suc (max (height l) (height r))

or-true : (b : Bool) → (b || true) ≡ true
or-true true = refl
or-true false = refl

pub or-false : (b : Bool) → (b || false) ≡ b
or-false true = refl
or-false false = refl

pub holds-insert :
    (prefix : List Bool) (index : ℕ) (t : Trie) (bits : List Bool)
    → holds (insert prefix index t) bits ≡ (holds t bits || starts_with prefix bits)
unfolding holds insert starts_with
holds-insert [] index Trie.missing bits = refl
holds-insert [] index (Trie.node l r []) bits = sym (or-true (holds (Trie.node l r []) bits))
holds-insert [] index (Trie.node l r (i ∷ is)) bits = refl
holds-insert (true ∷ p) index Trie.missing [] = refl
holds-insert (true ∷ p) index Trie.missing (true ∷ bits) = holds-insert p index Trie.missing bits
holds-insert (true ∷ p) index Trie.missing (false ∷ bits) = refl
holds-insert (false ∷ p) index Trie.missing [] = refl
holds-insert (false ∷ p) index Trie.missing (true ∷ bits) = refl
holds-insert (false ∷ p) index Trie.missing (false ∷ bits) = holds-insert p index Trie.missing bits
holds-insert (true ∷ p) index (Trie.node l r (i ∷ is)) bits = refl
holds-insert (false ∷ p) index (Trie.node l r (i ∷ is)) bits = refl
holds-insert (true ∷ p) index (Trie.node l r []) [] = refl
holds-insert (false ∷ p) index (Trie.node l r []) [] = refl
holds-insert (true ∷ p) index (Trie.node l r []) (true ∷ bits) = holds-insert p index r bits
holds-insert (true ∷ p) index (Trie.node l r []) (false ∷ bits) = sym (or-false (holds l bits))
holds-insert (false ∷ p) index (Trie.node l r []) (true ∷ bits) = sym (or-false (holds r bits))
holds-insert (false ∷ p) index (Trie.node l r []) (false ∷ bits) = holds-insert p index l bits

pub height-insert :
    (prefix : List Bool) (index : ℕ) (t : Trie) (w : ℕ)
    → length prefix ≤ w
    → height t ≤ suc w
    → height (insert prefix index t) ≤ suc w
unfolding insert height
height-insert [] index Trie.missing w h k = omega arith
height-insert [] index (Trie.node l r is) w h k = omega (arith, k)
height-insert (b ∷ p) index Trie.missing zero h k = absurd (omega (arith, h))
height-insert (true ∷ p) index Trie.missing (suc w) h k =
    omega (arith, height-insert p index Trie.missing w (omega (arith, h)) (omega arith))
height-insert (false ∷ p) index Trie.missing (suc w) h k =
    omega (arith, height-insert p index Trie.missing w (omega (arith, h)) (omega arith))
height-insert (b ∷ p) index (Trie.node l r is) zero h k = absurd (omega (arith, h))
height-insert (true ∷ p) index (Trie.node l r is) (suc w) h k =
    omega (arith, k, height-insert p index r w (omega (arith, h)) (omega (arith, k)))
height-insert (false ∷ p) index (Trie.node l r is) (suc w) h k =
    omega (arith, k, height-insert p index l w (omega (arith, h)) (omega (arith, k)))

-- A covered trie holds every address of its width.
pub covered-holds :
    (t : Trie) (w : ℕ) (bits : List Bool)
    → height t ≤ suc w
    → length bits ≡ w
    → router_cidr_covered t ≡ true
    → holds t bits ≡ true
unfolding router_cidr_covered holds height
covered-holds Trie.missing w bits h e c = absurd (cc)
covered-holds (Trie.node l r (i ∷ is)) w bits h e c = refl
covered-holds (Trie.node Trie.missing r []) w [] h e c = absurd (cc)
covered-holds (Trie.node (Trie.node a b is) r []) zero [] h e c = absurd (omega (arith, h))
covered-holds (Trie.node (Trie.node a b is) r []) (suc w) [] h e c = absurd (omega (arith, e))
covered-holds (Trie.node l r []) zero (b ∷ bits) h e c = absurd (omega (arith, e))
covered-holds (Trie.node l r []) (suc w) (true ∷ bits) h e c =
    covered-holds r w bits (omega (arith, h)) (omega (arith, e)) (ground arith)
covered-holds (Trie.node l r []) (suc w) (false ∷ bits) h e c =
    covered-holds l w bits (omega (arith, h)) (omega (arith, e)) (ground arith)

zeros : (w : ℕ) → (bits : List Bool) × (length bits ≡ w)
zeros zero = ([], refl)
zeros (suc w) = let (bits, e) = zeros w in (false ∷ bits, ap suc e)

-- A trie that is not covered leaves an address free.
pub uncovered-free :
    (t : Trie) (w : ℕ)
    → height t ≤ suc w
    → router_cidr_covered t ≡ false
    → (bits : List Bool) × (length bits ≡ w) × (holds t bits ≡ false)
unfolding router_cidr_covered holds height
uncovered-free Trie.missing w h c = let (bits, e) = zeros w in (bits, e, refl)
uncovered-free (Trie.node l r (i ∷ is)) w h c = absurd (cc)
uncovered-free (Trie.node l r []) zero h c = ([], refl, refl)
uncovered-free (Trie.node l r []) (suc w) h c = elim (Bool-cases (router_cidr_covered l)) [
  | inl left ↦
      let (bits, e, free) = uncovered-free r w (omega (arith, h)) (ground arith) in
      (true ∷ bits, ap suc e, free)
  | inr left ↦
      let (bits, e, free) = uncovered-free l w (omega (arith, h)) left in
      (false ∷ bits, ap suc e, free)
]
