-- ===== src/Control/Router/Marks.antt =====
-- Marking a covered trie of main.go blocks a network that was not blocked, so that the rounds end.
use gerbil.Prelude.{
  ℕ, suc, ◌+◌, ◌≤◌, ◌<◌, ◌≡◌, refl, Bool, true, false, not, ◌&&◌, ◌||◌, List, [], ◌∷◌, ◌++◌, arith,
  if◌then◌else◌, ◌==◌, ==_iff, length, Bool-cases, inl, inr,
}
use gerbil.Control.Router.{
  Trie, Network, insert, router_cidr_covered, mark_router_cidr_cover, is_blocked, same_family,
  build,
}

unfoldable pub has_index : ℕ → Trie → Bool
has_index j Trie.missing = false
has_index j (Trie.node l r indexes) = is_blocked j indexes || (has_index j l || has_index j r)

is_blocked-append :
    (j : ℕ) (xs ys : List ℕ) → is_blocked j (xs ++ ys) ≡ (is_blocked j xs || is_blocked j ys)
unfolding is_blocked
is_blocked-append j [] ys = refl
is_blocked-append j (x ∷ xs) ys = ground (arith, is_blocked-append j xs ys)

has_index-insert :
    (p : List Bool) (i j : ℕ) (t : Trie)
    → has_index j (insert p i t) ≡ true
    → (i == j || has_index j t) ≡ true
unfolding has_index insert is_blocked
has_index-insert [] i j Trie.missing h = ground arith
has_index-insert [] i j (Trie.node l r is) h = ground (arith, is_blocked-append j is (i ∷ []))
has_index-insert (true ∷ p) i j Trie.missing h =
    ground (arith, has_index-insert p i j Trie.missing (ground arith))
has_index-insert (false ∷ p) i j Trie.missing h =
    ground (arith, has_index-insert p i j Trie.missing (ground arith))
has_index-insert (true ∷ p) i j (Trie.node l r is) h = ground (arith, has_index-insert p i j r)
has_index-insert (false ∷ p) i j (Trie.node l r is) h = ground (arith, has_index-insert p i j l)

-- The indexes of a built trie: those of its networks, none of them blocked, and those before.
pub has_index-build :
    (v6 : Bool) (blocked : List ℕ) (i j : ℕ) (ns : List Network) (t : Trie)
    → has_index j (build v6 blocked i ns t) ≡ true
    → (has_index j t ≡ false)
    → (is_blocked j blocked ≡ false) × (i ≤ j) × (j < i + length ns)
unfolding build
has_index-build v6 blocked i j [] t h k = absurd (cc)
has_index-build v6 blocked i j (n ∷ ns) t h k =
    elim (Bool-cases (not (is_blocked i blocked) && same_family v6 n.is_v6)) [
      | inr skipped ↦
          let (b, lo, hi) = has_index-build v6 blocked (suc i) j ns t (rw skipped at h) k in
          (b, omega (arith, lo), omega (arith, hi))
      | inl taken ↦ elim (Bool-cases (has_index j (insert n.prefix i t))) [
        | inl here ↦
            let own = has_index-insert n.prefix i j t here in
            let same : i ≡ j = ground (arith, ==_iff i j) in
            let unblocked : is_blocked i blocked ≡ false = ground (arith, taken) in
            (rw same at unblocked, omega (arith, same), omega (arith, same))
        | inr later ↦
            let (b, lo, hi) =
              has_index-build v6 blocked (suc i) j ns (insert n.prefix i t) (rw taken at h) later in
            (b, omega (arith, lo), omega (arith, hi))
      ]
    ]

-- What is blocked stays blocked.
pub mark-stays :
    (t : Trie) (blocked : List ℕ) (j : ℕ)
    → is_blocked j blocked ≡ true
    → is_blocked j (mark_router_cidr_cover t blocked) ≡ true
unfolding mark_router_cidr_cover
mark-stays Trie.missing blocked j h = h
mark-stays (Trie.node l r []) blocked j h =
    mark-stays r (mark_router_cidr_cover l blocked) j (mark-stays l blocked j h)
mark-stays (Trie.node l r (i ∷ is)) blocked j h =
    ground (arith, is_blocked-append j (i ∷ is) blocked)

-- A covered trie has an index, and marking blocks it.
pub mark-blocks :
    (t : Trie) (blocked : List ℕ)
    → router_cidr_covered t ≡ true
    → (j : ℕ) × (has_index j t ≡ true) × (is_blocked j (mark_router_cidr_cover t blocked) ≡ true)
unfolding router_cidr_covered mark_router_cidr_cover has_index is_blocked
mark-blocks Trie.missing blocked c = absurd (cc)
mark-blocks (Trie.node l r []) blocked c =
    let (j, has, marked) = mark-blocks l blocked (ground arith) in
    (j, ground arith, mark-stays r (mark_router_cidr_cover l blocked) j marked)
mark-blocks (Trie.node l r (i ∷ is)) blocked c =
    (i, ground (arith, ==_iff i i), ground (arith, ==_iff i i))

-- How many networks are not blocked.
unfoldable pub free : ℕ → List Network → List ℕ → ℕ
unfolding is_blocked
free i [] blocked = 0
free i (n ∷ ns) blocked = (if is_blocked i blocked then 0 else 1) + free (suc i) ns blocked

abbrev pub Includes : List ℕ → List ℕ → Type 0
Includes blocked blocked' = (j : ℕ) → is_blocked j blocked ≡ true → is_blocked j blocked' ≡ true

free-le : (i : ℕ) (ns : List Network) (b b' : List ℕ) → Includes b b' → free i ns b' ≤ free i ns b
unfolding free
free-le i [] b b' h = omega arith
free-le i (n ∷ ns) b b' h = ground (arith, h i, free-le (suc i) ns b b' h)

pub free-lt :
    (i : ℕ) (ns : List Network) (b b' : List ℕ) (j : ℕ)
    → Includes b b'
    → is_blocked j b ≡ false
    → is_blocked j b' ≡ true
    → i ≤ j
    → j < i + length ns
    → free i ns b' < free i ns b
unfolding free
free-lt i [] b b' j h not_yet now lo hi = absurd (omega (arith, lo, hi))
free-lt i (n ∷ ns) b b' j h not_yet now lo hi = elim (Bool-cases (i == j)) [
  | inl same ↦
      let e : i ≡ j = (==_iff i j).0 same in
      rw (e, not_yet, now) (omega (arith, free-le (suc j) ns b b' h))
  | inr other ↦ ground (
    arith,
    h i,
    free-lt (suc i) ns b b' j h not_yet now (ground (arith, ==_iff i j)) (omega (arith, hi)),
  )
]
