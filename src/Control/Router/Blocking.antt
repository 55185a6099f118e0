-- ===== src/Control/Router/Blocking.antt =====
-- `unrestrictedRouterNetworks` of main.go: the networks that it leaves never cover a whole address
-- family, and the rounds that it makes suffice.
use gerbil.Prelude.{
  ℕ, suc, zero, ◌+◌, ◌≤◌, ◌<◌, ◌≡◌, refl, Bool, true, false, List, [], ◌∷◌, arith, ◌↔◌, length,
  Bool-cases, inl, inr, subst,
}
use gerbil.Control.Router.{
  Trie, Network, router_cidr_covered, is_blocked, empty_root, mark_if_covered, round, rounds,
  unrestricted_router_networks,
}
use gerbil.Control.Router.Marks.{
  has_index, has_index-build, mark-stays, mark-blocks, free, free-lt, Includes,
}
use gerbil.Control.Router.Families.{AreNetworks, HasFree, root, root-covered, root-free}

mark_if_covered-stays : (t : Trie) (b : List ℕ) → Includes b (mark_if_covered t b)
unfolding mark_if_covered
mark_if_covered-stays t b j h = elim (Bool-cases (router_cidr_covered t)) [
  | inl c ↦ rw c (mark-stays t b j h)
  | inr c ↦ rw c h
]

root-index :
    (v6 : Bool) (ns : List Network) (blocked : List ℕ) (j : ℕ)
    → has_index j (root v6 ns blocked) ≡ true
    → (is_blocked j blocked ≡ false) × (0 ≤ j) × (j < 0 + length ns)
unfolding has_index is_blocked
root-index v6 ns blocked j h = has_index-build v6 blocked 0 j ns empty_root h refl

-- A round that goes on leaves fewer networks unblocked.
round-shrinks :
    (ns : List Network) (b : List ℕ)
    → (round ns b).1 ≡ true
    → free 0 ns (round ns b).0 < free 0 ns b
unfolding round mark_if_covered
round-shrinks ns b h = elim (Bool-cases (router_cidr_covered (root false ns b))) [
  | inl c ↦
      let (j, has, marked) = mark-blocks (root false ns b) b c in
      let (unblocked, lo, hi) = root-index false ns b j has in
      free-lt 0 ns b (round ns b).0 j (round-stays) unblocked
        (mark_if_covered-stays (root true ns b) (mark_if_covered (root false ns b) b) j
          (rw c marked))
        lo hi
  | inr c ↦
      let c' : router_cidr_covered (root true ns b) ≡ true = ground arith in
      let (j, has, marked) = mark-blocks (root true ns b) b c' in
      let (unblocked, lo, hi) = root-index true ns b j has in
      free-lt 0 ns b (round ns b).0 j (round-stays) unblocked (rw (c', c) marked) lo hi
]
  where
    round-stays : Includes b (round ns b).0
    round-stays j k =
        mark_if_covered-stays (root true ns b) (mark_if_covered (root false ns b) b) j
          (mark_if_covered-stays (root false ns b) b j k)

-- Nothing is covered any more.
abbrev IsSettled : List Network → List ℕ → Type 0
IsSettled ns b = (v6 : Bool) → router_cidr_covered (root v6 ns b) ≡ false

round-IsSettled :
    (ns : List Network) (b : List ℕ) → (round ns b).1 ≡ false → IsSettled ns (round ns b).0
unfolding round mark_if_covered
round-IsSettled ns b h =
    let v4 : router_cidr_covered (root false ns b) ≡ false = ground arith in
    let v6 : router_cidr_covered (root true ns b) ≡ false = ground arith in
    rw (v4, v6) (λ f. settled f v4 v6)
  where
    settled :
        (f : Bool)
        → router_cidr_covered (root false ns b) ≡ false
        → router_cidr_covered (root true ns b) ≡ false
        → router_cidr_covered (root f ns b) ≡ false
    settled true v4 v6 = v6
    settled false v4 v6 = v4

rounds-IsSettled :
    (fuel : ℕ) (ns : List Network) (b : List ℕ)
    → free 0 ns b < fuel
    → IsSettled ns (rounds fuel ns b)
unfolding rounds
rounds-IsSettled zero ns b h = absurd (omega (arith, h))
rounds-IsSettled (suc fuel) ns b h = elim (Bool-cases (round ns b).1) [
  | inl changed ↦
      rw changed
        (rounds-IsSettled fuel ns (round ns b).0 (omega (arith, h, round-shrinks ns b changed)))
  | inr same ↦ rw same (round-IsSettled ns b same)
]

free-length : (i : ℕ) (ns : List Network) (b : List ℕ) → free i ns b ≤ length ns
unfolding free
free-length i [] b = omega arith
free-length i (n ∷ ns) b = ground (arith, free-length (suc i) ns b)

settled-free :
    (v6 : Bool) (ns : List Network)
    → AreNetworks ns
    → HasFree v6 ns (unrestricted_router_networks ns)
unfolding unrestricted_router_networks
settled-free v6 ns a =
    root-free v6 ns _ a
      (rounds-IsSettled (suc (length ns)) ns [] (omega (arith, free-length 0 ns [])) v6)

free-uncovered :
    (v6 : Bool) (ns : List Network)
    → AreNetworks ns
    → HasFree v6 ns []
    → router_cidr_covered (root v6 ns []) ≡ false
free-uncovered v6 ns a (bits, e, out) = elim (Bool-cases (router_cidr_covered (root v6 ns []))) [
  | inl c ↦ let all = root-covered v6 ns [] bits a c e in absurd (cc)
  | inr c ↦ c
]

uncovered-unblocked :
    (ns : List Network)
    → router_cidr_covered (root false ns []) ≡ false
    → router_cidr_covered (root true ns []) ≡ false
    → unrestricted_router_networks ns ≡ []
unfolding unrestricted_router_networks rounds round mark_if_covered
uncovered-unblocked ns v4 v6 = rw (v4, v6) refl

-- If no prefix is longer than the addresses of its family, then some IPv4 address and some IPv6
-- address is in none of the networks that unrestrictedRouterNetworks leaves unblocked, so that
-- together they never grant a whole family; and it blocks nothing exactly if the given networks
-- leave an address of either family free.
pub unrestricted_router_networks_lem :
    (ns : List Network)
    → AreNetworks ns
    → HasFree false ns (unrestricted_router_networks ns)
      × HasFree true ns (unrestricted_router_networks ns)
      × ((unrestricted_router_networks ns ≡ []) ↔ (HasFree false ns [] × HasFree true ns []))
unrestricted_router_networks_lem ns a =
    let v4 = settled-free false ns a in
    let v6 = settled-free true ns a in
    (
      v4,
      v6,
      (
        (λ e. (subst (HasFree false ns) e v4, subst (HasFree true ns) e v6)),
        (λ (f4, f6).
            uncovered-unblocked ns (free-uncovered false ns a f4) (free-uncovered true ns a f6)),
      ),
    )
