-- ===== src/Control/Router/Families.antt =====
-- The trie of one address family in main.go, and the addresses that `routerIPAllowed` admits.
use gerbil.Prelude.{
  ℕ, suc, ◌≤◌, ◌≡◌, refl, Bool, true, false, not, ◌&&◌, ◌||◌, List, [], ◌∷◌, arith, length,
  Bool-cases, inl, inr, ap, ◌∙◌, sym, All,
}
use gerbil.Control.Router.{
  Trie, Network, insert, router_cidr_covered, is_blocked, same_family, build, empty_root,
}
use gerbil.Control.Router.Cover.{
  holds, starts_with, height, holds-insert, height-insert, covered-holds, uncovered-free, or-false,
}

-- The loop of `routerIPAllowed`: a network that is not blocked holds the address.
unfoldable pub admits : Bool → List ℕ → ℕ → List Network → List Bool → Bool
admits v6 blocked index [] bits = false
admits v6 blocked index (n ∷ networks) bits =
    ((not (is_blocked index blocked) && same_family v6 n.is_v6) && starts_with n.prefix bits)
    || admits v6 blocked (suc index) networks bits

abbrev width : Bool → ℕ
width false = 32
width true = 128

-- No prefix is longer than the addresses of its family.
abbrev pub AreNetworks : List Network → Type 0
AreNetworks = All λ n. length n.prefix ≤ width n.is_v6

or_assoc : (a b c : Bool) → ((a || b) || c) ≡ (a || (b || c))
or_assoc true b c = refl
or_assoc false b c = refl

holds-build :
    (v6 : Bool) (blocked : List ℕ) (i : ℕ) (ns : List Network) (t : Trie) (bits : List Bool)
    → holds (build v6 blocked i ns t) bits ≡ (holds t bits || admits v6 blocked i ns bits)
unfolding build admits
holds-build v6 blocked i [] t bits = sym (or-false (holds t bits))
holds-build v6 blocked i (n ∷ ns) t bits =
    elim (Bool-cases (not (is_blocked i blocked) && same_family v6 n.is_v6)) [
      | inl taken ↦ rw taken (
          holds-build v6 blocked (suc i) ns (insert n.prefix i t) bits
          ∙ ap (λ b. b || admits v6 blocked (suc i) ns bits) (holds-insert n.prefix i t bits)
          ∙ or_assoc (holds t bits) (starts_with n.prefix bits) (admits v6 blocked (suc i) ns bits))
      | inr skipped ↦ rw skipped (holds-build v6 blocked (suc i) ns t bits)
    ]

family_width : (v6 b : Bool) → same_family v6 b ≡ true → width b ≡ width v6
family_width true true h = refl
family_width true false h = absurd (cc)
family_width false true h = absurd (cc)
family_width false false h = refl

height-build :
    (v6 : Bool) (blocked : List ℕ) (i : ℕ) (ns : List Network) (t : Trie)
    → AreNetworks ns
    → height t ≤ suc (width v6)
    → height (build v6 blocked i ns t) ≤ suc (width v6)
unfolding build
height-build v6 blocked i [] t a h = h
height-build v6 blocked i (n ∷ ns) t a h =
    elim (Bool-cases (not (is_blocked i blocked) && same_family v6 n.is_v6)) [
      | inl taken ↦
          let same : same_family v6 n.is_v6 ≡ true = ground (arith, taken) in
          rw taken (
            height-build v6 blocked (suc i) ns (insert n.prefix i t) a.1
              (height-insert n.prefix i t (width v6) (rw (family_width v6 n.is_v6 same) at a.0) h))
      | inr skipped ↦ rw skipped (height-build v6 blocked (suc i) ns t a.1 h)
    ]

-- The trie of one family.
abbrev pub root : Bool → List Network → List ℕ → Trie
root v6 ns blocked = build v6 blocked 0 ns empty_root

root-height :
    (v6 : Bool) (ns : List Network) (blocked : List ℕ)
    → AreNetworks ns
    → height (root v6 ns blocked) ≤ suc (width v6)
unfolding height
root-height v6 ns blocked a = height-build v6 blocked 0 ns empty_root a (omega arith)

-- A family is covered exactly if each of its addresses is admitted.
pub root-covered :
    (v6 : Bool) (ns : List Network) (blocked : List ℕ) (bits : List Bool)
    → AreNetworks ns
    → router_cidr_covered (root v6 ns blocked) ≡ true
    → length bits ≡ width v6
    → admits v6 blocked 0 ns bits ≡ true
unfolding holds
root-covered v6 ns blocked bits a c e =
    sym (holds-build v6 blocked 0 ns empty_root bits ∙ nothing bits)
    ∙ covered-holds (root v6 ns blocked) (width v6) bits (root-height v6 ns blocked a) e c
  where
    nothing :
        (bits : List Bool)
        → (holds empty_root bits || admits v6 blocked 0 ns bits) ≡ admits v6 blocked 0 ns bits
    nothing [] = refl
    nothing (true ∷ bits) = refl
    nothing (false ∷ bits) = refl

-- Some address of the family is in no network that is not blocked.
abbrev pub HasFree : Bool → List Network → List ℕ → Type 0
HasFree v6 ns blocked =
    (bits : List Bool) × (length bits ≡ width v6) × (admits v6 blocked 0 ns bits ≡ false)

pub root-free :
    (v6 : Bool) (ns : List Network) (blocked : List ℕ)
    → AreNetworks ns
    → router_cidr_covered (root v6 ns blocked) ≡ false
    → (bits : List Bool) × (length bits ≡ width v6) × (admits v6 blocked 0 ns bits ≡ false)
root-free v6 ns blocked a c =
    let (bits, e, out) =
      uncovered-free (root v6 ns blocked) (width v6) (root-height v6 ns blocked a) c in
    (bits, e, ground (arith, holds-build v6 blocked 0 ns empty_root bits))
