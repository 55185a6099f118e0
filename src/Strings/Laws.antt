-- ===== src/Strings/Laws.antt =====
-- Laws of the text functions that main.go uses.
use gerbil.Prelude.{
  ℕ, ◌≡◌, refl, true, false, [], ◌∷◌, ◌++◌, arith, ◌==◌, Text, Bool-cases, Option-cases, inl, inr,
  some, ==_iff,
}
use gerbil.Strings.{starts_with, contains, cut, has_byte}

starts_with-append : (p q s : Text) → starts_with (p ++ q) s ≡ true → starts_with p s ≡ true
unfolding starts_with
starts_with-append [] q s h = refl
starts_with-append (c ∷ p) q [] h = absurd (cc)
starts_with-append (c ∷ p) q (d ∷ s) h = ground (arith, starts_with-append p q s)

-- What holds a text holds its beginnings.
pub contains-append : (s p q : Text) → contains s (p ++ q) ≡ true → contains s p ≡ true
unfolding contains
contains-append [] p q h = starts_with-append p q [] h
contains-append (c ∷ s) p q h =
    ground (arith, starts_with-append p q (c ∷ s), contains-append s p q)

-- A text is cut at the first byte `c`.
pub cut-append :
    (c : ℕ) (s t : Text) → has_byte c s ≡ false → cut (s ++ c ∷ t) (c ∷ []) ≡ some (s, t)
unfolding cut has_byte starts_with
cut-append c [] t h = ground (arith, ==_iff c c)
cut-append c (d ∷ s) t h = ground (arith, cut-append c s t, ==_iff c d, ==_iff d c)

pub cut-some :
    (c : ℕ) (s a b : Text)
    → cut s (c ∷ []) ≡ some (a, b)
    → (s ≡ a ++ c ∷ b) × (has_byte c a ≡ false)
unfolding cut has_byte starts_with
cut-some c [] a b h = absurd (cc)
cut-some c (d ∷ s) a b h = elim (Bool-cases (c == d)) [
  | inl here ↦
      let e : c ≡ d = (==_iff c d).0 here in
      let pair : some ([], s) ≡ some (a, b) = rw here at h in
      let first : [] ≡ a = cc in let second : s ≡ b = cc in rw (← first, ← second, e) (refl, refl)
  | inr later ↦ elim (Option-cases (cut s (c ∷ []))) [
    | inl missing ↦ absurd (ground (arith, later, missing))
    | inr ((a', b'), found) ↦
        let (e, free) = cut-some c s a' b' found in
        ground (arith, later, found, e, free, ==_iff c d, ==_iff d c)
  ]
]
