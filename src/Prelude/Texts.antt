-- ===== src/Prelude/Texts.antt =====
-- Go's strings and byte slices: lists of bytes.
use Prim.Native.Nat.{ℕ}
use Prim.Native.Char.{code}
use Prim.Native.String.{String}
use mathlib.Core.Path.{◌≡◌, refl}
use mathlib.Core.Logic.{◌↔◌}
use mathlib.Core.Bool.{Bool, true, false, ◌&&◌}
use mathlib.Core.List.{List, [], ◌∷◌}
use native.Mathlib.Omega.{arith}
use gerbil.Prelude.Tests.{◌==◌, Eq}

abbrev pub Text : Type 0
Text = List ℕ

-- The code points of a text: its bytes, if it is ASCII.
abbrev pub codes : String → Text
codes String.[] = []
codes (String.◌∷◌ c s) = code c ∷ codes s

abbrev pub text_beq : Text → Text → Bool
text_beq [] [] = true
text_beq [] (y ∷ ys) = false
text_beq (x ∷ xs) [] = false
text_beq (x ∷ xs) (y ∷ ys) = (x == y) && text_beq xs ys

pub text_beq_iff : (a b : Text) → (text_beq a b ≡ true) ↔ (a ≡ b)
text_beq_iff [] [] = ((λ _. refl), (λ _. refl))
text_beq_iff [] (y ∷ ys) = ground arith
text_beq_iff (x ∷ xs) [] = ground arith
text_beq_iff (x ∷ xs) (y ∷ ys) = ground (arith, text_beq_iff xs ys)

instance abbrev pub text_eq : Eq Text
text_eq = record { beq = text_beq; beq_iff = text_beq_iff }
