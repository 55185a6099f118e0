-- ===== src/Prelude/Int.antt =====
-- Go's signed integers (int, int64), without their wrap-around. `negsuc n` is -(n + 1).
use Prim.Native.Nat.{ℕ, suc, ◌+◌, ◌-◌, ◌≤◌}
use mathlib.Core.Path.{◌≡◌}
use mathlib.Core.Logic.{◌↔◌}
use mathlib.Core.Bool.{Bool, true, ◌&&◌}
use native.Mathlib.Omega.{arith}
use gerbil.Prelude.Tests.{leb, ◌==◌, if◌then◌else◌, Eq}

pub data ℤ : Type 0 where
  pos : ℕ → ℤ
  negsuc : ℕ → ℤ

abbrev pub pos_part : ℤ → ℕ
pos_part (pos n) = n
pos_part (negsuc n) = 0

abbrev pub neg_part : ℤ → ℕ
neg_part (pos n) = 0
neg_part (negsuc n) = suc n

abbrev pub sub_ℕ : ℕ → ℕ → ℤ
sub_ℕ a b = if leb b a then pos (a - b) else negsuc (b - a - 1)

infixl 65 ◌+ℤ◌ ◌-ℤ◌
unfoldable pub ◌+ℤ◌ : ℤ → ℤ → ℤ
a +ℤ b = sub_ℕ (pos_part a + pos_part b) (neg_part a + neg_part b)

unfoldable pub ◌-ℤ◌ : ℤ → ℤ → ℤ
a -ℤ b = sub_ℕ (pos_part a + neg_part b) (neg_part a + pos_part b)

infix 50 ◌≤ℤ◌
abbrev pub ◌≤ℤ◌ : ℤ → ℤ → Type 0
a ≤ℤ b = pos_part a + neg_part b ≤ pos_part b + neg_part a

abbrev pub lebℤ : ℤ → ℤ → Bool
lebℤ a b = leb (pos_part a + neg_part b) (pos_part b + neg_part a)

abbrev pub eqℤ : ℤ → ℤ → Bool
eqℤ a b = (pos_part a == pos_part b) && (neg_part a == neg_part b)

pub eqℤ_iff : (a b : ℤ) → (eqℤ a b ≡ true) ↔ (a ≡ b)
eqℤ_iff a b = ground arith

instance abbrev pub int_eq : Eq ℤ
int_eq = record { beq = eqℤ; beq_iff = eqℤ_iff }

pub pos-add-one : (n : ℕ) → pos n +ℤ pos 1 ≡ pos (suc n)
unfolding ◌+ℤ◌
pos-add-one n = ground arith

pub pos-sub : (m n : ℕ) → n ≤ m → pos m -ℤ pos n ≡ pos (m - n)
unfolding ◌-ℤ◌
pos-sub m n h = ground arith
