-- ===== src/Prelude/Decimal.antt =====
-- Decimal text: strconv.Itoa and strconv.Atoi of the standard library, as main.go, proxy/proxy.go
-- and relay/relay.go use them (also through the `%d` of fmt).
use gerbil.Prelude.Tests.{ltb, leb, ◌==◌, if◌then◌else◌, Bool-cases, ltb→lt, le→leb}
use gerbil.Prelude.Int.{ℤ, pos, negsuc, ◌-ℤ◌}
use gerbil.Prelude.Texts.{Text}
use gerbil.Prelude.Lists.{All}
use Prim.Native.Nat.{ℕ, zero, suc, ◌+◌, ◌-◌, ◌*◌, ◌/◌, ◌%◌, ◌^◌, ◌≤◌, ◌<◌}
use mathlib.Core.Path.{◌≡◌, refl, ◌∙◌}
use mathlib.Core.Bool.{Bool, ◌&&◌}
use mathlib.Core.List.{[], ◌∷◌}
use mathlib.Core.Logic.{◌≢◌, inl, inr}
use mathlib.Core.Option.{Option, none, some}
use native.Mathlib.Omega.{arith}

-- The fuel bounds the number of digits; `itoa_ℕ` gives one more than the number itself.
unfoldable pub digits : ℕ → ℕ → Text → Text
digits zero n acc = acc
digits (suc f) n acc =
    let rest = digits f (n / 10) ((b'0' + n % 10) ∷ acc) in
    if ltb n 10 then (b'0' + n) ∷ acc else rest

unfoldable pub itoa_ℕ : ℕ → Text
unfolding digits
itoa_ℕ n = digits (suc n) n []

unfoldable pub itoa : ℤ → Text
unfolding itoa_ℕ
itoa (pos n) = itoa_ℕ n
itoa (negsuc n) = b'-' ∷ itoa_ℕ (suc n)

abbrev pub is_digit : ℕ → Bool
is_digit c = leb b'0' c && leb c b'9'

unfoldable pub read_digits : Text → ℕ → Option ℕ
read_digits [] acc = some acc
read_digits (c ∷ s) acc =
    let rest = read_digits s (10 * acc + (c - b'0')) in if is_digit c then rest else none

-- A sign may stand in front; the empty text and a value out of the range of int64 are errors.
read_unsigned : Text → Option ℕ
unfolding read_digits
read_unsigned [] = none
read_unsigned (c ∷ s) = read_digits (c ∷ s) 0

in_range : ℕ → (ℕ → ℤ) → Option ℕ → Option ℤ
in_range top signed none = none
in_range top signed (some n) = if leb n top then some (signed n) else none

unfoldable pub atoi : Text → Option ℤ
unfolding in_range read_unsigned
atoi [] = none
atoi (c ∷ s) =
    if c == b'-'
    then in_range (2 ^ 63) (λ n. pos 0 -ℤ pos n) (read_unsigned s)
    else if c == b'+'
    then in_range (2 ^ 63 - 1) pos (read_unsigned s)
    else in_range (2 ^ 63 - 1) pos (read_unsigned (c ∷ s))

-- Every byte is a decimal digit.
abbrev pub Digits : Text → Type 0
Digits = All λ c. (b'0' ≤ c) × (c ≤ b'9')

digits-Digits : (f n : ℕ) (acc : Text) → Digits acc → Digits (digits f n acc)
unfolding digits
digits-Digits zero n acc h = h
digits-Digits (suc f) n acc h = elim (Bool-cases (ltb n 10)) [
  | inl small ↦ rw small ((omega arith, omega (arith, ltb→lt n 10 small)), h)
  | inr large ↦ rw large (digits-Digits f (n / 10) _ ((omega arith, omega arith), h))
]

pub itoa_ℕ-Digits : (n : ℕ) → Digits (itoa_ℕ n)
unfolding itoa_ℕ
itoa_ℕ-Digits n = digits-Digits (suc n) n [] tt

read_one : (n : ℕ) (acc : Text) → n < 10 → read_digits ((b'0' + n) ∷ acc) 0 ≡ read_digits acc n
unfolding read_digits
read_one n acc h =
    let e : 10 * 0 + (b'0' + n - b'0') ≡ n = omega arith in
    rw (le→leb b'0' (b'0' + n) (omega arith), le→leb (b'0' + n) b'9' (omega arith), e) refl

read_next : (n : ℕ) (acc : Text) → read_digits ((b'0' + n % 10) ∷ acc) (n / 10) ≡ read_digits acc n
unfolding read_digits
read_next n acc =
    let e : 10 * (n / 10) + (b'0' + n % 10 - b'0') ≡ n = omega arith in
    rw (le→leb b'0' (b'0' + n % 10) (omega arith), le→leb (b'0' + n % 10) b'9' (omega arith), e)
      refl

-- Reading what `digits` writes goes on with the number and the rest.
read-digits : (f n : ℕ) (acc : Text) → n < f → read_digits (digits f n acc) 0 ≡ read_digits acc n
unfolding digits
read-digits zero n acc h = absurd (omega arith)
read-digits (suc f) n acc h = elim (Bool-cases (ltb n 10)) [
  | inl small ↦ rw small (read_one n acc (ltb→lt n 10 small))
  | inr large ↦ rw large (read-digits f (n / 10) _ (ground arith) ∙ read_next n acc)
]

pub read-itoa : (n : ℕ) → read_digits (itoa_ℕ n) 0 ≡ some n
unfolding itoa_ℕ read_digits
read-itoa n = read-digits (suc n) n [] (omega arith)

-- `itoa_ℕ` is never empty, and starts with a digit.
itoa_ℕ-head :
    (s : Text) (n : ℕ)
    → Digits s
    → read_digits s 0 ≡ some n
    → s ≢ []
    → atoi s ≡ in_range (2 ^ 63 - 1) pos (some n)
unfolding atoi
itoa_ℕ-head [] n d r e = absurd (e refl)
itoa_ℕ-head (c ∷ s) n d r e = ground arith

digits-ne : (f n : ℕ) (c : ℕ) (acc : Text) → digits f n (c ∷ acc) ≢ []
unfolding digits
digits-ne zero n c acc = ground arith
digits-ne (suc f) n c acc = ground (arith, digits-ne f (n / 10) (b'0' + n % 10) (c ∷ acc))

pub itoa_ℕ-ne : (n : ℕ) → itoa_ℕ n ≢ []
unfolding itoa_ℕ digits
itoa_ℕ-ne n = ground (arith, digits-ne n (n / 10) (b'0' + n % 10) [])

-- Printing and reading back a number that an int64 holds.
pub atoi-itoa_ℕ : (n : ℕ) → n < 2 ^ 63 → atoi (itoa_ℕ n) ≡ some (pos n)
unfolding in_range
atoi-itoa_ℕ n h =
    itoa_ℕ-head (itoa_ℕ n) n (itoa_ℕ-Digits n) (read-itoa n) (itoa_ℕ-ne n) ∙ ground arith

-- Two numbers that print alike are equal.
pub itoa_ℕ-injective : (m n : ℕ) → itoa_ℕ m ≡ itoa_ℕ n → m ≡ n
itoa_ℕ-injective m n h = cc (read-itoa m, read-itoa n)
