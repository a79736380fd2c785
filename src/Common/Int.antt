-- ===== src/Common/Int.antt =====
-- Signed integers over the native numbers, under the library's names (its ℤ stands on the unary ℕ).
-- Sums and orders go through the two parts of an integer, which are numbers that `omega` reads.
use Prim.Native.Nat.{ℕ, suc, ◌+◌, ◌-◌, ◌*◌, ◌/◌, ◌%◌, ◌^◌, ◌≤◌, ◌<◌}
use mathlib.Core.Path.{◌≡◌}
use mathlib.Core.Bool.{Bool, true, false, not}
use native.Mathlib.Omega.{arith}
use gproc.Common.Tests.{ltb, leb, ◌==◌, if◌then◌else◌}

-- `negsuc n` is -(n + 1).
pub data ℤ : Type 0 where
  pos : ℕ → ℤ
  negsuc : ℕ → ℤ

abbrev pub pos_part : ℤ → ℕ
pos_part (pos n) = n
pos_part (negsuc n) = 0

abbrev pub neg_part : ℤ → ℕ
neg_part (pos n) = 0
neg_part (negsuc n) = suc n

-- a - b, as an integer.
abbrev pub sub_ℕ : ℕ → ℕ → ℤ
sub_ℕ a b = if leb b a then pos (a - b) else negsuc (b - a - 1)

infixl 65 ◌+ℤ◌ ◌-ℤ◌
infixl 70 ◌*ℤ◌
infix 50 ◌≤ℤ◌
unfoldable pub ◌+ℤ◌ : ℤ → ℤ → ℤ
a +ℤ b = sub_ℕ (pos_part a + pos_part b) (neg_part a + neg_part b)

unfoldable pub ◌-ℤ◌ : ℤ → ℤ → ℤ
a -ℤ b = sub_ℕ (pos_part a + neg_part b) (neg_part a + pos_part b)

unfoldable pub ◌*ℤ◌ : ℤ → ℤ → ℤ
a *ℤ b =
    sub_ℕ (pos_part a * pos_part b + neg_part a * neg_part b)
      (pos_part a * neg_part b + neg_part a * pos_part b)

abbrev pub ◌≤ℤ◌ : ℤ → ℤ → Type 0
a ≤ℤ b = pos_part a + neg_part b ≤ pos_part b + neg_part a

abbrev pub ltb_ℤ : ℤ → ℤ → Bool
ltb_ℤ a b = ltb (pos_part a + neg_part b) (pos_part b + neg_part a)

-- With the operations unfolded `ground` splits on the signs.
pub +ℤ_comm : (a b : ℤ) → a +ℤ b ≡ b +ℤ a
unfolding ◌+ℤ◌
+ℤ_comm a b = ground arith

pub +ℤ_assoc : (a b c : ℤ) → a +ℤ b +ℤ c ≡ a +ℤ (b +ℤ c)
unfolding ◌+ℤ◌
+ℤ_assoc a b c = ground arith

pub +ℤ_cancel : (a b : ℤ) → a +ℤ b -ℤ b ≡ a
unfolding ◌+ℤ◌ ◌-ℤ◌
+ℤ_cancel a b = ground arith

-- One lemma for each operation lets `omega` work with the operations shut, at any depth.
pub +ℤ_parts :
    (a b : ℤ)
    → pos_part (a +ℤ b) + neg_part a + neg_part b ≡ neg_part (a +ℤ b) + pos_part a + pos_part b
unfolding ◌+ℤ◌
+ℤ_parts a b = ground arith

pub -ℤ_parts :
    (a b : ℤ)
    → pos_part (a -ℤ b) + neg_part a + pos_part b ≡ neg_part (a -ℤ b) + pos_part a + neg_part b
unfolding ◌-ℤ◌
-ℤ_parts a b = ground arith

pub eq_of_parts : (a b : ℤ) → pos_part a + neg_part b ≡ pos_part b + neg_part a → a ≡ b
eq_of_parts a b h = ground arith

pub ruleset int_laws = (arith, +ℤ_parts, -ℤ_parts, eq_of_parts)

pub +ℤ_mono : (a b c d : ℤ) → a ≤ℤ b → c ≤ℤ d → a +ℤ c ≤ℤ b +ℤ d
+ℤ_mono a b c d h k = omega int_laws

abbrev pub is_neg : ℤ → Bool
is_neg (pos n) = false
is_neg (negsuc n) = true

-- The absolute value.
abbrev pub mag : ℤ → ℕ
mag (pos n) = n
mag (negsuc n) = suc n

-- The integer of a magnitude, negated if the flag is set.
abbrev pub signed : Bool → ℕ → ℤ
signed neg n = if neg then sub_ℕ 0 n else pos n

abbrev pub eq_ℤ : ℤ → ℤ → Bool
eq_ℤ (pos n) (pos m) = n == m
eq_ℤ (negsuc n) (negsuc m) = n == m
eq_ℤ (pos n) (negsuc m) = false
eq_ℤ (negsuc n) (pos m) = false

-- Go's `int` has 64 bits: what a result of any size is stored as.
unfoldable pub wrap : ℤ → ℤ
wrap (pos n) = let u = n % 2 ^ 64 in if ltb u (2 ^ 63) then pos u else negsuc (2 ^ 64 - 1 - u)
wrap (negsuc n) = let u = n % 2 ^ 64 in if ltb u (2 ^ 63) then negsuc u else pos (2 ^ 64 - 1 - u)

abbrev pub InInt : ℤ → Type 0
InInt (pos n) = n < 2 ^ 63
InInt (negsuc n) = n < 2 ^ 63

pub wrap-InInt : (z : ℤ) → InInt (wrap z)
unfolding wrap
wrap-InInt (pos n) = ground arith
wrap-InInt (negsuc n) = ground arith

-- A value that fits is stored as it is.
pub wrap_fits : (z : ℤ) → InInt z → wrap z ≡ z
unfolding wrap
wrap_fits (pos n) h = ground arith
wrap_fits (negsuc n) h = ground arith

-- Go's `/` and `%` on `int`, for a divisor that is not zero: the quotient is cut off towards zero,
-- and the remainder has the sign of the dividend.
unfoldable pub quot : ℤ → ℤ → ℤ
quot a b = wrap (signed (if is_neg a then not (is_neg b) else is_neg b) (mag a / mag b))

unfoldable pub rem : ℤ → ℤ → ℤ
rem a b = signed (is_neg a) (mag a % mag b)

pub add-pos : (a b : ℕ) → pos a +ℤ pos b ≡ pos (a + b)
unfolding ◌+ℤ◌
add-pos a b = ground arith
