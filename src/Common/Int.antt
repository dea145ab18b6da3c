-- ===== src/Common/Int.antt =====
-- Go's `int` and `int64`: integers, and the wrap to 64 bits of a product.
use Prim.Native.Nat.{ℕ, suc, ◌+◌, ◌-◌, ◌*◌, ◌%◌, ◌≤◌, ◌<◌}
use mathlib.Core.Path.{◌≡◌}
use mathlib.Core.Bool.{Bool, true}
use native.Mathlib.Omega.{arith}
use loomcli.Common.Tests.{leb, ltb, ◌==◌, if◌then◌else◌}

-- `negsuc n` is -(n + 1).
pub data ℤ : Type 0 where
  pos : ℕ → ℤ
  negsuc : ℕ → ℤ

abbrev pub pos_part : ℤ → ℕ
pos_part (pos n) = n
pos_part (negsuc n) = 0

abbrev pub neg_part : ℤ → ℕ
neg_part (pos n) = 0
neg_part (negsuc n) = suc n

abbrev pub ltb_ℤ : ℤ → ℤ → Bool
ltb_ℤ a b = ltb (pos_part a + neg_part b) (pos_part b + neg_part a)

abbrev pub leb_ℤ : ℤ → ℤ → Bool
leb_ℤ a b = leb (pos_part a + neg_part b) (pos_part b + neg_part a)

abbrev pub eqb_ℤ : ℤ → ℤ → Bool
eqb_ℤ a b = (pos_part a + neg_part b) == (pos_part b + neg_part a)

infix 50 ◌≤ℤ◌
abbrev pub ◌≤ℤ◌ : ℤ → ℤ → Type 0
a ≤ℤ b = pos_part a + neg_part b ≤ pos_part b + neg_part a

infix 50 ◌<ℤ◌
abbrev pub ◌<ℤ◌ : ℤ → ℤ → Type 0
a <ℤ b = pos_part a + neg_part b < pos_part b + neg_part a

-- A natural number less another.
abbrev pub sub_ℕ : ℕ → ℕ → ℤ
sub_ℕ a b = if ltb a b then negsuc (b - a - 1) else pos (a - b)

infixl 60 ◌+ℤ◌
abbrev pub ◌+ℤ◌ : ℤ → ℤ → ℤ
pos a +ℤ pos b = pos (a + b)
pos a +ℤ negsuc b = sub_ℕ a (suc b)
negsuc a +ℤ pos b = sub_ℕ b (suc a)
negsuc a +ℤ negsuc b = negsuc (suc (a + b))

-- What a sum is, in natural numbers.
pub +ℤ_sum :
    (a b : ℤ)
    → pos_part (a +ℤ b) + neg_part a + neg_part b ≡ pos_part a + pos_part b + neg_part (a +ℤ b)
+ℤ_sum (pos a) (pos b) = omega arith
+ℤ_sum (pos a) (negsuc b) = ground arith
+ℤ_sum (negsuc a) (pos b) = ground arith
+ℤ_sum (negsuc a) (negsuc b) = omega arith

abbrev pub two63 : ℕ
two63 = 9223372036854775808

abbrev pub two64 : ℕ
two64 = 18446744073709551616

-- The signed reading of a 64-bit pattern.
abbrev pub signed64 : ℕ → ℤ
signed64 m = if ltb m two63 then pos m else negsuc (two64 - 1 - m)

-- The value that is left of an integer in 64 bits.
unfoldable pub wrap64 : ℤ → ℤ
wrap64 (pos n) = signed64 (n % two64)
wrap64 (negsuc n) = signed64 (two64 - 1 - n % two64)

-- A product with a factor that is not negative.
infixl 70 ◌*64◌
unfoldable pub ◌*64◌ : ℤ → ℕ → ℤ
pos n *64 k = wrap64 (pos (n * k))
negsuc n *64 k = wrap64 (if k == 0 then pos 0 else negsuc (suc n * k - 1))

-- Below 2 ^ 63 a product is exact.
pub *64_exact : (n k : ℕ) → n * k < two63 → pos n *64 k ≡ pos (n * k)
unfolding ◌*64◌ wrap64
*64_exact n k h = ground arith

pub eqb_ℤ-eq : (a b : ℤ) → eqb_ℤ a b ≡ true → a ≡ b
eqb_ℤ-eq (pos m) (pos n) h = ground arith
eqb_ℤ-eq (pos m) (negsuc n) h = ground arith
eqb_ℤ-eq (negsuc m) (pos n) h = ground arith
eqb_ℤ-eq (negsuc m) (negsuc n) h = ground arith
