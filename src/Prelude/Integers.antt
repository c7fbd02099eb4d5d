-- ===== src/Prelude/Integers.antt =====
-- The integers over the native numbers.
use Prim.Native.Nat.{ℕ, suc, ◌+◌, ◌-◌, ◌%◌, ◌^◌, ◌<◌}
use mathlib.Core.Path.{◌≡◌}
use native.Mathlib.Omega.{arith}
use mathlib.Core.Bool.{Bool}
use atomyx.Prelude.Tests.{ltb, leb, if◌then◌else◌}

pub data ℤ : Type 0 where
  pos : ℕ → ℤ
  negsuc : ℕ → ℤ

abbrev pub pos_part : ℤ → ℕ
pos_part (pos n) = n
pos_part (negsuc n) = 0

abbrev pub neg_part : ℤ → ℕ
neg_part (pos n) = 0
neg_part (negsuc n) = suc n

-- a - b, as an integer.
abbrev pub sub_ℕ : ℕ → ℕ → ℤ
sub_ℕ a b = if leb b a then pos (a - b) else negsuc (b - a - 1)

infixl 65 ◌+ℤ◌ ◌-ℤ◌
unfoldable pub ◌+ℤ◌ : ℤ → ℤ → ℤ
a +ℤ b = sub_ℕ (pos_part a + pos_part b) (neg_part a + neg_part b)

unfoldable pub ◌-ℤ◌ : ℤ → ℤ → ℤ
a -ℤ b = sub_ℕ (pos_part a + neg_part b) (neg_part a + pos_part b)

abbrev pub ltb_ℤ : ℤ → ℤ → Bool
ltb_ℤ a b = ltb (pos_part a + neg_part b) (pos_part b + neg_part a)

abbrev pub leb_ℤ : ℤ → ℤ → Bool
leb_ℤ a b = leb (pos_part a + neg_part b) (pos_part b + neg_part a)

-- The integer of 64 bits with the bits of a number.
unfoldable pub int_of : ℕ → ℤ
int_of u = if ltb u (2 ^ 63) then pos u else negsuc (2 ^ 64 - 1 - u)

-- A sum or a difference of integers of 64 bits, which wraps.
unfoldable pub wrap_int : ℤ → ℤ
unfolding int_of
wrap_int (pos n) = int_of (n % 2 ^ 64)
wrap_int (negsuc n) = int_of (2 ^ 64 - 1 - n % 2 ^ 64)

pub wrap_int-sum : (a b : ℕ) → a + b < 2 ^ 63 → wrap_int (pos a +ℤ pos b) ≡ pos (a + b)
unfolding wrap_int ◌+ℤ◌
wrap_int-sum a b h = ground (arith, h)

pub wrap_int-difference :
    (a b : ℕ) → a < 2 ^ 63 → b < 2 ^ 63 → wrap_int (pos a -ℤ pos b) ≡ pos a -ℤ pos b
unfolding wrap_int ◌-ℤ◌
wrap_int-difference a b h k = ground (arith, h, k)
