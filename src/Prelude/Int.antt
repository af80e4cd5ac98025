-- ===== src/Prelude/Int.antt =====
-- Signed integers over the native numbers (the library's ℤ stands on the unary ℕ), and Rust's
-- `i64`: an integer whose results wrap around at 2 ^ 64, as the release build computes them.
use Prim.Native.Nat.{ℕ, suc, ◌+◌, ◌-◌, ◌/◌, ◌%◌, ◌^◌, ◌≤◌}
use mathlib.Core.Path.{◌≡◌, refl}
use mathlib.Core.Bool.{Bool, true}
use native.Mathlib.Omega.{arith}
use revtern.Prelude.Tests.{ltb, leb, nat_eq, if◌then◌else◌}

-- `negsuc n` is -(n + 1).
pub data ℤ : Type 0 where
  pos : ℕ → ℤ
  negsuc : ℕ → ℤ

abbrev pub pos_part : ℤ → ℕ
pos_part (pos n) = n
pos_part (negsuc n) = 0

abbrev pub neg_part : ℤ → ℕ
neg_part (pos n) = 0
neg_part (negsuc n) = suc n

abbrev pub sub_ℕ : ℕ → ℕ → ℤ
sub_ℕ a b = if leb b a then pos (a - b) else negsuc (b - a - 1)

infixl 65 ◌+ℤ◌ ◌-ℤ◌
infix 50 ◌≤ℤ◌
unfoldable pub ◌+ℤ◌ : ℤ → ℤ → ℤ
a +ℤ b = sub_ℕ (pos_part a + pos_part b) (neg_part a + neg_part b)

unfoldable pub ◌-ℤ◌ : ℤ → ℤ → ℤ
a -ℤ b = sub_ℕ (pos_part a + neg_part b) (neg_part a + pos_part b)

abbrev pub ◌≤ℤ◌ : ℤ → ℤ → Type 0
a ≤ℤ b = pos_part a + neg_part b ≤ pos_part b + neg_part a

abbrev pub ltb_ℤ : ℤ → ℤ → Bool
ltb_ℤ a b = ltb (pos_part a + neg_part b) (pos_part b + neg_part a)

abbrev pub eq_ℤ : ℤ → ℤ → Bool
eq_ℤ a b = nat_eq (pos_part a + neg_part b) (pos_part b + neg_part a)

pub +ℤ_parts :
    (a b : ℤ)
    → pos_part (a +ℤ b) + neg_part a + neg_part b ≡ neg_part (a +ℤ b) + pos_part a + pos_part b
unfolding ◌+ℤ◌
+ℤ_parts a b = ground arith

pub -ℤ_parts :
    (a b : ℤ)
    → pos_part (a -ℤ b) + neg_part a + pos_part b ≡ neg_part (a -ℤ b) + pos_part a + neg_part b
unfolding ◌-ℤ◌
-ℤ_parts a b = ground arith

pub eq_of_parts : (a b : ℤ) → pos_part a + neg_part b ≡ pos_part b + neg_part a → a ≡ b
eq_of_parts a b h = ground arith

pub ruleset int_laws = (arith, +ℤ_parts, -ℤ_parts, eq_of_parts)

-- The bounds of `i64`, which are those of PostgreSQL's `bigint`.
abbrev pub in_i64 : ℤ → Bool
in_i64 (pos n) = ltb n (2 ^ 63)
in_i64 (negsuc n) = ltb n (2 ^ 63)

abbrev pub from_bits : ℕ → ℤ
from_bits m = if ltb m (2 ^ 63) then pos m else negsuc (2 ^ 64 - 1 - m)

unfoldable pub wrap_i64 : ℤ → ℤ
wrap_i64 (pos n) = from_bits (n % 2 ^ 64)
wrap_i64 (negsuc n) = from_bits (2 ^ 64 - 1 - n % 2 ^ 64)

-- `i64::abs`: the least value is its own absolute value.
unfoldable pub abs_i64 : ℤ → ℤ
unfolding wrap_i64 ◌-ℤ◌
abs_i64 a = if ltb_ℤ a (pos 0) then wrap_i64 (pos 0 -ℤ a) else a

-- `a - b` on `i64`.
unfoldable pub sub_i64 : ℤ → ℤ → ℤ
unfolding wrap_i64 ◌-ℤ◌
sub_i64 a b = wrap_i64 (a -ℤ b)

-- `a / 10` and the like: the quotient is cut towards zero.
unfoldable pub div_i64 : ℤ → ℕ → ℤ
unfolding ◌-ℤ◌
div_i64 (pos n) d = pos (n / d)
div_i64 (negsuc n) d = pos 0 -ℤ pos (suc n / d)

pub wrap_i64-in_i64 : (a : ℤ) → in_i64 (wrap_i64 a) ≡ true
unfolding wrap_i64
wrap_i64-in_i64 (pos n) = ground arith
wrap_i64-in_i64 (negsuc n) = ground arith

pub wrap_i64_self : (a : ℤ) → in_i64 a ≡ true → wrap_i64 a ≡ a
unfolding wrap_i64
wrap_i64_self (pos n) h = ground arith
wrap_i64_self (negsuc n) h = ground arith

abs_i64_least : abs_i64 (negsuc (2 ^ 63 - 1)) ≡ negsuc (2 ^ 63 - 1)
unfolding abs_i64
abs_i64_least = refl
