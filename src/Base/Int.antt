-- ===== src/Base/Int.antt =====
-- Integers over the native numbers, and Go's truncated quotient and remainder.
use Prim.Native.Nat.{ℕ, suc, ◌+◌, ◌-◌, ◌/◌, ◌%◌}
use mathlib.Core.Path.{◌≡◌, refl}
use mathlib.Core.Logic.{◌⊎◌, inl, inr}
use mathlib.Core.Bool.{Bool}
use native.Mathlib.Omega.{arith}
use pve_traffic_monitor.Base.Tests.{ltb, leb, if◌then◌else◌}

-- `negsuc n` is -(n + 1).
pub data ℤ : Type 0 where
  pos : ℕ → ℤ
  negsuc : ℕ → ℤ

abbrev pub pos_part : ℤ → ℕ
pos_part (pos n) = n
pos_part (negsuc n) = 0

abbrev pub neg_part : ℤ → ℕ
neg_part (pos n) = 0
neg_part (negsuc n) = suc n

-- a - b, as an integer.
abbrev pub sub_ℕ : ℕ → ℕ → ℤ
sub_ℕ a b = if leb b a then pos (a - b) else negsuc (b - a - 1)

infixl 65 ◌+ℤ◌ ◌-ℤ◌
unfoldable pub ◌+ℤ◌ : ℤ → ℤ → ℤ
a +ℤ b = sub_ℕ (pos_part a + pos_part b) (neg_part a + neg_part b)

unfoldable pub ◌-ℤ◌ : ℤ → ℤ → ℤ
a -ℤ b = sub_ℕ (pos_part a + neg_part b) (neg_part a + pos_part b)

abbrev pub is_neg : ℤ → Bool
is_neg a = ltb 0 (neg_part a)

-- Go's `a / b` and `a % b` round towards 0, and the remainder has the sign of `a`.
unfoldable pub quot_ℤ : ℤ → ℕ → ℤ
quot_ℤ a b = sub_ℕ (pos_part a / b) (neg_part a / b)

unfoldable pub rem_ℤ : ℤ → ℕ → ℤ
rem_ℤ a b = sub_ℕ (pos_part a % b) (neg_part a % b)

pub +ℤ_parts :
    (a b : ℤ)
    → pos_part (a +ℤ b) + neg_part a + neg_part b ≡ neg_part (a +ℤ b) + pos_part a + pos_part b
unfolding ◌+ℤ◌
+ℤ_parts a b = ground arith

pub -ℤ_parts :
    (a b : ℤ)
    → pos_part (a -ℤ b) + neg_part a + pos_part b ≡ neg_part (a -ℤ b) + pos_part a + neg_part b
unfolding ◌-ℤ◌
-ℤ_parts a b = ground arith

pub eq_of_parts : (a b : ℤ) → pos_part a + neg_part b ≡ pos_part b + neg_part a → a ≡ b
eq_of_parts a b h = ground arith

pub quot_parts :
    (a : ℤ) (b : ℕ)
    → pos_part (quot_ℤ a b) + neg_part a / b ≡ neg_part (quot_ℤ a b) + pos_part a / b
unfolding quot_ℤ
quot_parts a b = ground arith

pub rem_parts :
    (a : ℤ) (b : ℕ) → pos_part (rem_ℤ a b) + neg_part a % b ≡ neg_part (rem_ℤ a b) + pos_part a % b
unfolding rem_ℤ
rem_parts a b = ground arith

-- An integer is not both positive and negative.
pub parts_zero : (a : ℤ) → (pos_part a ≡ 0) ⊎ (neg_part a ≡ 0)
parts_zero (pos n) = inr refl
parts_zero (negsuc n) = inl refl

pub pos-+ℤ : (a b : ℕ) → pos a +ℤ pos b ≡ pos (a + b)
unfolding ◌+ℤ◌
pos-+ℤ a b = ground arith

pub ruleset int_laws = (arith, +ℤ_parts, -ℤ_parts, eq_of_parts)
