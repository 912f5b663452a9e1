-- ===== src/Base/Binary64.antt =====
-- Quotients of numbers as float64 has them: rounded to 53 binary digits, to the nearest and a tie to
-- the even one. Numbers of 53 digits and more are rounded to whole numbers, which float64 has up to
-- 2^53; the program's are smaller.
use Prim.Native.Nat.{ℕ, zero, suc, ◌+◌, ◌*◌, ◌/◌, ◌%◌, ◌≤◌, ◌<◌}
use mathlib.Core.Path.{◌≡◌, sym, subst, ap}
use mathlib.Core.Logic.{inl, inr}
use mathlib.Core.Bool.{Bool, false, ◌&&◌, ◌||◌}
use native.Mathlib.Nat.{
  le-div_iff_mul-le, div-lt_iff_lt-mul, mul-div_cancel, mul-mod_left, mul-le-mul_left,
  mul-le-mul_right,
}
use native.Mathlib.Omega.{arith}
use pve_traffic_monitor.Base.Tests.{ltb, leb, ◌==◌, if◌then◌else◌, Bool-cases}

unfoldable pub pow2 : ℕ → ℕ
pow2 zero = 1
pow2 (suc s) = 2 * pow2 s

-- significand / 2^scale
pub record Binary64 : Type 0 where
  pub significand : ℕ
  pub scale : ℕ

abbrev pub rounds_up : ℕ → ℕ → Bool
rounds_up x y = ltb y (2 * (x % y)) || ((2 * (x % y) == y) && (x / y % 2 == 1))

-- x / y, rounded to the nearest number, and a tie to the even one.
unfoldable pub round_div : ℕ → ℕ → ℕ
round_div x y = if rounds_up x y then x / y + 1 else x / y

-- How often x is doubled until x / y has 53 digits.
unfoldable pub scale_of : ℕ → ℕ → ℕ → ℕ
scale_of zero x y = 0
scale_of (suc fuel) x y =
    let rest = scale_of fuel (2 * x) y in if leb (0x10_0000_0000_0000 * y) x then 0 else suc rest

-- With the fuel for quotients of 2^-48 and more, and zero.
unfoldable pub quotient : ℕ → ℕ → Binary64
quotient x y =
    let s = scale_of 100 x y in record { significand = round_div (pow2 s * x) y; scale = s }

-- int(f)
unfoldable pub truncate : Binary64 → ℕ
truncate f = f.significand / pow2 f.scale

pub pow2_pos : (s : ℕ) → 0 < pow2 s
unfolding pow2
pow2_pos zero = omega arith
pow2_pos (suc s) = omega (arith, pow2_pos s)

round_div_ge : (n x y : ℕ) → 0 < y → n * y ≤ x → n ≤ round_div x y
unfolding round_div
round_div_ge n x y p h =
    let low : n ≤ x / y = (le-div_iff_mul-le p).1 h in
    elim (Bool-cases (rounds_up x y)) [ inl e ↦ rw e (omega (arith, low)) | inr e ↦ rw e low ]

round_div_exact : (n y : ℕ) → 0 < y → round_div (n * y) y ≡ n
unfolding round_div
round_div_exact n y p =
    let whole : n * y / y ≡ n = mul-div_cancel n p in
    let rest : n * y % y ≡ 0 = mul-mod_left n y in rw (whole, rest) (ground arith)

round_div_le : (n x y : ℕ) → 0 < y → x ≤ n * y → round_div x y ≤ n
unfolding round_div
round_div_le n x y p h = elim (Bool-cases (leb n (x / y))) [
  | inl e ↦
      let low : n * y ≤ x = (le-div_iff_mul-le p).0 (ground arith) in
      let same : x ≡ n * y = omega (arith, low, h) in
      subst (λ z. round_div z y ≤ n) (sym same) (omega (arith, round_div_exact n y p))
  | inr e ↦
      let below : x / y < n = ground arith in
      elim (Bool-cases (rounds_up x y)) [
        | inl up ↦ rw up (omega (arith, below))
        | inr down ↦ rw down (omega (arith, below))
      ]
]

module _ (n x y : ℕ) (p : 0 < y) where
  -- A quotient of at least n is rounded to at least n, and one of at most n to at most n.
  pub quotient_ge : n * y ≤ x → n * pow2 (quotient x y).scale ≤ (quotient x y).significand
  unfolding quotient
  quotient_ge h =
      let s = scale_of 100 x y in
      round_div_ge (n * pow2 s) (pow2 s * x) y p (omega (arith, mul-le-mul_left (pow2 s) h))

  pub quotient_le : x ≤ n * y → (quotient x y).significand ≤ n * pow2 (quotient x y).scale
  unfolding quotient
  quotient_le h =
      let s = scale_of 100 x y in
      round_div_le (n * pow2 s) (pow2 s * x) y p (omega (arith, mul-le-mul_left (pow2 s) h))

module _ (n : ℕ) (f : Binary64) where
  pub truncate_ge : n * pow2 f.scale ≤ f.significand → n ≤ truncate f
  unfolding truncate
  truncate_ge h = (le-div_iff_mul-le (pow2_pos f.scale)).1 h

  pub truncate_le : f.significand ≤ n * pow2 f.scale → truncate f ≤ n
  unfolding truncate
  truncate_le h =
      let below : truncate f < suc n =
        (div-lt_iff_lt-mul (pow2_pos f.scale)).1 (omega (arith, pow2_pos f.scale, h)) in
      omega (arith, below)

scale_of_ge :
    (j fuel x y : ℕ) → j ≤ fuel → pow2 j * x < 0x10_0000_0000_0000 * y → j ≤ scale_of fuel x y
unfolding scale_of pow2
scale_of_ge zero fuel x y l h = omega arith
scale_of_ge (suc j) zero x y l h = omega arith
scale_of_ge (suc j) (suc fuel) x y l h =
    let large : leb (0x10_0000_0000_0000 * y) x ≡ false =
      ground (arith, mul-le-mul_right x (pow2_pos j)) in
    let rest : j ≤ scale_of fuel (2 * x) y =
      scale_of_ge j fuel (2 * x) y (omega arith) (omega (arith, h)) in
    rw large (omega (arith, rest))

pow2_split : (j s : ℕ) → j ≤ s → (e : ℕ) × (pow2 s ≡ pow2 j * e)
unfolding pow2
pow2_split zero s l = (pow2 s, omega arith)
pow2_split (suc j) zero l = elim l [ ]
pow2_split (suc j) (suc s) l =
    let (e, same) = pow2_split j s (omega arith) in (e, omega (arith, same))

-- A quotient of at most n / 2^j is rounded to at most that, where the quotient has 53 digits with its
-- first j binary places.
pub quotient_le_part :
    (j n x y : ℕ)
    → 0 < y
    → j ≤ 100
    → pow2 j * x < 0x10_0000_0000_0000 * y
    → pow2 j * x ≤ n * y
    → pow2 j * (quotient x y).significand ≤ n * pow2 (quotient x y).scale
unfolding quotient
quotient_le_part j n x y p l small h =
    let s = scale_of 100 x y in
    let (e, same) = pow2_split j s (scale_of_ge j 100 x y l small) in
    let below : round_div (pow2 s * x) y ≤ n * e =
      round_div_le (n * e) (pow2 s * x) y p
        (omega (arith, mul-le-mul_left e h, ap (λ k. k * x) same)) in
    omega (arith, mul-le-mul_left (pow2 j) below, ap (λ k. n * k) same)

pub truncate_lt : (n : ℕ) (f : Binary64) → f.significand < n * pow2 f.scale → truncate f < n
unfolding truncate
truncate_lt n f h = (div-lt_iff_lt-mul (pow2_pos f.scale)).1 h
