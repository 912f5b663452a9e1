-- ===== src/Base/Decimal.antt =====
-- Numbers in decimal, as by "%d" of package `fmt`.
use Prim.Native.Nat.{ℕ, zero, suc, ◌+◌, ◌-◌, ◌*◌, ◌/◌, ◌%◌, ◌≤◌}
use mathlib.Core.Path.{◌≡◌, refl, sym, ap, ◌∙◌}
use mathlib.Core.Logic.{inl, inr}
use mathlib.Core.Bool.{Bool, true, false, ◌&&◌}
use mathlib.Core.List.{[], ◌∷◌, ◌++◌, append_assoc}
use native.Mathlib.Omega.{arith}
use pve_traffic_monitor.Base.Int.{ℤ, pos, negsuc}
use pve_traffic_monitor.Base.Tests.{ltb, leb, ◌==◌, if◌then◌else◌, Bool-cases}
use pve_traffic_monitor.Base.Text.{Text}

abbrev pub is_digit : ℕ → Bool
is_digit c = leb b'0' c && leb c b'9'

-- A number has fewer digits than its value plus one, which is the fuel.
unfoldable pub print_at : ℕ → ℕ → Text
print_at zero n = []
print_at (suc fuel) n =
    let front = print_at fuel (n / 10) in
    if ltb n 10 then (b'0' + n) ∷ [] else front ++ ((b'0' + n % 10) ∷ [])

-- fmt.Sprintf("%d", n) for a number that is not negative.
unfoldable pub print_int : ℕ → Text
print_int n = print_at (suc n) n

-- fmt.Sscanf(s, "%d…", &n) on a text that starts with a digit: its leading digits.
unfoldable pub scan_from : ℕ → Text → ℕ
scan_from n [] = n
scan_from n (c ∷ s) = if is_digit c then scan_from (n * 10 + (c - b'0')) s else n

unfoldable pub scan_int : Text → ℕ
scan_int s = scan_from 0 s

scan_digit : (n d : ℕ) (s : Text) → d ≤ 9 → scan_from n ((b'0' + d) ∷ s) ≡ scan_from (n * 10 + d) s
unfolding scan_from
scan_digit n d s h = ground arith

scan_from-print_at :
    (fuel n : ℕ) (s : Text) → suc n ≤ fuel → scan_from 0 (print_at fuel n ++ s) ≡ scan_from n s
unfolding print_at
scan_from-print_at zero n s h = elim h [ ]
scan_from-print_at (suc fuel) n s h = elim (Bool-cases (ltb n 10)) [
  | inl small ↦ rw small (scan_digit 0 n s (ground arith) ∙ ap (λ k. scan_from k s) (omega arith))
  | inr large ↦ rw large (
      ap (scan_from 0) (append_assoc (print_at fuel (n / 10)) ((b'0' + n % 10) ∷ []) s)
      ∙ scan_from-print_at fuel (n / 10) ((b'0' + n % 10) ∷ s) (ground arith)
      ∙ scan_digit (n / 10) (n % 10) s (omega arith)
      ∙ ap (λ k. scan_from k s) (omega arith))
]

-- What is printed is read back, up to the first byte that is no digit.
pub scan_int-print_int :
    (n c : ℕ) (s : Text) → is_digit c ≡ false → scan_int (print_int n ++ (c ∷ s)) ≡ n
unfolding scan_int print_int scan_from
scan_int-print_int n c s h = scan_from-print_at (suc n) n (c ∷ s) (omega arith) ∙ rw h refl

-- fmt.Sprintf("%d", z), and the number that is read back of it.
unfoldable pub print_ℤ : ℤ → Text
print_ℤ (pos n) = print_int n
print_ℤ (negsuc n) = b'-' ∷ print_int (suc n)

unfoldable pub scan_ℤ : Text → ℤ
scan_ℤ [] = pos 0
scan_ℤ (c ∷ s) = if c == b'-' then negsuc (scan_int s - 1) else pos (scan_int (c ∷ s))

print_at-digit :
    (fuel n : ℕ) (s : Text)
    → suc n ≤ fuel
    → (d : ℕ) × (rest : Text) × (print_at fuel n ++ s ≡ d ∷ rest) × (is_digit d ≡ true)
unfolding print_at
print_at-digit zero n s h = elim h [ ]
print_at-digit (suc fuel) n s h = elim (Bool-cases (ltb n 10)) [
  | inl small ↦ (b'0' + n, s, rw small refl, ground arith)
  | inr large ↦
      let (d, rest, same, digit) =
        print_at-digit fuel (n / 10) ((b'0' + n % 10) ∷ s) (ground arith) in
      (
        d,
        rest,
        rw large (append_assoc (print_at fuel (n / 10)) ((b'0' + n % 10) ∷ []) s ∙ same),
        digit,
      )
]

pub scan_ℤ-print_ℤ :
    (z : ℤ) (c : ℕ) (s : Text) → is_digit c ≡ false → scan_ℤ (print_ℤ z ++ (c ∷ s)) ≡ z
unfolding scan_ℤ print_ℤ print_int
scan_ℤ-print_ℤ (pos n) c s h =
    let (d, rest, same, digit) = print_at-digit (suc n) n (c ∷ s) (omega arith) in
    let other : (d == b'-') ≡ false = ground arith in
    ap scan_ℤ same
    ∙ rw other (ap (λ t. pos (scan_int t)) (sym same) ∙ ap pos (scan_int-print_int n c s h))
scan_ℤ-print_ℤ (negsuc n) c s h =
    ap (λ k. negsuc (k - 1)) (scan_int-print_int (suc n) c s h) ∙ ap negsuc (omega arith)
