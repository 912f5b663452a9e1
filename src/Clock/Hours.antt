-- ===== src/Clock/Hours.antt =====
-- Duration.Hours of Go's package `time`, a float64, with what pkg/period/calculator.go reads of it: the
-- whole hours and the whole days of a duration.
use native.Mathlib.Nat.{mul-le-mul_right}
use pve_traffic_monitor.Base.{
  ap, leb, Bool-cases, inl, inr, ℕ, ◌+◌, ◌*◌, ◌/◌, ◌%◌, ◌≤◌, ◌<◌, ◌≡◌, arith,
}
use pve_traffic_monitor.Base.Binary64.{
  Binary64, pow2, pow2_pos, quotient, truncate, quotient_ge, quotient_le, quotient_le_part,
  truncate_ge, truncate_le, truncate_lt,
}
use pve_traffic_monitor.Base.Int.{ℤ, pos, pos_part, neg_part, sub_ℕ}
use pve_traffic_monitor.Clock.{hour_ns, day_ns}

-- d.Hours() where d is not negative: the whole hours plus the rest as a part of an hour.
unfoldable pub hours : ℕ → Binary64
hours d =
    let part = quotient (d % hour_ns) hour_ns in
    quotient (d / hour_ns * pow2 part.scale + part.significand) (pow2 part.scale)

-- int(d.Hours()) and int(d.Hours() / 24) where d is not negative.
unfoldable pub hours_of : ℕ → ℕ
hours_of d = truncate (hours d)

unfoldable pub days_of : ℕ → ℕ
days_of d = let h = hours d in truncate (quotient h.significand (24 * pow2 h.scale))

-- The same for any duration, where all is with the opposite sign if d is negative.
abbrev pub whole_hours : ℤ → ℤ
whole_hours d = sub_ℕ (hours_of (pos_part d)) (hours_of (neg_part d))

abbrev pub whole_days : ℤ → ℤ
whole_days d = sub_ℕ (days_of (pos_part d)) (days_of (neg_part d))

-- The part of an hour, rounded.
part_range :
    (d : ℕ) → let part = quotient (d % hour_ns) hour_ns in part.significand ≤ pow2 part.scale
part_range d = omega (arith, quotient_le 1 (d % hour_ns) hour_ns (omega arith) (omega arith))

hours_ge : (d : ℕ) → d / hour_ns * pow2 (hours d).scale ≤ (hours d).significand
unfolding hours
hours_ge d =
    let part = quotient (d % hour_ns) hour_ns in
    quotient_ge (d / hour_ns) _ (pow2 part.scale) (pow2_pos part.scale) (omega arith)

hours_le : (d : ℕ) → (hours d).significand ≤ (d / hour_ns + 1) * pow2 (hours d).scale
unfolding hours
hours_le d =
    let part = quotient (d % hour_ns) hour_ns in
    quotient_le (d / hour_ns + 1) _ (pow2 part.scale) (pow2_pos part.scale)
      (omega (arith, part_range d))

-- No rounding at the whole hours.
hours_exact : (d : ℕ) → d % hour_ns ≡ 0 → (hours d).significand ≤ d / hour_ns * pow2 (hours d).scale
unfolding hours
hours_exact d h =
    let part = quotient (d % hour_ns) hour_ns in
    quotient_le (d / hour_ns) _ (pow2 part.scale) (pow2_pos part.scale)
      (omega (arith, quotient_le 0 (d % hour_ns) hour_ns (omega arith) (omega (arith, h))))

-- The rest of a duration that Go has is rounded down in time: 3353 nanoseconds before an hour ends, the
-- hours are below its end by one part in 2^30.
hours_below :
    (d : ℕ)
    → d < 0x8000_0000_0000_0000
    → d % hour_ns + 3353 ≤ hour_ns
    → 0x4000_0000 * (hours d).significand
      ≤ (d / hour_ns * 0x4000_0000 + 0x3fff_ffff) * pow2 (hours d).scale
unfolding hours pow2
hours_below d l h =
    let part = quotient (d % hour_ns) hour_ns in
    let low =
      quotient_le_part 30 0x3fff_ffff (d % hour_ns) hour_ns (omega arith) (omega arith)
        (omega arith) (omega (arith, h)) in
    quotient_le_part 30 (d / hour_ns * 0x4000_0000 + 0x3fff_ffff) _ (pow2 part.scale)
      (pow2_pos part.scale) (omega arith)
      (omega (
        arith,
        part_range d,
        mul-le-mul_right {m = d / hour_ns} {n = 2562047} (pow2 part.scale) (omega (arith, l)),
        pow2_pos part.scale,
      ))
      (omega (arith, low))

pub hours_of_range : (d : ℕ) → (d / hour_ns ≤ hours_of d) × (hours_of d ≤ d / hour_ns + 1)
unfolding hours_of
hours_of_range d = (truncate_ge _ (hours d) (hours_ge d), truncate_le _ (hours d) (hours_le d))

pub hours_of_exact : (d : ℕ) → d % hour_ns ≡ 0 → hours_of d ≡ d / hour_ns
unfolding hours_of
hours_of_exact d h =
    omega (arith, truncate_ge _ (hours d) (hours_ge d), truncate_le _ (hours d) (hours_exact d h))

pub hours_of_below :
    (d : ℕ) → d < 0x8000_0000_0000_0000 → d % hour_ns + 3353 ≤ hour_ns → hours_of d ≡ d / hour_ns
unfolding hours_of
hours_of_below d l h =
    let below : hours_of d < d / hour_ns + 1 =
      truncate_lt _ (hours d) (omega (arith, hours_below d l h, pow2_pos (hours d).scale)) in
    omega (arith, below, truncate_ge _ (hours d) (hours_ge d))

-- The days are the hours divided by 24 and rounded once more.
module _ (d : ℕ) where
  days_pos : 0 < 24 * pow2 (hours d).scale
  days_pos = omega (arith, pow2_pos (hours d).scale)

  day_hours : d / hour_ns ≤ d / day_ns * 24 + 23
  day_hours = omega arith

  hours_day : d / day_ns * 24 ≤ d / hour_ns
  hours_day = omega arith

  pub days_of_range : (d / day_ns ≤ days_of d) × (days_of d ≤ d / day_ns + 1)
  unfolding days_of
  days_of_range =
      let p = pow2 (hours d).scale in
      (
        truncate_ge (d / day_ns) _ (
            quotient_ge (d / day_ns) _ (24 * p) days_pos
              (omega (arith, hours_ge d, mul-le-mul_right p hours_day))),
        truncate_le (d / day_ns + 1) _ (
            quotient_le (d / day_ns + 1) _ (24 * p) days_pos
              (omega (arith, hours_le d, mul-le-mul_right p day_hours))),
      )

  pub days_of_exact : d % day_ns ≡ 0 → days_of d ≡ d / day_ns
  unfolding days_of
  days_of_exact h =
      let p = pow2 (hours d).scale in
      let same : d / hour_ns ≡ d / day_ns * 24 = omega (arith, h) in
      let le : days_of d ≤ d / day_ns = truncate_le (d / day_ns) _ (
        quotient_le (d / day_ns) _ (24 * p) days_pos
          (omega (arith, hours_exact d (omega (arith, h)), ap (λ k. k * p) same))) in
      omega (arith, days_of_range.0, le)

  day_below :
      d < 0x8000_0000_0000_0000
      → d % day_ns + 3353 ≤ day_ns
      → 0x4000_0000 * (hours d).significand
        ≤ (d / day_ns * 24 * 0x4000_0000 + 0x5_ffff_ffff) * pow2 (hours d).scale
  day_below l h =
      let p = pow2 (hours d).scale in
      elim (Bool-cases (leb (d % hour_ns + 3353) hour_ns)) [
        | inl e ↦ omega (arith, hours_below d l (ground arith), mul-le-mul_right p day_hours)
        | inr e ↦
            let late : hour_ns < d % hour_ns + 3353 = ground arith in
            let early : d / hour_ns ≤ d / day_ns * 24 + 22 = omega (arith, late, h) in
            omega (arith, hours_le d, mul-le-mul_right p early)
      ]

  pub days_of_below :
      d < 0x8000_0000_0000_0000 → d % day_ns + 3353 ≤ day_ns → days_of d ≡ d / day_ns
  unfolding days_of pow2
  days_of_below l h =
      let p = pow2 (hours d).scale in
      let x = (hours d).significand in
      let small : d / hour_ns + 1 ≤ 2562048 = omega (arith, l) in
      let rounded =
        quotient_le_part 35 (d / day_ns * 0x8_0000_0000 + 0x7_ffff_ffff) x (24 * p) days_pos
          (omega arith)
          (omega (arith, hours_le d, mul-le-mul_right p small, pow2_pos (hours d).scale))
          (omega (arith, day_below l h)) in
      let f = quotient x (24 * p) in
      let below : truncate f < d / day_ns + 1 =
        truncate_lt _ f (omega (arith, rounded, pow2_pos f.scale)) in
      omega (arith, below, days_of_range.0)

pub whole_hours-pos : (d : ℕ) → whole_hours (pos d) ≡ pos (hours_of d)
whole_hours-pos d = ground (arith, hours_of_exact 0 (omega arith))

pub whole_days-pos : (d : ℕ) → whole_days (pos d) ≡ pos (days_of d)
whole_days-pos d = ground (arith, days_of_exact 0 (omega arith))
