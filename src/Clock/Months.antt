-- ===== src/Clock/Months.antt =====
-- The calendar fields of a time, and the order of months.
use native.Mathlib.Decide.{dec_lt}
use native.Mathlib.Nat.{le_refl}
use pve_traffic_monitor.Base.{ℕ, zero, suc, ◌+◌, ◌-◌, ◌*◌, ◌/◌, ◌%◌, ◌≤◌, ◌<◌, ◌≡◌, ap, arith}
use pve_traffic_monitor.Clock.{
  Time, hour_ns, minute_ns, day_ns, month_length, month_start, find_month, month_index, year, month,
  day, hour, minute, date_from, add_days, times,
}
use pve_traffic_monitor.Base.Int.{ℤ, pos, pos_part, neg_part, ◌+ℤ◌, ◌-ℤ◌, pos-+ℤ}

pub month_length_range : (k : ℕ) → (28 ≤ month_length k) × (month_length k ≤ 31)
unfolding month_length
month_length_range k = ground arith

-- Day n from the start of month k is day `r.1` of month `r.0`.
record Finds (k n : ℕ) (r : ℕ × ℕ) : Type 0 where
  fits : r.1 < month_length r.0
  adds_up : month_start r.0 + r.1 ≡ month_start k + n

find_month-Finds : (fuel k n : ℕ) → n < fuel → Finds k n (find_month fuel k n)
unfolding find_month month_start
find_month-Finds zero k n h = absurd (omega arith)
find_month-Finds (suc fuel) k n h =
    ground (arith, month_length_range k, find_month-Finds fuel (suc k) (n - month_length k))

-- A month ends before any later month starts.
pub month_start_step : (i j : ℕ) → i < j → month_start i + month_length i ≤ month_start j
unfolding month_start
month_start_step i zero h = elim h [ ]
month_start_step i (suc j) h = elim (dec_lt i j) [
  | yes p ↦ omega (arith, month_start_step i j p)
  | no p ↦ let e : i ≡ j = omega arith in rw e (le_refl _)
]

-- The month and the day's place in it are determined by the day number.
pub month_unique :
    (i j a b : ℕ)
    → a < month_length i
    → b < month_length j
    → month_start i + a ≡ month_start j + b
    → (i ≡ j) × (a ≡ b)
month_unique i j a b ha hb e = elim (dec_lt i j) [
  | yes p ↦ absurd (omega (arith, month_start_step i j p))
  | no p ↦ elim (dec_lt j i) [
    | yes q ↦ absurd (omega (arith, month_start_step j i q))
    | no q ↦ let same : i ≡ j = omega arith in (same, omega (arith, ap month_start same))
  ]
]

-- What the fields of a time say about its day number.
pub fields_lem :
    (t : Time)
    → (month_start (month_index t) + day t ≡ t / day_ns + 1)
      × (1 ≤ day t)
      × (day t ≤ month_length (month_index t))
unfolding month_index day month_start
fields_lem t =
    let f = find_month-Finds (suc (t / day_ns)) 0 (t / day_ns) (omega arith) in
    (omega arith, omega arith, omega arith)

-- A day number given by a month and a place in it has that month and that place.
pub fields_of_day :
    (t k n : ℕ)
    → t / day_ns ≡ month_start k + n
    → n < month_length k
    → (month_index t ≡ k) × (day t ≡ n + 1)
fields_of_day t k n e h =
    let f = fields_lem t in
    let u = month_unique (month_index t) k (day t - 1) n (omega arith) h (omega arith) in
    (u.0, omega arith)

pub year-month : (t : Time) → year t * 12 + month t ≡ month_index t + 13
unfolding year month
year-month t = omega arith

pub year_start : (t : Time) → month_start (year t * 12 + month t - 13) ≡ month_start (month_index t)
year_start t = ap month_start (omega (arith, year-month t))

pub month_range : (t : Time) → (1 ≤ month t) × (month t ≤ 12) × (1 ≤ year t)
unfolding year month
month_range t = omega arith

-- A time lies in the days of its month.
pub month_bounds :
    (t : Time)
    → (month_start (month_index t) * day_ns ≤ t) × (t < month_start (suc (month_index t)) * day_ns)
unfolding month_start
month_bounds t = omega (arith, fields_lem t)

-- The hours and minutes of a time, with seconds dropped, do not pass it.
pub clock_le :
    (t : Time)
    → (hour t * hour_ns + minute t * minute_ns ≤ t % day_ns)
      × (t % day_ns < day_ns)
      × (t % day_ns < hour t * hour_ns + minute t * minute_ns + minute_ns)
unfolding hour minute
clock_le t = omega arith

-- `date_from` at a day that is not before the first.
pub date_from_lem :
    (y m d ns : ℕ)
    → 1 ≤ d
    → date_from y m (pos d) ns ≡ (month_start (y * 12 + m - 13) + (d - 1)) * day_ns + ns
unfolding date_from ◌+ℤ◌ ◌-ℤ◌
date_from_lem y m d ns h = ground arith

-- AddDate(0, 0, n) moves by whole days.
pub add_days-pos : (t : Time) (n : ℕ) → add_days t (pos n) ≡ t + n * day_ns
unfolding add_days
add_days-pos t n = rw (pos-+ℤ (day t) n) (
    rw (date_from_lem (year t) (month t) (day t + n) (t % day_ns) (omega (arith, fields_lem t)))
      (omega (arith, fields_lem t, year_start t)))

pub times_parts :
    (d : ℤ) (n : ℕ) → pos_part (times d n) + neg_part d * n ≡ neg_part (times d n) + pos_part d * n
unfolding times
times_parts d n = ground arith
