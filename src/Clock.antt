-- ===== src/Clock.antt =====
-- What the program uses of Go's package `time`. A time is the number of nanoseconds since the zero
-- `time.Time` (January 1 of year 1), read in one location with a fixed offset: days have 24 hours,
-- as in UTC, and changes to summer time are not modelled. Calendar fields are found by walking
-- the months from the first; `month_index` counts them from 0.
pub mod Months
pub mod Hours
use pve_traffic_monitor.Base.{
  ℕ, zero, suc, ◌+◌, ◌-◌, ◌*◌, ◌/◌, ◌%◌, Bool, not, ◌&&◌, ◌||◌, ltb, ◌==◌, if◌then◌else◌,
}
use pve_traffic_monitor.Base.Int.{ℤ, pos, pos_part, neg_part, sub_ℕ, ◌+ℤ◌, ◌-ℤ◌}

abbrev pub Time : Type 0
Time = ℕ

abbrev pub second_ns : ℕ
second_ns = 1_000_000_000

abbrev pub minute_ns : ℕ
minute_ns = 60_000_000_000

abbrev pub hour_ns : ℕ
hour_ns = 3_600_000_000_000

abbrev pub day_ns : ℕ
day_ns = 86_400_000_000_000

unfoldable pub is_leap : ℕ → Bool
is_leap y = (y % 4 == 0) && (not (y % 100 == 0) || (y % 400 == 0))

-- The days of the month with index k, of year k / 12 + 1.
unfoldable pub month_length : ℕ → ℕ
month_length k =
    if k % 12 == 1
    then (if is_leap (k / 12 + 1) then 29 else 28)
    else if (k % 12 == 3) || (k % 12 == 5) || (k % 12 == 8) || (k % 12 == 10)
    then 30
    else 31

-- The day number at which a month starts.
unfoldable pub month_start : ℕ → ℕ
month_start zero = 0
month_start (suc k) = month_start k + month_length k

-- The month that holds the n-th day from the start of month k, and the day's place in it.
unfoldable pub find_month : ℕ → ℕ → ℕ → ℕ × ℕ
find_month zero k n = (k, n)
find_month (suc fuel) k n =
    let later = find_month fuel (suc k) (n - month_length k) in
    if ltb n (month_length k) then (k, n) else later

unfoldable pub month_index : Time → ℕ
month_index t = (find_month (suc (t / day_ns)) 0 (t / day_ns)).0

-- t.Year(), t.Month(), t.Day(), t.Hour(), t.Minute()
unfoldable pub year : Time → ℕ
year t = month_index t / 12 + 1

unfoldable pub month : Time → ℕ
month t = month_index t % 12 + 1

unfoldable pub day : Time → ℕ
day t = (find_month (suc (t / day_ns)) 0 (t / day_ns)).1 + 1

unfoldable pub hour : Time → ℕ
hour t = t % day_ns / hour_ns

unfoldable pub minute : Time → ℕ
minute t = t % hour_ns / minute_ns

-- time.Date(y, m, d, …) at ns nanoseconds from the start of the day. A month or a day past its range
-- carries over, and day 0 is the last day of the month before. Times before year 1 do not arise.
unfoldable pub date_from : ℕ → ℕ → ℤ → ℕ → Time
date_from y m d ns = pos_part (pos (month_start (y * 12 + m - 13)) +ℤ d -ℤ pos 1) * day_ns + ns

-- time.Date(y, m, d, h, mi, 0, 0, location), where an hour past its range carries over.
unfoldable pub date : ℕ → ℕ → ℕ → ℕ → ℕ → Time
date y m d h mi = date_from y m (pos d) (h * hour_ns + mi * minute_ns)

-- t.IsZero()
abbrev pub is_zero : Time → Bool
is_zero t = t == 0

-- t.Before(u), t.After(u)
abbrev pub before : Time → Time → Bool
before t u = ltb t u

abbrev pub after : Time → Time → Bool
after t u = ltb u t

-- t.Sub(u), for times at most 292 years apart, and t.Add(d)
unfoldable pub sub_time : Time → Time → ℤ
sub_time t u = pos t -ℤ pos u

unfoldable pub add_time : Time → ℤ → Time
add_time t d = pos_part (pos t +ℤ d)

-- d * n
unfoldable pub times : ℤ → ℕ → ℤ
times d n = sub_ℕ (pos_part d * n) (neg_part d * n)

-- t.AddDate(0, 0, n), and t.AddDate(0, n, 0) for n ≥ 0: the fields are added to, and carry over.
unfoldable pub add_days : Time → ℤ → Time
add_days t n = date_from (year t) (month t) (pos (day t) +ℤ n) (t % day_ns)

unfoldable pub add_calendar_months : Time → ℕ → Time
add_calendar_months t n = date_from (year t) (month t + n) (pos (day t)) (t % day_ns)
