-- ===== src/Period/Fixed.antt =====
-- Fixed periods: the hour, the day or the month on the clock.
use pve_traffic_monitor.Base.{ℕ, suc, ◌+◌, ◌-◌, ◌*◌, ◌/◌, ◌%◌, ◌≤◌, ◌<◌, ◌≡◌, ap, arith}
use pve_traffic_monitor.Base.Int.{pos, ◌+ℤ◌}
use pve_traffic_monitor.Clock.{
  Time, hour_ns, day_ns, month_start, month_index, year, month, day, hour, date, add_time,
  add_calendar_months,
}
use pve_traffic_monitor.Clock.Months.{
  fields_lem, fields_of_day, year-month, year_start, month_bounds, date_from_lem, add_days-pos,
  month_length_range,
}
use pve_traffic_monitor.Models.{PeriodType}
use pve_traffic_monitor.Period.{get_fixed_period_start, add_period}

pub add_time-pos : (t d : ℕ) → add_time t (pos d) ≡ t + d
unfolding add_time ◌+ℤ◌
add_time-pos t d = ground arith

-- `time.Date` at a time's own month: the day's start, and then hours.
pub date_of_fields :
    (t d h : ℕ)
    → 1 ≤ d
    → date (year t) (month t) d h 0 ≡ (month_start (month_index t) + (d - 1)) * day_ns + h * hour_ns
unfolding date
date_of_fields t d h p =
    omega
      (arith, date_from_lem (year t) (month t) d (h * hour_ns + 0 * 60000000000) p, year_start t)

pub hour_start :
    (t : Time) → date (year t) (month t) (day t) (hour t) 0 ≡ t / day_ns * day_ns + hour t * hour_ns
hour_start t = omega (arith, date_of_fields t (day t) (hour t) (fields_lem t).1, fields_lem t)

pub day_start : (t : Time) → date (year t) (month t) (day t) 0 0 ≡ t / day_ns * day_ns
day_start t = omega (arith, date_of_fields t (day t) 0 (fields_lem t).1, fields_lem t)

pub first_of_month :
    (t : Time) → date (year t) (month t) 1 0 0 ≡ month_start (month_index t) * day_ns
first_of_month t = omega (arith, date_of_fields t 1 0 (omega arith))

-- A month after the first of a month is the first of the next.
pub month_after :
    (s k : ℕ) → s ≡ month_start k * day_ns → add_calendar_months s 1 ≡ month_start (suc k) * day_ns
unfolding add_calendar_months
month_after s k e =
    let f = fields_of_day s k 0 (omega arith) (omega (arith, month_length_range k)) in
    let place : year s * 12 + (month s + 1) - 13 ≡ suc k = omega (arith, year-month s, f) in
    rw (date_from_lem (year s) (month s + 1) (day s) (s % day_ns) (omega (arith, f)))
      (omega (arith, f, ap month_start place))

hour_bounds :
    (t : Time) → (hour t * hour_ns ≤ t % day_ns) × (t % day_ns < hour t * hour_ns + hour_ns)
unfolding hour
hour_bounds t = omega arith

-- The fixed period holds `now`, whatever word the period is, and ends one period after its start.
pub fixed_period_holds :
    (p : PeriodType) (now : Time)
    → let start = get_fixed_period_start p now in (start ≤ now) × (now < add_period p start)
unfolding get_fixed_period_start add_period
fixed_period_holds PeriodType.month now =
    let s = first_of_month now in
    omega (arith, s, month_after _ (month_index now) s, month_bounds now)
fixed_period_holds PeriodType.day now =
    omega (arith, day_start now, add_days-pos (date (year now) (month now) (day now) 0 0) 1)
fixed_period_holds _ now =
    let s = date (year now) (month now) (day now) (hour now) 0 in
    omega (arith, hour_start now, hour_bounds now, add_time-pos s hour_ns)
