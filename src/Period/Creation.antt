-- ===== src/Period/Creation.antt =====
-- Periods that start from the creation time.
use pve_traffic_monitor.Base.{
  false, leb, Bool-cases, inl, inr, ℕ, ◌+◌, ◌-◌, ◌*◌, ◌%◌, ◌≤◌, ◌<◌, ◌≡◌, ◌==◌, ◌∙◌, arith,
}
use pve_traffic_monitor.Base.Int.{pos, ◌+ℤ◌, ◌-ℤ◌}
use pve_traffic_monitor.Clock.{Time, hour_ns, day_ns, sub_time, times}
use pve_traffic_monitor.Clock.Months.{add_days-pos}
use pve_traffic_monitor.Clock.Hours.{
  hours_of, days_of, whole_hours-pos, whole_days-pos, hours_of_range, hours_of_exact,
  hours_of_below, days_of_range, days_of_exact, days_of_below,
}
use pve_traffic_monitor.Models.{PeriodType}
use pve_traffic_monitor.Period.{
  month_period_start, month_period_index, calculate_creation_based_period_start,
  calculate_next_creation_based_period_start,
}
use pve_traffic_monitor.Period.Month.{month_period_holds, month_period_joins}
use pve_traffic_monitor.Period.Fixed.{add_time-pos}

-- A word that names a period of rules.
pub data IsRulePeriod : PeriodType → Type 0 where
  hourly : IsRulePeriod PeriodType.hour
  daily : IsRulePeriod PeriodType.day
  monthly : IsRulePeriod PeriodType.month

-- The nanoseconds by which Duration.Hours may be rounded up to a boundary. Months are counted on the
-- calendar.
abbrev pub rounding : PeriodType → ℕ
rounding PeriodType.month = 0
rounding _ = 3352

sub_time_le : (c now : Time) → c ≤ now → sub_time now c ≡ pos (now - c)
unfolding sub_time ◌-ℤ◌
sub_time_le c now h = ground arith

times_pos : (a n : ℕ) → times (pos a) n ≡ pos (a * n)
unfolding times
times_pos a n = ground arith

module _ (c now : Time) (born : 0 < c) (h : c ≤ now) where
  hour_period :
      calculate_creation_based_period_start PeriodType.hour c now ≡ c + hours_of (now - c) * hour_ns
  unfolding calculate_creation_based_period_start
  hour_period =
      rw
        (
          born_test,
          sub_time_le c now h,
          whole_hours-pos (now - c),
          times_pos (hours_of (now - c)) hour_ns,
        )
        (add_time-pos c (hours_of (now - c) * hour_ns))
    where
      born_test : (c == 0) ≡ false
      born_test = ground arith

  day_period :
      calculate_creation_based_period_start PeriodType.day c now ≡ c + days_of (now - c) * day_ns
  unfolding calculate_creation_based_period_start
  day_period =
      rw (born_test, sub_time_le c now h, whole_days-pos (now - c))
        (add_days-pos c (days_of (now - c)))
    where
      born_test : (c == 0) ≡ false
      born_test = ground arith

  month_period :
      calculate_creation_based_period_start PeriodType.month c now
      ≡ month_period_start c (month_period_index c now)
  unfolding calculate_creation_based_period_start
  month_period = ground arith

  next_hour :
      calculate_next_creation_based_period_start PeriodType.hour c now
      ≡ c + hours_of (now - c) * hour_ns + hour_ns
  unfolding calculate_next_creation_based_period_start
  next_hour = rw (born_test, hour_period) (add_time-pos (c + hours_of (now - c) * hour_ns) hour_ns)
    where
      born_test : (c == 0) ≡ false
      born_test = ground arith

  next_day :
      calculate_next_creation_based_period_start PeriodType.day c now
      ≡ c + days_of (now - c) * day_ns + day_ns
  unfolding calculate_next_creation_based_period_start
  next_day =
      rw (born_test, day_period) (omega (arith, add_days-pos (c + days_of (now - c) * day_ns) 1))
    where
      born_test : (c == 0) ≡ false
      born_test = ground arith

  next_month :
      calculate_next_creation_based_period_start PeriodType.month c now
      ≡ month_period_start c (month_period_index c now +ℤ pos 1)
  unfolding calculate_next_creation_based_period_start
  next_month = ground arith

  creation_period_holds :
      {p : PeriodType}
      → IsRulePeriod p
      → now - c < 0x8000_0000_0000_0000
      → (calculate_creation_based_period_start p c now ≤ now + rounding p)
        × (now < calculate_next_creation_based_period_start p c now)
  creation_period_holds hourly l = elim (Bool-cases (leb ((now - c) % hour_ns + 3353) hour_ns)) [
    | inl e ↦ omega (arith, hour_period, next_hour, hours_of_below (now - c) l (ground arith))
    | inr e ↦
        let late : hour_ns < (now - c) % hour_ns + 3353 = ground arith in
        let range = hours_of_range (now - c) in
        omega (arith, hour_period, next_hour, late, range.0, range.1)
  ]
  creation_period_holds daily l = elim (Bool-cases (leb ((now - c) % day_ns + 3353) day_ns)) [
    | inl e ↦ omega (arith, day_period, next_day, days_of_below (now - c) l (ground arith))
    | inr e ↦
        let late : day_ns < (now - c) % day_ns + 3353 = ground arith in
        let range = days_of_range (now - c) in
        omega (arith, day_period, next_day, late, range.0, range.1)
  ]
  creation_period_holds monthly l =
      let holds = month_period_holds c now h in
      rw (month_period, next_month) (omega (arith, holds.0), holds.1)

-- The period counted from the creation time holds `now` up to the rounding of Duration.Hours: for an
-- hour, a day or a month, and a duration since the creation that Go has, it has started, or for an
-- hour or a day it starts within 3352 nanoseconds, and the next one starts after `now`.
pub creation_period_holds_now :
    (p : PeriodType) (c now : Time)
    → IsRulePeriod p
    → 0 < c
    → c ≤ now
    → now - c < 0x8000_0000_0000_0000
    → (calculate_creation_based_period_start p c now ≤ now + rounding p)
      × (now < calculate_next_creation_based_period_start p c now)
creation_period_holds_now p c now r born h l = creation_period_holds c now born h r l

creation_period_joins :
    (c now : Time) {p : PeriodType}
    → IsRulePeriod p
    → 0 < c
    → c ≤ now
    → let next = calculate_next_creation_based_period_start p c now in
      calculate_creation_based_period_start p c next ≡ next
creation_period_joins c now hourly born h =
    let next = calculate_next_creation_based_period_start PeriodType.hour c now in
    omega (
      arith,
      next_hour c now born h,
      hour_period c next born (omega (arith, next_hour c now born h)),
      hours_of_exact (next - c) (omega (arith, next_hour c now born h)),
    )
creation_period_joins c now daily born h =
    let next = calculate_next_creation_based_period_start PeriodType.day c now in
    omega (
      arith,
      next_day c now born h,
      day_period c next born (omega (arith, next_day c now born h)),
      days_of_exact (next - c) (omega (arith, next_day c now born h)),
    )
creation_period_joins c now monthly born h =
    rw (next_month c now born h) (
      month_period c _ born (omega (arith, month_period_holds c now h))
      ∙ month_period_joins c now h)

-- Periods counted from the creation time join: at the moment that the next one starts, it is the
-- current one, so no time falls between two periods or into both.
pub periods_join :
    (p : PeriodType) (c now : Time)
    → IsRulePeriod p
    → 0 < c
    → c ≤ now
    → let next = calculate_next_creation_based_period_start p c now in
      calculate_creation_based_period_start p c next ≡ next
periods_join p c now r born h = creation_period_joins c now r born h
