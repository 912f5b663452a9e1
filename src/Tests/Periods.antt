-- ===== src/Tests/Periods.antt =====
-- Periods on the calendar.
use pve_traffic_monitor.Base.{◌+◌, ◌-◌, ◌*◌, ◌≤◌, ◌<◌, ◌≡◌, refl, true, arith}
use pve_traffic_monitor.Base.Int.{pos, negsuc, ◌+ℤ◌, ◌-ℤ◌, quot_ℤ, rem_ℤ}
use pve_traffic_monitor.Clock.{
  Time, hour_ns, is_leap, month_length, month_start, find_month, month_index, year, month, day,
  hour, minute, date_from, date, sub_time, add_time, times, add_days, add_calendar_months,
}
use pve_traffic_monitor.Base.Binary64.{pow2, quotient, truncate, round_div, scale_of}
use pve_traffic_monitor.Clock.Hours.{hours, hours_of}
use pve_traffic_monitor.Models.{PeriodType}
use pve_traffic_monitor.Period.{
  Calculator, min_int, days_in_month, add_months, month_period_start, month_period_index,
  calculate_creation_based_period_start, calculate_next_creation_based_period_start,
  get_fixed_period_start, add_period,
}
use pve_traffic_monitor.Period.Creation.{hourly, daily, creation_period_holds_now, periods_join}

all_open : Unit {0}
unfolding is_leap month_length month_start find_month month_index year month day hour minute
    date_from date sub_time add_time times add_days add_calendar_months min_int days_in_month
    add_months month_period_start month_period_index calculate_creation_based_period_start
    calculate_next_creation_based_period_start get_fixed_period_start add_period ◌+ℤ◌ ◌-ℤ◌ quot_ℤ
    rem_ℤ
all_open = tt

leap_february : days_in_month 2024 2 ≡ 29
unfolding all_open
leap_february = refl

-- A VM of January 31 has its period of March 2024 from February 29 at 10:30.
abbrev born : Time
born = 63_842_300_645_000_000_000

abbrev later : Time
later = 63_845_000_000_000_000_000

clamped_month :
    calculate_creation_based_period_start PeriodType.month
      (date 2024 1 31 10 30)
      (date 2024 3 5 0 0)
    ≡ date 2024 2 29 10 30
unfolding all_open
clamped_month = refl

back_over_a_year : add_months 2024 1 (negsuc 0) ≡ (pos 2023, 12)
unfolding all_open
back_over_a_year = refl

-- An hour before its end is rounded down in the first hour and up in a later one.
in_first_hour : hours_of (hour_ns - 1) ≡ 0
unfolding hours_of hours quotient truncate round_div scale_of pow2
in_first_hour = refl

in_later_hour : hours_of (10000 * hour_ns - 1) ≡ 10000
unfolding hours_of hours quotient truncate round_div scale_of pow2
in_later_hour = refl

abbrev just_before : Time
just_before = born + (10000 * hour_ns - 1)

creation_period_holds_now_example :
    (calculate_creation_based_period_start PeriodType.hour born just_before ≤ just_before + 3352)
    × (just_before < calculate_next_creation_based_period_start PeriodType.hour born just_before)
creation_period_holds_now_example =
    creation_period_holds_now PeriodType.hour born just_before hourly (omega arith) (omega arith)
      (omega arith)

periods_join_example :
    let next = calculate_next_creation_based_period_start PeriodType.day born later in
    calculate_creation_based_period_start PeriodType.day born next ≡ next
periods_join_example = periods_join PeriodType.day born later daily (omega arith) (omega arith)

abbrev by_the_hour : Calculator
by_the_hour = record {
  period_type = PeriodType.hour;
  creation_time = born;
  use_creation_time = true;
}
