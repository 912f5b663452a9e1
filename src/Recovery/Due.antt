-- ===== src/Recovery/Due.antt =====
-- When a change is undone.
use pve_traffic_monitor.Base.{
  suc, ◌+◌, ◌-◌, ◌*◌, ◌<◌, ◌≡◌, ap, Bool, true, false, not, ◌&&◌, arith, if◌then◌else◌,
}
use pve_traffic_monitor.Base.Int.{pos}
use pve_traffic_monitor.Clock.{
  Time, hour_ns, is_zero, year, month, day, hour, date, month_index, month_start, add_time,
}
use pve_traffic_monitor.Clock.Months.{fields_lem, add_days-pos, date_from_lem, year-month}
use pve_traffic_monitor.Models.{PeriodType}
use pve_traffic_monitor.Period.{
  get_fixed_period_start, get_current_period_start, get_next_period_start, add_period,
  calculate_next_creation_based_period_start,
}
use pve_traffic_monitor.Period.Fixed.{
  fixed_period_holds, date_of_fields, month_after, hour_start, day_start, first_of_month,
  add_time-pos,
}
use pve_traffic_monitor.Recovery.{calculate_recovery_time}
use pve_traffic_monitor.Validation.{is_rule_period}

next_hour :
    (now : Time)
    → date (year now) (month now) (day now) (hour now + 1) 0
      ≡ add_time (date (year now) (month now) (day now) (hour now) 0) (pos hour_ns)
next_hour now = omega (
  arith,
  date_of_fields now (day now) (hour now + 1) (fields_lem now).1,
  hour_start now,
  fields_lem now,
  add_time-pos (date (year now) (month now) (day now) (hour now) 0) hour_ns,
)

next_day :
    (now : Time)
    → date (year now) (month now) (day now + 1) 0 0
      ≡ add_period PeriodType.day (get_fixed_period_start PeriodType.day now)
unfolding get_fixed_period_start add_period
next_day now = omega (
  arith,
  date_of_fields now (day now + 1) 0 (omega arith),
  day_start now,
  fields_lem now,
  date_of_fields now (day now) 0 (fields_lem now).1,
  add_days-pos (date (year now) (month now) (day now) 0 0) 1,
)

next_month :
    (now : Time)
    → date (year now) (month now + 1) 1 0 0
      ≡ add_period PeriodType.month (get_fixed_period_start PeriodType.month now)
unfolding get_fixed_period_start add_period date
next_month now =
    let place : year now * 12 + (month now + 1) - 13 ≡ suc (month_index now) =
      omega (arith, year-month now) in
    omega (
      arith,
      date_from_lem (year now) (month now + 1) 1 (0 * hour_ns + 0 * 60000000000) (omega arith),
      ap month_start place,
      month_after _ (month_index now) (first_of_month now),
    )

same_next :
    (p : PeriodType) (use_creation : Bool) (creation now fixed : Time)
    → fixed ≡ add_period p (get_fixed_period_start p now)
    → ((if use_creation && not (is_zero creation)
          then calculate_next_creation_based_period_start p creation now
          else fixed)
        ≡ get_next_period_start
            (record { period_type = p; creation_time = creation; use_creation_time = use_creation })
            now
            now)
      × (now < fixed)
unfolding get_next_period_start get_current_period_start
same_next p true creation now fixed e = (ground arith, omega (arith, e, fixed_period_holds p now))
same_next p false creation now fixed e = (e, omega (arith, e, fixed_period_holds p now))

next_hour_period :
    (now : Time)
    → date (year now) (month now) (day now) (hour now + 1) 0
      ≡ add_period PeriodType.hour (get_fixed_period_start PeriodType.hour now)
unfolding get_fixed_period_start add_period
next_hour_period now = next_hour now

-- The time of recovery that a rule's period gives is the start of the period after the one in which
-- the rule's traffic is counted, for fixed periods and for those from the VM's creation; a fixed one
-- is later than now.
pub calculate_recovery_time_lem :
    (p : PeriodType) (use_creation : Bool) (creation now : Time)
    → is_rule_period p ≡ true
    → (calculate_recovery_time p use_creation creation now
        ≡ get_next_period_start
            (record { period_type = p; creation_time = creation; use_creation_time = use_creation })
            now
            now)
      × (now < calculate_recovery_time p false creation now)
unfolding calculate_recovery_time
calculate_recovery_time_lem PeriodType.hour b creation now h =
    same_next PeriodType.hour b creation now _ (next_hour_period now)
calculate_recovery_time_lem PeriodType.day b creation now h =
    same_next PeriodType.day b creation now _ (next_day now)
calculate_recovery_time_lem PeriodType.month b creation now h =
    same_next PeriodType.month b creation now _ (next_month now)
calculate_recovery_time_lem PeriodType.minute b creation now h = ground arith
calculate_recovery_time_lem (PeriodType.other s) b creation now h = ground arith
