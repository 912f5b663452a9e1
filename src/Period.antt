-- ===== src/Period.antt =====
-- pkg/period/calculator.go. The clock is read by argument: a method takes one time for each call of
-- `time.Now` that it makes, in order.
pub mod Month
pub mod Fixed
pub mod Creation
pub mod Current
use pve_traffic_monitor.Base.{
  ℕ, ◌+◌, ◌-◌, ◌*◌, Bool, not, ◌&&◌, ◌||◌, ltb, leb, ◌==◌, if◌then◌else◌,
}
use pve_traffic_monitor.Base.Int.{ℤ, pos, pos_part, neg_part, is_neg, ◌+ℤ◌, ◌-ℤ◌, quot_ℤ, rem_ℤ}
use pve_traffic_monitor.Clock.{
  Time, hour_ns, year, month, day, hour, minute, date, date_from, is_zero, before, sub_time,
  add_time, times, add_days, add_calendar_months,
}
use pve_traffic_monitor.Clock.Hours.{whole_hours, whole_days}
use pve_traffic_monitor.Models.{PeriodType}

pub record Calculator : Type 0 where
  pub period_type : PeriodType
  pub creation_time : Time
  pub use_creation_time : Bool

unfoldable pub min_int : ℕ → ℕ → ℕ
min_int a b = if ltb a b then a else b

-- The day before the first of the next month.
unfoldable pub days_in_month : ℕ → ℕ → ℕ
days_in_month y m = day (date_from y (m + 1) (pos 0) 0)

unfoldable pub add_months : ℕ → ℕ → ℤ → ℤ × ℕ
add_months y m delta =
    let index = pos m -ℤ pos 1 +ℤ delta in
    let r = rem_ℤ index 12 in
    if is_neg r
    then (pos y +ℤ quot_ℤ index 12 -ℤ pos 1, pos_part (r +ℤ pos 12) + 1)
    else (pos y +ℤ quot_ℤ index 12, pos_part r + 1)

unfoldable pub month_period_start : Time → ℤ → Time
month_period_start creation months =
    let (y, m) = add_months (year creation) (month creation) months in
    date (pos_part y) m (min_int (day creation) (days_in_month (pos_part y) m)) (hour creation)
      (minute creation)

unfoldable pub month_period_index : Time → Time → ℤ
month_period_index creation now =
    let months =
      times (pos (year now) -ℤ pos (year creation)) 12
      +ℤ (pos (month now) -ℤ pos (month creation)) in
    if before now (month_period_start creation months) then months -ℤ pos 1 else months

unfoldable pub calculate_creation_based_period_start : PeriodType → Time → Time → Time
calculate_creation_based_period_start p creation now = if is_zero creation then now else elim p [
  | PeriodType.hour ↦ add_time creation (times (whole_hours (sub_time now creation)) hour_ns)
  | PeriodType.day ↦ add_days creation (whole_days (sub_time now creation))
  | PeriodType.month ↦ month_period_start creation (month_period_index creation now)
  | _ ↦ now
]

unfoldable pub calculate_next_creation_based_period_start : PeriodType → Time → Time → Time
calculate_next_creation_based_period_start p creation now =
    let current = calculate_creation_based_period_start p creation now in
    if is_zero creation then now else elim p [
      | PeriodType.hour ↦ add_time current (pos hour_ns)
      | PeriodType.day ↦ add_days current (pos 1)
      | PeriodType.month ↦ month_period_start creation (month_period_index creation now +ℤ pos 1)
      | _ ↦ now
    ]

unfoldable pub get_fixed_period_start : PeriodType → Time → Time
get_fixed_period_start PeriodType.day now = date (year now) (month now) (day now) 0 0
get_fixed_period_start PeriodType.month now = date (year now) (month now) 1 0 0
get_fixed_period_start _ now = date (year now) (month now) (day now) (hour now) 0

unfoldable pub get_current_period_start : Calculator → Time → Time
get_current_period_start c now =
    if not c.use_creation_time || is_zero c.creation_time
    then get_fixed_period_start c.period_type now
    else calculate_creation_based_period_start c.period_type c.creation_time now

-- One more period, of the fixed kind.
unfoldable pub add_period : PeriodType → Time → Time
add_period PeriodType.day start = add_days start (pos 1)
add_period PeriodType.month start = add_calendar_months start 1
add_period _ start = add_time start (pos hour_ns)

unfoldable pub get_next_period_start : Calculator → Time → Time → Time
get_next_period_start c now later =
    let current = get_current_period_start c now in
    if c.use_creation_time && not (is_zero c.creation_time)
    then calculate_next_creation_based_period_start c.period_type c.creation_time later
    else add_period c.period_type current

unfoldable pub get_period_range : Calculator → Time → Time → Time → Time × Time
get_period_range c now₁ now₂ now₃ =
    (get_current_period_start c now₁, get_next_period_start c now₂ now₃)

unfoldable pub is_in_current_period : Calculator → Time → Time → Time → Time → Bool
is_in_current_period c now₁ now₂ now₃ t =
    let (start, end) = get_period_range c now₁ now₂ now₃ in
    (ltb start t || t == start) && before t end
