-- ===== src/Period/Current.antt =====
-- The methods of `Calculator`, and their agreement with the recovery time.
use pve_traffic_monitor.Base.{◌-◌, ◌≤◌, ◌<◌, ◌≡◌, true, arith}
use pve_traffic_monitor.Clock.{Time}
use pve_traffic_monitor.Period.{
  Calculator, get_current_period_start, get_next_period_start, get_period_range,
  is_in_current_period,
}
use pve_traffic_monitor.Period.Fixed.{fixed_period_holds}
use pve_traffic_monitor.Period.Creation.{IsRulePeriod, creation_period_holds_now}

-- The period that a calculator gives holds the time at which it is asked, if the calculator goes by
-- the clock, or counts a rule's period from a creation time that has passed, and rounding has not
-- moved the period's start after the time.
pub current_period_holds :
    (c : Calculator) (now : Time)
    → IsRulePeriod c.period_type
    → c.creation_time ≤ now
    → now - c.creation_time < 0x8000_0000_0000_0000
    → get_current_period_start c now ≤ now
    → is_in_current_period c now now now now ≡ true
unfolding is_in_current_period get_period_range get_current_period_start get_next_period_start
current_period_holds c now r h l begun = ground (
  arith,
  fixed_period_holds c.period_type now,
  creation_period_holds_now c.period_type c.creation_time now r,
)
