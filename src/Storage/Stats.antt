-- ===== src/Storage/Stats.antt =====
-- The statistics that the file storage makes of its records; `none` is an error.
use pve_traffic_monitor.Base.{
  ℕ, ◌*◌, ◌≡◌, refl, ap, Bool, true, false, not, ◌&&◌, ◌||◌, Option, none, some, inl, inr,
  Bool-cases, arith, if◌then◌else◌,
}
use pve_traffic_monitor.Base.Float.{Float}
use pve_traffic_monitor.Base.Int.{pos, ◌-ℤ◌}
use pve_traffic_monitor.Clock.{Time, minute_ns, year, month, day, hour, date, add_time, is_zero}
use pve_traffic_monitor.Models.{PeriodType, Direction, TrafficStats}
use pve_traffic_monitor.Period.{
  calculate_creation_based_period_start, get_fixed_period_start, get_current_period_start,
}
use pve_traffic_monitor.Traffic.{build_traffic_stats}
use pve_traffic_monitor.Storage.{FileStorage, get_traffic_records}

unfoldable pub calculate_period_start : PeriodType → Time → Time → Time
calculate_period_start period creation now =
    calculate_creation_based_period_start period creation now

-- The switch on the period.
abbrev pub fixed_start : PeriodType → Time → Option Time
fixed_start PeriodType.minute now = some (add_time now (pos 0 -ℤ pos (5 * minute_ns)))
fixed_start PeriodType.hour now = some (date (year now) (month now) (day now) (hour now) 0)
fixed_start PeriodType.day now = some (date (year now) (month now) (day now) 0 0)
fixed_start PeriodType.month now = some (date (year now) (month now) 1 0 0)
fixed_start (PeriodType.other word) now = none

abbrev pub start_of : PeriodType → Time → Bool → Time → Option Time
start_of period creation use_creation_time now =
    if use_creation_time && not (is_zero creation)
    then some (calculate_period_start period creation now)
    else fixed_start period now

module _ (fl : Float) where
  abbrev pub stats_from :
      ℕ → PeriodType → Time → Direction → FileStorage → Option Time → Option (TrafficStats fl.F)
  stats_from vmid period now direction s none = none
  stats_from vmid period now direction s (some start) = some (
      build_traffic_stats fl vmid period start now direction (get_traffic_records vmid start now s))

  unfoldable pub calculate_traffic_stats_with_direction :
      Time → ℕ → PeriodType → Time → Bool → Direction → FileStorage → Option (TrafficStats fl.F)
  calculate_traffic_stats_with_direction now vmid period creation use_creation_time direction s =
      stats_from vmid period now direction s (start_of period creation use_creation_time now)

  unfoldable pub calculate_traffic_stats_with_time :
      Time → ℕ → PeriodType → Time → Bool → FileStorage → Option (TrafficStats fl.F)
  calculate_traffic_stats_with_time now vmid period creation use_creation_time s =
      calculate_traffic_stats_with_direction now vmid period creation use_creation_time
        Direction.both s

  unfoldable pub calculate_traffic_stats :
      Time → ℕ → PeriodType → FileStorage → Option (TrafficStats fl.F)
  calculate_traffic_stats now vmid period s =
      calculate_traffic_stats_with_direction now vmid period 0 false Direction.both s

  -- The period is the word "custom".
  unfoldable pub calculate_traffic_stats_with_time_range :
      ℕ → Time → Time → Direction → PeriodType → FileStorage → TrafficStats fl.F
  calculate_traffic_stats_with_time_range vmid start end direction custom s =
      build_traffic_stats fl vmid custom start end direction (get_traffic_records vmid start end s)

  abbrev pub has_stats : Option (TrafficStats fl.F) → Bool
  has_stats none = false
  has_stats (some stats) = true

  abbrev pub is_known : PeriodType → Bool
  is_known (PeriodType.other word) = false
  is_known _ = true

  fixed_has_stats :
      (now : Time) (vmid : ℕ) (period : PeriodType) (direction : Direction) (s : FileStorage)
      → has_stats (stats_from vmid period now direction s (fixed_start period now))
        ≡ is_known period
  fixed_has_stats now vmid PeriodType.minute direction s = refl
  fixed_has_stats now vmid PeriodType.hour direction s = refl
  fixed_has_stats now vmid PeriodType.day direction s = refl
  fixed_has_stats now vmid PeriodType.month direction s = refl
  fixed_has_stats now vmid (PeriodType.other word) direction s = refl

  -- Statistics are an error exactly where the period is an unknown word and no creation time is used.
  pub calculate_traffic_stats_errors :
      (now : Time) (vmid : ℕ) (period : PeriodType) (creation : Time) (use_creation_time : Bool)
      (direction : Direction) (s : FileStorage)
      → has_stats (
          calculate_traffic_stats_with_direction now vmid period creation use_creation_time
            direction s)
        ≡ (use_creation_time && not (is_zero creation)) || is_known period
  unfolding calculate_traffic_stats_with_direction
  calculate_traffic_stats_errors now vmid period creation use_creation_time direction s =
      elim (Bool-cases (use_creation_time && not (is_zero creation))) [
        | inl e ↦ rw e refl
        | inr e ↦ rw e (fixed_has_stats now vmid period direction s)
      ]

  -- The periods that rules have.
  abbrev pub IsRulePeriod : PeriodType → Type 0
  IsRulePeriod PeriodType.hour = Unit
  IsRulePeriod PeriodType.day = Unit
  IsRulePeriod PeriodType.month = Unit
  IsRulePeriod _ = ⊥

  fixed_start-get_fixed_period_start :
      (period : PeriodType) (now : Time)
      → IsRulePeriod period
      → fixed_start period now ≡ some (get_fixed_period_start period now)
  unfolding get_fixed_period_start
  fixed_start-get_fixed_period_start PeriodType.hour now h = refl
  fixed_start-get_fixed_period_start PeriodType.day now h = refl
  fixed_start-get_fixed_period_start PeriodType.month now h = refl
  fixed_start-get_fixed_period_start PeriodType.minute now h = elim h [ ]
  fixed_start-get_fixed_period_start (PeriodType.other word) now h = elim h [ ]

  start_of-get_current_period_start :
      (now : Time) (period : PeriodType) (creation : Time) (use_creation_time : Bool)
      → IsRulePeriod period
      → start_of period creation use_creation_time now
        ≡ some (
            get_current_period_start
              (record {
                period_type = period;
                creation_time = creation;
                use_creation_time = use_creation_time;
              })
              now)
  unfolding get_current_period_start calculate_period_start
  start_of-get_current_period_start now period creation use_creation_time h =
      ground (arith, fixed_start-get_fixed_period_start period now h)

  -- For a period of a rule, the statistics are those of the VM's records from the start of the
  -- current period, as the period calculator has it, to now.
  pub calculate_traffic_stats-get_current_period_start :
      (now : Time) (vmid : ℕ) (period : PeriodType) (creation : Time) (use_creation_time : Bool)
      (direction : Direction) (s : FileStorage)
      → IsRulePeriod period
      → calculate_traffic_stats_with_direction now vmid period creation use_creation_time direction
          s
        ≡ some (
            calculate_traffic_stats_with_time_range vmid
              (get_current_period_start
                (record {
                  period_type = period;
                  creation_time = creation;
                  use_creation_time = use_creation_time;
                })
                now)
              now
              direction
              period
              s)
  unfolding calculate_traffic_stats_with_direction calculate_traffic_stats_with_time_range
  calculate_traffic_stats-get_current_period_start now vmid period creation use_creation_time
        direction s h =
      ap (stats_from vmid period now direction s)
        (start_of-get_current_period_start now period creation use_creation_time h)
