-- ===== src/Database/Backends.antt =====
-- The checks of the two functions that read a storage's configuration, and the statistics of the two
-- storages.
use pve_traffic_monitor.Base.{
  ℕ, ◌≡◌, refl, ap, ◌∙◌, Bool, not, ◌&&◌, Option, none, some, arith, if◌then◌else◌,
}
use pve_traffic_monitor.Base.Float.{Float}
use pve_traffic_monitor.Base.Result.{ok, ◌>>=◌}
use pve_traffic_monitor.Clock.{Time, is_zero}
use pve_traffic_monitor.Models.{PeriodType, Direction}
use pve_traffic_monitor.Validation.{StorageConfig}
use pve_traffic_monitor.Storage.{FileStorage, get_traffic_records}
use pve_traffic_monitor.Storage.Stats.{calculate_period_start, IsRulePeriod}
use pve_traffic_monitor.Storage.Stats
use pve_traffic_monitor.Database.{
  Rows, fixed_start, start_of, stats_of_rows, stats_from, calculate_traffic_stats_with_direction,
  new_storage_from_config, validate_storage_config,
}

-- ValidateStorageConfig finds the error that NewStorageFromConfig would return before it opens a
-- storage, and none otherwise.
pub validate_storage_config-new_storage_from_config :
    (config : Option StorageConfig)
    → validate_storage_config config ≡ (new_storage_from_config config >>= λ backend. ok tt)
unfolding validate_storage_config new_storage_from_config
validate_storage_config-new_storage_from_config none = refl
validate_storage_config-new_storage_from_config (some c) = ground arith

fixed_start-fixed_start :
    (fl : Float) (period : PeriodType) (now : Time)
    → IsRulePeriod fl period
    → fixed_start period now ≡ Stats.fixed_start period now
fixed_start-fixed_start fl PeriodType.hour now h = refl
fixed_start-fixed_start fl PeriodType.day now h = refl
fixed_start-fixed_start fl PeriodType.month now h = refl
fixed_start-fixed_start fl PeriodType.minute now h = elim h [ ]
fixed_start-fixed_start fl (PeriodType.other word) now h = elim h [ ]

start_of-start_of :
    (fl : Float) (period : PeriodType) (creation : Time) (use_creation_time : Bool) (now : Time)
    → IsRulePeriod fl period
    → start_of period creation use_creation_time now
      ≡ Stats.start_of period creation use_creation_time now
unfolding calculate_period_start
start_of-start_of fl period creation use_creation_time now h =
    ap
      (λ fixed.
        if use_creation_time && not (is_zero creation)
        then some (calculate_period_start period creation now)
        else fixed)
      (fixed_start-fixed_start fl period now h)

stats_from-stats_from :
    (fl : Float) (rows : Rows) (s : FileStorage) (now : Time) (vmid : ℕ) (period : PeriodType)
    (direction : Direction) (start : Option Time)
    → ((t : Time) → rows vmid t now ≡ some (get_traffic_records vmid t now s))
    → stats_from fl rows vmid period now direction start
      ≡ Stats.stats_from fl vmid period now direction s start
stats_from-stats_from fl rows s now vmid period direction none h = refl
stats_from-stats_from fl rows s now vmid period direction (some start) h =
    ap (stats_of_rows fl rows vmid period start now direction) (h start)

-- A database that answers with the records that the file storage has gives the same statistics for
-- the periods of rules, and the same for the creation time.
pub calculate_traffic_stats_agree :
    (fl : Float) (rows : Rows) (s : FileStorage) (now : Time) (vmid : ℕ) (period : PeriodType)
    (creation : Time) (use_creation_time : Bool) (direction : Direction)
    → IsRulePeriod fl period
    → ((t : Time) → rows vmid t now ≡ some (get_traffic_records vmid t now s))
    → calculate_traffic_stats_with_direction fl rows now vmid period creation use_creation_time
        direction
      ≡ Stats.calculate_traffic_stats_with_direction fl now vmid period creation use_creation_time
          direction s
unfolding calculate_traffic_stats_with_direction Stats.calculate_traffic_stats_with_direction
calculate_traffic_stats_agree fl rows s now vmid period creation use_creation_time direction h
      same =
    ap (stats_from fl rows vmid period now direction)
      (start_of-start_of fl period creation use_creation_time now h)
    ∙ stats_from-stats_from fl rows s now vmid period direction _ same
