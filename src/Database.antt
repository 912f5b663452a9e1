-- ===== src/Database.antt =====
-- What the database storage does before it asks the database, pkg/storage/database_helpers.go and
-- database.go, and the choice of a storage, pkg/storage/factory.go. The database is a parameter: the
-- rows that a query for records gives, or nothing for an error.
pub mod Placeholders
pub mod Backends
pub mod Sql
pub mod Records
pub mod Effects
pub mod Rows
pub mod Removal
pub mod Refines
pub mod DryRun
pub mod Same
pub mod Schema
pub mod Paths
pub mod States
pub mod Logs
use pve_traffic_monitor.Base.{
  ℕ, zero, suc, ◌+◌, ◌-◌, ◌*◌, Bool, true, false, not, ◌&&◌, ◌||◌, List, [], ◌∷◌, ◌++◌, Option,
  none, some, length, ◌==◌, if◌then◌else◌,
}
use pve_traffic_monitor.Base.Float.{Float}
use pve_traffic_monitor.Base.Decimal.{print_int}
use pve_traffic_monitor.Base.Int.{pos, ◌-ℤ◌}
use pve_traffic_monitor.Base.Result.{Result, ok, err}
use pve_traffic_monitor.Base.Text.{Text, codes, text_eq, has_prefix, to_lower}
use pve_traffic_monitor.Clock.{Time, minute_ns, year, month, day, hour, date, add_time, is_zero}
use pve_traffic_monitor.Models.{PeriodType, Direction, TrafficRecord, TrafficStats}
use pve_traffic_monitor.Period.{calculate_creation_based_period_start}
use pve_traffic_monitor.Traffic.{build_traffic_stats}
use pve_traffic_monitor.Validation.{StorageConfig}

abbrev pub dollar : ℕ → Text
dollar n = b'$' ∷ print_int n

abbrev pub question_mark : Text
question_mark = b'?' ∷ []

unfoldable pub get_placeholder : Bool → ℕ → Text
get_placeholder is_postgres index = if is_postgres then dollar index else question_mark

unfoldable pub placeholders_from : Bool → ℕ → ℕ → List Text
placeholders_from is_postgres i zero = []
placeholders_from is_postgres i (suc n) =
    get_placeholder is_postgres (i + 1) ∷ placeholders_from is_postgres (i + 1) n

unfoldable pub get_placeholders : Bool → ℕ → List Text
get_placeholders is_postgres count = placeholders_from is_postgres 0 count

abbrev pub drop_bytes : ℕ → Text → Text
drop_bytes zero s = s
drop_bytes (suc n) [] = []
drop_bytes (suc n) (c ∷ s) = drop_bytes n s

-- The loop over the positions of the text; n occurrences are still to be found.
unfoldable pub replace_nth_occurrence : Text → Text → ℕ → Text → Text
replace_nth_occurrence old new n [] = []
replace_nth_occurrence old new n (c ∷ s) =
    let later = c ∷ replace_nth_occurrence old new (n - 1) s in
    let same = c ∷ replace_nth_occurrence old new n s in
    if has_prefix (c ∷ s) old
    then if n == 1 then new ++ drop_bytes (length old) (c ∷ s) else later
    else same

-- The loop from argCount down to 1.
unfoldable pub replace_all : ℕ → Text → Text
replace_all zero result = result
replace_all (suc i) result =
    replace_all i (replace_nth_occurrence question_mark (dollar (suc i)) (suc i) result)

unfoldable pub build_query : Bool → Text → ℕ → Text
build_query is_postgres query arg_count = if is_postgres then replace_all arg_count query else query

abbrev pub Rows : Type 0
Rows = ℕ → Time → Time → Option (List TrafficRecord)

-- The switch on the period.
abbrev pub fixed_start : PeriodType → Time → Option Time
fixed_start PeriodType.minute now = some (add_time now (pos 0 -ℤ pos (2 * minute_ns)))
fixed_start PeriodType.hour now = some (date (year now) (month now) (day now) (hour now) 0)
fixed_start PeriodType.day now = some (date (year now) (month now) (day now) 0 0)
fixed_start PeriodType.month now = some (date (year now) (month now) 1 0 0)
fixed_start (PeriodType.other word) now = none

abbrev pub start_of : PeriodType → Time → Bool → Time → Option Time
start_of period creation use_creation_time now =
    if use_creation_time && not (is_zero creation)
    then some (calculate_creation_based_period_start period creation now)
    else fixed_start period now

module _ (fl : Float) (rows : Rows) where
  abbrev pub stats_of_rows :
      ℕ
      → PeriodType
      → Time
      → Time
      → Direction
      → Option (List TrafficRecord)
      → Option (TrafficStats fl.F)
  stats_of_rows vmid period start now direction none = none
  stats_of_rows vmid period start now direction (some records) =
      some (build_traffic_stats fl vmid period start now direction records)

  abbrev pub stats_from :
      ℕ → PeriodType → Time → Direction → Option Time → Option (TrafficStats fl.F)
  stats_from vmid period now direction none = none
  stats_from vmid period now direction (some start) =
      stats_of_rows vmid period start now direction (rows vmid start now)

  unfoldable pub calculate_traffic_stats_with_direction :
      Time → ℕ → PeriodType → Time → Bool → Direction → Option (TrafficStats fl.F)
  calculate_traffic_stats_with_direction now vmid period creation use_creation_time direction =
      stats_from vmid period now direction (start_of period creation use_creation_time now)

pub data Backend : Type 0 where
  file_storage : Text → Backend
  database : Text → Text → Backend

pub data FactoryError : Type 0 where
  no_config no_path no_dsn unknown_type : FactoryError

abbrev pub with_dsn : Text → Text → Result FactoryError Backend
with_dsn driver dsn = if text_eq dsn [] then err no_dsn else ok (database driver dsn)

abbrev pub new_from : Text → StorageConfig → Result FactoryError Backend
new_from kind c =
    if text_eq kind (codes "file") || text_eq kind []
    then (if text_eq c.file_path [] then err no_path else ok (file_storage c.file_path))
    else if text_eq kind (codes "mysql")
    then with_dsn (codes "mysql") c.dsn
    else if text_eq kind (codes "postgres") || text_eq kind (codes "postgresql")
    then with_dsn (codes "postgres") c.dsn
    else if text_eq kind (codes "sqlite") || text_eq kind (codes "sqlite3")
    then with_dsn (codes "sqlite3") c.dsn
    else err unknown_type

unfoldable pub new_storage_from_config : Option StorageConfig → Result FactoryError Backend
new_storage_from_config none = err no_config
new_storage_from_config (some c) = new_from (to_lower c.storage_type) c

abbrev pub validate_from : Text → StorageConfig → Result FactoryError (Unit {0})
validate_from kind c =
    if text_eq kind (codes "file") || text_eq kind []
    then (if text_eq c.file_path [] then err no_path else ok tt)
    else if text_eq kind (codes "mysql")
        || text_eq kind (codes "postgres")
        || text_eq kind (codes "postgresql")
        || text_eq kind (codes "sqlite")
        || text_eq kind (codes "sqlite3")
    then (if text_eq c.dsn [] then err no_dsn else ok tt)
    else err unknown_type

unfoldable pub validate_storage_config : Option StorageConfig → Result FactoryError (Unit {0})
validate_storage_config none = err no_config
validate_storage_config (some c) = validate_from (to_lower c.storage_type) c
