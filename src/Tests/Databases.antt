-- ===== src/Tests/Databases.antt =====
-- A query with placeholders, and a database with the records of a file storage.
use pve_traffic_monitor.Base.{◌+◌, ◌*◌, ◌≡◌, refl, arith, true, false, some}
use pve_traffic_monitor.Base.Decimal.{print_int, print_at}
use pve_traffic_monitor.Base.Text.{codes, has_prefix}
use pve_traffic_monitor.Clock.{hour_ns, day_ns}
use pve_traffic_monitor.Models.{PeriodType, Direction}
use pve_traffic_monitor.Storage.{get_traffic_records}
use pve_traffic_monitor.Storage.Days.{range}
use pve_traffic_monitor.Storage.Logs.{log_days}
use pve_traffic_monitor.Storage.Logs.Days.{log_days-range}
use pve_traffic_monitor.Storage.Stats
use pve_traffic_monitor.Database.{
  Rows, replace_nth_occurrence, replace_all, build_query, calculate_traffic_stats_with_direction,
}
use pve_traffic_monitor.Database.Placeholders.{numbered, build_query-numbered}
use pve_traffic_monitor.Database.Backends.{calculate_traffic_stats_agree}
use pve_traffic_monitor.Tests.Storages.{filled}
use pve_traffic_monitor.Tests.Traffics.{whole}

two_marks : build_query true (codes "a = ? AND b = ?") 2 ≡ codes "a = $1 AND b = $2"
unfolding build_query replace_all replace_nth_occurrence has_prefix print_int print_at
two_marks = refl

build_query-numbered_example :
    build_query true (codes "a = ? AND b = ?") 2 ≡ numbered 1 2 (codes "a = ? AND b = ?")
build_query-numbered_example = build_query-numbered true (codes "a = ? AND b = ?") 2

abbrev rows : Rows
rows vmid start end = some (get_traffic_records vmid start end filled)

calculate_traffic_stats_agree_example :
    calculate_traffic_stats_with_direction whole rows
      (day_ns + 2 * hour_ns)
      100
      PeriodType.day
      0
      false
      Direction.both
    ≡ Stats.calculate_traffic_stats_with_direction whole
        (day_ns + 2 * hour_ns)
        100
        PeriodType.day
        0
        false
        Direction.both
        filled
calculate_traffic_stats_agree_example =
    calculate_traffic_stats_agree whole rows filled (day_ns + 2 * hour_ns) 100 PeriodType.day 0
      false Direction.both tt (λ t. refl)

-- From two o'clock on a day to one o'clock on the next: only the first of the two days is read.
log_days-range_example : log_days (day_ns + 2 * hour_ns) (2 * day_ns + hour_ns) ≡ range 1 1
log_days-range_example = log_days-range (day_ns + 2 * hour_ns) (2 * day_ns + hour_ns) (omega arith)
