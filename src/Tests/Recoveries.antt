-- ===== src/Tests/Recoveries.antt =====
-- When changes are undone.
use pve_traffic_monitor.Base.{◌*◌, ◌<◌, ◌≡◌, refl, true, false}
use pve_traffic_monitor.Clock.{day_ns}
use pve_traffic_monitor.Models.{PeriodType}
use pve_traffic_monitor.Period.{get_next_period_start}
use pve_traffic_monitor.Recovery.{calculate_recovery_time}
use pve_traffic_monitor.Recovery.Due.{calculate_recovery_time_lem}

calculate_recovery_time_example :
    (calculate_recovery_time PeriodType.month true (3 * day_ns) (40 * day_ns)
      ≡ get_next_period_start
          (record {
            period_type = PeriodType.month;
            creation_time = 3 * day_ns;
            use_creation_time = true;
          })
          (40 * day_ns)
          (40 * day_ns))
    × (40 * day_ns < calculate_recovery_time PeriodType.month false (3 * day_ns) (40 * day_ns))
calculate_recovery_time_example =
    calculate_recovery_time_lem PeriodType.month true (3 * day_ns) (40 * day_ns) refl
