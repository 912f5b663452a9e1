-- ===== src/Tests/Exports.antt =====
-- An exported file of a VM, the order of two statistics, and a layout.
use pve_traffic_monitor.Base.{ℕ, ◌*◌, ◌≤◌, ◌≡◌, ◌↔◌, refl, Bool, List, [], ◌∷◌, arith}
use pve_traffic_monitor.Base.Int.{pos_part, ◌-ℤ◌, ◌+ℤ◌}
use pve_traffic_monitor.Base.Text.{codes}
use pve_traffic_monitor.Clock.{
  hour_ns, date, date_from, month_start, year, month_index, find_month, month_length, month, day,
  hour, minute, is_leap,
}
use pve_traffic_monitor.Models.{PeriodType, Direction, TrafficStats}
use pve_traffic_monitor.Traffic.{
  calculate_traffic, aggregate_traffic_by_period, sort_points, group_records, add_to_group,
  insert_point, bucket, increment,
}
use pve_traffic_monitor.Charts.{
  sum_from, JsonData, export_json_data, bytes_for, sorted_stats, chart_layout,
}
use pve_traffic_monitor.Charts.Ranking.{count, IsDescending, sorted_stats-IsDescending}
use pve_traffic_monitor.Charts.Totals.{export_json_data-calculate_traffic}
use pve_traffic_monitor.Charts.Bars.{chart_layout_bounds}
use pve_traffic_monitor.Tests.Storages.{reading}
use pve_traffic_monitor.Tests.Traffics.{whole}

abbrev stats_with : ℕ → ℕ → TrafficStats whole.F
stats_with vmid bytes = record {
  vmid = vmid;
  period = PeriodType.day;
  start_time = 0;
  end_time = hour_ns;
  direction = Direction.both;
  rx_bytes = bytes;
  tx_bytes = 0;
  total_bytes = bytes;
  total_gb = 0;
}

abbrev two_stats : List (TrafficStats whole.F)
two_stats = stats_with 100 3 ∷ stats_with 101 7 ∷ []

sorted_stats-IsDescending_example :
    IsDescending (bytes_for Direction.rx) (sorted_stats Direction.rx two_stats)
    × ((p : TrafficStats whole.F → Bool)
        → count p (sorted_stats Direction.rx two_stats) ≡ count p two_stats)
sorted_stats-IsDescending_example = sorted_stats-IsDescending Direction.rx two_stats

chart_layout_bounds_example :
    (1200 ≤ (chart_layout 134).1)
    × ((chart_layout 134).1 ≤ 3000)
    × ((1 ≤ pos_part (chart_layout 134).0) ↔ (134 ≤ 133))
chart_layout_bounds_example = chart_layout_bounds 133

abbrev exported : JsonData
exported = record {
  vmid = 100;
  vm_name = codes "web";
  start_time = hour_ns;
  end_time = 2 * hour_ns;
  data_points = 1;
  records = record { timestamp = 2 * hour_ns; rx_bytes = 4; tx_bytes = 0; total_bytes = 4 } ∷ [];
  summary = record { total_rx_bytes = 4; total_tx_bytes = 0; total_bytes = 4 };
}

export_json_data-calculate_traffic_example :
    (4 ≡ (calculate_traffic 100 (reading 100 hour_ns 5 ∷ reading 100 (2 * hour_ns) 9 ∷ [])).0)
    × (0 ≡ (calculate_traffic 100 (reading 100 hour_ns 5 ∷ reading 100 (2 * hour_ns) 9 ∷ [])).1)
unfolding export_json_data sum_from aggregate_traffic_by_period sort_points group_records
    add_to_group insert_point bucket increment date date_from ◌-ℤ◌ ◌+ℤ◌ month_start year month_index
    find_month month_length month day hour minute is_leap
export_json_data-calculate_traffic_example =
    export_json_data-calculate_traffic 100 (codes "web") (reading 100 hour_ns 5)
      (reading 100 (2 * hour_ns) 9 ∷ []) hour_ns (2 * hour_ns) exported
      (record { rx = omega arith; tx = omega arith })
      (record { rx = omega arith; tx = omega arith }, tt) refl
