-- ===== src/Tests/Traffics.antt =====
-- Readings with restarts, and their buckets.
use pve_traffic_monitor.Base.{
  ℕ, ◌+◌, ◌*◌, ◌/◌, ◌%◌, ◌≤◌, ◌≡◌, refl, List, [], ◌∷◌, ltb, leb, ◌==◌, none, some, arith,
}
use pve_traffic_monitor.Base.Int.{◌+ℤ◌, ◌-ℤ◌}
use pve_traffic_monitor.Base.Float.{Float}
use pve_traffic_monitor.Clock.{
  Time, minute_ns, hour_ns, is_leap, month_length, month_start, find_month, month_index, year,
  month, day, hour, minute, date_from, date,
}
use pve_traffic_monitor.Models.{PeriodType, TrafficRecord}
use pve_traffic_monitor.Traffic.{
  u64_mod, advance, scan_records, close_segment, calculate_traffic, increment, bucket, add_to_group,
  group_records, insert_point, sort_points, aggregate_traffic_by_period,
}
use pve_traffic_monitor.Traffic.Restart.{calculate_traffic-moved}
use pve_traffic_monitor.Traffic.Stats.{calculate_traffic_grows}
use pve_traffic_monitor.Traffic.Aggregate.{rx_sum, tx_sum, aggregate_total}
use pve_traffic_monitor.Traffic.Order.{IsAscending, aggregate_traffic_by_period-IsAscending}

abbrev reading : Time → ℕ → ℕ → TrafficRecord
reading t rx tx = record {
  vmid = 100;
  timestamp = t;
  rx_bytes = rx;
  tx_bytes = tx;
  total_bytes = rx + tx;
}

abbrev first : TrafficRecord
first = reading minute_ns 0 0

-- The second example of the comment in calc.go: a restart between the fourth and the fifth record.
abbrev rest : List TrafficRecord
rest =
    reading (2 * minute_ns) 100 50
    ∷ reading (3 * minute_ns) 200 120
    ∷ reading (hour_ns + minute_ns) 300 180
    ∷ reading (hour_ns + 2 * minute_ns) 50 30
    ∷ reading (hour_ns + 3 * minute_ns) 150 100
    ∷ []

restarted : calculate_traffic 100 (first ∷ rest) ≡ (450, 280)
unfolding calculate_traffic scan_records advance close_segment
restarted = refl

hourly_points :
    aggregate_traffic_by_period (first ∷ rest) PeriodType.hour
    ≡ record { timestamp = 0; rx_bytes = 200; tx_bytes = 120; total_bytes = 320 }
      ∷ record { timestamp = hour_ns; rx_bytes = 250; tx_bytes = 160; total_bytes = 410 }
      ∷ []
unfolding aggregate_traffic_by_period group_records add_to_group sort_points insert_point increment
    bucket date date_from year month day hour minute month_index find_month month_start month_length
    is_leap ◌+ℤ◌ ◌-ℤ◌
hourly_points = refl

calculate_traffic-moved_example :
    ((calculate_traffic 100 (first ∷ rest)).0 ≡ 450)
    × ((calculate_traffic 100 (first ∷ rest)).1 ≡ 280)
calculate_traffic-moved_example = calculate_traffic-moved 100 first rest (omega arith) (omega arith)

calculate_traffic_grows_example :
    ((calculate_traffic 100 (first ∷ [])).0 ≤ (calculate_traffic 100 (first ∷ rest)).0)
    × ((calculate_traffic 100 (first ∷ [])).1 ≤ (calculate_traffic 100 (first ∷ rest)).1)
calculate_traffic_grows_example =
    calculate_traffic_grows 100 first [] rest (omega arith) (omega arith) (omega arith)
      (omega arith)

aggregate_total_example :
    let points = aggregate_traffic_by_period (first ∷ rest) PeriodType.hour in
    let total = calculate_traffic 100 (first ∷ rest) in
    (rx_sum points % u64_mod ≡ total.0) × (tx_sum points % u64_mod ≡ total.1)
aggregate_total_example = aggregate_total 100 PeriodType.hour first rest (omega arith) (omega arith)

aggregate_traffic_by_period-IsAscending_example :
    IsAscending (aggregate_traffic_by_period (first ∷ rest) PeriodType.hour)
aggregate_traffic_by_period-IsAscending_example =
    aggregate_traffic_by_period-IsAscending (first ∷ rest) PeriodType.hour

-- Numbers for floats: a GB is a unit of 2^30, rounded down.
abbrev pub whole : Float
whole = record {
  F = ℕ;
  of_ℕ = λ n. n;
  div = λ a b. a / b;
  lt = ltb;
  le = leb;
  eq = ◌==◌;
  print2 = λ n. n ∷ [];
  parse = λ s. elim s [ [] ↦ none | n ∷ _ ↦ some n ];
}
