-- ===== src/Api/Figures.antt =====
-- The server's own figures: getStats of the measurements, and handleSystemStats of pkg/api/server.go.
-- Durations are in nanoseconds and shown in whole milliseconds.
use pve_traffic_monitor.Base.{
  ℕ, ◌+◌, ◌/◌, List, [], ◌∷◌, length, Option, none, some, ltb, if◌then◌else◌,
}
use pve_traffic_monitor.Base.Float.{Float}
use pve_traffic_monitor.Base.Int.{ℤ, pos}
use pve_traffic_monitor.Base.Text.{Text}
use pve_traffic_monitor.Clock.{Time}
use pve_traffic_monitor.Api.{PerformanceStats, Entries, get_cache_stats}

-- d.Milliseconds()
abbrev pub milliseconds : ℕ → ℕ
milliseconds d = d / 1000000

abbrev pub sum : List ℕ → ℕ
sum [] = 0
sum (d ∷ ds) = d + sum ds

pub record PerformanceFigures (F : Type 0) : Type 0 where
  pub total_requests : ℕ
  pub avg_response_ms : F
  pub recent100_avg_ms : F
  pub max_response_ms : ℕ
  pub min_response_ms : ℕ

pub record SystemStats (F : Type 0) : Type 0 where
  pub total_records : ℤ
  pub api_performance : PerformanceFigures F
  pub cache_total : ℕ
  pub cache_expired : ℕ
  pub storage_type : Text
  pub monitor_interval : ℤ
  pub data_retention : ℤ

abbrev pub or_zero : Option ℤ → ℤ
or_zero none = pos 0
or_zero (some n) = n

module _ (fl : Float) where
  abbrev pub average : ℕ → ℕ → fl.F
  average total count =
      if ltb 0 count then fl.div (fl.of_ℕ (milliseconds total)) (fl.of_ℕ count) else fl.of_ℕ 0

  unfoldable pub get_stats : PerformanceStats → PerformanceFigures fl.F
  get_stats p = record {
    total_requests = p.total_requests;
    avg_response_ms = average p.total_duration p.total_requests;
    recent100_avg_ms = average (sum p.request_durations) (length p.request_durations);
    max_response_ms = milliseconds p.max_duration;
    min_response_ms = milliseconds p.min_duration;
  }

  -- The configuration's three values, and the total that the storage gives, or 0 for an error.
  unfoldable pub handle_system_stats :
      {A : Type 0}
      → Time
      → Text
      → ℤ
      → ℤ
      → Option ℤ
      → PerformanceStats
      → Entries A
      → SystemStats fl.F
  handle_system_stats now storage_type monitor_interval data_retention total p entries =
      let cache = get_cache_stats now entries in
      record {
        total_records = or_zero total;
        api_performance = get_stats p;
        cache_total = cache.0;
        cache_expired = cache.1;
        storage_type = storage_type;
        monitor_interval = monitor_interval;
        data_retention = data_retention;
      }
