-- ===== src/Charts.antt =====
-- The data that pkg/chart exports, json.go, chart.go and echarts.go, before a library encodes or draws
-- it: the points and sums of a VM, the order of the statistics of all VMs, the unit of a chart and the
-- widths of its bars.
pub mod Ranking
pub mod Totals
pub mod Bars
use pve_traffic_monitor.Base.{
  ℕ, zero, suc, ◌+◌, ◌*◌, ◌/◌, Bool, true, false, List, [], ◌∷◌, ◌++◌, map, Option, none, some,
  length, ltb, if◌then◌else◌,
}
use pve_traffic_monitor.Base.Float.{Float}
use pve_traffic_monitor.Base.Int.{ℤ, pos, ◌-ℤ◌}
use pve_traffic_monitor.Base.Text.{Text, codes}
use pve_traffic_monitor.Clock.{Time}
use pve_traffic_monitor.Models.{PeriodType, Direction, TrafficRecord, TrafficStats, AggregatedPoint}
use pve_traffic_monitor.Traffic.{add_u64, aggregate_traffic_by_period}

-- `var sum uint64`, and a loop that adds.
unfoldable pub sum_from : {A : Type 0} → (A → ℕ) → ℕ → List A → ℕ
sum_from bytes sum [] = sum
sum_from bytes sum (p ∷ ps) = sum_from bytes (add_u64 sum (bytes p)) ps

abbrev pub sum_of : {A : Type 0} → (A → ℕ) → List A → ℕ
sum_of bytes ps = sum_from bytes 0 ps

pub record Summary : Type 0 where
  pub total_rx_bytes : ℕ
  pub total_tx_bytes : ℕ
  pub total_bytes : ℕ

-- The data of ExportJSONData. Its points are those of hours, whatever period is asked for.
pub record JsonData : Type 0 where
  pub vmid : ℕ
  pub vm_name : Text
  pub start_time : Time
  pub end_time : Time
  pub data_points : ℕ
  pub records : List AggregatedPoint
  pub summary : Summary

abbrev pub points_summary : List AggregatedPoint → Summary
points_summary points = record {
  total_rx_bytes = sum_of (λ p. p.rx_bytes) points;
  total_tx_bytes = sum_of (λ p. p.tx_bytes) points;
  total_bytes = sum_of (λ p. p.total_bytes) points;
}

abbrev pub json_of_points : ℕ → Text → Time → Time → List AggregatedPoint → Option JsonData
json_of_points vmid vm_name start end [] = none
json_of_points vmid vm_name start end (p ∷ ps) = some (record {
  vmid = vmid;
  vm_name = vm_name;
  start_time = start;
  end_time = end;
  data_points = length (p ∷ ps);
  records = p ∷ ps;
  summary = points_summary (p ∷ ps);
})

-- `none` is an error: there are no records, or no points of them.
unfoldable pub export_json_data : ℕ → Text → List TrafficRecord → Time → Time → Option JsonData
export_json_data vmid vm_name [] start end = none
export_json_data vmid vm_name (r ∷ rs) start end =
    json_of_points vmid vm_name start end (aggregate_traffic_by_period (r ∷ rs) PeriodType.hour)

module _ {F : Type 0} where
  -- The bytes that the statistics are sorted by and that a chart shows.
  abbrev pub bytes_for : Direction → TrafficStats F → ℕ
  bytes_for Direction.rx s = s.rx_bytes
  bytes_for Direction.tx s = s.tx_bytes
  bytes_for _ s = s.total_bytes

  -- The inner loop for one i: what stands at place i at its end, and what stands after it. An element
  -- that is larger changes places with the one at i.
  unfoldable pub swap_pass :
      (TrafficStats F → ℕ)
      → TrafficStats F
      → List (TrafficStats F)
      → TrafficStats F × List (TrafficStats F)
  swap_pass bytes x [] = (x, [])
  swap_pass bytes x (y ∷ ys) =
      let swapped = swap_pass bytes y ys in
      let kept = swap_pass bytes x ys in
      if ltb (bytes x) (bytes y) then (swapped.0, x ∷ swapped.1) else (kept.0, y ∷ kept.1)

  -- The outer loop, with the number of elements from place i on.
  unfoldable pub sort_from :
      (TrafficStats F → ℕ) → ℕ → List (TrafficStats F) → List (TrafficStats F)
  sort_from bytes zero stats = []
  sort_from bytes (suc n) [] = []
  sort_from bytes (suc n) (x ∷ xs) =
      let pass = swap_pass bytes x xs in pass.0 ∷ sort_from bytes n pass.1

  unfoldable pub sorted_stats : Direction → List (TrafficStats F) → List (TrafficStats F)
  sorted_stats direction stats = sort_from (bytes_for direction) (length stats) stats

  abbrev pub stats_summary : List (TrafficStats F) → Summary
  stats_summary stats = record {
    total_rx_bytes = sum_of (λ s. s.rx_bytes) stats;
    total_tx_bytes = sum_of (λ s. s.tx_bytes) stats;
    total_bytes = sum_of (λ s. s.total_bytes) stats;
  }

pub record StatsJsonData (F : Type 0) : Type 0 where
  pub direction : Direction
  pub vm_count : ℕ
  pub statistics : List (TrafficStats F)
  pub summary : Summary

unfoldable pub export_stats_json_data :
    {F : Type 0} → List (TrafficStats F) → Direction → Option (StatsJsonData F)
export_stats_json_data [] direction = none
export_stats_json_data (s ∷ ss) direction =
    let stats = sorted_stats direction (s ∷ ss) in
    some (record {
      direction = direction;
      vm_count = length stats;
      statistics = stats;
      summary = stats_summary stats;
    })

-- The loop for the largest value.
unfoldable pub max_from : ℕ → List ℕ → ℕ
max_from m [] = m
max_from m (b ∷ bs) = max_from (if ltb m b then b else m) bs

pub data TrafficUnit : Type 0 where
  kb mb gb : TrafficUnit

abbrev pub unit_bytes : TrafficUnit → ℕ
unit_bytes kb = 1024
unit_bytes mb = 1024 * 1024
unit_bytes gb = 1024 * 1024 * 1024

-- The unit of the PNG charts, and of the HTML charts.
unfoldable pub png_unit : ℕ → TrafficUnit
png_unit max_bytes = if ltb max_bytes (1024 * 1024 * 1024) then mb else gb

unfoldable pub html_unit : ℕ → TrafficUnit
html_unit max_bytes =
    if ltb max_bytes (1024 * 1024)
    then kb
    else if ltb max_bytes (1024 * 1024 * 1024)
    then mb
    else gb

-- The values of the bars of ExportStatsChart and ExportStatsHTMLChart, by VM.
unfoldable pub bar_values :
    (fl : Float) → (ℕ → TrafficUnit) → Direction → List (TrafficStats fl.F) → List (ℕ × fl.F)
bar_values fl unit direction stats =
    let shown = sorted_stats direction stats in
    let divisor = unit_bytes (unit (max_from 0 (map (bytes_for direction) shown))) in
    map (λ s. (s.vmid, fl.div (fl.of_ℕ (bytes_for direction s)) (fl.of_ℕ divisor))) shown

-- The width of a bar and of the chart, for a number of VMs that is not 0.
unfoldable pub bar_width : ℕ → ℕ
bar_width vm_count = if ltb 10 vm_count then 60 else if ltb 20 vm_count then 50 else 80

unfoldable pub chart_layout : ℕ → ℤ × ℕ
chart_layout vm_count =
    let wanted = vm_count * (bar_width vm_count + 20) + 200 in
    let width = if ltb wanted 1200 then 1200 else wanted in
    if ltb 3000 width
    then (pos (2800 / vm_count) -ℤ pos 20, 3000)
    else (pos (bar_width vm_count), width)
