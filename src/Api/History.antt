-- ===== src/Api/History.antt =====
-- The handler of a VM's history, handleHistory of pkg/api/server.go, with its cache. The calls of
-- packages strconv and time on texts are parameters; the times of a request are those at which it
-- reads the clock.
use pve_traffic_monitor.Base.{
  ℕ, ◌-◌, ◌*◌, ◌%◌, Bool, true, false, not, ◌&&◌, List, [], ◌∷◌, ◌++◌, map, Option, none, some,
  if◌then◌else◌,
}
use pve_traffic_monitor.Base.Decimal.{print_ℤ}
use pve_traffic_monitor.Base.Int.{ℤ, pos, ◌-ℤ◌}
use pve_traffic_monitor.Base.Result.{Result, ok, err}
use pve_traffic_monitor.Base.Text.{Text, codes, text_eq}
use pve_traffic_monitor.Clock.{
  Time, second_ns, minute_ns, hour_ns, day_ns, year, month, day, date_from, add_time, add_days,
}
use pve_traffic_monitor.Models.{PeriodType, period_text, TrafficRecord, AggregatedPoint}
use pve_traffic_monitor.Traffic.{aggregate_traffic_by_period}
use pve_traffic_monitor.Api.{Entries, get_cache, set_cache, is_empty}

-- strconv.Atoi, time.Parse with RFC 3339, and Format with a layout.
pub record Texts : Type 0 where
  pub atoi : Text → Option ℤ
  pub parse_rfc3339 : Text → Option Time
  pub format : Text → Time → Text

-- The identifier in the path, and the query's parameters, each empty where it is missing.
pub record HistoryRequest : Type 0 where
  pub vmid_text : Text
  pub start : Text
  pub end : Text
  pub granularity : Text
  pub period : Text

-- A point as the response shows it.
pub record Point : Type 0 where
  pub timestamp : Text
  pub rx_bytes : ℕ
  pub tx_bytes : ℕ
  pub total_bytes : ℕ

-- An error with its status, or the data with the period and whether it comes from the cache. Without
-- records the response does not say whether it is cached.
pub data HistoryResponse : Type 0 where
  refused : ℕ → HistoryResponse
  no_records : PeriodType → HistoryResponse
  history : List Point → PeriodType → Bool → HistoryResponse

abbrev pub period_of : Text → PeriodType
period_of s =
    if text_eq s (codes "minute")
    then PeriodType.minute
    else if text_eq s (codes "hour")
    then PeriodType.hour
    else if text_eq s (codes "day")
    then PeriodType.day
    else if text_eq s (codes "month")
    then PeriodType.month
    else PeriodType.other s

abbrev pub or_word : Text → Text → Text
or_word s word = if is_empty s then word else s

unfoldable pub get_time_format : PeriodType → Text
get_time_format PeriodType.minute = codes "2006-01-02 15:04"
get_time_format PeriodType.hour = codes "2006-01-02 15:04"
get_time_format PeriodType.day = codes "2006-01-02"
get_time_format PeriodType.month = codes "2006-01"
get_time_format (PeriodType.other s) = codes "2006-01-02"

-- What a request asks for: the range, the period, whether the range is custom, and how long the
-- response is kept.
pub record Plan : Type 0 where
  pub start_time : Time
  pub end_time : Time
  pub period : PeriodType
  pub use_custom_range : Bool
  pub cache_ttl : ℕ

-- now.AddDate(0, -12, 0)
abbrev pub year_before : Time → Time
year_before now = date_from (year now - 1) (month now) (pos (day now)) (now % day_ns)

abbrev pub preset_plan : Time → Time → PeriodType → ℕ → Plan
preset_plan start now period ttl = record {
  start_time = start;
  end_time = now;
  period = period;
  use_custom_range = false;
  cache_ttl = ttl;
}

abbrev pub bad_request : ℕ
bad_request = 400

abbrev pub internal_error : ℕ
internal_error = 500

unfoldable pub plan_preset : Time → PeriodType → Result ℕ Plan
plan_preset now PeriodType.minute =
    ok (preset_plan (add_time now (pos 0 -ℤ pos hour_ns)) now PeriodType.minute (30 * second_ns))
plan_preset now PeriodType.hour =
    ok (preset_plan (add_time now (pos 0 -ℤ pos (24 * hour_ns))) now PeriodType.hour minute_ns)
plan_preset now PeriodType.day =
    ok (preset_plan (add_days now (pos 0 -ℤ pos 30)) now PeriodType.day (5 * minute_ns))
plan_preset now PeriodType.month =
    ok (preset_plan (year_before now) now PeriodType.month (15 * minute_ns))
plan_preset now (PeriodType.other s) = err bad_request

abbrev pub custom_range : Text → Option Time → Option Time → Result ℕ Plan
custom_range granularity none end = err bad_request
custom_range granularity (some start) none = err bad_request
custom_range granularity (some start) (some end) = ok (record {
  start_time = start;
  end_time = end;
  period = period_of (or_word granularity (codes "hour"));
  use_custom_range = true;
  cache_ttl = 30 * second_ns;
})

abbrev pub stamp_layout : Text
stamp_layout = codes "20060102150405"

abbrev pub points_of : Texts → PeriodType → List AggregatedPoint → List Point
points_of texts period points =
    map
      (λ p. record {
        timestamp = texts.format (get_time_format period) p.timestamp;
        rx_bytes = p.rx_bytes;
        tx_bytes = p.tx_bytes;
        total_bytes = p.total_bytes;
      })
      points

module _ (texts : Texts) where
  unfoldable pub plan_of : Time → HistoryRequest → Result ℕ Plan
  plan_of now q =
      if not (is_empty q.start) && not (is_empty q.end)
      then custom_range q.granularity (texts.parse_rfc3339 q.start) (texts.parse_rfc3339 q.end)
      else plan_preset now (period_of (or_word q.period (codes "day")))

  -- The key after the VM's number.
  abbrev pub key_rest : Plan → Text
  key_rest p =
      if p.use_custom_range
      then period_text p.period
        ++ (b'_' ∷ texts.format stamp_layout p.start_time)
        ++ (b'_' ∷ texts.format stamp_layout p.end_time)
      else period_text p.period

  unfoldable pub cache_key : ℤ → Plan → Text
  cache_key vmid p = codes "history_" ++ (print_ℤ vmid ++ (b'_' ∷ key_rest p))

  -- `get_traffic_records` is the storage's, `t₁` the time at which the cache is read, and `t₂` the one
  -- at which it is written.
  module _ (get_traffic_records : ℤ → Time → Time → Option (List TrafficRecord)) where
    abbrev pub with_records :
        ℤ
        → Plan
        → Time
        → Entries (List Point)
        → Option (List TrafficRecord)
        → HistoryResponse × Entries (List Point)
    with_records vmid p t₂ entries none = (refused internal_error, entries)
    with_records vmid p t₂ entries (some []) = (no_records p.period, entries)
    with_records vmid p t₂ entries (some (r ∷ rs)) =
        let aggregated = points_of texts p.period (aggregate_traffic_by_period (r ∷ rs) p.period) in
        (
          history aggregated p.period false,
          set_cache t₂ (cache_key vmid p) aggregated p.cache_ttl entries,
        )

    abbrev pub with_cached :
        ℤ
        → Plan
        → Time
        → Entries (List Point)
        → Option (List Point)
        → HistoryResponse × Entries (List Point)
    with_cached vmid p t₂ entries (some aggregated) = (history aggregated p.period true, entries)
    with_cached vmid p t₂ entries none =
        with_records vmid p t₂ entries (get_traffic_records vmid p.start_time p.end_time)

    abbrev pub with_plan :
        ℤ
        → Result ℕ Plan
        → Time
        → Time
        → Entries (List Point)
        → HistoryResponse × Entries (List Point)
    with_plan vmid (err status) t₁ t₂ entries = (refused status, entries)
    with_plan vmid (ok p) t₁ t₂ entries =
        with_cached vmid p t₂ entries (get_cache t₁ (cache_key vmid p) entries)

    abbrev pub with_vmid :
        Option ℤ
        → Result ℕ Plan
        → Time
        → Time
        → Entries (List Point)
        → HistoryResponse × Entries (List Point)
    with_vmid none plan t₁ t₂ entries = (refused bad_request, entries)
    with_vmid (some vmid) plan t₁ t₂ entries = with_plan vmid plan t₁ t₂ entries

    unfoldable pub handle_history :
        Time
        → Time
        → Time
        → HistoryRequest
        → Entries (List Point)
        → HistoryResponse × Entries (List Point)
    handle_history now t₁ t₂ q entries =
        with_vmid (texts.atoi q.vmid_text) (plan_of now q) t₁ t₂ entries
