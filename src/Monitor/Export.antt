-- ===== src/Monitor/Export.antt =====
-- The export of the command line, handleExport, exportVM and exportAllVMs of cmd/monitor/main.go. The
-- storage's and the PVE client's answers are parameters, with `none` for an error, and the exporter,
-- pkg/chart, is given a job.
use pve_traffic_monitor.Base.{
  ℕ, ◌-◌, ◌*◌, ◌%◌, Bool, true, false, not, ◌&&◌, List, [], ◌∷◌, Option, none, some, if◌then◌else◌,
}
use pve_traffic_monitor.Base.Int.{pos, ◌-ℤ◌}
use pve_traffic_monitor.Base.Result.{Result, ok, err, ◌>>=◌}
use pve_traffic_monitor.Base.Text.{Text, codes, text_eq}
use pve_traffic_monitor.Clock.{
  Time, hour_ns, day_ns, year, month, day, date_from, add_time, add_days, after,
}
use pve_traffic_monitor.Models.{PeriodType, Direction, TrafficRecord, TrafficStats}
use pve_traffic_monitor.Rules.{VmInfo}
use pve_traffic_monitor.Monitor.Commands.{
  Parse, CommandError, parse_time_param, parse_date, day_bounds,
}

pub data ExportFormat : Type 0 where
  json png html : ExportFormat
  other : Text → ExportFormat

pub data ExportError : Type 0 where
  bad_format bad_period bad_direction bad_vmid wrong_order : ExportError
  no_answer no_records no_vm no_vms no_stats not_exported : ExportError
  command : CommandError → ExportError

pub record ExportFlags : Type 0 where
  pub start_time : Text
  pub end_time : Text
  pub export_date : Text
  pub format : ExportFormat
  pub direction : Direction
  pub use_dark_theme : Bool

-- What the exporter is to write for one VM, and for all.
pub record VmJob : Type 0 where
  pub format : ExportFormat
  pub vmid : ℕ
  pub name : Text
  pub records : List TrafficRecord
  pub start : Time
  pub end : Time
  pub period : PeriodType
  pub use_dark_theme : Bool

pub record StatsJob (F : Type 0) : Type 0 where
  pub format : ExportFormat
  pub stats : List (Text × TrafficStats F)
  pub direction : Direction
  pub start : Time
  pub end : Time
  pub use_dark_theme : Bool

-- The operations of the storage, of the client and of the exporter, which gives a file's name.
pub record ExportCalls (F : Type 0) : Type 0 where
  pub get_traffic_records : ℕ → Time → Time → Option (List TrafficRecord)
  pub calculate_traffic_stats_with_direction :
      ℕ → PeriodType → Time → Bool → Direction → Option (TrafficStats F)
  pub calculate_traffic_stats_with_time_range :
      ℕ → Time → Time → Direction → Option (TrafficStats F)
  pub get_vm_status : ℕ → Option VmInfo
  pub get_all_vms : Option (List VmInfo)
  pub export_vm_job : VmJob → Option Text
  pub export_stats_job : StatsJob F → Option Text

abbrev pub or_error : {A : Type 0} → ExportError → Option A → Result ExportError A
or_error e none = err e
or_error e (some a) = ok a

abbrev pub of_command : {A : Type 0} → Result CommandError A → Result ExportError A
of_command (ok a) = ok a
of_command (err e) = err (command e)

abbrev pub is_known_format : ExportFormat → Bool
is_known_format (ExportFormat.other s) = false
is_known_format _ = true

abbrev pub is_known_period : PeriodType → Bool
is_known_period (PeriodType.other s) = false
is_known_period _ = true

abbrev pub is_export_direction : Direction → Bool
is_export_direction Direction.both = true
is_export_direction Direction.rx = true
is_export_direction Direction.tx = true
is_export_direction _ = false

abbrev pub check_that : Bool → ExportError → Result ExportError (Unit {0})
check_that b e = if b then ok tt else err e

-- now.AddDate(-1, 0, 0)
abbrev pub year_before : Time → Time
year_before now = date_from (year now - 1) (month now) (pos (day now)) (now % day_ns)

-- The switch on the period, which is one of the four words by then.
unfoldable pub default_start : PeriodType → Time → Time
default_start PeriodType.minute now = add_time now (pos 0 -ℤ pos hour_ns)
default_start PeriodType.hour now = add_time now (pos 0 -ℤ pos (24 * hour_ns))
default_start PeriodType.day now = add_days now (pos 0 -ℤ pos 30)
default_start PeriodType.month now = year_before now
default_start (PeriodType.other s) now = 0

abbrev pub is_custom : ExportFlags → Bool
is_custom flags = not (text_eq flags.start_time []) && not (text_eq flags.end_time [])

abbrev pub custom_range : Parse → ExportFlags → Result ExportError (Time × Time)
custom_range parse flags = of_command (parse_time_param parse flags.start_time) >>= λ start.
    of_command (parse_time_param parse flags.end_time) >>= λ end. ok (start, end)

unfoldable pub export_range :
    Parse → ExportFlags → Time → PeriodType → Result ExportError (Time × Time)
export_range parse flags now period =
    if is_custom flags
    then custom_range parse flags
    else if not (text_eq flags.export_date [])
    then (of_command (parse_date parse flags.export_date) >>= λ date. ok (day_bounds date))
    else ok (default_start period now, now)

abbrev pub some_records : List TrafficRecord → Result ExportError (List TrafficRecord)
some_records [] = err no_records
some_records (r ∷ rs) = ok (r ∷ rs)

module _ {F : Type 0} (calls : ExportCalls F) (parse : Parse) where
  -- The job of a VM, before it is given to the exporter.
  unfoldable pub vm_job : ExportFlags → Time → ℕ → PeriodType → Result ExportError VmJob
  vm_job flags now vmid period = check_that (is_known_format flags.format) bad_format >>= λ _.
      check_that (is_known_period period) bad_period >>= λ _.
      export_range parse flags now period >>= λ range.
      or_error no_answer (calls.get_traffic_records vmid range.0 range.1) >>= λ found.
      some_records found >>= λ records. or_error no_vm (calls.get_vm_status vmid) >>= λ vm.
      ok (record {
        format = flags.format;
        vmid = vmid;
        name = vm.name;
        records = records;
        start = range.0;
        end = range.1;
        period = period;
        use_dark_theme = flags.use_dark_theme;
      })

  unfoldable pub export_vm : ExportFlags → Time → ℕ → PeriodType → Result ExportError Text
  export_vm flags now vmid period =
      vm_job flags now vmid period >>= λ job. or_error not_exported (calls.export_vm_job job)

  -- The times of the second form, none for a period.
  abbrev pub stats_range : ExportFlags → Result ExportError (Option (Time × Time))
  stats_range flags =
      if is_custom flags
      then (custom_range parse flags >>= λ range.
          if after range.0 range.1 then err wrong_order else ok (some range))
      else ok none

  abbrev pub stats_in :
      PeriodType → Direction → Option (Time × Time) → VmInfo → Option (TrafficStats F)
  stats_in period direction none vm =
      calls.calculate_traffic_stats_with_direction vm.vmid period 0 false direction
  stats_in period direction (some range) vm =
      calls.calculate_traffic_stats_with_time_range vm.vmid range.0 range.1 direction

  abbrev pub append_stats :
      VmInfo → Option (TrafficStats F) → List (Text × TrafficStats F) → List (Text × TrafficStats F)
  append_stats vm none rest = rest
  append_stats vm (some stats) rest = (vm.name, stats) ∷ rest

  -- The loop over the VMs, which passes over one whose statistics have an error.
  unfoldable pub collect_stats :
      PeriodType → Direction → Option (Time × Time) → List VmInfo → List (Text × TrafficStats F)
  collect_stats period direction range [] = []
  collect_stats period direction range (vm ∷ vms) =
      append_stats vm (stats_in period direction range vm)
        (collect_stats period direction range vms)

  abbrev pub some_stats :
      List (Text × TrafficStats F) → Result ExportError (List (Text × TrafficStats F))
  some_stats [] = err no_stats
  some_stats (s ∷ ss) = ok (s ∷ ss)

  -- The range of the job, the zero times for a period.
  abbrev pub range_or_zero : Option (Time × Time) → Time × Time
  range_or_zero none = (0, 0)
  range_or_zero (some range) = range

  unfoldable pub export_all_vms : ExportFlags → PeriodType → Result ExportError Text
  export_all_vms flags period =
      check_that (is_export_direction flags.direction) bad_direction >>= λ _.
      check_that (is_known_format flags.format) bad_format >>= λ _.
      or_error no_vms calls.get_all_vms >>= λ vms. stats_range flags >>= λ range.
      some_stats (collect_stats period flags.direction range vms) >>= λ stats.
      or_error not_exported (
        calls.export_stats_job (record {
          format = flags.format;
          stats = stats;
          direction = flags.direction;
          start = (range_or_zero range).0;
          end = (range_or_zero range).1;
          use_dark_theme = flags.use_dark_theme;
        }))

  -- `scan_vmid` is fmt.Sscanf with "%d".
  unfoldable pub handle_export :
      (Text → Option ℕ) → ExportFlags → Time → Text → PeriodType → Result ExportError Text
  handle_export scan_vmid flags now vmid_str period =
      if text_eq vmid_str (codes "all")
      then export_all_vms flags period
      else or_error bad_vmid (scan_vmid vmid_str) >>= λ vmid. export_vm flags now vmid period
