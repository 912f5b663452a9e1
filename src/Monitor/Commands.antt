-- ===== src/Monitor/Commands.antt =====
-- The command line that removes records, cmd/monitor/main.go: the removal of a time range, of a VM's
-- records and of all before a date. Reading a time is `time.ParseInLocation`, a parameter: a layout
-- and a text give a time or nothing. The flags are a record, and what is printed is the number.
pub mod DryRun
use pve_traffic_monitor.Base.{
  ℕ, ◌+◌, ◌-◌, ◌*◌, ◌/◌, ◌%◌, ◌≤◌, ◌<◌, ◌≡◌, refl, sym, ap, ◌∙◌, Bool, true, false, not, ◌&&◌, ◌||◌,
  List, [], ◌∷◌, Option, none, some, length, ltb, ◌==◌, ==_iff, Bool-cases, inl, inr, arith,
  if◌then◌else◌,
}
use pve_traffic_monitor.Base.Int.{pos, ◌+ℤ◌, ◌-ℤ◌}
use pve_traffic_monitor.Base.Result.{Result, ok, err}
use pve_traffic_monitor.Base.Text.{Text, codes, text_eq}
use pve_traffic_monitor.Clock.{
  Time, day_ns, hour_ns, minute_ns, year, month, day, date, date_from, add_days, add_time, after,
}
use pve_traffic_monitor.Clock.Months.{add_days-pos, fields_lem}
use pve_traffic_monitor.Period.Fixed.{date_of_fields}
use pve_traffic_monitor.Models.{TrafficRecord}
use pve_traffic_monitor.Storage.{FileStorage, day_of}
use pve_traffic_monitor.Storage.Read.{IsStored}
use pve_traffic_monitor.Storage.Removal.{
  is_between, delete_records_in_range, count_records_in_range, delete_records_before,
  count_records_before,
}
use pve_traffic_monitor.Storage.Removal.Range.{
  delete_records_in_range-count_records_in_range, delete_records_before-count_records_before,
}

pub data CleanupType : Type 0 where
  range vm before : CleanupType
  other : Text → CleanupType

pub data CommandError : Type 0 where
  missing_flag bad_time wrong_order bad_type : CommandError

pub record Flags : Type 0 where
  pub start_time : Text
  pub end_time : Text
  pub export_date : Text
  pub before_date : Text
  pub vm_id : ℕ
  pub dry_run : Bool

abbrev pub Parse : Type 0
Parse = Text → Text → Option Time

abbrev pub date_layout : Text
date_layout = codes "2006-01-02"

abbrev pub layouts : List Text
layouts =
    codes "2006-01-02T15:04:05"
    ∷ codes "2006-01-02 15:04:05"
    ∷ codes "2006-01-02T15:04"
    ∷ codes "2006-01-02 15:04"
    ∷ date_layout
    ∷ []

abbrev pub first_time : Option Time → Result CommandError Time → Result CommandError Time
first_time none rest = rest
first_time (some t) rest = ok t

-- The loop over the layouts.
unfoldable pub parse_any : Parse → List Text → Text → Result CommandError Time
parse_any parse [] time_str = err bad_time
parse_any parse (layout ∷ rest) time_str =
    first_time (parse layout time_str) (parse_any parse rest time_str)

unfoldable pub parse_time_param : Parse → Text → Result CommandError Time
parse_time_param parse time_str = parse_any parse layouts time_str

unfoldable pub parse_date : Parse → Text → Result CommandError Time
parse_date parse s = first_time (parse date_layout s) (err bad_time)

-- The first and the last nanosecond of a day.
unfoldable pub day_bounds : Time → Time × Time
day_bounds t =
    let start = date (year t) (month t) (day t) 0 0 in
    (start, add_time (add_days start (pos 1)) (pos 0 -ℤ pos 1))

abbrev pub is_empty : Text → Bool
is_empty s = text_eq s []

abbrev pub Command : Type 0
Command = FileStorage → Result CommandError ℕ × FileStorage

abbrev pub refused : CommandError → Command
refused e s = (err e, s)

abbrev pub with_time : {A : Type 0} → Result CommandError A → (A → Command) → Command
with_time (ok t) f s = f t s
with_time (err e) f s = (err e, s)

abbrev pub numbered : FileStorage × ℕ → Result CommandError ℕ × FileStorage
numbered (s, n) = (ok n, s)

-- The dry run, or else the removal.
unfoldable pub remove_range : Bool → ℕ → Time → Time → Command
remove_range dry_run vmid start end s =
    if dry_run
    then (ok (count_records_in_range vmid start end s), s)
    else numbered (delete_records_in_range vmid start end s)

unfoldable pub remove_before : Bool → Time → Command
remove_before dry_run t s =
    if dry_run then (ok (count_records_before t s), s) else numbered (delete_records_before t s)

-- From -start to -end; `then_remove` is what comes after the two are read.
abbrev pub between_times : Parse → Flags → (Time → Time → Command) → Command
between_times parse flags then_remove =
    with_time (parse_time_param parse flags.start_time)
      (λ start. with_time (parse_time_param parse flags.end_time) (then_remove start))

abbrev pub in_order : ℕ → Bool → Time → Time → Command
in_order vmid dry_run start end =
    if after start end then refused wrong_order else remove_range dry_run vmid start end

unfoldable pub cleanup_range : Parse → Flags → Command
cleanup_range parse flags =
    if is_empty flags.start_time || is_empty flags.end_time
    then refused missing_flag
    else between_times parse flags (in_order 0 flags.dry_run)

-- The day of -date.
abbrev pub on_date : Parse → Flags → Bool → Command
on_date parse flags dry_run =
    with_time (parse_date parse flags.export_date)
      (λ t. remove_range dry_run flags.vm_id (day_bounds t).0 (day_bounds t).1)

abbrev pub given_times : Parse → Flags → Bool → Command
given_times parse flags dry_run =
    if not (is_empty flags.start_time) && not (is_empty flags.end_time)
    then between_times parse flags (remove_range dry_run flags.vm_id)
    else refused missing_flag

abbrev pub vm_times : Parse → Flags → Bool → Command
vm_times parse flags dry_run =
    if not (is_empty flags.export_date)
    then on_date parse flags dry_run
    else given_times parse flags dry_run

unfoldable pub cleanup_vm : Parse → Flags → Command
cleanup_vm parse flags =
    if flags.vm_id == 0 then refused missing_flag else vm_times parse flags flags.dry_run

abbrev pub before_date_of : Parse → Flags → Bool → Command
before_date_of parse flags dry_run =
    with_time (parse_date parse flags.before_date)
      (λ t. remove_before dry_run (date (year t) (month t) (day t) 0 0))

unfoldable pub cleanup_before : Parse → Flags → Command
cleanup_before parse flags =
    if is_empty flags.before_date
    then refused missing_flag
    else before_date_of parse flags flags.dry_run

unfoldable pub handle_cleanup : Parse → CleanupType → Flags → Command
handle_cleanup parse range flags = cleanup_range parse flags
handle_cleanup parse vm flags = cleanup_vm parse flags
handle_cleanup parse before flags = cleanup_before parse flags
handle_cleanup parse (other word) flags = refused bad_type
