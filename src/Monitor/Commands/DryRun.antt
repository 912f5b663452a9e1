-- ===== src/Monitor/Commands/DryRun.antt =====
-- The dry runs of the command line, and the bounds of a day.
use pve_traffic_monitor.Base.{
  ℕ, ◌%◌, ◌≡◌, refl, sym, ap, Bool, true, false, not, ◌&&◌, ◌||◌, ◌==◌, ==_iff, arith,
  if◌then◌else◌,
}
use pve_traffic_monitor.Base.Int.{◌+ℤ◌, ◌-ℤ◌}
use pve_traffic_monitor.Base.Result.{Result, ok, err}
use pve_traffic_monitor.Clock.{Time, day_ns, year, month, day, date, date_from, add_time, after}
use pve_traffic_monitor.Clock.Months.{add_days-pos, fields_lem}
use pve_traffic_monitor.Period.Fixed.{date_of_fields}
use pve_traffic_monitor.Models.{TrafficRecord}
use pve_traffic_monitor.Storage.{FileStorage, day_of}
use pve_traffic_monitor.Storage.Read.{IsStored}
use pve_traffic_monitor.Storage.Removal.{is_between}
use pve_traffic_monitor.Storage.Removal.Range.{
  delete_records_in_range-count_records_in_range, delete_records_before-count_records_before,
}
use pve_traffic_monitor.Monitor.Commands.{
  CleanupType, range, vm, before, other, CommandError, missing_flag, wrong_order, Flags, Parse,
  parse_time_param, parse_date, day_bounds, is_empty, Command, refused, with_time, remove_range,
  remove_before, between_times, in_order, cleanup_range, on_date, given_times, vm_times, cleanup_vm,
  before_date_of, cleanup_before, handle_cleanup,
}

-- A date's own day is the range of `day_bounds`: its first nanosecond and its last are in it, and no
-- time of another day is.
pub day_bounds-is_between :
    (t : Time) (r : TrafficRecord)
    → is_between (day_bounds t).0 (day_bounds t).1 r ≡ (day_of r.timestamp == day_of t)
unfolding day_bounds add_time ◌+ℤ◌ ◌-ℤ◌
day_bounds-is_between t r =
    let fields = fields_lem t in
    rw (add_days-pos (date (year t) (month t) (day t) 0 0) 1, date_of_fields t (day t) 0 fields.1)
      (ground (arith, fields, ==_iff (day_of r.timestamp) (day_of t)))

-- A dry run tells what the same command would tell without it.
abbrev SaysWhatItRemoves : (Bool → Command) → FileStorage → Type 0
SaysWhatItRemoves command s = command true s ≡ ((command false s).0, s)

remove_range_dry :
    (vmid : ℕ) (start end : Time) (s : FileStorage)
    → IsStored s
    → SaysWhatItRemoves (λ dry. remove_range dry vmid start end) s
unfolding remove_range
remove_range_dry vmid start end s h =
    ap (λ n. (ok n, s)) (sym (delete_records_in_range-count_records_in_range vmid start end s h))

date-midnight : (y m d : ℕ) → date y m d 0 0 % day_ns ≡ 0
unfolding date date_from
date-midnight y m d = omega arith

remove_before_dry :
    (y m d : ℕ) (s : FileStorage)
    → IsStored s
    → SaysWhatItRemoves (λ dry. remove_before dry (date y m d 0 0)) s
unfolding remove_before
remove_before_dry y m d s h =
    ap (λ n. (ok n, s))
      (sym (delete_records_before-count_records_before (date y m d 0 0) s h (date-midnight y m d)))

refused_dry : (e : CommandError) (s : FileStorage) → SaysWhatItRemoves (λ dry. refused e) s
refused_dry e s = refl

with_time_dry :
    {A : Type 0} (o : Result CommandError A) (f : Bool → A → Command) (s : FileStorage)
    → ((t : A) → SaysWhatItRemoves (λ dry. f dry t) s)
    → SaysWhatItRemoves (λ dry. with_time o (f dry)) s
with_time_dry (ok t) f s h = h t
with_time_dry (err e) f s h = refl

abbrev pub as_dry_run : Bool → Flags → Flags
as_dry_run dry flags = record flags { dry_run = dry }

if_dry :
    (b : Bool) (f g : Bool → Command) (s : FileStorage)
    → SaysWhatItRemoves f s
    → SaysWhatItRemoves g s
    → SaysWhatItRemoves (λ dry. if b then f dry else g dry) s
if_dry true f g s h k = h
if_dry false f g s h k = k

module _ (parse : Parse) (flags : Flags) (s : FileStorage) (h : IsStored s) where
  in_order_dry :
      (vmid : ℕ) (start end : Time) → SaysWhatItRemoves (λ dry. in_order vmid dry start end) s
  in_order_dry vmid start end =
      if_dry (after start end) (λ dry. refused wrong_order) (λ dry. remove_range dry vmid start end)
        s refl (remove_range_dry vmid start end s h)

  between_times_dry :
      (f : Bool → Time → Time → Command)
      → ((start end : Time) → SaysWhatItRemoves (λ dry. f dry start end) s)
      → SaysWhatItRemoves (λ dry. between_times parse flags (f dry)) s
  between_times_dry f k =
      with_time_dry (parse_time_param parse flags.start_time)
        (λ dry start. with_time (parse_time_param parse flags.end_time) (f dry start)) s
        (λ start.
          with_time_dry (parse_time_param parse flags.end_time) (λ dry. f dry start) s (k start))

  on_date_dry : SaysWhatItRemoves (on_date parse flags) s
  on_date_dry =
      with_time_dry (parse_date parse flags.export_date)
        (λ dry t. remove_range dry flags.vm_id (day_bounds t).0 (day_bounds t).1) s
        (λ t. remove_range_dry flags.vm_id (day_bounds t).0 (day_bounds t).1 s h)

  given_times_dry : SaysWhatItRemoves (given_times parse flags) s
  given_times_dry =
      if_dry (not (is_empty flags.start_time) && not (is_empty flags.end_time))
        (λ dry. between_times parse flags (remove_range dry flags.vm_id))
        (λ dry. refused missing_flag) s
        (between_times_dry (λ dry. remove_range dry flags.vm_id)
          (λ start end. remove_range_dry flags.vm_id start end s h))
        refl

  vm_times_dry : SaysWhatItRemoves (vm_times parse flags) s
  vm_times_dry =
      if_dry (not (is_empty flags.export_date)) (on_date parse flags) (given_times parse flags) s
        on_date_dry given_times_dry

  before_date_of_dry : SaysWhatItRemoves (before_date_of parse flags) s
  before_date_of_dry =
      with_time_dry (parse_date parse flags.before_date)
        (λ dry t. remove_before dry (date (year t) (month t) (day t) 0 0)) s
        (λ t. remove_before_dry (year t) (month t) (day t) s h)

-- A dry run of any removal by the command line reports the error or the number of records that the
-- removal itself reports, and leaves the storage as it is; the files are as the program writes them.
pub handle_cleanup_dry :
    (parse : Parse) (kind : CleanupType) (flags : Flags) (s : FileStorage)
    → IsStored s
    → handle_cleanup parse kind (as_dry_run true flags) s
      ≡ ((handle_cleanup parse kind (as_dry_run false flags) s).0, s)
unfolding handle_cleanup cleanup_range cleanup_vm cleanup_before
handle_cleanup_dry parse range flags s h =
    if_dry (is_empty flags.start_time || is_empty flags.end_time) (λ dry. refused missing_flag)
      (λ dry. between_times parse flags (in_order 0 dry)) s refl
      (between_times_dry parse flags s h (in_order 0) (in_order_dry parse flags s h 0))
handle_cleanup_dry parse vm flags s h =
    if_dry (flags.vm_id == 0) (λ dry. refused missing_flag) (vm_times parse flags) s refl
      (vm_times_dry parse flags s h)
handle_cleanup_dry parse before flags s h =
    if_dry (is_empty flags.before_date) (λ dry. refused missing_flag) (before_date_of parse flags) s
      refl (before_date_of_dry parse flags s h)
handle_cleanup_dry parse (other word) flags s h = refl
