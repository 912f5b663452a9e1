-- ===== src/Storage/Removal.antt =====
-- The operations of the file storage that remove records, and those that count what they would
-- remove. A VM number of 0 stands for every VM.
pub mod Day
pub mod Loop
pub mod Vm
pub mod Range
pub mod Before
pub mod Dirs
pub mod Old
use pve_traffic_monitor.Base.{
  ℕ, zero, suc, ◌+◌, ◌*◌, Bool, true, false, not, ◌&&◌, ◌||◌, List, [], ◌∷◌, keep, length, Option,
  none, some, ltb, ◌==◌, if◌then◌else◌,
}
use pve_traffic_monitor.Base.Int.{ℤ, pos, negsuc, ◌-ℤ◌}
use pve_traffic_monitor.Base.Maps.{lookup, keep_keys, put_key, delete_key, nat_Eq}
use pve_traffic_monitor.Clock.{Time, day_ns, before, after, add_days}
use pve_traffic_monitor.Models.{TrafficRecord}
use pve_traffic_monitor.Storage.{
  Line, VmDir, RecordCounter, FileStorage, counter_save, day_of, visited_days, read_jsonl_file_all,
  write_jsonl_file,
}

abbrev pub Files : Type 0
Files = List (ℕ × List Line)

-- The end of a turn: a file without records is removed, one that lost some is written again.
unfoldable pub rewrite_file : ℕ → List TrafficRecord → List TrafficRecord → Files → Files
rewrite_file d filtered records files =
    if length filtered == 0
    then delete_key d files
    else if not (length filtered == length records)
    then put_key d (write_jsonl_file filtered) files
    else files

-- One file of the loop, with the records that go, and how many they are.
abbrev pub filter_lines : (TrafficRecord → Bool) → ℕ → Files → Option (List Line) → Files × ℕ
filter_lines goes d files none = (files, 0)
filter_lines goes d files (some lines) =
    let records = read_jsonl_file_all lines in
    (rewrite_file d (keep (λ r. not (goes r)) records) records files, length (keep goes records))

unfoldable pub filter_file : (TrafficRecord → Bool) → ℕ → Files → Files × ℕ
filter_file goes d files = filter_lines goes d files (lookup d files)

-- Neither Before the start nor After the end.
abbrev pub is_between : Time → Time → TrafficRecord → Bool
is_between start end r = not (before r.timestamp start || after r.timestamp end)

-- A loop over files, each of which is changed by `step`.
unfoldable pub each_file : (ℕ → Files → Files × ℕ) → List ℕ → Files → Files × ℕ
each_file step [] files = (files, 0)
each_file step (d ∷ days) files =
    let (changed, n) = step d files in let (rest, m) = each_file step days changed in (rest, n + m)

unfoldable pub delete_records_in_range_for_vm : Time → Time → Files → Files × ℕ
delete_records_in_range_for_vm start end files =
    each_file (filter_file (is_between start end)) (visited_days start end) files

abbrev pub Dirs : Type 0
Dirs = List (ℕ × VmDir)

-- The directories of the chosen VMs, one after the other.
unfoldable pub each_dir : (ℕ → Bool) → (Files → Files × ℕ) → Dirs → Dirs × ℕ
each_dir chosen step [] = ([], 0)
each_dir chosen step ((vmid, dir) ∷ dirs) =
    let (files, n) = step dir.jsonl in
    let (rest, m) = each_dir chosen step dirs in
    if chosen vmid
    then ((vmid, record dir { jsonl = files }) ∷ rest, n + m)
    else ((vmid, dir) ∷ rest, m)

abbrev pub is_chosen : ℕ → ℕ → Bool
is_chosen vmid v = (vmid == 0) || (v == vmid)

-- The counter falls by what was removed, and is written if that is not nothing.
unfoldable pub counter_subtract : ℕ → RecordCounter → RecordCounter
counter_subtract n c =
    if ltb 0 n then counter_save (record c { cached_count = c.cached_count -ℤ pos n }) else c

abbrev pub removed : FileStorage → Dirs × ℕ → FileStorage × ℕ
removed s (dirs, n) =
    (record { dirs = dirs; record_counter = counter_subtract n s.record_counter }, n)

unfoldable pub delete_records_in_range : ℕ → Time → Time → FileStorage → FileStorage × ℕ
delete_records_in_range vmid start end s =
    removed s (each_dir (is_chosen vmid) (delete_records_in_range_for_vm start end) s.dirs)

abbrev pub count_lines_if : (TrafficRecord → Bool) → Option (List Line) → ℕ
count_lines_if goes none = 0
count_lines_if goes (some lines) = length (keep goes (read_jsonl_file_all lines))

unfoldable pub count_days : (TrafficRecord → Bool) → List ℕ → Files → ℕ
count_days goes [] files = 0
count_days goes (d ∷ days) files = count_lines_if goes (lookup d files) + count_days goes days files

unfoldable pub count_records_in_range_for_vm : Time → Time → Files → ℕ
count_records_in_range_for_vm start end files =
    count_days (is_between start end) (visited_days start end) files

unfoldable pub count_dirs : (ℕ → Bool) → (Files → ℕ) → Dirs → ℕ
count_dirs chosen step [] = 0
count_dirs chosen step ((vmid, dir) ∷ dirs) =
    if chosen vmid
    then step dir.jsonl + count_dirs chosen step dirs
    else count_dirs chosen step dirs

unfoldable pub count_records_in_range : ℕ → Time → Time → FileStorage → ℕ
count_records_in_range vmid start end s =
    count_dirs (is_chosen vmid) (count_records_in_range_for_vm start end) s.dirs

abbrev pub keys : Files → List ℕ
keys [] = []
keys ((d, lines) ∷ files) = d ∷ keys files

abbrev pub is_before : Time → TrafficRecord → Bool
is_before t r = before r.timestamp t

abbrev pub remove_lines : ℕ → Files → Option (List Line) → Files × ℕ
remove_lines d files none = (files, 0)
remove_lines d files (some lines) = (delete_key d files, length (read_jsonl_file_all lines))

-- A file whose day begins before the time is removed whole.
unfoldable pub delete_before_file : Time → ℕ → Files → Files × ℕ
delete_before_file t d files =
    if before (d * day_ns) t
    then remove_lines d files (lookup d files)
    else filter_file (is_before t) d files

unfoldable pub delete_records_before : Time → FileStorage → FileStorage × ℕ
delete_records_before t s =
    removed s
      (each_dir (λ v. true) (λ files. each_file (delete_before_file t) (keys files) files) s.dirs)

unfoldable pub count_records_before : Time → FileStorage → ℕ
count_records_before t s =
    count_dirs (λ v. true) (λ files. count_days (is_before t) (keys files) files) s.dirs

unfoldable pub cleanup_dirs : ℕ → Dirs → Dirs
cleanup_dirs cutoff [] = []
cleanup_dirs cutoff ((vmid, dir) ∷ dirs) =
    (
      vmid,
      record {
        jsonl = keep_keys (λ d. not (ltb d cutoff)) dir.jsonl;
        json = keep_keys (λ d. not (ltb d cutoff)) dir.json;
      },
    )
    ∷ cleanup_dirs cutoff dirs

-- now.AddDate(0, 0, -retentionDays)
unfoldable pub cleanup_old_data : Time → ℤ → FileStorage → FileStorage
cleanup_old_data now (pos zero) s = s
cleanup_old_data now (pos (suc n)) s = record s {
  dirs = cleanup_dirs (day_of (add_days now (pos 0 -ℤ pos (suc n)))) s.dirs;
}
cleanup_old_data now (negsuc n) s = s
