-- ===== src/Storage/Counter.antt =====
-- The counter of all records.
use pve_traffic_monitor.Base.{
  ℕ, suc, ◌+◌, ◌≡◌, refl, ap, ◌∙◌, Bool, true, List, [], ◌∷◌, Option, none, some, arith,
  if◌then◌else◌,
}
use pve_traffic_monitor.Base.Int.{ℤ, pos, ◌+ℤ◌, pos-+ℤ}
use pve_traffic_monitor.Base.Maps.{lookup, put_key, nat_Eq}
use pve_traffic_monitor.Base.Weights.{weigh, weigh_at, weigh-put}
use pve_traffic_monitor.Clock.{Time}
use pve_traffic_monitor.Models.{TrafficRecord}
use pve_traffic_monitor.Storage.{
  Line, stored, blank, broken, VmDir, RecordCounter, FileStorage, count_lines, count_jsonl_files,
  count_json_files, count_records_actual, read_jsonl_file_all, append_line, no_dir, or_else,
  counter_increment, counter_save, counter_set, counter_get, total_or_count, get_total_record_count,
  save_traffic_record,
}
use pve_traffic_monitor.Storage.Contents.{weight, count_files, Files, AreAt, FilesAt, IsPlaced}
use pve_traffic_monitor.Storage.Read.{IsStored}
use pve_traffic_monitor.Storage.Save.{
  count_files-append_line, old_dir-IsPlaced, append_line-IsPlaced,
}

abbrev pub any_record : TrafficRecord → Bool
any_record r = true

count_lines-AreAt :
    (vmid d : ℕ) (lines : List Line)
    → AreAt vmid d lines
    → count_lines lines ≡ weight any_record lines
unfolding count_lines read_jsonl_file_all
count_lines-AreAt vmid d [] h = refl
count_lines-AreAt vmid d (stored r ∷ lines) h = omega (arith, count_lines-AreAt vmid d lines h.3)
count_lines-AreAt vmid d (blank ∷ lines) h = elim h [ ]
count_lines-AreAt vmid d (broken ∷ lines) h = elim h [ ]

pub count_jsonl_files-FilesAt :
    (vmid : ℕ) (files : Files)
    → FilesAt vmid files
    → count_jsonl_files files ≡ count_files any_record files
unfolding count_jsonl_files weigh
count_jsonl_files-FilesAt vmid [] h = refl
count_jsonl_files-FilesAt vmid ((d, lines) ∷ files) h =
    omega (arith, count_lines-AreAt vmid d lines h.0, count_jsonl_files-FilesAt vmid files h.1)

abbrev pub dir_count : VmDir → ℕ
dir_count dir = count_jsonl_files dir.jsonl + count_json_files dir.json

pub dir_count-IsPlaced :
    (vmid : ℕ) (dir : VmDir) → IsPlaced vmid dir → dir_count dir ≡ count_files any_record dir.jsonl
unfolding count_json_files
dir_count-IsPlaced vmid dir h =
    ap (λ old. count_jsonl_files dir.jsonl + count_json_files old) h.1
    ∙ omega (arith, count_jsonl_files-FilesAt vmid dir.jsonl h.2)

count_records_actual-weigh :
    (dirs : List (ℕ × VmDir)) → count_records_actual dirs ≡ weigh dir_count dirs
unfolding count_records_actual weigh
count_records_actual-weigh [] = refl
count_records_actual-weigh ((vmid, dir) ∷ dirs) =
    ap (λ n. dir_count dir + n) (count_records_actual-weigh dirs)

weigh_at-or_else : (o : Option VmDir) → weigh_at dir_count o ≡ dir_count (or_else no_dir o)
unfolding count_jsonl_files count_json_files
weigh_at-or_else none = refl
weigh_at-or_else (some dir) = refl

dir_count-append_line :
    (r : TrafficRecord) (dir : VmDir)
    → IsPlaced r.vmid dir
    → dir_count (append_line r dir) ≡ suc (dir_count dir)
dir_count-append_line r dir h = omega (
  arith,
  dir_count-IsPlaced r.vmid (append_line r dir) (append_line-IsPlaced r dir h),
  dir_count-IsPlaced r.vmid dir h,
  count_files-append_line any_record r dir h.0,
)

pub count_records_actual-save :
    (now : Time) (r : TrafficRecord) (s : FileStorage)
    → IsStored s
    → count_records_actual (save_traffic_record now r s).dirs ≡ suc (count_records_actual s.dirs)
unfolding save_traffic_record
count_records_actual-save now r s h =
    let o = lookup r.vmid s.dirs in
    let dir = or_else no_dir o in
    omega (
      arith,
      count_records_actual-weigh (put_key r.vmid (append_line r dir) s.dirs),
      count_records_actual-weigh s.dirs,
      weigh-put dir_count r.vmid (append_line r dir) s.dirs h.is_map,
      weigh_at-or_else o,
      dir_count-append_line r dir (old_dir-IsPlaced r.vmid s h),
    )

-- The cached count is that of the files.
abbrev pub IsCounted : FileStorage → Type 0
IsCounted s = s.record_counter.cached_count ≡ pos (count_records_actual s.dirs)

-- What the hundredth save writes leaves the count as it is.
saved_count :
    (b : Bool) (c : RecordCounter) → (if b then counter_save c else c).cached_count ≡ c.cached_count
unfolding counter_save
saved_count b c = ground arith

-- A save keeps the counter at the number of records on the disk.
pub save_traffic_record-IsCounted :
    (now : Time) (r : TrafficRecord) (s : FileStorage)
    → IsStored s
    → IsCounted s
    → IsCounted (save_traffic_record now r s)
unfolding save_traffic_record counter_increment
save_traffic_record-IsCounted now r s h c =
    saved_count _ (counter_increment now s.record_counter)
    ∙ ap (λ n. n +ℤ pos 1) c
    ∙ pos-+ℤ (count_records_actual s.dirs) 1
    ∙ ap pos (omega (arith, count_records_actual-save now r s h))

total_or_count-IsCounted :
    (now : Time) (s : FileStorage) (o : Option ℤ)
    → IsCounted s
    → ((n : ℤ) → o ≡ some n → n ≡ s.record_counter.cached_count)
    → ((total_or_count now s o).0 ≡ pos (count_records_actual s.dirs))
      × IsCounted (total_or_count now s o).1
unfolding counter_save counter_set
total_or_count-IsCounted now s none c h = (refl, refl)
total_or_count-IsCounted now s (some n) c h = (h n refl ∙ c, c)

counter_get-cached :
    (now : Time) (c : RecordCounter) (n : ℤ) → counter_get now c ≡ some n → n ≡ c.cached_count
unfolding counter_get
counter_get-cached now c n e = ground arith

-- With a counter that stands at the number of records on the disk, this is the total that is
-- answered, whether the cached count is used or the files are counted again.
pub get_total_record_count-IsCounted :
    (now : Time) (s : FileStorage)
    → IsCounted s
    → ((get_total_record_count now s).0 ≡ pos (count_records_actual s.dirs))
      × IsCounted (get_total_record_count now s).1
unfolding get_total_record_count
get_total_record_count-IsCounted now s c =
    total_or_count-IsCounted now s (counter_get now s.record_counter) c
      (λ n e. counter_get-cached now s.record_counter n e)
