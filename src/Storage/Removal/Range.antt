-- ===== src/Storage/Removal/Range.antt =====
-- Removing records in a time range, and before a time: what is left, what is counted, and the dry
-- runs.
use pve_traffic_monitor.Base.{ℕ, ◌+◌, ◌%◌, ◌≡◌, sym, ap, ◌∙◌, Bool, true, not, keep, arith}
use pve_traffic_monitor.Base.Int.{pos, ◌-ℤ◌}
use pve_traffic_monitor.Base.Maps.{nat_Eq}
use pve_traffic_monitor.Clock.{Time, day_ns}
use pve_traffic_monitor.Models.{TrafficRecord}
use pve_traffic_monitor.Storage.{FileStorage, RecordCounter, counter_save}
use pve_traffic_monitor.Storage.Contents.{SameRecords}
use pve_traffic_monitor.Storage.Read.{IsStored, records_of}
use pve_traffic_monitor.Storage.Counter.{IsCounted}
use pve_traffic_monitor.Storage.Removal.{
  Files, each_dir, count_dirs, removed, counter_subtract, is_chosen, is_between, is_before,
  delete_records_in_range, count_records_in_range, delete_records_in_range_for_vm,
  count_records_in_range_for_vm, delete_records_before, count_records_before, count_days, keys,
}
use pve_traffic_monitor.Storage.Removal.Vm.{IsRemoval, delete_records_in_range_for_vm-IsRemoval}
use pve_traffic_monitor.Storage.Removal.Before.{
  begins_before, begins_before-midnight, delete_before-IsRemoval,
}
use pve_traffic_monitor.Storage.Removal.Dirs.{
  log_removed, each_dir-IsMap, each_dir-ArePlaced, each_dir-SameRecords, each_dir-number,
  each_dir-count,
}

-- The counter's fall by what was removed.
counter_subtract-count :
    (n m : ℕ) (c : RecordCounter)
    → c.cached_count ≡ pos (n + m)
    → (counter_subtract n c).cached_count ≡ pos m
unfolding counter_subtract counter_save ◌-ℤ◌
counter_subtract-count n m c h = ground arith

-- Any removal: the files and the counter afterwards.
module _ (chosen : ℕ → Bool) (goes : TrafficRecord → Bool) (step : Files → Files × ℕ)
    (dry_run : Files → ℕ) (removal : IsRemoval goes step dry_run) (s : FileStorage) where
  removed-IsStored : IsStored s → IsStored (removed s (each_dir chosen step s.dirs)).0
  removed-IsStored h = record {
    is_map = each_dir-IsMap chosen goes step dry_run removal s.dirs h.is_map;
    placed = each_dir-ArePlaced chosen goes step dry_run removal s.dirs h.placed;
  }

  removed-IsCounted :
      IsStored s → IsCounted s → IsCounted (removed s (each_dir chosen step s.dirs)).0
  removed-IsCounted h c =
      counter_subtract-count (each_dir chosen step s.dirs).1 _ s.record_counter
        (c ∙ ap pos (sym (each_dir-count chosen goes step dry_run removal s.dirs h.placed)))

module _ (vmid : ℕ) (start end : Time) (s : FileStorage) where
  pub delete_records_in_range-IsStored :
      IsStored s → IsStored (delete_records_in_range vmid start end s).0
  unfolding delete_records_in_range
  delete_records_in_range-IsStored h =
      removed-IsStored (is_chosen vmid) _ _ _ (delete_records_in_range_for_vm-IsRemoval start end) s
        h

  pub delete_records_in_range-IsCounted :
      IsStored s → IsCounted s → IsCounted (delete_records_in_range vmid start end s).0
  unfolding delete_records_in_range
  delete_records_in_range-IsCounted h c =
      removed-IsCounted (is_chosen vmid) _ _ _ (delete_records_in_range_for_vm-IsRemoval start end)
        s h c

  -- After a removal in a time range, the chosen VMs have lost their records of the range, both ends
  -- included, each as often as it was stored, and nothing else is lost; the files are as the program
  -- writes them.
  pub delete_records_in_range-SameRecords :
      (v : ℕ)
      → IsStored s
      → SameRecords
          (records_of v (delete_records_in_range vmid start end s).0)
          (log_removed (is_chosen vmid v) (is_between start end) (records_of v s))
  unfolding delete_records_in_range
  delete_records_in_range-SameRecords v h =
      each_dir-SameRecords (is_chosen vmid) (is_between start end)
        (delete_records_in_range_for_vm start end) (count_records_in_range_for_vm start end)
        (delete_records_in_range_for_vm-IsRemoval start end) v s.dirs h.placed

  -- The dry run of a removal in a time range counts as many records as the removal then removes; the
  -- files are as the program writes them.
  pub delete_records_in_range-count_records_in_range :
      IsStored s
      → (delete_records_in_range vmid start end s).1 ≡ count_records_in_range vmid start end s
  unfolding delete_records_in_range count_records_in_range
  delete_records_in_range-count_records_in_range h =
      each_dir-number (is_chosen vmid) (is_between start end)
        (delete_records_in_range_for_vm start end) (count_records_in_range_for_vm start end)
        (delete_records_in_range_for_vm-IsRemoval start end) s.dirs h.placed

module _ (t : Time) (s : FileStorage) where
  pub delete_records_before-IsStored : IsStored s → IsStored (delete_records_before t s).0
  unfolding delete_records_before
  delete_records_before-IsStored h =
      removed-IsStored (λ v. true) _ _ _ (delete_before-IsRemoval t) s h

  pub delete_records_before-IsCounted :
      IsStored s → IsCounted s → IsCounted (delete_records_before t s).0
  unfolding delete_records_before
  delete_records_before-IsCounted h c =
      removed-IsCounted (λ v. true) _ _ _ (delete_before-IsRemoval t) s h c

  -- A removal of what is before a time removes, for every VM, the records of the days that begin
  -- before it, also those of its own day that are later, and nothing else; the files are as the program
  -- writes them.
  pub delete_records_before-SameRecords :
      (v : ℕ)
      → IsStored s
      → SameRecords
          (records_of v (delete_records_before t s).0)
          (keep (λ r. not (begins_before t r)) (records_of v s))
  unfolding delete_records_before
  delete_records_before-SameRecords v h =
      each_dir-SameRecords (λ v. true) (begins_before t) _ _ (delete_before-IsRemoval t) v s.dirs
        h.placed

begins_before-same : (t : Time) → t % day_ns ≡ 0 → begins_before t ≡ is_before t
begins_before-same t h = λ i r. begins_before-midnight t r h i

-- Before a midnight, the dry run counts as many records as the removal then removes; the files are as
-- the program writes them.
pub delete_records_before-count_records_before :
    (t : Time) (s : FileStorage)
    → IsStored s
    → t % day_ns ≡ 0
    → (delete_records_before t s).1 ≡ count_records_before t s
unfolding delete_records_before count_records_before
delete_records_before-count_records_before t s h midnight =
    each_dir-number (λ v. true) (begins_before t) _ _ (delete_before-IsRemoval t) s.dirs h.placed
    ∙ ap (λ goes. count_dirs (λ v. true) (λ files. count_days goes (keys files) files) s.dirs)
        (begins_before-same t midnight)
