-- ===== src/Storage/Start.antt =====
-- Opening and closing the file storage: the counter's file.
use pve_traffic_monitor.Base.{ℕ, ◌*◌, ◌≡◌, refl, true, false, List, Option, none, some}
use pve_traffic_monitor.Base.Int.{ℤ, pos}
use pve_traffic_monitor.Clock.{Time, minute_ns}
use pve_traffic_monitor.Storage.{
  VmDir, RecordCounter, FileStorage, counter_set, counter_save, counter_get, count_records_actual,
  get_total_record_count,
}
use pve_traffic_monitor.Storage.Counter.{IsCounted, get_total_record_count-IsCounted}

-- What the counter's file is read as: `none` where it is missing or not a number.
abbrev load_counter : Time → Option ℤ → RecordCounter → RecordCounter
load_counter now none c = record c { needs_rebuild = true }
load_counter now (some n) c = record c { cached_count = n; last_update = now }

unfoldable pub new_file_storage : Time → List (ℕ × VmDir) → Option ℤ → FileStorage
new_file_storage now dirs counter_file = record {
  dirs = dirs;
  record_counter = load_counter now counter_file (record {
    cached_count = pos 0;
    last_update = 0;
    cache_ttl = 5 * minute_ns;
    counter_file = counter_file;
    needs_rebuild = false;
  });
}

-- The goroutine that NewFileStorage starts where the counter's file cannot be read.
unfoldable pub rebuild_counter : Time → FileStorage → FileStorage
rebuild_counter now s =
    let c = counter_save (counter_set now (pos (count_records_actual s.dirs)) s.record_counter) in
    record s { record_counter = record c { needs_rebuild = false } }

unfoldable pub close : FileStorage → FileStorage
close s = record s { record_counter = counter_save s.record_counter }

-- A storage that is closed with a right count and opened again answers the number of records on the
-- disk, at any time.
pub new_file_storage-close :
    (s : FileStorage) (now later : Time)
    → IsCounted s
    → (get_total_record_count later
        (new_file_storage now (close s).dirs (close s).record_counter.counter_file)).0
      ≡ pos (count_records_actual s.dirs)
unfolding close new_file_storage counter_save
new_file_storage-close s now later c =
    (get_total_record_count-IsCounted later
      (new_file_storage now s.dirs (some s.record_counter.cached_count)) c).0

-- Without the counter's file the records are counted, both before and after the counter is rebuilt.
pub new_file_storage_counts :
    (dirs : List (ℕ × VmDir)) (now later : Time)
    → ((get_total_record_count later (new_file_storage now dirs none)).0
        ≡ pos (count_records_actual dirs))
      × IsCounted (rebuild_counter now (new_file_storage now dirs none))
unfolding new_file_storage rebuild_counter counter_set counter_save get_total_record_count
    counter_get
new_file_storage_counts dirs now later = (refl, refl)
