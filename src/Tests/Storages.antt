-- ===== src/Tests/Storages.antt =====
-- Two VMs with records of two days on the disk.
use pve_traffic_monitor.Base.{ℕ, ◌+◌, ◌*◌, ◌≡◌, refl, [], ◌∷◌, List, keep, none, false}
use pve_traffic_monitor.Base.Int.{pos, ◌+ℤ◌, ◌-ℤ◌}
use pve_traffic_monitor.Base.Maps.{lookup, put_key, delete_key, keep_keys, nat_Eq}
use pve_traffic_monitor.Base.Text.{trim_space, trim_left, text_eq}
use pve_traffic_monitor.Clock.{
  Time, minute_ns, hour_ns, day_ns, add_days, date_from, year, month, day, month_index, find_month,
  month_length, month_start, is_leap,
}
use pve_traffic_monitor.Models.{TrafficRecord}
use pve_traffic_monitor.Storage.{
  FileStorage, RecordCounter, in_range, get_traffic_records, get_total_record_count,
  count_records_actual, save_traffic_record, append_line, read_jsonl_file_all, traffic_record,
  stored_record, sort_records, insert_record, read_days, visited_days, days_from, read_jsonl_file,
  is_default_traffic_record_interface,
}
use pve_traffic_monitor.Storage.Contents.{SameRecords}
use pve_traffic_monitor.Storage.Counter.{IsCounted}
use pve_traffic_monitor.Storage.Read.{IsStored, IsOrdered}
use pve_traffic_monitor.Storage.Refines.{
  Op, save, run, run_log, of_vm, no_records, no_records-Holds, run-Holds, run-get_traffic_records,
  run-get_total_record_count,
}
use pve_traffic_monitor.Storage.Removal.{
  each_dir, each_file, delete_before_file, count_dirs, count_days, delete_records_before,
  count_records_before,
}

abbrev pub reading : ℕ → Time → ℕ → TrafficRecord
reading vmid t rx = record {
  vmid = vmid;
  timestamp = t;
  rx_bytes = rx;
  tx_bytes = 0;
  total_bytes = rx;
}

abbrev saves : List Op
saves =
    save hour_ns (reading 100 hour_ns 5)
    ∷ save (2 * hour_ns) (reading 101 (2 * hour_ns) 6)
    ∷ save (day_ns + hour_ns) (reading 100 (day_ns + hour_ns) 7)
    ∷ []

abbrev pub counter : RecordCounter
counter = record {
  cached_count = pos 0;
  last_update = 0;
  cache_ttl = 5 * minute_ns;
  counter_file = none;
  needs_rebuild = false;
}

abbrev pub filled : FileStorage
filled = run saves (no_records counter)

pub filled-IsStored : IsStored filled
filled-IsStored = (run-Holds saves (no_records counter) [] (no_records-Holds counter)).stored

no_records-IsStored : IsStored (no_records counter)
no_records-IsStored = (no_records-Holds counter).stored

no_records-IsCounted : IsCounted (no_records counter)
unfolding count_records_actual
no_records-IsCounted = refl

run-get_traffic_records_example :
    SameRecords
      (get_traffic_records 100 0 day_ns (run saves (no_records counter)))
      (keep (λ r. in_range 0 day_ns r.timestamp) (of_vm 100 (run_log saves [])))
    × IsOrdered (get_traffic_records 100 0 day_ns (run saves (no_records counter)))
run-get_traffic_records_example = run-get_traffic_records saves counter 100 0 day_ns

run-get_total_record_count_example :
    (get_total_record_count day_ns (run saves (no_records counter))).0
    ≡ pos (count_records_actual (run saves (no_records counter)).dirs)
run-get_total_record_count_example =
    run-get_total_record_count saves (no_records counter) day_ns tt no_records-IsStored
      no_records-IsCounted

-- Before a minute past midnight the dry run counts two records, and three are removed.
day_removed :
    ((delete_records_before (day_ns + minute_ns) filled).1 ≡ 3)
    × (count_records_before (day_ns + minute_ns) filled ≡ 2)
unfolding run delete_records_before each_dir save_traffic_record put_key each_file append_line
    delete_before_file lookup read_jsonl_file_all delete_key keep_keys count_records_before
    count_dirs count_days traffic_record stored_record
day_removed = (refl, refl)

day_read : get_traffic_records 100 0 day_ns filled ≡ reading 100 hour_ns 5 ∷ []
unfolding run get_traffic_records lookup save_traffic_record put_key delete_key keep_keys
    append_line sort_records insert_record read_days visited_days days_from read_jsonl_file
    traffic_record stored_record is_default_traffic_record_interface trim_space trim_left text_eq
    add_days date_from year month day month_index find_month month_length month_start is_leap ◌+ℤ◌
    ◌-ℤ◌
day_read = refl
