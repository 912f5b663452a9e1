-- ===== src/Storage.antt =====
-- The file storage, pkg/storage/storage.go: the traffic records of a VM in a directory with a file
-- for each day, and a counter of all records. The disk is part of the state, and a write succeeds.
-- A file's name holds a date; it is modelled by the number of the day. A line is what decoding it as
-- JSON gives.
pub mod Counter
pub mod Days
pub mod Contents
pub mod Save
pub mod Read
pub mod Removal
pub mod Refines
pub mod Stats
pub mod Start
pub mod Logs
use pve_traffic_monitor.Base.{
  ℕ, zero, suc, ◌+◌, ◌-◌, ◌*◌, ◌/◌, Bool, true, false, not, ◌&&◌, ◌||◌, List, [], ◌∷◌, ◌++◌, keep,
  length, Option, none, some, ltb, ◌==◌, if◌then◌else◌,
}
use pve_traffic_monitor.Base.Int.{ℤ, pos, pos_part, neg_part, ◌+ℤ◌, ◌-ℤ◌, rem_ℤ}
use pve_traffic_monitor.Base.Maps.{lookup, keep_keys, put_key, delete_key, nat_Eq}
use pve_traffic_monitor.Base.Text.{Text, codes, text_eq, trim_space, equal_fold}
use pve_traffic_monitor.Clock.{Time, minute_ns, day_ns, before, after, add_days}
use pve_traffic_monitor.Models.{TrafficRecord}

pub record StoredTrafficRecord : Type 0 where
  pub vmid : ℕ
  pub network_interface : Text
  pub timestamp : Time
  pub rx_bytes : ℕ
  pub tx_bytes : ℕ
  pub total_bytes : ℕ

unfoldable pub traffic_record : StoredTrafficRecord → TrafficRecord
traffic_record r = record {
  vmid = r.vmid;
  timestamp = r.timestamp;
  rx_bytes = r.rx_bytes;
  tx_bytes = r.tx_bytes;
  total_bytes = r.total_bytes;
}

-- json.Marshal of a record, which has no interface.
unfoldable pub stored_record : TrafficRecord → StoredTrafficRecord
stored_record r = record {
  vmid = r.vmid;
  network_interface = [];
  timestamp = r.timestamp;
  rx_bytes = r.rx_bytes;
  tx_bytes = r.tx_bytes;
  total_bytes = r.total_bytes;
}

unfoldable pub is_default_traffic_record_interface : Text → Bool
is_default_traffic_record_interface network_interface =
    let name = trim_space network_interface in text_eq name [] || equal_fold name (codes "all")

pub data Line : Type 0 where
  stored : StoredTrafficRecord → Line
  blank broken : Line

-- The files traffic_<date>.jsonl, and the older traffic_<date>.json, which are one value each, or none
-- where it cannot be decoded.
pub record VmDir : Type 0 where
  pub jsonl : List (ℕ × List Line)
  pub json : List (ℕ × Option (List StoredTrafficRecord))

pub record RecordCounter : Type 0 where
  pub cached_count : ℤ
  pub last_update : Time
  pub cache_ttl : Time
  pub counter_file : Option ℤ
  pub needs_rebuild : Bool

pub record FileStorage : Type 0 where
  pub dirs : List (ℕ × VmDir)
  pub record_counter : RecordCounter

-- RecordCounter.get, with `time.Since` the last update.
unfoldable pub counter_get : Time → RecordCounter → Option ℤ
counter_get now c =
    if c.needs_rebuild
    then none
    else if ltb c.cache_ttl (now - c.last_update)
    then none
    else some c.cached_count

unfoldable pub counter_set : Time → ℤ → RecordCounter → RecordCounter
counter_set now n c = record c { cached_count = n; last_update = now }

unfoldable pub counter_increment : Time → RecordCounter → RecordCounter
counter_increment now c = record c { cached_count = c.cached_count +ℤ pos 1; last_update = now }

unfoldable pub counter_save : RecordCounter → RecordCounter
counter_save c = record c { counter_file = some c.cached_count }

-- The lines that are not blank, of a .jsonl file.
unfoldable pub count_lines : List Line → ℕ
count_lines [] = 0
count_lines (blank ∷ lines) = count_lines lines
count_lines (stored r ∷ lines) = suc (count_lines lines)
count_lines (broken ∷ lines) = suc (count_lines lines)

unfoldable pub count_jsonl_files : List (ℕ × List Line) → ℕ
count_jsonl_files [] = 0
count_jsonl_files ((d, lines) ∷ files) = count_lines lines + count_jsonl_files files

unfoldable pub count_json_files : List (ℕ × Option (List StoredTrafficRecord)) → ℕ
count_json_files [] = 0
count_json_files ((d, none) ∷ files) = count_json_files files
count_json_files ((d, some records) ∷ files) = length records + count_json_files files

unfoldable pub count_records_actual : List (ℕ × VmDir) → ℕ
count_records_actual [] = 0
count_records_actual ((vmid, dir) ∷ dirs) =
    count_jsonl_files dir.jsonl + count_json_files dir.json + count_records_actual dirs

-- A count that the cache has, or one that is made now.
abbrev pub total_or_count : Time → FileStorage → Option ℤ → ℤ × FileStorage
total_or_count now s (some n) = (n, s)
total_or_count now s none =
    let n = pos (count_records_actual s.dirs) in
    (n, record s { record_counter = counter_save (counter_set now n s.record_counter) })

unfoldable pub get_total_record_count : Time → FileStorage → ℤ × FileStorage
get_total_record_count now s = total_or_count now s (counter_get now s.record_counter)

abbrev pub no_dir : VmDir
no_dir = record { jsonl = []; json = [] }

abbrev pub or_else {ℓ} : {A : Type ℓ} → A → Option A → A
or_else a none = a
or_else a (some b) = b

-- The number of the day whose date names a file.
abbrev pub day_of : Time → ℕ
day_of t = t / day_ns

unfoldable pub append_line : TrafficRecord → VmDir → VmDir
append_line r dir = record dir {
  jsonl =
      put_key (day_of r.timestamp)
        (or_else [] (lookup (day_of r.timestamp) dir.jsonl) ++ (stored (stored_record r) ∷ []))
        dir.jsonl;
}

-- `now` is the time that the counter reads. Each hundredth count is written to the counter's file.
unfoldable pub save_traffic_record : Time → TrafficRecord → FileStorage → FileStorage
save_traffic_record now r s =
    let c = counter_increment now s.record_counter in
    record {
      dirs = put_key r.vmid (append_line r (or_else no_dir (lookup r.vmid s.dirs))) s.dirs;
      record_counter =
          if pos_part (rem_ℤ c.cached_count 100) + neg_part (rem_ℤ c.cached_count 100) == 0
          then counter_save c
          else c;
    }

-- The days that the loop `for current.Before(endTime.AddDate(0, 0, 1))` visits, on fuel.
unfoldable pub days_from : ℕ → Time → Time → List ℕ
days_from zero current stop = []
days_from (suc fuel) current stop =
    let rest = days_from fuel (add_days current (pos 1)) stop in
    if before current stop then day_of current ∷ rest else []

unfoldable pub visited_days : Time → Time → List ℕ
visited_days start end =
    let stop = add_days end (pos 1) in days_from (suc ((stop - start) / day_ns)) start stop

-- The timestamp is After or Equal to the start, and Before or Equal to the end.
abbrev pub in_range : Time → Time → Time → Bool
in_range start end t = (after t start || t == start) && (before t end || t == end)

unfoldable pub read_jsonl_file : Time → Time → List Line → List TrafficRecord
read_jsonl_file start end [] = []
read_jsonl_file start end (stored r ∷ lines) =
    if is_default_traffic_record_interface r.network_interface && in_range start end r.timestamp
    then traffic_record r ∷ read_jsonl_file start end lines
    else read_jsonl_file start end lines
read_jsonl_file start end (_ ∷ lines) = read_jsonl_file start end lines

unfoldable pub read_json_file : Time → Time → List StoredTrafficRecord → List TrafficRecord
read_json_file start end [] = []
read_json_file start end (r ∷ records) =
    if is_default_traffic_record_interface r.network_interface && in_range start end r.timestamp
    then traffic_record r ∷ read_json_file start end records
    else read_json_file start end records

-- One turn of the loop: the new file of the day, or else the old one.
abbrev pub read_file :
    Time
    → Time
    → Option (List Line)
    → Option (Option (List StoredTrafficRecord))
    → List TrafficRecord
read_file start end (some lines) old = read_jsonl_file start end lines
read_file start end none (some (some records)) = read_json_file start end records
read_file start end none (some none) = []
read_file start end none none = []

abbrev pub read_day : Time → Time → VmDir → ℕ → List TrafficRecord
read_day start end dir d = read_file start end (lookup d dir.jsonl) (lookup d dir.json)

unfoldable pub read_days : Time → Time → VmDir → List ℕ → List TrafficRecord
read_days start end dir [] = []
read_days start end dir (d ∷ days) = read_day start end dir d ++ read_days start end dir days

-- `sort.Slice` by timestamp. Go leaves open how records of one time are ordered.
unfoldable pub insert_record : TrafficRecord → List TrafficRecord → List TrafficRecord
insert_record r [] = r ∷ []
insert_record r (q ∷ qs) =
    if before q.timestamp r.timestamp then q ∷ insert_record r qs else r ∷ q ∷ qs

unfoldable pub sort_records : List TrafficRecord → List TrafficRecord
sort_records [] = []
sort_records (r ∷ rs) = insert_record r (sort_records rs)

abbrev pub read_dir : Time → Time → Option VmDir → List TrafficRecord
read_dir start end none = []
read_dir start end (some dir) = sort_records (read_days start end dir (visited_days start end))

unfoldable pub get_traffic_records : ℕ → Time → Time → FileStorage → List TrafficRecord
get_traffic_records vmid start end s = read_dir start end (lookup vmid s.dirs)

unfoldable pub read_jsonl_file_all : List Line → List TrafficRecord
read_jsonl_file_all [] = []
read_jsonl_file_all (stored r ∷ lines) = traffic_record r ∷ read_jsonl_file_all lines
read_jsonl_file_all (_ ∷ lines) = read_jsonl_file_all lines

unfoldable pub write_jsonl_file : List TrafficRecord → List Line
write_jsonl_file [] = []
write_jsonl_file (r ∷ records) = stored (stored_record r) ∷ write_jsonl_file records
