-- ===== src/Database/Records.antt =====
-- The operations of pkg/storage/database.go on traffic records: the statements' texts as they are in
-- the source, with their arguments. An operation gives `none` where the source returns an error.
use pve_traffic_monitor.Base.{
  ℕ, zero, suc, ◌==◌, Bool, true, false, List, [], ◌∷◌, Option, none, some, if◌then◌else◌,
}
use pve_traffic_monitor.Base.Float.{Float}
use pve_traffic_monitor.Base.Int.{ℤ, pos, negsuc, ◌-ℤ◌}
use pve_traffic_monitor.Base.Text.{Text, codes}
use pve_traffic_monitor.Clock.{Time, add_days}
use pve_traffic_monitor.Models.{PeriodType, Direction, TrafficRecord, TrafficStats}
use pve_traffic_monitor.Traffic.{build_traffic_stats}
use pve_traffic_monitor.Database.{build_query, calculate_traffic_stats_with_direction}
use pve_traffic_monitor.Database.Sql.{
  Driver, is_postgres, Value, number, time, text, Outcome, failed, done, Answer, Engine,
}

abbrev pub save_record_query : Text
save_record_query =
    codes
      "INSERT INTO traffic_records (vmid, network_interface, timestamp, rx_bytes, tx_bytes, total_bytes)\n\t\t\t  VALUES (?, ?, ?, ?, ?, ?)"

abbrev pub get_records_query : Text
get_records_query =
    codes
      "SELECT vmid, timestamp, rx_bytes, tx_bytes, total_bytes\n\t\t\t  FROM traffic_records \n\t\t\t  WHERE vmid = ? AND network_interface = ? AND timestamp >= ? AND timestamp <= ?\n\t\t\t  ORDER BY timestamp ASC"

abbrev pub default_traffic_record_interface : Text
default_traffic_record_interface = codes "all"

-- The text for PostgreSQL, or the one for the others.
abbrev pub text_for : Driver → Text → Text → Text
text_for driver numbered plain = if is_postgres driver then numbered else plain

abbrev pub delete_before_query : Driver → Text
delete_before_query driver =
    text_for driver (codes "DELETE FROM traffic_records WHERE timestamp < $1")
      (codes "DELETE FROM traffic_records WHERE timestamp < ?")

abbrev pub count_before_query : Driver → Text
count_before_query driver =
    text_for driver (codes "SELECT COUNT(*) FROM traffic_records WHERE timestamp < $1")
      (codes "SELECT COUNT(*) FROM traffic_records WHERE timestamp < ?")

abbrev pub delete_in_range_query : Driver → ℕ → Text
delete_in_range_query driver vmid =
    if vmid == 0
    then text_for driver
        (codes "DELETE FROM traffic_records WHERE timestamp >= $1 AND timestamp <= $2")
        (codes "DELETE FROM traffic_records WHERE timestamp >= ? AND timestamp <= ?")
    else text_for driver
        (codes
          "DELETE FROM traffic_records WHERE vmid = $1 AND timestamp >= $2 AND timestamp <= $3")
        (codes "DELETE FROM traffic_records WHERE vmid = ? AND timestamp >= ? AND timestamp <= ?")

abbrev pub count_in_range_query : Driver → ℕ → Text
count_in_range_query driver vmid =
    if vmid == 0
    then text_for driver
        (codes "SELECT COUNT(*) FROM traffic_records WHERE timestamp >= $1 AND timestamp <= $2")
        (codes "SELECT COUNT(*) FROM traffic_records WHERE timestamp >= ? AND timestamp <= ?")
    else text_for driver
        (codes
          "SELECT COUNT(*) FROM traffic_records WHERE vmid = $1 AND timestamp >= $2 AND timestamp <= $3")
        (codes
          "SELECT COUNT(*) FROM traffic_records WHERE vmid = ? AND timestamp >= ? AND timestamp <= ?")

abbrev pub range_args : ℕ → Time → Time → List Value
range_args vmid start end =
    if vmid == 0 then time start ∷ time end ∷ [] else number vmid ∷ time start ∷ time end ∷ []

-- rows.Scan into the fields of a record.
unfoldable pub scan_record : List Value → Option TrafficRecord
scan_record (number vmid ∷ time timestamp ∷ number rx ∷ number tx ∷ number total ∷ []) =
    some (record {
      vmid = vmid;
      timestamp = timestamp;
      rx_bytes = rx;
      tx_bytes = tx;
      total_bytes = total;
    })
scan_record _ = none

abbrev pub and_then_record :
    Option TrafficRecord → Option (List TrafficRecord) → Option (List TrafficRecord)
and_then_record (some r) (some rs) = some (r ∷ rs)
and_then_record _ _ = none

-- The loop over rows.Next.
unfoldable pub scan_records : List (List Value) → Option (List TrafficRecord)
scan_records [] = some []
scan_records (row ∷ rows) = and_then_record (scan_record row) (scan_records rows)

abbrev pub records_answered : Answer → Option (List TrafficRecord)
records_answered none = none
records_answered (some (rows, true)) = none
records_answered (some (rows, false)) = scan_records rows

-- QueryRow and Scan of a count, which is an error where there is no row.
unfoldable pub count_answered : Answer → Option ℕ
count_answered (some ((number n ∷ []) ∷ rows, fails)) = some n
count_answered _ = none

abbrev pub is_done : Outcome → Bool
is_done failed = false
is_done (done n) = true

-- result.RowsAffected()
abbrev pub rows_affected : Outcome → Option ℕ
rows_affected failed = none
rows_affected (done n) = n

module _ {W : Type 0} (e : Engine W) (driver : Driver) where
  -- `true` stands for a call without an error.
  unfoldable pub save_traffic_record : TrafficRecord → W → Bool × W
  save_traffic_record r w =
      let step =
        e.exec (build_query (is_postgres driver) save_record_query 6)
          (number r.vmid
            ∷ text default_traffic_record_interface
            ∷ time r.timestamp
            ∷ number r.rx_bytes
            ∷ number r.tx_bytes
            ∷ number r.total_bytes
            ∷ [])
          w in
      (is_done step.0, step.1)

  unfoldable pub get_traffic_records : ℕ → Time → Time → W → Option (List TrafficRecord)
  get_traffic_records vmid start end w = records_answered (
      e.query (build_query (is_postgres driver) get_records_query 4)
        (number vmid ∷ text default_traffic_record_interface ∷ time start ∷ time end ∷ []) w)

  unfoldable pub delete_records_in_range : ℕ → Time → Time → W → Option ℕ × W
  delete_records_in_range vmid start end w =
      let step = e.exec (delete_in_range_query driver vmid) (range_args vmid start end) w in
      (rows_affected step.0, step.1)

  unfoldable pub count_records_in_range : ℕ → Time → Time → W → Option ℕ
  count_records_in_range vmid start end w =
      count_answered (e.query (count_in_range_query driver vmid) (range_args vmid start end) w)

  unfoldable pub delete_records_before : Time → W → Option ℕ × W
  delete_records_before t w =
      let step = e.exec (delete_before_query driver) (time t ∷ []) w in
      (rows_affected step.0, step.1)

  unfoldable pub count_records_before : Time → W → Option ℕ
  count_records_before t w = count_answered (e.query (count_before_query driver) (time t ∷ []) w)

  -- `true` stands for a call without an error.
  abbrev pub cleanup_before : Time → W → Bool × W
  cleanup_before cutoff w =
      let step = e.exec (delete_before_query driver) (time cutoff ∷ []) w in
      (is_done step.0, step.1)

  unfoldable pub cleanup_old_data : Time → ℤ → W → Bool × W
  cleanup_old_data now (pos zero) w = (true, w)
  cleanup_old_data now (pos (suc n)) w = cleanup_before (add_days now (pos 0 -ℤ pos (suc n))) w
  cleanup_old_data now (negsuc n) w = (true, w)

  unfoldable pub get_total_record_count : W → Option ℕ
  get_total_record_count w =
      count_answered (e.query (codes "SELECT COUNT(*) FROM traffic_records") [] w)

module _ {W : Type 0} (fl : Float) (e : Engine W) (driver : Driver) where
  abbrev pub stats_of :
      ℕ → Time → Time → Direction → Option (List TrafficRecord) → Option (TrafficStats fl.F)
  stats_of vmid start end direction none = none
  stats_of vmid start end direction (some records) =
      some (
        build_traffic_stats fl vmid (PeriodType.other (codes "custom")) start end direction records)

  unfoldable pub calculate_traffic_stats_with_time_range :
      ℕ → Time → Time → Direction → W → Option (TrafficStats fl.F)
  calculate_traffic_stats_with_time_range vmid start end direction w =
      stats_of vmid start end direction (get_traffic_records e driver vmid start end w)

  unfoldable pub calculate_traffic_stats_with_time :
      Time → ℕ → PeriodType → Time → Bool → W → Option (TrafficStats fl.F)
  calculate_traffic_stats_with_time now vmid period creation use_creation_time w =
      calculate_traffic_stats_with_direction fl
        (λ v start end. get_traffic_records e driver v start end w) now vmid period creation
        use_creation_time Direction.both

  unfoldable pub calculate_traffic_stats : Time → ℕ → PeriodType → W → Option (TrafficStats fl.F)
  calculate_traffic_stats now vmid period w =
      calculate_traffic_stats_with_time now vmid period 0 false w
