-- ===== src/Traffic.antt =====
-- pkg/storage/calc.go: how much a VM sent and received, from readings of its counters. Counters and
-- sums are uint64. The two halves of the loop body, for RX and for TX, are one function here.
pub mod Restart
pub mod Stats
pub mod Aggregate
pub mod Order
use pve_traffic_monitor.Base.{
  ℕ, ◌+◌, ◌-◌, ◌*◌, ◌^◌, ◌%◌, Bool, true, false, ◌||◌, List, [], ◌∷◌, ltb, ◌==◌, if◌then◌else◌,
}
use pve_traffic_monitor.Base.Float.{Float}
use pve_traffic_monitor.Clock.{Time, year, month, day, hour, minute, date}
use pve_traffic_monitor.Models.{
  PeriodType, Direction, TrafficRecord, TrafficStats, AggregatedPoint, bytes_per_gb,
}

abbrev pub u64_mod : ℕ
u64_mod = 2 ^ 64

-- a + b and a - b on uint64
abbrev pub add_u64 : ℕ → ℕ → ℕ
add_u64 a b = (a + b) % u64_mod

abbrev pub sub_u64 : ℕ → ℕ → ℕ
sub_u64 a b = (a + u64_mod - b) % u64_mod

-- The bytes counted up to the last restart, and the counter at which the current segment starts.
pub record Segment : Type 0 where
  pub total : ℕ
  pub start : ℕ

-- One counter at one record: a smaller value than the last is a restart from 0.
unfoldable pub advance : ℕ → ℕ → Segment → Segment
advance previous current s =
    if ltb current previous
    then record { total = add_u64 s.total (sub_u64 previous s.start); start = 0 }
    else s

pub record Segments : Type 0 where
  pub rx : Segment
  pub tx : Segment

-- The loop from record i on; `skip` is `i == 1 && (firstRXRestart || firstTXRestart)`.
unfoldable pub scan_records : Bool → TrafficRecord → List TrafficRecord → Segments → Segments
scan_records skip previous [] s = s
scan_records skip previous (current ∷ rest) s = scan_records false current rest (record {
  rx = if skip then s.rx else advance previous.rx_bytes current.rx_bytes s.rx;
  tx = if skip then s.tx else advance previous.tx_bytes current.tx_bytes s.tx;
})

abbrev pub last_record : TrafficRecord → List TrafficRecord → TrafficRecord
last_record r [] = r
last_record r (s ∷ rest) = last_record s rest

-- The current segment added up to the last counter.
unfoldable pub close_segment : Segment → ℕ → ℕ
close_segment s last = add_u64 s.total (sub_u64 last s.start)

unfoldable pub calculate_traffic : ℕ → List TrafficRecord → ℕ × ℕ
calculate_traffic vmid [] = (0, 0)
calculate_traffic vmid (first ∷ []) = (0, 0)
calculate_traffic vmid (first ∷ second ∷ rest) =
    let first_rx_restart = ltb second.rx_bytes first.rx_bytes in
    let first_tx_restart = ltb second.tx_bytes first.tx_bytes in
    let s = scan_records (first_rx_restart || first_tx_restart) first (second ∷ rest) (record {
      rx = record { total = 0; start = if first_rx_restart then 0 else first.rx_bytes };
      tx = record { total = 0; start = if first_tx_restart then 0 else first.tx_bytes };
    }) in
    let last = last_record second rest in
    (close_segment s.rx last.rx_bytes, close_segment s.tx last.tx_bytes)

-- An empty direction stands for both.
unfoldable pub default_direction : Direction → Direction
default_direction (Direction.other []) = Direction.both
default_direction d = d

-- The counted bytes of a direction, out of those received and those sent.
unfoldable pub directed_bytes : Direction → ℕ → ℕ → ℕ
directed_bytes Direction.upload rx tx = tx
directed_bytes Direction.tx rx tx = tx
directed_bytes Direction.download rx tx = rx
directed_bytes Direction.rx rx tx = rx
directed_bytes _ rx tx = add_u64 rx tx

module _ (fl : Float) where
  unfoldable pub build_traffic_stats :
      ℕ → PeriodType → Time → Time → Direction → List TrafficRecord → TrafficStats fl.F
  build_traffic_stats vmid period start end direction [] = record {
    vmid = vmid;
    period = period;
    start_time = start;
    end_time = end;
    direction = default_direction direction;
    rx_bytes = 0;
    tx_bytes = 0;
    total_bytes = 0;
    total_gb = fl.of_ℕ 0;
  }
  build_traffic_stats vmid period start end direction (r ∷ records) =
      let (rx, tx) = calculate_traffic vmid (r ∷ records) in
      let total = directed_bytes (default_direction direction) rx tx in
      record {
        vmid = vmid;
        period = period;
        start_time = start;
        end_time = end;
        direction = default_direction direction;
        rx_bytes = rx;
        tx_bytes = tx;
        total_bytes = total;
        total_gb = fl.div (fl.of_ℕ total) (fl.of_ℕ bytes_per_gb);
      }

-- `getKey`, and the time that its text is read back as: the start of the minute, hour, day or month.
unfoldable pub bucket : PeriodType → Time → Time
bucket PeriodType.minute t = date (year t) (month t) (day t) (hour t) (minute t)
bucket PeriodType.hour t = date (year t) (month t) (day t) (hour t) 0
bucket PeriodType.month t = date (year t) (month t) 1 0 0
bucket _ t = date (year t) (month t) (day t) 0 0

pub record GroupData : Type 0 where
  pub key : Time
  pub rx_bytes : ℕ
  pub tx_bytes : ℕ
  pub count : ℕ

-- The increment of one counter between two records.
unfoldable pub increment : ℕ → ℕ → ℕ
increment previous current = if ltb current previous then current else sub_u64 current previous

unfoldable pub add_to_group : Time → ℕ → ℕ → List GroupData → List GroupData
add_to_group key rx tx [] =
    record { key = key; rx_bytes = add_u64 0 rx; tx_bytes = add_u64 0 tx; count = 1 } ∷ []
add_to_group key rx tx (g ∷ groups) =
    if g.key == key
    then record {
      key = key;
      rx_bytes = add_u64 g.rx_bytes rx;
      tx_bytes = add_u64 g.tx_bytes tx;
      count = g.count + 1;
    }
      ∷ groups
    else g ∷ add_to_group key rx tx groups

unfoldable pub group_records :
    PeriodType → TrafficRecord → List TrafficRecord → List GroupData → List GroupData
group_records period previous [] groups = groups
group_records period previous (record_now ∷ rest) groups = group_records period record_now rest (
    add_to_group (bucket period record_now.timestamp)
      (increment previous.rx_bytes record_now.rx_bytes)
      (increment previous.tx_bytes record_now.tx_bytes) groups)

abbrev pub point_of : GroupData → AggregatedPoint
point_of g = record {
  timestamp = g.key;
  rx_bytes = g.rx_bytes;
  tx_bytes = g.tx_bytes;
  total_bytes = add_u64 g.rx_bytes g.tx_bytes;
}

-- `sort.Slice` by timestamp. The keys of groups are distinct, so that the result does not depend on
-- the order in which Go walks the map.
unfoldable pub insert_point : AggregatedPoint → List AggregatedPoint → List AggregatedPoint
insert_point p [] = p ∷ []
insert_point p (q ∷ ps) = if ltb q.timestamp p.timestamp then q ∷ insert_point p ps else p ∷ q ∷ ps

unfoldable pub sort_points : List GroupData → List AggregatedPoint
sort_points [] = []
sort_points (g ∷ groups) = insert_point (point_of g) (sort_points groups)

unfoldable pub aggregate_traffic_by_period : List TrafficRecord → PeriodType → List AggregatedPoint
aggregate_traffic_by_period [] period = []
aggregate_traffic_by_period (first ∷ rest) period = sort_points (group_records period first rest [])
