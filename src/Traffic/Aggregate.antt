-- ===== src/Traffic/Aggregate.antt =====
-- `AggregateTrafficByPeriod` puts every increment into the bucket of its record.
use pve_traffic_monitor.Base.{ℕ, ◌+◌, ◌%◌, ◌<◌, ◌≡◌, List, [], ◌∷◌, ◌==◌, All, arith, if◌then◌else◌}
use pve_traffic_monitor.Clock.{Time}
use pve_traffic_monitor.Models.{PeriodType, TrafficRecord, AggregatedPoint}
use pve_traffic_monitor.Traffic.{
  u64_mod, GroupData, bucket, increment, add_to_group, group_records, point_of, insert_point,
  sort_points, aggregate_traffic_by_period, calculate_traffic,
}
use pve_traffic_monitor.Traffic.Restart.{moved, moved_rx, moved_tx, IsU64, calculate_traffic-moved}

-- What the points with a timestamp report.
abbrev pub rx_at : Time → List AggregatedPoint → ℕ
rx_at k [] = 0
rx_at k (p ∷ ps) = (if p.timestamp == k then p.rx_bytes else 0) + rx_at k ps

abbrev pub rx_sum : List AggregatedPoint → ℕ
rx_sum [] = 0
rx_sum (p ∷ ps) = p.rx_bytes + rx_sum ps

abbrev pub tx_sum : List AggregatedPoint → ℕ
tx_sum [] = 0
tx_sum (p ∷ ps) = p.tx_bytes + tx_sum ps

-- What the counter moved by at the records of one bucket.
abbrev pub moved_rx_in : PeriodType → Time → TrafficRecord → List TrafficRecord → ℕ
moved_rx_in period k r [] = 0
moved_rx_in period k r (s ∷ rest) =
    (if bucket period s.timestamp == k then moved r.rx_bytes s.rx_bytes else 0)
    + moved_rx_in period k s rest

abbrev group_rx_at : Time → List GroupData → ℕ
group_rx_at k [] = 0
group_rx_at k (g ∷ gs) = (if g.key == k then g.rx_bytes else 0) + group_rx_at k gs

abbrev group_rx : List GroupData → ℕ
group_rx [] = 0
group_rx (g ∷ gs) = g.rx_bytes + group_rx gs

abbrev group_tx : List GroupData → ℕ
group_tx [] = 0
group_tx (g ∷ gs) = g.tx_bytes + group_tx gs

increment-moved : (p c : ℕ) → p < u64_mod → c < u64_mod → increment p c ≡ moved p c
unfolding increment
increment-moved p c hp hc = ground arith

add_to_group-rx :
    (k : Time) (rx tx : ℕ) (gs : List GroupData)
    → group_rx (add_to_group k rx tx gs) % u64_mod ≡ (group_rx gs + rx) % u64_mod
unfolding add_to_group
add_to_group-rx k rx tx [] = omega arith
add_to_group-rx k rx tx (g ∷ gs) = ground (arith, add_to_group-rx k rx tx gs)

add_to_group-tx :
    (k : Time) (rx tx : ℕ) (gs : List GroupData)
    → group_tx (add_to_group k rx tx gs) % u64_mod ≡ (group_tx gs + tx) % u64_mod
unfolding add_to_group
add_to_group-tx k rx tx [] = omega arith
add_to_group-tx k rx tx (g ∷ gs) = ground (arith, add_to_group-tx k rx tx gs)

add_to_group-rx_at :
    (j k : Time) (rx tx : ℕ) (gs : List GroupData)
    → group_rx_at j (add_to_group k rx tx gs) % u64_mod
      ≡ (group_rx_at j gs + (if k == j then rx else 0)) % u64_mod
unfolding add_to_group
add_to_group-rx_at j k rx tx [] = ground arith
add_to_group-rx_at j k rx tx (g ∷ gs) = ground (arith, add_to_group-rx_at j k rx tx gs)

-- Grouping from a record on adds what the counters move by: in all, and in each bucket.
record Groups (period : PeriodType) (p : TrafficRecord) (rest : List TrafficRecord)
    (gs hs : List GroupData) : Type 0 where
  rx : group_rx hs % u64_mod ≡ (group_rx gs + moved_rx p rest) % u64_mod
  tx : group_tx hs % u64_mod ≡ (group_tx gs + moved_tx p rest) % u64_mod
  rx_in :
      (k : Time)
      → group_rx_at k hs % u64_mod ≡ (group_rx_at k gs + moved_rx_in period k p rest) % u64_mod

group_records-Groups :
    (period : PeriodType) (p : TrafficRecord) (rest : List TrafficRecord) (gs : List GroupData)
    → IsU64 p
    → All IsU64 rest
    → Groups period p rest gs (group_records period p rest gs)
unfolding group_records
group_records-Groups period p [] gs h u = record {
  rx = omega arith;
  tx = omega arith;
  rx_in = λ k. omega arith;
}
group_records-Groups period p (c ∷ rest) gs h u =
    let key = bucket period c.timestamp in
    let drx = increment p.rx_bytes c.rx_bytes in
    let dtx = increment p.tx_bytes c.tx_bytes in
    let ih = group_records-Groups period c rest (add_to_group key drx dtx gs) u.0 u.1 in
    let erx = increment-moved p.rx_bytes c.rx_bytes h.rx u.0.rx in
    let etx = increment-moved p.tx_bytes c.tx_bytes h.tx u.0.tx in
    record {
      rx = omega (arith, ih.rx, add_to_group-rx key drx dtx gs, erx);
      tx = omega (arith, ih.tx, add_to_group-tx key drx dtx gs, etx);
      rx_in = λ k. ground (arith, ih.rx_in k, add_to_group-rx_at k key drx dtx gs, erx);
    }

-- Sorting keeps the sums.
insert_point-sums :
    (k : Time) (p : AggregatedPoint) (ps : List AggregatedPoint)
    → (rx_sum (insert_point p ps) ≡ p.rx_bytes + rx_sum ps)
      × (tx_sum (insert_point p ps) ≡ p.tx_bytes + tx_sum ps)
      × (rx_at k (insert_point p ps) ≡ (if p.timestamp == k then p.rx_bytes else 0) + rx_at k ps)
unfolding insert_point
insert_point-sums k p [] = omega arith
insert_point-sums k p (q ∷ ps) = ground (arith, insert_point-sums k p ps)

sort_points-sums :
    (k : Time) (gs : List GroupData)
    → (rx_sum (sort_points gs) ≡ group_rx gs)
      × (tx_sum (sort_points gs) ≡ group_tx gs)
      × (rx_at k (sort_points gs) ≡ group_rx_at k gs)
unfolding sort_points
sort_points-sums k [] = omega arith
sort_points-sums k (g ∷ gs) =
    ground (arith, sort_points-sums k gs, insert_point-sums k (point_of g) (sort_points gs))

-- Nothing is lost or counted twice: the points of all buckets together hold just the traffic that
-- `calculateTraffic` reports for the same records, modulo 2^64, for any bucket size.
pub aggregate_total :
    (vmid : ℕ) (period : PeriodType) (first : TrafficRecord) (rest : List TrafficRecord)
    → IsU64 first
    → All IsU64 rest
    → let points = aggregate_traffic_by_period (first ∷ rest) period in
      let total = calculate_traffic vmid (first ∷ rest) in
      (rx_sum points % u64_mod ≡ total.0) × (tx_sum points % u64_mod ≡ total.1)
unfolding aggregate_traffic_by_period
aggregate_total vmid period first rest h u =
    let gs = group_records period first rest [] in
    let g = group_records-Groups period first rest [] h u in
    omega (arith, sort_points-sums 0 gs, g.rx, g.tx, calculate_traffic-moved vmid first rest h u)

-- Each bucket holds what the RX counter moved by at the records that fall into it, modulo 2^64.
pub aggregate_bucket :
    (period : PeriodType) (k : Time) (first : TrafficRecord) (rest : List TrafficRecord)
    → IsU64 first
    → All IsU64 rest
    → rx_at k (aggregate_traffic_by_period (first ∷ rest) period) % u64_mod
      ≡ moved_rx_in period k first rest % u64_mod
unfolding aggregate_traffic_by_period
aggregate_bucket period k first rest h u =
    let gs = group_records period first rest [] in
    let g = group_records-Groups period first rest [] h u in
    omega (arith, sort_points-sums k gs, g.rx_in k)
