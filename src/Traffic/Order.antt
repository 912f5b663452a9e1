-- ===== src/Traffic/Order.antt =====
-- The points come in the order of time, one for each bucket.
use pve_traffic_monitor.Base.{ℕ, ◌≤◌, ◌<◌, ◌≢◌, List, [], ◌∷◌, All, arith}
use pve_traffic_monitor.Clock.{Time}
use pve_traffic_monitor.Models.{PeriodType, TrafficRecord, AggregatedPoint}
use pve_traffic_monitor.Traffic.{
  GroupData, bucket, add_to_group, group_records, point_of, insert_point, sort_points,
  aggregate_traffic_by_period,
}

abbrev Above : Time → List AggregatedPoint → Type 0
Above t ps = All (λ q. t < q.timestamp) ps

-- Each timestamp is before all that follow.
abbrev pub IsAscending : List AggregatedPoint → Type 0
IsAscending [] = Unit
IsAscending (p ∷ ps) = All (λ q. p.timestamp < q.timestamp) ps × IsAscending ps

abbrev Lacks : Time → List GroupData → Type 0
Lacks k gs = All (λ g. g.key ≢ k) gs

abbrev HasDistinctKeys : List GroupData → Type 0
HasDistinctKeys [] = Unit
HasDistinctKeys (g ∷ gs) = Lacks g.key gs × HasDistinctKeys gs

add_to_group-Lacks :
    (j k : Time) (rx tx : ℕ) (gs : List GroupData)
    → k ≢ j
    → Lacks j gs
    → Lacks j (add_to_group k rx tx gs)
unfolding add_to_group
add_to_group-Lacks j k rx tx [] h l = (h, tt)
add_to_group-Lacks j k rx tx (g ∷ gs) h l = ground (arith, add_to_group-Lacks j k rx tx gs h l.1)

add_to_group-HasDistinctKeys :
    (k : Time) (rx tx : ℕ) (gs : List GroupData)
    → HasDistinctKeys gs
    → HasDistinctKeys (add_to_group k rx tx gs)
unfolding add_to_group
add_to_group-HasDistinctKeys k rx tx [] d = (tt, tt)
add_to_group-HasDistinctKeys k rx tx (g ∷ gs) d =
    ground (arith, add_to_group-HasDistinctKeys k rx tx gs d.1, add_to_group-Lacks g.key k rx tx gs)

group_records-HasDistinctKeys :
    (period : PeriodType) (p : TrafficRecord) (rest : List TrafficRecord) (gs : List GroupData)
    → HasDistinctKeys gs
    → HasDistinctKeys (group_records period p rest gs)
unfolding group_records
group_records-HasDistinctKeys period p [] gs d = d
group_records-HasDistinctKeys period p (c ∷ rest) gs d =
    group_records-HasDistinctKeys period c rest _
      (add_to_group-HasDistinctKeys (bucket period c.timestamp) _ _ gs d)

abbrev Misses : Time → List AggregatedPoint → Type 0
Misses k ps = All (λ q. q.timestamp ≢ k) ps

Above-mono : (a b : Time) (ps : List AggregatedPoint) → a ≤ b → Above b ps → Above a ps
Above-mono a b [] h l = tt
Above-mono a b (p ∷ ps) h l = (omega arith, Above-mono a b ps h l.1)

insert_point-Above :
    (a : Time) (p : AggregatedPoint) (ps : List AggregatedPoint)
    → a < p.timestamp
    → Above a ps
    → Above a (insert_point p ps)
unfolding insert_point
insert_point-Above a p [] h l = (h, tt)
insert_point-Above a p (q ∷ ps) h l = ground (arith, insert_point-Above a p ps h l.1)

insert_point-IsAscending :
    (p : AggregatedPoint) (ps : List AggregatedPoint)
    → Misses p.timestamp ps
    → IsAscending ps
    → IsAscending (insert_point p ps)
unfolding insert_point
insert_point-IsAscending p [] m s = (tt, tt)
insert_point-IsAscending p (q ∷ ps) m s = ground (
  arith,
  insert_point-IsAscending p ps m.1 s.1,
  insert_point-Above q.timestamp p ps,
  Above-mono p.timestamp q.timestamp ps,
)

insert_point-Misses :
    (k : Time) (p : AggregatedPoint) (ps : List AggregatedPoint)
    → p.timestamp ≢ k
    → Misses k ps
    → Misses k (insert_point p ps)
unfolding insert_point
insert_point-Misses k p [] h m = (h, tt)
insert_point-Misses k p (q ∷ ps) h m = ground (arith, insert_point-Misses k p ps h m.1)

sort_points-Misses : (k : Time) (gs : List GroupData) → Lacks k gs → Misses k (sort_points gs)
unfolding sort_points
sort_points-Misses k [] l = tt
sort_points-Misses k (g ∷ gs) l =
    insert_point-Misses k (point_of g) (sort_points gs) l.0 (sort_points-Misses k gs l.1)

sort_points-IsAscending : (gs : List GroupData) → HasDistinctKeys gs → IsAscending (sort_points gs)
unfolding sort_points
sort_points-IsAscending [] d = tt
sort_points-IsAscending (g ∷ gs) d =
    insert_point-IsAscending (point_of g) (sort_points gs) (sort_points-Misses g.key gs d.0)
      (sort_points-IsAscending gs d.1)

-- The timestamps of the points strictly grow: every bucket has at most one point, and the points
-- come in the order of time.
pub aggregate_traffic_by_period-IsAscending :
    (records : List TrafficRecord) (period : PeriodType)
    → IsAscending (aggregate_traffic_by_period records period)
unfolding aggregate_traffic_by_period
aggregate_traffic_by_period-IsAscending [] period = tt
aggregate_traffic_by_period-IsAscending (first ∷ rest) period =
    sort_points-IsAscending _ (group_records-HasDistinctKeys period first rest [] tt)
