-- ===== src/Traffic/Stats.antt =====
-- `buildTrafficStats`, and how its totals grow.
use pve_traffic_monitor.Base.{ℕ, ◌≤◌, ◌<◌, ◌≡◌, refl, List, [], ◌∷◌, ◌++◌, All, arith}
use pve_traffic_monitor.Base.Float.{Float}
use pve_traffic_monitor.Clock.{Time}
use pve_traffic_monitor.Models.{PeriodType, Direction, TrafficRecord}
use pve_traffic_monitor.Traffic.{
  u64_mod, add_u64, calculate_traffic, default_direction, directed_bytes, build_traffic_stats,
}
use pve_traffic_monitor.Traffic.Restart.{moved_rx, moved_tx, IsU64, calculate_traffic-moved}

-- Both directions count what the upload and the download count together, modulo 2^64; an empty
-- direction counts as both, "tx" as "upload" and "rx" as "download".
pub directions_add_up :
    (fl : Float) (vmid : ℕ) (period : PeriodType) (start end : Time) (records : List TrafficRecord)
    → let total =
        λ (d : Direction). (build_traffic_stats fl vmid period start end d records).total_bytes in
      (total Direction.both ≡ add_u64 (total Direction.download) (total Direction.upload))
      × (total (Direction.other []) ≡ total Direction.both)
      × (total Direction.tx ≡ total Direction.upload)
      × (total Direction.rx ≡ total Direction.download)
unfolding build_traffic_stats directed_bytes default_direction
directions_add_up fl vmid period start end [] = (refl, refl, refl, refl)
directions_add_up fl vmid period start end (r ∷ records) = (refl, refl, refl, refl)

moved_rx-append :
    (r : TrafficRecord) (rest more : List TrafficRecord)
    → moved_rx r rest ≤ moved_rx r (rest ++ more)
moved_rx-append r [] more = omega arith
moved_rx-append r (s ∷ rest) more = omega (arith, moved_rx-append s rest more)

moved_tx-append :
    (r : TrafficRecord) (rest more : List TrafficRecord)
    → moved_tx r rest ≤ moved_tx r (rest ++ more)
moved_tx-append r [] more = omega arith
moved_tx-append r (s ∷ rest) more = omega (arith, moved_tx-append s rest more)

All-append_left : (rest more : List TrafficRecord) → All IsU64 (rest ++ more) → All IsU64 rest
All-append_left [] more u = tt
All-append_left (s ∷ rest) more u = (u.0, All-append_left rest more u.1)

-- Later readings never lower a VM's traffic, restarts or not: with more records after the same first
-- one, neither sum is smaller, as long as the longer sums are below 2^64.
pub calculate_traffic_grows :
    (vmid : ℕ) (first : TrafficRecord) (rest more : List TrafficRecord)
    → IsU64 first
    → All IsU64 (rest ++ more)
    → moved_rx first (rest ++ more) < u64_mod
    → moved_tx first (rest ++ more) < u64_mod
    → ((calculate_traffic vmid (first ∷ rest)).0
        ≤ (calculate_traffic vmid (first ∷ rest ++ more)).0)
      × ((calculate_traffic vmid (first ∷ rest)).1
          ≤ (calculate_traffic vmid (first ∷ rest ++ more)).1)
calculate_traffic_grows vmid first rest more h u frx ftx = omega (
  arith,
  calculate_traffic-moved vmid first rest h (All-append_left rest more u),
  calculate_traffic-moved vmid first (rest ++ more) h u,
  moved_rx-append first rest more,
  moved_tx-append first rest more,
)
