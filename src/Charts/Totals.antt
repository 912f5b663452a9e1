-- ===== src/Charts/Totals.antt =====
-- The sums of an exported file.
use pve_traffic_monitor.Base.{
  ℕ, ◌+◌, ◌%◌, ◌<◌, ◌≡◌, refl, sym, ap, ◌∙◌, List, [], ◌∷◌, All, Option, none, some, arith,
}
use pve_traffic_monitor.Base.Text.{Text}
use pve_traffic_monitor.Clock.{Time}
use pve_traffic_monitor.Models.{PeriodType, TrafficRecord, AggregatedPoint}
use pve_traffic_monitor.Traffic.{u64_mod, calculate_traffic}
use pve_traffic_monitor.Traffic.Restart.{IsU64}
use pve_traffic_monitor.Traffic.Aggregate.{rx_sum, tx_sum, aggregate_total}
use pve_traffic_monitor.Charts.{sum_from, JsonData, json_of_points, export_json_data}

abbrev plain_sum : {A : Type 0} → (A → ℕ) → List A → ℕ
plain_sum bytes [] = 0
plain_sum bytes (p ∷ ps) = bytes p + plain_sum bytes ps

sum_from-plain_sum :
    {A : Type 0} (bytes : A → ℕ) (sum : ℕ) (ps : List A)
    → sum < u64_mod
    → sum_from bytes sum ps ≡ (sum + plain_sum bytes ps) % u64_mod
unfolding sum_from
sum_from-plain_sum bytes sum [] h = omega arith
sum_from-plain_sum bytes sum (p ∷ ps) h =
    sum_from-plain_sum bytes ((sum + bytes p) % u64_mod) ps (omega arith) ∙ omega arith

rx_sum-plain_sum : (ps : List AggregatedPoint) → plain_sum (λ p. p.rx_bytes) ps ≡ rx_sum ps
rx_sum-plain_sum [] = refl
rx_sum-plain_sum (p ∷ ps) = ap (λ n. p.rx_bytes + n) (rx_sum-plain_sum ps)

tx_sum-plain_sum : (ps : List AggregatedPoint) → plain_sum (λ p. p.tx_bytes) ps ≡ tx_sum ps
tx_sum-plain_sum [] = refl
tx_sum-plain_sum (p ∷ ps) = ap (λ n. p.tx_bytes + n) (tx_sum-plain_sum ps)

sums_of_points :
    (vmid : ℕ) (name : Text) (start end : Time) (points : List AggregatedPoint) (d : JsonData)
    → json_of_points vmid name start end points ≡ some d
    → (d.summary.total_rx_bytes ≡ rx_sum points % u64_mod)
      × (d.summary.total_tx_bytes ≡ tx_sum points % u64_mod)
sums_of_points vmid name start end [] d h = let wrong : none ≡ some d = h in cc wrong
sums_of_points vmid name start end (p ∷ ps) d h =
    let told : json_of_points vmid name start end (p ∷ ps) ≡ some d = h in
    let rx = sum_from-plain_sum (λ q. q.rx_bytes) 0 (p ∷ ps) (omega arith) in
    let tx = sum_from-plain_sum (λ q. q.tx_bytes) 0 (p ∷ ps) (omega arith) in
    (
      ap (λ o. rx_in o) (sym told)
          ∙ rx
          ∙ ap (λ n. (0 + n) % u64_mod) (rx_sum-plain_sum (p ∷ ps))
          ∙ omega arith,
      ap (λ o. tx_in o) (sym told)
          ∙ tx
          ∙ ap (λ n. (0 + n) % u64_mod) (tx_sum-plain_sum (p ∷ ps))
          ∙ omega arith,
    )
  where
    rx_in : Option JsonData → ℕ
    rx_in none = 0
    rx_in (some e) = e.summary.total_rx_bytes

    tx_in : Option JsonData → ℕ
    tx_in none = 0
    tx_in (some e) = e.summary.total_tx_bytes

-- The sums of a VM's exported file are the traffic that `calculateTraffic` reports for the same
-- records, for readings that are uint64.
pub export_json_data-calculate_traffic :
    (vmid : ℕ) (name : Text) (first : TrafficRecord) (rest : List TrafficRecord) (start end : Time)
    (d : JsonData)
    → IsU64 first
    → All IsU64 rest
    → export_json_data vmid name (first ∷ rest) start end ≡ some d
    → (d.summary.total_rx_bytes ≡ (calculate_traffic vmid (first ∷ rest)).0)
      × (d.summary.total_tx_bytes ≡ (calculate_traffic vmid (first ∷ rest)).1)
unfolding export_json_data
export_json_data-calculate_traffic vmid name first rest start end d h u e =
    let sums = sums_of_points vmid name start end _ d e in
    let total = aggregate_total vmid PeriodType.hour first rest h u in
    (sums.0 ∙ total.0, sums.1 ∙ total.1)
