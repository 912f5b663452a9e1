-- ===== src/Database/Rows.antt =====
-- The table traffic_records as a log of records, whose rows all have the interface "all".
use pve_traffic_monitor.Base.{
  ℕ, suc, ◌≡◌, refl, subst, ap, ◌∙◌, Bool, List, [], ◌∷◌, map, keep, length, Option, none, some,
  arith, if◌then◌else◌,
}
use pve_traffic_monitor.Base.Text.{codes}
use pve_traffic_monitor.Models.{TrafficRecord}
use pve_traffic_monitor.Storage.{StoredTrafficRecord, traffic_record}
use pve_traffic_monitor.Storage.Contents.{count, length-keep}
use pve_traffic_monitor.Storage.Refines.{drop_if}
use pve_traffic_monitor.Database.Sql.{
  Value, Outcome, failed, done, Answer, Condition, meets, chosen, rest_of, Did, Counts,
}
use pve_traffic_monitor.Database.Records.{rows_affected, is_done, count_answered}

abbrev pub row_of : TrafficRecord → StoredTrafficRecord
row_of r = record {
  vmid = r.vmid;
  network_interface = codes "all";
  timestamp = r.timestamp;
  rx_bytes = r.rx_bytes;
  tx_bytes = r.tx_bytes;
  total_bytes = r.total_bytes;
}

abbrev pub rows_of : List TrafficRecord → List StoredTrafficRecord
rows_of log = map row_of log

module _ (c : Condition) (args : List Value) (p : TrafficRecord → Bool)
    (h : (r : TrafficRecord) → meets c args (row_of r) ≡ p r) where
  pub rest_of-rows_of :
      (log : List TrafficRecord) → rest_of c args (rows_of log) ≡ rows_of (drop_if p log)
  rest_of-rows_of [] = refl
  rest_of-rows_of (r ∷ log) = rw (h r) (ground (arith, rest_of-rows_of log))

  pub chosen-rows_of :
      (log : List TrafficRecord) → chosen c args (rows_of log) ≡ rows_of (keep p log)
  chosen-rows_of [] = refl
  chosen-rows_of (r ∷ log) = rw (h r) (ground (arith, chosen-rows_of log))

length-rows_of : (log : List TrafficRecord) → length (rows_of log) ≡ length log
length-rows_of [] = refl
length-rows_of (r ∷ log) = ap suc (length-rows_of log)

traffic_record-row_of : (r : TrafficRecord) → traffic_record (row_of r) ≡ r
unfolding traffic_record
traffic_record-row_of r = refl

pub map-rows_of : (log : List TrafficRecord) → map traffic_record (rows_of log) ≡ log
map-rows_of [] = refl
map-rows_of (r ∷ log) = rw (traffic_record-row_of r) (rw (map-rows_of log) refl)

-- What a statement did, read off the number that its call gives.
abbrev pub Removed :
    {W : Type 0}
    → (W → List StoredTrafficRecord)
    → List TrafficRecord
    → (TrafficRecord → Bool)
    → Option ℕ
    → W
    → Type 0
Removed table log p none v = table v ≡ rows_of log
Removed table log p (some n) v = (table v ≡ rows_of (drop_if p log)) × (n ≡ count p log)

module _ {W : Type 0} (table : W → List StoredTrafficRecord) where
  pub Did-Removed :
      (w : W) (log : List TrafficRecord) (new : List StoredTrafficRecord) (n : ℕ)
      (p : TrafficRecord → Bool) (o : Outcome × W)
      → table w ≡ rows_of log
      → new ≡ rows_of (drop_if p log)
      → n ≡ count p log
      → Did table w new n o
      → Removed table log p (rows_affected o.0) o.1
  Did-Removed w log new n p (failed, v) e f g d = d ∙ e
  Did-Removed w log new n p (done none, v) e f g d =
      let impossible : none ≡ some n = d.1 in cc impossible
  Did-Removed w log new n p (done (some k), v) e f g d =
      let answered : some k ≡ some n = d.1 in (d.0 ∙ f, cc (answered, g))

  pub Did-done :
      (w : W) (log log' : List TrafficRecord) (new : List StoredTrafficRecord) (n : ℕ)
      (o : Outcome × W)
      → table w ≡ rows_of log
      → new ≡ rows_of log'
      → Did table w new n o
      → table o.1 ≡ rows_of (if is_done o.0 then log' else log)
  Did-done w log log' new n (failed, v) e f d = d ∙ e
  Did-done w log log' new n (done k, v) e f d = d.0 ∙ f

pub length-chosen :
    (c : Condition) (args : List Value) (p : TrafficRecord → Bool)
    → ((r : TrafficRecord) → meets c args (row_of r) ≡ p r)
    → (log : List TrafficRecord) → length (chosen c args (rows_of log)) ≡ count p log
length-chosen c args p h log =
    ap length (chosen-rows_of c args p h log) ∙ length-rows_of (keep p log) ∙ length-keep p log

-- A count that is answered is the number that is counted.
pub count_answered-Counts :
    (n m : ℕ) (answer : Answer) → Counts n answer → count_answered answer ≡ some m → m ≡ n
unfolding count_answered
count_answered-Counts n m none h e = cc e
count_answered-Counts n m (some ([], fails)) h e = cc e
count_answered-Counts n m (some (row ∷ rows, fails)) h e =
    let answered : some n ≡ some m =
      subst (λ v. count_answered (some (v ∷ rows, fails)) ≡ some m) h e in
    cc answered
