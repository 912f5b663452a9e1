-- ===== src/Traffic/Restart.antt =====
-- `calculateTraffic` adds up increments.
use pve_traffic_monitor.Base.{
  ℕ, ◌+◌, ◌-◌, ◌%◌, ◌≤◌, ◌<◌, ◌≡◌, refl, Bool, true, false, ◌||◌, List, [], ◌∷◌, ltb, All, arith,
  if◌then◌else◌,
}
use pve_traffic_monitor.Models.{TrafficRecord}
use pve_traffic_monitor.Traffic.{
  u64_mod, Segment, Segments, advance, scan_records, last_record, close_segment, calculate_traffic,
}

-- What a counter moved by between two readings, if a smaller reading means a restart from 0.
abbrev pub moved : ℕ → ℕ → ℕ
moved previous current = if ltb current previous then current else current - previous

-- All that a counter moved by, from reading to reading, as an unbounded number.
abbrev pub moved_rx : TrafficRecord → List TrafficRecord → ℕ
moved_rx r [] = 0
moved_rx r (s ∷ rest) = moved r.rx_bytes s.rx_bytes + moved_rx s rest

abbrev pub moved_tx : TrafficRecord → List TrafficRecord → ℕ
moved_tx r [] = 0
moved_tx r (s ∷ rest) = moved r.tx_bytes s.tx_bytes + moved_tx s rest

-- The counters of a record are uint64.
pub record IsU64 (r : TrafficRecord) : Type 0 where
  pub rx : r.rx_bytes < u64_mod
  pub tx : r.tx_bytes < u64_mod

-- A segment that has not started after the reading, and whose sums are uint64.
record IsOpen (s : Segment) (reading : ℕ) : Type 0 where
  started : s.start ≤ reading
  bounded : reading < u64_mod

advance-IsOpen : (s : Segment) (p c : ℕ) → IsOpen s p → c < u64_mod → IsOpen (advance p c s) c
unfolding advance
advance-IsOpen s p c o h = ground arith

advance-close_segment :
    (s : Segment) (p c : ℕ)
    → IsOpen s p
    → c < u64_mod
    → close_segment (advance p c s) c ≡ (close_segment s p + moved p c) % u64_mod
unfolding advance close_segment
advance-close_segment s p c o h = ground arith

close_segment_lt : (s : Segment) (r : ℕ) → close_segment s r < u64_mod
unfolding close_segment
close_segment_lt s r = omega arith

-- From a record on, the loop counts what each counter moves by.
scan_records_lem :
    (p : TrafficRecord) (rest : List TrafficRecord) (s : Segments)
    → IsOpen s.rx p.rx_bytes
    → IsOpen s.tx p.tx_bytes
    → All IsU64 rest
    → let t = scan_records false p rest s in
      (close_segment t.rx (last_record p rest).rx_bytes
        ≡ (close_segment s.rx p.rx_bytes + moved_rx p rest) % u64_mod)
      × (close_segment t.tx (last_record p rest).tx_bytes
          ≡ (close_segment s.tx p.tx_bytes + moved_tx p rest) % u64_mod)
unfolding scan_records
scan_records_lem p [] s ox ot u =
    omega (arith, close_segment_lt s.rx p.rx_bytes, close_segment_lt s.tx p.tx_bytes)
scan_records_lem p (c ∷ rest) s ox ot u =
    let next : Segments = record {
      rx = advance p.rx_bytes c.rx_bytes s.rx;
      tx = advance p.tx_bytes c.tx_bytes s.tx;
    } in
    let ih =
      scan_records_lem c rest next (advance-IsOpen s.rx p.rx_bytes c.rx_bytes ox u.0.rx)
        (advance-IsOpen s.tx p.tx_bytes c.tx_bytes ot u.0.tx) u.1 in
    omega (
      arith,
      ih,
      advance-close_segment s.rx p.rx_bytes c.rx_bytes ox u.0.rx,
      advance-close_segment s.tx p.tx_bytes c.tx_bytes ot u.0.tx,
    )

-- The first round, whether or not it is skipped: the base is 0 after a restart, and otherwise the
-- first reading.
first_round :
    (p c : ℕ) (skip : Bool)
    → p < u64_mod
    → c < u64_mod
    → (ltb c p ≡ true → skip ≡ true)
    → let s : Segment = record { total = 0; start = if ltb c p then 0 else p } in
      let t = if skip then s else advance p c s in IsOpen t c × (close_segment t c ≡ moved p c)
unfolding advance close_segment
first_round p c skip hp hc h = ground arith

or_left : (a b : Bool) → a ≡ true → (a || b) ≡ true
or_left a b h = ground arith

or_right : (a b : Bool) → b ≡ true → (a || b) ≡ true
or_right a b h = ground arith

-- For readings that are uint64, the sums are what the counters moved by, modulo 2^64: a
-- counter that grows adds the difference, and one that falls is taken to have restarted from 0. This
-- holds for restarts at any place, between the first two readings too.
pub calculate_traffic-moved :
    (vmid : ℕ) (first : TrafficRecord) (rest : List TrafficRecord)
    → IsU64 first
    → All IsU64 rest
    → ((calculate_traffic vmid (first ∷ rest)).0 ≡ moved_rx first rest % u64_mod)
      × ((calculate_traffic vmid (first ∷ rest)).1 ≡ moved_tx first rest % u64_mod)
unfolding calculate_traffic scan_records
calculate_traffic-moved vmid first [] h u = (refl, refl)
calculate_traffic-moved vmid first (second ∷ rest) h u =
    let rx_fell = ltb second.rx_bytes first.rx_bytes in
    let tx_fell = ltb second.tx_bytes first.tx_bytes in
    let skip = rx_fell || tx_fell in
    let rx =
      first_round first.rx_bytes second.rx_bytes skip h.rx u.0.rx (or_left rx_fell tx_fell) in
    let tx =
      first_round first.tx_bytes second.tx_bytes skip h.tx u.0.tx (or_right rx_fell tx_fell) in
    let base_rx : Segment = record { total = 0; start = if rx_fell then 0 else first.rx_bytes } in
    let base_tx : Segment = record { total = 0; start = if tx_fell then 0 else first.tx_bytes } in
    let s : Segments = record {
      rx = if skip then base_rx else advance first.rx_bytes second.rx_bytes base_rx;
      tx = if skip then base_tx else advance first.tx_bytes second.tx_bytes base_tx;
    } in
    let sums = scan_records_lem second rest s rx.0 tx.0 u.1 in omega (arith, sums, rx.1, tx.1)
