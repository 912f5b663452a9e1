-- ===== src/Storage/Logs/Days.antt =====
-- The days whose logs are read.
use pve_traffic_monitor.Base.{
  ℕ, zero, suc, ◌+◌, ◌-◌, ◌*◌, ◌/◌, ◌%◌, ◌≤◌, ◌<◌, ◌≡◌, refl, ap, ◌∙◌, true, ◌∷◌, leb, ◌==◌, ◌||◌,
  arith, if◌then◌else◌,
}
use pve_traffic_monitor.Clock.{Time, day_ns, before}
use pve_traffic_monitor.Clock.Months.{add_days-pos}
use pve_traffic_monitor.Storage.{day_of}
use pve_traffic_monitor.Storage.Days.{range}
use pve_traffic_monitor.Storage.Logs.{log_days_from, log_days}

log_days_from-range :
    (fuel n : ℕ) (current end : Time)
    → n ≤ fuel
    → end < current + n * day_ns
    → current + n * day_ns ≤ end + day_ns
    → log_days_from fuel current end ≡ range (day_of current) n
unfolding log_days_from
log_days_from-range zero zero current end f h k = refl
log_days_from-range zero (suc n) current end f h k = absurd (omega arith)
log_days_from-range (suc fuel) zero current end f h k = ground arith
log_days_from-range (suc fuel) (suc n) current end f h k =
    let later = add_days-pos current 1 in
    let visited : (before current end || current == end) ≡ true = ground arith in
    rw (visited, later)
      (ap (λ ds. day_of current ∷ ds)
        (log_days_from-range fuel n (current + 1 * day_ns) end (omega arith) (omega arith)
            (omega arith)
          ∙ ap (λ d. range d n) (omega arith)))

-- The logs of a time range are read from the files of its days, one after the other from the first;
-- the last day is read only if the range ends at a time of day that is not before that of its start.
pub log_days-range :
    (start end : Time)
    → start ≤ end
    → log_days start end
      ≡ range
          (day_of start)
          (day_of end - day_of start + (if leb (start % day_ns) (end % day_ns) then 1 else 0))
unfolding log_days
log_days-range start end h =
    log_days_from-range _ ((end - start) / day_ns + 1) start end (omega arith) (omega arith)
      (omega arith)
    ∙ ap (range (day_of start)) (ground arith)
