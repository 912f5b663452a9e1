-- ===== src/Storage/Days.antt =====
-- The days that the loops over files visit, as a range of numbers.
use pve_traffic_monitor.Base.{
  ℕ, zero, suc, ◌+◌, ◌-◌, ◌*◌, ◌/◌, ◌≤◌, ◌<◌, ◌≡◌, refl, sym, ap, ◌∙◌, inl, inr, List, [], ◌∷◌, ltb,
  Bool-cases, ltb→le, ltb→lt, lt→ltb, arith,
}
use pve_traffic_monitor.Clock.{Time, day_ns, add_days}
use pve_traffic_monitor.Base.Int.{pos}
use pve_traffic_monitor.Clock.Months.{add_days-pos}
use pve_traffic_monitor.Storage.{day_of, days_from, visited_days}

abbrev pub range : ℕ → ℕ → List ℕ
range lo zero = []
range lo (suc n) = lo ∷ range (suc lo) n

days_from_none :
    (fuel : ℕ) (current stop : Time) → stop ≤ current → days_from fuel current stop ≡ []
unfolding days_from
days_from_none zero current stop h = refl
days_from_none (suc fuel) current stop h = ground arith

days_from-range :
    (fuel n : ℕ) (current stop : Time)
    → n ≤ fuel
    → stop ≤ current + n * day_ns
    → current + n * day_ns < stop + day_ns
    → days_from fuel current stop ≡ range (day_of current) n
unfolding days_from
days_from-range zero zero current stop f h k = refl
days_from-range zero (suc n) current stop f h k = absurd (omega arith)
days_from-range (suc fuel) zero current stop f h k = ground arith
days_from-range (suc fuel) (suc n) current stop f h k =
    let later = add_days-pos current 1 in
    rw (lt→ltb current stop (omega arith), later)
      (ap (λ ds. day_of current ∷ ds)
        (days_from-range fuel n (current + 1 * day_ns) stop (omega arith) (omega arith)
            (omega arith)
          ∙ ap (λ d. range d n) (omega arith)))

pub visited_days-range :
    (start end : Time)
    → (n : ℕ) × (visited_days start end ≡ range (day_of start) n)
      × (start ≤ end → day_of end < day_of start + n)
unfolding visited_days
visited_days-range start end = elim (Bool-cases (ltb start (end + 1 * day_ns))) [
  | inl e ↦
      let n = (end + 1 * day_ns - start + (day_ns - 1)) / day_ns in
      let h = ltb→lt _ _ e in
      (
        n,
        rw (add_days-pos end 1) (
            days_from-range _ n start (end + 1 * day_ns) (omega arith) (omega arith) (omega arith)),
        λ le. omega arith,
      )
  | inr e ↦
      let h = ltb→le _ _ e in
      (
        0,
        rw (add_days-pos end 1) (days_from_none _ start (end + 1 * day_ns) h),
        λ le. absurd (omega arith),
      )
]

-- The loop over the days of a range ends by its own condition: on any fuel from the one that is given
-- on, one more than the whole days between its start and its stop, it visits the same days.
pub visited_days_fuel :
    (start end : Time) (fuel : ℕ)
    → suc ((add_days end (pos 1) - start) / day_ns) ≤ fuel
    → days_from fuel start (add_days end (pos 1)) ≡ visited_days start end
unfolding visited_days
visited_days_fuel start end fuel = elim (Bool-cases (ltb start (end + 1 * day_ns))) [
  | inl e ↦
      let n = (end + 1 * day_ns - start + (day_ns - 1)) / day_ns in
      let h = ltb→lt _ _ e in
      rw (add_days-pos end 1) (λ enough.
        days_from-range fuel n start (end + 1 * day_ns) (omega arith) (omega arith) (omega arith)
        ∙ sym (
            days_from-range _ n start (end + 1 * day_ns) (omega arith) (omega arith) (omega arith)))
  | inr e ↦
      let h = ltb→le _ _ e in
      rw (add_days-pos end 1) (λ enough.
        days_from_none fuel start (end + 1 * day_ns) h
        ∙ sym (days_from_none _ start (end + 1 * day_ns) h))
]
