-- ===== src/Period/Month.antt =====
-- Periods of a month: `add_months`, `month_period_start` and `month_period_index`.
use native.Mathlib.Decide.{dec_lt}
use mathlib.Core.Path.{sym}
use pve_traffic_monitor.Base.{
  ℕ, suc, ◌+◌, ◌-◌, ◌*◌, ◌/◌, ◌≤◌, ◌<◌, ◌≡◌, ◌≢◌, refl, ap, sym, ◌∙◌, inl, inr, ltb, ltb→lt, ltb→le,
  Bool-cases, arith,
}
use pve_traffic_monitor.Base.Int.{
  ℤ, pos, pos_part, neg_part, ◌+ℤ◌, ◌-ℤ◌, quot_ℤ, rem_ℤ, +ℤ_parts, -ℤ_parts, quot_parts, rem_parts,
  parts_zero,
}
use pve_traffic_monitor.Clock.{
  Time, hour_ns, minute_ns, day_ns, month_length, month_start, month_index, year, month, day, hour,
  minute, date, date_from, times,
}
use pve_traffic_monitor.Clock.Months.{
  month_length_range, month_start_step, fields_lem, fields_of_day, year-month, month_range,
  month_bounds, times_parts, clock_le, date_from_lem,
}
use pve_traffic_monitor.Period.{
  min_int, days_in_month, add_months, month_period_start, month_period_index,
}

-- The last day of a month has the number of its days.
pub days_in_month_lem :
    (y m : ℕ) → 1 ≤ y → 1 ≤ m → days_in_month y m ≡ month_length (y * 12 + m - 13)
unfolding days_in_month date_from month_start ◌+ℤ◌ ◌-ℤ◌
days_in_month_lem y m hy hm =
    let k = y * 12 + m - 13 in
    let next : month_start (y * 12 + (m + 1) - 13) ≡ month_start k + month_length k =
      ap month_start {y = suc k} (omega arith) in
    let some_days = month_length_range k in
    let last : date_from y (m + 1) (pos 0) 0 / day_ns ≡ month_start k + (month_length k - 1) =
      ground arith in
    omega (arith, fields_of_day _ k (month_length k - 1) last (omega arith))

-- `add_months` counts months without a gap, for any shift, forward or back: the month stays from 1
-- to 12, and the month's place in time moves by just the shift.
pub add_months_exact :
    (y m : ℕ) (delta : ℤ)
    → 1 ≤ m
    → let r = add_months y m delta in
      (pos_part r.0 * 12 + r.1 + neg_part delta ≡ neg_part r.0 * 12 + y * 12 + m + pos_part delta)
      × (1 ≤ r.1)
      × (r.1 ≤ 12)
unfolding add_months
add_months_exact y m delta h =
    let index = pos m -ℤ pos 1 +ℤ delta in
    let q = quot_ℤ index 12 in
    let r = rem_ℤ index 12 in
    ground (
      arith,
      -ℤ_parts (pos m) (pos 1),
      +ℤ_parts (pos m -ℤ pos 1) delta,
      parts_zero index,
      quot_parts index 12,
      rem_parts index 12,
      parts_zero r,
      +ℤ_parts r (pos 12),
      parts_zero (r +ℤ pos 12),
      +ℤ_parts (pos y) q,
      -ℤ_parts (pos y +ℤ q) (pos 1),
    )

min_int_range : (a b : ℕ) → 1 ≤ a → 1 ≤ b → (1 ≤ min_int a b) × (min_int a b ≤ b)
unfolding min_int
min_int_range a b ha hb = ground arith

-- The start that the creation time fixes in the month with index j: its day there, or the month's
-- last day, at its hour and minute.
abbrev pub anchor : Time → ℕ → Time
anchor c j =
    (month_start j + (min_int (day c) (month_length j) - 1)) * day_ns
    + (hour c * hour_ns + minute c * minute_ns)

-- `month_period_start` is the anchor in the month that lies `months` after that of the creation.
pub month_period_start-anchor :
    (c : Time) (months : ℤ) (j : ℕ)
    → month_index c + pos_part months ≡ j + neg_part months
    → month_period_start c months ≡ anchor c j
unfolding month_period_start date
month_period_start-anchor c months j e =
    let r = add_months (year c) (month c) months in
    let exact = add_months_exact (year c) (month c) months (month_range c).0 in
    let whole = parts_zero r.0 in
    let place : pos_part r.0 * 12 + r.1 - 13 ≡ j = ground (arith, year-month c, exact, whole) in
    let length =
      days_in_month_lem (pos_part r.0) r.1 (ground (arith, year-month c, exact, whole)) exact.1
      ∙ ap month_length place in
    let clamped =
      min_int_range (day c) (month_length j) (fields_lem c).1
        (omega (arith, month_length_range j)) in
    rw length (
      rw (date_from_lem (pos_part r.0) r.1 (min_int (day c) (month_length j)) _ clamped.0)
        (rw place refl))

-- A month's anchor lies in that month.
anchor_bounds :
    (c : Time) (j : ℕ)
    → (month_start j * day_ns ≤ anchor c j) × (anchor c j < month_start (suc j) * day_ns)
unfolding month_start
anchor_bounds c j = omega (
  arith,
  clock_le c,
  min_int_range (day c) (month_length j) (fields_lem c).1 (omega (arith, month_length_range j)),
)

-- The anchor in the creation's own month is the creation time without its seconds.
anchor_first : (c : Time) → anchor c (month_index c) ≤ c
unfolding min_int
anchor_first c = ground (arith, fields_lem c, clock_le c)

-- Times in later months are later.
month_order : (t u : Time) → month_index t < month_index u → t < u
unfolding month_start
month_order t u h =
    omega
      (arith, month_bounds t, month_bounds u, month_start_step (month_index t) (month_index u) h)

-- `months` counts from the creation's month to the month j, and j's period holds `now`.
pub record IsMonthPeriod (c now : Time) (months : ℤ) : Type 0 where
  pub at : ℕ
  pub counted : month_index c + pos_part months ≡ at + neg_part months
  pub starts : anchor c at ≤ now
  pub ends : now < anchor c (suc at)

months_between :
    (c now : Time)
    → let d = times (pos (year now) -ℤ pos (year c)) 12 +ℤ (pos (month now) -ℤ pos (month c)) in
      month_index c + pos_part d ≡ month_index now + neg_part d
months_between c now =
    let y = pos (year now) -ℤ pos (year c) in
    let m = pos (month now) -ℤ pos (month c) in
    omega (
      arith,
      -ℤ_parts (pos (year now)) (pos (year c)),
      -ℤ_parts (pos (month now)) (pos (month c)),
      times_parts y 12,
      +ℤ_parts (times y 12) m,
      year-month c,
      year-month now,
    )

module _ (c now : Time) (h : c ≤ now) where
  month_index_le : month_index c ≤ month_index now
  month_index_le = elim (dec_lt (month_index now) (month_index c)) [
    | yes p ↦ absurd (omega (arith, month_order now c p))
    | no p ↦ omega arith
  ]

  -- Before the anchor of its own month, `now` lies in the period of the month before.
  earlier_month :
      now < anchor c (month_index now)
      → (j : ℕ) × (suc j ≡ month_index now) × (anchor c j ≤ now) × (now < anchor c (suc j))
  earlier_month p =
      let j = month_index now - 1 in
      let own : month_index c ≢ month_index now =
        λ e. omega (arith, anchor_first c, ap (anchor c) e) in
      let e : suc j ≡ month_index now = omega (arith, own, month_index_le) in
      (
        j,
        e,
        omega (arith, anchor_bounds c j, month_bounds now, ap month_start e),
        omega (arith, ap (anchor c) e),
      )

pub month_period_index-IsMonthPeriod :
    (c now : Time) → c ≤ now → IsMonthPeriod c now (month_period_index c now)
unfolding month_period_index
month_period_index-IsMonthPeriod c now h =
    let d = times (pos (year now) -ℤ pos (year c)) 12 +ℤ (pos (month now) -ℤ pos (month c)) in
    let j = month_index now in
    let start = month_period_start-anchor c d j (months_between c now) in
    elim (Bool-cases (ltb now (month_period_start c d))) [
      | inl p ↦
          let (i, e, starts, ends) =
            earlier_month c now h (rw start at (ltb→lt now (month_period_start c d) p)) in
          rw p (record {
            at = i;
            counted = omega (arith, months_between c now, -ℤ_parts d (pos 1));
            starts = starts;
            ends = ends;
          })
      | inr p ↦ rw p (record {
        at = j;
        counted = months_between c now;
        starts = rw start at (ltb→le now (month_period_start c d) p);
        ends = omega (arith, month_bounds now, anchor_bounds c (suc j));
      })
    ]

-- The month's period that the code computes holds `now`: it has started, and the next one, which
-- starts at the anchor in the month after, has not.
pub month_period_holds :
    (c now : Time)
    → c ≤ now
    → (month_period_start c (month_period_index c now) ≤ now)
      × (now < month_period_start c (month_period_index c now +ℤ pos 1))
month_period_holds c now h =
    let p = month_period_index-IsMonthPeriod c now h in
    let k = month_period_index c now in
    let this = month_period_start-anchor c k p.at p.counted in
    let following =
      month_period_start-anchor c (k +ℤ pos 1) (suc p.at)
        (omega (arith, p.counted, +ℤ_parts k (pos 1))) in
    (rw this p.starts, rw following p.ends)

anchor_step : (c : Time) (i j : ℕ) → i < j → anchor c i < anchor c j
unfolding month_start
anchor_step c i j h = omega (arith, anchor_bounds c i, anchor_bounds c j, month_start_step i j h)

-- Month periods join: at the moment the next one starts, it is the current one.
pub month_period_joins :
    (c now : Time)
    → c ≤ now
    → let next = month_period_start c (month_period_index c now +ℤ pos 1) in
      month_period_start c (month_period_index c next) ≡ next
month_period_joins c now h =
    let k = month_period_index c now in
    let p = month_period_index-IsMonthPeriod c now h in
    let next = month_period_start c (k +ℤ pos 1) in
    let e : next ≡ anchor c (suc p.at) =
      month_period_start-anchor c (k +ℤ pos 1) (suc p.at)
        (omega (arith, p.counted, +ℤ_parts k (pos 1))) in
    let q =
      month_period_index-IsMonthPeriod c next (omega (arith, h, month_period_holds c now h)) in
    let same : q.at ≡ suc p.at = elim (dec_lt q.at (suc p.at)) [
      | yes lt ↦ absurd (not_before lt e q.ends)
      | no ge ↦ elim (dec_lt (suc p.at) q.at) [
        | yes gt ↦ absurd (omega (arith, anchor_step c (suc p.at) q.at gt, q.starts, e))
        | no le ↦ omega arith
      ]
    ] in
    month_period_start-anchor c (month_period_index c next) q.at q.counted
    ∙ ap (anchor c) same
    ∙ sym e
  where
    not_before : {i j : ℕ} {next : Time} → i < j → next ≡ anchor c j → next < anchor c (suc i) → ⊥
    not_before {i} {j} h e lt = elim (dec_lt (suc i) j) [
      | yes p ↦ omega (arith, anchor_step c (suc i) j p)
      | no p ↦ let s : suc i ≡ j = omega arith in omega (arith, ap (anchor c) s)
    ]
