-- ===== src/Charts/Bars.antt =====
-- The widths of the bars and of the chart of all VMs.
use pve_traffic_monitor.Base.{
  ℕ, suc, ◌+◌, ◌*◌, ◌/◌, ◌≤◌, ◌≡◌, ◌↔◌, refl, inl, inr, true, false, ltb, ltb→lt, lt→ltb, ◌-◌, ◌∙◌,
  Bool-cases, arith, if◌then◌else◌,
}
use native.Mathlib.Nat.{le-div_iff_mul-le}
use pve_traffic_monitor.Base.Int.{pos, ◌-ℤ◌, pos_part}
use pve_traffic_monitor.Charts.{bar_width, chart_layout}

-- A bar is 60 or 80 wide before the chart's own width is cut: the branch for more than 20 VMs, which
-- stands behind that for more than 10, is never taken.
pub bar_width_lem : (n : ℕ) → bar_width n ≡ (if ltb 10 n then 60 else 80)
unfolding bar_width
bar_width_lem n = ground arith

wide : (n : ℕ) → ltb 35 n ≡ true → chart_layout n ≡ (pos (2800 / n) -ℤ pos 20, 3000)
unfolding chart_layout
wide n h =
    let more = ltb→lt 35 n h in
    let large : ltb 10 n ≡ true = lt→ltb 10 n (omega (arith, more)) in
    let width : bar_width n ≡ 60 = bar_width_lem n ∙ rw large refl in
    let wanted : ltb (n * 80 + 200) 1200 ≡ false = ground (arith, more) in
    let over : ltb 3000 (n * 80 + 200) ≡ true = lt→ltb _ _ (omega (arith, more)) in
    rw width (rw wanted (rw over refl))

narrow : (n : ℕ) → ltb 35 n ≡ false → 1 ≤ pos_part (chart_layout n).0
unfolding chart_layout bar_width
narrow n h = ground (arith, h)

part : (a : ℕ) → pos_part (pos a -ℤ pos 20) ≡ a - 20
unfolding ◌-ℤ◌
part a = ground arith

-- The chart is between 1200 and 3000 wide, for any number of VMs, and a bar has a width above zero
-- exactly up to 133 VMs: from there on the width is zero or negative.
pub chart_layout_bounds :
    (n : ℕ)
    → (1200 ≤ (chart_layout (suc n)).1)
      × ((chart_layout (suc n)).1 ≤ 3000)
      × ((1 ≤ pos_part (chart_layout (suc n)).0) ↔ (suc n ≤ 133))
unfolding chart_layout bar_width
chart_layout_bounds n =
    let enough = le-div_iff_mul-le {k = suc n} {x = 21} {y = 2800} (omega arith) in
    (
      ground arith,
      ground arith,
      elim (Bool-cases (ltb 35 (suc n))) [
        | inl e ↦ rw (wide (suc n) e) (
            rw (part (2800 / suc n)) (
              (λ h. omega (arith, h, enough.0 (omega (arith, h)))),
              (λ h. omega (arith, h, enough.1 (omega (arith, h)))),
            ))
        | inr e ↦ ((λ h. ground (arith, e)), (λ h. narrow (suc n) e))
      ],
    )
