-- ===== src/Charts/Ranking.antt =====
-- The order in which the statistics of the VMs are exported.
use pve_traffic_monitor.Base.{
  ℕ, zero, suc, ◌+◌, ◌≤◌, ◌≡◌, refl, ap, inl, inr, Bool, List, [], ◌∷◌, All, length, ltb, ltb→le,
  ltb→lt, Bool-cases, arith, if◌then◌else◌,
}
use pve_traffic_monitor.Models.{Direction, TrafficStats}
use pve_traffic_monitor.Charts.{bytes_for, swap_pass, sort_from, sorted_stats}

module _ {F : Type 0} where
  abbrev pub count : (TrafficStats F → Bool) → List (TrafficStats F) → ℕ
  count p [] = 0
  count p (s ∷ ss) = (if p s then 1 else 0) + count p ss

  -- No element is followed by a larger one.
  abbrev pub IsDescending : (TrafficStats F → ℕ) → List (TrafficStats F) → Type 0
  IsDescending bytes [] = Unit
  IsDescending bytes (s ∷ ss) = All (λ t. bytes t ≤ bytes s) ss × IsDescending bytes ss

  module _ (bytes : TrafficStats F → ℕ) where
    swap_pass-count :
        (p : TrafficStats F → Bool) (x : TrafficStats F) (xs : List (TrafficStats F))
        → let r = swap_pass bytes x xs in
          (count p (r.0 ∷ r.1) ≡ count p (x ∷ xs)) × (length r.1 ≡ length xs)
    unfolding swap_pass
    swap_pass-count p x [] = (refl, refl)
    swap_pass-count p x (y ∷ ys) = elim (Bool-cases (ltb (bytes x) (bytes y))) [
      | inl e ↦ let k = swap_pass-count p y ys in rw e (omega (arith, k.0), ap suc k.1)
      | inr e ↦ let k = swap_pass-count p x ys in rw e (omega (arith, k.0), ap suc k.1)
    ]

    swap_pass-All :
        (P : TrafficStats F → Type 0) (x : TrafficStats F) (xs : List (TrafficStats F))
        → P x
        → All P xs
        → let r = swap_pass bytes x xs in P r.0 × All P r.1
    unfolding swap_pass
    swap_pass-All P x [] px h = (px, tt)
    swap_pass-All P x (y ∷ ys) px h = elim (Bool-cases (ltb (bytes x) (bytes y))) [
      | inl e ↦ let k = swap_pass-All P y ys h.0 h.1 in rw e (k.0, (px, k.1))
      | inr e ↦ let k = swap_pass-All P x ys px h.1 in rw e (k.0, (h.0, k.1))
    ]

    -- What comes to place i is the largest.
    swap_pass-largest :
        (x : TrafficStats F) (xs : List (TrafficStats F))
        → let r = swap_pass bytes x xs in (bytes x ≤ bytes r.0) × All (λ t. bytes t ≤ bytes r.0) r.1
    unfolding swap_pass
    swap_pass-largest x [] = (omega arith, tt)
    swap_pass-largest x (y ∷ ys) = elim (Bool-cases (ltb (bytes x) (bytes y))) [
      | inl e ↦
          let l = ltb→lt _ _ e in
          let k = swap_pass-largest y ys in
          rw e (omega (arith, l, k.0), (omega (arith, l, k.0), k.1))
      | inr e ↦
          let l = ltb→le _ _ e in
          let k = swap_pass-largest x ys in rw e (k.0, (omega (arith, l, k.0), k.1))
    ]

    sort_from-All :
        (P : TrafficStats F → Type 0) (n : ℕ) (xs : List (TrafficStats F))
        → All P xs
        → All P (sort_from bytes n xs)
    unfolding sort_from
    sort_from-All P zero xs h = tt
    sort_from-All P (suc n) [] h = tt
    sort_from-All P (suc n) (x ∷ xs) h =
        let k = swap_pass-All P x xs h.0 h.1 in (k.0, sort_from-All P n _ k.1)

    sort_from-IsDescending :
        (n : ℕ) (xs : List (TrafficStats F)) → IsDescending bytes (sort_from bytes n xs)
    unfolding sort_from
    sort_from-IsDescending zero xs = tt
    sort_from-IsDescending (suc n) [] = tt
    sort_from-IsDescending (suc n) (x ∷ xs) =
        let pass = swap_pass bytes x xs in
        (
          sort_from-All (λ t. bytes t ≤ bytes pass.0) n pass.1 (swap_pass-largest x xs).1,
          sort_from-IsDescending n pass.1,
        )

    sort_from-count :
        (p : TrafficStats F → Bool) (n : ℕ) (xs : List (TrafficStats F))
        → length xs ≡ n
        → count p (sort_from bytes n xs) ≡ count p xs
    unfolding sort_from
    sort_from-count p zero [] h = refl
    sort_from-count p zero (x ∷ xs) h = omega (arith, h)
    sort_from-count p (suc n) [] h = refl
    sort_from-count p (suc n) (x ∷ xs) h =
        let k = swap_pass-count p x xs in
        omega (arith, k.0, sort_from-count p n (swap_pass bytes x xs).1 (omega (arith, k.1, h)))

  -- The loops that swap elements put the statistics in the order of the bytes of the direction, the
  -- largest first, and keep each as often as it was there.
  pub sorted_stats-IsDescending :
      (direction : Direction) (stats : List (TrafficStats F))
      → IsDescending (bytes_for direction) (sorted_stats direction stats)
        × ((p : TrafficStats F → Bool) → count p (sorted_stats direction stats) ≡ count p stats)
  unfolding sorted_stats
  sorted_stats-IsDescending direction stats = (
    sort_from-IsDescending (bytes_for direction) (length stats) stats,
    (λ p. sort_from-count (bytes_for direction) p (length stats) stats refl),
  )
