-- ===== src/Api/Requests.antt =====
-- What the measurements say after any requests.
use pve_traffic_monitor.Base.{
  ℕ, ◌+◌, ◌≤◌, ◌≡◌, ◌∙◌, List, [], ◌∷◌, All, All-append, length, length-append, leb, ltb,
  Bool-cases, inl, inr, arith, if◌then◌else◌,
}
use pve_traffic_monitor.Api.{PerformanceStats, new_performance_stats, tail_of, record_request}

unfoldable pub record_requests : List ℕ → PerformanceStats → PerformanceStats
record_requests [] p = p
record_requests (d ∷ ds) p = record_requests ds (record_request d p)

abbrev pub sum_of : List ℕ → ℕ
sum_of [] = 0
sum_of (d ∷ ds) = d + sum_of ds

-- The recent durations are 100 at most and not more than the requests, and each lies between the least
-- and the greatest.
pub record IsMeasured (p : PerformanceStats) : Type 0 where
  pub few : length p.request_durations ≤ 100
  pub counted : length p.request_durations ≤ p.total_requests
  pub within : All (λ d. (p.min_duration ≤ d) × (d ≤ p.max_duration)) p.request_durations

new-IsMeasured : IsMeasured new_performance_stats
new-IsMeasured = record { few = omega arith; counted = omega arith; within = tt }

length-tail_of : (ds : List ℕ) → 1 ≤ length ds → length (tail_of ds) + 1 ≡ length ds
length-tail_of [] h = absurd (omega arith)
length-tail_of (d ∷ ds) h = omega arith

tail_of-All : (P : ℕ → Type 0) (ds : List ℕ) → All P ds → All P (tail_of ds)
tail_of-All P [] h = tt
tail_of-All P (d ∷ ds) h = h.1

wider :
    (lo hi lo' hi' : ℕ) (ds : List ℕ)
    → lo' ≤ lo
    → hi ≤ hi'
    → All (λ d. (lo ≤ d) × (d ≤ hi)) ds
    → All (λ d. (lo' ≤ d) × (d ≤ hi')) ds
wider lo hi lo' hi' [] h k a = tt
wider lo hi lo' hi' (d ∷ ds) h k a = ((omega arith, omega arith), wider lo hi lo' hi' ds h k a.1)

record_request-IsMeasured :
    (d : ℕ) (p : PerformanceStats) → IsMeasured p → IsMeasured (record_request d p)
unfolding record_request
record_request-IsMeasured d p h =
    let ds = p.request_durations in
    let cut = length-tail_of ds in
    let kept = if leb 100 (length ds) then tail_of ds else ds in
    let lo = if ltb d p.min_duration then d else p.min_duration in
    let hi = if ltb p.max_duration d then d else p.max_duration in
    let stays = λ (es : List ℕ) (a : All (λ e. (p.min_duration ≤ e) × (e ≤ p.max_duration)) es).
      wider p.min_duration p.max_duration lo hi es (ground arith) (ground arith) a in
    record {
      few = ground (arith, length-append kept (d ∷ []), h.few);
      counted = ground (arith, length-append kept (d ∷ []), h.counted);
      within =
          All-append _ kept (d ∷ [])
            (elim (Bool-cases (leb 100 (length ds))) [
              | inl e ↦ rw e (stays (tail_of ds) (tail_of-All _ ds h.within))
              | inr e ↦ rw e (stays ds h.within)
            ])
            ((ground arith, ground arith), tt);
    }

IsMeasured-requests :
    (ds : List ℕ) (p : PerformanceStats) → IsMeasured p → IsMeasured (record_requests ds p)
unfolding record_requests
IsMeasured-requests [] p h = h
IsMeasured-requests (d ∷ ds) p h = IsMeasured-requests ds _ (record_request-IsMeasured d p h)

totals :
    (ds : List ℕ) (p : PerformanceStats)
    → ((record_requests ds p).total_requests ≡ p.total_requests + length ds)
      × ((record_requests ds p).total_duration ≡ p.total_duration + sum_of ds)
unfolding record_requests record_request
totals [] p = (omega arith, omega arith)
totals (d ∷ ds) p =
    let rest = totals ds (record_request d p) in (omega (arith, rest.0), omega (arith, rest.1))

-- After any requests, their number and their durations are all counted, at most 100 durations are
-- kept, no more than there were requests, and each of these lies between the least and the greatest.
pub record_requests_lem :
    (ds : List ℕ)
    → let p = record_requests ds new_performance_stats in
      (p.total_requests ≡ length ds) × (p.total_duration ≡ sum_of ds) × IsMeasured p
record_requests_lem ds =
    let (n, t) = totals ds new_performance_stats in
    (n ∙ omega arith, t ∙ omega arith, IsMeasured-requests ds new_performance_stats new-IsMeasured)
