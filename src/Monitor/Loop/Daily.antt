-- ===== src/Monitor/Loop/Daily.antt =====
-- When old data is removed.
use pve_traffic_monitor.Base.{
  ℕ, zero, suc, ◌+◌, ◌*◌, ◌%◌, ◌-◌, ◌≤◌, ◌<◌, ◌≡◌, ◌≢◌, refl, sym, ap, ◌∙◌, subst, List, [], ◌∷◌,
  ◌++◌, true, ltb, All, arith,
}
use pve_traffic_monitor.Base.Int.{pos}
use pve_traffic_monitor.Base.Float.{Float}
use pve_traffic_monitor.Clock.{Time, hour_ns, day, hour}
use pve_traffic_monitor.Client.{Pve}
use pve_traffic_monitor.Storage.Removal.{cleanup_old_data}
use pve_traffic_monitor.Monitor.Actions.{Power}
use pve_traffic_monitor.Monitor.Cycle.{Node}
use pve_traffic_monitor.Monitor.Apply.{VmReadings}
use pve_traffic_monitor.Monitor.Loop.{
  LoopConfig, Event, cycle, recovery, old_data, clear_cache, new_interval, Loop, is_due,
  clean_daily, handle, run,
}

-- The events of a run in which the ticker for old data ticks n times, an hour apart and first at t,
-- with any other events between.
pub data Hourly (F : Type 0) : ℕ → Time → List (LoopConfig F × Event) → Type 0 where
  finished : {t : Time} → Hourly F zero t []
  ticked :
      {n : ℕ} {t : Time} {events : List (LoopConfig F × Event)} (config : LoopConfig F)
      → Hourly F n (t + hour_ns) events
      → Hourly F (suc n) t ((config, old_data t) ∷ events)
  cycled :
      {n : ℕ} {t : Time} {events : List (LoopConfig F × Event)} (config : LoopConfig F)
      (now : ℕ → VmReadings)
      → Hourly F n t events
      → Hourly F n t ((config, cycle now) ∷ events)
  recovered :
      {n : ℕ} {t : Time} {events : List (LoopConfig F × Event)} (config : LoopConfig F) (now : Time)
      → Hourly F n t events
      → Hourly F n t ((config, recovery now) ∷ events)
  cleared :
      {n : ℕ} {t : Time} {events : List (LoopConfig F × Event)} (config : LoopConfig F)
      → Hourly F n t events
      → Hourly F n t ((config, clear_cache) ∷ events)
  adjusted :
      {n : ℕ} {t : Time} {events : List (LoopConfig F × Event)} (config : LoopConfig F)
      (seconds : ℕ)
      → Hourly F n t events
      → Hourly F n t ((config, new_interval seconds) ∷ events)

-- The events of a run without the ticks for old data.
unfoldable pub others : {F : Type 0} → List (LoopConfig F × Event) → List (LoopConfig F × Event)
others [] = []
others ((config, old_data t) ∷ events) = others events
others ((config, cycle now) ∷ events) = (config, cycle now) ∷ others events
others ((config, recovery now) ∷ events) = (config, recovery now) ∷ others events
others ((config, clear_cache) ∷ events) = (config, clear_cache) ∷ others events
others ((config, new_interval seconds) ∷ events) = (config, new_interval seconds) ∷ others events

-- The configuration keeps records for so many days.
abbrev pub Keeps : {F : Type 0} → ℕ → LoopConfig F × Event → Type 0
Keeps days (config, event) = config.data_retention_days ≡ pos days

-- The first time from t on, in steps of an hour, that falls into the hour of three.
abbrev pub at_three : Time → Time
at_three t = t + (27 - hour t) % 24 * hour_ns

hour_later : (t k : ℕ) → hour (t + k * hour_ns) ≡ (hour t + k) % 24
unfolding hour
hour_later t k = omega arith

hour_range : (t : Time) → hour t < 24
unfolding hour
hour_range t = omega arith

next_tick : (t k : ℕ) → t + suc k * hour_ns ≡ t + hour_ns + k * hour_ns
next_tick t k = omega arith

first_tick : (t : ℕ) → t + 0 * hour_ns ≡ t
first_tick t = omega arith

module _ (pve : Pve) (fl : Float) where
  -- The loop after a removal of the records that are older than so many days.
  abbrev pub removed : Time → ℕ → Loop pve fl → Loop pve fl
  removed t days l =
      let m = l.monitor in
      record l {
        monitor = record m { storage = cleanup_old_data t (pos days) m.storage };
        last_cleanup_day = day t;
      }

module _ (pve : Pve) (fl : Float) (power : Power pve) (node : Node pve) where
  abbrev Events : Type 0
  Events = List (LoopConfig fl.F × Event)

  tick_at_three :
      (config : LoopConfig fl.F) (t : Time) (days : ℕ) (l : Loop pve fl)
      → hour t ≡ 3
      → day t ≢ l.last_cleanup_day
      → config.data_retention_days ≡ pos (suc days)
      → clean_daily pve fl config t l ≡ removed pve fl t (suc days) l
  unfolding clean_daily is_due
  tick_at_three config t days l h new keeps =
      let due : is_due pve fl t l ≡ true = ground arith in
      let positive : ltb 0 (suc days) ≡ true = ground arith in rw due (rw keeps (rw positive refl))

  tick_else :
      (config : LoopConfig fl.F) (t : Time) (l : Loop pve fl)
      → hour t ≢ 3
      → clean_daily pve fl config t l ≡ l
  unfolding clean_daily is_due
  tick_else config t l h = ground arith

  run-quiet :
      (n : ℕ) (t : Time) (events : Events) (l : Loop pve fl)
      → Hourly fl.F n t events
      → ((k : ℕ) → k < n → hour (t + k * hour_ns) ≢ 3)
      → run pve fl power node events l ≡ run pve fl power node (others events) l
  unfolding run handle others
  run-quiet n t events l finished h = refl
  run-quiet n t ((c, e) ∷ events) l (ticked config rest) h =
      ap (run pve fl power node events)
        (tick_else config t l (subst (λ u. hour u ≢ 3) (first_tick t) (h 0 (omega arith))))
      ∙ run-quiet _ (t + hour_ns) _ l rest
          (λ k lt. subst (λ u. hour u ≢ 3) (next_tick t k) (h (suc k) (omega arith)))
  run-quiet n t events l (cycled config now rest) h = run-quiet _ t _ _ rest h
  run-quiet n t events l (recovered config now rest) h = run-quiet _ t _ _ rest h
  run-quiet n t events l (cleared config rest) h = run-quiet _ t _ _ rest h
  run-quiet n t events l (adjusted config seconds rest) h = run-quiet _ t _ _ rest h

  -- The events fall into those before a tick at u and those after it, and in the run the tick removes
  -- old records and no other tick does anything.
  abbrev pub RemovesOnce : Time → ℕ → Events → Loop pve fl → Type 0
  RemovesOnce u days events l =
      (before : Events) × (after : Events) × (config : LoopConfig fl.F) × (events
        ≡ before ++ ((config, old_data u) ∷ after))
      × (run pve fl power node events l
          ≡ run pve fl power node (others after)
              (removed pve fl u days (run pve fl power node (others before) l)))

  RemovesOnce-other :
      (u : Time) (days : ℕ) (config : LoopConfig fl.F) (event : Event) (events : Events)
      (l : Loop pve fl)
      → others ((config, event) ∷ []) ≡ (config, event) ∷ []
      → RemovesOnce u days events (handle pve fl power node config event l)
      → RemovesOnce u days ((config, event) ∷ events) l
  unfolding run others
  RemovesOnce-other u days config (cycle now) events l h (before, after, c, e, same) =
      ((config, cycle now) ∷ before, after, c, ap (λ es. (config, cycle now) ∷ es) e, same)
  RemovesOnce-other u days config (recovery now) events l h (before, after, c, e, same) =
      ((config, recovery now) ∷ before, after, c, ap (λ es. (config, recovery now) ∷ es) e, same)
  RemovesOnce-other u days config (old_data t) events l h r =
      let wrong : [] ≡ (config, old_data t) ∷ [] = h in cc wrong
  RemovesOnce-other u days config clear_cache events l h (before, after, c, e, same) =
      ((config, clear_cache) ∷ before, after, c, ap (λ es. (config, clear_cache) ∷ es) e, same)
  RemovesOnce-other u days config (new_interval s) events l h (before, after, c, e, same) = (
    (config, new_interval s) ∷ before,
    after,
    c,
    ap (λ es. (config, new_interval s) ∷ es) e,
    same,
  )

  -- The k-th tick falls at three, and with at most 24 ticks no later one does.
  run-at_three :
      (n k : ℕ) (t : Time) (days : ℕ) (events : Events) (l : Loop pve fl)
      → Hourly fl.F n t events
      → All (Keeps (suc days)) events
      → k < n
      → n ≤ 24
      → hour (t + k * hour_ns) ≡ 3
      → day (t + k * hour_ns) ≢ l.last_cleanup_day
      → RemovesOnce (t + k * hour_ns) (suc days) events l
  unfolding run handle others
  run-at_three n k t days events l finished keeps lt le h new = elim lt [ ]
  run-at_three n zero t days ((c, e) ∷ events) l (ticked config rest) keeps lt le h new =
      let now : hour t ≡ 3 = sym (ap hour (first_tick t)) ∙ h in
      let unused : day t ≢ l.last_cleanup_day =
        subst (λ u. day u ≢ l.last_cleanup_day) (first_tick t) new in
      subst (λ u. RemovesOnce u (suc days) ((config, old_data t) ∷ events) l) (sym (first_tick t))
        (
          [],
          events,
          config,
          refl,
          ap (run pve fl power node events) (tick_at_three config t days l now unused keeps.0)
              ∙ run-quiet _ (t + hour_ns) events _ rest (λ j below.
                λ again. omega (arith, hour_later t (suc j), ap hour (next_tick t j), now, again)),
        )
  run-at_three n (suc k) t days ((c, e) ∷ events) l (ticked config rest) keeps lt le h new =
      let now : hour t ≢ 3 = λ again. omega (arith, hour_later t (suc k), again, h) in
      let (before, after, d, e, same) =
        run-at_three _ k (t + hour_ns) days events l rest keeps.1 (omega arith) (omega arith)
          (ap hour (sym (next_tick t k)) ∙ h)
          (subst (λ u. day u ≢ l.last_cleanup_day) (next_tick t k) new) in
      subst (λ u. RemovesOnce u (suc days) ((config, old_data t) ∷ events) l) (sym (next_tick t k))
        (
          (config, old_data t) ∷ before,
          after,
          d,
          ap (λ es. (config, old_data t) ∷ es) e,
          ap (run pve fl power node events) (tick_else config t l now) ∙ same,
        )
  run-at_three n k t days ((c, e) ∷ events) l (cycled config now rest) keeps lt le h new =
      RemovesOnce-other _ _ config (cycle now) events l refl
        (run-at_three _ k t days events _ rest keeps.1 lt le h new)
  run-at_three n k t days ((c, e) ∷ events) l (recovered config now rest) keeps lt le h new =
      RemovesOnce-other _ _ config (recovery now) events l refl
        (run-at_three _ k t days events _ rest keeps.1 lt le h new)
  run-at_three n k t days ((c, e) ∷ events) l (cleared config rest) keeps lt le h new =
      RemovesOnce-other _ _ config clear_cache events l refl
        (run-at_three _ k t days events _ rest keeps.1 lt le h new)
  run-at_three n k t days ((c, e) ∷ events) l (adjusted config seconds rest) keeps lt le h new =
      RemovesOnce-other _ _ config (new_interval seconds) events l refl
        (run-at_three _ k t days events _ rest keeps.1 lt le h new)

  -- In any run in which the ticker for old data ticks 24 times, an hour apart, whatever happens
  -- between, and the configuration always keeps records for the same number of days, more than zero,
  -- one tick falls into the hour of three. Where its day of the month is not that of the last removal or
  -- of the start, this tick removes the records that are older than these days, and the run is
  -- otherwise that of the events without the ticks: no other tick removes or changes anything.
  pub run_daily :
      (t : Time) (days : ℕ) (events : List (LoopConfig fl.F × Event)) (l : Loop pve fl)
      → Hourly fl.F 24 t events
      → All (Keeps (suc days)) events
      → day (at_three t) ≢ l.last_cleanup_day
      → (hour (at_three t) ≡ 3) × RemovesOnce (at_three t) (suc days) events l
  run_daily t days events l ticks keeps new =
      let k = (27 - hour t) % 24 in
      let three : hour (t + k * hour_ns) ≡ 3 = omega (arith, hour_later t k, hour_range t) in
      (three, run-at_three 24 k t days events l ticks keeps (omega arith) (omega arith) three new)
