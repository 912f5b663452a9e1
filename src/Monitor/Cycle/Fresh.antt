-- ===== src/Monitor/Cycle/Fresh.antt =====
-- The statistics that a cycle computes, and the records on the disk.
use pve_traffic_monitor.Base.{
  ℕ, ◌≡◌, refl, ap, ◌∙◌, Bool, true, false, not, ◌&&◌, Option, none, some, ==_iff, Bool-cases, inl,
  inr, arith, if◌then◌else◌,
}
use pve_traffic_monitor.Base.Float.{Float}
use pve_traffic_monitor.Base.Result.{Result, ok, err}
use pve_traffic_monitor.Clock.{Time, is_zero}
use pve_traffic_monitor.Models.{PeriodType, Direction, TrafficStats, period_text, direction_text}
use pve_traffic_monitor.Network.{PveError}
use pve_traffic_monitor.Cache.{TrafficCache, get, invalidate}
use pve_traffic_monitor.Cache.Laws.{get-invalidate}
use pve_traffic_monitor.Client.{Pve}
use pve_traffic_monitor.Client.Creation.{get_vm_creation_time}
use pve_traffic_monitor.Storage.Stats.{calculate_traffic_stats_with_direction}
use pve_traffic_monitor.Monitor.Cycle.{
  RuleReadings, Monitor, start_period, started, with_world, store_stats, unless_cached,
  calculate_traffic_stats_with_cache,
}

abbrev pub time_or_zero : Result PveError Time → Time
time_or_zero (ok t) = t
time_or_zero (err e) = 0

module _ (pve : Pve) (fl : Float) where
  store_stats-first :
      (now : Time) (vmid : ℕ) (period : PeriodType) (direction : Direction) (start : Time)
      (o : Option (TrafficStats fl.F)) (m : Monitor pve fl)
      → (store_stats pve fl now vmid period direction start o m).0 ≡ o
  store_stats-first now vmid period direction start none m = refl
  store_stats-first now vmid period direction start (some stats) m = refl

  -- The creation time that is used: that of the answer, where the rule asks for it.
  abbrev pub creation_used : Bool → ℕ → pve.World → Time
  creation_used true vmid w = time_or_zero (get_vm_creation_time pve vmid w).0
  creation_used false vmid w = 0

  started-creation :
      (period : PeriodType) (now creation : Time) (answer : Result PveError Time × pve.World)
      → (started pve fl period now creation answer).0.0 ≡ time_or_zero answer.0
  started-creation period now creation (ok ct, w) = refl
  started-creation period now creation (err e, w) = refl

  start_period-creation :
      (use_creation : Bool) (vmid : ℕ) (period : PeriodType) (now creation : Time) (w : pve.World)
      → (start_period pve fl use_creation vmid period now creation w).0.0
        ≡ creation_used use_creation vmid w
  start_period-creation true vmid period now creation w =
      started-creation period now creation (get_vm_creation_time pve vmid w)
  start_period-creation false vmid period now creation w = refl

  get_invalidated :
      (now : Time) (c : TrafficCache (TrafficStats fl.F)) (vmid : ℕ) (period : PeriodType)
      (direction : Direction) (start : Time)
      → get now (invalidate c vmid) vmid (period_text period) (direction_text direction) start
        ≡ none
  get_invalidated now c vmid period direction start =
      get-invalidate now c vmid vmid (period_text period) (direction_text direction) start
      ∙ rw ((==_iff vmid vmid).1 refl) refl

  -- A creation time of zero, or one that is not asked for, stands for the fixed period.
  stats_of_creation :
      (now : Time) (vmid : ℕ) (period : PeriodType) (direction : Direction) (use_creation : Bool)
      (ct : Time) (m : Monitor pve fl)
      → (if use_creation && not (is_zero ct)
          then calculate_traffic_stats_with_direction fl now vmid period ct true direction m.storage
          else calculate_traffic_stats_with_direction fl now vmid period 0 false direction
              m.storage)
        ≡ calculate_traffic_stats_with_direction fl now vmid period ct use_creation direction
            m.storage
  unfolding calculate_traffic_stats_with_direction
  stats_of_creation now vmid period direction true ct m = elim (Bool-cases (is_zero ct)) [
    | inl q ↦ rw q refl
    | inr q ↦ rw q refl
  ]
  stats_of_creation now vmid period direction false ct m = refl

  unless_cached-none :
      (now : RuleReadings) (vmid : ℕ) (period : PeriodType) (direction : Direction)
      (use_creation : Bool) (ct start : Time) (m : Monitor pve fl)
      (cached : Option (TrafficStats fl.F))
      → cached ≡ none
      → (unless_cached pve fl now vmid period direction use_creation ct start m cached).0
        ≡ calculate_traffic_stats_with_direction fl now.stats_now vmid period ct use_creation
            direction m.storage
  unless_cached-none now vmid period direction use_creation ct start m none e =
      store_stats-first _ vmid period direction start _ m
      ∙ stats_of_creation now.stats_now vmid period direction use_creation ct m
  unless_cached-none now vmid period direction use_creation ct start m (some stats) e = ground arith

  -- After a VM's entries are removed from the cache, as they are when a record of it is saved, its
  -- statistics are those that the storage computes from its records, from the creation time that the
  -- server tells if the rule asks for it, and from a fixed period otherwise or if the server tells none.
  pub calculate_traffic_stats_with_cache_fresh :
      (now : RuleReadings) (vmid : ℕ) (period : PeriodType) (direction : Direction)
      (use_creation : Bool) (creation : Time) (m : Monitor pve fl)
      → (calculate_traffic_stats_with_cache pve fl now vmid period direction use_creation creation
          (record m { cache = invalidate m.cache vmid })).0.0
        ≡ calculate_traffic_stats_with_direction fl now.stats_now vmid period
            (creation_used use_creation vmid m.acted.world)
            use_creation
            direction
            m.storage
  unfolding calculate_traffic_stats_with_cache
  calculate_traffic_stats_with_cache_fresh now vmid period direction use_creation creation m =
      let began =
        start_period pve fl use_creation vmid period now.period_now creation m.acted.world in
      unless_cached-none now vmid period direction use_creation began.0.0 began.0.1
        (with_world pve fl began.1 (record m { cache = invalidate m.cache vmid })) _
        (get_invalidated now.get_now m.cache vmid period direction began.0.1)
      ∙ ap
          (λ ct.
            calculate_traffic_stats_with_direction fl now.stats_now vmid period ct use_creation
              direction m.storage)
          (start_period-creation use_creation vmid period now.period_now creation m.acted.world)
