-- ===== src/Monitor/Cycle.antt =====
-- One cycle of the monitor, cmd/monitor/main.go: collectAndProcess, processVM, applyRules and
-- calculateTrafficStatsWithCache. The workers that share out the VMs are modelled one VM after the
-- other, in the order of a list. GetVMStatus's counters and the list of VMs are parameters.
pub mod Fresh
use pve_traffic_monitor.Base.{
  ℕ, suc, ◌+◌, ◌%◌, ◌^◌, Bool, true, false, not, ◌&&◌, ◌||◌, List, [], ◌∷◌, Option, none, some,
  length, ◌==◌, if◌then◌else◌,
}
use pve_traffic_monitor.Base.Float.{Float}
use pve_traffic_monitor.Base.Result.{Result, ok, err}
use pve_traffic_monitor.Base.Text.{Text, text_eq}
use pve_traffic_monitor.Clock.{Time, year, month, day, hour, date, is_zero}
use pve_traffic_monitor.Models.{
  PeriodType, Direction, TrafficRecord, TrafficStats, period_text, direction_text,
}
use pve_traffic_monitor.Traffic.{default_direction, add_u64}
use pve_traffic_monitor.Rules.{Rule, VmInfo, vm_matches_rule}
use pve_traffic_monitor.Network.{PveError}
use pve_traffic_monitor.Cache.{TrafficCache, get, set, invalidate}
use pve_traffic_monitor.Client.{Pve, Op, auto_tag_by_traffic_with_rule}
use pve_traffic_monitor.Client.Creation.{get_vm_creation_time}
use pve_traffic_monitor.Storage.{FileStorage, save_traffic_record}
use pve_traffic_monitor.Storage.Stats.{
  calculate_period_start, calculate_traffic_stats_with_direction,
}
use pve_traffic_monitor.Monitor.Actions.{Power, Readings, Acted, execute_action}

pub record Node (pve : Pve) : Type 0 where
  pub get_counters : ℕ → Op pve (ℕ × ℕ)
  pub get_all_vms : Bool → Op pve (List VmInfo)

-- calculateFixedPeriodStart
unfoldable pub calculate_fixed_period_start : PeriodType → Time → Time
calculate_fixed_period_start PeriodType.hour now =
    date (year now) (month now) (day now) (hour now) 0
calculate_fixed_period_start PeriodType.day now = date (year now) (month now) (day now) 0 0
calculate_fixed_period_start PeriodType.month now = date (year now) (month now) 1 0 0
calculate_fixed_period_start _ now = now

-- The readings of the clock for one rule: for the period, by the cache, by the storage and by the
-- cache again; and those of its action.
pub record RuleReadings : Type 0 where
  pub period_now : Time
  pub get_now : Time
  pub stats_now : Time
  pub set_now : Time
  pub action : Readings

-- StatsKey, and the comparison of two.
pub record StatsKey : Type 0 where
  pub period : Text
  pub direction : Text
  pub use_creation_time : Bool

abbrev pub same_bool : Bool → Bool → Bool
same_bool true b = b
same_bool false b = not b

abbrev pub same_key : StatsKey → StatsKey → Bool
same_key k j =
    text_eq k.period j.period
    && text_eq k.direction j.direction
    && same_bool k.use_creation_time j.use_creation_time

abbrev pub find_stats {ℓ} : {S : Type ℓ} → StatsKey → List (StatsKey × S) → Option S
find_stats key [] = none
find_stats key ((k, stats) ∷ rest) = if same_key k key then some stats else find_stats key rest

abbrev pub key_of : {F : Type 0} → Rule F → StatsKey
key_of rule = record {
  period = period_text rule.period;
  direction = direction_text (default_direction rule.traffic_direction);
  use_creation_time = rule.use_creation_time;
}

module _ (pve : Pve) (fl : Float) where
  pub record Monitor : Type 0 where
    pub acted : Acted pve fl
    pub storage : FileStorage
    pub cache : TrafficCache (TrafficStats fl.F)

  -- The statistics that are kept for a cycle, the variable vmCreationTime, and the monitor.
  pub record Collected : Type 0 where
    pub stats_map : List (StatsKey × TrafficStats fl.F)
    pub creation : Time
    pub monitor : Monitor

  -- The creation time of a VM, or 0, the start of its period, and what vmCreationTime is then.
  abbrev pub Started : Type 0
  Started = Time × Time × Time

  abbrev pub started :
      PeriodType → Time → Time → Result PveError Time × pve.World → Started × pve.World
  started period now creation (ok ct, w) = ((ct, calculate_period_start period ct now, ct), w)
  started period now creation (err e, w) =
      ((0, calculate_fixed_period_start period now, creation), w)

  abbrev pub start_period : Bool → ℕ → PeriodType → Time → Time → pve.World → Started × pve.World
  start_period true vmid period now creation w =
      started period now creation (get_vm_creation_time pve vmid w)
  start_period false vmid period now creation w =
      ((0, calculate_fixed_period_start period now, creation), w)

  abbrev pub with_world : pve.World → Monitor → Monitor
  with_world w m = record m { acted = record m.acted { world = w } }

  -- What the storage computes is put into the cache.
  abbrev pub store_stats :
      Time
      → ℕ
      → PeriodType
      → Direction
      → Time
      → Option (TrafficStats fl.F)
      → Monitor
      → Option (TrafficStats fl.F) × Monitor
  store_stats now vmid period direction start none m = (none, m)
  store_stats now vmid period direction start (some stats) m = (
    some stats,
    record m {
      cache = set now m.cache vmid (period_text period) (direction_text direction) start stats;
    },
  )

  abbrev pub unless_cached :
      RuleReadings
      → ℕ
      → PeriodType
      → Direction
      → Bool
      → Time
      → Time
      → Monitor
      → Option (TrafficStats fl.F)
      → Option (TrafficStats fl.F) × Monitor
  unless_cached now vmid period direction use_creation ct start m (some stats) = (some stats, m)
  unless_cached now vmid period direction use_creation ct start m none =
      store_stats now.set_now vmid period direction start
        (if use_creation && not (is_zero ct)
          then calculate_traffic_stats_with_direction fl now.stats_now vmid period ct true direction
              m.storage
          else calculate_traffic_stats_with_direction fl now.stats_now vmid period 0 false direction
              m.storage)
        m

  -- With the variable vmCreationTime as it is before and after.
  unfoldable pub calculate_traffic_stats_with_cache :
      RuleReadings
      → ℕ
      → PeriodType
      → Direction
      → Bool
      → Time
      → Monitor
      → (Option (TrafficStats fl.F) × Monitor) × Time
  calculate_traffic_stats_with_cache now vmid period direction use_creation creation m =
      let ((ct, start, creation'), w) =
        start_period use_creation vmid period now.period_now creation m.acted.world in
      (
        unless_cached now vmid period direction use_creation ct start (with_world w m)
            (get now.get_now m.cache vmid (period_text period) (direction_text direction) start),
        creation',
      )

  -- matchedRules
  unfoldable pub matched_rules : VmInfo → List (Rule fl.F) → List (Rule fl.F)
  matched_rules vm [] = []
  matched_rules vm (rule ∷ rules) =
      let rest = matched_rules vm rules in
      if not rule.enabled then rest else if not (vm_matches_rule vm rule) then rest else rule ∷ rest

  abbrev pub keep_stats :
      StatsKey
      → List (StatsKey × TrafficStats fl.F)
      → (Option (TrafficStats fl.F) × Monitor) × Time
      → Collected
  keep_stats key stats_map ((none, m), creation) = record {
    stats_map = stats_map;
    creation = creation;
    monitor = m;
  }
  keep_stats key stats_map ((some stats, m), creation) = record {
    stats_map = (key, stats) ∷ stats_map;
    creation = creation;
    monitor = m;
  }

  abbrev pub collect_one :
      RuleReadings → ℕ → Rule fl.F → Collected → Option (TrafficStats fl.F) → Collected
  collect_one now vmid rule c (some stats) = c
  collect_one now vmid rule c none = keep_stats (key_of rule) c.stats_map (
      calculate_traffic_stats_with_cache now vmid rule.period
        (default_direction rule.traffic_direction) rule.use_creation_time c.creation c.monitor)

  -- The loop that computes each combination once; rule n has the readings `now n`.
  unfoldable pub collect_stats : (ℕ → RuleReadings) → ℕ → List (Rule fl.F) → Collected → Collected
  collect_stats now vmid [] c = c
  collect_stats now vmid (rule ∷ rules) c =
      collect_stats (λ n. now (suc n)) vmid rules
        (collect_one (now 0) vmid rule c (find_stats (key_of rule) c.stats_map))
