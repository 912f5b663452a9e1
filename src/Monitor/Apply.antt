-- ===== src/Monitor/Apply.antt =====
-- The second half of a cycle: the rules applied to a VM's statistics, and the loop over the VMs.
pub mod Quiet
use pve_traffic_monitor.Base.{
  ℕ, suc, ◌+◌, ◌%◌, ◌^◌, Bool, true, false, not, List, [], ◌∷◌, Option, none, some, length, ◌==◌,
  if◌then◌else◌,
}
use pve_traffic_monitor.Base.Float.{Float}
use pve_traffic_monitor.Base.Result.{Result, ok, err}
use pve_traffic_monitor.Clock.{Time}
use pve_traffic_monitor.Models.{TrafficRecord, TrafficStats}
use pve_traffic_monitor.Traffic.{add_u64}
use pve_traffic_monitor.Rules.{Rule, VmInfo}
use pve_traffic_monitor.Network.{PveError}
use pve_traffic_monitor.Cache.{invalidate}
use pve_traffic_monitor.Client.{Pve, auto_tag_by_traffic_with_rule}
use pve_traffic_monitor.Storage.{save_traffic_record}
use pve_traffic_monitor.Monitor.Actions.{Power, Acted, execute_action}
use pve_traffic_monitor.Monitor.Cycle.{
  Node, RuleReadings, StatsKey, find_stats, key_of, Monitor, Collected, with_world, matched_rules,
  collect_stats,
}

-- The readings of the clock for one VM: for the record, by the counter of records, and for rule n.
pub record VmReadings : Type 0 where
  pub record_now : Time
  pub save_now : Time
  pub rules : ℕ → RuleReadings

module _ (pve : Pve) (fl : Float) (power : Power pve) where
  -- The VM gets the tag of the rule if it is above the limit, and then the action is done. Errors are
  -- printed, and the other rules follow.
  abbrev pub check_limit :
      RuleReadings → VmInfo → Rule fl.F → TrafficStats fl.F → Time → Acted pve fl → Acted pve fl
  check_limit now vm rule stats creation m =
      let tagged = record m {
        world =
            (auto_tag_by_traffic_with_rule pve fl vm.vmid stats.total_gb rule.limit_gb rule.name
              m.world).1;
      } in
      if fl.lt rule.limit_gb stats.total_gb
      then (execute_action pve fl power now.action vm rule stats creation tagged).1
      else tagged

  abbrev pub check_found :
      RuleReadings
      → VmInfo
      → Rule fl.F
      → Time
      → Acted pve fl
      → Option (TrafficStats fl.F)
      → Acted pve fl
  check_found now vm rule creation m none = m
  check_found now vm rule creation m (some stats) = check_limit now vm rule stats creation m

  unfoldable pub check_rules :
      (ℕ → RuleReadings)
      → VmInfo
      → List (Rule fl.F)
      → List (StatsKey × TrafficStats fl.F)
      → Time
      → Acted pve fl
      → Acted pve fl
  check_rules now vm [] stats_map creation m = m
  check_rules now vm (rule ∷ rules) stats_map creation m =
      check_rules (λ n. now (suc n)) vm rules stats_map creation
        (check_found (now 0) vm rule creation m (find_stats (key_of rule) stats_map))

  abbrev pub check_collected :
      (ℕ → RuleReadings) → VmInfo → List (Rule fl.F) → Collected pve fl → Monitor pve fl
  check_collected now vm matched c =
      let m = c.monitor in
      record m { acted = check_rules now vm matched c.stats_map c.creation m.acted }

  unfoldable pub apply_rules :
      (ℕ → RuleReadings) → VmInfo → List (Rule fl.F) → Monitor pve fl → Monitor pve fl
  apply_rules now vm rules m =
      let matched = matched_rules pve fl vm rules in
      if length matched == 0
      then m
      else check_collected now vm matched (
          collect_stats pve fl now vm.vmid matched
            (record { stats_map = []; creation = 0; monitor = m }))

  abbrev pub new_record : VmInfo → Time → ℕ → ℕ → TrafficRecord
  new_record vm now rx tx = record {
    vmid = vm.vmid;
    timestamp = now;
    rx_bytes = rx;
    tx_bytes = tx;
    total_bytes = add_u64 rx tx;
  }

  -- The record is saved, and the VM's statistics are no longer taken from the cache.
  abbrev pub save_counters : VmReadings → VmInfo → ℕ → ℕ → Monitor pve fl → Monitor pve fl
  save_counters now vm rx tx m = record m {
    storage = save_traffic_record now.save_now (new_record vm now.record_now rx tx) m.storage;
    cache = invalidate m.cache vm.vmid;
  }

  abbrev pub with_counters :
      VmReadings
      → VmInfo
      → List (Rule fl.F)
      → Monitor pve fl
      → Result PveError (ℕ × ℕ) × pve.World
      → Result PveError (Unit {0}) × Monitor pve fl
  with_counters now vm rules m (err e, w) = (err e, with_world pve fl w m)
  with_counters now vm rules m (ok (rx, tx), w) =
      (ok tt, apply_rules now.rules vm rules (save_counters now vm rx tx (with_world pve fl w m)))

  module _ (node : Node pve) where
    unfoldable pub process_vm :
        VmReadings
        → VmInfo
        → List (Rule fl.F)
        → Monitor pve fl
        → Result PveError (Unit {0}) × Monitor pve fl
    process_vm now vm rules m =
        if vm.template
        then (ok tt, m)
        else with_counters now vm rules m (node.get_counters vm.vmid m.acted.world)

    -- VM n has the readings `now n`, and an error of one VM is printed.
    unfoldable pub process_vms :
        (ℕ → VmReadings) → List VmInfo → List (Rule fl.F) → Monitor pve fl → Monitor pve fl
    process_vms now [] rules m = m
    process_vms now (vm ∷ vms) rules m =
        process_vms (λ n. now (suc n)) vms rules (process_vm (now 0) vm rules m).1

    abbrev pub with_vms :
        (ℕ → VmReadings)
        → List (Rule fl.F)
        → Monitor pve fl
        → Result PveError (List VmInfo) × pve.World
        → Result PveError (Unit {0}) × Monitor pve fl
    with_vms now rules m (err e, w) = (err e, with_world pve fl w m)
    with_vms now rules m (ok vms, w) = (ok tt, process_vms now vms rules (with_world pve fl w m))

    unfoldable pub collect_and_process :
        (ℕ → VmReadings)
        → Bool
        → List (Rule fl.F)
        → Monitor pve fl
        → Result PveError (Unit {0}) × Monitor pve fl
    collect_and_process now include_templates rules m =
        with_vms now rules m (node.get_all_vms include_templates m.acted.world)
