-- ===== src/Monitor/Apply/Quiet.antt =====
-- VMs that no rule matches, and those within the limits of their rules.
use pve_traffic_monitor.Base.{
  ℕ, suc, ◌≡◌, refl, ◌∙◌, Bool, true, false, List, [], ◌∷◌, map, length, Option, none, some, arith,
  if◌then◌else◌,
}
use pve_traffic_monitor.Base.Float.{Float}
use pve_traffic_monitor.Base.Result.{Result, ok, err}
use pve_traffic_monitor.Clock.{Time}
use pve_traffic_monitor.Models.{TrafficStats}
use pve_traffic_monitor.Network.{PveError}
use pve_traffic_monitor.Rules.{Rule, VmInfo, get_matched_rules_for_vm}
use pve_traffic_monitor.Client.{Pve}
use pve_traffic_monitor.Monitor.Actions.{Power, Acted}
use pve_traffic_monitor.Monitor.Cycle.{
  Node, RuleReadings, StatsKey, find_stats, key_of, Monitor, with_world, matched_rules,
}
use pve_traffic_monitor.Monitor.Apply.{
  VmReadings, check_found, check_rules, apply_rules, save_counters, with_counters, process_vm,
}

module _ (pve : Pve) (fl : Float) where
  -- The rules that the monitor applies are those that the list of VMs shows.
  pub matched_rules-get_matched_rules_for_vm :
      (vm : VmInfo) (rules : List (Rule fl.F))
      → map (λ r. r.name) (matched_rules pve fl vm rules) ≡ get_matched_rules_for_vm vm rules
  unfolding matched_rules get_matched_rules_for_vm
  matched_rules-get_matched_rules_for_vm vm [] = refl
  matched_rules-get_matched_rules_for_vm vm (rule ∷ rules) =
      ground (arith, matched_rules-get_matched_rules_for_vm vm rules)

  length-matched_rules :
      (rules : List (Rule fl.F)) → map (λ (r : Rule fl.F). r.name) rules ≡ [] → length rules ≡ 0
  length-matched_rules [] h = refl
  length-matched_rules (rule ∷ rules) h = ground arith

  -- What a cycle changes of the monitor beside the records and the cache.
  abbrev pub SameActed : Monitor pve fl → Monitor pve fl → pve.World → Type 0
  SameActed m m' w =
      (m'.acted.states ≡ m.acted.states) × (m'.acted.logs ≡ m.acted.logs) × (m'.acted.world ≡ w)

  module _ (power : Power pve) where
    apply_rules_quiet :
        (now : ℕ → RuleReadings) (vm : VmInfo) (rules : List (Rule fl.F)) (m : Monitor pve fl)
        → get_matched_rules_for_vm vm rules ≡ []
        → apply_rules pve fl power now vm rules m ≡ m
    unfolding apply_rules
    apply_rules_quiet now vm rules m h =
        rw
          (length-matched_rules (matched_rules pve fl vm rules)
            (matched_rules-get_matched_rules_for_vm vm rules ∙ h))
          refl

    with_counters_quiet :
        (now : VmReadings) (vm : VmInfo) (rules : List (Rule fl.F)) (m : Monitor pve fl)
        (answer : Result PveError (ℕ × ℕ) × pve.World)
        → get_matched_rules_for_vm vm rules ≡ []
        → SameActed m (with_counters pve fl power now vm rules m answer).1 answer.1
    with_counters_quiet now vm rules m (err e, w) h = (refl, refl, refl)
    with_counters_quiet now vm rules m (ok (rx, tx), w) h =
        rw
          (apply_rules_quiet now.rules vm rules
            (save_counters pve fl power now vm rx tx (with_world pve fl w m)) h)
          (refl, refl, refl)

    unless_template :
        (m : Monitor pve fl) (template : Bool) (done : Result PveError (Unit {0}) × Monitor pve fl)
        (w : pve.World)
        → SameActed m done.1 w
        → SameActed m
            (if template then (ok tt, m) else done).1
            (if template then m.acted.world else w)
    unless_template m true done w h = (refl, refl, refl)
    unless_template m false done w h = h

    -- A VM that no enabled rule matches is only read: whatever its request answers, no state of a VM
    -- is recorded, nothing is logged, and the server is left as that request leaves it, or as it was for
    -- a template.
    pub process_vm_quiet :
        (node : Node pve) (now : VmReadings) (vm : VmInfo) (rules : List (Rule fl.F))
        (m : Monitor pve fl)
        → get_matched_rules_for_vm vm rules ≡ []
        → SameActed m
            (process_vm pve fl power node now vm rules m).1
            (if vm.template then m.acted.world else (node.get_counters vm.vmid m.acted.world).1)
    unfolding process_vm
    process_vm_quiet node now vm rules m h =
        unless_template m vm.template
          (with_counters pve fl power now vm rules m (node.get_counters vm.vmid m.acted.world)) _
          (with_counters_quiet now vm rules m (node.get_counters vm.vmid m.acted.world) h)

    abbrev pub IsWithin : Rule fl.F → Option (TrafficStats fl.F) → Type 0
    IsWithin rule none = Unit
    IsWithin rule (some stats) = fl.lt rule.limit_gb stats.total_gb ≡ false

    abbrev pub AreWithin : List (Rule fl.F) → List (StatsKey × TrafficStats fl.F) → Type 0
    AreWithin [] stats_map = Unit
    AreWithin (rule ∷ rules) stats_map =
        IsWithin rule (find_stats (key_of rule) stats_map) × AreWithin rules stats_map

    check_found_within :
        (now : RuleReadings) (vm : VmInfo) (rule : Rule fl.F) (creation : Time) (m : Acted pve fl)
        (found : Option (TrafficStats fl.F))
        → IsWithin rule found
        → ((check_found pve fl power now vm rule creation m found).states ≡ m.states)
          × ((check_found pve fl power now vm rule creation m found).logs ≡ m.logs)
    check_found_within now vm rule creation m none h = (refl, refl)
    check_found_within now vm rule creation m (some stats) h = rw h (refl, refl)

    -- With the traffic of every rule within its limit, no action is done and none is logged.
    pub check_rules_within :
        (now : ℕ → RuleReadings) (vm : VmInfo) (rules : List (Rule fl.F))
        (stats_map : List (StatsKey × TrafficStats fl.F)) (creation : Time) (m : Acted pve fl)
        → AreWithin rules stats_map
        → ((check_rules pve fl power now vm rules stats_map creation m).states ≡ m.states)
          × ((check_rules pve fl power now vm rules stats_map creation m).logs ≡ m.logs)
    unfolding check_rules
    check_rules_within now vm [] stats_map creation m h = (refl, refl)
    check_rules_within now vm (rule ∷ rules) stats_map creation m h =
        let first =
          check_found_within (now 0) vm rule creation m (find_stats (key_of rule) stats_map) h.0 in
        let rest =
          check_rules_within (λ n. now (suc n)) vm rules stats_map creation
            (check_found pve fl power (now 0) vm rule creation m
              (find_stats (key_of rule) stats_map))
            h.1 in
        (rest.0 ∙ first.0, rest.1 ∙ first.1)
