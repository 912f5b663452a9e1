-- ===== src/Tests/Matches.antt =====
-- Rules and VMs.
use pve_traffic_monitor.Base.{ℕ, ◌≡◌, ◌↔◌, refl, true, false, [], ◌∷◌}
use pve_traffic_monitor.Base.Text.{codes, text_eq, lower, to_lower}
use pve_traffic_monitor.Models.{PeriodType, Direction, Action}
use pve_traffic_monitor.Rules.{
  Rule, VmInfo, has_id, has_tag, has_any_tag, vm_matches_rule, get_matched_rules_for_vm,
  apply_rules_to_vms,
}
use pve_traffic_monitor.Rules.Matching.{Matches, vm_matches_rule-Matches}

abbrev vm : VmInfo
vm = record {
  vmid = 101;
  name = codes "web";
  status = codes "running";
  tags = codes "Limit" ∷ codes "prod" ∷ [];
  matched_rules = [];
  network_rx = 0;
  network_tx = 0;
  template = false;
}

abbrev rule : Rule ℕ
rule = record {
  name = codes "daily";
  enabled = true;
  period = PeriodType.day;
  use_creation_time = false;
  traffic_direction = Direction.both;
  limit_gb = 10;
  action = Action.rate_limit;
  force_stop = false;
  rate_limit_mb = 5;
  vm_ids = [];
  vm_tags = codes "LIMIT" ∷ [];
  exclude_vm_ids = 102 ∷ [];
}

abbrev excluding : Rule ℕ
excluding = record rule { exclude_vm_ids = 101 ∷ [] }

shown :
    apply_rules_to_vms (vm ∷ []) (rule ∷ excluding ∷ [])
    ≡ record vm { matched_rules = codes "daily" ∷ [] } ∷ []
unfolding apply_rules_to_vms get_matched_rules_for_vm vm_matches_rule has_id has_tag has_any_tag
    text_eq lower to_lower
shown = refl

vm_matches_rule-Matches_example : (vm_matches_rule vm rule ≡ true) ↔ Matches vm rule
vm_matches_rule-Matches_example = vm_matches_rule-Matches vm rule
