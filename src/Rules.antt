-- ===== src/Rules.antt =====
-- The rules of pkg/models/types.go, and which VMs they match: pkg/pve/client.go, the end.
pub mod Matching
use pve_traffic_monitor.Base.{
  ℕ, Bool, true, false, not, ◌&&◌, ◌||◌, List, [], ◌∷◌, map, any, keep, ltb, length, ◌==◌,
  if◌then◌else◌,
}
use pve_traffic_monitor.Base.Text.{Text, text_eq, to_lower}
use pve_traffic_monitor.Clock.{Time}
use pve_traffic_monitor.Models.{PeriodType, Direction, Action}

pub record Rule (F : Type 0) : Type 0 where
  pub name : Text
  pub enabled : Bool
  pub period : PeriodType
  pub use_creation_time : Bool
  pub traffic_direction : Direction
  pub limit_gb : F
  pub action : Action
  pub force_stop : Bool
  pub rate_limit_mb : F
  pub vm_ids : List ℕ
  pub vm_tags : List Text
  pub exclude_vm_ids : List ℕ

pub record VmInfo : Type 0 where
  pub vmid : ℕ
  pub name : Text
  pub status : Text
  pub tags : List Text
  pub matched_rules : List Text
  pub network_rx : ℕ
  pub network_tx : ℕ
  pub template : Bool

-- vm.VMID == excludeID, over a list
unfoldable pub has_id : ℕ → List ℕ → Bool
has_id n [] = false
has_id n (m ∷ ms) = if n == m then true else has_id n ms

-- The inner loop over the VM's tags, and the outer one over the rule's.
unfoldable pub has_tag : Text → List Text → Bool
has_tag rule_tag_lower [] = false
has_tag rule_tag_lower (tag ∷ tags) =
    if text_eq (to_lower tag) rule_tag_lower then true else has_tag rule_tag_lower tags

unfoldable pub has_any_tag : List Text → List Text → Bool
has_any_tag [] tags = false
has_any_tag (rule_tag ∷ rule_tags) tags =
    if has_tag (to_lower rule_tag) tags then true else has_any_tag rule_tags tags

module _ {F : Type 0} where
  unfoldable pub vm_matches_rule : VmInfo → Rule F → Bool
  vm_matches_rule vm rule =
      if has_id vm.vmid rule.exclude_vm_ids
      then false
      else if ltb 0 (length rule.vm_ids) && not (has_id vm.vmid rule.vm_ids)
      then false
      else if ltb 0 (length rule.vm_tags) && not (has_any_tag rule.vm_tags vm.tags)
      then false
      else true

  -- The loop appends to a slice; here the names come from the front.
  unfoldable pub get_matched_rules_for_vm : VmInfo → List (Rule F) → List Text
  get_matched_rules_for_vm vm [] = []
  get_matched_rules_for_vm vm (rule ∷ rules) =
      let rest = get_matched_rules_for_vm vm rules in
      if not rule.enabled then rest else if vm_matches_rule vm rule then rule.name ∷ rest else rest

  unfoldable pub apply_rules_to_vms : List VmInfo → List (Rule F) → List VmInfo
  apply_rules_to_vms [] rules = []
  apply_rules_to_vms (vm ∷ vms) rules =
      record vm { matched_rules = get_matched_rules_for_vm vm rules } ∷ apply_rules_to_vms vms rules
