-- ===== src/Tests/Clients.antt =====
-- A server with a map for each VM.
use pve_traffic_monitor.Base.{
  none, ℕ, ◌≡◌, refl, Bool, true, false, List, [], ◌∷◌, ◌==◌, arith, if◌then◌else◌,
}
use pve_traffic_monitor.Base.Result.{ok}
use pve_traffic_monitor.Base.Maps.{text_Eq, lookup}
use pve_traffic_monitor.Base.Text.{
  Text, codes, text_eq, has_prefix, trim_prefix, is_space, trim_left, trim_space, lower, to_lower,
  equal_fold, split, push_front,
}
use pve_traffic_monitor.Network.{
  Config, Value, is_down, find_option, parse_network_link_down, is_network_config_key, insert_key,
  text_lt, network_config_keys, lookup_text, network_link_down_states,
  network_link_down_states_from_config,
}
use pve_traffic_monitor.Clock.{hour_ns}
use pve_traffic_monitor.Models.{PeriodType, Action}
use pve_traffic_monitor.Recovery.{get_state}
use pve_traffic_monitor.Recovery.Manager.{record_vm_state, recover_vm}
use pve_traffic_monitor.Recovery.Again.{recover-disconnect}
use pve_traffic_monitor.Client.Tags.{carries, tags_at, auto_tag_by_traffic_with_rule_lem}
use mathlib.Core.List.{cons≢nil}
use pve_traffic_monitor.Tests.Traffics.{whole}
use pve_traffic_monitor.Client.{
  auto_tag_by_traffic_with_rule, rule_tag, Pve, disconnect_network, restore_network_link_states,
}
use pve_traffic_monitor.Client.Server.{Answers, assign}
use pve_traffic_monitor.Client.Restore.{restore-disconnect}

abbrev pub maps : Pve
maps = record {
  World = ℕ → Config;
  get_vm_config = λ vmid w. (ok (w vmid), w);
  put_vm_config =
      λ vmid key value w. (ok tt, λ u. if u == vmid then assign key value (w u) else w u);
  get_vm_status = λ vmid w. (ok (codes "running"), w);
  start_vm = λ vmid w. (ok tt, w);
}

pub same_vm : (vmid : ℕ) (a b : Config) → (if vmid == vmid then a else b) ≡ a
same_vm vmid a b = ground arith

abbrev pub maps_answer : Answers maps
maps_answer = record {
  configs = λ w vmid. w vmid;
  gets = λ vmid w. refl;
  statuses = λ w vmid. codes "running";
  tells = λ vmid w. refl;
  puts = λ vmid key value w. refl;
  keeps = λ vmid key value w. same_vm vmid (assign key value (w vmid)) (w vmid);
}

abbrev two_interfaces : Config
two_interfaces =
    (codes "name", Value.text (codes "web"))
    ∷ (codes "net1", Value.text (codes "virtio,link_down=1"))
    ∷ (codes "net0", Value.text (codes "virtio,rate=5"))
    ∷ []

abbrev recorded : List (Text × Bool)
recorded = (codes "net0", false) ∷ (codes "net1", true) ∷ []

recorded_before : network_link_down_states_from_config two_interfaces ≡ ok recorded
unfolding network_link_down_states_from_config network_link_down_states network_config_keys
    is_network_config_key has_prefix trim_prefix insert_key text_lt lookup_text lookup text_eq
    parse_network_link_down find_option split trim_space trim_left is_space is_down equal_fold lower
    push_front to_lower
recorded_before = refl

restore-disconnect_example :
    let off = disconnect_network maps 100 (λ u. two_interfaces) in
    let on = restore_network_link_states maps 100 recorded off.1 in
    (off.0 ≡ ok tt)
    × (network_link_down_states_from_config (off.1 100)
        ≡ ok ((codes "net0", true) ∷ (codes "net1", true) ∷ []))
    × (on.0 ≡ ok tt)
    × (network_link_down_states_from_config (on.1 100) ≡ ok recorded)
restore-disconnect_example =
    restore-disconnect maps maps_answer 100 (λ u. two_interfaces) recorded recorded_before

abbrev tagged : Config
tagged = (codes "tags", Value.text (codes "Prod;traffic-limit-old")) ∷ []

auto_tag_by_traffic_with_rule_example :
    let done = auto_tag_by_traffic_with_rule maps whole 100 7 5 (codes "Old") (λ u. tagged) in
    (done.0 ≡ ok tt)
    × (carries (codes "prod") (tags_at maps maps_answer 100 done.1) ≡ (
        if equal_fold (rule_tag (codes "Old")) (codes "prod")
        then true
        else carries (codes "prod") (tags_at maps maps_answer 100 (λ u. tagged))))
auto_tag_by_traffic_with_rule_example =
    auto_tag_by_traffic_with_rule_lem maps maps_answer 100 whole 7 5 (codes "Old") (codes "prod")
      (λ u. tagged) (omega arith) (λ q. cons≢nil q)

recover-disconnect_example :
    let start =
      record_vm_state maps whole 100 Action.disconnect PeriodType.day
        (codes "Old")
        false
        0
        hour_ns
        hour_ns
        ([], λ u. two_interfaces) in
    let off = disconnect_network maps 100 start.1.1 in
    let end = recover_vm maps whole 100 (start.1.0, off.1) in
    (start.0 ≡ ok tt)
    × (off.0 ≡ ok tt)
    × (end.0 ≡ ok tt)
    × (network_link_down_states_from_config (end.1.1 100) ≡ ok recorded)
    × (get_state 100 end.1.0 ≡ none)
recover-disconnect_example =
    recover-disconnect maps maps_answer 100 whole PeriodType.day (codes "Old") false 0 hour_ns
      hour_ns [] (λ u. two_interfaces) recorded recorded_before
