-- ===== src/Recovery/Manager.antt =====
-- The manager of pkg/recovery/recovery.go. Its states are a map in memory; what it also writes to
-- the storage is never read back, and is left out.
use pve_traffic_monitor.Base.{
  ℕ, Bool, true, false, ◌&&◌, List, [], ◌∷◌, length, Option, none, some, ◌==◌, if◌then◌else◌,
}
use pve_traffic_monitor.Base.Float.{Float}
use pve_traffic_monitor.Base.Result.{Result, ok, err}
use pve_traffic_monitor.Base.Text.{Text, codes, text_eq, has_prefix}
use pve_traffic_monitor.Clock.{Time}
use pve_traffic_monitor.Models.{PeriodType, Action}
use pve_traffic_monitor.Network.{
  PveError, not_found, Config, network_rate_limits_from_config, network_rate_limit_from_config,
  network_link_down_states_from_config,
}
use pve_traffic_monitor.Client.{
  Pve, Op, return, restore_network_link_states, connect_network, restore_network_rate_limits,
  remove_network_rate_limit, set_network_rate_limit, get_vm_tags, remove_vm_tag,
}
use pve_traffic_monitor.Recovery.{
  VmState, record_state, get_state, remove_state, get_all_states, get_recovery_due_states,
  calculate_recovery_time,
}

abbrev pub or_else : {A : Type 0} → A → Result PveError A → A
or_else a (ok b) = b
or_else a (err e) = a

abbrev pub is_rate_limit : Action → Bool
is_rate_limit Action.rate_limit = true
is_rate_limit _ = false

module _ (pve : Pve) (fl : Float) where
  abbrev pub States : Type 0
  States = List (ℕ × VmState fl.F)

  abbrev pub Step : Type 0
  Step = States × pve.World → Result PveError (Unit {0}) × (States × pve.World)

  -- A state that a rate limit has recorded and that a rate limit does not record again.
  abbrev pub is_recorded : Action → Option (VmState fl.F) → Bool
  is_recorded action none = false
  is_recorded action (some state) =
      state.needs_recovery && (is_rate_limit action && is_rate_limit state.action_taken)

  -- rateLimit and networkRates of a configuration, or of none; with it the links.
  abbrev pub rates_in : Result PveError Config → List (Text × fl.F)
  rates_in (err e) = []
  rates_in (ok config) = or_else [] (network_rate_limits_from_config fl config)

  abbrev pub rate_in : Result PveError Config → fl.F
  rate_in (err e) = fl.of_ℕ 0
  rate_in (ok config) = or_else (fl.of_ℕ 0) (network_rate_limit_from_config fl config)

  abbrev pub links_in : Result PveError Config → List (Text × Bool)
  links_in (err e) = []
  links_in (ok config) = or_else [] (network_link_down_states_from_config config)

  abbrev pub record_with :
      (Text → Result PveError Config → VmState fl.F)
      → ℕ
      → States
      → Result PveError Text × pve.World
      → Result PveError (Unit {0}) × (States × pve.World)
  record_with make vmid states (err e, w) = (err e, (states, w))
  record_with make vmid states (ok status, w) =
      let (config, w1) = pve.get_vm_config vmid w in
      (ok tt, (record_state (make status config) states, w1))

  -- The clock is read for the recovery time and then for the time of the action.
  abbrev pub new_state :
      ℕ
      → Action
      → PeriodType
      → Text
      → Bool
      → Time
      → Time
      → Time
      → Text
      → Result PveError Config
      → VmState fl.F
  new_state vmid action period rule_name use_creation creation now₁ now₂ status config = record {
    vmid = vmid;
    original_status = status;
    original_rate_limit = rate_in config;
    original_net_rates = rates_in config;
    original_net_links = links_in config;
    action_taken = action;
    action_time = now₂;
    period = period;
    rule_name = rule_name;
    needs_recovery = true;
    recovery_time = calculate_recovery_time period use_creation creation now₁;
  }

  unfoldable pub record_vm_state : ℕ → Action → PeriodType → Text → Bool → Time → Time → Time → Step
  record_vm_state vmid action period rule_name use_creation creation now₁ now₂ (states, w) =
      if is_recorded action (get_state vmid states)
      then (ok tt, (states, w))
      else record_with (new_state vmid action period rule_name use_creation creation now₁ now₂) vmid
          states (pve.get_vm_status vmid w)

  abbrev pub start_again : ℕ → VmState fl.F → Op pve (Unit {0})
  start_again vmid state =
      if text_eq state.original_status (codes "running") then pve.start_vm vmid else return pve tt

  -- The switch over the action.
  abbrev pub undo_action : ℕ → VmState fl.F → Action → Op pve (Unit {0})
  undo_action vmid state Action.shutdown = start_again vmid state
  undo_action vmid state Action.stop = start_again vmid state
  undo_action vmid state Action.disconnect =
      if length state.original_net_links == 0
      then connect_network pve vmid
      else restore_network_link_states pve vmid state.original_net_links
  undo_action vmid state Action.rate_limit =
      if length state.original_net_rates == 0
      then if fl.eq state.original_rate_limit (fl.of_ℕ 0)
        then remove_network_rate_limit pve fl vmid
        else set_network_rate_limit pve fl vmid state.original_rate_limit
      else restore_network_rate_limits pve fl vmid state.original_net_rates
  undo_action vmid state (Action.other s) = return pve tt

  -- The loop that removes the tags with the program's prefix; its errors are thrown away.
  unfoldable pub remove_traffic_tags : ℕ → List Text → pve.World → pve.World
  remove_traffic_tags vmid [] w = w
  remove_traffic_tags vmid (tag ∷ tags) w =
      remove_traffic_tags vmid tags
        (if has_prefix tag (codes "traffic-") then (remove_vm_tag pve vmid tag w).1 else w)

  abbrev pub clean_tags : ℕ → Result PveError (List Text) × pve.World → pve.World
  clean_tags vmid (ok tags, w) = remove_traffic_tags vmid tags w
  clean_tags vmid (err e, w) = w

  abbrev pub after_undo :
      ℕ
      → States
      → Result PveError (Unit {0}) × pve.World
      → Result PveError (Unit {0}) × (States × pve.World)
  after_undo vmid states (err e, w) = (err e, (states, w))
  after_undo vmid states (ok done, w) =
      (ok tt, (remove_state vmid states, clean_tags vmid (get_vm_tags pve vmid w)))

  abbrev pub recover_state :
      ℕ
      → States
      → Option (VmState fl.F)
      → pve.World
      → Result PveError (Unit {0}) × (States × pve.World)
  recover_state vmid states none w = (err not_found, (states, w))
  recover_state vmid states (some state) w =
      after_undo vmid states (undo_action vmid state state.action_taken w)

  unfoldable pub recover_vm : ℕ → Step
  recover_vm vmid (states, w) = recover_state vmid states (get_state vmid states) w

  -- Each recovery is tried, whatever became of the one before.
  unfoldable pub recover_each : List (VmState fl.F) → States × pve.World → States × pve.World
  recover_each [] at = at
  recover_each (state ∷ due) at = recover_each due (recover_vm state.vmid at).1

  unfoldable pub check_and_recover_due : Time → States × pve.World → States × pve.World
  check_and_recover_due now (states, w) =
      recover_each (get_recovery_due_states now states) (states, w)

  unfoldable pub recover_all : States × pve.World → States × pve.World
  recover_all (states, w) = recover_each (get_all_states states) (states, w)

  -- The VMs' numbers are all that is read of them.
  unfoldable pub cleanup_all_tags : List ℕ → pve.World → pve.World
  cleanup_all_tags [] w = w
  cleanup_all_tags (vmid ∷ vms) w = cleanup_all_tags vms (clean_tags vmid (get_vm_tags pve vmid w))
