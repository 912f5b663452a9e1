-- ===== src/Monitor/Actions.antt =====
-- executeAction of cmd/monitor/main.go: what the monitor does with a VM that is above a rule's limit.
-- The requests that stop a VM are parameters, beside those of `Pve`.
pub mod Once
use pve_traffic_monitor.Base.{
  ℕ, Bool, true, false, not, List, [], ◌∷◌, any, length, Option, none, some, ◌==◌, if◌then◌else◌,
}
use pve_traffic_monitor.Base.Float.{Float}
use pve_traffic_monitor.Base.Result.{Result, ok, err}
use pve_traffic_monitor.Base.Text.{Text, codes, text_eq, to_lower}
use pve_traffic_monitor.Clock.{Time}
use pve_traffic_monitor.Models.{Action, TrafficStats}
use pve_traffic_monitor.Rules.{Rule, VmInfo}
use pve_traffic_monitor.Network.{PveError}
use pve_traffic_monitor.Client.{
  Pve, Op, get_vm_tags, add_vm_tag, disconnect_network, tighten_network_rate_limit, should_tighten,
}
use pve_traffic_monitor.Recovery.{VmState}
use pve_traffic_monitor.Recovery.Manager.{record_vm_state, States}
use pve_traffic_monitor.Storage.Logs.{
  ActionError, request, unknown_action, ActionLog, LogFiles, save_action_log,
}

-- ShutdownVM and StopVM.
pub record Power (pve : Pve) : Type 0 where
  pub shutdown_vm : ℕ → Op pve (Unit {0})
  pub stop_vm : ℕ → Op pve (Unit {0})

abbrev pub tag_traffic_shutdown : Text
tag_traffic_shutdown = codes "traffic-exceeded-shutdown"

abbrev pub tag_traffic_disconnect : Text
tag_traffic_disconnect = codes "traffic-exceeded-disconnected"

abbrev pub tag_traffic_limited : Text
tag_traffic_limited = codes "traffic-exceeded-limited"

-- The tag that tells that an action was done, or the empty text.
unfoldable pub action_tag : Action → Text
action_tag Action.shutdown = tag_traffic_shutdown
action_tag Action.stop = tag_traffic_shutdown
action_tag Action.disconnect = tag_traffic_disconnect
action_tag Action.rate_limit = tag_traffic_limited
action_tag (Action.other word) = []

-- The readings of the clock: for the log, for the recovery time and for the time of the action.
pub record Readings : Type 0 where
  pub log_now : Time
  pub recovery_now : Time
  pub state_now : Time

module _ (pve : Pve) (fl : Float) where
  -- What an action reads and changes.
  pub record Acted : Type 0 where
    pub states : States pve fl
    pub world : pve.World
    pub logs : LogFiles fl.F

module _ (pve : Pve) (fl : Float) (power : Power pve) where
  abbrev pub is_tagged : Text → Result PveError (List Text) × pve.World → Bool × pve.World
  is_tagged tag (ok tags, w) = (any (λ t. text_eq (to_lower t) tag) tags, w)
  is_tagged tag (err e, w) = (false, w)

  abbrev pub is_tight : Result PveError Bool × pve.World → Bool × pve.World
  is_tight (ok needs_tighten, w) = (not needs_tighten, w)
  is_tight (err e, w) = (false, w)

  abbrev pub tagged_already : ℕ → Text → pve.World → Bool × pve.World
  tagged_already vmid tag w =
      if not (text_eq tag []) then is_tagged tag (get_vm_tags pve vmid w) else (false, w)

  -- Whether the action was done before.
  unfoldable pub is_done : ℕ → Rule fl.F → Action → pve.World → Bool × pve.World
  is_done vmid rule Action.rate_limit w = is_tight (should_tighten pve fl vmid rule.rate_limit_mb w)
  is_done vmid rule action w = tagged_already vmid (action_tag action) w

  -- The tag is added after a request that was answered, and an error of that is thrown away.
  abbrev pub tag_after :
      ℕ → Text → Result PveError (Unit {0}) × pve.World → Result ActionError (Unit {0}) × pve.World
  tag_after vmid tag (ok done, w) = (ok tt, (add_vm_tag pve vmid tag w).1)
  tag_after vmid tag (err e, w) = (err (request e), w)

  abbrev pub tag_if_applied :
      ℕ → Result PveError Bool × pve.World → Result ActionError (Unit {0}) × pve.World
  tag_if_applied vmid (ok true, w) = (ok tt, (add_vm_tag pve vmid tag_traffic_limited w).1)
  tag_if_applied vmid (ok false, w) = (ok tt, w)
  tag_if_applied vmid (err e, w) = (err (request e), w)

  unfoldable pub perform :
      ℕ → Rule fl.F → Action → pve.World → Result ActionError (Unit {0}) × pve.World
  perform vmid rule Action.shutdown w =
      tag_after vmid tag_traffic_shutdown
        (if rule.force_stop then power.stop_vm vmid w else power.shutdown_vm vmid w)
  perform vmid rule Action.stop w = tag_after vmid tag_traffic_shutdown (power.stop_vm vmid w)
  perform vmid rule Action.disconnect w =
      tag_after vmid tag_traffic_disconnect (disconnect_network pve vmid w)
  perform vmid rule Action.rate_limit w =
      tag_if_applied vmid (tighten_network_rate_limit pve fl vmid rule.rate_limit_mb w)
  perform vmid rule (Action.other word) w = (err (unknown_action word), w)

  abbrev pub is_ok : Result ActionError (Unit {0}) → Bool
  is_ok (ok done) = true
  is_ok (err e) = false

  abbrev pub error_of : Result ActionError (Unit {0}) → Option ActionError
  error_of (ok done) = none
  error_of (err e) = some e

  abbrev pub action_log :
      Readings
      → VmInfo
      → Rule fl.F
      → TrafficStats fl.F
      → Result ActionError (Unit {0})
      → ActionLog fl.F
  action_log now vm rule stats result = record {
    vmid = vm.vmid;
    rule_name = rule.name;
    action = rule.action;
    reason = (stats.total_gb, rule.limit_gb);
    timestamp = now.log_now;
    success = is_ok result;
    error = error_of result;
  }

  -- The state is recorded, whether that succeeds or not, and then the action is done and logged.
  abbrev pub act :
      Readings
      → VmInfo
      → Rule fl.F
      → TrafficStats fl.F
      → Time
      → Acted pve fl
      → Result ActionError (Unit {0}) × Acted pve fl
  act now vm rule stats creation m =
      let recorded =
        record_vm_state pve fl vm.vmid rule.action rule.period rule.name rule.use_creation_time
          creation now.recovery_now now.state_now (m.states, m.world) in
      let done = perform vm.vmid rule rule.action recorded.1.1 in
      (
        done.0,
        record {
          states = recorded.1.0;
          world = done.1;
          logs = save_action_log (action_log now vm rule stats done.0) m.logs;
        },
      )

  abbrev pub unless_done :
      Readings
      → VmInfo
      → Rule fl.F
      → TrafficStats fl.F
      → Time
      → Acted pve fl
      → Bool × pve.World
      → Result ActionError (Unit {0}) × Acted pve fl
  unless_done now vm rule stats creation m (true, w) = (ok tt, record m { world = w })
  unless_done now vm rule stats creation m (false, w) =
      act now vm rule stats creation (record m { world = w })

  unfoldable pub execute_action :
      Readings
      → VmInfo
      → Rule fl.F
      → TrafficStats fl.F
      → Time
      → Acted pve fl
      → Result ActionError (Unit {0}) × Acted pve fl
  execute_action now vm rule stats creation m =
      unless_done now vm rule stats creation m (is_done vm.vmid rule rule.action m.world)
