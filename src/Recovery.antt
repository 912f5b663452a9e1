-- ===== src/Recovery.antt =====
-- The states of VMs whose network or power the program has changed, pkg/models/state.go, and the
-- time at which a change is undone, pkg/recovery/recovery.go.
pub mod Due
pub mod Manager
pub mod Again
use pve_traffic_monitor.Base.{
  ℕ, ◌+◌, Bool, true, false, not, ◌&&◌, List, [], ◌∷◌, Option, ltb, if◌then◌else◌,
}
use pve_traffic_monitor.Base.Int.{pos}
use pve_traffic_monitor.Base.Maps.{lookup, put_key, delete_key, nat_Eq}
use pve_traffic_monitor.Base.Text.{Text}
use pve_traffic_monitor.Clock.{Time, hour_ns, year, month, day, hour, date, add_time, is_zero}
use pve_traffic_monitor.Models.{PeriodType, Action}
use pve_traffic_monitor.Period.{calculate_next_creation_based_period_start}

pub record VmState (F : Type 0) : Type 0 where
  pub vmid : ℕ
  pub original_status : Text
  pub original_rate_limit : F
  pub original_net_rates : List (Text × F)
  pub original_net_links : List (Text × Bool)
  pub action_taken : Action
  pub action_time : Time
  pub period : PeriodType
  pub rule_name : Text
  pub needs_recovery : Bool
  pub recovery_time : Time

module _ {F : Type 0} where
  unfoldable pub record_state : VmState F → List (ℕ × VmState F) → List (ℕ × VmState F)
  record_state state states = put_key state.vmid state states

  unfoldable pub get_state : ℕ → List (ℕ × VmState F) → Option (VmState F)
  get_state vmid states = lookup vmid states

  unfoldable pub remove_state : ℕ → List (ℕ × VmState F) → List (ℕ × VmState F)
  remove_state vmid states = delete_key vmid states

  unfoldable pub get_all_states : List (ℕ × VmState F) → List (VmState F)
  get_all_states [] = []
  get_all_states ((vmid, state) ∷ states) = state ∷ get_all_states states

  unfoldable pub get_recovery_due_states : Time → List (ℕ × VmState F) → List (VmState F)
  get_recovery_due_states now [] = []
  get_recovery_due_states now ((vmid, state) ∷ states) =
      let rest = get_recovery_due_states now states in
      if state.needs_recovery && ltb state.recovery_time now then state ∷ rest else rest

unfoldable pub calculate_recovery_time : PeriodType → Bool → Time → Time → Time
calculate_recovery_time period use_creation_time creation now =
    if use_creation_time && not (is_zero creation)
    then calculate_next_creation_based_period_start period creation now
    else elim period [
      | PeriodType.hour ↦ date (year now) (month now) (day now) (hour now + 1) 0
      | PeriodType.day ↦ date (year now) (month now) (day now + 1) 0 0
      | PeriodType.month ↦ date (year now) (month now + 1) 1 0 0
      | _ ↦ add_time now (pos hour_ns)
    ]
