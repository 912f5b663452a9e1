-- ===== src/Storage/Logs.antt =====
-- The logs of actions that the file storage keeps: a file for each day, which is one JSON value, or
-- `none` where it cannot be decoded. The texts for a reason and an error are the values that they
-- print.
pub mod Days
use pve_traffic_monitor.Base.{
  ℕ, zero, suc, ◌-◌, ◌/◌, Bool, ◌||◌, List, [], ◌∷◌, ◌++◌, keep, Option, none, some, ◌==◌,
  if◌then◌else◌,
}
use pve_traffic_monitor.Base.Int.{pos}
use pve_traffic_monitor.Base.Maps.{lookup, put_key, nat_Eq}
use pve_traffic_monitor.Base.Text.{Text}
use pve_traffic_monitor.Clock.{Time, day_ns, before, after, add_days}
use pve_traffic_monitor.Models.{Action}
use pve_traffic_monitor.Network.{PveError}
use pve_traffic_monitor.Storage.{day_of, in_range}

pub data ActionError : Type 0 where
  request : PveError → ActionError
  unknown_action : Text → ActionError

-- The reason is the traffic and the limit.
pub record ActionLog (F : Type 0) : Type 0 where
  pub vmid : ℕ
  pub rule_name : Text
  pub action : Action
  pub reason : F × F
  pub timestamp : Time
  pub success : Bool
  pub error : Option ActionError

abbrev pub LogFiles : Type 0 → Type 0
LogFiles F = List (ℕ × Option (List (ActionLog F)))

module _ {F : Type 0} where
  abbrev pub read_logs : Option (Option (List (ActionLog F))) → List (ActionLog F)
  read_logs none = []
  read_logs (some none) = []
  read_logs (some (some logs)) = logs

  unfoldable pub save_action_log : ActionLog F → LogFiles F → LogFiles F
  save_action_log log files =
      let d = day_of log.timestamp in
      put_key d (some (read_logs (lookup d files) ++ (log ∷ []))) files

-- The days of the loop `for current.Before(endTime) || current.Equal(endTime)`, on fuel.
unfoldable pub log_days_from : ℕ → Time → Time → List ℕ
log_days_from zero current end = []
log_days_from (suc fuel) current end =
    let rest = log_days_from fuel (add_days current (pos 1)) end in
    if before current end || current == end then day_of current ∷ rest else []

unfoldable pub log_days : Time → Time → List ℕ
log_days start end = log_days_from (suc ((end - start) / day_ns)) start end

module _ {F : Type 0} where
  unfoldable pub logs_of_days : Time → Time → LogFiles F → List ℕ → List (ActionLog F)
  logs_of_days start end files [] = []
  logs_of_days start end files (d ∷ days) =
      keep (λ log. in_range start end log.timestamp) (read_logs (lookup d files))
      ++ logs_of_days start end files days

  -- `sort.Slice` by timestamp. Go leaves open how logs of one time are ordered.
  unfoldable pub insert_log : ActionLog F → List (ActionLog F) → List (ActionLog F)
  insert_log l [] = l ∷ []
  insert_log l (k ∷ ks) = if before k.timestamp l.timestamp then k ∷ insert_log l ks else l ∷ k ∷ ks

  unfoldable pub sort_logs : List (ActionLog F) → List (ActionLog F)
  sort_logs [] = []
  sort_logs (l ∷ ls) = insert_log l (sort_logs ls)

  unfoldable pub get_action_logs : Time → Time → LogFiles F → List (ActionLog F)
  get_action_logs start end files = sort_logs (logs_of_days start end files (log_days start end))
