-- ===== src/Database/Logs.antt =====
-- The logs of actions in the database: SaveActionLog, GetActionLogs and GetActionLogsByVMID of
-- pkg/storage/database.go. A log is models.ActionLog, with its texts.
use pve_traffic_monitor.Base.{
  ℕ, ◌≡◌, refl, ap, ◌∙◌, Bool, true, false, List, [], ◌∷◌, map, Option, none, some, All, arith, ◌≤◌,
  if◌then◌else◌,
}
use pve_traffic_monitor.Base.Text.{Text, codes}
use pve_traffic_monitor.Clock.{Time, before}
use pve_traffic_monitor.Database.{build_query}
use pve_traffic_monitor.Database.Sql.{
  Driver, is_postgres, Value, number, time, text, flag, null, Answer, Engine,
}
use pve_traffic_monitor.Database.Records.{is_done, text_for}

pub record ActionLog : Type 0 where
  pub vmid : ℕ
  pub rule_name : Text
  pub action : Text
  pub reason : Text
  pub timestamp : Time
  pub success : Bool
  pub error : Text

abbrev pub save_log_query : Text
save_log_query =
    codes
      "INSERT INTO action_logs (vmid, rule_name, action, reason, timestamp, success, error) \n\t\t\t  VALUES (?, ?, ?, ?, ?, ?, ?)"

abbrev pub get_logs_query : Text
get_logs_query =
    codes
      "SELECT vmid, rule_name, action, reason, timestamp, success, error \n\t\t\t  FROM action_logs \n\t\t\t  WHERE timestamp >= ? AND timestamp <= ?\n\t\t\t  ORDER BY timestamp ASC"

abbrev pub get_vm_logs_query : Driver → Text
get_vm_logs_query driver =
    text_for driver
      (codes
        "SELECT vmid, rule_name, action, reason, timestamp, success, error \n\t\t\t\t FROM action_logs \n\t\t\t\t WHERE vmid = $1 AND timestamp >= $2 AND timestamp <= $3\n\t\t\t\t ORDER BY timestamp ASC")
      (codes
        "SELECT vmid, rule_name, action, reason, timestamp, success, error \n\t\t\t  FROM action_logs \n\t\t\t  WHERE vmid = ? AND timestamp >= ? AND timestamp <= ?\n\t\t\t  ORDER BY timestamp ASC")

-- sql.NullString: its text where it is valid, and else the empty text that the log starts with.
abbrev pub error_of : Value → Option Text
error_of null = some []
error_of (text s) = some s
error_of _ = none

abbrev pub with_error : ActionLog → Option Text → Option ActionLog
with_error log none = none
with_error log (some s) = some (record log { error = s })

unfoldable pub scan_log : List Value → Option ActionLog
scan_log (number v ∷ text rule ∷ text action ∷ text reason ∷ time t ∷ flag success ∷ last ∷ []) =
    with_error
      (record {
        vmid = v;
        rule_name = rule;
        action = action;
        reason = reason;
        timestamp = t;
        success = success;
        error = [];
      })
      (error_of last)
scan_log _ = none

abbrev pub and_then_log : Option ActionLog → Option (List ActionLog) → Option (List ActionLog)
and_then_log (some log) (some logs) = some (log ∷ logs)
and_then_log _ _ = none

-- The loop over rows.Next.
unfoldable pub scan_logs : List (List Value) → Option (List ActionLog)
scan_logs [] = some []
scan_logs (row ∷ rows) = and_then_log (scan_log row) (scan_logs rows)

abbrev pub logs_answered : Answer → Option (List ActionLog)
logs_answered none = none
logs_answered (some (rows, true)) = none
logs_answered (some (rows, false)) = scan_logs rows

-- `sort.Slice` by timestamp. Go leaves open how logs of one time are ordered.
unfoldable pub insert_log : ActionLog → List ActionLog → List ActionLog
insert_log l [] = l ∷ []
insert_log l (k ∷ ks) = if before k.timestamp l.timestamp then k ∷ insert_log l ks else l ∷ k ∷ ks

unfoldable pub sort_logs : List ActionLog → List ActionLog
sort_logs [] = []
sort_logs (l ∷ ls) = insert_log l (sort_logs ls)

abbrev pub sorted : Option (List ActionLog) → Option (List ActionLog)
sorted none = none
sorted (some logs) = some (sort_logs logs)

module _ {W : Type 0} (e : Engine W) (driver : Driver) where
  -- `true` stands for a call without an error.
  unfoldable pub save_action_log : ActionLog → W → Bool × W
  save_action_log log w =
      let step =
        e.exec (build_query (is_postgres driver) save_log_query 7)
          (number log.vmid
            ∷ text log.rule_name
            ∷ text log.action
            ∷ text log.reason
            ∷ time log.timestamp
            ∷ flag log.success
            ∷ text log.error
            ∷ [])
          w in
      (is_done step.0, step.1)

  unfoldable pub get_action_logs : Time → Time → W → Option (List ActionLog)
  get_action_logs start end w =
      logs_answered
        (e.query (build_query (is_postgres driver) get_logs_query 2) (time start ∷ time end ∷ []) w)

  unfoldable pub get_action_logs_by_vmid : ℕ → Time → Time → W → Option (List ActionLog)
  get_action_logs_by_vmid vmid start end w = sorted (
      logs_answered
        (e.query (get_vm_logs_query driver) (number vmid ∷ time start ∷ time end ∷ []) w))

-- No log is followed by an earlier one.
abbrev pub IsOrdered : List ActionLog → Type 0
IsOrdered [] = Unit
IsOrdered (l ∷ ls) = All (λ k. l.timestamp ≤ k.timestamp) ls × IsOrdered ls

unchanged : (l : ActionLog) (ls : List ActionLog) → IsOrdered (l ∷ ls) → insert_log l ls ≡ l ∷ ls
unfolding insert_log
unchanged l [] h = refl
unchanged l (k ∷ ks) h = ground (arith, h.0.0)

pub sort_logs_ordered : (ls : List ActionLog) → IsOrdered ls → sort_logs ls ≡ ls
unfolding sort_logs
sort_logs_ordered [] h = refl
sort_logs_ordered (l ∷ ls) h = ap (insert_log l) (sort_logs_ordered ls h.1) ∙ unchanged l ls h

abbrev pub shown : ActionLog → List Value
shown l =
    number l.vmid
    ∷ text l.rule_name
    ∷ text l.action
    ∷ text l.reason
    ∷ time l.timestamp
    ∷ flag l.success
    ∷ text l.error
    ∷ []

scan_logs-shown : (ls : List ActionLog) → scan_logs (map shown ls) ≡ some ls
unfolding scan_logs scan_log
scan_logs-shown [] = refl
scan_logs-shown (l ∷ ls) = rw (scan_logs-shown ls) refl

-- Where the database answers with the rows of logs in the order of time, as the query asks, the logs of
-- a VM are these, with all their fields: the second sorting changes nothing.
pub get_action_logs_by_vmid_lem :
    {W : Type 0} (e : Engine W) (driver : Driver) (vmid : ℕ) (start end : Time) (w : W)
    (ls : List ActionLog)
    → IsOrdered ls
    → e.query (get_vm_logs_query driver) (number vmid ∷ time start ∷ time end ∷ []) w
      ≡ some (map shown ls, false)
    → get_action_logs_by_vmid e driver vmid start end w ≡ some ls
unfolding get_action_logs_by_vmid
get_action_logs_by_vmid_lem e driver vmid start end w ls h answered =
    ap (λ a. sorted (logs_answered a)) answered
    ∙ ap sorted (scan_logs-shown ls)
    ∙ ap some (sort_logs_ordered ls h)
