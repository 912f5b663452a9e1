-- ===== src/Api/Handlers.antt =====
-- The other handlers of pkg/api/server.go: the VMs with their rules, one VM, the statistics, the logs,
-- the rules and the server's own figures. The PVE client's answers are parameters, and so is the
-- storage, of which `none` is an error.
use pve_traffic_monitor.Base.{
  ℕ, Bool, false, not, ◌&&◌, List, [], ◌∷◌, Option, none, some, if◌then◌else◌,
}
use pve_traffic_monitor.Base.Int.{ℤ, pos, ◌-ℤ◌}
use pve_traffic_monitor.Base.Text.{Text, codes, text_eq}
use pve_traffic_monitor.Clock.{Time, add_days}
use pve_traffic_monitor.Models.{PeriodType, Direction, TrafficStats}
use pve_traffic_monitor.Rules.{Rule, VmInfo, apply_rules_to_vms}
use pve_traffic_monitor.Api.{is_empty}
use pve_traffic_monitor.Api.History.{Texts, period_of, or_word, bad_request, internal_error}

-- The operations of storage.Interface that these handlers call.
pub record Store (F L : Type 0) : Type 0 where
  pub calculate_traffic_stats_with_direction :
      ℤ → PeriodType → Time → Bool → Direction → Option (TrafficStats F)
  pub calculate_traffic_stats_with_time_range :
      ℤ → Time → Time → Direction → Option (TrafficStats F)
  pub get_action_logs : Time → Time → Option (List L)
  pub get_total_record_count : Option ℤ

-- An error with its status, or the data.
pub data Response (A : Type 0) : Type 0 where
  refused : ℕ → Response A
  success : A → Response A

unfoldable pub handle_vms :
    {F : Type 0} → Option (List VmInfo) → List (Rule F) → Response (List VmInfo)
handle_vms none rules = refused internal_error
handle_vms (some vms) rules = success (apply_rules_to_vms vms rules)

unfoldable pub handle_rules : {F : Type 0} → List (Rule F) → Response (List (Rule F))
handle_rules rules = success rules

abbrev pub direction_of : Text → Direction
direction_of s =
    if text_eq s (codes "both")
    then Direction.both
    else if text_eq s (codes "upload")
    then Direction.upload
    else if text_eq s (codes "tx")
    then Direction.tx
    else if text_eq s (codes "download")
    then Direction.download
    else if text_eq s (codes "rx")
    then Direction.rx
    else Direction.other s

pub record VmStatsResponse : Type 0 where
  pub vmid : ℕ
  pub name : Text
  pub period : PeriodType
  pub direction : Direction
  pub start_time : Time
  pub end_time : Time
  pub total_bytes : ℕ
  pub rx_bytes : ℕ
  pub tx_bytes : ℕ

pub record StatsRequest : Type 0 where
  pub direction : Text
  pub start : Text
  pub end : Text
  pub granularity : Text
  pub period : Text

-- The range of a request, and the period that the response names.
pub data StatsRange : Type 0 where
  custom : Time → Time → PeriodType → StatsRange
  preset : PeriodType → StatsRange

-- The statistics of the response, with its period and direction.
pub record StatsData : Type 0 where
  pub all_stats : List VmStatsResponse
  pub period : PeriodType
  pub direction : Direction

abbrev pub custom_of : Text → Option Time → Option Time → Option StatsRange
custom_of granularity (some start) (some end) =
    some (custom start end (period_of (or_word granularity (codes "hour"))))
custom_of granularity _ _ = none

unfoldable pub range_of : Texts → StatsRequest → Option StatsRange
range_of texts q =
    if not (is_empty q.start) && not (is_empty q.end)
    then custom_of q.granularity (texts.parse_rfc3339 q.start) (texts.parse_rfc3339 q.end)
    else some (preset (period_of (or_word q.period (codes "day"))))

abbrev pub period_named : StatsRange → PeriodType
period_named (custom start end period) = period
period_named (preset period) = period

module _ {F L : Type 0} (store : Store F L) where
  abbrev pub stats_in : StatsRange → Direction → VmInfo → Option (TrafficStats F)
  stats_in (custom start end period) direction vm =
      store.calculate_traffic_stats_with_time_range (pos vm.vmid) start end direction
  stats_in (preset period) direction vm =
      store.calculate_traffic_stats_with_direction (pos vm.vmid) period 0 false direction

  abbrev pub append_stats :
      VmInfo → Option (TrafficStats F) → List VmStatsResponse → List VmStatsResponse
  append_stats vm none rest = rest
  append_stats vm (some stats) rest =
      record {
        vmid = vm.vmid;
        name = vm.name;
        period = stats.period;
        direction = stats.direction;
        start_time = stats.start_time;
        end_time = stats.end_time;
        total_bytes = stats.total_bytes;
        rx_bytes = stats.rx_bytes;
        tx_bytes = stats.tx_bytes;
      }
      ∷ rest

  -- The loop over the VMs, which skips a VM whose statistics have an error.
  unfoldable pub stats_of_vms : StatsRange → Direction → List VmInfo → List VmStatsResponse
  stats_of_vms range direction [] = []
  stats_of_vms range direction (vm ∷ vms) =
      append_stats vm (stats_in range direction vm) (stats_of_vms range direction vms)

  abbrev pub with_vms : StatsRange → Direction → Option (List VmInfo) → Response StatsData
  with_vms range direction none = refused internal_error
  with_vms range direction (some vms) = success (record {
    all_stats = stats_of_vms range direction vms;
    period = period_named range;
    direction = direction;
  })

  abbrev pub with_range : Option StatsRange → Direction → Option (List VmInfo) → Response StatsData
  with_range none direction vms = refused bad_request
  with_range (some range) direction vms = with_vms range direction vms

  unfoldable pub handle_stats : Texts → StatsRequest → Option (List VmInfo) → Response StatsData
  handle_stats texts q vms =
      with_range (range_of texts q) (direction_of (or_word q.direction (codes "both"))) vms

  -- The statistics of one period of handleVM, where there is no error.
  abbrev pub period_stats :
      PeriodType
      → Option (TrafficStats F)
      → List (PeriodType × TrafficStats F)
      → List (PeriodType × TrafficStats F)
  period_stats period none rest = rest
  period_stats period (some stats) rest = (period, stats) ∷ rest

  unfoldable pub stats_of_vm : ℤ → List PeriodType → List (PeriodType × TrafficStats F)
  stats_of_vm vmid [] = []
  stats_of_vm vmid (period ∷ periods) =
      period_stats period
        (store.calculate_traffic_stats_with_direction vmid period 0 false Direction.both)
        (stats_of_vm vmid periods)

  abbrev pub with_status :
      ℤ → Option VmInfo → Response (VmInfo × List (PeriodType × TrafficStats F))
  with_status vmid none = refused internal_error
  with_status vmid (some vm) =
      success (vm, stats_of_vm vmid (PeriodType.hour ∷ PeriodType.day ∷ PeriodType.month ∷ []))

  abbrev pub with_id :
      Option ℤ → (ℤ → Option VmInfo) → Response (VmInfo × List (PeriodType × TrafficStats F))
  with_id none get_vm_status = refused bad_request
  with_id (some vmid) get_vm_status = with_status vmid (get_vm_status vmid)

  unfoldable pub handle_vm :
      Texts → Text → (ℤ → Option VmInfo) → Response (VmInfo × List (PeriodType × TrafficStats F))
  handle_vm texts vmid_text get_vm_status = with_id (texts.atoi vmid_text) get_vm_status

  abbrev pub time_given : Time → Option Time → Time
  time_given default none = default
  time_given default (some t) = t

  -- A parameter that is no time is passed over.
  abbrev pub time_in : Texts → Text → Time → Time
  time_in texts s default =
      if is_empty s then default else time_given default (texts.parse_rfc3339 s)

  abbrev pub logs_response : Option (List L) → Response (List L)
  logs_response none = refused internal_error
  logs_response (some logs) = success logs

  unfoldable pub handle_logs : Texts → Time → Text → Text → Response (List L)
  handle_logs texts now start end = logs_response (
      store.get_action_logs (time_in texts start (add_days now (pos 0 -ℤ pos 7)))
        (time_in texts end now))
