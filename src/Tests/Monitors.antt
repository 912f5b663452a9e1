-- ===== src/Tests/Monitors.antt =====
-- The monitor on the server with a map for each VM.
use pve_traffic_monitor.Base.{
  ℕ, zero, suc, ◌+◌, ◌*◌, ◌≡◌, refl, true, false, All, arith, List, [], ◌∷◌, none, some,
  if◌then◌else◌,
}
use pve_traffic_monitor.Base.Int.{pos}
use pve_traffic_monitor.Base.Result.{ok}
use pve_traffic_monitor.Base.Maps.{lookup, text_Eq}
use pve_traffic_monitor.Base.Text.{codes, text_eq}
use pve_traffic_monitor.Cache.{invalidate}
use pve_traffic_monitor.Clock.{
  Time, minute_ns, hour_ns, day_ns, find_month, month_length, is_leap, day, hour,
}
use pve_traffic_monitor.Models.{PeriodType, Direction, Action, TrafficStats}
use pve_traffic_monitor.Network.{lookup_text}
use pve_traffic_monitor.Rules.{Rule, VmInfo, get_matched_rules_for_vm, vm_matches_rule, has_id}
use pve_traffic_monitor.Client.{get_vm_tags}
use pve_traffic_monitor.Storage.Stats.{calculate_traffic_stats_with_direction}
use pve_traffic_monitor.Monitor.Actions.{
  Power, Readings, Acted, is_done, perform, execute_action, action_tag,
}
use pve_traffic_monitor.Monitor.Actions.Once.{execute_action_once}
use pve_traffic_monitor.Monitor.Commands.{CleanupType, Flags, Parse, handle_cleanup}
use pve_traffic_monitor.Monitor.Commands.DryRun.{as_dry_run, handle_cleanup_dry}
use pve_traffic_monitor.Monitor.Cycle.{
  Node, RuleReadings, StatsKey, key_of, Monitor, calculate_traffic_stats_with_cache,
}
use pve_traffic_monitor.Monitor.Cycle.Fresh.{
  creation_used, calculate_traffic_stats_with_cache_fresh,
}
use pve_traffic_monitor.Monitor.Apply.{VmReadings, process_vm}
use pve_traffic_monitor.Monitor.Apply.Quiet.{SameActed, process_vm_quiet}
use pve_traffic_monitor.Monitor.Loop.{LoopConfig, Event, old_data, clear_cache, Loop}
use pve_traffic_monitor.Monitor.Loop.Daily.{
  Hourly, finished, ticked, cleared, Keeps, at_three, RemovesOnce, run_daily,
}
use pve_traffic_monitor.Tests.Traffics.{whole}
use pve_traffic_monitor.Tests.Clients.{maps, maps_answer}
use pve_traffic_monitor.Tests.Storages.{filled, filled-IsStored}

-- A parser that reads every text but the empty one as one time.
abbrev parse : Parse
parse layout s = if text_eq s [] then none else some (day_ns + hour_ns)

abbrev flags : Flags
flags = record {
  start_time = [];
  end_time = [];
  export_date = codes "0001-01-02";
  before_date = [];
  vm_id = 100;
  dry_run = false;
}

handle_cleanup_dry_example :
    handle_cleanup parse CleanupType.vm (as_dry_run true flags) filled
    ≡ ((handle_cleanup parse CleanupType.vm (as_dry_run false flags) filled).0, filled)
handle_cleanup_dry_example = handle_cleanup_dry parse CleanupType.vm flags filled filled-IsStored

abbrev power : Power maps
power = record { shutdown_vm = λ vmid w. (ok tt, w); stop_vm = λ vmid w. (ok tt, w) }

abbrev node : Node maps
node = record { get_counters = λ vmid w. (ok (5, 6), w); get_all_vms = λ templates w. (ok [], w) }

abbrev vm : VmInfo
vm = record {
  vmid = 100;
  name = codes "web";
  status = codes "running";
  tags = [];
  matched_rules = [];
  network_rx = 0;
  network_tx = 0;
  template = false;
}

abbrev shutdown_rule : Rule ℕ
shutdown_rule = record {
  name = codes "daily";
  enabled = true;
  period = PeriodType.day;
  use_creation_time = false;
  traffic_direction = Direction.both;
  limit_gb = 10;
  action = Action.shutdown;
  force_stop = false;
  rate_limit_mb = 0;
  vm_ids = 101 ∷ [];
  vm_tags = [];
  exclude_vm_ids = [];
}

abbrev stop_rule : Rule ℕ
stop_rule = record shutdown_rule { name = codes "stop"; action = Action.stop }

abbrev stats : TrafficStats ℕ
stats = record {
  vmid = 100;
  period = PeriodType.day;
  start_time = 0;
  end_time = hour_ns;
  direction = Direction.both;
  rx_bytes = 4;
  tx_bytes = 3;
  total_bytes = 7;
  total_gb = 7;
}

abbrev at : ℕ → Readings
at n = record { log_now = n; recovery_now = n; state_now = n }

abbrev acted : Acted maps whole
acted = record { states = []; world = λ vmid. []; logs = [] }

shut_down : (execute_action maps whole power (at hour_ns) vm shutdown_rule stats 0 acted).0 ≡ ok tt
unfolding execute_action is_done get_vm_tags lookup_text lookup perform action_tag text_eq
shut_down = refl

abbrev after_shutdown : Acted maps whole
after_shutdown = (execute_action maps whole power (at hour_ns) vm shutdown_rule stats 0 acted).1

execute_action_once_example :
    execute_action maps whole power (at (2 * hour_ns)) vm stop_rule stats 0 after_shutdown
    ≡ (ok tt, after_shutdown)
unfolding action_tag
execute_action_once_example =
    execute_action_once maps whole power maps_answer vm (at hour_ns) (at (2 * hour_ns))
      shutdown_rule stop_rule stats stats 0 0 acted tt tt refl shut_down

abbrev monitor : Monitor maps whole
monitor = record {
  acted = acted;
  storage = filled;
  cache = record { cache = []; ttl = 5 * minute_ns };
}

abbrev rule_at : ℕ → RuleReadings
rule_at n = record {
  period_now = day_ns + hour_ns;
  get_now = day_ns + hour_ns;
  stats_now = day_ns + hour_ns;
  set_now = day_ns + hour_ns;
  action = at (day_ns + hour_ns);
}

abbrev vm_at : VmReadings
vm_at = record { record_now = day_ns; save_now = day_ns; rules = rule_at }

calculate_traffic_stats_with_cache_fresh_example :
    (calculate_traffic_stats_with_cache maps whole
      (rule_at 0)
      100
      PeriodType.day
      Direction.both
      true
      0
      (record monitor { cache = invalidate monitor.cache 100 })).0.0
    ≡ calculate_traffic_stats_with_direction whole
        (day_ns + hour_ns)
        100
        PeriodType.day
        (creation_used maps whole true 100 (λ vmid. []))
        true
        Direction.both
        filled
calculate_traffic_stats_with_cache_fresh_example =
    calculate_traffic_stats_with_cache_fresh maps whole (rule_at 0) 100 PeriodType.day
      Direction.both true 0 monitor

not_matched : get_matched_rules_for_vm vm (shutdown_rule ∷ []) ≡ []
unfolding get_matched_rules_for_vm vm_matches_rule has_id
not_matched = refl

process_vm_quiet_example :
    SameActed maps whole monitor
      (process_vm maps whole power node vm_at vm (shutdown_rule ∷ []) monitor).1
      (λ vmid. [])
process_vm_quiet_example =
    process_vm_quiet maps whole power node vm_at vm (shutdown_rule ∷ []) monitor not_matched

abbrev stats_map : List (StatsKey × TrafficStats ℕ)
stats_map = (key_of shutdown_rule, stats) ∷ []

abbrev config : LoopConfig ℕ
config = record {
  rules = shutdown_rule ∷ [];
  include_templates = false;
  data_retention_days = pos 7;
}

ticks : ℕ → Time → List (LoopConfig ℕ × Event)
ticks zero t = (config, clear_cache) ∷ []
ticks (suc n) t = (config, old_data t) ∷ ticks n (t + hour_ns)

ticks-Hourly : (n : ℕ) (t : Time) → Hourly ℕ n t (ticks n t)
unfolding ticks
ticks-Hourly zero t = cleared config finished
ticks-Hourly (suc n) t = ticked config (ticks-Hourly n (t + hour_ns))

abbrev loop : Loop maps whole
loop = record { monitor = monitor; last_cleanup_day = 1; interval = 60 }

ticks-Keeps : (n : ℕ) (t : Time) → All (Keeps 7) (ticks n t)
unfolding ticks
ticks-Keeps zero t = (refl, tt)
ticks-Keeps (suc n) t = (refl, ticks-Keeps n (t + hour_ns))

run_daily_example :
    (hour (at_three day_ns) ≡ 3)
    × RemovesOnce maps whole power node (at_three day_ns) 7 (ticks 24 day_ns) loop
unfolding hour day find_month month_length is_leap
run_daily_example =
    run_daily maps whole power node day_ns 6 (ticks 24 day_ns) loop (ticks-Hourly 24 day_ns)
      (ticks-Keeps 24 day_ns) (λ e. absurd (omega (arith, e)))
