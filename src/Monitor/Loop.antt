-- ===== src/Monitor/Loop.antt =====
-- The loop of Start, cmd/monitor/main.go: what the monitor does with each event, in the order in
-- which `select` takes them. A message of the command line, which a goroutine of its own handles, is
-- one of them.
pub mod Daily
use pve_traffic_monitor.Base.{
  ℕ, Bool, true, false, not, ◌&&◌, List, [], ◌∷◌, map, ltb, ◌==◌, if◌then◌else◌,
}
use pve_traffic_monitor.Base.Float.{Float}
use pve_traffic_monitor.Base.Int.{ℤ, pos_part}
use pve_traffic_monitor.Base.Result.{Result, ok, err}
use pve_traffic_monitor.Clock.{Time, day, hour}
use pve_traffic_monitor.Rules.{Rule, VmInfo}
use pve_traffic_monitor.Network.{PveError}
use pve_traffic_monitor.Cache.{clear}
use pve_traffic_monitor.Client.{Pve}
use pve_traffic_monitor.Recovery.Manager.{
  States, check_and_recover_due, recover_all, cleanup_all_tags,
}
use pve_traffic_monitor.Storage.Start.{close}
use pve_traffic_monitor.Storage.Removal.{cleanup_old_data}
use pve_traffic_monitor.Monitor.Actions.{Power, Acted}
use pve_traffic_monitor.Monitor.Cycle.{Node, Monitor}
use pve_traffic_monitor.Monitor.Apply.{VmReadings, collect_and_process}

-- What the loop reads of the configuration that is in force.
pub record LoopConfig (F : Type 0) : Type 0 where
  pub rules : List (Rule F)
  pub include_templates : Bool
  pub data_retention_days : ℤ

-- The tickers for a cycle, for recoveries and for old data, with the times that are read; messages
-- that clear the cache; and a new interval.
pub data Event : Type 0 where
  cycle : (ℕ → VmReadings) → Event
  recovery : Time → Event
  old_data : Time → Event
  clear_cache : Event
  new_interval : ℕ → Event

module _ (pve : Pve) (fl : Float) where
  pub record Loop : Type 0 where
    pub monitor : Monitor pve fl
    pub last_cleanup_day : ℕ
    pub interval : ℕ

  abbrev pub with_recovered : States pve fl × pve.World → Acted pve fl → Acted pve fl
  with_recovered at m = record m { states = at.0; world = at.1 }

  -- The hour is 3, and no old data was removed on a day of this number.
  unfoldable pub is_due : Time → Loop → Bool
  is_due now l = (hour now == 3) && not (day now == l.last_cleanup_day)

  abbrev pub remove_old : Time → ℤ → Monitor pve fl → Monitor pve fl
  remove_old now days m =
      if ltb 0 (pos_part days)
      then record m { storage = cleanup_old_data now days m.storage }
      else m

  unfoldable pub clean_daily : LoopConfig fl.F → Time → Loop → Loop
  clean_daily config now l =
      if is_due now l
      then record l {
        monitor = remove_old now config.data_retention_days l.monitor;
        last_cleanup_day = day now;
      }
      else l

  module _ (power : Power pve) (node : Node pve) where
    unfoldable pub handle : LoopConfig fl.F → Event → Loop → Loop
    handle config (cycle now) l = record l {
      monitor =
          (collect_and_process pve fl power node now config.include_templates config.rules
            l.monitor).1;
    }
    handle config (recovery now) l =
        let m = l.monitor in
        let acted = m.acted in
        record l {
          monitor = record m {
            acted =
                with_recovered (check_and_recover_due pve fl now (acted.states, acted.world)) acted;
          };
        }
    handle config (old_data now) l = clean_daily config now l
    handle config clear_cache l =
        let m = l.monitor in record l { monitor = record m { cache = clear m.cache } }
    handle config (new_interval seconds) l = record l { interval = seconds }

    -- Each event comes with the configuration that is in force.
    unfoldable pub run : List (LoopConfig fl.F × Event) → Loop → Loop
    run [] l = l
    run ((config, event) ∷ events) l = run events (handle config event l)

    abbrev pub untagged : Result PveError (List VmInfo) × pve.World → pve.World
    untagged (ok vms, w) = cleanup_all_tags pve fl (map (λ vm. vm.vmid) vms) w
    untagged (err e, w) = w

    -- On a signal: the tags of all VMs are removed, all VMs are recovered, and the storage is closed.
    unfoldable pub quit : LoopConfig fl.F → Loop → Monitor pve fl
    quit config l =
        let m = l.monitor in
        let acted = m.acted in
        let w = untagged (node.get_all_vms config.include_templates acted.world) in
        record m {
          acted = with_recovered (recover_all pve fl (acted.states, w)) acted;
          storage = close m.storage;
        }
