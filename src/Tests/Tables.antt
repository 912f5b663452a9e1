-- ===== src/Tests/Tables.antt =====
-- The database's theorems on a database that runs the statements, and on one for the states of VMs.
use pve_traffic_monitor.Base.{
  ℕ, ◌+◌, ◌≡◌, refl, if◌then◌else◌, false, List, [], ◌∷◌, some, none, Option, ◌*◌, keep,
}
use pve_traffic_monitor.Base.Text.{
  trim_space, trim_left, is_space, text_eq, text_eq_refl, has_prefix, trim_prefix, to_lower, lower,
  Text, codes,
}
use pve_traffic_monitor.Storage.{in_range, get_traffic_records}
use pve_traffic_monitor.Storage.Contents.{SameRecords}
use pve_traffic_monitor.Storage.Read.{IsOrdered}
use pve_traffic_monitor.Database.{build_query}
use pve_traffic_monitor.Clock.{hour_ns, day_ns}
use pve_traffic_monitor.Models.{TrafficRecord}
use pve_traffic_monitor.Storage.Refines.{Op, save, delete_before, delete_range, of_vm, no_records}
use pve_traffic_monitor.Storage.Refines
use pve_traffic_monitor.Database.Records.{
  delete_records_in_range, count_records_in_range, count_answered,
}
use pve_traffic_monitor.Database.Records
use pve_traffic_monitor.Database.Refines.{
  run, succeeded, log_steps, call, IsAnswered, records_answer, get_traffic_records-run,
}
use pve_traffic_monitor.Database.DryRun.{delete_records_in_range-count_records_in_range}
use pve_traffic_monitor.Database.Rows.{row_of}
use pve_traffic_monitor.Database.Same.{get_traffic_records_agree}
use pve_traffic_monitor.Tests.Storages.{reading, counter}
use pve_traffic_monitor.Database.Sql.{
  sqlite3, postgres, Value, number, time, text, Outcome, failed, done, Answer, Engine,
}
use pve_traffic_monitor.Tests.Engines.{Rows, engine, sql, condition_of, engine_answers}
use pve_traffic_monitor.Base.Maps.{lookup, put_key, nat_Eq}
use pve_traffic_monitor.Database.States.{
  on_conflict_query, load_query, updated, Json, StateTable, IsStateSql, save_vm_state,
  load_vm_state, load_vm_state-save_vm_state,
}
use pve_traffic_monitor.Database.Paths.{index_of, take_bytes, contains, sqlite_database_path}
use pve_traffic_monitor.Database.States

abbrev calls : List Op
calls =
    save hour_ns (reading 100 hour_ns 5)
    ∷ save (day_ns + hour_ns) (reading 100 (day_ns + hour_ns) 7)
    ∷ delete_before day_ns
    ∷ delete_range 101 0 day_ns
    ∷ []

calls-succeeded : succeeded engine sqlite3 calls [] ≡ calls
unfolding succeeded call Records.save_traffic_record build_query Records.delete_records_before
    delete_records_in_range
calls-succeeded = refl

calls-IsAnswered :
    IsAnswered (records_answer engine sqlite3 100 0 (2 * day_ns) (run engine sqlite3 calls []))
calls-IsAnswered =
    engine_answers (build_query false Records.get_records_query 4)
      (number 100 ∷ text (codes "all") ∷ time 0 ∷ time (2 * day_ns) ∷ [])
      (run engine sqlite3 calls [])

get_traffic_records-run_example :
    (rs : List TrafficRecord) × (Records.get_traffic_records engine sqlite3 100 0
        (2 * day_ns)
        (run engine sqlite3 calls [])
      ≡ some rs)
    × SameRecords rs (
        keep
          (λ r. in_range 0 (2 * day_ns) r.timestamp)
          (of_vm 100 (log_steps (λ t. t) (λ t. t) (succeeded engine sqlite3 calls []) [])))
    × IsOrdered rs
unfolding sql
get_traffic_records-run_example =
    get_traffic_records-run engine sqlite3 sql calls [] 100 0 (2 * day_ns) refl calls-IsAnswered

get_traffic_records_agree_example :
    (rs : List TrafficRecord) × (Records.get_traffic_records engine sqlite3 100 0
        (2 * day_ns)
        (run engine sqlite3 calls [])
      ≡ some rs)
    × SameRecords rs
        (get_traffic_records 100 0 (2 * day_ns) (Refines.run calls (no_records counter)))
    × IsOrdered rs
    × IsOrdered (get_traffic_records 100 0 (2 * day_ns) (Refines.run calls (no_records counter)))
unfolding sql
get_traffic_records_agree_example =
    get_traffic_records_agree engine sqlite3 sql calls [] counter 100 0 (2 * day_ns) refl
      (refl, (refl, ((refl, refl), ((refl, refl), tt)))) refl refl calls-succeeded calls-IsAnswered

abbrev two_rows : Rows
two_rows = row_of (reading 100 hour_ns 5) ∷ row_of (reading 101 (2 * hour_ns) 6) ∷ []

abbrev one : ℕ
one = 1

abbrev nothing : ℕ
nothing = 0

delete_records_in_range-count_records_in_range_example : (one ≡ 1) × (nothing ≡ 0)
unfolding delete_records_in_range count_records_in_range count_answered condition_of
delete_records_in_range-count_records_in_range_example =
    delete_records_in_range-count_records_in_range engine sqlite3 sql 100 0 day_ns two_rows 1 1 0
      refl refl refl

abbrev texts : Json Text
texts = record { marshal = λ s. some s; unmarshal = λ s. some s; empty = [] }

-- The arguments of SQLite's statement, and of the two that name the text and the time twice.
abbrev state_put : List Value → StateTable → Outcome × StateTable
state_put (number v ∷ text s ∷ time t ∷ []) m = (done (some 1), put_key v s m)
state_put (number v ∷ text s ∷ time t ∷ text s' ∷ time t' ∷ []) m =
    (done (some 1), put_key v (updated s s' (lookup v m)) m)
state_put _ m = (failed, m)

abbrev state_row : Option Text → Answer
state_row none = some ([], false)
state_row (some s) = some ((text s ∷ []) ∷ [], false)

abbrev state_get : List Value → StateTable → Answer
state_get (number v ∷ []) m = state_row (lookup v m)
state_get _ m = some ([], false)

-- A PostgreSQL for the table: every other statement is an error.
abbrev states : Engine StateTable
states = record {
  exec = λ q args m. if text_eq q on_conflict_query then state_put args m else (failed, m);
  query = λ q args m. if text_eq q (load_query postgres) then state_get args m else none;
}

row_shows : (o : Option Text) → States.ShowsState o (state_row o)
row_shows none = refl
row_shows (some s) = (s, refl, refl)

states_sql : IsStateSql postgres states
states_sql = record {
  table = λ m. m;
  upserts = λ vmid s s' t t' m. rw (text_eq_refl on_conflict_query) refl;
  reads = λ vmid m. rw (text_eq_refl (load_query postgres)) (row_shows (lookup vmid m));
}

-- The VM had a state before.
load_vm_state-save_vm_state_example :
    load_vm_state texts states postgres 100
      (save_vm_state texts states postgres hour_ns 100 (codes "ok") ((100, codes "old") ∷ [])).1
    ≡ some (codes "ok")
unfolding save_vm_state text_eq lookup put_key
load_vm_state-save_vm_state_example =
    load_vm_state-save_vm_state texts states postgres states_sql hour_ns 100 100 (codes "ok")
      (codes "ok") ((100, codes "old") ∷ []) refl refl tt tt

sqlite_path : sqlite_database_path (codes " file:data/pve.db?cache=shared ") ≡ codes "data/pve.db"
unfolding sqlite_database_path trim_space trim_left is_space text_eq has_prefix trim_prefix index_of
    take_bytes contains to_lower lower
sqlite_path = refl
