-- ===== src/Database/Refines.antt =====
-- The database storage against its specification: one log of records, in which a save adds a record and
-- a removal drops those it names.
use pve_traffic_monitor.Base.{
  ℕ, suc, ◌≡◌, refl, subst, ap, ◌∙◌, inl, inr, Bool, true, false, ◌&&◌, List, [], ◌∷◌, map, keep,
  Option, none, some, ◌==◌, Bool-cases, arith, if◌then◌else◌,
}
use pve_traffic_monitor.Base.Int.{pos, ◌-ℤ◌}
use pve_traffic_monitor.Base.Text.{codes, text_eq, text_eq_refl, is_space}
use pve_traffic_monitor.Clock.{Time, add_days}
use pve_traffic_monitor.Models.{TrafficRecord}
use pve_traffic_monitor.Storage.{traffic_record, in_range, StoredTrafficRecord}
use pve_traffic_monitor.Storage.Contents.{SameRecords}
use pve_traffic_monitor.Storage.Read.{IsOrdered}
use pve_traffic_monitor.Storage.Removal.{is_before}
use pve_traffic_monitor.Storage.Refines.{
  Op, save, delete_range, delete_before, cleanup, drop_if, of_vm,
}
use pve_traffic_monitor.Database.{build_query}
use pve_traffic_monitor.Database.Sql.{
  Driver, is_postgres, number, time, text, Answer, Engine, meets, chosen, Shows, IsSql,
}
use pve_traffic_monitor.Database.Records.{
  get_records_query, records_answered, scan_records, save_traffic_record, get_traffic_records,
  delete_records_in_range, delete_records_before, cleanup_old_data,
}
use pve_traffic_monitor.Database.Effects.{
  records_condition, save_record_text, get_records_text, meets-records_condition,
  scan_records-shown,
}
use pve_traffic_monitor.Database.Rows.{
  row_of, rows_of, Removed, Did-done, chosen-rows_of, map-rows_of,
}
use pve_traffic_monitor.Database.Removal.{
  is_in_range, delete_records_in_range-Removed, delete_records_before-Removed, cleanup_old_data_lem,
}

abbrev pub is_some : Option ℕ → Bool
is_some none = false
is_some (some n) = true

-- A record as the table keeps it.
abbrev pub kept_record : (Time → Time) → TrafficRecord → TrafficRecord
kept_record kept r = record r { timestamp = kept r.timestamp }

-- What a call does to the log, and what calls do: a time that is saved is kept, and a bound is taken, as
-- the database does.
unfoldable pub log_step :
    (Time → Time) → (Time → Time) → Op → List TrafficRecord → List TrafficRecord
log_step kept taken (save now r) log = kept_record kept r ∷ log
log_step kept taken (delete_range vmid start end) log =
    drop_if (is_in_range vmid (taken start) (taken end)) log
log_step kept taken (delete_before t) log = drop_if (is_before (taken t)) log
log_step kept taken (cleanup now days) log =
    drop_if (is_before (taken (add_days now (pos 0 -ℤ pos (suc days))))) log

unfoldable pub log_steps :
    (Time → Time) → (Time → Time) → List Op → List TrafficRecord → List TrafficRecord
log_steps kept taken [] log = log
log_steps kept taken (op ∷ ops) log = log_steps kept taken ops (log_step kept taken op log)

Removed-step :
    {W : Type 0} (table : W → List StoredTrafficRecord) (log : List TrafficRecord)
    (p : TrafficRecord → Bool) (n : Option ℕ) (v : W)
    → Removed table log p n v
    → table v ≡ rows_of (if is_some n then drop_if p log else log)
Removed-step table log p none v h = h
Removed-step table log p (some n) v h = h.0

module _ {W : Type 0} (e : Engine W) (driver : Driver) where
  -- A call, with whether it returns without an error.
  unfoldable pub call : Op → W → Bool × W
  call (save now r) w = save_traffic_record e driver r w
  call (delete_range vmid start end) w =
      let step = delete_records_in_range e driver vmid start end w in (is_some step.0, step.1)
  call (delete_before t) w =
      let step = delete_records_before e driver t w in (is_some step.0, step.1)
  call (cleanup now days) w = cleanup_old_data e driver now (pos (suc days)) w

  -- The calls one after the other, and those that return without an error.
  unfoldable pub run : List Op → W → W
  run [] w = w
  run (op ∷ ops) w = run ops (call op w).1

  unfoldable pub succeeded : List Op → W → List Op
  succeeded [] w = []
  succeeded (op ∷ ops) w =
      let rest = succeeded ops (call op w).1 in if (call op w).0 then op ∷ rest else rest

  module _ (sql : IsSql (is_postgres driver) e) where
    save_traffic_record_lem :
        (r : TrafficRecord) (w : W) (log : List TrafficRecord)
        → sql.table w ≡ rows_of log
        → sql.table (save_traffic_record e driver r w).1
          ≡ rows_of
              (if (save_traffic_record e driver r w).0 then kept_record sql.kept r ∷ log else log)
    unfolding save_traffic_record is_space
    save_traffic_record_lem r w log h = rw (save_record_text (is_postgres driver)) (
        Did-done sql.table w log (kept_record sql.kept r ∷ log) _ _ _ h
          (ap (λ rows. row_of (kept_record sql.kept r) ∷ rows) h)
          (sql.inserts r.vmid (codes "all") r.timestamp r.rx_bytes r.tx_bytes r.total_bytes w))

    call_lem :
        (op : Op) (w : W) (log : List TrafficRecord)
        → sql.table w ≡ rows_of log
        → sql.table (call op w).1
          ≡ rows_of (if (call op w).0 then log_step sql.kept sql.taken op log else log)
    unfolding call log_step
    call_lem (save now r) w log h = save_traffic_record_lem r w log h
    call_lem (delete_range vmid start end) w log h =
        Removed-step sql.table log (is_in_range vmid (sql.taken start) (sql.taken end)) _ _
          (delete_records_in_range-Removed e driver sql vmid start end w log h)
    call_lem (delete_before t) w log h =
        Removed-step sql.table log (is_before (sql.taken t)) _ _
          (delete_records_before-Removed e driver sql t w log h)
    call_lem (cleanup now days) w log h = cleanup_old_data_lem e driver sql now days w log h

    run-table :
        (ops : List Op) (w : W) (log : List TrafficRecord)
        → sql.table w ≡ rows_of log
        → sql.table (run ops w) ≡ rows_of (log_steps sql.kept sql.taken (succeeded ops w) log)
    unfolding run succeeded log_steps
    run-table [] w log h = h
    run-table (op ∷ ops) w log h = elim (Bool-cases (call op w).0) [
      | inl b ↦ rw b (
          run-table ops (call op w).1 _ (
            subst
              (λ c.
                sql.table (call op w).1
                ≡ rows_of (if c then log_step sql.kept sql.taken op log else log))
              b (call_lem op w log h)))
      | inr b ↦ rw b (
          run-table ops (call op w).1 log (
            subst
              (λ c.
                sql.table (call op w).1
                ≡ rows_of (if c then log_step sql.kept sql.taken op log else log))
              b (call_lem op w log h)))
    ]

-- A query that fails neither at once nor in its iteration.
abbrev pub IsAnswered : Answer → Type 0
IsAnswered none = ⊥
IsAnswered (some (answer, true)) = ⊥
IsAnswered (some (answer, false)) = Unit

records_answered-Shows :
    (rows : List StoredTrafficRecord) (answer : Answer)
    → IsAnswered answer
    → Shows rows answer
    → (rs : List TrafficRecord) × (records_answered answer ≡ some rs)
      × SameRecords rs (map traffic_record rows)
      × IsOrdered rs
records_answered-Shows rows none a h = elim a [ ]
records_answered-Shows rows (some (answer, true)) a h = elim a [ ]
records_answered-Shows rows (some (answer, false)) a (rs, same, h, ordered) =
    (rs, ap scan_records same ∙ scan_records-shown rs, h, ordered)

meets-row_of :
    (vmid : ℕ) (start end : Time) (r : TrafficRecord)
    → meets records_condition
        (number vmid ∷ text (codes "all") ∷ time start ∷ time end ∷ [])
        (row_of r)
      ≡ (r.vmid == vmid && in_range start end r.timestamp)
meets-row_of vmid start end r =
    meets-records_condition vmid start end (row_of r)
    ∙ rw (text_eq_refl (codes "all")) (ground arith)

keep-of_vm :
    (vmid : ℕ) (start end : Time) (log : List TrafficRecord)
    → keep (λ r. r.vmid == vmid && in_range start end r.timestamp) log
      ≡ keep (λ r. in_range start end r.timestamp) (of_vm vmid log)
keep-of_vm vmid start end [] = refl
keep-of_vm vmid start end (r ∷ log) = ground (arith, keep-of_vm vmid start end log)

-- What the engine answers to the query of records.
abbrev pub records_answer : {W : Type 0} → Engine W → Driver → ℕ → Time → Time → W → Answer
records_answer e driver vmid start end w =
    e.query (build_query (is_postgres driver) get_records_query 4)
      (number vmid ∷ text (codes "all") ∷ time start ∷ time end ∷ []) w

module _ {W : Type 0} (e : Engine W) (driver : Driver) (sql : IsSql (is_postgres driver) e) where
  pub get_traffic_records-rows_of :
      (vmid : ℕ) (start end : Time) (w : W) (log : List TrafficRecord)
      → sql.table w ≡ rows_of log
      → IsAnswered (records_answer e driver vmid start end w)
      → (rs : List TrafficRecord) × (get_traffic_records e driver vmid start end w ≡ some rs)
        × SameRecords rs
            (keep (λ r. in_range (sql.taken start) (sql.taken end) r.timestamp) (of_vm vmid log))
        × IsOrdered rs
  unfolding get_traffic_records is_space text_eq
  get_traffic_records-rows_of vmid start end w log t answered =
      let args = number vmid ∷ text (codes "all") ∷ time start ∷ time end ∷ [] in
      let from = sql.taken start in
      let to = sql.taken end in
      let taken = number vmid ∷ text (codes "all") ∷ time from ∷ time to ∷ [] in
      let found =
        records_answered-Shows (chosen records_condition taken (sql.table w)) _
          (subst (λ q. IsAnswered (e.query q args w)) (get_records_text (is_postgres driver))
            answered)
          (sql.selects records_condition args w tt) in
      let wanted : map traffic_record (chosen records_condition taken (sql.table w))
          ≡ keep (λ r. in_range from to r.timestamp) (of_vm vmid log) =
        ap (λ rows. map traffic_record (chosen records_condition taken rows)) t
        ∙ ap (map traffic_record) (
            chosen-rows_of records_condition taken
              (λ r. r.vmid == vmid && in_range from to r.timestamp) (meets-row_of vmid from to) log)
        ∙ map-rows_of _
        ∙ keep-of_vm vmid from to log in
      rw (get_records_text (is_postgres driver))
        (found.0, found.1, subst (λ qs. SameRecords found.0 qs) wanted found.2, found.3)

  -- On a database that runs SQL and has an empty table, after any saves and removals, some of which may
  -- fail, where the engine answers the query of the records with these arguments without an error, the
  -- call gives the records that the log of the calls without an error has of the VM and the time range,
  -- each as often, in the order of time. The times of the log are as the table keeps them, and the
  -- bounds of the removals and of the range as the database takes them.
  pub get_traffic_records-run :
      (ops : List Op) (w : W) (vmid : ℕ) (start end : Time)
      → sql.table w ≡ []
      → IsAnswered (records_answer e driver vmid start end (run e driver ops w))
      → (rs : List TrafficRecord) × (get_traffic_records e driver vmid start end
            (run e driver ops w)
          ≡ some rs)
        × SameRecords rs (
            keep
              (λ r. in_range (sql.taken start) (sql.taken end) r.timestamp)
              (of_vm vmid (log_steps sql.kept sql.taken (succeeded e driver ops w) [])))
        × IsOrdered rs
  get_traffic_records-run ops w vmid start end t answered =
      get_traffic_records-rows_of vmid start end (run e driver ops w) _
        (run-table e driver sql ops w [] t) answered
