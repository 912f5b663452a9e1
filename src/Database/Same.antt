-- ===== src/Database/Same.antt =====
-- The two storages side by side: the same calls on the file storage and on the database.
use pve_traffic_monitor.Base.{
  ℕ, suc, ◌%◌, ◌/◌, ◌≡◌, refl, sym, subst, ap, ◌∙◌, Bool, not, List, [], ◌∷◌, keep, All, some,
  arith,
}
use pve_traffic_monitor.Base.Int.{pos, ◌-ℤ◌}
use pve_traffic_monitor.Clock.{Time, day_ns, add_days}
use pve_traffic_monitor.Models.{TrafficRecord}
use pve_traffic_monitor.Storage.{RecordCounter, in_range, get_traffic_records}
use pve_traffic_monitor.Storage.Contents.{SameRecords}
use pve_traffic_monitor.Storage.Read.{IsOrdered}
use pve_traffic_monitor.Storage.Removal.{is_before}
use pve_traffic_monitor.Storage.Removal.Before.{begins_before-midnight}
use pve_traffic_monitor.Storage.Removal.Old.{is_old}
use pve_traffic_monitor.Storage.Refines.{
  Op, save, delete_range, delete_before, cleanup, run_log, of_vm, no_records,
  run-get_traffic_records,
}
use pve_traffic_monitor.Storage.Refines
use pve_traffic_monitor.Database.Sql.{Driver, is_postgres, Engine, IsSql}
use pve_traffic_monitor.Database.Records
use pve_traffic_monitor.Database.Refines.{
  log_step, log_steps, run, succeeded, IsAnswered, records_answer, get_traffic_records-run,
}

-- A save of a time that the table keeps as it is, and a removal whose bounds the database takes as they
-- are, and which is up to a midnight if it has one bound.
abbrev pub IsExact : (Time → Time) → (Time → Time) → Op → Type 0
IsExact kept taken (save now r) = kept r.timestamp ≡ r.timestamp
IsExact kept taken (delete_range vmid start end) = (taken start ≡ start) × (taken end ≡ end)
IsExact kept taken (delete_before t) = (taken t ≡ t) × (t % day_ns ≡ 0)
IsExact kept taken (cleanup now days) =
    let until = add_days now (pos 0 -ℤ pos (suc days)) in
    (taken until ≡ until) × (until % day_ns ≡ 0)

is_old-midnight :
    (t : Time) (r : TrafficRecord) → t % day_ns ≡ 0 → is_old (t / day_ns) r ≡ is_before t r
is_old-midnight t r h = ground arith

module _ (kept taken : Time → Time) where
  log_steps-run_log :
      (ops : List Op) (log : List TrafficRecord)
      → All (IsExact kept taken) ops
      → log_steps kept taken ops log ≡ run_log ops log
  unfolding log_steps log_step run_log
  log_steps-run_log [] log h = refl
  log_steps-run_log (save now r ∷ ops) log h =
      ap (λ t. log_steps kept taken ops (record r { timestamp = t } ∷ log)) h.0
      ∙ log_steps-run_log ops (r ∷ log) h.1
  log_steps-run_log (delete_range vmid start end ∷ ops) log h =
      rw h.0.0 (rw h.0.1 (log_steps-run_log ops _ h.1))
  log_steps-run_log (delete_before t ∷ ops) log h =
      log_steps-run_log ops _ h.1
      ∙ ap (λ u. run_log ops (keep (λ r. not (is_before u r)) log)) h.0.0
      ∙ ap (λ (goes : TrafficRecord → Bool). run_log ops (keep (λ r. not (goes r)) log))
          (λ i r. sym (begins_before-midnight t r h.0.1) i)
  log_steps-run_log (cleanup now days ∷ ops) log h =
      let until = add_days now (pos 0 -ℤ pos (suc days)) in
      log_steps-run_log ops _ h.1
      ∙ ap (λ u. run_log ops (keep (λ r. not (is_before u r)) log)) h.0.0
      ∙ ap (λ (goes : TrafficRecord → Bool). run_log ops (keep (λ r. not (goes r)) log))
          (λ i r. sym (is_old-midnight until r h.0.1) i)

-- On a database that runs SQL and has an empty table, and on an empty file storage, after the same
-- saves and removals without an error, where the engine answers the query of the records with these
-- arguments without an error, both give the same records, each as often,
-- and both in the order of time. The removals by age and before a time are up to a midnight, the table
-- keeps the times that are saved as they are, and the database takes the bounds as they are.
pub get_traffic_records_agree :
    {W : Type 0} (e : Engine W) (driver : Driver) (sql : IsSql (is_postgres driver) e)
    (ops : List Op) (w : W) (counter : RecordCounter) (vmid : ℕ) (start end : Time)
    → sql.table w ≡ []
    → All (IsExact sql.kept sql.taken) ops
    → sql.taken start ≡ start
    → sql.taken end ≡ end
    → succeeded e driver ops w ≡ ops
    → IsAnswered (records_answer e driver vmid start end (run e driver ops w))
    → (rs : List TrafficRecord) × (Records.get_traffic_records e driver vmid start end
          (run e driver ops w)
        ≡ some rs)
      × SameRecords rs (get_traffic_records vmid start end (Refines.run ops (no_records counter)))
      × IsOrdered rs
      × IsOrdered (get_traffic_records vmid start end (Refines.run ops (no_records counter)))
get_traffic_records_agree e driver sql ops w counter vmid start end t exact from to all answered =
    let (rs, got, same, ordered) =
      get_traffic_records-run e driver sql ops w vmid start end t answered in
    let files = run-get_traffic_records ops counter vmid start end in
    let logs : log_steps sql.kept sql.taken (succeeded e driver ops w) [] ≡ run_log ops [] =
      ap (λ os. log_steps sql.kept sql.taken os []) all
      ∙ log_steps-run_log sql.kept sql.taken ops [] exact in
    let range : (λ (r : TrafficRecord). in_range (sql.taken start) (sql.taken end) r.timestamp)
        ≡ (λ r. in_range start end r.timestamp) =
      λ i r. in_range (from i) (to i) r.timestamp in
    (
      rs,
      got,
      (λ p.
          subst
            (λ log. SameRecords rs (keep (λ r. in_range start end r.timestamp) (of_vm vmid log)))
            logs
            (subst
              (λ wanted. SameRecords rs (
                keep wanted
                  (of_vm vmid (log_steps sql.kept sql.taken (succeeded e driver ops w) []))))
              range same)
            p
          ∙ sym (files.0 p)),
      ordered,
      files.1,
    )
