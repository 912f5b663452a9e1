-- ===== src/Database/Removal.antt =====
-- The removals and the counts of the database storage.
use pve_traffic_monitor.Base.{
  ℕ, suc, ◌≡◌, subst, ap, ◌∙◌, Bool, ◌&&◌, List, [], ◌∷◌, length, some, if◌then◌else◌,
}
use pve_traffic_monitor.Base.Int.{pos, ◌-ℤ◌}
use pve_traffic_monitor.Clock.{Time, add_days}
use pve_traffic_monitor.Models.{TrafficRecord}
use pve_traffic_monitor.Storage.{traffic_record}
use pve_traffic_monitor.Storage.Contents.{count}
use pve_traffic_monitor.Storage.Removal.{is_chosen, is_between, is_before}
use pve_traffic_monitor.Storage.Refines.{drop_if}
use pve_traffic_monitor.Database.Sql.{
  Driver, is_postgres, Value, time, Engine, Condition, meets, chosen, rest_of, delete_text,
  all_taken, IsStatement, IsSql,
}
use pve_traffic_monitor.Database.Records.{
  rows_affected, count_answered, range_args, delete_records_in_range, count_records_in_range,
  delete_records_before, count_records_before, cleanup_old_data,
}
use pve_traffic_monitor.Database.Effects.{
  before_condition, range_condition, delete_before_query_lem, count_before_query_lem,
  delete_in_range_query_lem, count_in_range_query_lem, meets-range_taken,
  range_condition-IsStatement, meets-before_condition,
}
use pve_traffic_monitor.Database.Rows.{
  row_of, rows_of, Removed, Did-Removed, Did-done, rest_of-rows_of, length-chosen,
  count_answered-Counts,
}

abbrev pub is_in_range : ℕ → Time → Time → TrafficRecord → Bool
is_in_range vmid start end r = is_chosen vmid r.vmid && is_between start end r

module _ {W : Type 0} (e : Engine W) (driver : Driver) (sql : IsSql (is_postgres driver) e) where
  deletes-Removed :
      (c : Condition) (args : List Value) (p : TrafficRecord → Bool)
      → IsStatement c args
      → ((r : TrafficRecord) → meets c (all_taken sql.taken args) (row_of r) ≡ p r)
      → (w : W) (log : List TrafficRecord) → sql.table w ≡ rows_of log
      → Removed sql.table log p
          (rows_affected (e.exec (delete_text (is_postgres driver) c) args w).0)
          (e.exec (delete_text (is_postgres driver) c) args w).1
  deletes-Removed c args p fit h w log t =
      let taken = all_taken sql.taken args in
      Did-Removed sql.table w log _ _ p _ t
        (ap (rest_of c taken) t ∙ rest_of-rows_of c taken p h log)
        (ap (λ rows. length (chosen c taken rows)) t ∙ length-chosen c taken p h log)
        (sql.deletes c args w fit)

  pub delete_records_in_range-Removed :
      (vmid : ℕ) (start end : Time) (w : W) (log : List TrafficRecord)
      → sql.table w ≡ rows_of log
      → Removed sql.table log
          (is_in_range vmid (sql.taken start) (sql.taken end))
          (delete_records_in_range e driver vmid start end w).0
          (delete_records_in_range e driver vmid start end w).1
  unfolding delete_records_in_range traffic_record
  delete_records_in_range-Removed vmid start end w log t =
      rw (delete_in_range_query_lem driver vmid) (
        deletes-Removed (range_condition vmid) (range_args vmid start end)
          (is_in_range vmid (sql.taken start) (sql.taken end))
          (range_condition-IsStatement vmid start end)
          (λ r. meets-range_taken sql.taken vmid start end (row_of r)) w log t)

  pub delete_records_before-Removed :
      (t : Time) (w : W) (log : List TrafficRecord)
      → sql.table w ≡ rows_of log
      → Removed sql.table log
          (is_before (sql.taken t))
          (delete_records_before e driver t w).0
          (delete_records_before e driver t w).1
  unfolding delete_records_before
  delete_records_before-Removed t w log h = rw (delete_before_query_lem driver) (
      deletes-Removed before_condition (time t ∷ []) (is_before (sql.taken t)) tt
        (λ r. meets-before_condition (sql.taken t) (row_of r)) w log h)

  pub count_records_in_range_lem :
      (vmid : ℕ) (start end : Time) (w : W) (log : List TrafficRecord) (m : ℕ)
      → sql.table w ≡ rows_of log
      → count_records_in_range e driver vmid start end w ≡ some m
      → m ≡ count (is_in_range vmid (sql.taken start) (sql.taken end)) log
  unfolding count_records_in_range traffic_record
  count_records_in_range_lem vmid start end w log m t h =
      let c = range_condition vmid in
      let args = range_args vmid start end in
      let taken = all_taken sql.taken args in
      count_answered-Counts (length (chosen c taken (sql.table w))) m _
        (sql.counts c args w (range_condition-IsStatement vmid start end))
        (subst (λ q. count_answered (e.query q args w) ≡ some m)
          (count_in_range_query_lem driver vmid) h)
      ∙ ap (λ rows. length (chosen c taken rows)) t
      ∙ length-chosen c taken (is_in_range vmid (sql.taken start) (sql.taken end))
          (λ r. meets-range_taken sql.taken vmid start end (row_of r)) log

  pub count_records_before_lem :
      (t : Time) (w : W) (log : List TrafficRecord) (m : ℕ)
      → sql.table w ≡ rows_of log
      → count_records_before e driver t w ≡ some m
      → m ≡ count (is_before (sql.taken t)) log
  unfolding count_records_before
  count_records_before_lem t w log m same h =
      let args = time t ∷ [] in
      let taken = time (sql.taken t) ∷ [] in
      count_answered-Counts (length (chosen before_condition taken (sql.table w))) m _
        (sql.counts before_condition args w tt)
        (subst (λ q. count_answered (e.query q args w) ≡ some m) (count_before_query_lem driver) h)
      ∙ ap (λ rows. length (chosen before_condition taken rows)) same
      ∙ length-chosen before_condition taken (is_before (sql.taken t))
          (λ r. meets-before_condition (sql.taken t) (row_of r)) log

  pub cleanup_old_data_lem :
      (now : Time) (days : ℕ) (w : W) (log : List TrafficRecord)
      → sql.table w ≡ rows_of log
      → sql.table (cleanup_old_data e driver now (pos (suc days)) w).1
        ≡ rows_of (
            if (cleanup_old_data e driver now (pos (suc days)) w).0
            then drop_if (is_before (sql.taken (add_days now (pos 0 -ℤ pos (suc days))))) log
            else log)
  unfolding cleanup_old_data
  cleanup_old_data_lem now days w log h =
      let cutoff = add_days now (pos 0 -ℤ pos (suc days)) in
      let args = time cutoff ∷ [] in
      let until = sql.taken cutoff in
      let taken = time until ∷ [] in
      rw (delete_before_query_lem driver) (
        Did-done sql.table w log (drop_if (is_before until) log) _ _ _ h
          (ap (rest_of before_condition taken) h
            ∙ rest_of-rows_of before_condition taken (is_before until)
                (λ r. meets-before_condition until (row_of r)) log)
          (sql.deletes before_condition args w tt))
