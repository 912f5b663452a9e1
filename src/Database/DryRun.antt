-- ===== src/Database/DryRun.antt =====
-- The counts of the database storage, which the command line shows before it removes records.
use pve_traffic_monitor.Base.{ℕ, ◌≡◌, refl, sym, ap, ◌∙◌, List, [], ◌∷◌, length, some, arith}
use pve_traffic_monitor.Clock.{Time}
use pve_traffic_monitor.Storage.{StoredTrafficRecord}
use pve_traffic_monitor.Database.Sql.{
  Driver, is_postgres, Value, time, Outcome, failed, done, Engine, Condition, chosen, rest_of,
  delete_text, count_text, Did, all_taken, IsStatement, IsSql,
}
use pve_traffic_monitor.Database.Records.{
  rows_affected, count_answered, range_args, delete_records_in_range, count_records_in_range,
  delete_records_before, count_records_before,
}
use pve_traffic_monitor.Database.Effects.{
  before_condition, range_condition, delete_before_query_lem, count_before_query_lem,
  delete_in_range_query_lem, count_in_range_query_lem, range_condition-IsStatement,
}
use pve_traffic_monitor.Database.Rows.{count_answered-Counts}

chosen-rest_of :
    (c : Condition) (args : List Value) (rows : List StoredTrafficRecord)
    → chosen c args (rest_of c args rows) ≡ []
chosen-rest_of c args [] = refl
chosen-rest_of c args (row ∷ rows) = ground (arith, chosen-rest_of c args rows)

Did-rows_affected :
    {W : Type 0} (table : W → List StoredTrafficRecord) (w : W) (new : List StoredTrafficRecord)
    (n m : ℕ) (o : Outcome × W)
    → Did table w new n o
    → rows_affected o.0 ≡ some m
    → (m ≡ n) × (table o.1 ≡ new)
Did-rows_affected table w new n m (failed, v) d h = cc h
Did-rows_affected table w new n m (done k, v) d h =
    let told : k ≡ some n = d.1 in let answered : k ≡ some m = h in (cc (told, answered), d.0)

module _ {W : Type 0} (e : Engine W) (driver : Driver) (sql : IsSql (is_postgres driver) e) where
  -- A count before, a removal, and a count after it.
  count-delete :
      (c : Condition) (args : List Value) (w : W) (n m k : ℕ)
      → IsStatement c args
      → count_answered (e.query (count_text (is_postgres driver) c) args w) ≡ some n
      → rows_affected (e.exec (delete_text (is_postgres driver) c) args w).0 ≡ some m
      → count_answered (
          e.query
            (count_text (is_postgres driver) c)
            args
            (e.exec (delete_text (is_postgres driver) c) args w).1)
        ≡ some k
      → (m ≡ n) × (k ≡ 0)
  count-delete c args w n m k fit before gone after =
      let step = Did-rows_affected sql.table w _ _ m _ (sql.deletes c args w fit) gone in
      let v = (e.exec (delete_text (is_postgres driver) c) args w).1 in
      (
        step.0 ∙ sym (count_answered-Counts _ n _ (sql.counts c args w fit) before),
        count_answered-Counts _ k _ (sql.counts c args v fit) after
            ∙ ap (λ rows. length (chosen c (all_taken sql.taken args) rows)) step.1
            ∙ ap length (chosen-rest_of c (all_taken sql.taken args) (sql.table w)),
      )

  -- On a database that runs SQL, where a count, the removal and a count after it return without an
  -- error: the count of the records of a time range, of one VM or of all, is the number that the removal
  -- of this range removes, and the count of the range after it is zero.
  pub delete_records_in_range-count_records_in_range :
      (vmid : ℕ) (start end : Time) (w : W) (n m k : ℕ)
      → count_records_in_range e driver vmid start end w ≡ some n
      → (delete_records_in_range e driver vmid start end w).0 ≡ some m
      → count_records_in_range e driver vmid start end
          (delete_records_in_range e driver vmid start end w).1
        ≡ some k
      → (m ≡ n) × (k ≡ 0)
  unfolding count_records_in_range delete_records_in_range
  delete_records_in_range-count_records_in_range vmid start end w n m k =
      rw (delete_in_range_query_lem driver vmid) (
        rw (count_in_range_query_lem driver vmid) (
          count-delete (range_condition vmid) (range_args vmid start end) w n m k
            (range_condition-IsStatement vmid start end)))

  -- The same for the removal of what is before a time.
  pub delete_records_before-count_records_before :
      (t : Time) (w : W) (n m k : ℕ)
      → count_records_before e driver t w ≡ some n
      → (delete_records_before e driver t w).0 ≡ some m
      → count_records_before e driver t (delete_records_before e driver t w).1 ≡ some k
      → (m ≡ n) × (k ≡ 0)
  unfolding count_records_before delete_records_before
  delete_records_before-count_records_before t w n m k =
      rw (delete_before_query_lem driver) (
        rw (count_before_query_lem driver) (count-delete before_condition (time t ∷ []) w n m k tt))
