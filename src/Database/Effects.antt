-- ===== src/Database/Effects.antt =====
-- What the operations on records do to the table, for a database that runs SQL.
use pve_traffic_monitor.Base.{
  ap, ◌∙◌, ℕ, ◌≡◌, refl, inl, inr, Bool, true, false, ◌&&◌, List, [], ◌∷◌, map, some, ◌==◌,
  Bool-cases, arith, if◌then◌else◌,
}
use pve_traffic_monitor.Base.Decimal.{print_int, print_at}
use pve_traffic_monitor.Base.Text.{codes, text_eq, has_prefix}
use pve_traffic_monitor.Clock.{Time, before}
use pve_traffic_monitor.Models.{TrafficRecord}
use pve_traffic_monitor.Storage.{StoredTrafficRecord, traffic_record, in_range}
use pve_traffic_monitor.Storage.Removal.{is_chosen, is_between}
use pve_traffic_monitor.Database.{build_query, replace_all, replace_nth_occurrence, get_placeholder}
use pve_traffic_monitor.Database.Sql.{
  Driver, is_postgres, number, time, text, Condition, vmid, network_interface, timestamp, equal,
  at_least, at_most, below, delete_text, count_text, select_text, insert_text, meets, shown,
  all_taken, IsStatement,
}
use pve_traffic_monitor.Database.Records.{
  save_record_query, get_records_query, delete_before_query, count_before_query,
  delete_in_range_query, count_in_range_query, range_args, scan_record, scan_records,
}

abbrev pub before_condition : Condition
before_condition = (timestamp, below) ∷ []

abbrev pub range_condition : ℕ → Condition
range_condition v =
    if v == 0
    then (timestamp, at_least) ∷ (timestamp, at_most) ∷ []
    else (vmid, equal) ∷ (timestamp, at_least) ∷ (timestamp, at_most) ∷ []

abbrev pub records_condition : Condition
records_condition =
    (vmid, equal) ∷ (network_interface, equal) ∷ (timestamp, at_least) ∷ (timestamp, at_most) ∷ []

pub range_condition-IsStatement :
    (v : ℕ) (start end : Time) → IsStatement (range_condition v) (range_args v start end)
range_condition-IsStatement v start end = elim (Bool-cases (v == 0)) [
  | inl e ↦ rw e tt
  | inr e ↦ rw e tt
]

pub all_taken-range_args :
    (taken : Time → Time) (v : ℕ) (start end : Time)
    → all_taken taken (range_args v start end) ≡ range_args v (taken start) (taken end)
all_taken-range_args taken v start end = elim (Bool-cases (v == 0)) [
  | inl e ↦ rw e refl
  | inr e ↦ rw e refl
]

pub delete_before_query_lem :
    (driver : Driver)
    → delete_before_query driver ≡ delete_text (is_postgres driver) before_condition
unfolding get_placeholder print_int print_at
delete_before_query_lem Driver.mysql = refl
delete_before_query_lem Driver.postgres = refl
delete_before_query_lem Driver.sqlite3 = refl
delete_before_query_lem (Driver.other s) = refl

pub save_record_text : (b : Bool) → build_query b save_record_query 6 ≡ insert_text b
unfolding build_query replace_all replace_nth_occurrence has_prefix get_placeholder print_int
    print_at
save_record_text true = refl
save_record_text false = refl

pub get_records_text :
    (b : Bool) → build_query b get_records_query 4 ≡ select_text b records_condition
unfolding build_query replace_all replace_nth_occurrence has_prefix get_placeholder print_int
    print_at
get_records_text true = refl
get_records_text false = refl

pub count_before_query_lem :
    (driver : Driver) → count_before_query driver ≡ count_text (is_postgres driver) before_condition
unfolding get_placeholder print_int print_at
count_before_query_lem Driver.mysql = refl
count_before_query_lem Driver.postgres = refl
count_before_query_lem Driver.sqlite3 = refl
count_before_query_lem (Driver.other s) = refl

pub delete_in_range_query_lem :
    (driver : Driver) (v : ℕ)
    → delete_in_range_query driver v ≡ delete_text (is_postgres driver) (range_condition v)
unfolding get_placeholder print_int print_at
delete_in_range_query_lem driver v = elim (Bool-cases (v == 0)) [
  | inl e ↦ rw e (elim (Bool-cases (is_postgres driver)) [ inl b ↦ rw b refl | inr b ↦ rw b refl ])
  | inr e ↦ rw e (elim (Bool-cases (is_postgres driver)) [ inl b ↦ rw b refl | inr b ↦ rw b refl ])
]

pub count_in_range_query_lem :
    (driver : Driver) (v : ℕ)
    → count_in_range_query driver v ≡ count_text (is_postgres driver) (range_condition v)
unfolding get_placeholder print_int print_at
count_in_range_query_lem driver v = elim (Bool-cases (v == 0)) [
  | inl e ↦ rw e (elim (Bool-cases (is_postgres driver)) [ inl b ↦ rw b refl | inr b ↦ rw b refl ])
  | inr e ↦ rw e (elim (Bool-cases (is_postgres driver)) [ inl b ↦ rw b refl | inr b ↦ rw b refl ])
]

-- The rows that the conditions choose, as the file storage's tests choose records.
pub meets-range_condition :
    (v : ℕ) (start end : Time) (row : StoredTrafficRecord)
    → meets (range_condition v) (range_args v start end) row
      ≡ (is_chosen v row.vmid && is_between start end (traffic_record row))
unfolding traffic_record
meets-range_condition v start end row = elim (Bool-cases (v == 0)) [
  | inl e ↦ rw e (ground arith)
  | inr e ↦ rw e (ground arith)
]

pub meets-range_taken :
    (taken : Time → Time) (v : ℕ) (start end : Time) (row : StoredTrafficRecord)
    → meets (range_condition v) (all_taken taken (range_args v start end)) row
      ≡ (is_chosen v row.vmid && is_between (taken start) (taken end) (traffic_record row))
meets-range_taken taken v start end row =
    ap (λ args. meets (range_condition v) args row) (all_taken-range_args taken v start end)
    ∙ meets-range_condition v (taken start) (taken end) row

pub meets-before_condition :
    (t : Time) (row : StoredTrafficRecord)
    → meets before_condition (time t ∷ []) row ≡ before row.timestamp t
meets-before_condition t row = ground arith

pub meets-records_condition :
    (v : ℕ) (start end : Time) (row : StoredTrafficRecord)
    → meets records_condition (number v ∷ text (codes "all") ∷ time start ∷ time end ∷ []) row ≡ (
        row.vmid == v
        && text_eq row.network_interface (codes "all")
        && in_range start end row.timestamp)
meets-records_condition v start end row = ground arith

scan_record-shown : (r : TrafficRecord) → scan_record (shown r) ≡ some r
unfolding scan_record
scan_record-shown r = refl

pub scan_records-shown : (rs : List TrafficRecord) → scan_records (map shown rs) ≡ some rs
unfolding scan_records
scan_records-shown [] = refl
scan_records-shown (r ∷ rs) = rw (scan_record-shown r) (rw (scan_records-shown rs) refl)
