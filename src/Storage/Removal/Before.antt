-- ===== src/Storage/Removal/Before.antt =====
-- Removing the records before a time.
use pve_traffic_monitor.Base.{
  ℕ, ◌+◌, ◌*◌, ◌%◌, ◌≡◌, ◌≢◌, refl, ap, ◌∙◌, inl, inr, Bool, true, false, not, ◌&&◌, List, [], ◌∷◌,
  length, Option-cases, Bool-cases, arith,
}
use pve_traffic_monitor.Base.Maps.{lookup, IsMap, nat_Eq, delete_key-IsMap, lookup-delete_key_other}
use pve_traffic_monitor.Base.Weights.{weigh_at, weigh-delete}
use pve_traffic_monitor.Clock.{Time, day_ns, before}
use pve_traffic_monitor.Models.{TrafficRecord}
use pve_traffic_monitor.Storage.{
  Line, stored, blank, broken, day_of, traffic_record, read_jsonl_file_all,
}
use pve_traffic_monitor.Storage.Contents.{
  count, weight, count_at, count_files, AreAt, FilesAt, lookup-AreAt, count-AreAt,
}
use pve_traffic_monitor.Storage.Removal.{
  Files, is_before, each_file, count_days, keys, delete_before_file,
}
use pve_traffic_monitor.Storage.Removal.Day.{
  IsTurn, filter_file-IsTurn, delete_key-FilesAt, length-count,
}
use pve_traffic_monitor.Storage.Removal.Loop.{keys-AreDistinct, count_over-keys}
use pve_traffic_monitor.Storage.Removal.Vm.{IsRemoval, each_file-IsRemoval}

abbrev pub begins_before : Time → TrafficRecord → Bool
begins_before t r = before (day_of r.timestamp * day_ns) t

-- At midnight the days that begin before are the times before.
pub begins_before-midnight :
    (t : Time) (r : TrafficRecord) → t % day_ns ≡ 0 → begins_before t r ≡ is_before t r
begins_before-midnight t r h = ground arith

-- All records of a file that goes, and none of one that stays.
pub count-all :
    (p q : TrafficRecord → Bool) (vmid d : ℕ) (lines : List Line)
    → AreAt vmid d lines
    → ((r : TrafficRecord) → day_of r.timestamp ≡ d → q r ≡ true)
    → count (λ r. q r && p r) (read_jsonl_file_all lines) ≡ count p (read_jsonl_file_all lines)
unfolding read_jsonl_file_all traffic_record
count-all p q vmid d [] h all = refl
count-all p q vmid d (stored r ∷ lines) h all =
    ground (arith, count-all p q vmid d lines h.3 all, all (traffic_record r) h.2)
count-all p q vmid d (blank ∷ lines) h all = elim h [ ]
count-all p q vmid d (broken ∷ lines) h all = elim h [ ]

count-true : (rs : List TrafficRecord) → count (λ r. true) rs ≡ length rs
count-true [] = refl
count-true (r ∷ rs) = omega (arith, count-true rs)

count-none :
    (p : TrafficRecord → Bool) (vmid d : ℕ) (files : Files)
    → FilesAt vmid files
    → ((r : TrafficRecord) → day_of r.timestamp ≡ d → p r ≡ false)
    → count_at p (lookup d files) ≡ 0
count-none p vmid d files f h = elim (Option-cases (lookup d files)) [
  | inl e ↦ rw e refl
  | inr (lines, e) ↦
      rw e (count-AreAt p vmid d lines (lookup-AreAt vmid d lines files f e) (λ r vm day. h r day))
]

module _ (t : Time) where
  early :
      (d : ℕ)
      → before (d * day_ns) t ≡ true
      → (r : TrafficRecord) → day_of r.timestamp ≡ d
      → begins_before t r ≡ true
  early d h r e = ap (λ k. before (k * day_ns) t) e ∙ h

  late :
      (d : ℕ)
      → before (d * day_ns) t ≡ false
      → (r : TrafficRecord) → day_of r.timestamp ≡ d
      → (begins_before t r ≡ false) × (is_before t r ≡ false)
  late d h r e = (ap (λ k. before (k * day_ns) t) e ∙ h, ground arith)

  before_counts :
      (p : TrafficRecord → Bool) (vmid d : ℕ) (files : Files)
      → IsMap files
      → FilesAt vmid files
      → count_files p files
        ≡ count_files p (delete_before_file t d files).0
          + count_at (λ r. begins_before t r && p r) (lookup d files)
  unfolding delete_before_file
  before_counts p vmid d files u f = elim (Bool-cases (before (d * day_ns) t)) [
    | inl b ↦ rw b (elim (Option-cases (lookup d files)) [
      | inl e ↦ rw e (omega arith)
      | inr (lines, e) ↦ rw e (
          omega (
            arith,
            weigh-delete (weight p) d files u,
            ap (weigh_at (weight p)) e,
            count-all p (begins_before t) vmid d lines (lookup-AreAt vmid d lines files f e)
                (early d b),
          ))
    ])
    | inr b ↦ rw b (
        omega (
          arith,
          (filter_file-IsTurn (is_before t)).counts p vmid d files u f,
          count-none (λ r. begins_before t r && p r) vmid d files f
              (λ r e. ap (λ c. c && p r) (late d b r e).0),
          count-none (λ r. is_before t r && p r) vmid d files f
              (λ r e. ap (λ c. c && p r) (late d b r e).1),
        ))
  ]

  before_number :
      (vmid d : ℕ) (files : Files)
      → FilesAt vmid files
      → (delete_before_file t d files).1 ≡ count_at (begins_before t) (lookup d files)
  unfolding delete_before_file
  before_number vmid d files f = elim (Bool-cases (before (d * day_ns) t)) [
    | inl b ↦ rw b (elim (Option-cases (lookup d files)) [
      | inl e ↦ rw e refl
      | inr (lines, e) ↦ rw e (
          ground (
            arith,
            count-true (read_jsonl_file_all lines),
            count-all (λ r. true) (begins_before t) vmid d lines
                (lookup-AreAt vmid d lines files f e) (early d b),
            length-count (begins_before t) (read_jsonl_file_all lines),
            count-AreAt (λ r. not (begins_before t r)) vmid d lines
                (lookup-AreAt vmid d lines files f e) (λ r vm day. ap not (early d b r day)),
          ))
    ])
    | inr b ↦ rw b (
        omega (
          arith,
          (filter_file-IsTurn (is_before t)).number vmid d files f,
          count-none (begins_before t) vmid d files f (λ r e. (late d b r e).0),
          count-none (is_before t) vmid d files f (λ r e. (late d b r e).1),
        ))
  ]

  before_others :
      (k d : ℕ) (files : Files) → d ≢ k → lookup k (delete_before_file t d files).0 ≡ lookup k files
  unfolding delete_before_file
  before_others k d files h = elim (Bool-cases (before (d * day_ns) t)) [
    | inl b ↦ rw b (elim (Option-cases (lookup d files)) [
      | inl e ↦ rw e refl
      | inr (lines, e) ↦ rw e (lookup-delete_key_other k d files h)
    ])
    | inr b ↦ rw b ((filter_file-IsTurn (is_before t)).others k d files h)
  ]

  before-IsMap : (d : ℕ) (files : Files) → IsMap files → IsMap (delete_before_file t d files).0
  unfolding delete_before_file
  before-IsMap d files u = elim (Bool-cases (before (d * day_ns) t)) [
    | inl b ↦ rw b (elim (Option-cases (lookup d files)) [
      | inl e ↦ rw e u
      | inr (lines, e) ↦ rw e (delete_key-IsMap d files u)
    ])
    | inr b ↦ rw b ((filter_file-IsTurn (is_before t)).turn-IsMap d files u)
  ]

  before-FilesAt :
      (vmid d : ℕ) (files : Files)
      → FilesAt vmid files
      → FilesAt vmid (delete_before_file t d files).0
  unfolding delete_before_file
  before-FilesAt vmid d files f = elim (Bool-cases (before (d * day_ns) t)) [
    | inl b ↦ rw b (elim (Option-cases (lookup d files)) [
      | inl e ↦ rw e f
      | inr (lines, e) ↦ rw e (delete_key-FilesAt vmid d files f)
    ])
    | inr b ↦ rw b ((filter_file-IsTurn (is_before t)).turn-FilesAt vmid d files f)
  ]

  pub delete_before_file-IsTurn : IsTurn (begins_before t) (delete_before_file t)
  delete_before_file-IsTurn = record {
    counts = before_counts;
    number = before_number;
    others = before_others;
    turn-IsMap = before-IsMap;
    turn-FilesAt = before-FilesAt;
  }

  pub delete_before-IsRemoval :
      IsRemoval
        (begins_before t)
        (λ files. each_file (delete_before_file t) (keys files) files)
        (λ files. count_days (begins_before t) (keys files) files)
  delete_before-IsRemoval =
      each_file-IsRemoval (begins_before t) (delete_before_file t) delete_before_file-IsTurn keys
        keys-AreDistinct (λ p vmid files u f. count_over-keys _ files u)
        (λ vmid files u f. count_over-keys _ files u)
