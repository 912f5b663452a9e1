-- ===== src/Storage/Removal/Day.antt =====
-- One turn of the loops that remove records: the file of one day.
use pve_traffic_monitor.Base.{
  ℕ, ◌+◌, ◌≤◌, ◌≡◌, ◌≢◌, refl, ap, inl, inr, Bool, not, ◌&&◌, List, [], ◌∷◌, keep, length, some,
  Option-cases, Bool-cases, arith,
}
use pve_traffic_monitor.Base.Maps.{
  lookup, delete_key, IsMap, nat_Eq, put_key-IsMap, delete_key-IsMap, lookup-put_key_other,
  lookup-delete_key_other,
}
use pve_traffic_monitor.Base.Weights.{weigh_at, weigh-put, weigh-delete}
use pve_traffic_monitor.Models.{TrafficRecord}
use pve_traffic_monitor.Storage.{
  Line, stored, blank, broken, traffic_record, stored_record, read_jsonl_file_all, write_jsonl_file,
}
use pve_traffic_monitor.Storage.Contents.{
  count, count-keep, length-keep, count_split, count_at, count_files, weight, AreAt, FilesAt,
  keep_keys-FilesAt, lookup-AreAt, read-write,
}
use pve_traffic_monitor.Storage.Save.{put_key-FilesAt}
use pve_traffic_monitor.Storage.Removal.{Files, rewrite_file, filter_lines, filter_file}

-- What a turn owes: the records of one day that go are gone and counted, the other days stay.
pub record IsTurn (goes : TrafficRecord → Bool) (step : ℕ → Files → Files × ℕ) : Type 0 where
  pub counts :
      (p : TrafficRecord → Bool) (vmid d : ℕ) (files : Files)
      → IsMap files
      → FilesAt vmid files
      → count_files p files
        ≡ count_files p (step d files).0 + count_at (λ r. goes r && p r) (lookup d files)
  pub number :
      (vmid d : ℕ) (files : Files)
      → FilesAt vmid files
      → (step d files).1 ≡ count_at goes (lookup d files)
  pub others : (k d : ℕ) (files : Files) → d ≢ k → lookup k (step d files).0 ≡ lookup k files
  pub turn-IsMap : (d : ℕ) (files : Files) → IsMap files → IsMap (step d files).0
  pub turn-FilesAt :
      (vmid d : ℕ) (files : Files) → FilesAt vmid files → FilesAt vmid (step d files).0

count-and :
    (p q : TrafficRecord → Bool) (rs : List TrafficRecord) → count (λ r. q r && p r) rs ≤ count q rs
count-and p q [] = omega arith
count-and p q (r ∷ rs) = ground (arith, count-and p q rs)

-- A count goes no further than the length.
pub count-le_length : (p : TrafficRecord → Bool) (rs : List TrafficRecord) → count p rs ≤ length rs
count-le_length p [] = omega arith
count-le_length p (r ∷ rs) = ground (arith, count-le_length p rs)

pub length-count :
    (q : TrafficRecord → Bool) (rs : List TrafficRecord)
    → length rs ≡ count q rs + count (λ r. not (q r)) rs
length-count q [] = refl
length-count q (r ∷ rs) = ground (arith, length-count q rs)

pub AreAt-keep :
    (q : TrafficRecord → Bool) (vmid d : ℕ) (lines : List Line)
    → AreAt vmid d lines
    → AreAt vmid d (write_jsonl_file (keep q (read_jsonl_file_all lines)))
unfolding write_jsonl_file read_jsonl_file_all traffic_record stored_record
AreAt-keep q vmid d [] h = tt
AreAt-keep q vmid d (stored r ∷ lines) h = elim (Bool-cases (q (traffic_record r))) [
  | inl e ↦ rw e (h.0, refl, h.2, AreAt-keep q vmid d lines h.3)
  | inr e ↦ rw e (AreAt-keep q vmid d lines h.3)
]
AreAt-keep q vmid d (blank ∷ lines) h = elim h [ ]
AreAt-keep q vmid d (broken ∷ lines) h = elim h [ ]

module _ (goes : TrafficRecord → Bool) (d : ℕ) (files : Files) (lines : List Line) where
  count-rewrite_file :
      (p : TrafficRecord → Bool)
      → IsMap files
      → lookup d files ≡ some lines
      → count_files p files
        ≡ count_files p (filter_lines goes d files (some lines)).0
          + count_at (λ r. goes r && p r) (some lines)
  unfolding rewrite_file
  count-rewrite_file p u e =
      let rs = read_jsonl_file_all lines in
      let stay = keep (λ r. not (goes r)) rs in
      let here = ap (weigh_at (weight p)) e in
      let written = ap (count p) (read-write stay) in
      ground (
        arith,
        here,
        written,
        count_split p goes rs,
        count-keep p (λ r. not (goes r)) rs,
        count-le_length p stay,
        weigh-put (weight p) d (write_jsonl_file stay) files u,
        weigh-delete (weight p) d files u,
        length-count goes rs,
        count-and p goes rs,
        length-keep (λ r. not (goes r)) rs,
      )

lookup-rewrite_file :
    (k d : ℕ) (filtered records : List TrafficRecord) (files : Files)
    → d ≢ k
    → lookup k (rewrite_file d filtered records files) ≡ lookup k files
unfolding rewrite_file
lookup-rewrite_file k d filtered records files h = ground (
  arith,
  lookup-put_key_other k d (write_jsonl_file filtered) files h,
  lookup-delete_key_other k d files h,
)

rewrite_file-IsMap :
    (d : ℕ) (filtered records : List TrafficRecord) (files : Files)
    → IsMap files
    → IsMap (rewrite_file d filtered records files)
unfolding rewrite_file
rewrite_file-IsMap d filtered records files u =
    let put = put_key-IsMap d (write_jsonl_file filtered) files u in
    let deleted = delete_key-IsMap d files u in ground arith

pub delete_key-FilesAt :
    (vmid d : ℕ) (files : Files) → FilesAt vmid files → FilesAt vmid (delete_key d files)
unfolding delete_key
delete_key-FilesAt vmid d files h = keep_keys-FilesAt _ vmid files h

rewrite_file-FilesAt :
    (vmid d : ℕ) (filtered records : List TrafficRecord) (files : Files)
    → AreAt vmid d (write_jsonl_file filtered)
    → FilesAt vmid files
    → FilesAt vmid (rewrite_file d filtered records files)
unfolding rewrite_file
rewrite_file-FilesAt vmid d filtered records files h f =
    let put = put_key-FilesAt vmid d (write_jsonl_file filtered) files h f in
    let deleted = delete_key-FilesAt vmid d files f in ground arith

-- A turn that reads the file and writes what stays.
module _ (goes : TrafficRecord → Bool) where
  filter_file_counts :
      (p : TrafficRecord → Bool) (d : ℕ) (files : Files)
      → IsMap files
      → count_files p files
        ≡ count_files p (filter_file goes d files).0
          + count_at (λ r. goes r && p r) (lookup d files)
  unfolding filter_file
  filter_file_counts p d files u = elim (Option-cases (lookup d files)) [
    | inl e ↦ rw e (omega arith)
    | inr (lines, e) ↦ rw e (count-rewrite_file goes d files lines p u e)
  ]

  filter_file_number :
      (d : ℕ) (files : Files) → (filter_file goes d files).1 ≡ count_at goes (lookup d files)
  unfolding filter_file
  filter_file_number d files = elim (Option-cases (lookup d files)) [
    | inl e ↦ rw e refl
    | inr (lines, e) ↦ rw e (length-keep goes (read_jsonl_file_all lines))
  ]

  filter_file_others :
      (k d : ℕ) (files : Files) → d ≢ k → lookup k (filter_file goes d files).0 ≡ lookup k files
  unfolding filter_file
  filter_file_others k d files h = elim (Option-cases (lookup d files)) [
    | inl e ↦ rw e refl
    | inr (lines, e) ↦ rw e (lookup-rewrite_file k d _ _ files h)
  ]

  filter_file-IsMap : (d : ℕ) (files : Files) → IsMap files → IsMap (filter_file goes d files).0
  unfolding filter_file
  filter_file-IsMap d files u = elim (Option-cases (lookup d files)) [
    | inl e ↦ rw e u
    | inr (lines, e) ↦ rw e (rewrite_file-IsMap d _ _ files u)
  ]

  filter_file-FilesAt :
      (vmid d : ℕ) (files : Files) → FilesAt vmid files → FilesAt vmid (filter_file goes d files).0
  unfolding filter_file
  filter_file-FilesAt vmid d files f = elim (Option-cases (lookup d files)) [
    | inl e ↦ rw e f
    | inr (lines, e) ↦ rw e (
        rewrite_file-FilesAt vmid d _ _ files
          (AreAt-keep (λ r. not (goes r)) vmid d lines (lookup-AreAt vmid d lines files f e)) f)
  ]

pub filter_file-IsTurn : (goes : TrafficRecord → Bool) → IsTurn goes (filter_file goes)
filter_file-IsTurn goes = record {
  counts = λ p vmid d files u f. filter_file_counts goes p d files u;
  number = λ vmid d files f. filter_file_number goes d files;
  others = λ k d files h. filter_file_others goes k d files h;
  turn-IsMap = λ d files u. filter_file-IsMap goes d files u;
  turn-FilesAt = λ vmid d files f. filter_file-FilesAt goes vmid d files f;
}
