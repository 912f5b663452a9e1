-- ===== src/Storage/Save.antt =====
-- Saving a record: what the files hold afterwards.
use pve_traffic_monitor.Base.{
  ℕ, ◌+◌, ◌≡◌, ==_iff, refl, sym, ap, ◌∙◌, inl, inr, Bool, List, [], ◌∷◌, ◌++◌, Option, none, some,
  ◌==◌, Bool-cases, arith, if◌then◌else◌,
}
use pve_traffic_monitor.Base.Maps.{
  lookup, keep_keys, put_key, delete_key, IsMap, nat_Eq, put_key-IsMap, lookup-put_key_self,
  lookup-put_key_other,
}
use pve_traffic_monitor.Base.Weights.{weigh, weigh_at, weigh-put}
use pve_traffic_monitor.Clock.{Time}
use pve_traffic_monitor.Models.{TrafficRecord}
use pve_traffic_monitor.Storage.{
  Line, stored, blank, broken, VmDir, FileStorage, day_of, no_dir, or_else, traffic_record,
  stored_record, read_jsonl_file_all, append_line, save_traffic_record,
}
use pve_traffic_monitor.Storage.Contents.{
  count, SameRecords, count-append, count_files, weight, Files, AreAt, FilesAt, IsPlaced,
  keep_keys-FilesAt, lookup-AreAt, count-all_records,
}
use pve_traffic_monitor.Storage.Read.{ArePlaced, IsStored, records_in, records_of, lookup-IsPlaced}

read-append :
    (lines more : List Line)
    → read_jsonl_file_all (lines ++ more) ≡ read_jsonl_file_all lines ++ read_jsonl_file_all more
unfolding read_jsonl_file_all
read-append [] more = refl
read-append (stored r ∷ lines) more = ap (λ rs. traffic_record r ∷ rs) (read-append lines more)
read-append (blank ∷ lines) more = read-append lines more
read-append (broken ∷ lines) more = read-append lines more

pub AreAt-append :
    (vmid d : ℕ) (lines more : List Line)
    → AreAt vmid d lines
    → AreAt vmid d more
    → AreAt vmid d (lines ++ more)
AreAt-append vmid d [] more h k = k
AreAt-append vmid d (stored r ∷ lines) more h k =
    (h.0, h.1, h.2, AreAt-append vmid d lines more h.3 k)
AreAt-append vmid d (blank ∷ lines) more h k = elim h [ ]
AreAt-append vmid d (broken ∷ lines) more h k = elim h [ ]

pub put_key-FilesAt :
    (vmid d : ℕ) (lines : List Line) (files : Files)
    → AreAt vmid d lines
    → FilesAt vmid files
    → FilesAt vmid (put_key d lines files)
unfolding put_key delete_key
put_key-FilesAt vmid d lines files h f = (h, keep_keys-FilesAt _ vmid files f)

pub keep_keys-ArePlaced :
    (p : ℕ → Bool) (dirs : List (ℕ × VmDir)) → ArePlaced dirs → ArePlaced (keep_keys p dirs)
unfolding keep_keys
keep_keys-ArePlaced p [] h = tt
keep_keys-ArePlaced p ((vmid, dir) ∷ dirs) h = elim (Bool-cases (p vmid)) [
  | inl e ↦ rw e (h.0, keep_keys-ArePlaced p dirs h.1)
  | inr e ↦ rw e (keep_keys-ArePlaced p dirs h.1)
]

put_key-ArePlaced :
    (vmid : ℕ) (dir : VmDir) (dirs : List (ℕ × VmDir))
    → IsPlaced vmid dir
    → ArePlaced dirs
    → ArePlaced (put_key vmid dir dirs)
unfolding put_key delete_key
put_key-ArePlaced vmid dir dirs h d = (h, keep_keys-ArePlaced _ dirs d)

pub append_line-IsPlaced :
    (r : TrafficRecord) (dir : VmDir) → IsPlaced r.vmid dir → IsPlaced r.vmid (append_line r dir)
unfolding append_line stored_record
append_line-IsPlaced r dir h = (
  put_key-IsMap _ _ dir.jsonl h.0,
  h.1,
  put_key-FilesAt r.vmid _ _ dir.jsonl
      (go (lookup (day_of r.timestamp) dir.jsonl)
        (λ lines e. lookup-AreAt r.vmid (day_of r.timestamp) lines dir.jsonl h.2 e))
      h.2,
)
  where
    go :
        (o : Option (List Line))
        → ((lines : List Line) → o ≡ some lines → AreAt r.vmid (day_of r.timestamp) lines)
        → AreAt r.vmid (day_of r.timestamp) (or_else [] o ++ (stored (stored_record r) ∷ []))
    go none at = (refl, refl, refl, tt)
    go (some lines) at = AreAt-append r.vmid _ lines _ (at lines refl) (refl, refl, refl, tt)

weight-append :
    (p : TrafficRecord → Bool) (r : TrafficRecord) (o : Option (List Line))
    → weight p (or_else [] o ++ (stored (stored_record r) ∷ []))
      ≡ (if p r then 1 else 0) + weigh_at (weight p) o
unfolding read_jsonl_file_all traffic_record stored_record
weight-append p r none = refl
weight-append p r (some lines) =
    ap (count p) (read-append lines _)
    ∙ count-append p (read_jsonl_file_all lines) (r ∷ [])
    ∙ omega arith

-- One more record, and the others as they were.
pub count_files-append_line :
    (p : TrafficRecord → Bool) (r : TrafficRecord) (dir : VmDir)
    → IsMap dir.jsonl
    → count_files p (append_line r dir).jsonl ≡ (if p r then 1 else 0) + count_files p dir.jsonl
unfolding append_line
count_files-append_line p r dir u =
    let d = day_of r.timestamp in
    let o = lookup d dir.jsonl in
    omega (
      arith,
      weigh-put (weight p) d (or_else [] o ++ (stored (stored_record r) ∷ [])) dir.jsonl u,
      weight-append p r o,
    )

abbrev pub log_saved : ℕ → TrafficRecord → List TrafficRecord → List TrafficRecord
log_saved vmid r rs = if r.vmid == vmid then r ∷ rs else rs

no_dir-IsPlaced : (vmid : ℕ) → IsPlaced vmid no_dir
no_dir-IsPlaced vmid = (tt, refl, tt)

or_else-IsPlaced :
    (vmid : ℕ) (o : Option VmDir)
    → ((dir : VmDir) → o ≡ some dir → IsPlaced vmid dir)
    → IsPlaced vmid (or_else no_dir o)
or_else-IsPlaced vmid none placed = no_dir-IsPlaced vmid
or_else-IsPlaced vmid (some dir) placed = placed dir refl

pub old_dir-IsPlaced :
    (vmid : ℕ) (s : FileStorage) → IsStored s → IsPlaced vmid (or_else no_dir (lookup vmid s.dirs))
old_dir-IsPlaced vmid s h =
    or_else-IsPlaced vmid (lookup vmid s.dirs) (λ dir e. lookup-IsPlaced vmid dir s.dirs h.placed e)

-- A saved record leaves the files as the program writes them.
pub save_traffic_record-IsStored :
    (now : Time) (r : TrafficRecord) (s : FileStorage)
    → IsStored s
    → IsStored (save_traffic_record now r s)
unfolding save_traffic_record
save_traffic_record-IsStored now r s h = record {
  is_map = put_key-IsMap _ _ s.dirs h.is_map;
  placed =
      put_key-ArePlaced r.vmid _ s.dirs (append_line-IsPlaced r _ (old_dir-IsPlaced r.vmid s h))
        h.placed;
}

count-records_in :
    (p : TrafficRecord → Bool) (o : Option VmDir)
    → count p (records_in o) ≡ count_files p (or_else no_dir o).jsonl
unfolding weigh
count-records_in p none = refl
count-records_in p (some dir) = count-all_records p dir.jsonl

-- A VM's records are then those of before, and the saved one if it is of that VM.
pub save_traffic_record-SameRecords :
    (now : Time) (r : TrafficRecord) (s : FileStorage) (vmid : ℕ)
    → IsStored s
    → SameRecords
        (records_of vmid (save_traffic_record now r s))
        (log_saved vmid r (records_of vmid s))
unfolding save_traffic_record
save_traffic_record-SameRecords now r s vmid h p = elim (Bool-cases (r.vmid == vmid)) [
  | inl e ↦
      let same = (==_iff r.vmid vmid).0 e in
      let dir = or_else no_dir (lookup r.vmid s.dirs) in
      rw e (
        ap (λ v. count p (records_of v (save_traffic_record now r s))) (sym same)
        ∙ ap (λ o. count p (records_in o)) (lookup-put_key_self r.vmid (append_line r dir) s.dirs)
        ∙ count-all_records p (append_line r dir).jsonl
        ∙ count_files-append_line p r dir (old_dir-IsPlaced r.vmid s h).0
        ∙ ap (λ n. (if p r then 1 else 0) + n)
            (sym (count-records_in p (lookup r.vmid s.dirs))
              ∙ ap (λ v. count p (records_of v s)) same))
  | inr e ↦ rw e (
      ap (λ o. count p (records_in o))
        (lookup-put_key_other vmid r.vmid _ s.dirs (λ q. ground (arith, (==_iff r.vmid vmid).1 q))))
]
