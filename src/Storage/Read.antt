-- ===== src/Storage/Read.antt =====
-- Reading the records of a time range.
use pve_traffic_monitor.Base.{
  ℕ, ◌+◌, ◌≤◌, ◌<◌, ◌≡◌, ==_iff, subst, refl, sym, ap, ◌∙◌, inl, inr, Bool, true, false, ◌&&◌, List,
  [], ◌∷◌, keep, All, Option, none, some, ◌==◌, Bool-cases, arith, if◌then◌else◌,
}
use pve_traffic_monitor.Base.Maps.{lookup, IsMap, nat_Eq}
use pve_traffic_monitor.Base.Text.{text_eq, trim_space, trim_left}
use pve_traffic_monitor.Clock.{Time}
use pve_traffic_monitor.Models.{TrafficRecord}
use pve_traffic_monitor.Storage.{
  Line, stored, blank, broken, VmDir, FileStorage, day_of, traffic_record,
  is_default_traffic_record_interface, visited_days, in_range, read_jsonl_file, read_jsonl_file_all,
  read_file, read_dir, read_day, read_days, insert_record, sort_records, get_traffic_records,
}
use pve_traffic_monitor.Storage.Days.{visited_days-range}
use pve_traffic_monitor.Storage.Contents.{
  count, SameRecords, count-append, count-keep, count_at, AreAt, IsPlaced, lookup-AreAt,
  all_records, count-all_records, count_over, inside, count_over-range,
}

-- Every directory is placed, and each VM has one at most.
abbrev pub ArePlaced : List (ℕ × VmDir) → Type 0
ArePlaced [] = Unit
ArePlaced ((vmid, dir) ∷ dirs) = IsPlaced vmid dir × ArePlaced dirs

pub record IsStored (s : FileStorage) : Type 0 where
  pub is_map : IsMap s.dirs
  pub placed : ArePlaced s.dirs

abbrev pub records_in : Option VmDir → List TrafficRecord
records_in none = []
records_in (some dir) = all_records dir.jsonl

-- All records of a VM, by file.
abbrev pub records_of : ℕ → FileStorage → List TrafficRecord
records_of vmid s = records_in (lookup vmid s.dirs)

pub lookup-IsPlaced :
    (vmid : ℕ) (dir : VmDir) (dirs : List (ℕ × VmDir))
    → ArePlaced dirs
    → lookup vmid dirs ≡ some dir
    → IsPlaced vmid dir
unfolding lookup
lookup-IsPlaced vmid dir [] h e = ground arith
lookup-IsPlaced vmid dir ((k, d) ∷ dirs) h e = elim (Bool-cases (k == vmid)) [
  | inl q ↦
      let same : d ≡ dir = ground (arith, (rw q at e)) in
      subst (λ j. IsPlaced vmid j) same (subst (λ j. IsPlaced j d) ((==_iff k vmid).0 q) h.0)
  | inr q ↦ lookup-IsPlaced vmid dir dirs h.1 (rw q at e)
]

default_blank : is_default_traffic_record_interface [] ≡ true
unfolding is_default_traffic_record_interface trim_space trim_left text_eq
default_blank = refl

count-read_jsonl_file :
    (p : TrafficRecord → Bool) (start end : Time) (vmid d : ℕ) (lines : List Line)
    → AreAt vmid d lines
    → count p (read_jsonl_file start end lines)
      ≡ count (λ r. in_range start end r.timestamp && p r) (read_jsonl_file_all lines)
unfolding read_jsonl_file read_jsonl_file_all traffic_record
count-read_jsonl_file p start end vmid d [] h = refl
count-read_jsonl_file p start end vmid d (stored r ∷ lines) h =
    rw (ap is_default_traffic_record_interface h.1 ∙ default_blank)
      (ground (arith, count-read_jsonl_file p start end vmid d lines h.3))
count-read_jsonl_file p start end vmid d (blank ∷ lines) h = elim h [ ]
count-read_jsonl_file p start end vmid d (broken ∷ lines) h = elim h [ ]

count-read_day :
    (p : TrafficRecord → Bool) (start end : Time) (vmid d : ℕ) (dir : VmDir)
    → IsPlaced vmid dir
    → count p (read_day start end dir d)
      ≡ count_at (λ r. in_range start end r.timestamp && p r) (lookup d dir.jsonl)
unfolding lookup
count-read_day p start end vmid d dir h =
    ap (λ old. count p (read_file start end (lookup d dir.jsonl) (lookup d old))) h.1
    ∙ go (lookup d dir.jsonl) (λ lines e. lookup-AreAt vmid d lines dir.jsonl h.2 e)
  where
    go :
        (o : Option (List Line))
        → ((lines : List Line) → o ≡ some lines → AreAt vmid d lines)
        → count p (read_file start end o none)
          ≡ count_at (λ r. in_range start end r.timestamp && p r) o
    go none at = refl
    go (some lines) at = count-read_jsonl_file p start end vmid d lines (at lines refl)

count-read_days :
    (p : TrafficRecord → Bool) (start end : Time) (vmid : ℕ) (dir : VmDir) (days : List ℕ)
    → IsPlaced vmid dir
    → count p (read_days start end dir days)
      ≡ count_over (λ r. in_range start end r.timestamp && p r) days dir.jsonl
unfolding read_days count_over
count-read_days p start end vmid dir [] h = refl
count-read_days p start end vmid dir (d ∷ days) h = omega (
  arith,
  count-append p (read_day start end dir d) (read_days start end dir days),
  count-read_day p start end vmid d dir h,
  count-read_days p start end vmid dir days h,
)

count-insert_record :
    (p : TrafficRecord → Bool) (r : TrafficRecord) (rs : List TrafficRecord)
    → count p (insert_record r rs) ≡ count p (r ∷ rs)
unfolding insert_record
count-insert_record p r [] = refl
count-insert_record p r (q ∷ qs) = ground (arith, count-insert_record p r qs)

pub count-sort_records :
    (p : TrafficRecord → Bool) (rs : List TrafficRecord) → count p (sort_records rs) ≡ count p rs
unfolding sort_records
count-sort_records p [] = refl
count-sort_records p (r ∷ rs) =
    count-insert_record p r (sort_records rs)
    ∙ ap (λ n. (if p r then 1 else 0) + n) (count-sort_records p rs)

-- No record is followed by an earlier one.
abbrev NotBefore : Time → List TrafficRecord → Type 0
NotBefore t rs = All (λ q. t ≤ q.timestamp) rs

abbrev pub IsOrdered : List TrafficRecord → Type 0
IsOrdered [] = Unit
IsOrdered (r ∷ rs) = All (λ q. r.timestamp ≤ q.timestamp) rs × IsOrdered rs

NotBefore-mono : (a b : Time) (rs : List TrafficRecord) → a ≤ b → NotBefore b rs → NotBefore a rs
NotBefore-mono a b [] h l = tt
NotBefore-mono a b (r ∷ rs) h l = (omega arith, NotBefore-mono a b rs h l.1)

insert_record-NotBefore :
    (t : Time) (r : TrafficRecord) (rs : List TrafficRecord)
    → t ≤ r.timestamp
    → NotBefore t rs
    → NotBefore t (insert_record r rs)
unfolding insert_record
insert_record-NotBefore t r [] h l = (h, tt)
insert_record-NotBefore t r (q ∷ qs) h l = ground (arith, insert_record-NotBefore t r qs h l.1)

insert_record-IsOrdered :
    (r : TrafficRecord) (rs : List TrafficRecord) → IsOrdered rs → IsOrdered (insert_record r rs)
unfolding insert_record
insert_record-IsOrdered r [] h = (tt, tt)
insert_record-IsOrdered r (q ∷ qs) h = ground (
  arith,
  insert_record-IsOrdered r qs h.1,
  insert_record-NotBefore q.timestamp r qs,
  NotBefore-mono r.timestamp q.timestamp qs,
)

pub sort_records-IsOrdered : (rs : List TrafficRecord) → IsOrdered (sort_records rs)
unfolding sort_records
sort_records-IsOrdered [] = tt
sort_records-IsOrdered (r ∷ rs) =
    insert_record-IsOrdered r (sort_records rs) (sort_records-IsOrdered rs)

-- A day that the loop does not visit has no record of the range.
pub out_of_days :
    (start end t : Time) (n : ℕ)
    → (start ≤ end → day_of end < day_of start + n)
    → inside (day_of start) n (day_of t) ≡ false
    → in_range start end t ≡ false
out_of_days start end t n h e = elim (Bool-cases (in_range start end t)) [
  | inl e' ↦
      let within : (start ≤ t) × (t ≤ end) = ground arith in
      let cover = h (omega arith) in absurd (ground arith)
  | inr e' ↦ e'
]

read-SameRecords :
    (start end : Time) (vmid : ℕ) (dir : VmDir)
    → IsPlaced vmid dir
    → SameRecords
        (sort_records (read_days start end dir (visited_days start end)))
        (keep (λ r. in_range start end r.timestamp) (all_records dir.jsonl))
read-SameRecords start end vmid dir h p =
    let (n, days, cover) = visited_days-range start end in
    let q = λ (r : TrafficRecord). in_range start end r.timestamp && p r in
    count-sort_records p _
    ∙ count-read_days p start end vmid dir _ h
    ∙ ap (λ ds. count_over q ds dir.jsonl) days
    ∙ count_over-range q (day_of start) n vmid dir.jsonl
        (λ r out. ap (λ b. b && p r) (out_of_days start end r.timestamp n cover out)) h.0 h.2
    ∙ sym (count-all_records q dir.jsonl)
    ∙ sym (count-keep p (λ r. in_range start end r.timestamp) (all_records dir.jsonl))

-- What is read are the VM's records of the time range, both ends included, each as often as it is
-- stored, in the order of time; the files are as the program writes them.
pub get_traffic_records_lem :
    (s : FileStorage) (vmid : ℕ) (start end : Time)
    → IsStored s
    → SameRecords
        (get_traffic_records vmid start end s)
        (keep (λ r. in_range start end r.timestamp) (records_of vmid s))
      × IsOrdered (get_traffic_records vmid start end s)
unfolding get_traffic_records
get_traffic_records_lem s vmid start end h =
    go (lookup vmid s.dirs) (λ dir e. lookup-IsPlaced vmid dir s.dirs h.placed e)
  where
    go :
        (o : Option VmDir)
        → ((dir : VmDir) → o ≡ some dir → IsPlaced vmid dir)
        → SameRecords
            (read_dir start end o)
            (keep (λ r. in_range start end r.timestamp) (records_in o))
          × IsOrdered (read_dir start end o)
    go none placed = (λ p. refl, tt)
    go (some dir) placed =
        (read-SameRecords start end vmid dir (placed dir refl), sort_records-IsOrdered _)
