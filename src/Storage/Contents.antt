-- ===== src/Storage/Contents.antt =====
-- What a directory holds: how many of its records pass a test. Two collections hold the same records
-- if each test passes as often.
use pve_traffic_monitor.Base.{
  ℕ, ◌+◌, ◌≡◌, refl, subst, sym, ap, ◌∙◌, inl, inr, Bool, false, not, ◌&&◌, List, [], ◌∷◌, ◌++◌,
  keep, length, Option, none, some, leb, ltb, zero, suc, ◌==◌, ==_iff, Bool-cases, arith,
  if◌then◌else◌,
}
use pve_traffic_monitor.Base.Maps.{lookup, keep_keys, IsMap, nat_Eq}
use pve_traffic_monitor.Storage.Days.{range}
use pve_traffic_monitor.Base.Weights.{weigh}
use pve_traffic_monitor.Models.{TrafficRecord}
use pve_traffic_monitor.Storage.{
  Line, stored, blank, broken, VmDir, day_of, traffic_record, stored_record, read_jsonl_file_all,
  write_jsonl_file,
}

abbrev pub count : (TrafficRecord → Bool) → List TrafficRecord → ℕ
count p [] = 0
count p (r ∷ rs) = (if p r then 1 else 0) + count p rs

abbrev pub SameRecords : List TrafficRecord → List TrafficRecord → Type 0
SameRecords rs qs = (p : TrafficRecord → Bool) → count p rs ≡ count p qs

pub count-append :
    (p : TrafficRecord → Bool) (rs qs : List TrafficRecord)
    → count p (rs ++ qs) ≡ count p rs + count p qs
count-append p [] qs = omega arith
count-append p (r ∷ rs) qs = omega (arith, count-append p rs qs)

pub count-keep :
    (p q : TrafficRecord → Bool) (rs : List TrafficRecord)
    → count p (keep q rs) ≡ count (λ r. q r && p r) rs
count-keep p q [] = refl
count-keep p q (r ∷ rs) = ground (arith, count-keep p q rs)

pub length-keep :
    (q : TrafficRecord → Bool) (rs : List TrafficRecord) → length (keep q rs) ≡ count q rs
length-keep q [] = refl
length-keep q (r ∷ rs) = ground (arith, length-keep q rs)

-- A test splits what another counts.
pub count_split :
    (p q : TrafficRecord → Bool) (rs : List TrafficRecord)
    → count p rs ≡ count (λ r. q r && p r) rs + count (λ r. not (q r) && p r) rs
count_split p q [] = refl
count_split p q (r ∷ rs) = ground (arith, count_split p q rs)

-- The records of a file that pass, and of all files.
abbrev pub count_at : (TrafficRecord → Bool) → Option (List Line) → ℕ
count_at p none = 0
count_at p (some lines) = count p (read_jsonl_file_all lines)

abbrev pub weight : (TrafficRecord → Bool) → List Line → ℕ
weight p lines = count p (read_jsonl_file_all lines)

abbrev pub count_files : (TrafficRecord → Bool) → List (ℕ × List Line) → ℕ
count_files p files = weigh (weight p) files

abbrev pub Files : Type 0
Files = List (ℕ × List Line)

-- Each line is a record of this VM and this day, as the program writes it.
abbrev pub AreAt : ℕ → ℕ → List Line → Type 0
AreAt vmid d [] = Unit
AreAt vmid d (stored r ∷ lines) =
    (r.vmid ≡ vmid) × (r.network_interface ≡ []) × (day_of r.timestamp ≡ d) × AreAt vmid d lines
AreAt vmid d (blank ∷ lines) = ⊥
AreAt vmid d (broken ∷ lines) = ⊥

abbrev pub FilesAt : ℕ → Files → Type 0
FilesAt vmid [] = Unit
FilesAt vmid ((d, lines) ∷ files) = AreAt vmid d lines × FilesAt vmid files

-- A directory that the program alone has written, in the new format.
abbrev pub IsPlaced : ℕ → VmDir → Type 0
IsPlaced vmid dir = IsMap dir.jsonl × (dir.json ≡ []) × FilesAt vmid dir.jsonl

pub read-write : (rs : List TrafficRecord) → read_jsonl_file_all (write_jsonl_file rs) ≡ rs
unfolding read_jsonl_file_all write_jsonl_file traffic_record stored_record
read-write [] = refl
read-write (r ∷ rs) = ap (λ qs. r ∷ qs) (read-write rs)

pub keep_keys-FilesAt :
    (p : ℕ → Bool) (vmid : ℕ) (files : Files)
    → FilesAt vmid files
    → FilesAt vmid (keep_keys p files)
unfolding keep_keys
keep_keys-FilesAt p vmid [] h = tt
keep_keys-FilesAt p vmid ((d, lines) ∷ files) h = elim (Bool-cases (p d)) [
  | inl e ↦ rw e (h.0, keep_keys-FilesAt p vmid files h.1)
  | inr e ↦ rw e (keep_keys-FilesAt p vmid files h.1)
]

pub lookup-AreAt :
    (vmid d : ℕ) (lines : List Line) (files : Files)
    → FilesAt vmid files
    → lookup d files ≡ some lines
    → AreAt vmid d lines
unfolding lookup
lookup-AreAt vmid d lines [] h e = ground arith
lookup-AreAt vmid d lines ((k, ls) ∷ files) h e = elim (Bool-cases (k == d)) [
  | inl q ↦
      let same : ls ≡ lines = ground (arith, (rw q at e)) in
      subst (λ l. AreAt vmid d l) same (subst (λ j. AreAt vmid j ls) ((==_iff k d).0 q) h.0)
  | inr q ↦ lookup-AreAt vmid d lines files h.1 (rw q at e)
]

-- The records of a file stand at its day.
pub count-AreAt :
    (p : TrafficRecord → Bool) (vmid d : ℕ) (lines : List Line)
    → AreAt vmid d lines
    → ((r : TrafficRecord) → r.vmid ≡ vmid → day_of r.timestamp ≡ d → p r ≡ false)
    → count p (read_jsonl_file_all lines) ≡ 0
unfolding read_jsonl_file_all traffic_record
count-AreAt p vmid d [] h none_passes = refl
count-AreAt p vmid d (stored r ∷ lines) h none_passes =
    ground (arith, count-AreAt p vmid d lines, none_passes (traffic_record r))
count-AreAt p vmid d (blank ∷ lines) h none_passes = elim h [ ]
count-AreAt p vmid d (broken ∷ lines) h none_passes = elim h [ ]

unfoldable pub all_records : Files → List TrafficRecord
all_records [] = []
all_records ((d, lines) ∷ files) = read_jsonl_file_all lines ++ all_records files

pub count-all_records :
    (p : TrafficRecord → Bool) (files : Files) → count p (all_records files) ≡ count_files p files
unfolding all_records weigh
count-all_records p [] = refl
count-all_records p ((d, lines) ∷ files) =
    count-append p (read_jsonl_file_all lines) (all_records files)
    ∙ ap (λ n. count p (read_jsonl_file_all lines) + n) (count-all_records p files)

-- How many records of some days pass.
unfoldable pub count_over : (TrafficRecord → Bool) → List ℕ → Files → ℕ
count_over p [] files = 0
count_over p (d ∷ days) files = count_at p (lookup d files) + count_over p days files

abbrev pub inside : ℕ → ℕ → ℕ → Bool
inside lo n d = leb lo d && ltb d (lo + n)

count_over-nil : (p : TrafficRecord → Bool) (lo n : ℕ) → count_over p (range lo n) [] ≡ 0
unfolding count_over lookup
count_over-nil p lo zero = refl
count_over-nil p lo (suc n) = omega (arith, count_over-nil p (suc lo) n)

count_over-cons :
    (p : TrafficRecord → Bool) (lo n k : ℕ) (lines : List Line) (files : Files)
    → lookup k files ≡ none
    → count_over p (range lo n) ((k, lines) ∷ files)
      ≡ (if inside lo n k then count p (read_jsonl_file_all lines) else 0)
        + count_over p (range lo n) files
unfolding count_over lookup
count_over-cons p lo zero k lines files h = ground arith
count_over-cons p lo (suc n) k lines files h = elim (Bool-cases (k == lo)) [
  | inl e ↦
      let none_here : lookup lo files ≡ none =
        ap (λ j. lookup j files) (sym ((==_iff k lo).0 e)) ∙ h in
      rw (e, none_here) (ground (arith, count_over-cons p (suc lo) n k lines files h))
  | inr e ↦ rw e (ground (arith, count_over-cons p (suc lo) n k lines files h))
]

-- Days that take in every record that passes count them all.
pub count_over-range :
    (p : TrafficRecord → Bool) (lo n vmid : ℕ) (files : Files)
    → ((r : TrafficRecord) → inside lo n (day_of r.timestamp) ≡ false → p r ≡ false)
    → IsMap files
    → FilesAt vmid files
    → count_over p (range lo n) files ≡ count_files p files
unfolding weigh
count_over-range p lo n vmid [] h u f = count_over-nil p lo n
count_over-range p lo n vmid ((k, lines) ∷ files) h u f =
    let rest = count_over-range p lo n vmid files h u.1 f.1 in
    let split = count_over-cons p lo n k lines files u.0 in
    elim (Bool-cases (inside lo n k)) [
      | inl e ↦ ground arith
      | inr e ↦
          let none_pass =
            count-AreAt p vmid k lines f.0
              (λ r same_vm same_day. h r (ap (inside lo n) same_day ∙ e)) in
          ground arith
    ]
