-- ===== src/Storage/Removal/Loop.antt =====
-- The loops over the files of a VM's directory, for any turn that keeps what it owes.
use pve_traffic_monitor.Base.{
  ℕ, zero, suc, ◌+◌, ◌<◌, ◌≡◌, ◌≢◌, ==_iff, refl, sym, ap, ◌∙◌, Bool, not, ◌&&◌, List, [], ◌∷◌, All,
  Option, none, some, ◌==◌, inl, inr, Bool-cases, arith,
}
use pve_traffic_monitor.Base.Maps.{lookup, IsMap, nat_Eq}
use pve_traffic_monitor.Base.Weights.{weigh}
use pve_traffic_monitor.Models.{TrafficRecord}
use pve_traffic_monitor.Storage.{Line, read_jsonl_file_all}
use pve_traffic_monitor.Storage.Days.{range}
use pve_traffic_monitor.Storage.Contents.{
  count, count_split, length-keep, count_at, count_files, FilesAt, all_records, count-all_records,
  count_over,
}
use pve_traffic_monitor.Storage.Removal.{Files, each_file, count_lines_if, count_days, keys}
use pve_traffic_monitor.Storage.Removal.Day.{IsTurn}

-- No day comes twice.
abbrev pub AreDistinct : List ℕ → Type 0
AreDistinct [] = Unit
AreDistinct (d ∷ days) = All (λ k. d ≢ k) days × AreDistinct days

range-apart : (d lo n : ℕ) → d < lo → All (λ k. d ≢ k) (range lo n)
range-apart d lo zero h = tt
range-apart d lo (suc n) h = ((λ e. omega arith), range-apart d (suc lo) n (omega arith))

pub range-AreDistinct : (lo n : ℕ) → AreDistinct (range lo n)
range-AreDistinct lo zero = tt
range-AreDistinct lo (suc n) =
    (range-apart lo (suc lo) n (omega arith), range-AreDistinct (suc lo) n)

keys-apart : (d : ℕ) (files : Files) → lookup d files ≡ none → All (λ k. d ≢ k) (keys files)
unfolding lookup
keys-apart d [] h = tt
keys-apart d ((k, lines) ∷ files) h = elim (Bool-cases (k == d)) [
  | inl e ↦ ground arith
  | inr e ↦ ((λ q. ground (arith, (==_iff k d).1 (sym q))), keys-apart d files (rw e at h))
]

pub keys-AreDistinct : (files : Files) → IsMap files → AreDistinct (keys files)
keys-AreDistinct [] u = tt
keys-AreDistinct ((k, lines) ∷ files) u = (keys-apart k files u.0, keys-AreDistinct files u.1)

count_over-other :
    (p : TrafficRecord → Bool) (days : List ℕ) (d : ℕ) (lines : List Line) (files : Files)
    → All (λ k. d ≢ k) days
    → count_over p days ((d, lines) ∷ files) ≡ count_over p days files
unfolding count_over lookup
count_over-other p [] d lines files h = refl
count_over-other p (k ∷ days) d lines files h = elim (Bool-cases (d == k)) [
  | inl e ↦ absurd (h.0 ((==_iff d k).0 e))
  | inr e ↦ rw e (omega (arith, count_over-other p days d lines files h.1))
]

-- All files are those of the directory's list.
pub count_over-keys :
    (p : TrafficRecord → Bool) (files : Files)
    → IsMap files
    → count_over p (keys files) files ≡ count_files p files
unfolding count_over weigh lookup
count_over-keys p [] u = refl
count_over-keys p ((k, lines) ∷ files) u = rw ((==_iff k k).1 refl) (
    ap (λ n. count p (read_jsonl_file_all lines) + n)
      (count_over-other p (keys files) k lines files (keys-apart k files u.0)
        ∙ count_over-keys p files u.1))

count_at-days :
    (goes : TrafficRecord → Bool) (o : Option (List Line)) → count_lines_if goes o ≡ count_at goes o
count_at-days goes none = refl
count_at-days goes (some lines) = length-keep goes (read_jsonl_file_all lines)

pub count_days-count_over :
    (goes : TrafficRecord → Bool) (days : List ℕ) (files : Files)
    → count_days goes days files ≡ count_over goes days files
unfolding count_days count_over
count_days-count_over goes [] files = refl
count_days-count_over goes (d ∷ days) files =
    omega (arith, count_at-days goes (lookup d files), count_days-count_over goes days files)

pub count_files_split :
    (p q : TrafficRecord → Bool) (files : Files)
    → count_files p files
      ≡ count_files (λ r. q r && p r) files + count_files (λ r. not (q r) && p r) files
count_files_split p q files = omega (
  arith,
  count_split p q (all_records files),
  count-all_records p files,
  count-all_records (λ r. q r && p r) files,
  count-all_records (λ r. not (q r) && p r) files,
)

module _ (goes : TrafficRecord → Bool) (step : ℕ → Files → Files × ℕ)
    (turn : IsTurn goes step) where
  count_over-step :
      (p : TrafficRecord → Bool) (d : ℕ) (days : List ℕ) (files : Files)
      → All (λ k. d ≢ k) days
      → count_over p days (step d files).0 ≡ count_over p days files
  unfolding count_over
  count_over-step p d [] files h = refl
  count_over-step p d (k ∷ days) files h =
      rw (turn.others k d files h.0)
        (ap (λ n. count_at p (lookup k files) + n) (count_over-step p d days files h.1))

  pub each_file-count :
      (p : TrafficRecord → Bool) (vmid : ℕ) (days : List ℕ) (files : Files)
      → AreDistinct days
      → IsMap files
      → FilesAt vmid files
      → count_files p files
        ≡ count_files p (each_file step days files).0 + count_over (λ r. goes r && p r) days files
  unfolding each_file count_over
  each_file-count p vmid [] files a u f = omega arith
  each_file-count p vmid (d ∷ days) files a u f = omega (
    arith,
    turn.counts p vmid d files u f,
    each_file-count p vmid days (step d files).0 a.1 (turn.turn-IsMap d files u)
        (turn.turn-FilesAt vmid d files f),
    count_over-step (λ r. goes r && p r) d days files a.0,
  )

  pub each_file-number :
      (vmid : ℕ) (days : List ℕ) (files : Files)
      → AreDistinct days
      → FilesAt vmid files
      → (each_file step days files).1 ≡ count_over goes days files
  unfolding each_file count_over
  each_file-number vmid [] files a f = refl
  each_file-number vmid (d ∷ days) files a f = omega (
    arith,
    turn.number vmid d files f,
    each_file-number vmid days (step d files).0 a.1 (turn.turn-FilesAt vmid d files f),
    count_over-step goes d days files a.0,
  )

  pub each_file-IsMap :
      (days : List ℕ) (files : Files) → IsMap files → IsMap (each_file step days files).0
  unfolding each_file
  each_file-IsMap [] files u = u
  each_file-IsMap (d ∷ days) files u =
      each_file-IsMap days (step d files).0 (turn.turn-IsMap d files u)

  pub each_file-FilesAt :
      (vmid : ℕ) (days : List ℕ) (files : Files)
      → FilesAt vmid files
      → FilesAt vmid (each_file step days files).0
  unfolding each_file
  each_file-FilesAt vmid [] files f = f
  each_file-FilesAt vmid (d ∷ days) files f =
      each_file-FilesAt vmid days (step d files).0 (turn.turn-FilesAt vmid d files f)
