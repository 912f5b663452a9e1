-- ===== src/Storage/Removal/Old.antt =====
-- Removing the files that are past their retention.
use pve_traffic_monitor.Base.{
  ℕ, ◌≡◌, refl, sym, ap, ◌∙◌, inl, inr, Bool, not, ◌&&◌, [], ◌∷◌, keep, none, some, ltb, suc, zero,
  ◌==◌, Bool-cases, arith,
}
use pve_traffic_monitor.Base.Int.{pos, ◌-ℤ◌}
use pve_traffic_monitor.Base.Maps.{lookup, keep_keys, IsMap, nat_Eq, keep_keys-IsMap}
use pve_traffic_monitor.Base.Weights.{weigh}
use pve_traffic_monitor.Clock.{Time, add_days}
use pve_traffic_monitor.Models.{TrafficRecord}
use pve_traffic_monitor.Storage.{VmDir, FileStorage, day_of}
use pve_traffic_monitor.Storage.Contents.{
  SameRecords, count-keep, count_files, FilesAt, IsPlaced, keep_keys-FilesAt, count-AreAt,
  count-all_records,
}
use pve_traffic_monitor.Storage.Read.{ArePlaced, IsStored, records_in, records_of}
use pve_traffic_monitor.Storage.Removal.{Files, Dirs, cleanup_dirs, cleanup_old_data}
use pve_traffic_monitor.Storage.Removal.Before.{count-all}

-- Of a day before the cutoff's.
abbrev pub is_old : ℕ → TrafficRecord → Bool
is_old cutoff r = ltb (day_of r.timestamp) cutoff

count_files-keep_keys :
    (p : TrafficRecord → Bool) (vmid cutoff : ℕ) (files : Files)
    → FilesAt vmid files
    → count_files p (keep_keys (λ d. not (ltb d cutoff)) files)
      ≡ count_files (λ r. not (is_old cutoff r) && p r) files
unfolding keep_keys weigh
count_files-keep_keys p vmid cutoff [] f = refl
count_files-keep_keys p vmid cutoff ((d, lines) ∷ files) f = elim (Bool-cases (ltb d cutoff)) [
  | inl e ↦
      let gone =
        count-AreAt (λ r. not (is_old cutoff r) && p r) vmid d lines f.0
          (λ r vm day. ap (λ k. not (ltb k cutoff) && p r) day ∙ ap (λ b. not b && p r) e) in
      rw e (omega (arith, gone, count_files-keep_keys p vmid cutoff files f.1))
  | inr e ↦
      let stays =
        count-all p (λ r. not (is_old cutoff r)) vmid d lines f.0
          (λ r day. ap (λ k. not (ltb k cutoff)) day ∙ ap not e) in
      rw e (omega (arith, stays, count_files-keep_keys p vmid cutoff files f.1))
]

cleanup_dirs-absent :
    (cutoff k : ℕ) (dirs : Dirs) → lookup k dirs ≡ none → lookup k (cleanup_dirs cutoff dirs) ≡ none
unfolding cleanup_dirs lookup
cleanup_dirs-absent cutoff k [] h = refl
cleanup_dirs-absent cutoff k ((j, dir) ∷ dirs) h = ground (arith, cleanup_dirs-absent cutoff k dirs)

cleanup_dirs-IsMap : (cutoff : ℕ) (dirs : Dirs) → IsMap dirs → IsMap (cleanup_dirs cutoff dirs)
unfolding cleanup_dirs
cleanup_dirs-IsMap cutoff [] u = tt
cleanup_dirs-IsMap cutoff ((k, dir) ∷ dirs) u =
    (cleanup_dirs-absent cutoff k dirs u.0, cleanup_dirs-IsMap cutoff dirs u.1)

cleanup-IsPlaced :
    (cutoff vmid : ℕ) (dir : VmDir)
    → IsPlaced vmid dir
    → IsPlaced vmid (record {
      jsonl = keep_keys (λ d. not (ltb d cutoff)) dir.jsonl;
      json = keep_keys (λ d. not (ltb d cutoff)) dir.json;
    })
unfolding keep_keys
cleanup-IsPlaced cutoff vmid dir h = (
  keep_keys-IsMap _ dir.jsonl h.0,
  ap (keep_keys (λ d. not (ltb d cutoff))) h.1,
  keep_keys-FilesAt _ vmid dir.jsonl h.2,
)

cleanup_dirs-ArePlaced :
    (cutoff : ℕ) (dirs : Dirs) → ArePlaced dirs → ArePlaced (cleanup_dirs cutoff dirs)
unfolding cleanup_dirs
cleanup_dirs-ArePlaced cutoff [] h = tt
cleanup_dirs-ArePlaced cutoff ((k, dir) ∷ dirs) h =
    (cleanup-IsPlaced cutoff k dir h.0, cleanup_dirs-ArePlaced cutoff dirs h.1)

cleanup_dirs-SameRecords :
    (cutoff vmid : ℕ) (dirs : Dirs)
    → ArePlaced dirs
    → SameRecords
        (records_in (lookup vmid (cleanup_dirs cutoff dirs)))
        (keep (λ r. not (is_old cutoff r)) (records_in (lookup vmid dirs)))
unfolding cleanup_dirs lookup
cleanup_dirs-SameRecords cutoff vmid [] h p = refl
cleanup_dirs-SameRecords cutoff vmid ((k, dir) ∷ dirs) h p = elim (Bool-cases (k == vmid)) [
  | inl e ↦ rw e (
      count-all_records p (keep_keys (λ d. not (ltb d cutoff)) dir.jsonl)
      ∙ count_files-keep_keys p k cutoff dir.jsonl h.0.2
      ∙ sym (count-all_records (λ r. not (is_old cutoff r) && p r) dir.jsonl)
      ∙ sym (count-keep p (λ r. not (is_old cutoff r)) (records_in (some dir))))
  | inr e ↦ rw e (cleanup_dirs-SameRecords cutoff vmid dirs h.1 p)
]

-- The first day that is kept.
abbrev pub cutoff_day : Time → ℕ → ℕ
cutoff_day now days = day_of (add_days now (pos 0 -ℤ pos days))

pub cleanup_old_data-IsStored :
    (now : Time) (days : ℕ) (s : FileStorage)
    → IsStored s
    → IsStored (cleanup_old_data now (pos days) s)
unfolding cleanup_old_data
cleanup_old_data-IsStored now zero s h = h
cleanup_old_data-IsStored now (suc n) s h = record {
  is_map = cleanup_dirs-IsMap (cutoff_day now (suc n)) s.dirs h.is_map;
  placed = cleanup_dirs-ArePlaced (cutoff_day now (suc n)) s.dirs h.placed;
}

-- With a retention of at least a day, the records of the days before the retention's first are
-- removed, for every VM, and no others; the files are as the program writes them.
pub cleanup_old_data-SameRecords :
    (now : Time) (days : ℕ) (s : FileStorage) (vmid : ℕ)
    → IsStored s
    → SameRecords
        (records_of vmid (cleanup_old_data now (pos (suc days)) s))
        (keep (λ r. not (is_old (cutoff_day now (suc days)) r)) (records_of vmid s))
unfolding cleanup_old_data
cleanup_old_data-SameRecords now days s vmid h =
    cleanup_dirs-SameRecords (cutoff_day now (suc days)) vmid s.dirs h.placed
