-- ===== src/Storage/Removal/Dirs.antt =====
-- Removing records from the directories of the chosen VMs.
use pve_traffic_monitor.Base.{
  ℕ, ◌+◌, ◌≡◌, refl, sym, ap, ◌∙◌, inl, inr, Bool, true, not, ◌&&◌, List, [], ◌∷◌, keep, none, some,
  ◌==◌, ==_iff, Bool-cases, arith, if◌then◌else◌,
}
use pve_traffic_monitor.Base.Maps.{lookup, IsMap, nat_Eq}
use pve_traffic_monitor.Models.{TrafficRecord}
use pve_traffic_monitor.Storage.{VmDir, count_records_actual}
use pve_traffic_monitor.Storage.Contents.{
  SameRecords, count-keep, count_files, count-all_records, IsPlaced,
}
use pve_traffic_monitor.Storage.Read.{ArePlaced, records_in}
use pve_traffic_monitor.Storage.Counter.{any_record, dir_count, dir_count-IsPlaced}
use pve_traffic_monitor.Storage.Removal.{Files, Dirs, each_dir, count_dirs}
use pve_traffic_monitor.Storage.Removal.Loop.{count_files_split}
use pve_traffic_monitor.Storage.Removal.Vm.{IsRemoval}

abbrev pub log_removed : Bool → (TrafficRecord → Bool) → List TrafficRecord → List TrafficRecord
log_removed chosen goes rs = if chosen then keep (λ r. not (goes r)) rs else rs

module _ (chosen : ℕ → Bool) (goes : TrafficRecord → Bool) (step : Files → Files × ℕ)
    (dry_run : Files → ℕ) (removal : IsRemoval goes step dry_run) where
  abbrev new_dir : ℕ → VmDir → VmDir
  new_dir vmid dir = if chosen vmid then record dir { jsonl = (step dir.jsonl).0 } else dir

  each_dir_absent :
      (vmid : ℕ) (dirs : Dirs)
      → lookup vmid dirs ≡ none
      → lookup vmid (each_dir chosen step dirs).0 ≡ none
  unfolding lookup each_dir
  each_dir_absent vmid [] h = refl
  each_dir_absent vmid ((k, dir) ∷ dirs) h = ground (arith, each_dir_absent vmid dirs)

  pub each_dir-IsMap : (dirs : Dirs) → IsMap dirs → IsMap (each_dir chosen step dirs).0
  unfolding each_dir
  each_dir-IsMap [] u = tt
  each_dir-IsMap ((k, dir) ∷ dirs) u =
      let absent = each_dir_absent k dirs u.0 in let rest = each_dir-IsMap dirs u.1 in ground arith

  step-IsPlaced :
      (vmid : ℕ) (dir : VmDir)
      → IsPlaced vmid dir
      → IsPlaced vmid (record dir { jsonl = (step dir.jsonl).0 })
  step-IsPlaced vmid dir h =
      (removal.removal-IsMap dir.jsonl h.0, h.1, removal.removal-FilesAt vmid dir.jsonl h.2)

  pub each_dir-ArePlaced : (dirs : Dirs) → ArePlaced dirs → ArePlaced (each_dir chosen step dirs).0
  unfolding each_dir
  each_dir-ArePlaced [] h = tt
  each_dir-ArePlaced ((k, dir) ∷ dirs) h = elim (Bool-cases (chosen k)) [
    | inl e ↦ rw e (step-IsPlaced k dir h.0, each_dir-ArePlaced dirs h.1)
    | inr e ↦ rw e (h.0, each_dir-ArePlaced dirs h.1)
  ]

  step-SameRecords :
      (vmid : ℕ) (dir : VmDir)
      → IsPlaced vmid dir
      → SameRecords
          (records_in (some (record dir { jsonl = (step dir.jsonl).0 })))
          (log_removed true goes (records_in (some dir)))
  step-SameRecords vmid dir h p =
      count-all_records p (step dir.jsonl).0
      ∙ removal.stays p vmid dir.jsonl h.0 h.2
      ∙ sym (count-all_records (λ r. not (goes r) && p r) dir.jsonl)
      ∙ sym (count-keep p (λ r. not (goes r)) (records_in (some dir)))

  nothing_removed : (b : Bool) → SameRecords [] (log_removed b goes [])
  nothing_removed b p = ground arith

  pub each_dir-SameRecords :
      (vmid : ℕ) (dirs : Dirs)
      → ArePlaced dirs
      → SameRecords
          (records_in (lookup vmid (each_dir chosen step dirs).0))
          (log_removed (chosen vmid) goes (records_in (lookup vmid dirs)))
  unfolding each_dir lookup
  each_dir-SameRecords vmid [] h = nothing_removed (chosen vmid)
  each_dir-SameRecords vmid ((k, dir) ∷ dirs) h = elim (Bool-cases (k == vmid)) [
    | inl q ↦ elim (Bool-cases (chosen k)) [
      | inl e ↦
          rw (e, q, ap chosen (sym ((==_iff k vmid).0 q)) ∙ e) (λ p. step-SameRecords k dir h.0 p)
      | inr e ↦ rw (e, q, ap chosen (sym ((==_iff k vmid).0 q)) ∙ e) (λ p. refl)
    ]
    | inr q ↦ elim (Bool-cases (chosen k)) [
      | inl e ↦ rw (e, q) (each_dir-SameRecords vmid dirs h.1)
      | inr e ↦ rw (e, q) (each_dir-SameRecords vmid dirs h.1)
    ]
  ]

  pub each_dir-number :
      (dirs : Dirs)
      → ArePlaced dirs
      → (each_dir chosen step dirs).1 ≡ count_dirs chosen dry_run dirs
  unfolding each_dir count_dirs
  each_dir-number [] h = refl
  each_dir-number ((k, dir) ∷ dirs) h = ground (
    arith,
    removal.number k dir.jsonl h.0.0 h.0.2,
    removal.predicted k dir.jsonl h.0.0 h.0.2,
    each_dir-number dirs h.1,
  )

  step-dir_count :
      (vmid : ℕ) (dir : VmDir)
      → IsPlaced vmid dir
      → (step dir.jsonl).1 + dir_count (record dir { jsonl = (step dir.jsonl).0 }) ≡ dir_count dir
  step-dir_count vmid dir h = omega (
    arith,
    dir_count-IsPlaced vmid dir h,
    dir_count-IsPlaced vmid (record dir { jsonl = (step dir.jsonl).0 }) (step-IsPlaced vmid dir h),
    removal.number vmid dir.jsonl h.0 h.2,
    removal.stays any_record vmid dir.jsonl h.0 h.2,
    split,
  )
    where
      same :
          (goes_ : TrafficRecord → Bool)
          → count_files (λ r. goes_ r && true) dir.jsonl ≡ count_files goes_ dir.jsonl
      same q = ap (λ f. count_files f dir.jsonl) (λ i r. and_true (q r) i)
        where
          and_true : (b : Bool) → (b && true) ≡ b
          and_true b = ground arith

      split :
          count_files any_record dir.jsonl
          ≡ count_files goes dir.jsonl + count_files (λ r. not (goes r) && true) dir.jsonl
      split =
          count_files_split any_record goes dir.jsonl
          ∙ ap (λ n. n + count_files (λ r. not (goes r) && true) dir.jsonl) (same goes)

  pub each_dir-count :
      (dirs : Dirs)
      → ArePlaced dirs
      → (each_dir chosen step dirs).1 + count_records_actual (each_dir chosen step dirs).0
        ≡ count_records_actual dirs
  unfolding each_dir count_records_actual
  each_dir-count [] h = refl
  each_dir-count ((k, dir) ∷ dirs) h =
      ground (arith, step-dir_count k dir h.0, each_dir-count dirs h.1)
