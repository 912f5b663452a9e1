-- ===== src/Storage/Refines.antt =====
-- The file storage against its specification: one log of records, in which a save adds a record and
-- a removal drops those it names.
use pve_traffic_monitor.Base.{
  ℕ, suc, ◌≡◌, refl, sym, ap, ◌∙◌, inl, inr, Bool, true, false, not, ◌&&◌, List, [], ◌∷◌, keep,
  ◌==◌, ==_iff, Bool-cases, arith,
}
use pve_traffic_monitor.Base.Int.{pos}
use pve_traffic_monitor.Base.Maps.{lookup, nat_Eq}
use pve_traffic_monitor.Clock.{Time}
use pve_traffic_monitor.Models.{TrafficRecord}
use pve_traffic_monitor.Storage.{
  FileStorage, RecordCounter, in_range, save_traffic_record, get_traffic_records,
  get_total_record_count, count_records_actual,
}
use pve_traffic_monitor.Storage.Contents.{count, SameRecords, count-keep}
use pve_traffic_monitor.Storage.Read.{IsStored, IsOrdered, records_of, get_traffic_records_lem}
use pve_traffic_monitor.Storage.Counter.{
  IsCounted, save_traffic_record-IsCounted, get_total_record_count-IsCounted,
}
use pve_traffic_monitor.Storage.Save.{
  log_saved, save_traffic_record-IsStored, save_traffic_record-SameRecords,
}
use pve_traffic_monitor.Storage.Removal.{
  is_chosen, is_between, delete_records_in_range, delete_records_before, cleanup_old_data,
}
use pve_traffic_monitor.Storage.Removal.Before.{begins_before}
use pve_traffic_monitor.Storage.Removal.Dirs.{log_removed}
use pve_traffic_monitor.Storage.Removal.Range.{
  delete_records_in_range-IsStored, delete_records_in_range-IsCounted,
  delete_records_in_range-SameRecords, delete_records_before-IsStored,
  delete_records_before-IsCounted, delete_records_before-SameRecords,
}
use pve_traffic_monitor.Storage.Removal.Old.{
  is_old, cutoff_day, cleanup_old_data-IsStored, cleanup_old_data-SameRecords,
}

-- The calls that change what is stored, each with the time at which it is made where it reads the
-- clock. A cleanup keeps `suc days` days.
pub data Op : Type 0 where
  save : Time → TrafficRecord → Op
  delete_range : ℕ → Time → Time → Op
  delete_before : Time → Op
  cleanup : Time → ℕ → Op

unfoldable pub run : List Op → FileStorage → FileStorage
run [] s = s
run (save now r ∷ ops) s = run ops (save_traffic_record now r s)
run (delete_range vmid start end ∷ ops) s = run ops (delete_records_in_range vmid start end s).0
run (delete_before t ∷ ops) s = run ops (delete_records_before t s).0
run (cleanup now days ∷ ops) s = run ops (cleanup_old_data now (pos (suc days)) s)

abbrev pub drop_if : (TrafficRecord → Bool) → List TrafficRecord → List TrafficRecord
drop_if goes log = keep (λ r. not (goes r)) log

unfoldable pub run_log : List Op → List TrafficRecord → List TrafficRecord
run_log [] log = log
run_log (save now r ∷ ops) log = run_log ops (r ∷ log)
run_log (delete_range vmid start end ∷ ops) log =
    run_log ops (drop_if (λ r. is_chosen vmid r.vmid && is_between start end r) log)
run_log (delete_before t ∷ ops) log = run_log ops (drop_if (begins_before t) log)
run_log (cleanup now days ∷ ops) log =
    run_log ops (drop_if (is_old (cutoff_day now (suc days))) log)

abbrev pub of_vm : ℕ → List TrafficRecord → List TrafficRecord
of_vm vmid log = keep (λ r. r.vmid == vmid) log

-- The disk holds the log's records, each in its VM's directory.
pub record Holds (s : FileStorage) (log : List TrafficRecord) : Type 0 where
  pub stored : IsStored s
  pub same : (vmid : ℕ) → SameRecords (records_of vmid s) (of_vm vmid log)

keep-SameRecords :
    (q : TrafficRecord → Bool) (rs qs : List TrafficRecord)
    → SameRecords rs qs
    → SameRecords (keep q rs) (keep q qs)
keep-SameRecords q rs qs h p = count-keep p q rs ∙ h (λ r. q r && p r) ∙ sym (count-keep p q qs)

log_saved-SameRecords :
    (vmid : ℕ) (r : TrafficRecord) (rs log : List TrafficRecord)
    → SameRecords rs (of_vm vmid log)
    → SameRecords (log_saved vmid r rs) (of_vm vmid (r ∷ log))
log_saved-SameRecords vmid r rs log h p = ground (arith, h p)

log_removed-SameRecords :
    (b : Bool) (goes : TrafficRecord → Bool) (rs qs : List TrafficRecord)
    → SameRecords rs qs
    → SameRecords (log_removed b goes rs) (log_removed b goes qs)
log_removed-SameRecords true goes rs qs h = keep-SameRecords (λ r. not (goes r)) rs qs h
log_removed-SameRecords false goes rs qs h = h

-- What a VM loses is what the log loses of it.
of_vm-drop :
    (vmid : ℕ) (chosen : ℕ → Bool) (goes : TrafficRecord → Bool) (log : List TrafficRecord)
    → log_removed (chosen vmid) goes (of_vm vmid log)
      ≡ of_vm vmid (drop_if (λ r. chosen r.vmid && goes r) log)
of_vm-drop vmid chosen goes [] = ground arith
of_vm-drop vmid chosen goes (r ∷ log) = elim (Bool-cases (r.vmid == vmid)) [
  | inl e ↦
      let same : chosen r.vmid ≡ chosen vmid = ap chosen ((==_iff r.vmid vmid).0 e) in
      rw same (ground (arith, of_vm-drop vmid chosen goes log))
  | inr e ↦ ground (arith, of_vm-drop vmid chosen goes log)
]

Holds-drop :
    (chosen : ℕ → Bool) (goes : TrafficRecord → Bool) (s s' : FileStorage)
    (log : List TrafficRecord)
    → Holds s log
    → IsStored s'
    → ((vmid : ℕ)
        → SameRecords (records_of vmid s') (log_removed (chosen vmid) goes (records_of vmid s)))
    → Holds s' (drop_if (λ r. chosen r.vmid && goes r) log)
Holds-drop chosen goes s s' log h st k = record {
  stored = st;
  same = λ vmid p.
      k vmid p
      ∙ log_removed-SameRecords (chosen vmid) goes (records_of vmid s) (of_vm vmid log)
          (h.same vmid) p
      ∙ ap (count p) (of_vm-drop vmid chosen goes log);
}

-- Each call keeps the disk and the log together.
pub run-Holds :
    (ops : List Op) (s : FileStorage) (log : List TrafficRecord)
    → Holds s log
    → Holds (run ops s) (run_log ops log)
unfolding run run_log
run-Holds [] s log h = h
run-Holds (save now r ∷ ops) s log h = run-Holds ops _ (r ∷ log) (record {
  stored = save_traffic_record-IsStored now r s h.stored;
  same = λ vmid p.
      save_traffic_record-SameRecords now r s vmid h.stored p
      ∙ log_saved-SameRecords vmid r (records_of vmid s) log (h.same vmid) p;
})
run-Holds (delete_range vmid start end ∷ ops) s log h = run-Holds ops _ _ (
    Holds-drop (is_chosen vmid) (is_between start end) s _ log h
      (delete_records_in_range-IsStored vmid start end s h.stored)
      (λ v. delete_records_in_range-SameRecords vmid start end s v h.stored))
run-Holds (delete_before t ∷ ops) s log h = run-Holds ops _ _ (
    Holds-drop (λ v. true) (begins_before t) s _ log h (delete_records_before-IsStored t s h.stored)
      (λ v. delete_records_before-SameRecords t s v h.stored))
run-Holds (cleanup now days ∷ ops) s log h = run-Holds ops _ _ (
    Holds-drop (λ v. true) (is_old (cutoff_day now (suc days))) s _ log h
      (cleanup_old_data-IsStored now (suc days) s h.stored)
      (λ v. cleanup_old_data-SameRecords now days s v h.stored))

abbrev pub no_records : RecordCounter → FileStorage
no_records counter = record { dirs = []; record_counter = counter }

pub no_records-Holds : (counter : RecordCounter) → Holds (no_records counter) []
unfolding lookup
no_records-Holds counter = record {
  stored = record { is_map = tt; placed = tt };
  same = λ vmid p. refl;
}

-- After any saves and removals on an empty storage, a query answers with the records that the log,
-- run through the same calls, has of the VM and the time range, each as often, in the order of time.
pub run-get_traffic_records :
    (ops : List Op) (counter : RecordCounter) (vmid : ℕ) (start end : Time)
    → SameRecords
        (get_traffic_records vmid start end (run ops (no_records counter)))
        (keep (λ r. in_range start end r.timestamp) (of_vm vmid (run_log ops [])))
      × IsOrdered (get_traffic_records vmid start end (run ops (no_records counter)))
run-get_traffic_records ops counter vmid start end =
    let h = run-Holds ops (no_records counter) [] (no_records-Holds counter) in
    let read = get_traffic_records_lem (run ops (no_records counter)) vmid start end h.stored in
    (
      (λ p.
          read.0 p
          ∙ keep-SameRecords (λ r. in_range start end r.timestamp)
              (records_of vmid (run ops (no_records counter))) (of_vm vmid (run_log ops []))
              (h.same vmid) p),
      read.1,
    )

-- No files are removed for their age.
abbrev pub HasNoCleanup : List Op → Type 0
HasNoCleanup [] = Unit
HasNoCleanup (cleanup now days ∷ ops) = ⊥
HasNoCleanup (save now r ∷ ops) = HasNoCleanup ops
HasNoCleanup (delete_range vmid start end ∷ ops) = HasNoCleanup ops
HasNoCleanup (delete_before t ∷ ops) = HasNoCleanup ops

run-IsCounted :
    (ops : List Op) (s : FileStorage)
    → HasNoCleanup ops
    → IsStored s
    → IsCounted s
    → IsCounted (run ops s)
unfolding run
run-IsCounted [] s n h c = c
run-IsCounted (save now r ∷ ops) s n h c =
    run-IsCounted ops _ n (save_traffic_record-IsStored now r s h)
      (save_traffic_record-IsCounted now r s h c)
run-IsCounted (delete_range vmid start end ∷ ops) s n h c =
    run-IsCounted ops _ n (delete_records_in_range-IsStored vmid start end s h)
      (delete_records_in_range-IsCounted vmid start end s h c)
run-IsCounted (delete_before t ∷ ops) s n h c =
    run-IsCounted ops _ n (delete_records_before-IsStored t s h)
      (delete_records_before-IsCounted t s h c)
run-IsCounted (cleanup now days ∷ ops) s n h c = elim n [ ]

-- After any saves and removals but by age, on files as the program writes them and a counter at their
-- number, the total that is answered is the number of records on the disk.
pub run-get_total_record_count :
    (ops : List Op) (s : FileStorage) (now : Time)
    → HasNoCleanup ops
    → IsStored s
    → IsCounted s
    → (get_total_record_count now (run ops s)).0 ≡ pos (count_records_actual (run ops s).dirs)
run-get_total_record_count ops s now n h c =
    (get_total_record_count-IsCounted now (run ops s) (run-IsCounted ops s n h c)).0
