-- ===== src/Storage/Removal/Vm.antt =====
-- Removing records from one directory: what a loop over its files has to achieve.
use pve_traffic_monitor.Base.{ℕ, ◌≡◌, ap, ◌∙◌, Bool, false, not, ◌&&◌, List, arith}
use pve_traffic_monitor.Base.Maps.{IsMap, nat_Eq}
use pve_traffic_monitor.Clock.{Time}
use pve_traffic_monitor.Models.{TrafficRecord}
use pve_traffic_monitor.Storage.{day_of, visited_days, in_range}
use pve_traffic_monitor.Storage.Days.{visited_days-range}
use pve_traffic_monitor.Storage.Contents.{count_files, FilesAt, count_over, count_over-range}
use pve_traffic_monitor.Storage.Read.{out_of_days}
use pve_traffic_monitor.Storage.Removal.{
  Files, filter_file, is_between, each_file, delete_records_in_range_for_vm,
  count_records_in_range_for_vm, count_days,
}
use pve_traffic_monitor.Storage.Removal.Day.{IsTurn, filter_file-IsTurn}
use pve_traffic_monitor.Storage.Removal.Loop.{
  AreDistinct, range-AreDistinct, count_days-count_over, count_files_split, each_file-count,
  each_file-number, each_file-IsMap, each_file-FilesAt,
}

-- The records that go are gone, the others stay, and the dry run counts as many.
pub record IsRemoval (goes : TrafficRecord → Bool) (step : Files → Files × ℕ) (dry_run : Files → ℕ)
    : Type 0 where
  pub stays :
      (p : TrafficRecord → Bool) (vmid : ℕ) (files : Files)
      → IsMap files
      → FilesAt vmid files
      → count_files p (step files).0 ≡ count_files (λ r. not (goes r) && p r) files
  pub number :
      (vmid : ℕ) (files : Files)
      → IsMap files
      → FilesAt vmid files
      → (step files).1 ≡ count_files goes files
  pub predicted :
      (vmid : ℕ) (files : Files)
      → IsMap files
      → FilesAt vmid files
      → dry_run files ≡ count_files goes files
  pub removal-IsMap : (files : Files) → IsMap files → IsMap (step files).0
  pub removal-FilesAt :
      (vmid : ℕ) (files : Files) → FilesAt vmid files → FilesAt vmid (step files).0

-- A loop that visits every day of a record that goes removes exactly those.
module _ (goes : TrafficRecord → Bool) (step : ℕ → Files → Files × ℕ) (turn : IsTurn goes step)
    (days : Files → List ℕ) (distinct : (files : Files) → IsMap files → AreDistinct (days files))
    (covers : (p : TrafficRecord → Bool) (vmid : ℕ) (files : Files)
      → IsMap files
      → FilesAt vmid files
      → count_over (λ r. goes r && p r) (days files) files ≡ count_files (λ r. goes r && p r) files)
    (counts_all : (vmid : ℕ) (files : Files)
      → IsMap files
      → FilesAt vmid files
      → count_over goes (days files) files ≡ count_files goes files) where
  pub each_file-IsRemoval :
      IsRemoval goes
        (λ files. each_file step (days files) files)
        (λ files. count_days goes (days files) files)
  each_file-IsRemoval = record {
    stays = λ p vmid files u f. omega (
      arith,
      each_file-count goes step turn p vmid (days files) files (distinct files u) u f,
      covers p vmid files u f,
      count_files_split p goes files,
    );
    number = λ vmid files u f.
        each_file-number goes step turn vmid (days files) files (distinct files u) f
        ∙ counts_all vmid files u f;
    predicted =
        λ vmid files u f. count_days-count_over goes (days files) files ∙ counts_all vmid files u f;
    removal-IsMap = λ files u. each_file-IsMap goes step turn (days files) files u;
    removal-FilesAt = λ vmid files f. each_file-FilesAt goes step turn vmid (days files) files f;
  }

is_between-in_range :
    (start end : Time) (r : TrafficRecord) → is_between start end r ≡ in_range start end r.timestamp
is_between-in_range start end r = ground arith

between_covers :
    (start end : Time) (p : TrafficRecord → Bool) (vmid : ℕ) (files : Files)
    → ((r : TrafficRecord) → in_range start end r.timestamp ≡ false → p r ≡ false)
    → IsMap files
    → FilesAt vmid files
    → count_over p (visited_days start end) files ≡ count_files p files
between_covers start end p vmid files h u f =
    let (n, days, cover) = visited_days-range start end in
    ap (λ ds. count_over p ds files) days
    ∙ count_over-range p (day_of start) n vmid files
        (λ r out. h r (out_of_days start end r.timestamp n cover out)) u f

visited_days-AreDistinct : (start end : Time) → AreDistinct (visited_days start end)
visited_days-AreDistinct start end =
    let (n, days, cover) = visited_days-range start end in
    rw days (range-AreDistinct (day_of start) n)

pub delete_records_in_range_for_vm-IsRemoval :
    (start end : Time)
    → IsRemoval
        (is_between start end)
        (delete_records_in_range_for_vm start end)
        (count_records_in_range_for_vm start end)
unfolding delete_records_in_range_for_vm count_records_in_range_for_vm
delete_records_in_range_for_vm-IsRemoval start end =
    let outside = λ (r : TrafficRecord) (out : in_range start end r.timestamp ≡ false).
      is_between-in_range start end r ∙ out in
    each_file-IsRemoval (is_between start end) (filter_file (is_between start end))
      (filter_file-IsTurn (is_between start end)) (λ files. visited_days start end)
      (λ files u. visited_days-AreDistinct start end)
      (λ p vmid files u f.
        between_covers start end _ vmid files (λ r out. ap (λ b. b && p r) (outside r out)) u f)
      (λ vmid files u f. between_covers start end _ vmid files outside u f)
