-- ===== src/Tests/Engines.antt =====
-- A database that runs the statements: it reads the condition off the text, and keeps and takes every
-- time as it is.
use pve_traffic_monitor.Base.{
  ℕ, suc, ◌≡◌, refl, sym, ap, ◌∙◌, false, List, [], ◌∷◌, ◌++◌, map, length, some, ◌==◌, Bool-cases,
  inl, inr, if◌then◌else◌,
}
use mathlib.Core.List.{append_assoc}
use pve_traffic_monitor.Base.Text.{Text, codes}
use pve_traffic_monitor.Storage.{StoredTrafficRecord, traffic_record, sort_records}
use pve_traffic_monitor.Storage.Contents.{count}
use pve_traffic_monitor.Storage.Read.{count-sort_records, sort_records-IsOrdered}
use pve_traffic_monitor.Database.{drop_bytes, get_placeholder}
use pve_traffic_monitor.Database.Refines.{IsAnswered}
use pve_traffic_monitor.Database.Sql.{
  Value, flag, null, as_taken, all_taken, number, time, text, Outcome, failed, done, Answer, Engine,
  Condition, Column, Comparison, column_text, comparison_text, condition_from, condition_text,
  delete_text, count_text, select_text, vmid, network_interface, timestamp, equal, at_least,
  at_most, below, chosen, rest_of, shown, IsSql,
}

abbrev head_byte : Text → ℕ
head_byte [] = 0
head_byte (c ∷ s) = c

-- The column that a byte tells, and the comparison.
abbrev column_at : ℕ → Column → Column
column_at c col =
    if c == b'v'
    then vmid
    else if c == b'f'
    then network_interface
    else if c == b'p'
    then timestamp
    else col

abbrev with_equal : Comparison → Comparison
with_equal equal = equal
with_equal at_least = at_least
with_equal at_most = at_most
with_equal below = at_most

abbrev comparison_at : ℕ → Comparison → Comparison
comparison_at c t =
    if c == b'<'
    then below
    else if c == b'>'
    then at_least
    else if c == b'='
    then with_equal t
    else t

unfoldable pub condition_of : Column → Comparison → Text → Condition
condition_of col t [] = []
condition_of col t (c ∷ s) =
    let ended = (col, t) ∷ condition_of col equal s in
    let more = condition_of (column_at c col) (comparison_at c t) s in
    if c == b'?' then ended else more

abbrev pub Rows : Type 0
Rows = List StoredTrafficRecord

abbrev insert_row : List Value → Rows → Outcome × Rows
insert_row (number v ∷ text name ∷ time t ∷ number rx ∷ number tx ∷ number total ∷ []) rows = (
  done (some 1),
  record {
    vmid = v;
    network_interface = name;
    timestamp = t;
    rx_bytes = rx;
    tx_bytes = tx;
    total_bytes = total;
  }
      ∷ rows,
)
insert_row _ rows = (failed, rows)

abbrev delete_rows : Condition → List Value → Rows → Outcome × Rows
delete_rows c args rows = (done (some (length (chosen c args rows))), rest_of c args rows)

abbrev show_rows : Condition → List Value → Rows → Answer
show_rows c args rows =
    some (map shown (sort_records (map traffic_record (chosen c args rows))), false)

abbrev pub engine : Engine Rows
engine = record {
  exec = λ q args rows.
      if head_byte q == b'I'
      then insert_row args rows
      else delete_rows (condition_of vmid equal q) args rows;
  query = λ q args rows.
      if head_byte (drop_bytes 7 q) == b'C'
      then some ((number (length (chosen (condition_of vmid equal q) args rows)) ∷ []) ∷ [], false)
      else show_rows (condition_of vmid equal q) args rows;
}

condition_of_first :
    (col col₀ : Column) (t : Comparison) (s : Text)
    → condition_of col₀ equal (column_text col ++ (comparison_text t ++ (b'?' ∷ s)))
      ≡ (col, t) ∷ condition_of col equal s
unfolding condition_of get_placeholder
condition_of_first vmid col₀ equal s = refl
condition_of_first vmid col₀ at_least s = refl
condition_of_first vmid col₀ at_most s = refl
condition_of_first vmid col₀ below s = refl
condition_of_first network_interface col₀ equal s = refl
condition_of_first network_interface col₀ at_least s = refl
condition_of_first network_interface col₀ at_most s = refl
condition_of_first network_interface col₀ below s = refl
condition_of_first timestamp col₀ equal s = refl
condition_of_first timestamp col₀ at_least s = refl
condition_of_first timestamp col₀ at_most s = refl
condition_of_first timestamp col₀ below s = refl

condition_of_mark :
    (col col₀ : Column) (t : Comparison) (rest tail : Text)
    → condition_of col₀ equal ((column_text col ++ (comparison_text t ++ (b'?' ∷ rest))) ++ tail)
      ≡ (col, t) ∷ condition_of col equal (rest ++ tail)
unfolding get_placeholder
condition_of_mark col col₀ t rest tail =
    ap (condition_of col₀ equal) (
      append_assoc (column_text col) (comparison_text t ++ (b'?' ∷ rest)) tail
      ∙ ap (λ s. column_text col ++ s) (append_assoc (comparison_text t) (b'?' ∷ rest) tail))
    ∙ condition_of_first col col₀ t (rest ++ tail)

condition_of_word :
    (col : Column) (s : Text)
    → condition_of col equal (codes " AND " ++ s) ≡ condition_of col equal s
unfolding condition_of
condition_of_word vmid s = refl
condition_of_word network_interface s = refl
condition_of_word timestamp s = refl

condition_of-condition_from :
    (c : Condition) (i : ℕ) (col₀ : Column) (tail : Text)
    → ((col : Column) → condition_of col equal tail ≡ [])
    → condition_of col₀ equal (condition_from false i c ++ tail) ≡ c
unfolding get_placeholder
condition_of-condition_from [] i col₀ tail h = h col₀
condition_of-condition_from ((a, t) ∷ []) i col₀ tail h =
    condition_of_mark a col₀ t [] tail ∙ ap (λ ds. (a, t) ∷ ds) (h a)
condition_of-condition_from ((a, t) ∷ d ∷ ds) i col₀ tail h =
    condition_of_mark a col₀ t (codes " AND " ++ condition_from false (suc i) (d ∷ ds)) tail
    ∙ ap (λ more. (a, t) ∷ more)
        (condition_of_word a (condition_from false (suc i) (d ∷ ds) ++ tail)
          ∙ condition_of-condition_from (d ∷ ds) (suc i) a tail h)

no_more : (col : Column) → condition_of col equal [] ≡ []
unfolding condition_of
no_more col = refl

no_more_order :
    (col : Column) → condition_of col equal (codes "\n\t\t\t  ORDER BY timestamp ASC") ≡ []
unfolding condition_of
no_more_order col = refl

append_nil : (s : Text) → s ++ [] ≡ s
append_nil [] = refl
append_nil (c ∷ s) = ap (λ t. c ∷ t) (append_nil s)

whole_condition :
    (c : Condition) (col : Column) → condition_of col equal (condition_text false c) ≡ c
whole_condition c col =
    ap (condition_of col equal) (sym (append_nil (condition_text false c)))
    ∙ condition_of-condition_from c 1 col [] no_more

pub condition_of-delete_text : (c : Condition) → condition_of vmid equal (delete_text false c) ≡ c
unfolding condition_of
condition_of-delete_text c = whole_condition c network_interface

pub condition_of-count_text : (c : Condition) → condition_of vmid equal (count_text false c) ≡ c
unfolding condition_of
condition_of-count_text c = whole_condition c network_interface

pub condition_of-select_text : (c : Condition) → condition_of vmid equal (select_text false c) ≡ c
unfolding condition_of
condition_of-select_text c =
    condition_of-condition_from c 1 network_interface (codes "\n\t\t\t  ORDER BY timestamp ASC")
      no_more_order

same_value : (v : Value) → as_taken (λ t. t) v ≡ v
same_value (number n) = refl
same_value (time t) = refl
same_value (text s) = refl
same_value (flag b) = refl
same_value null = refl

pub same_values : (args : List Value) → all_taken (λ t. t) args ≡ args
same_values [] = refl
same_values (v ∷ args) = rw (same_value v) (ap (λ vs. v ∷ vs) (same_values args))

unfoldable pub sql : IsSql false engine
unfolding get_placeholder
sql = record {
  table = λ rows. rows;
  kept = λ t. t;
  taken = λ t. t;
  inserts = λ v name t rx tx total rows. (refl, refl);
  deletes = λ c args rows fit.
      let same = condition_of-delete_text c in
      let given = sym (same_values args) in
      (
        ap (λ d. rest_of d args rows) same ∙ ap (λ vs. rest_of c vs rows) given,
        ap (λ d. some (length (chosen d args rows))) same
            ∙ ap (λ vs. some (length (chosen c vs rows))) given,
      );
  counts = λ c args rows fit.
      ap (λ d. number (length (chosen d args rows)) ∷ []) (condition_of-count_text c)
      ∙ ap (λ vs. number (length (chosen c vs rows)) ∷ []) (sym (same_values args));
  selects = λ c args rows fit. (
    sort_records
        (map traffic_record (chosen (condition_of vmid equal (select_text false c)) args rows)),
    refl,
    (λ p.
        count-sort_records p _
        ∙ ap (λ d. count p (map traffic_record (chosen d args rows))) (condition_of-select_text c)
        ∙ ap (λ vs. count p (map traffic_record (chosen c vs rows))) (sym (same_values args))),
    sort_records-IsOrdered _,
  );
}

pub engine_answers :
    (q : Text) (args : List Value) (rows : Rows) → IsAnswered (engine.query q args rows)
engine_answers q args rows = elim (Bool-cases (head_byte (drop_bytes 7 q) == b'C')) [
  | inl b ↦ rw b tt
  | inr b ↦ rw b tt
]
