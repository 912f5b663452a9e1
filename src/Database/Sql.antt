-- ===== src/Database/Sql.antt =====
-- The database behind pkg/storage/database.go, a parameter of the model: it runs the text of a
-- statement with its arguments. The names of its statements, and what SQL says of those that the
-- program uses on the table traffic_records: INSERT, DELETE, SELECT and COUNT with a condition.
use pve_traffic_monitor.Base.{
  ℕ, suc, ◌≡◌, Bool, true, false, not, ◌&&◌, List, [], ◌∷◌, ◌++◌, map, keep, length, Option, none,
  some, leb, ltb, ◌==◌,
}
use pve_traffic_monitor.Base.Text.{Text, codes, text_eq}
use pve_traffic_monitor.Clock.{Time}
use pve_traffic_monitor.Models.{TrafficRecord}
use pve_traffic_monitor.Storage.{StoredTrafficRecord, traffic_record}
use pve_traffic_monitor.Storage.Contents.{SameRecords}
use pve_traffic_monitor.Storage.Read.{IsOrdered}
use pve_traffic_monitor.Database.{get_placeholder}

-- The driver's type, a string that is compared with these words.
pub data Driver : Type 0 where
  mysql postgres sqlite3 : Driver
  other : Text → Driver

abbrev pub is_postgres : Driver → Bool
is_postgres mysql = false
is_postgres postgres = true
is_postgres sqlite3 = false
is_postgres (other s) = false

-- An argument of a statement, or a value of a row.
pub data Value : Type 0 where
  number : ℕ → Value
  time : Time → Value
  text : Text → Value
  flag : Bool → Value
  null : Value

-- What Exec returns: an error, or the number of rows affected where the driver knows it.
pub data Outcome : Type 0 where
  failed : Outcome
  done : Option ℕ → Outcome

-- What Query returns: an error, or the rows, with whether the iteration ends in an error.
abbrev pub Answer : Type 0
Answer = Option (List (List Value) × Bool)

pub record Engine (W : Type 0) : Type 0 where
  pub exec : Text → List Value → W → Outcome × W
  pub query : Text → List Value → W → Answer

pub data Column : Type 0 where
  vmid network_interface timestamp : Column

pub data Comparison : Type 0 where
  equal at_least at_most below : Comparison

abbrev pub Condition : Type 0
Condition = List (Column × Comparison)

abbrev pub column_text : Column → Text
column_text vmid = codes "vmid"
column_text network_interface = codes "network_interface"
column_text timestamp = codes "timestamp"

abbrev pub comparison_text : Comparison → Text
comparison_text equal = codes " = "
comparison_text at_least = codes " >= "
comparison_text at_most = codes " <= "
comparison_text below = codes " < "

-- The condition with a placeholder for each argument, from the number i on.
abbrev pub condition_from : Bool → ℕ → Condition → Text
condition_from numbered i [] = []
condition_from numbered i ((c, t) ∷ []) =
    column_text c ++ (comparison_text t ++ get_placeholder numbered i)
condition_from numbered i ((c, t) ∷ d ∷ ds) =
    column_text c
    ++ (comparison_text t
        ++ (get_placeholder numbered i
            ++ (codes " AND " ++ condition_from numbered (suc i) (d ∷ ds))))

abbrev pub condition_text : Bool → Condition → Text
condition_text numbered c = condition_from numbered 1 c

-- Where the source breaks a line.
abbrev pub line_break : Text
line_break = codes "\n\t\t\t  "

abbrev pub delete_text : Bool → Condition → Text
delete_text numbered c = codes "DELETE FROM traffic_records WHERE " ++ condition_text numbered c

abbrev pub count_text : Bool → Condition → Text
count_text numbered c =
    codes "SELECT COUNT(*) FROM traffic_records WHERE " ++ condition_text numbered c

abbrev pub select_text : Bool → Condition → Text
select_text numbered c =
    codes "SELECT vmid, timestamp, rx_bytes, tx_bytes, total_bytes"
    ++ line_break
    ++ codes "FROM traffic_records "
    ++ line_break
    ++ codes "WHERE "
    ++ (condition_text numbered c ++ (line_break ++ codes "ORDER BY timestamp ASC"))

abbrev pub insert_text : Bool → Text
insert_text numbered =
    codes
      "INSERT INTO traffic_records (vmid, network_interface, timestamp, rx_bytes, tx_bytes, total_bytes)"
    ++ line_break
    ++ codes "VALUES ("
    ++ get_placeholder numbered 1
    ++ codes ", "
    ++ get_placeholder numbered 2
    ++ codes ", "
    ++ get_placeholder numbered 3
    ++ codes ", "
    ++ get_placeholder numbered 4
    ++ codes ", "
    ++ get_placeholder numbered 5
    ++ codes ", "
    ++ get_placeholder numbered 6
    ++ codes ")"

abbrev pub field : Column → StoredTrafficRecord → Value
field vmid row = number row.vmid
field network_interface row = text row.network_interface
field timestamp row = time row.timestamp

abbrev pub compares : Comparison → Value → Value → Bool
compares equal (number a) (number b) = a == b
compares at_least (number a) (number b) = leb b a
compares at_most (number a) (number b) = leb a b
compares below (number a) (number b) = ltb a b
compares equal (text a) (text b) = text_eq a b
compares equal (time a) (time b) = a == b
compares at_least (time a) (time b) = leb b a
compares at_most (time a) (time b) = leb a b
compares below (time a) (time b) = ltb a b
compares _ _ _ = false

-- The row meets the condition with these arguments for the placeholders.
abbrev pub meets : Condition → List Value → StoredTrafficRecord → Bool
meets [] _ row = true
meets ((c, t) ∷ ds) [] row = false
meets ((c, t) ∷ ds) (v ∷ vs) row = compares t (field c row) v && meets ds vs row

abbrev pub chosen : Condition → List Value → List StoredTrafficRecord → List StoredTrafficRecord
chosen c args rows = keep (λ row. meets c args row) rows

abbrev pub rest_of : Condition → List Value → List StoredTrafficRecord → List StoredTrafficRecord
rest_of c args rows = keep (λ row. not (meets c args row)) rows

-- The arguments as the database takes them, where `taken` is what it takes a time for.
abbrev pub as_taken : (Time → Time) → Value → Value
as_taken taken (time t) = time (taken t)
as_taken taken v = v

abbrev pub all_taken : (Time → Time) → List Value → List Value
all_taken taken args = map (as_taken taken) args

-- A row as a query for records shows it.
abbrev pub shown : TrafficRecord → List Value
shown r =
    number r.vmid
    ∷ time r.timestamp
    ∷ number r.rx_bytes
    ∷ number r.tx_bytes
    ∷ number r.total_bytes
    ∷ []

-- A statement fails and leaves the table, or the table is the new one and the number is that of the
-- rows affected.
abbrev pub Did :
    {W : Type 0}
    → (W → List StoredTrafficRecord)
    → W
    → List StoredTrafficRecord
    → ℕ
    → Outcome × W
    → Type 0
Did table w new n (failed, v) = table v ≡ table w
Did table w new n (done k, v) = (table v ≡ new) × (k ≡ some n)

abbrev pub Counts : ℕ → Answer → Type 0
Counts n none = Unit
Counts n (some ([], fails)) = fails ≡ true
Counts n (some (row ∷ rows, fails)) = row ≡ number n ∷ []

abbrev pub Shows : List StoredTrafficRecord → Answer → Type 0
Shows rows none = Unit
Shows rows (some (answer, true)) = Unit
Shows rows (some (answer, false)) =
    (rs : List TrafficRecord) × (answer ≡ map shown rs)
    × SameRecords rs (map traffic_record rows)
    × IsOrdered rs

-- The arguments for the placeholders of a condition that is not empty: a number for an identifier, a
-- time for a time, and a text for a name, which is only compared for equality.
abbrev pub Fits : Condition → List Value → Type 0
Fits [] [] = Unit
Fits ((vmid, t) ∷ ds) (number n ∷ vs) = Fits ds vs
Fits ((network_interface, equal) ∷ ds) (text s ∷ vs) = Fits ds vs
Fits ((timestamp, t) ∷ ds) (time u ∷ vs) = Fits ds vs
Fits _ _ = ⊥

abbrev pub IsStatement : Condition → List Value → Type 0
IsStatement [] args = ⊥
IsStatement (d ∷ ds) args = Fits (d ∷ ds) args

-- The statements' documented effects on the rows of the table, those of the latest insert first, for
-- conditions that are not empty and have arguments of their columns' types.
-- `kept` is what the column of type TIMESTAMP keeps of a time: MySQL rounds to seconds and PostgreSQL
-- to microseconds. `taken` is the same for a time among the arguments of a condition, which the driver
-- or the database may round as well. Texts are compared byte by byte.
pub record IsSql {W : Type 0} (numbered : Bool) (e : Engine W) : Type 0 where
  pub table : W → List StoredTrafficRecord
  pub kept : Time → Time
  pub taken : Time → Time
  pub inserts :
      (vmid : ℕ) (network_interface : Text) (t : Time) (rx tx total : ℕ) (w : W)
      → Did table w
          (record {
            vmid = vmid;
            network_interface = network_interface;
            timestamp = kept t;
            rx_bytes = rx;
            tx_bytes = tx;
            total_bytes = total;
          }
            ∷ table w)
          1
          (e.exec
            (insert_text numbered)
            (number vmid
              ∷ text network_interface
              ∷ time t
              ∷ number rx
              ∷ number tx
              ∷ number total
              ∷ [])
            w)
  pub deletes :
      (c : Condition) (args : List Value) (w : W)
      → IsStatement c args
      → Did table w
          (rest_of c (all_taken taken args) (table w))
          (length (chosen c (all_taken taken args) (table w)))
          (e.exec (delete_text numbered c) args w)
  pub counts :
      (c : Condition) (args : List Value) (w : W)
      → IsStatement c args
      → Counts
          (length (chosen c (all_taken taken args) (table w)))
          (e.query (count_text numbered c) args w)
  pub selects :
      (c : Condition) (args : List Value) (w : W)
      → IsStatement c args
      → Shows (chosen c (all_taken taken args) (table w)) (e.query (select_text numbered c) args w)
