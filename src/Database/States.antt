-- ===== src/Database/States.antt =====
-- The states of VMs in the database, SaveVMState and LoadVMState of pkg/storage/database.go. The
-- encoding of a state as JSON is a parameter.
use pve_traffic_monitor.Base.{
  ℕ, ◌≡◌, refl, sym, subst, ap, ◌∙◌, inl, inr, Bool, true, false, List, [], ◌∷◌, Option, none, some,
  ◌==◌, ==_iff, Bool-cases, arith, if◌then◌else◌,
}
use pve_traffic_monitor.Base.Maps.{
  lookup, put_key, nat_Eq, lookup-put_key_self, lookup-put_key_other,
}
use pve_traffic_monitor.Base.Text.{Text, codes}
use pve_traffic_monitor.Clock.{Time}
use pve_traffic_monitor.Database.Sql.{
  Driver, mysql, postgres, sqlite3, Value, number, time, text, Outcome, failed, done, Answer,
  Engine,
}
use pve_traffic_monitor.Database.Records.{is_done, text_for}
use pve_traffic_monitor.Database.Refines.{IsAnswered}

-- encoding/json on states, and the state that is empty.
pub record Json (S : Type 0) : Type 0 where
  pub marshal : S → Option Text
  pub unmarshal : Text → Option S
  pub empty : S

abbrev pub on_duplicate_query : Text
on_duplicate_query =
    codes
      "INSERT INTO vm_states (vmid, state_data, updated_at) \n\t\t\t  VALUES (?, ?, ?) \n\t\t\t  ON DUPLICATE KEY UPDATE state_data = ?, updated_at = ?"

abbrev pub on_conflict_query : Text
on_conflict_query =
    codes
      "INSERT INTO vm_states (vmid, state_data, updated_at) \n\t\t\t\t VALUES ($1, $2, $3)\n\t\t\t\t ON CONFLICT (vmid) DO UPDATE \n\t\t\t\t SET state_data = $4, updated_at = $5"

abbrev pub replace_query : Text
replace_query =
    codes
      "INSERT OR REPLACE INTO vm_states (vmid, state_data, updated_at) \n\t\t\t\t VALUES (?, ?, ?)"

abbrev pub save_query : Driver → Text
save_query mysql = on_duplicate_query
save_query postgres = on_conflict_query
save_query sqlite3 = replace_query
save_query (Driver.other s) = on_duplicate_query

abbrev pub save_args : Driver → ℕ → Text → Time → List Value
save_args sqlite3 vmid json_text now = number vmid ∷ text json_text ∷ time now ∷ []
save_args _ vmid json_text now =
    number vmid ∷ text json_text ∷ time now ∷ text json_text ∷ time now ∷ []

abbrev pub load_query : Driver → Text
load_query driver =
    text_for driver (codes "SELECT state_data FROM vm_states WHERE vmid = $1")
      (codes "SELECT state_data FROM vm_states WHERE vmid = ?")

module _ {S : Type 0} (json : Json S) where
  -- QueryRow and Scan: no row is the empty state, and any other error is `none`.
  unfoldable pub state_answered : Answer → Option S
  state_answered (some ([], false)) = some json.empty
  state_answered (some ((text json_text ∷ []) ∷ rows, fails)) = json.unmarshal json_text
  state_answered _ = none

module _ {S W : Type 0} (json : Json S) (e : Engine W) (driver : Driver) where
  abbrev pub save_marshalled : Time → ℕ → Option Text → W → Bool × W
  save_marshalled now vmid none w = (false, w)
  save_marshalled now vmid (some json_text) w =
      let step = e.exec (save_query driver) (save_args driver vmid json_text now) w in
      (is_done step.0, step.1)

  -- `true` stands for a call without an error.
  unfoldable pub save_vm_state : Time → ℕ → S → W → Bool × W
  save_vm_state now vmid state w = save_marshalled now vmid (json.marshal state) w

  unfoldable pub load_vm_state : ℕ → W → Option S
  load_vm_state vmid w = state_answered json (e.query (load_query driver) (number vmid ∷ []) w)

-- What the engine answers to the query of a state.
abbrev pub state_answer : {W : Type 0} → Engine W → Driver → ℕ → W → Answer
state_answer e driver vmid w = e.query (load_query driver) (number vmid ∷ []) w

abbrev pub StateTable : Type 0
StateTable = List (ℕ × Text)

abbrev pub DidSave : {W : Type 0} → (W → StateTable) → W → StateTable → Outcome × W → Type 0
DidSave table w new (failed, v) = table v ≡ table w
DidSave table w new (done k, v) = table v ≡ new

-- What an insert with an update leaves under the key: the data of the update where the key is there.
abbrev pub updated : Text → Text → Option Text → Text
updated json_text json_text' none = json_text
updated json_text json_text' (some old) = json_text'

-- The documented effects of the three statements, each for its driver.
abbrev pub Upserts : {W : Type 0} → Driver → Engine W → (W → StateTable) → Type 0
Upserts sqlite3 e table =
    (vmid : ℕ) (json_text : Text) (t : Time) (w : _)
    → DidSave table w (put_key vmid json_text (table w))
        (e.exec replace_query (number vmid ∷ text json_text ∷ time t ∷ []) w)
Upserts mysql e table =
    (vmid : ℕ) (json_text json_text' : Text) (t t' : Time) (w : _)
    → DidSave table w
        (put_key vmid (updated json_text json_text' (lookup vmid (table w))) (table w))
        (e.exec on_duplicate_query
          (number vmid ∷ text json_text ∷ time t ∷ text json_text' ∷ time t' ∷ []) w)
Upserts postgres e table =
    (vmid : ℕ) (json_text json_text' : Text) (t t' : Time) (w : _)
    → DidSave table w
        (put_key vmid (updated json_text json_text' (lookup vmid (table w))) (table w))
        (e.exec on_conflict_query
          (number vmid ∷ text json_text ∷ time t ∷ text json_text' ∷ time t' ∷ []) w)
Upserts (Driver.other s) e table = ⊥

abbrev pub ShowsState : Option Text → Answer → Type 0
ShowsState o none = Unit
ShowsState o (some ([], true)) = Unit
ShowsState o (some ([], false)) = o ≡ none
ShowsState o (some (row ∷ rows, fails)) =
    (json_text : Text) × (o ≡ some json_text) × (row ≡ text json_text ∷ [])

pub record IsStateSql {W : Type 0} (driver : Driver) (e : Engine W) : Type 0 where
  pub table : W → StateTable
  pub upserts : Upserts driver e table
  pub reads :
      (vmid : ℕ) (w : W)
      → ShowsState (lookup vmid (table w)) (e.query (load_query driver) (number vmid ∷ []) w)

updated-same : (json_text : Text) (o : Option Text) → updated json_text json_text o ≡ json_text
updated-same json_text none = refl
updated-same json_text (some old) = refl

DidSave-done :
    {W : Type 0} (table : W → StateTable) (w : W) (new : StateTable) (o : Outcome × W)
    → is_done o.0 ≡ true
    → DidSave table w new o
    → table o.1 ≡ new
DidSave-done table w new (failed, v) h d = cc h
DidSave-done table w new (done k, v) h d = d

module _ {S W : Type 0} (json : Json S) (e : Engine W) where
  upserted :
      (driver : Driver) (sql : IsStateSql driver e) (now : Time) (vmid : ℕ) (json_text : Text)
      (w : W)
      → is_done (e.exec (save_query driver) (save_args driver vmid json_text now) w).0 ≡ true
      → sql.table (e.exec (save_query driver) (save_args driver vmid json_text now) w).1
        ≡ put_key vmid json_text (sql.table w)
  upserted sqlite3 sql now vmid json_text w h =
      DidSave-done sql.table w _ _ h (sql.upserts vmid json_text now w)
  upserted mysql sql now vmid json_text w h =
      DidSave-done sql.table w _ _ h (sql.upserts vmid json_text json_text now now w)
      ∙ ap (λ d. put_key vmid d (sql.table w)) (updated-same json_text _)
  upserted postgres sql now vmid json_text w h =
      DidSave-done sql.table w _ _ h (sql.upserts vmid json_text json_text now now w)
      ∙ ap (λ d. put_key vmid d (sql.table w)) (updated-same json_text _)
  upserted (Driver.other s) sql now vmid json_text w h = elim sql.upserts [ ]

abbrev pub load_of : {S : Type 0} → Json S → Option Text → Option S
load_of json none = some json.empty
load_of json (some json_text) = json.unmarshal json_text

state_answered-ShowsState :
    {S : Type 0} (json : Json S) (o : Option Text) (answer : Answer)
    → IsAnswered answer
    → ShowsState o answer
    → state_answered json answer ≡ load_of json o
unfolding state_answered
state_answered-ShowsState json o none a h = elim a [ ]
state_answered-ShowsState json o (some (rows, true)) a h = elim a [ ]
state_answered-ShowsState json o (some ([], false)) a h = ap (load_of json) (sym h)
state_answered-ShowsState json o (some (row ∷ rows, false)) a (json_text, same, shown) =
    ap (λ r. state_answered json (some (r ∷ rows, false))) shown ∙ ap (load_of json) (sym same)

module _ {S W : Type 0} (json : Json S) (e : Engine W) (driver : Driver)
    (sql : IsStateSql driver e) where
  load_vm_state-load_of :
      (vmid : ℕ) (w : W)
      → IsAnswered (state_answer e driver vmid w)
      → load_vm_state json e driver vmid w ≡ load_of json (lookup vmid (sql.table w))
  unfolding load_vm_state
  load_vm_state-load_of vmid w answered =
      state_answered-ShowsState json (lookup vmid (sql.table w)) _ answered (sql.reads vmid w)

  load_put :
      (vmid other : ℕ) (json_text : Text) (m : StateTable)
      → load_of json (lookup other (put_key vmid json_text m))
        ≡ (if other == vmid then json.unmarshal json_text else load_of json (lookup other m))
  load_put vmid other json_text m = elim (Bool-cases (other == vmid)) [
    | inl e ↦
        let same : other ≡ vmid = (==_iff other vmid).0 e in
        rw e (
          ap (load_of json) (
            ap (λ v. lookup v (put_key vmid json_text m)) same
            ∙ lookup-put_key_self vmid json_text m))
    | inr e ↦
        rw e (ap (load_of json) (lookup-put_key_other other vmid json_text m (ground (arith))))
  ]

  -- After a save without an error, by each of the three drivers and whether the VM had a state before,
  -- loading the VM's state gives what its JSON is decoded to, and loading another VM's gives the same
  -- as before, where the engine answers the query of the state without an error before and after.
  pub load_vm_state-save_vm_state :
      (now : Time) (vmid other : ℕ) (state : S) (json_text : Text) (w : W)
      → json.marshal state ≡ some json_text
      → (save_vm_state json e driver now vmid state w).0 ≡ true
      → IsAnswered (state_answer e driver other w)
      → IsAnswered (state_answer e driver other (save_vm_state json e driver now vmid state w).1)
      → load_vm_state json e driver other (save_vm_state json e driver now vmid state w).1
        ≡ (if other == vmid then json.unmarshal json_text else load_vm_state json e driver other w)
  unfolding save_vm_state
  load_vm_state-save_vm_state now vmid other state json_text w m saved before after =
      let done : is_done (e.exec (save_query driver) (save_args driver vmid json_text now) w).0
          ≡ true =
        subst (λ t. (save_marshalled json e driver now vmid t w).0 ≡ true) m saved in
      let w' = (e.exec (save_query driver) (save_args driver vmid json_text now) w).1 in
      rw m (
        load_vm_state-load_of other w' (
          subst
            (λ t.
              IsAnswered
                (state_answer e driver other (save_marshalled json e driver now vmid t w).1))
            m after)
        ∙ ap (λ t. load_of json (lookup other t))
            (upserted json e driver sql now vmid json_text w done)
        ∙ load_put vmid other json_text (sql.table w)
        ∙ ap (λ o. if other == vmid then json.unmarshal json_text else o)
            (sym (load_vm_state-load_of other w before)))
