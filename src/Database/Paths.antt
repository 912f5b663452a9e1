-- ===== src/Database/Paths.antt =====
-- sqliteDatabasePath and ensureSQLiteDatabaseDir of pkg/storage/database.go. filepath.Dir and
-- os.MkdirAll are parameters.
use pve_traffic_monitor.Base.{
  ℕ, zero, suc, ◌+◌, ◌≡◌, refl, inl, inr, Bool, true, false, ◌||◌, [], ◌∷◌, any, Option, none, some,
  ◌==◌, Bool-cases, if◌then◌else◌,
}
use pve_traffic_monitor.Base.Text.{
  Text, codes, text_eq, has_prefix, trim_prefix, trim_space, to_lower,
}
use pve_traffic_monitor.Database.{drop_bytes}

abbrev pub next : Option ℕ → Option ℕ
next none = none
next (some n) = some (suc n)

-- strings.Index of a byte, or `none` for -1.
unfoldable pub index_of : ℕ → Text → Option ℕ
index_of b [] = none
index_of b (c ∷ s) = let later = next (index_of b s) in if c == b then some 0 else later

-- strings.Contains
unfoldable pub contains : Text → Text → Bool
contains [] p = has_prefix [] p
contains (c ∷ s) p = has_prefix (c ∷ s) p || contains s p

-- s[:n]
unfoldable pub take_bytes : ℕ → Text → Text
take_bytes n [] = []
take_bytes zero (c ∷ s) = []
take_bytes (suc n) (c ∷ s) = c ∷ take_bytes n s

abbrev pub question : ℕ
question = b'?'

-- What stands before the question mark at a place, if there is one.
abbrev pub cut_at : Option ℕ → Text → Text
cut_at none s = s
cut_at (some i) s = take_bytes i s

abbrev pub asks_memory : Option ℕ → Text → Bool
asks_memory none s = false
asks_memory (some i) s = contains (to_lower (drop_bytes (i + 1) s)) (codes "mode=memory")

abbrev pub file_path_of : Text → Text
file_path_of path_part =
    let at = index_of question path_part in
    let path = cut_at at path_part in
    if asks_memory at path_part
    then []
    else if text_eq path [] || text_eq path (codes ":memory:")
    then []
    else path

unfoldable pub sqlite_database_path : Text → Text
sqlite_database_path dsn =
    let s = trim_space dsn in
    if text_eq s [] || text_eq s (codes ":memory:") || has_prefix s (codes "file::memory:")
    then []
    else if has_prefix s (codes "file:")
    then file_path_of (trim_prefix s (codes "file:"))
    else cut_at (index_of question s) s

-- `mkdir_all` answers whether the call has no error.
unfoldable pub ensure_sqlite_database_dir : (Text → Text) → (Text → Bool) → Text → Bool
ensure_sqlite_database_dir dir_of mkdir_all dsn =
    let path = sqlite_database_path dsn in
    let dir = dir_of path in
    if text_eq path []
    then true
    else if text_eq dir (codes ".") || text_eq dir []
    then true
    else mkdir_all dir

abbrev pub has_byte : ℕ → Text → Bool
has_byte b s = any (λ c. c == b) s

cut_at-next : (o : Option ℕ) (c : ℕ) (s : Text) → cut_at (next o) (c ∷ s) ≡ c ∷ cut_at o s
unfolding take_bytes
cut_at-next none c s = refl
cut_at-next (some n) c s = refl

has_byte-cut_at : (b : ℕ) (s : Text) → has_byte b (cut_at (index_of b s) s) ≡ false
unfolding index_of take_bytes
has_byte-cut_at b [] = refl
has_byte-cut_at b (c ∷ s) = elim (Bool-cases (c == b)) [
  | inl e ↦ rw e refl
  | inr e ↦ rw e (rw (cut_at-next (index_of b s) c s) (rw e (has_byte-cut_at b s)))
]

has_byte-file_path_of : (s : Text) → has_byte question (file_path_of s) ≡ false
has_byte-file_path_of s = elim (Bool-cases (asks_memory (index_of question s) s)) [
  | inl e ↦ rw e refl
  | inr e ↦
      rw e
        (elim (Bool-cases (
          text_eq (cut_at (index_of question s) s) []
          || text_eq (cut_at (index_of question s) s) (codes ":memory:"))) [
            | inl f ↦ rw f refl
            | inr f ↦ rw f (has_byte-cut_at question s)
          ])
]

-- The path of a SQLite database has no question mark: what follows it are options of the connection,
-- in both forms of the name.
pub has_byte-sqlite_database_path :
    (dsn : Text) → has_byte question (sqlite_database_path dsn) ≡ false
unfolding sqlite_database_path
has_byte-sqlite_database_path dsn =
    let s = trim_space dsn in
    elim (Bool-cases
      (text_eq s [] || text_eq s (codes ":memory:") || has_prefix s (codes "file::memory:"))) [
        | inl e ↦ rw e refl
        | inr e ↦ rw e (elim (Bool-cases (has_prefix s (codes "file:"))) [
          | inl f ↦ rw f (has_byte-file_path_of (trim_prefix s (codes "file:")))
          | inr f ↦ rw f (has_byte-cut_at question s)
        ])
      ]
