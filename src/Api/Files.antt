-- ===== src/Api/Files.antt =====
-- The files that the server gives out, the handler of "/" in setupRoutes of pkg/api/server.go, and the
-- handler of CORS. filepath.Clean, filepath.Join with the directory, filepath.Abs and os.Stat are
-- parameters.
use pve_traffic_monitor.Base.{
  ◌≡◌, ◌≢◌, ◌==◌, ◌⊎◌, ◌∙◌, ap, subst, List, [], ◌∷◌, All, refl, inl, inr, Bool, true, false, ◌&&◌,
  ◌||◌, ◌++◌, Option, none, some, length, leb, Bool-cases, arith, if◌then◌else◌,
}
use pve_traffic_monitor.Base.Text.{Text, codes, text_eq, text_eq_iff, has_prefix, split, push_front}

-- `stat` is the file's information where there is a file, and whether it is a directory.
pub record Paths : Type 0 where
  pub clean : Text → Text
  pub join : Text → Text → Text
  pub abs : Text → Option Text
  pub stat : Text → Option Bool

pub data Served : Type 0 where
  not_found : Served
  file : Text → Served

abbrev pub index_html : Text
index_html = codes "index.html"

abbrev pub slash : Text
slash = codes "/"

abbrev pub is_api_path : Text → Bool
is_api_path path = leb 5 (length path) && has_prefix path (codes "/api/")

-- The path is the directory, or starts with it and a separator.
abbrev pub is_within : Text → Text → Bool
is_within dir path = has_prefix path (dir ++ slash) || text_eq path dir

-- No element of the path is "..".
abbrev pub HasNoParent : Text → Type 0
HasNoParent path = All (λ element. element ≢ codes "..") (split b'/' path)

-- The path goes on after the directory, and never leaves it again.
abbrev pub StandsIn : Text → Text → Type 0
StandsIn dir path = (rest : Text) × (path ≡ dir ++ (b'/' ∷ rest)) × HasNoParent rest

has_prefix-rest :
    (dir path : Text)
    → has_prefix path (dir ++ slash) ≡ true
    → (rest : Text) × (path ≡ dir ++ (b'/' ∷ rest))
unfolding has_prefix
has_prefix-rest [] [] h = cc h
has_prefix-rest [] (c ∷ path) h = (path, ap (λ d. d ∷ path) (ground arith))
has_prefix-rest (d ∷ dir) [] h = cc h
has_prefix-rest (d ∷ dir) (c ∷ path) h =
    let (rest, same) = has_prefix-rest dir path (ground arith) in
    (rest, ap (λ e. e ∷ path) (ground arith) ∙ ap (λ t. d ∷ t) same)

-- The elements of what follows a separator are elements of the whole.
split-after :
    (dir rest : Text)
    → (q : Text) × (qs : List Text) × (split b'/' (dir ++ (b'/' ∷ rest))
        ≡ q ∷ (qs ++ split b'/' rest))
unfolding split push_front
split-after [] rest = ([], [], refl)
split-after (c ∷ dir) rest =
    let (q, qs, same) = split-after dir rest in
    elim (Bool-cases (c == b'/')) [
      | inl e ↦ ([], q ∷ qs, rw e (ap (λ parts. [] ∷ parts) same))
      | inr e ↦ (c ∷ q, qs, rw e (ap (push_front c) same))
    ]

All-after : (P : Text → Type 0) (qs rs : List Text) → All P (qs ++ rs) → All P rs
All-after P [] rs h = h
All-after P (q ∷ qs) rs h = All-after P qs rs h.1

has_prefix-StandsIn :
    (dir path : Text) → has_prefix path (dir ++ slash) ≡ true → HasNoParent path → StandsIn dir path
has_prefix-StandsIn dir path h clean =
    let (rest, same) = has_prefix-rest dir path h in
    let (q, qs, parts) = split-after dir rest in
    let all : All (λ e. e ≢ codes "..") (q ∷ (qs ++ split b'/' rest)) =
      subst (All (λ e. e ≢ codes "..")) (ap (split b'/') same ∙ parts) clean in
    (rest, same, All-after _ qs (split b'/' rest) all.1)

module _ (paths : Paths) (web_dir : Text) where
  abbrev pub with_stat : Text → Option Bool → Served
  with_stat path none = file (paths.join web_dir index_html)
  with_stat path (some true) = file (paths.join web_dir index_html)
  with_stat path (some false) = file path

  abbrev pub with_abs : Option Text → Served
  with_abs none = not_found
  with_abs (some path) =
      if is_within web_dir path then with_stat path (paths.stat path) else not_found

  unfoldable pub serve_file : Text → Served
  serve_file url_path =
      let cleaned = paths.clean url_path in
      let served = with_abs (paths.abs (paths.join web_dir cleaned)) in
      if is_api_path url_path
      then not_found
      else if has_prefix cleaned (codes "..")
      then not_found
      else served

  -- Where a file may stand that is given out.
  abbrev pub IsSafe : Served → Type 0
  IsSafe not_found = Unit
  IsSafe (file path) =
      (path ≡ paths.join web_dir index_html) ⊎ ((path ≡ web_dir) ⊎ StandsIn web_dir path)

  with_stat-IsSafe :
      (path : Text) (o : Option Bool)
      → is_within web_dir path ≡ true
      → HasNoParent path
      → IsSafe (with_stat path o)
  with_stat-IsSafe path none h clean = inl refl
  with_stat-IsSafe path (some true) h clean = inl refl
  with_stat-IsSafe path (some false) h clean =
      elim (Bool-cases (has_prefix path (web_dir ++ slash))) [
        | inl e ↦ inr (inr (has_prefix-StandsIn web_dir path e clean))
        | inr e ↦ inr (inl ((text_eq_iff path web_dir).0 (ground (arith, h, e))))
      ]

  with_abs-IsSafe :
      (o : Option Text) → ((path : Text) → o ≡ some path → HasNoParent path) → IsSafe (with_abs o)
  with_abs-IsSafe none clean = tt
  with_abs-IsSafe (some path) clean = elim (Bool-cases (is_within web_dir path)) [
    | inl e ↦ rw e (with_stat-IsSafe path (paths.stat path) e (clean path refl))
    | inr e ↦ rw e tt
  ]

  -- Where an absolute path has no element "..", since filepath.Abs cleans its result: whatever path is
  -- asked for and however it is cleaned and joined, a file that is given out is the index page, the
  -- directory of the web pages, or has a path that goes on after this directory without an element "..",
  -- so that it stands in it.
  pub serve_file-IsSafe :
      (url_path : Text)
      → ((p path : Text) → paths.abs p ≡ some path → HasNoParent path)
      → IsSafe (serve_file url_path)
  unfolding serve_file
  serve_file-IsSafe url_path clean = elim (Bool-cases (is_api_path url_path)) [
    | inl e ↦ rw e tt
    | inr e ↦ rw e (elim (Bool-cases (has_prefix (paths.clean url_path) (codes ".."))) [
      | inl f ↦ rw f tt
      | inr f ↦ rw f (with_abs-IsSafe _ (clean _))
    ])
  ]
