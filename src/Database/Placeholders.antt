-- ===== src/Database/Placeholders.antt =====
-- The numbering of placeholders for PostgreSQL.
use pve_traffic_monitor.Base.{
  ℕ, zero, suc, ◌+◌, ◌-◌, ◌≡◌, refl, sym, ap, ◌∙◌, inl, inr, Bool, true, false, [], ◌∷◌, ◌++◌, ◌==◌,
  Bool-cases, arith, if◌then◌else◌,
}
use pve_traffic_monitor.Base.Text.{Text, has_prefix}
use pve_traffic_monitor.Database.{
  dollar, question_mark, replace_nth_occurrence, replace_all, build_query,
}

-- The question marks of a text numbered from the left, from k on, and n of them at most.
unfoldable pub numbered : ℕ → ℕ → Text → Text
numbered k n [] = []
numbered k zero (c ∷ s) = c ∷ s
numbered k (suc n) (c ∷ s) =
    let next = dollar k ++ numbered (suc k) n s in
    let same = c ∷ numbered k (suc n) s in if c == b'?' then next else same

numbered-zero : (k : ℕ) (s : Text) → numbered k 0 s ≡ s
unfolding numbered
numbered-zero k [] = refl
numbered-zero k (c ∷ s) = refl

numbered_nil : (k n : ℕ) → numbered k n [] ≡ []
unfolding numbered
numbered_nil k zero = refl
numbered_nil k (suc n) = refl

starts : (c : ℕ) (s : Text) → has_prefix (c ∷ s) question_mark ≡ (c == b'?')
unfolding has_prefix
starts c s = ground arith

numbered_other :
    (k n c : ℕ) (s : Text) → (c == b'?') ≡ false → numbered k n (c ∷ s) ≡ c ∷ numbered k n s
unfolding numbered
numbered_other k zero c s h = ap (λ t. c ∷ t) (sym (numbered-zero k s))
numbered_other k (suc n) c s h = rw h refl

numbered_mark :
    (k n c : ℕ) (s : Text)
    → (c == b'?') ≡ true
    → numbered k (suc n) (c ∷ s) ≡ dollar k ++ numbered (suc k) n s
unfolding numbered
numbered_mark k n c s h = rw h refl

-- At a mark: it is the last, or it stays and the rest is numbered from the next number on.
at_mark :
    (k n c : ℕ) (s : Text)
    → (c == b'?') ≡ true
    → ((j m : ℕ)
        → numbered j m (replace_nth_occurrence question_mark (dollar (j + m)) (suc m) s)
          ≡ numbered j (suc m) s)
    → numbered k n (
        if suc n == 1
        then dollar (k + n) ++ s
        else c ∷ replace_nth_occurrence question_mark (dollar (k + n)) (suc n - 1) s)
      ≡ numbered k (suc n) (c ∷ s)
at_mark k zero c s e rest =
    numbered-zero k (dollar (k + 0) ++ s)
    ∙ ap (λ j. dollar j ++ s) (omega arith)
    ∙ ap (λ t. dollar k ++ t) (sym (numbered-zero (suc k) s))
    ∙ sym (numbered_mark k 0 c s e)
at_mark k (suc n) c s e rest =
    let more : (suc (suc n) == 1) ≡ false = ground arith in
    let shifted : k + suc n ≡ suc k + n = omega arith in
    rw more (
      ap
        (λ j.
          numbered k (suc n) (c ∷ replace_nth_occurrence question_mark (dollar (k + suc n)) j s))
        (omega arith)
      ∙ numbered_mark k n c _ e
      ∙ ap (λ t. dollar k ++ t)
          (ap (λ j. numbered (suc k) n (replace_nth_occurrence question_mark (dollar j) (suc n) s))
              shifted
            ∙ rest (suc k) n)
      ∙ sym (numbered_mark k (suc n) c s e))

-- The last mark that is to be numbered can be replaced first.
numbered-replace_nth_occurrence :
    (s : Text) (k n : ℕ)
    → numbered k n (replace_nth_occurrence question_mark (dollar (k + n)) (suc n) s)
      ≡ numbered k (suc n) s
unfolding replace_nth_occurrence
numbered-replace_nth_occurrence [] k n = numbered_nil k n ∙ sym (numbered_nil k (suc n))
numbered-replace_nth_occurrence (c ∷ s) k n = elim (Bool-cases (c == b'?')) [
  | inr e ↦ rw (starts c s ∙ e) (
      numbered_other k n c _ e
      ∙ ap (λ t. c ∷ t) (numbered-replace_nth_occurrence s k n)
      ∙ sym (numbered_other k (suc n) c s e))
  | inl e ↦ rw (starts c s ∙ e) (at_mark k n c s e (numbered-replace_nth_occurrence s))
]

numbered-replace_all : (n : ℕ) (s : Text) → replace_all n s ≡ numbered 1 n s
unfolding replace_all
numbered-replace_all zero s = sym (numbered-zero 1 s)
numbered-replace_all (suc n) s =
    numbered-replace_all n _
    ∙ ap (λ j. numbered 1 n (replace_nth_occurrence question_mark (dollar j) (suc n) s))
        (omega arith)
    ∙ numbered-replace_nth_occurrence s 1 n

-- The loop that replaces the last placeholder first numbers the question marks of a query from the
-- left, $1, $2 and so on, as many as there are arguments, and leaves the rest of the text; for a
-- database other than PostgreSQL the query stays.
pub build_query-numbered :
    (is_postgres : Bool) (query : Text) (arg_count : ℕ)
    → build_query is_postgres query arg_count
      ≡ (if is_postgres then numbered 1 arg_count query else query)
unfolding build_query
build_query-numbered true query arg_count = numbered-replace_all arg_count query
build_query-numbered false query arg_count = refl
