-- ===== src/Base/Maps.antt =====
-- Go's maps, as lists of keys with values: a map has each key at most once.
use Prim.Native.Nat.{ℕ}
use mathlib.Core.Path.{◌≡◌, refl, sym, ap, ◌∙◌}
use mathlib.Core.Logic.{◌≢◌, ◌↔◌, inl, inr}
use mathlib.Core.Bool.{Bool, true, false, not}
use mathlib.Core.Option.{Option, none, some}
use mathlib.Core.List.{List, [], ◌∷◌}
use native.Mathlib.Omega.{arith}
use pve_traffic_monitor.Base.Tests.{◌==◌, ==_iff, if◌then◌else◌, Bool-cases}
use pve_traffic_monitor.Base.Lists.{keep}
use pve_traffic_monitor.Base.Text.{Text, text_eq, text_eq_iff}

-- The keys' `==`.
pub record Eq {ℓ} (K : Type ℓ) : Type ℓ where
  pub same : K → K → Bool
  pub same_iff : (a b : K) → (same a b ≡ true) ↔ (a ≡ b)

instance abbrev pub text_Eq : Eq Text
text_Eq = record { same = text_eq; same_iff = text_eq_iff }

instance abbrev pub nat_Eq : Eq ℕ
nat_Eq = record { same = ◌==◌; same_iff = ==_iff }

module _ {ℓ} {K : Type ℓ} ⦃e : Eq K⦄ where
  pub same_refl : (a : K) → e.same a a ≡ true
  same_refl a = (e.same_iff a a).1 refl

  pub same_apart : (a b : K) → a ≢ b → e.same a b ≡ false
  same_apart a b h = ground (arith, e.same_iff a b)

abbrev pub keep_option {κ} : {V : Type κ} → (V → Bool) → Option V → Option V
keep_option p none = none
keep_option p (some v) = if p v then some v else none

module _ {ℓ κ} {K : Type ℓ} {V : Type κ} ⦃e : Eq K⦄ where
  -- m[key]
  unfoldable pub lookup : K → List (K × V) → Option V
  lookup key [] = none
  lookup key ((k, v) ∷ rest) = if e.same k key then some v else lookup key rest

  -- The entries whose keys pass.
  unfoldable pub keep_keys : (K → Bool) → List (K × V) → List (K × V)
  keep_keys p [] = []
  keep_keys p ((k, v) ∷ rest) = if p k then (k, v) ∷ keep_keys p rest else keep_keys p rest

  -- delete(m, key)
  unfoldable pub delete_key : K → List (K × V) → List (K × V)
  delete_key key m = keep_keys (λ k. not (e.same k key)) m

  -- m[key] = value
  unfoldable pub put_key : K → V → List (K × V) → List (K × V)
  put_key key value m = (key, value) ∷ delete_key key m

  pub lookup-keep_keys_in :
      (p : K → Bool) (key : K) (m : List (K × V))
      → p key ≡ true
      → lookup key (keep_keys p m) ≡ lookup key m
  unfolding lookup keep_keys
  lookup-keep_keys_in p key [] h = refl
  lookup-keep_keys_in p key ((k, v) ∷ m) h = elim (Bool-cases (e.same k key)) [
    | inl q ↦ rw (ap p ((e.same_iff k key).0 q) ∙ h, q) refl
    | inr q ↦ ground (arith, lookup-keep_keys_in p key m h)
  ]

  pub lookup-keep_keys_out :
      (p : K → Bool) (key : K) (m : List (K × V))
      → p key ≡ false
      → lookup key (keep_keys p m) ≡ none
  unfolding lookup keep_keys
  lookup-keep_keys_out p key [] h = refl
  lookup-keep_keys_out p key ((k, v) ∷ m) h = elim (Bool-cases (e.same k key)) [
    | inl q ↦ rw (ap p ((e.same_iff k key).0 q) ∙ h) (lookup-keep_keys_out p key m h)
    | inr q ↦ ground (arith, lookup-keep_keys_out p key m h)
  ]

  pub lookup-put_key_self :
      (key : K) (value : V) (m : List (K × V)) → lookup key (put_key key value m) ≡ some value
  unfolding lookup put_key
  lookup-put_key_self key value m = rw (same_refl key) refl

  pub lookup-put_key_other :
      (key k : K) (value : V) (m : List (K × V))
      → k ≢ key
      → lookup key (put_key k value m) ≡ lookup key m
  unfolding lookup put_key delete_key
  lookup-put_key_other key k value m h =
      rw (same_apart k key h)
        (lookup-keep_keys_in _ key m (ground (arith, same_apart key k (λ q. h (sym q)))))

  pub lookup-delete_key_self : (key : K) (m : List (K × V)) → lookup key (delete_key key m) ≡ none
  unfolding delete_key
  lookup-delete_key_self key m = lookup-keep_keys_out _ key m (ground (arith, same_refl key))

  pub lookup-delete_key_other :
      (key k : K) (m : List (K × V)) → k ≢ key → lookup key (delete_key k m) ≡ lookup key m
  unfolding delete_key
  lookup-delete_key_other key k m h =
      lookup-keep_keys_in _ key m (ground (arith, same_apart key k (λ q. h (sym q))))

  -- Each key occurs once.
  abbrev pub IsMap : List (K × V) → Type κ
  IsMap [] = Unit
  IsMap ((k, v) ∷ rest) = (lookup k rest ≡ none) × IsMap rest

  keep-absent :
      (p : V → Bool) (key : K) (m : List (K × V))
      → lookup key m ≡ none
      → lookup key (keep (λ entry. p entry.1) m) ≡ none
  unfolding lookup
  keep-absent p key [] h = refl
  keep-absent p key ((k, v) ∷ m) h = ground (arith, keep-absent p key m)

  -- Entries that fail a test on their values are gone, and no entry takes their place.
  pub lookup-keep :
      (p : V → Bool) (key : K) (m : List (K × V))
      → IsMap m
      → lookup key (keep (λ entry. p entry.1) m) ≡ keep_option p (lookup key m)
  unfolding lookup
  lookup-keep p key [] u = refl
  lookup-keep p key ((k, v) ∷ m) u = elim (Bool-cases (e.same k key)) [
    | inl q ↦ rw q (
        ground (
          arith,
          keep-absent p key m (ap (λ k'. lookup k' m) (sym ((e.same_iff k key).0 q)) ∙ u.0),
        ))
    | inr q ↦ ground (arith, lookup-keep p key m u.1)
  ]

  pub keep-IsMap : (p : V → Bool) (m : List (K × V)) → IsMap m → IsMap (keep (λ entry. p entry.1) m)
  keep-IsMap p [] u = tt
  keep-IsMap p ((k, v) ∷ m) u = elim (Bool-cases (p v)) [
    | inl q ↦ rw q (keep-absent p k m u.0, keep-IsMap p m u.1)
    | inr q ↦ rw q (keep-IsMap p m u.1)
  ]

  keep_keys-absent :
      (p : K → Bool) (key : K) (m : List (K × V))
      → lookup key m ≡ none
      → lookup key (keep_keys p m) ≡ none
  unfolding lookup keep_keys
  keep_keys-absent p key [] h = refl
  keep_keys-absent p key ((k, v) ∷ m) h = ground (arith, keep_keys-absent p key m)

  pub keep_keys-IsMap : (p : K → Bool) (m : List (K × V)) → IsMap m → IsMap (keep_keys p m)
  unfolding keep_keys
  keep_keys-IsMap p [] u = tt
  keep_keys-IsMap p ((k, v) ∷ m) u = elim (Bool-cases (p k)) [
    | inl q ↦ rw q (keep_keys-absent p k m u.0, keep_keys-IsMap p m u.1)
    | inr q ↦ rw q (keep_keys-IsMap p m u.1)
  ]

  pub delete_key-IsMap : (key : K) (m : List (K × V)) → IsMap m → IsMap (delete_key key m)
  unfolding delete_key
  delete_key-IsMap key m u = keep_keys-IsMap _ m u

  pub put_key-IsMap : (key : K) (v : V) (m : List (K × V)) → IsMap m → IsMap (put_key key v m)
  unfolding put_key
  put_key-IsMap key v m u = (lookup-delete_key_self key m, delete_key-IsMap key m u)
