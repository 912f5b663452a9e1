-- ===== src/Base/Weights.antt =====
-- Sums over the values of a map.
use Prim.Native.Nat.{ℕ, ◌+◌}
use mathlib.Core.Path.{◌≡◌, refl, sym, ap, ◌∙◌}
use mathlib.Core.Logic.{inl, inr}
use mathlib.Core.Option.{Option, none, some}
use mathlib.Core.List.{List, [], ◌∷◌}
use native.Mathlib.Omega.{arith}
use pve_traffic_monitor.Base.Tests.{Bool-cases}
use pve_traffic_monitor.Base.Maps.{Eq, lookup, keep_keys, put_key, delete_key, IsMap}

abbrev pub weigh_at {κ} : {V : Type κ} → (V → ℕ) → Option V → ℕ
weigh_at w none = 0
weigh_at w (some v) = w v

module _ {ℓ κ} {K : Type ℓ} {V : Type κ} where
  unfoldable pub weigh : (V → ℕ) → List (K × V) → ℕ
  weigh w [] = 0
  weigh w ((k, v) ∷ m) = w v + weigh w m

module _ {ℓ κ} {K : Type ℓ} {V : Type κ} ⦃e : Eq K⦄ where
  weigh-delete_absent :
      (w : V → ℕ) (key : K) (m : List (K × V))
      → lookup key m ≡ none
      → weigh w (delete_key key m) ≡ weigh w m
  unfolding weigh lookup delete_key keep_keys
  weigh-delete_absent w key [] h = refl
  weigh-delete_absent w key ((k, v) ∷ m) h = ground (arith, weigh-delete_absent w key m)

  pub weigh-delete :
      (w : V → ℕ) (key : K) (m : List (K × V))
      → IsMap m
      → weigh w m ≡ weigh_at w (lookup key m) + weigh w (delete_key key m)
  unfolding weigh lookup delete_key keep_keys
  weigh-delete w key [] u = omega arith
  weigh-delete w key ((k, v) ∷ m) u = elim (Bool-cases (e.same k key)) [
    | inl q ↦ rw q (
        omega (
          arith,
          weigh-delete_absent w key m (ap (λ j. lookup j m) (sym ((e.same_iff k key).0 q)) ∙ u.0),
        ))
    | inr q ↦ rw q (omega (arith, weigh-delete w key m u.1))
  ]

  pub weigh-put :
      (w : V → ℕ) (key : K) (v : V) (m : List (K × V))
      → IsMap m
      → weigh w (put_key key v m) + weigh_at w (lookup key m) ≡ w v + weigh w m
  unfolding weigh put_key
  weigh-put w key v m u = omega (arith, weigh-delete w key m u)
