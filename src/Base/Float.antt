-- ===== src/Base/Float.antt =====
-- What the program uses of float64. The language has no floating point numbers, so a `Float` is the
-- type with its operations, a parameter of the code that computes with rates and gigabytes; a
-- theorem names the laws that it needs.
use mathlib.Core.Bool.{Bool}
use mathlib.Core.Option.{Option}
use Prim.Native.Nat.{ℕ}
use pve_traffic_monitor.Base.Text.{Text}

pub record Float : Type 1 where
  pub F : Type 0
  -- float64(n)
  pub of_ℕ : ℕ → F
  pub div : F → F → F
  -- a < b, a <= b and a == b
  pub lt : F → F → Bool
  pub le : F → F → Bool
  pub eq : F → F → Bool
  -- fmt.Sprintf("%.2f", a) and strconv.ParseFloat(s, 64)
  pub print2 : F → Text
  pub parse : Text → Option F
