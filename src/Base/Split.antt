-- ===== src/Base/Split.antt =====
-- Laws of `split`, `join` and `trim_space`.
use mathlib.Core.List.{reverse, reverse-cons, reverse-reverse}
use Prim.Native.Nat.{ℕ}
use mathlib.Core.Path.{◌≡◌, refl, ap, ◌∙◌}
use mathlib.Core.Logic.{◌≢◌, inl, inr}
use mathlib.Core.Bool.{false}
use mathlib.Core.List.{List, [], ◌∷◌, ◌++◌}
use native.Mathlib.Omega.{arith}
use pve_traffic_monitor.Base.Tests.{Bool-cases, ◌==◌}
use pve_traffic_monitor.Base.Lists.{All, All-append}
use pve_traffic_monitor.Base.Text.{Text, is_space, trim_left, trim_space, push_front, split, join}

-- A part without the separator.
abbrev pub Lacks : ℕ → Text → Type 0
Lacks sep s = All (λ c. c ≢ sep) s

push_front-Lacks :
    (sep c : ℕ) (ps : List Text) → c ≢ sep → All (Lacks sep) ps → All (Lacks sep) (push_front c ps)
unfolding push_front
push_front-Lacks sep c [] h l = ((h, tt), tt)
push_front-Lacks sep c (p ∷ ps) h l = ((h, l.0), l.1)

pub split-Lacks : (sep : ℕ) (s : Text) → All (Lacks sep) (split sep s)
unfolding split
split-Lacks sep [] = (tt, tt)
split-Lacks sep (c ∷ s) = elim (Bool-cases (c == sep)) [
  | inl e ↦ rw e (tt, split-Lacks sep s)
  | inr e ↦ rw e (push_front-Lacks sep c (split sep s) (λ q. ground arith) (split-Lacks sep s))
]

split_one : (sep : ℕ) (p : Text) → Lacks sep p → split sep p ≡ p ∷ []
unfolding split
split_one sep [] h = refl
split_one sep (c ∷ p) h = ground (arith, split_one sep p h.1)

split-append : (sep : ℕ) (p t : Text) → Lacks sep p → split sep (p ++ (sep ∷ t)) ≡ p ∷ split sep t
unfolding split
split-append sep [] t h = ground arith
split-append sep (c ∷ p) t h = ground (arith, split-append sep p t h.1)

-- Parts without the separator come back, and no parts come back as one that is empty.
pub split-join :
    (sep : ℕ) (p : Text) (ps : List Text)
    → All (Lacks sep) (p ∷ ps)
    → split sep (join sep (p ∷ ps)) ≡ p ∷ ps
unfolding join
split-join sep p [] h = split_one sep p h.0
split-join sep p (q ∷ ps) h = split-append sep p _ h.0 ∙ ap (λ r. p ∷ r) (split-join sep q ps h.1)

-- What reads one empty part as no part at all does not see the round trip.
pub split-join_read {ℓ} :
    {A : Type ℓ} (sep : ℕ) (g : List Text → A) (ps : List Text)
    → g ([] ∷ []) ≡ g []
    → All (Lacks sep) ps
    → g (split sep (join sep ps)) ≡ g ps
unfolding join split
split-join_read sep g [] e h = e
split-join_read sep g (p ∷ ps) e h = ap g (split-join sep p ps h)

abbrev pub IsSolid : Text → Type 0
IsSolid s = All (λ c. is_space c ≡ false) s

trim_left_solid : (s : Text) → IsSolid s → trim_left s ≡ s
unfolding trim_left
trim_left_solid [] h = refl
trim_left_solid (c ∷ s) h = ground arith

reverse-IsSolid : (s : Text) → IsSolid s → IsSolid (reverse s)
reverse-IsSolid [] h = tt
reverse-IsSolid (c ∷ s) h =
    rw (reverse-cons c s) (All-append _ (reverse s) (c ∷ []) (reverse-IsSolid s h.1) (h.0, tt))

-- A text without spaces is left alone.
pub trim_space_solid : (s : Text) → IsSolid s → trim_space s ≡ s
unfolding trim_space
trim_space_solid s h =
    rw (trim_left_solid s h, trim_left_solid (reverse s) (reverse-IsSolid s h)) (reverse-reverse s)
