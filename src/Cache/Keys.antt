-- ===== src/Cache/Keys.antt =====
-- The keys of the cache: a key determines its VM, period and direction.
use mathlib.Core.List.{append_cancel_left, tail-eq_of_cons-eq, head-eq_of_cons-eq}
use pve_traffic_monitor.Base.{ℕ, ◌≡◌, refl, sym, ap, ◌∙◌, [], ◌∷◌, ◌++◌}
use pve_traffic_monitor.Base.Text.{Text}
use pve_traffic_monitor.Base.Split.{Lacks}
use pve_traffic_monitor.Base.Decimal.{print_int, scan_int, scan_int-print_int}
use pve_traffic_monitor.Cache.{make_key, colon}

pub scan_int-make_key :
    (vmid : ℕ) (period direction : Text) → scan_int (make_key vmid period direction) ≡ vmid
unfolding make_key
scan_int-make_key vmid period direction = scan_int-print_int vmid colon _ refl

halves :
    (p q d e : Text)
    → Lacks colon p
    → Lacks colon q
    → p ++ (colon ∷ d) ≡ q ++ (colon ∷ e)
    → (p ≡ q) × (d ≡ e)
halves [] [] d e hp hq h = (refl, tail-eq_of_cons-eq h)
halves [] (c ∷ q) d e hp hq h = elim (hq.0 (sym (head-eq_of_cons-eq h))) [ ]
halves (c ∷ p) [] d e hp hq h = elim (hp.0 (head-eq_of_cons-eq h)) [ ]
halves (c ∷ p) (b ∷ q) d e hp hq h =
    let (same, rest) = halves p q d e hp.1 hq.1 (tail-eq_of_cons-eq h) in
    (cc (head-eq_of_cons-eq h, same), rest)

-- Two keys are equal only if they are of one VM, period and direction; the periods have no colon.
pub make_key_injective :
    (vmid vmid' : ℕ) (period period' direction direction' : Text)
    → Lacks colon period
    → Lacks colon period'
    → make_key vmid period direction ≡ make_key vmid' period' direction'
    → (vmid ≡ vmid') × (period ≡ period') × (direction ≡ direction')
unfolding make_key
make_key_injective v v' p p' d d' hp hp' h =
    let tails =
      append_cancel_left (print_int v) _ _
        (h ∙ ap (λ n. print_int n ++ (colon ∷ (p' ++ (colon ∷ d')))) (sym v_eq)) in
    let (same_p, same_d) = halves p p' d d' hp hp' (tail-eq_of_cons-eq tails) in
    (v_eq, same_p, same_d)
  where
    v_eq : v ≡ v'
    v_eq = sym (scan_int-make_key v p d) ∙ ap scan_int h ∙ scan_int-make_key v' p' d'
