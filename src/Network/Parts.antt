-- ===== src/Network/Parts.antt =====
-- Options among the parts of an interface's text.
use pve_traffic_monitor.Base.{
  ◌≡◌, refl, ◌∙◌, true, false, not, List, [], ◌∷◌, ◌++◌, keep, All, All-keep, All-append, none,
  arith,
}
use pve_traffic_monitor.Base.Text.{Text, has_prefix, trim_space, split}
use pve_traffic_monitor.Base.Split.{Lacks, split-Lacks, split-join_read}
use pve_traffic_monitor.Network.{sets, find_option, comma, replace_option}

-- No text sets two options at once.
abbrev pub AreApart : Text → Text → Type 0
AreApart a b = (s : Text) → has_prefix s a ≡ true → has_prefix s b ≡ false

abbrev pub without : Text → List Text → List Text
without key parts = keep (λ part. not (sets key part)) parts

find_option-without_self :
    (key : Text) (parts new : List Text)
    → find_option key (without key parts ++ new) ≡ find_option key new
unfolding find_option
find_option-without_self key [] new = refl
find_option-without_self key (p ∷ parts) new =
    ground (arith, find_option-without_self key parts new)

find_option-without_other :
    (a b : Text) (parts new : List Text)
    → AreApart a b
    → find_option b new ≡ none
    → find_option b (without a parts ++ new) ≡ find_option b parts
unfolding find_option
find_option-without_other a b [] new h n = n
find_option-without_other a b (p ∷ parts) new h n =
    ground (arith, h (trim_space p), find_option-without_other a b parts new h n)

replaced-Lacks :
    (key net_config : Text) (new : List Text)
    → All (Lacks comma) new
    → All (Lacks comma) (without key (split comma net_config) ++ new)
replaced-Lacks key net_config new h =
    All-append _ _ new (All-keep _ _ _ (split-Lacks comma net_config)) h

-- After an option is replaced, it has the new value.
pub find_option-replace_self :
    (key net_config : Text) (new : List Text)
    → find_option key ([] ∷ []) ≡ none
    → All (Lacks comma) new
    → find_option key (split comma (replace_option key net_config new)) ≡ find_option key new
unfolding replace_option find_option
find_option-replace_self key net_config new e h =
    split-join_read comma (find_option key) _ e (replaced-Lacks key net_config new h)
    ∙ find_option-without_self key (split comma net_config) new

-- Any other option keeps its value.
pub find_option-replace_other :
    (a b net_config : Text) (new : List Text)
    → find_option b ([] ∷ []) ≡ none
    → AreApart a b
    → find_option b new ≡ none
    → All (Lacks comma) new
    → find_option b (split comma (replace_option a net_config new))
      ≡ find_option b (split comma net_config)
unfolding replace_option find_option
find_option-replace_other a b net_config new e h n l =
    split-join_read comma (find_option b) _ e (replaced-Lacks a net_config new l)
    ∙ find_option-without_other a b (split comma net_config) new h n
