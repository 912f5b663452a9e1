-- ===== src/Network/Rates.antt =====
-- Writing and reading `rate`.
use pve_traffic_monitor.Base.{
  ◌≡◌, ◌≢◌, refl, ap, ◌∙◌, Bool, true, false, ◌||◌, List, [], ◌∷◌, ◌++◌, All, All-append, none,
  some, arith, if◌then◌else◌,
}
use pve_traffic_monitor.Base.Float.{Float}
use pve_traffic_monitor.Base.Result.{ok}
use pve_traffic_monitor.Base.Text.{Text, has_prefix, trim_prefix, is_space, trim_space}
use pve_traffic_monitor.Base.Split.{Lacks, IsSolid, trim_space_solid}
use pve_traffic_monitor.Network.{
  find_option, rate_key, link_down_key, comma, link_down_of, rate_of, parse_network_link_down,
  parse_network_rate_limit, set_network_rate_limit_in_config, should_tighten_network_rate_limit,
}
use pve_traffic_monitor.Network.Parts.{find_option-replace_self, find_option-replace_other}
use pve_traffic_monitor.Network.Links.{rate_link_apart, no_blank_link, no_blank_rate}

-- What "%.2f" prints has no comma and no space.
pub record IsPlain (fl : Float) : Type 0 where
  pub no_comma : (r : fl.F) → Lacks comma (fl.print2 r)
  pub no_space : (r : fl.F) → IsSolid (fl.print2 r)

module _ (fl : Float) where
  abbrev rate_part : Bool → fl.F → List Text
  rate_part b r = if b then (rate_key ++ fl.print2 r) ∷ [] else []

  rate_part-Lacks : IsPlain fl → (b : Bool) (r : fl.F) → All (Lacks comma) (rate_part b r)
  rate_part-Lacks plain true r =
      (All-append (λ c. c ≢ comma) rate_key (fl.print2 r) (omega arith) (plain.no_comma r), tt)
  rate_part-Lacks plain false r = tt

  trim-rate_part :
      IsPlain fl → (r : fl.F) → trim_space (rate_key ++ fl.print2 r) ≡ rate_key ++ fl.print2 r
  unfolding is_space
  trim-rate_part plain r = trim_space_solid _ (
      All-append (λ c. is_space c ≡ false) rate_key (fl.print2 r)
        (refl, (refl, (refl, (refl, (refl, tt))))) (plain.no_space r))

  read-rate_part :
      IsPlain fl → (r : fl.F) → find_option rate_key (rate_part true r) ≡ some (fl.print2 r)
  unfolding find_option has_prefix trim_prefix
  read-rate_part plain r = rw (trim-rate_part plain r)

  no_link : IsPlain fl → (b : Bool) (r : fl.F) → find_option link_down_key (rate_part b r) ≡ none
  unfolding find_option has_prefix
  no_link plain true r = rw (trim-rate_part plain r)
  no_link plain false r = refl

  -- Removing the rate leaves none, whatever the text of the interface said before.
  pub parse-remove_network_rate_limit :
      (net_config : Text) (rate : fl.F)
      → parse_network_rate_limit fl (set_network_rate_limit_in_config fl net_config rate false)
        ≡ ok none
  unfolding parse_network_rate_limit set_network_rate_limit_in_config find_option
  parse-remove_network_rate_limit net_config rate =
      ap (rate_of fl) (find_option-replace_self rate_key net_config [] no_blank_rate tt)

  -- After a rate is set, the text of the interface is read as the printed rate, and its link is as
  -- it was; the printed rate has no comma and no space.
  pub parse-set_network_rate_limit :
      (net_config : Text) (rate : fl.F)
      → IsPlain fl
      → (parse_network_rate_limit fl (set_network_rate_limit_in_config fl net_config rate true)
          ≡ rate_of fl (some (fl.print2 rate)))
        × (parse_network_link_down (set_network_rate_limit_in_config fl net_config rate true)
            ≡ parse_network_link_down net_config)
  unfolding parse_network_rate_limit set_network_rate_limit_in_config parse_network_link_down
  parse-set_network_rate_limit net_config rate plain = (
    ap (rate_of fl) (
        find_option-replace_self rate_key net_config (rate_part true rate) no_blank_rate
          (rate_part-Lacks plain true rate)
        ∙ read-rate_part plain rate),
    ap link_down_of (
        find_option-replace_other rate_key link_down_key net_config (rate_part true rate)
          no_blank_link rate_link_apart (no_link plain true rate)
          (rate_part-Lacks plain true rate)),
  )

  -- When a limit that was just applied counts as too wide again: exactly if its text, rounded to two
  -- digits, is read as a rate that is not above 0 or that is above the limit.
  pub should_tighten_again :
      (net_config : Text) (rate rounded : fl.F)
      → IsPlain fl
      → fl.parse (fl.print2 rate) ≡ some rounded
      → should_tighten_network_rate_limit fl
          (set_network_rate_limit_in_config fl net_config rate true)
          rate
        ≡ ok (fl.le rounded (fl.of_ℕ 0) || fl.lt rate rounded)
  unfolding should_tighten_network_rate_limit
  should_tighten_again net_config rate rounded plain e =
      rw ((parse-set_network_rate_limit net_config rate plain).0 ∙ found) (ground arith)
    where
      found : rate_of fl (some (fl.print2 rate)) ≡ ok (some rounded)
      found = ground arith
