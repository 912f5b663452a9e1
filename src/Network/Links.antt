-- ===== src/Network/Links.antt =====
-- Writing and reading `link_down`.
use pve_traffic_monitor.Base.{
  ◌≡◌, refl, ap, ◌∙◌, Bool, true, false, List, [], ◌∷◌, All, none, arith, if◌then◌else◌,
}
use pve_traffic_monitor.Base.Float.{Float}
use pve_traffic_monitor.Base.Text.{
  Text, codes, text_eq, has_prefix, trim_prefix, is_space, trim_left, trim_space, lower, to_lower,
  equal_fold,
}
use pve_traffic_monitor.Base.Split.{Lacks}
use pve_traffic_monitor.Network.{
  find_option, rate_key, link_down_key, comma, is_down, link_down_of, rate_of,
  parse_network_link_down, set_network_link_down_in_config, parse_network_rate_limit,
}
use pve_traffic_monitor.Network.Parts.{
  AreApart, find_option-replace_self, find_option-replace_other,
}

abbrev link_part : Bool → List Text
link_part b = if b then codes "link_down=1" ∷ [] else []

link_part-Lacks : (b : Bool) → All (Lacks comma) (link_part b)
link_part-Lacks true = omega arith
link_part-Lacks false = tt

link_rate_apart : AreApart link_down_key rate_key
unfolding has_prefix
link_rate_apart [] h = cc
link_rate_apart (c ∷ s) h = ground arith

pub rate_link_apart : AreApart rate_key link_down_key
unfolding has_prefix
rate_link_apart [] h = cc
rate_link_apart (c ∷ s) h = ground arith

pub no_blank_link : find_option link_down_key ([] ∷ []) ≡ none
unfolding find_option has_prefix trim_space trim_left
no_blank_link = refl

pub no_blank_rate : find_option rate_key ([] ∷ []) ≡ none
unfolding find_option has_prefix trim_space trim_left
no_blank_rate = refl

no_rate : (b : Bool) → find_option rate_key (link_part b) ≡ none
unfolding find_option has_prefix trim_space trim_left is_space
no_rate true = refl
no_rate false = refl

read-link_part : (b : Bool) → link_down_of (find_option link_down_key (link_part b)) ≡ b
unfolding find_option has_prefix trim_prefix trim_space trim_left is_space is_down text_eq
    equal_fold to_lower lower
read-link_part true = refl
read-link_part false = refl

-- What is written is read back: after a link is set down or up in the text of an interface, whatever
-- it said before, the text is read as down or up.
pub parse-set_network_link_down :
    (net_config : Text) (link_down : Bool)
    → parse_network_link_down (set_network_link_down_in_config net_config link_down) ≡ link_down
unfolding parse_network_link_down set_network_link_down_in_config
parse-set_network_link_down net_config link_down =
    ap link_down_of (
      find_option-replace_self link_down_key net_config (link_part link_down) no_blank_link
        (link_part-Lacks link_down))
    ∙ read-link_part link_down

-- Setting a link leaves the rate as it was read before.
pub rate-set_network_link_down :
    (fl : Float) (net_config : Text) (link_down : Bool)
    → parse_network_rate_limit fl (set_network_link_down_in_config net_config link_down)
      ≡ parse_network_rate_limit fl net_config
unfolding parse_network_rate_limit set_network_link_down_in_config
rate-set_network_link_down fl net_config link_down = ap (rate_of fl) (
    find_option-replace_other link_down_key rate_key net_config (link_part link_down) no_blank_rate
      link_rate_apart (no_rate link_down) (link_part-Lacks link_down))
