-- ===== src/Tests/Networks.antt =====
-- The text of an interface, with its rate and its link.
use pve_traffic_monitor.Base.{
  ℕ, zero, suc, ◌+◌, ◌*◌, ◌/◌, ◌≡◌, refl, true, false, [], ◌∷◌, length, ltb, leb, ◌==◌, some, arith,
}
use pve_traffic_monitor.Base.Float.{Float}
use pve_traffic_monitor.Base.Text.{
  Text, codes, text_eq, has_prefix, trim_prefix, is_space, trim_left, trim_space, split, equal_fold,
  to_lower, lower,
}
use pve_traffic_monitor.Base.Split.{Lacks, IsSolid}
use pve_traffic_monitor.Network.{
  comma, find_option, parse_network_link_down, set_network_link_down_in_config,
  parse_network_rate_limit, set_network_rate_limit_in_config, rate_of, is_network_config_key,
  network_config_keys, Value, is_down, insert_key, text_lt,
}
use pve_traffic_monitor.Network.Links.{parse-set_network_link_down}
use pve_traffic_monitor.Network.Rates.{IsPlain, parse-set_network_rate_limit}

unfoldable tally : ℕ → Text
tally zero = []
tally (suc n) = b'1' ∷ tally n

-- Rates in thousandths, printed in hundredths and one stroke for each.
abbrev thousandths : Float
thousandths = record {
  F = ℕ;
  of_ℕ = λ n. 1000 * n;
  div = λ a b. a / b;
  lt = ltb;
  le = leb;
  eq = ◌==◌;
  print2 = λ n. tally ((n + 5) / 10);
  parse = λ s. some (10 * length s);
}

tally-Lacks : (n : ℕ) → Lacks comma (tally n)
unfolding tally
tally-Lacks zero = tt
tally-Lacks (suc n) = (omega arith, tally-Lacks n)

tally-IsSolid : (n : ℕ) → IsSolid (tally n)
unfolding tally is_space
tally-IsSolid zero = tt
tally-IsSolid (suc n) = (refl, tally-IsSolid n)

plain : IsPlain thousandths
plain = record {
  no_comma = λ r. tally-Lacks ((r + 5) / 10);
  no_space = λ r. tally-IsSolid ((r + 5) / 10);
}

abbrev interface : Text
interface = codes "virtio=AA:BB,bridge=vmbr0, rate=11,link_down=1"

unplugged : parse_network_link_down interface ≡ true
unfolding parse_network_link_down find_option split has_prefix trim_space trim_left is_space is_down
    text_eq trim_prefix equal_fold to_lower lower
unplugged = refl

keys :
    network_config_keys (
      (codes "net1", Value.other)
      ∷ (codes "memory", Value.other)
      ∷ (codes "net0", Value.other)
      ∷ [])
    ≡ codes "net0" ∷ codes "net1" ∷ []
unfolding network_config_keys is_network_config_key has_prefix trim_prefix insert_key text_lt
keys = refl

parse-set_network_link_down_example :
    parse_network_link_down (set_network_link_down_in_config interface false) ≡ false
parse-set_network_link_down_example = parse-set_network_link_down interface false

parse-set_network_rate_limit_example :
    (parse_network_rate_limit thousandths
        (set_network_rate_limit_in_config thousandths interface 1006 true)
      ≡ rate_of thousandths (some (tally 101)))
    × (parse_network_link_down (set_network_rate_limit_in_config thousandths interface 1006 true)
        ≡ parse_network_link_down interface)
parse-set_network_rate_limit_example = parse-set_network_rate_limit thousandths interface 1006 plain
