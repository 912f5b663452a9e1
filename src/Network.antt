-- ===== src/Network.antt =====
-- The network settings of a VM, pkg/pve/client.go: reading and writing the options `rate` and
-- `link_down` in the text of an interface, "virtio=…,bridge=vmbr0,rate=5.00". A VM's configuration
-- is a list of keys with values; Go's map has each key once.
pub mod Parts
pub mod Links
pub mod Rates
use pve_traffic_monitor.Base.{
  ℕ, Bool, true, false, not, ◌&&◌, ◌||◌, List, [], ◌∷◌, ◌++◌, keep, every, Option, none, some, ltb,
  leb, length, ◌==◌, if◌then◌else◌,
}
use pve_traffic_monitor.Base.Float.{Float}
use pve_traffic_monitor.Base.Decimal.{is_digit}
use pve_traffic_monitor.Base.Maps.{lookup, text_Eq}
use pve_traffic_monitor.Base.Result.{Result, ok, err, ◌>>=◌}
use pve_traffic_monitor.Base.Text.{
  Text, codes, text_eq, has_prefix, trim_prefix, trim_space, equal_fold, split, join,
}

pub data PveError : Type 0 where
  request_failed not_found bad_number bad_rate no_network : PveError

-- A value of `map[string]interface{}`: a string, or what a type assertion to string refuses.
pub data Value : Type 0 where
  text : Text → Value
  other : Value

abbrev pub Config : Type 0
Config = List (Text × Value)

abbrev pub text_of : Option Value → Option Text
text_of (some (Value.text s)) = some s
text_of (some Value.other) = none
text_of none = none

-- config[key].(string)
unfoldable pub lookup_text : Text → Config → Option Text
lookup_text key config = text_of (lookup key config)

-- The bytes of a text are compared from the front, as by `sort.Strings`.
unfoldable pub text_lt : Text → Text → Bool
text_lt s [] = false
text_lt [] (d ∷ t) = true
text_lt (c ∷ s) (d ∷ t) = ltb c d || (c == d && text_lt s t)

unfoldable pub insert_key : Text → List Text → List Text
insert_key k [] = k ∷ []
insert_key k (j ∷ ks) = if text_lt j k then j ∷ insert_key k ks else k ∷ j ∷ ks

unfoldable pub is_network_config_key : Text → Bool
is_network_config_key key =
    let rest = trim_prefix key (codes "net") in
    if not (has_prefix key (codes "net")) || (length rest == 0) then false else every is_digit rest

unfoldable pub network_config_keys : Config → List Text
network_config_keys [] = []
network_config_keys ((k, v) ∷ config) =
    let keys = network_config_keys config in
    if is_network_config_key k then insert_key k keys else keys

-- A part of the text that sets the option `key`, a word with its equals sign.
abbrev pub sets : Text → Text → Bool
sets key part = has_prefix (trim_space part) key

-- The value of the first part that sets the option.
unfoldable pub find_option : Text → List Text → Option Text
find_option key [] = none
find_option key (part ∷ parts) =
    if sets key part then some (trim_prefix (trim_space part) key) else find_option key parts

abbrev pub rate_key : Text
rate_key = codes "rate="

abbrev pub link_down_key : Text
link_down_key = codes "link_down="

abbrev pub comma : ℕ
comma = b','

unfoldable pub is_down : Text → Bool
is_down value =
    not (text_eq value [])
    && not (text_eq value (codes "0"))
    && not (equal_fold value (codes "false"))

abbrev pub link_down_of : Option Text → Bool
link_down_of none = false
link_down_of (some value) = is_down (trim_space value)

unfoldable pub parse_network_link_down : Text → Bool
parse_network_link_down net_config =
    link_down_of (find_option link_down_key (split comma net_config))

-- The text without the parts that set the option, and with a new part at the end if there is one.
unfoldable pub replace_option : Text → Text → List Text → Text
replace_option key net_config new =
    join comma (keep (λ part. not (sets key part)) (split comma net_config) ++ new)

unfoldable pub set_network_link_down_in_config : Text → Bool → Text
set_network_link_down_in_config net_config link_down =
    replace_option link_down_key net_config (if link_down then codes "link_down=1" ∷ [] else [])

abbrev pub link_of : Option Text → Option Bool
link_of none = none
link_of (some net_config) = some (parse_network_link_down net_config)

abbrev pub add_state : Text → Option Bool → List (Text × Bool) → List (Text × Bool)
add_state key none states = states
add_state key (some link_down) states = (key, link_down) ∷ states

unfoldable pub network_link_down_states : List Text → Config → List (Text × Bool)
network_link_down_states [] config = []
network_link_down_states (key ∷ keys) config =
    add_state key (link_of (lookup_text key config)) (network_link_down_states keys config)

unfoldable pub network_link_down_states_from_config : Config → Result PveError (List (Text × Bool))
network_link_down_states_from_config config =
    let states = network_link_down_states (network_config_keys config) config in
    if length states == 0 then err no_network else ok states

module _ (fl : Float) where
  -- `none` where no part sets a rate.
  abbrev pub rate_of : Option Text → Result PveError (Option fl.F)
  rate_of none = ok none
  rate_of (some value) = elim (fl.parse value) [ none ↦ err bad_number | some r ↦ ok (some r) ]

  unfoldable pub parse_network_rate_limit : Text → Result PveError (Option fl.F)
  parse_network_rate_limit net_config = rate_of (find_option rate_key (split comma net_config))

  unfoldable pub set_network_rate_limit_in_config : Text → fl.F → Bool → Text
  set_network_rate_limit_in_config net_config rate enabled =
      replace_option rate_key net_config (if enabled then (rate_key ++ fl.print2 rate) ∷ [] else [])

  unfoldable pub should_tighten_network_rate_limit : Text → fl.F → Result PveError Bool
  should_tighten_network_rate_limit net_config rate = do
    current ← parse_network_rate_limit net_config
    ok (elim current [ none ↦ true | some r ↦ if fl.le r (fl.of_ℕ 0) then true else fl.lt rate r ])

  unfoldable pub rate_updates : List Text → Config → fl.F → Result PveError (List (Text × Text))
  rate_updates [] config rate = ok []
  rate_updates (key ∷ keys) config rate =
      let rest = rate_updates keys config rate in
      elim (lookup_text key config) [
        | none ↦ rest
        | some net_config ↦ should_tighten_network_rate_limit net_config rate >>= λ apply.
            rest >>= λ updates. ok (
              if apply
              then (key, set_network_rate_limit_in_config net_config rate true) ∷ updates
              else updates)
      ]

  unfoldable pub network_rate_limit_updates : Config → fl.F → Result PveError (List (Text × Text))
  network_rate_limit_updates config rate =
      if fl.le rate (fl.of_ℕ 0)
      then err bad_rate
      else if length (network_config_keys config) == 0
      then err no_network
      else rate_updates (network_config_keys config) config rate

  unfoldable pub network_rates : List Text → Config → Result PveError (List (Text × fl.F))
  network_rates [] config = ok []
  network_rates (key ∷ keys) config =
      let rest = network_rates keys config in
      elim (lookup_text key config) [
        | none ↦ rest
        | some net_config ↦ parse_network_rate_limit net_config >>= λ found.
            rest >>= λ rates. ok ((key, elim found [ none ↦ fl.of_ℕ 0 | some r ↦ r ]) ∷ rates)
      ]

  unfoldable pub network_rate_limits_from_config : Config → Result PveError (List (Text × fl.F))
  network_rate_limits_from_config config =
      network_rates (network_config_keys config) config >>= λ rates.
      if length rates == 0 then err no_network else ok rates

  -- The loop over the rates: 0 as soon as one is 0, and otherwise the largest.
  unfoldable pub widest_rate : fl.F → List (Text × fl.F) → fl.F
  widest_rate widest [] = widest
  widest_rate widest ((key, rate) ∷ rates) =
      let rest = widest_rate (if fl.lt widest rate then rate else widest) rates in
      if fl.eq rate (fl.of_ℕ 0) then fl.of_ℕ 0 else rest

  unfoldable pub network_rate_limit_from_config : Config → Result PveError fl.F
  network_rate_limit_from_config config =
      network_rate_limits_from_config config >>= λ rates. ok (widest_rate (fl.of_ℕ 0) rates)
