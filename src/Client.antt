-- ===== src/Client.antt =====
-- The operations of the PVE client, pkg/pve/client.go, that read and write the configuration of a
-- VM. The server is a parameter, `Pve`: its state, what each request answers and what it leaves.
pub mod Server
pub mod Updates
pub mod Links
pub mod Restore
pub mod Tags
pub mod Creation
use pve_traffic_monitor.Base.{
  ℕ, Bool, true, false, not, List, [], ◌∷◌, ◌++◌, keep, any, map, length, Option, none, some, ◌==◌,
  if◌then◌else◌,
}
use pve_traffic_monitor.Base.Float.{Float}
use pve_traffic_monitor.Base.Maps.{lookup, text_Eq}
use pve_traffic_monitor.Base.Result.{Result, ok, err}
use pve_traffic_monitor.Base.Text.{Text, codes, text_eq, to_lower, equal_fold, split, join}
use pve_traffic_monitor.Network.{
  PveError, no_network, Config, lookup_text, network_config_keys, set_network_link_down_in_config,
  set_network_rate_limit_in_config, network_rate_limit_updates,
}

-- GetVMConfig, putVMConfig with one key, the status of GetVMStatus, and StartVM. A request returns an error or its answer, and the server's
-- next state in both cases.
pub record Pve : Type 1 where
  pub World : Type 0
  pub get_vm_config : ℕ → World → Result PveError Config × World
  pub put_vm_config : ℕ → Text → Text → World → Result PveError (Unit {0}) × World
  pub get_vm_status : ℕ → World → Result PveError Text × World
  pub start_vm : ℕ → World → Result PveError (Unit {0}) × World

-- The new text of an interface, where its value is a text and there is something to write.
abbrev pub written : (Text → Text → Option Text) → Config → Text → Option Text
written new config key = elim (lookup_text key config) [ none ↦ none | some s ↦ new key s ]

abbrev pub link_set : Bool → Text → Text → Option Text
link_set link_down key net_config = some (set_network_link_down_in_config net_config link_down)

abbrev pub link_reset : Option Bool → Text → Option Text
link_reset none net_config = none
link_reset (some link_down) net_config = some (set_network_link_down_in_config net_config link_down)

abbrev pub link_restored : List (Text × Bool) → Text → Text → Option Text
link_restored states key net_config = link_reset (lookup key states) net_config

abbrev pub tags_key : Text
tags_key = codes "tags"

abbrev pub semicolon : ℕ
semicolon = b';'

abbrev pub tags_of : Option Text → List Text
tags_of none = []
tags_of (some tags) = if text_eq tags [] then [] else split semicolon tags

unfoldable pub rule_tag : Text → Text
rule_tag rule_name =
    codes "traffic-limit-" ++ to_lower (map (λ c. if c == 32 then b'-' else c) rule_name)

module _ (pve : Pve) where
  abbrev pub Op : Type 0 → Type 0
  Op A = pve.World → Result PveError A × pve.World

  abbrev pub return : {A : Type 0} → A → Op A
  return a w = (ok a, w)

  abbrev pub fail : {A : Type 0} → Result PveError A → Op A
  fail r w = (r, w)

  -- What comes after an operation: nothing after an error.
  abbrev pub and_then :
      {A B : Type 0} → (A → Op B) → Result PveError A × pve.World → Result PveError B × pve.World
  and_then f (ok a, w) = f a w
  and_then f (err e, w) = (err e, w)

  abbrev pub bind : {A B : Type 0} → Op A → (A → Op B) → Op B
  bind m f w = and_then f (m w)

  -- One turn of the loop, and what comes after it.
  abbrev pub put_one : ℕ → Text → Option Text → (Bool → Op Bool) → Bool → Op Bool
  put_one vmid key none next updated = next updated
  put_one vmid key (some value) next updated =
      bind (pve.put_vm_config vmid key value) (λ done. next true)

  -- The loop of every operation on the network: it writes, for each interface whose value is a text,
  -- what `new` makes of it, and tells whether it wrote any.
  unfoldable pub put_networks :
      ℕ → (Text → Text → Option Text) → List Text → Config → Bool → Op Bool
  put_networks vmid new [] config updated = return updated
  put_networks vmid new (key ∷ keys) config updated =
      put_one vmid key (written new config key) (put_networks vmid new keys config) updated

  abbrev pub wrote_any : Bool → Op (Unit {0})
  wrote_any true = return tt
  wrote_any false = fail (err no_network)

  unfoldable pub update_networks : ℕ → (Text → Text → Option Text) → Op (Unit {0})
  update_networks vmid new =
      bind (pve.get_vm_config vmid)
        (λ config. bind (put_networks vmid new (network_config_keys config) config false) wrote_any)

  unfoldable pub disconnect_network : ℕ → Op (Unit {0})
  disconnect_network vmid = update_networks vmid (link_set true)

  unfoldable pub connect_network : ℕ → Op (Unit {0})
  connect_network vmid = update_networks vmid (link_set false)

  unfoldable pub restore_network_link_states : ℕ → List (Text × Bool) → Op (Unit {0})
  restore_network_link_states vmid states = update_networks vmid (link_restored states)

  module _ (fl : Float) where
    unfoldable pub remove_network_rate_limit : ℕ → Op (Unit {0})
    remove_network_rate_limit vmid =
        update_networks vmid (λ key net_config.
          some (set_network_rate_limit_in_config fl net_config (fl.of_ℕ 0) false))

    unfoldable pub set_network_rate_limit : ℕ → fl.F → Op (Unit {0})
    set_network_rate_limit vmid rate =
        update_networks vmid
          (λ key net_config. some (set_network_rate_limit_in_config fl net_config rate true))

    unfoldable pub restore_network_rate_limits : ℕ → List (Text × fl.F) → Op (Unit {0})
    restore_network_rate_limits vmid rates = update_networks vmid (λ key net_config.
        elim (lookup key rates) [
          | none ↦ none
          | some rate ↦
              some (set_network_rate_limit_in_config fl net_config rate (fl.lt (fl.of_ℕ 0) rate))
        ])

    unfoldable pub put_updates : ℕ → List (Text × Text) → Op (Unit {0})
    put_updates vmid [] = return tt
    put_updates vmid ((key, value) ∷ updates) =
        bind (pve.put_vm_config vmid key value) (λ done. put_updates vmid updates)

    -- The updates are in the order of their keys, in which the source puts them.
    unfoldable pub tighten_network_rate_limit : ℕ → fl.F → Op Bool
    tighten_network_rate_limit vmid rate = bind (pve.get_vm_config vmid) (λ config.
        bind (fail (network_rate_limit_updates fl config rate)) (λ updates.
          if length updates == 0
          then return false
          else bind (put_updates vmid updates) (λ done. return true)))

    unfoldable pub should_tighten : ℕ → fl.F → Op Bool
    should_tighten vmid rate = bind (pve.get_vm_config vmid) (λ config.
        bind (fail (network_rate_limit_updates fl config rate))
          (λ updates. return (not (length updates == 0))))

  unfoldable pub get_vm_tags : ℕ → Op (List Text)
  get_vm_tags vmid =
      bind (pve.get_vm_config vmid) (λ config. return (tags_of (lookup_text tags_key config)))

  unfoldable pub set_vm_tags : ℕ → List Text → Op (Unit {0})
  set_vm_tags vmid tags = pve.put_vm_config vmid tags_key (join semicolon (map to_lower tags))

  unfoldable pub add_vm_tag : ℕ → Text → Op (Unit {0})
  add_vm_tag vmid tag = bind (get_vm_tags vmid) (λ existing.
      if any (λ t. equal_fold t (to_lower tag)) existing
      then return tt
      else set_vm_tags vmid (existing ++ (to_lower tag ∷ [])))

  unfoldable pub remove_vm_tag : ℕ → Text → Op (Unit {0})
  remove_vm_tag vmid tag =
      bind (get_vm_tags vmid)
        (λ existing. set_vm_tags vmid (keep (λ t. not (equal_fold t (to_lower tag))) existing))

  -- A result that the source throws away.
  abbrev pub ignored : {A : Type 0} → Op A → Op (Unit {0})
  ignored m w = (ok tt, (m w).1)

  unfoldable pub auto_tag_by_traffic_with_rule :
      (fl : Float) → ℕ → fl.F → fl.F → Text → Op (Unit {0})
  auto_tag_by_traffic_with_rule fl vmid traffic threshold rule_name =
      bind (ignored (remove_vm_tag vmid (rule_tag rule_name))) (λ done.
        if fl.lt threshold traffic then add_vm_tag vmid (rule_tag rule_name) else return tt)
