-- ===== src/Client/Restore.antt =====
-- Taking a VM off the network and giving it back the links that it had.
use pve_traffic_monitor.Base.{
  ℕ, ◌≡◌, refl, sym, ap, ◌∙◌, Bool, true, false, not, List, [], ◌∷◌, length, Option, none, some,
  ◌==◌, arith, if◌then◌else◌,
}
use pve_traffic_monitor.Base.Maps.{lookup, text_Eq}
use pve_traffic_monitor.Base.Result.{Result, ok, err}
use pve_traffic_monitor.Base.Text.{Text}
use pve_traffic_monitor.Network.{
  PveError, no_network, Config, lookup_text, network_config_keys, parse_network_link_down,
  set_network_link_down_in_config, link_of, network_link_down_states,
  network_link_down_states_from_config,
}
use pve_traffic_monitor.Network.Links.{parse-set_network_link_down}
use pve_traffic_monitor.Client.{
  Pve, link_set, link_reset, link_restored, update_networks, disconnect_network,
  restore_network_link_states,
}
use pve_traffic_monitor.Client.Server.{Answers}
use pve_traffic_monitor.Client.Updates.{
  updated, writes_one, writes, assign_all, lookup_text-assign_all, network_config_keys-assign_all,
  update_networks_runs,
}
use pve_traffic_monitor.Client.Links.{
  is_in, map_link, map_links, map_links_same, states_agree, lookup-states, any_agree,
  writes-link_set,
}

module _ (base : Config) (links : List (Text × Bool))
    (is_read : network_link_down_states (network_config_keys base) base ≡ links) where
  abbrev keys : List Text
  keys = network_config_keys base

  abbrev down : Config
  down = assign_all (link_set true) base keys base

  abbrev back : Config
  back = assign_all (link_restored links) down (network_config_keys down) down

  keys_of_down : network_config_keys down ≡ keys
  keys_of_down = network_config_keys-assign_all (link_set true) base keys

  keys_of_back : network_config_keys back ≡ keys
  keys_of_back =
      network_config_keys-assign_all (link_restored links) down (network_config_keys down)
      ∙ keys_of_down

  lookup_text-down :
      (k : Text)
      → is_in keys k ≡ true
      → lookup_text k down ≡ updated (link_set true k) (lookup_text k base)
  lookup_text-down k m = lookup_text-assign_all (link_set true) base keys k base refl m

  link_down :
      (k : Text)
      → is_in keys k ≡ true
      → link_of (lookup_text k down) ≡ map_link (λ b. true) (link_of (lookup_text k base))
  link_down k m = ap link_of (lookup_text-down k m) ∙ go (lookup_text k base)
    where
      go :
          (o : Option Text)
          → link_of (updated (link_set true k) o) ≡ map_link (λ b. true) (link_of o)
      go none = refl
      go (some s) = ap some (parse-set_network_link_down s true)

  links_lookup : (k : Text) → is_in keys k ≡ true → lookup k links ≡ link_of (lookup_text k base)
  links_lookup k m = ap (lookup k) (sym is_read) ∙ lookup-states keys base k m

  link_back :
      (k : Text)
      → is_in keys k ≡ true
      → link_of (lookup_text k back) ≡ map_link (λ b. b) (link_of (lookup_text k base))
  link_back k m =
      ap link_of (
        lookup_text-assign_all (link_restored links) down (network_config_keys down) k down refl
          (rw keys_of_down m)
        ∙ ap (updated (link_restored links k)) (lookup_text-down k m))
      ∙ go (lookup_text k base) (links_lookup k m)
    where
      go :
          (o : Option Text)
          → lookup k links ≡ link_of o
          → link_of (updated (link_restored links k) (updated (link_set true k) o))
            ≡ map_link (λ b. b) (link_of o)
      go none e = refl
      go (some s) e =
          ap (λ o. link_of (updated (link_reset o) (some (set_network_link_down_in_config s true))))
            e
          ∙ ap some (parse-set_network_link_down _ (parse_network_link_down s))

  writes_back :
      writes (link_restored links) down (network_config_keys down)
      ≡ writes (link_set true) base keys
  unfolding writes
  writes_back =
      ap (writes (link_restored links) down) keys_of_down
      ∙ any_agree _ _ keys (λ k m.
        ap
          (λ o.
            writes_one (link_restored links) down
              (elim o [ none ↦ none | some s ↦ link_restored links k s ]))
          (lookup_text-down k m)
        ∙ go k (lookup_text k base) (links_lookup k m))
    where
      go :
          (k : Text) (o : Option Text)
          → lookup k links ≡ link_of o
          → writes_one (link_restored links) down (elim (updated (link_set true k) o) [
            | none ↦ none
            | some s ↦ link_restored links k s
          ])
            ≡ writes_one (link_set true) base (elim o [ none ↦ none | some s ↦ link_set true k s ])
      go k none e = refl
      go k (some s) e =
          ap
            (λ o.
              writes_one (link_restored links) down
                (link_reset o (set_network_link_down_in_config s true)))
            e

  states_down :
      network_link_down_states (network_config_keys down) down ≡ map_links (λ b. true) links
  states_down =
      ap (λ ks. network_link_down_states ks down) keys_of_down
      ∙ states_agree (λ b. true) keys base down link_down
      ∙ ap (map_links (λ b. true)) is_read

  states_back : network_link_down_states (network_config_keys back) back ≡ links
  states_back =
      ap (λ ks. network_link_down_states ks back) keys_of_back
      ∙ states_agree (λ b. b) keys base back link_back
      ∙ map_links_same _
      ∙ is_read

  writes_down : (length links == 0) ≡ false → writes (link_set true) base keys ≡ true
  writes_down h = writes-link_set true keys base ∙ ap (λ l. not (length l == 0)) is_read ∙ ap not h

abbrev or_none : Result PveError (List (Text × Bool)) → List (Text × Bool)
or_none (ok states) = states
or_none (err e) = []

pub links_read :
    (config : Config) (links : List (Text × Bool))
    → network_link_down_states_from_config config ≡ ok links
    → (network_link_down_states (network_config_keys config) config ≡ links)
      × ((length links == 0) ≡ false)
unfolding network_link_down_states_from_config
links_read config links = go (network_link_down_states (network_config_keys config) config)
  where
    go :
        (r : List (Text × Bool))
        → (if length r == 0 then err no_network else ok r) ≡ ok links
        → (r ≡ links) × ((length links == 0) ≡ false)
    go [] e = ground arith
    go (s ∷ r) e =
        let same : s ∷ r ≡ links = ground (arith, ap or_none e) in
        (same, ap (λ l. length l == 0) (sym same) ∙ ground arith)

read_links :
    (config : Config) (links : List (Text × Bool))
    → network_link_down_states (network_config_keys config) config ≡ links
    → (length links == 0) ≡ false
    → network_link_down_states_from_config config ≡ ok links
unfolding network_link_down_states_from_config
read_links config links e h = ap (λ r. if length r == 0 then err no_network else ok r) e ∙ rw h refl

length-map_links :
    (g : Bool → Bool) (links : List (Text × Bool))
    → (length links == 0) ≡ false
    → (length (map_links g links) == 0) ≡ false
length-map_links g [] h = h
length-map_links g (l ∷ links) h = ground arith

-- After a VM is taken off the network every interface is read as down, and after the links that were
-- recorded before are restored, every interface is read as it was before; neither operation returns an
-- error. The server answers every request, and the VM has an interface.
pub restore-disconnect :
    (pve : Pve) (server : Answers pve) (vmid : ℕ) (w : pve.World) (links : List (Text × Bool))
    → network_link_down_states_from_config (server.configs w vmid) ≡ ok links
    → let off = disconnect_network pve vmid w in
      let on = restore_network_link_states pve vmid links off.1 in
      (off.0 ≡ ok tt)
      × (network_link_down_states_from_config (server.configs off.1 vmid)
          ≡ ok (map_links (λ b. true) links))
      × (on.0 ≡ ok tt)
      × (network_link_down_states_from_config (server.configs on.1 vmid) ≡ ok links)
unfolding disconnect_network restore_network_link_states network_link_down_states_from_config
restore-disconnect pve server vmid w links h =
    let base = server.configs w vmid in
    let (is_read, some_link) = links_read base links h in
    let off = update_networks_runs pve server (link_set true) vmid w in
    let on =
      update_networks_runs pve server (link_restored links) vmid
        (update_networks pve vmid (link_set true) w).1 in
    let after = λ (config : Config).
      assign_all (link_restored links) config (network_config_keys config) config in
    let wrote : writes (link_set true) base (network_config_keys base) ≡ true =
      writes_down base links is_read some_link in
    (
      off.0 ∙ ap ended wrote,
      ap network_link_down_states_from_config off.1
          ∙ read_links _ _ (states_down base links is_read) (length-map_links _ links some_link),
      on.0
          ∙ ap (λ config. ended (writes (link_restored links) config (network_config_keys config)))
              off.1
          ∙ ap ended (writes_back base links is_read ∙ wrote),
      ap network_link_down_states_from_config (on.1 ∙ ap after off.1)
          ∙ read_links _ _ (states_back base links is_read) some_link,
    )
  where
    ended : Bool → Result PveError (Unit {0})
    ended b = if b then ok tt else err no_network
