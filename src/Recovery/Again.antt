-- ===== src/Recovery/Again.antt =====
-- A VM that was taken off the network and is recovered.
use pve_traffic_monitor.Base.{
  ℕ, ◌≡◌, ◌≢◌, inl, inr, refl, sym, ap, ◌∙◌, Bool, true, false, not, ◌||◌, List, [], ◌∷◌, length,
  Option, none, some, ◌==◌, Bool-cases, arith, if◌then◌else◌, keep, map,
}
use pve_traffic_monitor.Base.Float.{Float}
use pve_traffic_monitor.Base.Maps.{nat_Eq, lookup-put_key_self, lookup-delete_key_self}
use pve_traffic_monitor.Base.Result.{Result, ok, err}
use pve_traffic_monitor.Base.Text.{
  Text, codes, text_eq, text_eq_iff, has_prefix, trim_prefix, to_lower, equal_fold, join,
}
use pve_traffic_monitor.Clock.{Time}
use pve_traffic_monitor.Models.{PeriodType, Action}
use pve_traffic_monitor.Network.{
  PveError, Config, link_of, lookup_text, network_config_keys, is_network_config_key, insert_key,
  no_network, network_link_down_states, network_link_down_states_from_config,
}
use pve_traffic_monitor.Client.{
  Pve, tags_key, tags_of, semicolon, disconnect_network, connect_network,
  restore_network_link_states, get_vm_tags, set_vm_tags, remove_vm_tag,
}
use pve_traffic_monitor.Client.Server.{Answers, assign, lookup_text-assign_other}
use pve_traffic_monitor.Client.Links.{states_agree, map_links_same, is_in, map_link}
use pve_traffic_monitor.Client.Restore.{restore-disconnect, links_read}
use pve_traffic_monitor.Recovery.{VmState, get_state, record_state, remove_state}
use pve_traffic_monitor.Recovery.Manager.{
  record_vm_state, recover_vm, remove_traffic_tags, clean_tags, after_undo, new_state, undo_action,
  States, is_recorded, or_else,
}

is_in-insert_key :
    (a k : Text) (keys : List Text) → is_in (insert_key a keys) k ≡ (text_eq a k || is_in keys k)
unfolding insert_key
is_in-insert_key a k [] = refl
is_in-insert_key a k (j ∷ keys) = ground (arith, is_in-insert_key a k keys)

keys_are_network :
    (config : Config) (k : Text)
    → is_in (network_config_keys config) k ≡ true
    → is_network_config_key k ≡ true
unfolding network_config_keys
keys_are_network [] k h = ground arith
keys_are_network ((j, v) ∷ config) k h = elim (Bool-cases (is_network_config_key j)) [
  | inl net ↦ elim (Bool-cases (text_eq j k)) [
    | inl same ↦ ap is_network_config_key (sym ((text_eq_iff j k).0 same)) ∙ net
    | inr differ ↦
        keys_are_network config k
          (ground (arith, (rw net at h), is_in-insert_key j k (network_config_keys config)))
  ]
  | inr other ↦ keys_are_network config k (rw other at h)
]

network_config_keys-assign_other :
    (key value : Text) (config : Config)
    → is_network_config_key key ≡ false
    → network_config_keys (assign key value config) ≡ network_config_keys config
unfolding network_config_keys assign
network_config_keys-assign_other key value [] h = rw h refl
network_config_keys-assign_other key value ((k, v) ∷ config) h = elim (Bool-cases (text_eq k key)) [
  | inl q ↦ rw q refl
  | inr q ↦ rw q (
      ap (λ ks. if is_network_config_key k then insert_key k ks else ks)
        (network_config_keys-assign_other key value config h))
]

-- What is written under another key does not touch the links.
links-assign :
    (key value : Text) (config : Config)
    → is_network_config_key key ≡ false
    → network_link_down_states_from_config (assign key value config)
      ≡ network_link_down_states_from_config config
unfolding network_link_down_states_from_config
links-assign key value config h =
    ap (λ r. if length r == 0 then err no_network else ok r)
      (ap (λ ks. network_link_down_states ks (assign key value config))
          (network_config_keys-assign_other key value config h)
        ∙ states_agree (λ b. b) (network_config_keys config) config (assign key value config)
            (λ k m.
              ap link_of (lookup_text-assign_other k key value config (differ k m))
              ∙ same (link_of (lookup_text k config)))
        ∙ map_links_same _)
  where
    differ : (k : Text) → is_in (network_config_keys config) k ≡ true → key ≢ k
    differ k m e = ground (arith, keys_are_network config k m, ap is_network_config_key e, h)

    same : (o : Option Bool) → o ≡ map_link (λ b. b) o
    same none = refl
    same (some b) = refl

no_tags_key : is_network_config_key tags_key ≡ false
unfolding is_network_config_key has_prefix trim_prefix
no_tags_key = refl

module _ (pve : Pve) (server : Answers pve) (vmid : ℕ) where
  abbrev links_at : pve.World → Result PveError (List (Text × Bool))
  links_at w = network_link_down_states_from_config (server.configs w vmid)

  links-remove_vm_tag :
      (tag : Text) (w : pve.World) → links_at (remove_vm_tag pve vmid tag w).1 ≡ links_at w
  unfolding remove_vm_tag get_vm_tags set_vm_tags
  links-remove_vm_tag tag w = rw (server.gets vmid w) (
      let kept =
        keep (λ t. not (equal_fold t (to_lower tag)))
          (tags_of (lookup_text tags_key (server.configs w vmid))) in
      ap network_link_down_states_from_config
        (server.keeps vmid tags_key (join semicolon (map to_lower kept)) w)
      ∙ links-assign tags_key _ (server.configs w vmid) no_tags_key)

  module _ (fl : Float) where
    links-remove_traffic_tags :
        (tags : List Text) (w : pve.World)
        → links_at (remove_traffic_tags pve fl vmid tags w) ≡ links_at w
    unfolding remove_traffic_tags
    links-remove_traffic_tags [] w = refl
    links-remove_traffic_tags (tag ∷ tags) w =
        elim (Bool-cases (has_prefix tag (codes "traffic-"))) [
          | inl e ↦ rw e (
              links-remove_traffic_tags tags (remove_vm_tag pve vmid tag w).1
              ∙ links-remove_vm_tag tag w)
          | inr e ↦ rw e (links-remove_traffic_tags tags w)
        ]

    links-clean_tags :
        (w : pve.World) → links_at (clean_tags pve fl vmid (get_vm_tags pve vmid w)) ≡ links_at w
    unfolding get_vm_tags
    links-clean_tags w = rw (server.gets vmid w) (links-remove_traffic_tags _ w)

    not_recorded : (o : Option (VmState fl.F)) → is_recorded pve fl Action.disconnect o ≡ false
    not_recorded none = refl
    not_recorded (some state) = ground arith

    recorded :
        (period : PeriodType) (rule_name : Text) (use_creation : Bool) (creation now₁ now₂ : Time)
        (states : States pve fl) (w : pve.World)
        → record_vm_state pve fl vmid Action.disconnect period rule_name use_creation creation now₁
            now₂
            (states, w)
          ≡ (
            ok tt,
            (
              record_state
                  (new_state pve fl vmid Action.disconnect period rule_name use_creation creation
                    now₁ now₂
                    (server.statuses w vmid)
                    (ok (server.configs w vmid)))
                  states,
              w,
            ),
          )
    unfolding record_vm_state
    recorded period rule_name use_creation creation now₁ now₂ states w =
        rw (not_recorded (get_state vmid states), server.tells vmid w, server.gets vmid w) refl

    get_state-record_state :
        (state : VmState fl.F) (states : States pve fl)
        → get_state state.vmid (record_state state states) ≡ some state
    unfolding get_state record_state
    get_state-record_state state states = lookup-put_key_self state.vmid state states

    after_undo_runs :
        (states : States pve fl) (p : Result PveError (Unit {0}) × pve.World)
        → p.0 ≡ ok tt
        → let done = after_undo pve fl vmid states p in
          (done.0 ≡ ok tt) × (links_at done.1.1 ≡ links_at p.1) × (get_state vmid done.1.0 ≡ none)
    unfolding get_state remove_state
    after_undo_runs states (r, w) h =
        rw h (refl, links-clean_tags w, lookup-delete_key_self vmid states)

    undo_links :
        (state : VmState fl.F) (links : List (Text × Bool))
        → state.original_net_links ≡ links
        → (length links == 0) ≡ false
        → undo_action pve fl vmid state Action.disconnect
          ≡ restore_network_link_states pve vmid links
    undo_links state links e h =
        ap
          (λ l.
            if length l == 0
            then connect_network pve vmid
            else restore_network_link_states pve vmid l)
          e
        ∙ rw h refl

    -- A VM whose state is recorded, that is taken off the network and then recovered has the links
    -- that it had before, and is no longer recorded; no step returns an error. The server answers
    -- every request, and the VM has an interface.
    pub recover-disconnect :
        (period : PeriodType) (rule_name : Text) (use_creation : Bool) (creation now₁ now₂ : Time)
        (states : States pve fl) (w : pve.World) (links : List (Text × Bool))
        → network_link_down_states_from_config (server.configs w vmid) ≡ ok links
        → let start =
            record_vm_state pve fl vmid Action.disconnect period rule_name use_creation creation
              now₁ now₂
              (states, w) in
          let off = disconnect_network pve vmid start.1.1 in
          let end = recover_vm pve fl vmid (start.1.0, off.1) in
          (start.0 ≡ ok tt)
          × (off.0 ≡ ok tt)
          × (end.0 ≡ ok tt)
          × (network_link_down_states_from_config (server.configs end.1.1 vmid) ≡ ok links)
          × (get_state vmid end.1.0 ≡ none)
    unfolding recover_vm
    recover-disconnect period rule_name use_creation creation now₁ now₂ states w links h =
        let state : VmState fl.F =
          new_state pve fl vmid Action.disconnect period rule_name use_creation creation now₁ now₂
            (server.statuses w vmid) (ok (server.configs w vmid)) in
        let there = restore-disconnect pve server vmid w links h in
        let off = disconnect_network pve vmid w in
        let undone : undo_action pve fl vmid state Action.disconnect off.1
            ≡ restore_network_link_states pve vmid links off.1 =
          ap (λ op. op off.1)
            (undo_links state links (ap (or_else []) h)
              (links_read (server.configs w vmid) links h).1) in
        let found : get_state vmid (record_state state states) ≡ some state =
          get_state-record_state state states in
        let done =
          after_undo_runs (record_state state states)
            (undo_action pve fl vmid state Action.disconnect off.1)
            (ap (λ p. p.0) undone ∙ there.2) in
        rw (recorded period rule_name use_creation creation now₁ now₂ states w, found)
          (refl, there.0, done.0, done.1 ∙ ap (λ p. links_at p.1) undone ∙ there.3, done.2)
