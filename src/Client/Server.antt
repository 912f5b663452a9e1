-- ===== src/Client/Server.antt =====
-- A server that answers every request, and the map that it keeps for each VM.
use pve_traffic_monitor.Base.{
  ℕ, ◌≡◌, ◌≢◌, refl, [], ◌∷◌, some, if◌then◌else◌, Bool-cases, inl, inr, arith, ap, ◌∙◌, sym,
}
use pve_traffic_monitor.Base.Maps.{lookup, text_Eq}
use pve_traffic_monitor.Base.Result.{ok}
use pve_traffic_monitor.Base.Text.{Text, text_eq, text_eq_iff}
use pve_traffic_monitor.Network.{
  Config, text, lookup_text, text_of, network_config_keys, is_network_config_key, insert_key,
}
use pve_traffic_monitor.Client.{Pve}

-- config[key] = value
unfoldable pub assign : Text → Text → Config → Config
assign key value [] = (key, text value) ∷ []
assign key value ((k, v) ∷ config) =
    if text_eq k key then (k, text value) ∷ config else (k, v) ∷ assign key value config

-- A GET returns the VM's configuration and changes nothing; a PUT sets the key in the configuration
-- of that VM.
pub record Answers (pve : Pve) : Type 0 where
  pub configs : pve.World → ℕ → Config
  pub gets : (vmid : ℕ) (w : pve.World) → pve.get_vm_config vmid w ≡ (ok (configs w vmid), w)
  pub statuses : pve.World → ℕ → Text
  pub tells : (vmid : ℕ) (w : pve.World) → pve.get_vm_status vmid w ≡ (ok (statuses w vmid), w)
  pub puts :
      (vmid : ℕ) (key value : Text) (w : pve.World) → (pve.put_vm_config vmid key value w).0 ≡ ok tt
  pub keeps :
      (vmid : ℕ) (key value : Text) (w : pve.World)
      → configs (pve.put_vm_config vmid key value w).1 vmid ≡ assign key value (configs w vmid)

lookup-assign_self :
    (key value : Text) (config : Config) → lookup key (assign key value config) ≡ some (text value)
unfolding lookup assign
lookup-assign_self key value [] = rw ((text_eq_iff key key).1 refl) refl
lookup-assign_self key value ((k, v) ∷ config) = ground (arith, lookup-assign_self key value config)

lookup-assign_other :
    (key k value : Text) (config : Config)
    → k ≢ key
    → lookup key (assign k value config) ≡ lookup key config
unfolding lookup assign
lookup-assign_other key k value [] h = ground (arith, text_eq_iff k key)
lookup-assign_other key k value ((j, v) ∷ config) h = ground (
  arith,
  lookup-assign_other key k value config h,
  text_eq_iff k key,
  text_eq_iff j k,
  text_eq_iff j key,
)

pub lookup_text-assign_self :
    (key value : Text) (config : Config) → lookup_text key (assign key value config) ≡ some value
unfolding lookup_text
lookup_text-assign_self key value config = ap text_of (lookup-assign_self key value config)

pub lookup_text-assign_other :
    (key k value : Text) (config : Config)
    → k ≢ key
    → lookup_text key (assign k value config) ≡ lookup_text key config
unfolding lookup_text
lookup_text-assign_other key k value config h =
    ap text_of (lookup-assign_other key k value config h)

-- A key that is there already stays in its place.
pub network_config_keys-assign :
    (key value old : Text) (config : Config)
    → lookup_text key config ≡ some old
    → network_config_keys (assign key value config) ≡ network_config_keys config
unfolding network_config_keys lookup_text lookup assign
network_config_keys-assign key value old [] h = ground arith
network_config_keys-assign key value old ((k, v) ∷ config) h = elim (Bool-cases (text_eq k key)) [
  | inl q ↦ rw q refl
  | inr q ↦ rw q (
      ap (λ ks. if is_network_config_key k then insert_key k ks else ks)
        (network_config_keys-assign key value old config (ap text_of (sym (rw q refl)) ∙ h)))
]
