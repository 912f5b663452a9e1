-- ===== src/Loader.antt =====
-- The loader of the configuration, pkg/config/loader.go and watcher.go, and the callback for a new
-- configuration, onConfigReload of cmd/monitor/main.go. What the file system has at a call, and the
-- decoding of JSON, are parameters.
pub mod Reloads
pub mod Callbacks
use pve_traffic_monitor.Base.{
  ℕ, suc, ◌==◌, Bool, true, false, not, ◌&&◌, ◌||◌, List, [], ◌∷◌, ◌++◌, Option, none, some,
  if◌then◌else◌,
}
use pve_traffic_monitor.Base.Float.{Float}
use pve_traffic_monitor.Base.Int.{ℤ, pos, negsuc}
use pve_traffic_monitor.Base.Result.{Result, ok, err}
use pve_traffic_monitor.Base.Text.{Text, text_eq}
use pve_traffic_monitor.Clock.{Time, after, is_zero}
use pve_traffic_monitor.Rules.{Rule}
use pve_traffic_monitor.Validation.{Config, PveConfig, ConfigError, validate_config}

-- The file's time of modification and its text, each `none` for an error.
pub record Disk : Type 0 where
  pub modified : Option Time
  pub content : Option Text

pub record Loader (F : Type 0) : Type 0 where
  pub config : Option (Config F)
  pub last_modified : Time

pub data ReloadError : Type 0 where
  no_file unreadable undecodable : ReloadError
  invalid : ConfigError → ReloadError

abbrev pub new_loader : {F : Type 0} → Loader F
new_loader = record { config = none; last_modified = 0 }

module _ (fl : Float) (decode : Text → Option (Config fl.F)) where
  -- The configuration that the callbacks are told, or none where the file is passed over.
  abbrev pub Reloaded : Type 0
  Reloaded = Result ReloadError (Option (Config fl.F)) × Loader fl.F

  abbrev pub update_with : Time → Loader fl.F → Result ConfigError (Config fl.F) → Reloaded
  update_with modified l (err e) = (err (invalid e), l)
  update_with modified l (ok c) =
      (ok (some c), record { config = some c; last_modified = modified })

  abbrev pub check_decoded : Time → Loader fl.F → Option (Config fl.F) → Reloaded
  check_decoded modified l none = (err undecodable, l)
  check_decoded modified l (some c) = update_with modified l (validate_config fl c)

  abbrev pub decode_content : Time → Loader fl.F → Option Text → Reloaded
  decode_content modified l none = (err unreadable, l)
  decode_content modified l (some s) = check_decoded modified l (decode s)

  abbrev pub reload_modified : Option Text → Loader fl.F → Option Time → Reloaded
  reload_modified content l none = (err no_file, l)
  reload_modified content l (some modified) =
      let loaded = decode_content modified l content in
      if not (is_zero l.last_modified) && not (after modified l.last_modified)
      then (ok none, l)
      else loaded

  unfoldable pub reload : Disk → Loader fl.F → Reloaded
  reload disk l = reload_modified disk.content l disk.modified

  -- The first load, whose error is returned.
  abbrev pub loaded_from : Reloaded → Result ReloadError (Loader fl.F)
  loaded_from (ok c, l) = ok l
  loaded_from (err e, l) = err e

  unfoldable pub load_new : Disk → Result ReloadError (Loader fl.F)
  load_new disk = loaded_from (reload disk new_loader)

  -- The reloads of StartAutoReload, watchSignals and TriggerReload, one after the other; their errors
  -- are logged.
  unfoldable pub reloads : List Disk → Loader fl.F → Loader fl.F
  reloads [] l = l
  reloads (disk ∷ disks) l = reloads disks (reload disk l).1

unfoldable pub count_enabled_rules : {F : Type 0} → List (Rule F) → ℕ
count_enabled_rules [] = 0
count_enabled_rules (rule ∷ rules) =
    let rest = count_enabled_rules rules in if rule.enabled then suc rest else rest

-- What the callback does: it logs in with a new client, or warns that the program is to be restarted.
pub data Effect : Type 0 where
  log_in : PveConfig → Effect
  api_changed api_enabled : Effect

abbrev pub same_bool : Bool → Bool → Bool
same_bool true b = b
same_bool false b = not b

-- n == m
abbrev pub same_ℤ : ℤ → ℤ → Bool
same_ℤ (pos n) (pos m) = n == m
same_ℤ (negsuc n) (negsuc m) = n == m
same_ℤ _ _ = false

abbrev pub is_other_server : PveConfig → PveConfig → Bool
is_other_server p q =
    not (text_eq p.host q.host)
    || not (same_ℤ p.port q.port)
    || not (text_eq p.api_token_id q.api_token_id)
    || not (text_eq p.api_token_secret q.api_token_secret)

-- `current` is what the loader has when the callback asks it.
unfoldable pub on_config_reload : {F : Type 0} → Bool → Config F → Config F → List Effect
on_config_reload has_api_server current new =
    (if is_other_server current.pve new.pve then log_in new.pve ∷ [] else [])
    ++ (if not (same_bool current.api.enabled new.api.enabled)
          || not (same_ℤ current.api.port new.api.port)
        then (if has_api_server
            then api_changed ∷ []
            else if new.api.enabled
            then api_enabled ∷ []
            else [])
        else [])
