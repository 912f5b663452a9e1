-- ===== src/Loader/Callbacks.antt =====
-- What the callback for a new configuration does after a reload.
use pve_traffic_monitor.Base.{◌≡◌, refl, ap, ◌∙◌, Bool, true, false, [], Option, none, some, ==_iff}
use pve_traffic_monitor.Base.Float.{Float}
use pve_traffic_monitor.Base.Int.{ℤ, pos, negsuc}
use pve_traffic_monitor.Base.Result.{Result, ok, err}
use pve_traffic_monitor.Base.Text.{Text, text_eq_refl}
use pve_traffic_monitor.Validation.{Config}
use pve_traffic_monitor.Loader.{Disk, Loader, reload, on_config_reload, same_bool, same_ℤ}
use pve_traffic_monitor.Loader.Reloads.{time_of, IsReload, reload-IsReload}

same_ℤ_refl : (n : ℤ) → same_ℤ n n ≡ true
same_ℤ_refl (pos n) = (==_iff n n).1 refl
same_ℤ_refl (negsuc n) = (==_iff n n).1 refl

same_bool_refl : (b : Bool) → same_bool b b ≡ true
same_bool_refl true = refl
same_bool_refl false = refl

on_config_reload_same :
    {F : Type 0} (has_api_server : Bool) (c : Config F) → on_config_reload has_api_server c c ≡ []
unfolding on_config_reload
on_config_reload_same has_api_server c = rw (text_eq_refl c.pve.host) (
    rw (same_ℤ_refl c.pve.port) (
      rw (text_eq_refl c.pve.api_token_id) (
        rw (text_eq_refl c.pve.api_token_secret)
          (rw (same_bool_refl c.api.enabled) (rw (same_ℤ_refl c.api.port) refl)))))

abbrev pub current_or : {F : Type 0} → Config F → Option (Config F) → Config F
current_or c none = c
current_or c (some d) = d

module _ (fl : Float) (decode : Text → Option (Config fl.F)) where
  -- A callback that asks the loader for the current configuration after a reload has told it a new one
  -- is given that one, so it neither logs in to a server that has changed nor warns of a changed API.
  pub on_config_reload-reload :
      (disk : Disk) (l : Loader fl.F) (new : Config fl.F) (has_api_server : Bool)
      → (reload fl decode disk l).0 ≡ ok (some new)
      → on_config_reload has_api_server (current_or new (reload fl decode disk l).1.config) new ≡ []
  on_config_reload-reload disk l new has_api_server h =
      ap (λ c. on_config_reload has_api_server c new) (go _ _ (reload-IsReload fl decode disk l) h)
      ∙ on_config_reload_same has_api_server new
    where
      go :
          (r : Result _ (Option (Config fl.F))) (m : Loader fl.F)
          → IsReload fl decode (time_of fl decode disk.modified) l (r, m)
          → r ≡ ok (some new)
          → current_or new m.config ≡ new
      go (ok (some c)) m k e =
          let same : ok (some c) ≡ ok (some new) = e in
          ap (λ x. current_or new x.config) k.1 ∙ cc same
      go (ok none) m k e = let wrong : ok none ≡ ok (some new) = e in cc wrong
      go (err x) m k e = let wrong : err x ≡ ok (some new) = e in cc wrong
