-- ===== src/Loader/Reloads.antt =====
-- The configuration that the loader has after any reloads.
use pve_traffic_monitor.Base.{
  ◌≡◌, refl, sym, subst, ap, ◌∙◌, inl, inr, not, ◌&&◌, List, [], ◌∷◌, Option, none, some,
  Bool-cases,
}
use pve_traffic_monitor.Base.Float.{Float}
use pve_traffic_monitor.Base.Result.{Result, ok, err}
use pve_traffic_monitor.Base.Text.{Text, text_eq}
use pve_traffic_monitor.Clock.{Time, after, is_zero}
use pve_traffic_monitor.Validation.{
  Config, StorageConfig, ConfigError, Check, given, with_default, validate_config,
}
use pve_traffic_monitor.Loader.{
  Disk, Loader, Reloaded, update_with, check_decoded, decode_content, reload_modified, reload,
  reloads,
}

with_default_idem : (s : StorageConfig) → with_default (with_default s) ≡ with_default s
unfolding with_default text_eq
with_default_idem s = elim (Bool-cases (text_eq s.storage_type [])) [
  | inl e ↦ rw e refl
  | inr e ↦ rw e (rw e refl)
]

given_ok : {A : Type 0} (a b : A) (check : Check) → given a check ≡ ok b → a ≡ b
given_ok a b (ok done) h = let same : ok a ≡ ok b = h in cc same
given_ok a b (err e) h = let wrong : err e ≡ ok b = h in cc wrong

module _ (fl : Float) where
  abbrev defaulted : Config fl.F → Config fl.F
  defaulted c = record c { storage = with_default c.storage }

  validate_config-defaulted :
      (c : Config fl.F) → validate_config fl (defaulted c) ≡ validate_config fl c
  unfolding validate_config
  validate_config-defaulted c = rw (with_default_idem c.storage) refl

  pub validate_config_again :
      (c c' : Config fl.F) → validate_config fl c ≡ ok c' → validate_config fl c' ≡ ok c'
  unfolding validate_config
  validate_config_again c c' h =
      ap (validate_config fl) (sym (given_ok (defaulted c) c' _ h))
      ∙ validate_config-defaulted c
      ∙ h

  abbrev pub IsChecked : Option (Config fl.F) → Type 0
  IsChecked none = Unit
  IsChecked (some c) = validate_config fl c ≡ ok c

module _ (fl : Float) (decode : Text → Option (Config fl.F)) where
  -- What a call to reload may leave: the loader as it was, or one with a configuration that is checked
  -- and that the callbacks are told.
  abbrev pub IsReload : Time → Loader fl.F → Reloaded fl decode → Type 0
  IsReload modified l (err e, l') = l' ≡ l
  IsReload modified l (ok none, l') = l' ≡ l
  IsReload modified l (ok (some c), l') =
      (validate_config fl c ≡ ok c) × (l' ≡ record { config = some c; last_modified = modified })

  update_with-IsReload :
      (modified : Time) (l : Loader fl.F) (c : Config fl.F)
      (checked : Result ConfigError (Config fl.F))
      → validate_config fl c ≡ checked
      → IsReload modified l (update_with fl decode modified l checked)
  update_with-IsReload modified l c (err e) h = refl
  update_with-IsReload modified l c (ok c') h = (validate_config_again fl c c' h, refl)

  decode_content-IsReload :
      (modified : Time) (l : Loader fl.F) (content : Option Text)
      → IsReload modified l (decode_content fl decode modified l content)
  decode_content-IsReload modified l none = refl
  decode_content-IsReload modified l (some s) = go (decode s)
    where
      go : (c : Option (Config fl.F)) → IsReload modified l (check_decoded fl decode modified l c)
      go none = refl
      go (some c) = update_with-IsReload modified l c (validate_config fl c) refl

  abbrev pub time_of : Option Time → Time
  time_of none = 0
  time_of (some t) = t

  pub reload-IsReload :
      (disk : Disk) (l : Loader fl.F) → IsReload (time_of disk.modified) l (reload fl decode disk l)
  unfolding reload
  reload-IsReload disk l = go disk.modified
    where
      go : (m : Option Time) → IsReload (time_of m) l (reload_modified fl decode disk.content l m)
      go none = refl
      go (some t) =
          elim (Bool-cases (not (is_zero l.last_modified) && not (after t l.last_modified))) [
            | inl e ↦ rw e refl
            | inr e ↦ rw e (decode_content-IsReload t l disk.content)
          ]

  IsReload-IsChecked :
      (modified : Time) (l : Loader fl.F) (r : Reloaded fl decode)
      → IsReload modified l r
      → IsChecked fl l.config
      → IsChecked fl r.1.config
  IsReload-IsChecked modified l (err e, l') h c = subst (λ m. IsChecked fl m.config) (sym h) c
  IsReload-IsChecked modified l (ok none, l') h c = subst (λ m. IsChecked fl m.config) (sym h) c
  IsReload-IsChecked modified l (ok (some d), l') h c =
      subst (λ m. IsChecked fl m.config) (sym h.1) h.0

  -- After any reloads, of files that may be missing, broken or wrong, the configuration that the
  -- program works with passes the loader's check, and has its default set, if the first one does.
  pub reloads-IsChecked :
      (disks : List Disk) (l : Loader fl.F)
      → IsChecked fl l.config
      → IsChecked fl (reloads fl decode disks l).config
  unfolding reloads
  reloads-IsChecked [] l h = h
  reloads-IsChecked (disk ∷ disks) l h =
      reloads-IsChecked disks (reload fl decode disk l).1
        (IsReload-IsChecked _ l (reload fl decode disk l) (reload-IsReload disk l) h)
