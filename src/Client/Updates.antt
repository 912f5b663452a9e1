-- ===== src/Client/Updates.antt =====
-- What the loop over the network interfaces leaves in a VM's configuration.
use pve_traffic_monitor.Base.{
  ℕ, ◌≡◌, ◌≢◌, ◌⊎◌, inl, inr, refl, ap, ◌∙◌, Bool, true, false, ◌||◌, List, [], ◌∷◌, any, Option,
  none, some, Bool-cases, arith, if◌then◌else◌,
}
use pve_traffic_monitor.Base.Result.{ok, err, Result}
use pve_traffic_monitor.Base.Text.{Text, text_eq, text_eq_iff}
use pve_traffic_monitor.Network.{PveError, no_network, Config, lookup_text, network_config_keys}
use pve_traffic_monitor.Client.{
  Pve, written, wrote_any, put_one, put_networks, update_networks, and_then,
}
use pve_traffic_monitor.Client.Server.{
  Answers, assign, lookup_text-assign_self, lookup_text-assign_other, network_config_keys-assign,
}

-- The text of an interface after the loop has passed it.
abbrev pub updated : (Text → Option Text) → Option Text → Option Text
updated new none = none
updated new (some s) = elim (new s) [ none ↦ some s | some t ↦ some t ]

module _ (new : Text → Text → Option Text) (base : Config) where
  abbrev put_if : Text → Option Text → Config → Config
  put_if key none config = config
  put_if key (some t) config = assign key t config

  unfoldable pub assign_all : List Text → Config → Config
  assign_all [] config = config
  assign_all (key ∷ keys) config = assign_all keys (put_if key (written new base key) config)

  abbrev pub writes_one : Option Text → Bool
  writes_one none = false
  writes_one (some t) = true

  unfoldable pub writes : List Text → Bool
  writes keys = any (λ key. writes_one (written new base key)) keys

  -- The invariant of the loop: an interface has its old text or its new one.
  put_if_other :
      (j k : Text) (config : Config)
      → j ≢ k
      → lookup_text k (put_if j (written new base j) config) ≡ lookup_text k config
  put_if_other j k config h = go (written new base j)
    where
      go : (o : Option Text) → lookup_text k (put_if j o config) ≡ lookup_text k config
      go none = refl
      go (some t) = lookup_text-assign_other k j t config h

  put_if_self :
      (k : Text) (config : Config)
      → (lookup_text k config ≡ lookup_text k base)
        ⊎ (lookup_text k config ≡ updated (new k) (lookup_text k base))
      → lookup_text k (put_if k (written new base k) config) ≡ updated (new k) (lookup_text k base)
  put_if_self k config h = go (lookup_text k base) h
    where
      go :
          (o : Option Text)
          → (lookup_text k config ≡ o) ⊎ (lookup_text k config ≡ updated (new k) o)
          → lookup_text k (put_if k (elim o [ none ↦ none | some s ↦ new k s ]) config)
            ≡ updated (new k) o
      go none (inl e) = e
      go none (inr e) = e
      go (some s) q = go_some (new k s) q
        where
          go_some :
              (t : Option Text)
              → (lookup_text k config ≡ some s)
                ⊎ (lookup_text k config ≡ (elim t [ none ↦ some s | some t' ↦ some t' ]))
              → lookup_text k (put_if k t config) ≡ (elim t [ none ↦ some s | some t' ↦ some t' ])
          go_some none (inl e) = e
          go_some none (inr e) = e
          go_some (some t) q = lookup_text-assign_self k t config

  stays_updated :
      (keys : List Text) (k : Text) (config : Config)
      → lookup_text k config ≡ updated (new k) (lookup_text k base)
      → lookup_text k (assign_all keys config) ≡ updated (new k) (lookup_text k base)
  unfolding assign_all
  stays_updated [] k config h = h
  stays_updated (j ∷ keys) k config h =
      stays_updated keys k (put_if j (written new base j) config) (elim (Bool-cases (text_eq j k)) [
        | inl q ↦
            ap (λ i. lookup_text k (put_if i (written new base i) config)) ((text_eq_iff j k).0 q)
            ∙ put_if_self k config (inr h)
        | inr q ↦ put_if_other j k config (λ e. ground (arith, text_eq_iff j k)) ∙ h
      ])

  -- Every interface among the keys has its new text.
  pub lookup_text-assign_all :
      (keys : List Text) (k : Text) (config : Config)
      → lookup_text k config ≡ lookup_text k base
      → any (λ j. text_eq j k) keys ≡ true
      → lookup_text k (assign_all keys config) ≡ updated (new k) (lookup_text k base)
  unfolding assign_all
  lookup_text-assign_all [] k config h m = ground arith
  lookup_text-assign_all (j ∷ keys) k config h m = elim (Bool-cases (text_eq j k)) [
    | inl q ↦ stays_updated keys k (put_if j (written new base j) config) (
        ap (λ i. lookup_text k (put_if i (written new base i) config)) ((text_eq_iff j k).0 q)
        ∙ put_if_self k config (inl h))
    | inr q ↦
        lookup_text-assign_all keys k (put_if j (written new base j) config)
          (put_if_other j k config (λ e. ground (arith, text_eq_iff j k)) ∙ h) (rw q at m)
  ]

  abbrev Follows : Config → Type 0
  Follows config =
      (k : Text)
      → (lookup_text k config ≡ lookup_text k base)
        ⊎ (lookup_text k config ≡ updated (new k) (lookup_text k base))

  put_if-Follows :
      (j : Text) (config : Config) → Follows config → Follows (put_if j (written new base j) config)
  put_if-Follows j config h k = elim (Bool-cases (text_eq j k)) [
    | inl q ↦ inr (
        ap (λ i. lookup_text k (put_if i (written new base i) config)) ((text_eq_iff j k).0 q)
        ∙ put_if_self k config (h k))
    | inr q ↦ elim (h k) [
      | inl e ↦ inl (put_if_other j k config (λ e'. ground (arith, text_eq_iff j k)) ∙ e)
      | inr e ↦ inr (put_if_other j k config (λ e'. ground (arith, text_eq_iff j k)) ∙ e)
    ]
  ]

  network_config_keys-put_if :
      (j : Text) (config : Config)
      → Follows config
      → network_config_keys (put_if j (written new base j) config) ≡ network_config_keys config
  network_config_keys-put_if j config h = go (lookup_text j base) (h j)
    where
      go :
          (o : Option Text)
          → (lookup_text j config ≡ o) ⊎ (lookup_text j config ≡ updated (new j) o)
          → network_config_keys (put_if j (elim o [ none ↦ none | some s ↦ new j s ]) config)
            ≡ network_config_keys config
      go none q = refl
      go (some s) q = go_some (new j s) q
        where
          go_some :
              (t : Option Text)
              → (lookup_text j config ≡ some s)
                ⊎ (lookup_text j config ≡ (elim t [ none ↦ some s | some t' ↦ some t' ]))
              → network_config_keys (put_if j t config) ≡ network_config_keys config
          go_some none q = refl
          go_some (some t) (inl e) = network_config_keys-assign j t s config e
          go_some (some t) (inr e) = network_config_keys-assign j t t config e

  network_config_keys-assign_all_from :
      (keys : List Text) (config : Config)
      → Follows config
      → network_config_keys (assign_all keys config) ≡ network_config_keys config
  unfolding assign_all
  network_config_keys-assign_all_from [] config h = refl
  network_config_keys-assign_all_from (j ∷ keys) config h =
      network_config_keys-assign_all_from keys (put_if j (written new base j) config)
        (put_if-Follows j config h)
      ∙ network_config_keys-put_if j config h

  -- The loop adds no interface and removes none.
  pub network_config_keys-assign_all :
      (keys : List Text) → network_config_keys (assign_all keys base) ≡ network_config_keys base
  network_config_keys-assign_all keys =
      network_config_keys-assign_all_from keys base (λ k. inl refl)

pub and_then-ok :
    (pve : Pve) {A B : Type 0} (f : A → pve.World → Result PveError B × pve.World)
    (p : Result PveError A × pve.World) (a : A)
    → p.0 ≡ ok a
    → and_then pve f p ≡ f a p.1
and_then-ok pve f (r, w) a h = ap (λ q. and_then pve f (q, w)) h

module _ (pve : Pve) (server : Answers pve) (new : Text → Text → Option Text) where
  -- The loop ends well, and the server keeps what the loop has written.
  abbrev RunsTo : ℕ → Result PveError Bool × pve.World → Bool → Config → Type 0
  RunsTo vmid (r, w) b config = (r ≡ ok b) × (server.configs w vmid ≡ config)

  put_one_runs :
      (vmid : ℕ) (base : Config) (key : Text) (keys : List Text) (o : Option Text)
      (next : Bool → pve.World → Result PveError Bool × pve.World)
      → ((b : Bool) (w : pve.World)
          → RunsTo vmid
              (next b w)
              (b || writes new base keys)
              (assign_all new base keys (server.configs w vmid)))
      → (b : Bool) (w : pve.World)
      → RunsTo vmid
          (put_one pve vmid key o next b w)
          (b || (writes_one new base o || writes new base keys))
          (assign_all new base keys (put_if new base key o (server.configs w vmid)))
  put_one_runs vmid base key keys none next h b w = h b w
  put_one_runs vmid base key keys (some t) next h b w =
      let done =
        and_then-ok pve (λ u. next true) (pve.put_vm_config vmid key t w) tt
          (server.puts vmid key t w) in
      let after = h true (pve.put_vm_config vmid key t w).1 in
      (
        ap (λ p. p.0) done ∙ after.0 ∙ ap ok (ground arith),
        ap (λ p. server.configs p.1 vmid) done
            ∙ after.1
            ∙ ap (assign_all new base keys) (server.keeps vmid key t w),
      )

  put_networks_runs :
      (vmid : ℕ) (keys : List Text) (base : Config) (b : Bool) (w : pve.World)
      → RunsTo vmid
          (put_networks pve vmid new keys base b w)
          (b || writes new base keys)
          (assign_all new base keys (server.configs w vmid))
  unfolding put_networks writes assign_all
  put_networks_runs vmid [] base b w = (ground arith, refl)
  put_networks_runs vmid (key ∷ keys) base b w =
      put_one_runs vmid base key keys (written new base key) (put_networks pve vmid new keys base)
        (put_networks_runs vmid keys base) b w

  wrote_any_runs :
      (vmid : ℕ) (p : Result PveError Bool × pve.World) (b : Bool) (config : Config)
      → RunsTo vmid p b config
      → ((and_then pve (wrote_any pve) p).0 ≡ (if b then ok tt else err no_network))
        × (server.configs (and_then pve (wrote_any pve) p).1 vmid ≡ config)
  wrote_any_runs vmid (r, w) true config h = rw h.0 (refl, h.1)
  wrote_any_runs vmid (r, w) false config h = rw h.0 (refl, h.1)

  -- An operation on the network reads the interfaces and writes all of them, and returns an error
  -- only if it writes none.
  pub update_networks_runs :
      (vmid : ℕ) (w : pve.World)
      → let base = server.configs w vmid in
        let keys = network_config_keys base in
        let done = update_networks pve vmid new w in
        (done.0 ≡ (if writes new base keys then ok tt else err no_network))
        × (server.configs done.1 vmid ≡ assign_all new base keys base)
  unfolding update_networks
  update_networks_runs vmid w = rw (server.gets vmid w) (
      wrote_any_runs vmid (put_networks pve vmid new (network_config_keys base) base false w) _ _
        (put_networks_runs vmid (network_config_keys base) base false w))
    where
      base : Config
      base = server.configs w vmid
