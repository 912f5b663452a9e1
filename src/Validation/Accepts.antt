-- ===== src/Validation/Accepts.antt =====
-- What one check accepts and the other does not.
use pve_traffic_monitor.Base.{
  ◌≡◌, ◌↔◌, refl, sym, ap, ◌∙◌, Bool, true, false, not, ◌&&◌, ◌||◌, List, [], ◌∷◌, every, arith,
}
use pve_traffic_monitor.Base.Float.{Float}
use pve_traffic_monitor.Base.Int.{ℤ, pos, negsuc}
use pve_traffic_monitor.Base.Result.{Result, ok, err}
use pve_traffic_monitor.Rules.{Rule}
use pve_traffic_monitor.Validation.{
  Check, ConfigError, refuse, and_also, given, Config, StorageConfig, ApiConfig, is_empty, is_below,
  is_bad_port, validate_pve, validate_monitor, validate_storage, validate_api, validate_rule,
  validate_rules, validate, check_rules, with_default, check_storage, no_host, bad_port, no_node,
  no_token_id, no_token_secret, bad_interval, short_interval, no_export_path, negative_retention,
  no_rule_name, bad_period, bad_direction, bad_limit, bad_action, bad_rate, no_condition,
  validate_config, has_no_condition,
}

abbrev passes : {A : Type 0} → Result ConfigError A → Bool
passes (ok a) = true
passes (err e) = false

passes-refuse :
    (b : Bool) (e : ConfigError) (rest : Check) → passes (refuse b e rest) ≡ (not b && passes rest)
passes-refuse b e rest = ground arith

passes-and_also : (a b : Check) → passes (and_also a b) ≡ (passes a && passes b)
passes-and_also (ok u) b = refl
passes-and_also (err e) b = refl

passes-given : {A : Type 0} (a : A) (c : Check) → passes (given a c) ≡ passes c
passes-given a (ok u) = refl
passes-given a (err e) = refl

-- What `Validate` asks for and the loader does not.
abbrev pub is_complete : {F : Type 0} → Config F → Bool
is_complete c =
    not (is_empty c.pve.api_token_id)
    && not (is_empty c.pve.api_token_secret)
    && not (is_below c.monitor.interval_seconds 10)
    && not (is_empty c.monitor.export_path)
    && not (is_below c.monitor.data_retention_days 0)
    && not (is_empty c.storage.storage_type)
    && (not c.api.enabled || (not (is_bad_port c.api.port) && not (is_empty c.api.host)))
    && every (λ r. not (has_no_condition r)) c.rules

below_ten : (n : ℤ) → is_below n 10 ≡ false → is_below n 1 ≡ false
unfolding is_below
below_ten (pos n) h = ground arith
below_ten (negsuc n) h = h

storage_agrees :
    (s : StorageConfig)
    → passes (validate_storage s)
      ≡ (not (is_empty s.storage_type) && passes (check_storage (with_default s)))
unfolding validate_storage check_storage with_default
storage_agrees s = ground arith

and_false : (b : Bool) → (b && false) ≡ false
and_false b = ground arith

refused_late :
    (l a t b : Bool) (e : ConfigError)
    → false ≡ (b && passes (refuse l bad_limit (refuse a bad_action (refuse t bad_rate (err e)))))
refused_late true a t b e = sym (and_false b)
refused_late false true t b e = sym (and_false b)
refused_late false false true b e = sym (and_false b)
refused_late false false false b e = sym (and_false b)

-- One rule, by the tests in the order of `Validate`, before rules on which the two agree.
one_rule :
    (n p d l a t c e : Bool) (v s : Check)
    → passes v ≡ (e && passes s)
    → passes (
        and_also
          (refuse n no_rule_name (
            refuse p bad_period (
              refuse d bad_direction (
                refuse l bad_limit
                  (refuse a bad_action (refuse t bad_rate (refuse c no_condition (ok tt))))))))
          v)
      ≡ ((not c && e)
          && passes (
              refuse n no_rule_name (
                refuse p bad_period (
                  refuse l bad_limit
                    (refuse a bad_action (refuse t bad_rate (refuse d bad_direction s)))))))
one_rule true p d l a t c e v s h = sym (and_false (not c && e))
one_rule false true d l a t c e v s h = sym (and_false (not c && e))
one_rule false false true l a t c e v s h = refused_late l a t (not c && e) bad_direction
one_rule false false false true a t c e v s h = sym (and_false (not c && e))
one_rule false false false false true t c e v s h = sym (and_false (not c && e))
one_rule false false false false false true c e v s h = sym (and_false (not c && e))
one_rule false false false false false false true e v s h = refl
one_rule false false false false false false false e v s h = h

shuffle : (y a z c r : Bool) → ((y && c) && (a && (z && r))) ≡ ((y && a && z) && (c && r))
shuffle y a z c r = ground arith

api_agrees :
    (a : ApiConfig)
    → passes (validate_api a)
      ≡ (not a.enabled || (not (is_bad_port a.port) && not (is_empty a.host)))
unfolding validate_api
api_agrees a = ground arith

passes_ok : (c : Check) → passes c ≡ true → c ≡ ok tt
passes_ok (ok u) h = refl
passes_ok (err e) h = ground arith

both_true : (a b : Bool) → (a && b) ≡ true → (a ≡ true) × (b ≡ true)
both_true a b h = ground arith

given_ok :
    {A : Type 0} (a a' : A) (c : Check) → a ≡ a' → passes (given a c) ≡ true → given a c ≡ ok a'
given_ok a a' (ok u) e h = ap ok e
given_ok a a' (err e') e h = ground arith

is_complete_typed :
    {F : Type 0} (c : Config F) → is_complete c ≡ true → is_empty c.storage.storage_type ≡ false
is_complete_typed c h = ground arith

with_default_same : (s : StorageConfig) → is_empty s.storage_type ≡ false → with_default s ≡ s
unfolding with_default
with_default_same s h = rw h refl

-- The parts, by the tests in the order of `Validate`.
all_parts :
    (h p n i s t u x r y a z : Bool) (sv sc av rv rs : Check)
    → passes sv ≡ (y && passes sc)
    → passes av ≡ a
    → passes rv ≡ (z && passes rs)
    → passes (
        and_also
          (refuse h no_host (
            refuse p bad_port
              (refuse n no_node (refuse i no_token_id (refuse s no_token_secret (ok tt))))))
          (and_also
            (refuse t bad_interval (
              refuse u short_interval
                (refuse x no_export_path (refuse r negative_retention (ok tt)))))
            (and_also sv (and_also av rv))))
      ≡ ((not i && not s && not u && not x && not r && y && a && z)
          && passes (
              refuse h no_host
                (refuse p bad_port (refuse n no_node (refuse t bad_interval (and_also sc rs))))))
all_parts true p n i s t u x r y a z sv sc av rv rs es ea er = sym (and_false _)
all_parts false true n i s t u x r y a z sv sc av rv rs es ea er = sym (and_false _)
all_parts false false true i s t u x r y a z sv sc av rv rs es ea er = sym (and_false _)
all_parts false false false true s t u x r y a z sv sc av rv rs es ea er = refl
all_parts false false false false true t u x r y a z sv sc av rv rs es ea er = refl
all_parts false false false false false true u x r y a z sv sc av rv rs es ea er = sym (and_false _)
all_parts false false false false false false true x r y a z sv sc av rv rs es ea er = refl
all_parts false false false false false false false true r y a z sv sc av rv rs es ea er = refl
all_parts false false false false false false false false true y a z sv sc av rv rs es ea er = refl
all_parts false false false false false false false false false y a z sv sc av rv rs es ea er =
    passes-and_also sv (and_also av rv)
    ∙ cc (es, passes-and_also av rv, ea, er)
    ∙ shuffle y a z (passes sc) (passes rs)
    ∙ ap (λ b. (y && a && z) && b) (sym (passes-and_also sc rs))

module _ (fl : Float) where
  rules_agree :
      (rules : List (Rule fl.F))
      → passes (validate_rules fl rules)
        ≡ (every (λ r. not (has_no_condition r)) rules && passes (check_rules fl rules))
  unfolding validate_rules validate_rule check_rules
  rules_agree [] = refl
  rules_agree (r ∷ rules) = one_rule _ _ _ _ _ _ _ _ _ _ (rules_agree rules)

  both_agree :
      (c : Config fl.F) → passes (validate fl c) ≡ (is_complete c && passes (validate_config fl c))
  unfolding validate validate_pve validate_monitor validate_config
  both_agree c =
      all_parts _ _ _ _ _ _ _ _ _ _ _ _ _ _ _ _ _ (storage_agrees c.storage) (api_agrees c.api)
        (rules_agree c.rules)
      ∙ ap (λ b. is_complete c && b) (sym (passes-given _ _))

  config_kept :
      (c : Config fl.F)
      → is_complete c ≡ true
      → passes (validate_config fl c) ≡ true
      → validate_config fl c ≡ ok c
  unfolding validate_config
  config_kept c h p =
      given_ok _ c _
        (ap (λ s. record c { storage = s }) (with_default_same c.storage (is_complete_typed c h))) p

  -- Which configurations the two checks accept: `Validate` exactly those that the loader accepts and
  -- that also have a token, an interval of 10 seconds or more, an export path, a retention that is not
  -- negative, a storage type, a port and a host for an API that is enabled, and a VM or a tag in each
  -- rule; and such a configuration the loader leaves as it is.
  pub validate_accepts :
      (c : Config fl.F)
      → (validate fl c ≡ ok tt) ↔ ((is_complete c ≡ true) × (validate_config fl c ≡ ok c))
  validate_accepts c = (
    λ e.
        let (complete, kept) = both_true _ _ (sym (both_agree c) ∙ ap passes e) in
        (complete, config_kept c complete kept),
    λ (complete, kept). passes_ok _ (both_agree c ∙ cc (complete, ap passes kept)),
  )
