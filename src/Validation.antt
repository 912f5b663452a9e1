-- ===== src/Validation.antt =====
-- The configuration and its two checks: `Validate` of pkg/models/validation.go, and the one of the
-- loader, `validateConfig` of pkg/config/loader.go.
pub mod Accepts
use pve_traffic_monitor.Base.{
  ℕ, Bool, true, false, not, ◌&&◌, ◌||◌, List, [], ◌∷◌, any, length, ltb, leb, ◌==◌, if◌then◌else◌,
}
use pve_traffic_monitor.Base.Float.{Float}
use pve_traffic_monitor.Base.Int.{ℤ, pos, negsuc}
use pve_traffic_monitor.Base.Result.{Result, ok, err}
use pve_traffic_monitor.Base.Text.{Text, codes, text_eq, to_lower}
use pve_traffic_monitor.Models.{PeriodType, Direction, Action}
use pve_traffic_monitor.Rules.{Rule}

pub record PveConfig : Type 0 where
  pub host : Text
  pub port : ℤ
  pub node : Text
  pub api_token_id : Text
  pub api_token_secret : Text

pub record MonitorConfig : Type 0 where
  pub interval_seconds : ℤ
  pub export_path : Text
  pub include_templates : Bool
  pub data_retention_days : ℤ

pub record StorageConfig : Type 0 where
  pub storage_type : Text
  pub file_path : Text
  pub dsn : Text
  pub max_open_conns : ℤ
  pub max_idle_conns : ℤ
  pub conn_max_lifetime : ℤ

pub record ApiConfig : Type 0 where
  pub enabled : Bool
  pub host : Text
  pub port : ℤ
  pub token : Text

pub record Config (F : Type 0) : Type 0 where
  pub pve : PveConfig
  pub monitor : MonitorConfig
  pub storage : StorageConfig
  pub rules : List (Rule F)
  pub api : ApiConfig

pub data ConfigError : Type 0 where
  no_host no_node no_token_id no_token_secret bad_port : ConfigError
  bad_interval short_interval no_export_path negative_retention : ConfigError
  no_storage_type unknown_storage no_file_path no_dsn : ConfigError
  no_rule_name bad_period bad_direction bad_limit bad_action bad_rate no_condition : ConfigError

abbrev pub Check : Type 0
Check = Result ConfigError (Unit {0})

-- An early return with an error.
abbrev pub refuse : Bool → ConfigError → Check → Check
refuse true e rest = err e
refuse false e rest = rest

abbrev pub and_also : Check → Check → Check
and_also (ok done) rest = rest
and_also (err e) rest = err e

abbrev pub given : {A : Type 0} → A → Check → Result ConfigError A
given a (ok done) = ok a
given a (err e) = err e

abbrev pub is_empty : Text → Bool
is_empty s = text_eq s []

-- n < b
unfoldable pub is_below : ℤ → ℕ → Bool
is_below (pos n) b = ltb n b
is_below (negsuc n) b = true

-- n <= 0 || n > 65535
unfoldable pub is_bad_port : ℤ → Bool
is_bad_port (pos n) = leb n 0 || ltb 65535 n
is_bad_port (negsuc n) = true

unfoldable pub validate_pve : PveConfig → Check
validate_pve p = refuse (is_empty p.host) no_host (
    refuse (is_bad_port p.port) bad_port (
      refuse (is_empty p.node) no_node (
        refuse (is_empty p.api_token_id) no_token_id
          (refuse (is_empty p.api_token_secret) no_token_secret (ok tt)))))

unfoldable pub validate_monitor : MonitorConfig → Check
validate_monitor m = refuse (is_below m.interval_seconds 1) bad_interval (
    refuse (is_below m.interval_seconds 10) short_interval (
      refuse (is_empty m.export_path) no_export_path
        (refuse (is_below m.data_retention_days 0) negative_retention (ok tt))))

abbrev pub file_word : Text
file_word = codes "file"

abbrev pub database_words : List Text
database_words =
    codes "mysql" ∷ codes "postgres" ∷ codes "postgresql" ∷ codes "sqlite" ∷ codes "sqlite3" ∷ []

abbrev pub is_database : Text → Bool
is_database t = any (text_eq t) database_words

unfoldable pub validate_storage : StorageConfig → Check
validate_storage s =
    let t = to_lower s.storage_type in
    refuse (is_empty s.storage_type) no_storage_type (
      refuse (not (text_eq t file_word || is_database t)) unknown_storage (
        refuse (text_eq t file_word && is_empty s.file_path) no_file_path
          (refuse (not (text_eq t file_word) && is_empty s.dsn) no_dsn (ok tt))))

-- config.Storage.Type = "file" where it is empty
unfoldable pub with_default : StorageConfig → StorageConfig
with_default s = record s {
  storage_type = if is_empty s.storage_type then file_word else s.storage_type;
}

unfoldable pub check_storage : StorageConfig → Check
check_storage s =
    let t = to_lower s.storage_type in
    if text_eq t file_word
    then refuse (is_empty s.file_path) no_file_path (ok tt)
    else if is_database t
    then refuse (is_empty s.dsn) no_dsn (ok tt)
    else err unknown_storage

unfoldable pub validate_api : ApiConfig → Check
validate_api a =
    if a.enabled
    then refuse (is_bad_port a.port) bad_port (refuse (is_empty a.host) no_host (ok tt))
    else ok tt

abbrev pub is_rule_period : PeriodType → Bool
is_rule_period PeriodType.hour = true
is_rule_period PeriodType.day = true
is_rule_period PeriodType.month = true
is_rule_period _ = false

-- The empty text stands for the default.
abbrev pub is_rule_direction : Direction → Bool
is_rule_direction (Direction.other s) = is_empty s
is_rule_direction _ = true

abbrev pub is_rule_action : Action → Bool
is_rule_action (Action.other s) = false
is_rule_action _ = true

abbrev pub limits_rate : Action → Bool
limits_rate Action.rate_limit = true
limits_rate _ = false

abbrev pub has_no_condition : {F : Type 0} → Rule F → Bool
has_no_condition r = (length r.vm_ids == 0) && (length r.vm_tags == 0)

module _ (fl : Float) where
  abbrev pub not_above_zero : fl.F → Bool
  not_above_zero x = fl.le x (fl.of_ℕ 0)

  unfoldable pub validate_rule : Rule fl.F → Check
  validate_rule r = refuse (is_empty r.name) no_rule_name (
      refuse (not (is_rule_period r.period)) bad_period (
        refuse (not (is_rule_direction r.traffic_direction)) bad_direction (
          refuse (not_above_zero r.limit_gb) bad_limit (
            refuse (not (is_rule_action r.action)) bad_action (
              refuse (limits_rate r.action && not_above_zero r.rate_limit_mb) bad_rate
                (refuse (has_no_condition r) no_condition (ok tt)))))))

  unfoldable pub validate_rules : List (Rule fl.F) → Check
  validate_rules [] = ok tt
  validate_rules (r ∷ rules) = and_also (validate_rule r) (validate_rules rules)

  unfoldable pub validate : Config fl.F → Check
  validate c = and_also (validate_pve c.pve) (
      and_also (validate_monitor c.monitor) (
        and_also (validate_storage c.storage)
          (and_also (validate_api c.api) (validate_rules c.rules))))

  -- The loader's loop over the rules.
  unfoldable pub check_rules : List (Rule fl.F) → Check
  check_rules [] = ok tt
  check_rules (r ∷ rules) = refuse (is_empty r.name) no_rule_name (
      refuse (not (is_rule_period r.period)) bad_period (
        refuse (not_above_zero r.limit_gb) bad_limit (
          refuse (not (is_rule_action r.action)) bad_action (
            refuse (limits_rate r.action && not_above_zero r.rate_limit_mb) bad_rate (
              refuse (not (is_rule_direction r.traffic_direction)) bad_direction
                (check_rules rules))))))

  -- The loader's check. It returns the configuration, with the default set.
  unfoldable pub validate_config : Config fl.F → Result ConfigError (Config fl.F)
  validate_config c =
      given (record c { storage = with_default c.storage })
        (refuse (is_empty c.pve.host) no_host (
          refuse (is_bad_port c.pve.port) bad_port (
            refuse (is_empty c.pve.node) no_node (
              refuse (is_below c.monitor.interval_seconds 1) bad_interval
                (and_also (check_storage (with_default c.storage)) (check_rules c.rules))))))
