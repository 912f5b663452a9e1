-- ===== src/Tests/Configs.antt =====
-- A configuration that both checks accept, and one that only the loader accepts.
use pve_traffic_monitor.Base.{◌≡◌, ◌↔◌, refl, true, false, [], ◌∷◌}
use pve_traffic_monitor.Base.Int.{pos}
use pve_traffic_monitor.Base.Result.{ok, err}
use pve_traffic_monitor.Base.Text.{codes, text_eq, to_lower, lower}
use pve_traffic_monitor.Models.{PeriodType, Direction, Action}
use pve_traffic_monitor.Rules.{Rule}
use pve_traffic_monitor.Validation.{
  Config, validate, validate_config, validate_pve, validate_monitor, validate_storage, validate_api,
  validate_rule, validate_rules, check_rules, check_storage, with_default, is_below, is_bad_port,
  short_interval,
}
use pve_traffic_monitor.Validation.Accepts.{is_complete, validate_accepts}
use pve_traffic_monitor.Tests.Traffics.{whole}

abbrev pub hourly : Rule whole.F
hourly = record {
  name = codes "hourly";
  enabled = true;
  period = PeriodType.hour;
  use_creation_time = false;
  traffic_direction = Direction.other [];
  limit_gb = 10;
  action = Action.rate_limit;
  force_stop = false;
  rate_limit_mb = 5;
  vm_ids = 100 ∷ [];
  vm_tags = [];
  exclude_vm_ids = [];
}

abbrev pub usual : Config whole.F
usual = record {
  pve = record {
    host = codes "localhost";
    port = pos 8006;
    node = codes "pve";
    api_token_id = codes "root@pam!monitor";
    api_token_secret = codes "secret";
  };
  monitor = record {
    interval_seconds = pos 60;
    export_path = codes "export";
    include_templates = false;
    data_retention_days = pos 90;
  };
  storage = record {
    storage_type = codes "File";
    file_path = codes "data";
    dsn = [];
    max_open_conns = pos 0;
    max_idle_conns = pos 0;
    conn_max_lifetime = pos 0;
  };
  rules = hourly ∷ [];
  api = record { enabled = true; host = codes "0.0.0.0"; port = pos 8080; token = [] };
}

usual_valid : validate whole usual ≡ ok tt
unfolding validate validate_pve validate_monitor validate_storage validate_api validate_rule
    validate_rules is_below is_bad_port text_eq to_lower lower
usual_valid = refl

-- A reading every second, and a rule that names no VM and no tag, which matches each of them.
abbrev hasty : Config whole.F
hasty = record usual {
  monitor = record usual.monitor { interval_seconds = pos 1 };
  rules = record hourly { vm_ids = [] } ∷ [];
}

hasty_loaded : validate_config whole hasty ≡ ok hasty
unfolding validate_config check_rules check_storage with_default is_below is_bad_port text_eq
    to_lower lower
hasty_loaded = refl

hasty_refused : validate whole hasty ≡ err short_interval
unfolding validate validate_pve validate_monitor is_below is_bad_port text_eq
hasty_refused = refl

validate_accepts_example :
    (validate whole usual ≡ ok tt)
    ↔ ((is_complete usual ≡ true) × (validate_config whole usual ≡ ok usual))
validate_accepts_example = validate_accepts whole usual
