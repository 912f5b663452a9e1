-- ===== src/Database/Schema.antt =====
-- The tables of pkg/storage/database.go, and the opening of a database: initTables, idColumn,
-- indexStatements, ensureTrafficRecordsSchema, engine and NewDatabaseStorage. Opening a connection and
-- the ping are parameters.
use pve_traffic_monitor.Base.{
  zero, suc, Bool, true, false, not, ◌&&◌, List, [], ◌∷◌, ◌++◌, Option, none, some, if◌then◌else◌,
}
use pve_traffic_monitor.Base.Int.{ℤ, pos, negsuc}
use pve_traffic_monitor.Base.Text.{Text, codes}
use pve_traffic_monitor.Base.Result.{Result, ok, err}
use pve_traffic_monitor.Database.Sql.{Driver, mysql, postgres, sqlite3, Answer, Engine}
use pve_traffic_monitor.Database.Records.{is_done}

unfoldable pub id_column : Driver → Text
id_column mysql = codes "id INTEGER PRIMARY KEY AUTO_INCREMENT"
id_column postgres = codes "id SERIAL PRIMARY KEY"
id_column sqlite3 = codes "id INTEGER PRIMARY KEY AUTOINCREMENT"
id_column (Driver.other s) = codes "id INTEGER PRIMARY KEY"

abbrev pub is_mysql : Driver → Bool
is_mysql mysql = true
is_mysql postgres = false
is_mysql sqlite3 = false
is_mysql (Driver.other s) = false

-- The method `engine`.
unfoldable pub engine_text : Driver → Text
engine_text driver = if is_mysql driver then codes " ENGINE=InnoDB DEFAULT CHARSET=utf8mb4" else []

unfoldable pub index_statements : Driver → List Text
index_statements driver =
    if is_mysql driver
    then []
    else codes
        "CREATE INDEX IF NOT EXISTS idx_traffic_records_vmid_interface_timestamp ON traffic_records (vmid, network_interface, timestamp)"
      ∷ codes "CREATE INDEX IF NOT EXISTS idx_action_logs_timestamp ON action_logs (timestamp)"
      ∷ []

abbrev pub traffic_record_index : Driver → Text
traffic_record_index driver =
    if is_mysql driver
    then codes ",\n\t\tINDEX idx_vmid_interface_timestamp (vmid, network_interface, timestamp)"
    else []

abbrev pub action_log_index : Driver → Text
action_log_index driver =
    if is_mysql driver then codes ",\n\t\tINDEX idx_timestamp (timestamp)" else []

unfoldable pub traffic_records_table : Driver → Text
traffic_records_table driver =
    codes "\n\tCREATE TABLE IF NOT EXISTS traffic_records (\n\t\t"
    ++ id_column driver
    ++ codes
        ",\n\t\tvmid INTEGER NOT NULL,\n\t\tnetwork_interface VARCHAR(64) NOT NULL DEFAULT 'all',"
    ++ codes
        "\n\t\ttimestamp TIMESTAMP NOT NULL,\n\t\trx_bytes BIGINT NOT NULL,\n\t\ttx_bytes BIGINT NOT NULL,"
    ++ codes "\n\t\ttotal_bytes BIGINT NOT NULL"
    ++ traffic_record_index driver
    ++ codes "\n\t)"
    ++ engine_text driver

unfoldable pub action_logs_table : Driver → Text
action_logs_table driver =
    codes "\n\tCREATE TABLE IF NOT EXISTS action_logs (\n\t\t"
    ++ id_column driver
    ++ codes ",\n\t\tvmid INTEGER NOT NULL,\n\t\trule_name VARCHAR(255) NOT NULL,"
    ++ codes
        "\n\t\taction VARCHAR(50) NOT NULL,\n\t\treason TEXT,\n\t\ttimestamp TIMESTAMP NOT NULL,"
    ++ codes "\n\t\tsuccess BOOLEAN NOT NULL,\n\t\terror TEXT"
    ++ action_log_index driver
    ++ codes "\n\t)"
    ++ engine_text driver

unfoldable pub vm_states_table : Driver → Text
vm_states_table driver =
    codes "\n\tCREATE TABLE IF NOT EXISTS vm_states (\n\t\tvmid INTEGER PRIMARY KEY,"
    ++ codes "\n\t\tstate_data TEXT NOT NULL,\n\t\tupdated_at TIMESTAMP NOT NULL\n\t)"
    ++ engine_text driver

abbrev pub schema_query : Text
schema_query = codes "SELECT network_interface FROM traffic_records LIMIT 1"

abbrev pub migration : Text
migration =
    codes
      "ALTER TABLE traffic_records ADD COLUMN network_interface VARCHAR(64) NOT NULL DEFAULT 'all'"

module _ {W : Type 0} (e : Engine W) (driver : Driver) where
  -- The loops over statements stop at the first error. `true` stands for no error.
  unfoldable pub exec_all : List Text → W → Bool × W
  exec_all [] w = (true, w)
  exec_all (q ∷ qs) w =
      let step = e.exec q [] w in
      let rest = exec_all qs step.1 in if is_done step.0 then rest else (false, step.1)

  abbrev pub migrate : Answer → W → Bool × W
  migrate none w = let step = e.exec migration [] w in (is_done step.0, step.1)
  migrate (some rows) w = (true, w)

  unfoldable pub ensure_traffic_records_schema : W → Bool × W
  ensure_traffic_records_schema w = migrate (e.query schema_query [] w) w

  unfoldable pub init_tables : W → Bool × W
  init_tables w =
      let tables =
        exec_all
          (traffic_records_table driver ∷ action_logs_table driver ∷ vm_states_table driver ∷ [])
          w in
      let schema = ensure_traffic_records_schema tables.1 in
      let indexes = exec_all (index_statements driver) schema.1 in
      if tables.0 then (if schema.0 then indexes else schema) else tables

-- The limits of the pool of connections, with their defaults.
pub record Pool : Type 0 where
  pub max_open_conns : ℤ
  pub max_idle_conns : ℤ
  pub conn_max_lifetime : ℤ

abbrev pub or_default : ℤ → ℤ → ℤ
or_default default (pos zero) = default
or_default default (pos (suc n)) = pos (suc n)
or_default default (negsuc n) = default

unfoldable pub with_defaults : Pool → Pool
with_defaults p = record {
  max_open_conns = or_default (pos 10) p.max_open_conns;
  max_idle_conns = or_default (pos 5) p.max_idle_conns;
  conn_max_lifetime = or_default (pos 3600) p.conn_max_lifetime;
}

-- What NewDatabaseStorage returns an error for.
pub data OpenError : Type 0 where
  no_directory no_connection no_ping no_tables : OpenError

-- The calls of packages os and sql: MkdirAll for the path of a SQLite database, Open, which gives the
-- connection and what it reaches, and Ping with the pool's limits.
pub record Opening (W : Type 0) : Type 0 where
  pub ensure_dir : Text → Bool
  pub open_database : Driver → Text → Option (Engine W × W)
  pub ping : Pool → Engine W → W → Bool × W

abbrev pub is_sqlite3 : Driver → Bool
is_sqlite3 mysql = false
is_sqlite3 postgres = false
is_sqlite3 sqlite3 = true
is_sqlite3 (Driver.other s) = false

module _ {W : Type 0} (os : Opening W) (driver : Driver) where
  abbrev pub with_tables : Engine W → Bool × W → Result OpenError (Engine W × W)
  with_tables e (true, w) = ok (e, w)
  with_tables e (false, w) = err no_tables

  abbrev pub after_ping : Engine W → Bool × W → Result OpenError (Engine W × W)
  after_ping e (false, w) = err no_ping
  after_ping e (true, w) = with_tables e (init_tables e driver w)

  abbrev pub after_open : Pool → Option (Engine W × W) → Result OpenError (Engine W × W)
  after_open pool none = err no_connection
  after_open pool (some (e, w)) = after_ping e (os.ping (with_defaults pool) e w)

  unfoldable pub new_database_storage : Text → Pool → Result OpenError (Engine W × W)
  new_database_storage dsn pool =
      if is_sqlite3 driver && not (os.ensure_dir dsn)
      then err no_directory
      else after_open pool (os.open_database driver dsn)
