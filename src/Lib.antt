-- ===== src/Lib.antt =====
-- A model of the PVE traffic monitor, and proofs about it.
--
-- The program reads the network counters of the VMs of a Proxmox node at an interval, stores them,
-- adds them up over billing periods, compares the sums with the limits of rules, and shuts down,
-- stops, disconnects or slows a VM whose traffic is above; what it changed is undone when the
-- period ends. A cache holds the sums between two readings.
--
-- Which file is about which part:
-- - Base and its children: lists, texts, integers, maps, decimal numbers and results. A text is a
--   list of byte values, and the functions of package `strings` are written for ASCII.
-- - Clock, Clock/Months: package `time` in one zone with a fixed offset, so that a day has 24 hours;
--   a time is the number of its nanoseconds. The search for a month has as much fuel as the day
--   has a number, plus one, which is enough since each month takes a day or more. Clock/Hours is
--   Duration.Hours, computed as a float64 by Base/Binary64, which doubles at most 100 times: enough for
--   a nanosecond as a part of an hour.
-- - Models: pkg/models/types.go and pkg/models/constants.go.
-- - Period: pkg/period/calculator.go, where `month_period_start`, `get_period_range` and the other
--   functions have the names of the Go functions. Period/Month, Period/Fixed, Period/Creation and
--   Period/Current hold the proofs.
-- - Traffic: pkg/storage/calc.go. `calculate_traffic` is calculateTraffic with its loop as
--   `scan_records`, and `aggregate_traffic_by_period` is AggregateTrafficByPeriod; a counter wraps
--   around at 2^64. The text that names a bucket is modelled as the time that it is read back as.
-- - Rules: the rules, and VMMatchesRule with its callers from pkg/pve/client.go.
-- - Network: the functions of pkg/pve/client.go that read and write the options `rate` and
--   `link_down` of an interface.
-- - Client: the operations of the client in pkg/pve/client.go over a server, `Pve`, which is a
--   parameter: a request returns an answer or an error, and the next state of the server.
--   Client/Server states what is relied on of a server that answers every request, `Answers`.
-- - Cache: pkg/cache/traffic_cache.go. An operation holds the lock throughout, so a sequence of
--   calls in any interleaving is a sequence of steps.
-- - Validation: Config.Validate of pkg/models/validation.go and validateConfig of
--   pkg/config/loader.go.
-- - Recovery: the records of pkg/models/state.go, and calculateRecoveryTime of
--   pkg/recovery/recovery.go. Recovery/Manager: RecordVMState, RecoverVM and the two loops that
--   recover VMs, on the manager's states and the state of the server.
-- - Storage: pkg/storage/storage.go, on a disk that is part of the state: a directory for each VM with
--   a file for each day. `get_traffic_records` is GetTrafficRecords, and so on; Storage/Removal has
--   the functions that remove or count records, Storage/Stats CalculateTrafficStats and its kin,
--   Storage/Start NewFileStorage and Close, Storage/Logs the logs of actions. Storage/Refines compares runs of these with one log of
--   records. Reading visits at most as many days as lie between the ends of its range, plus one.
-- - Monitor: cmd/monitor/main.go. Monitor/Cycle and Monitor/Apply: collectAndProcess, processVM,
--   applyRules and calculateTrafficStatsWithCache; Monitor/Actions: executeAction; Monitor/Loop: the
--   events of Start; Monitor/Commands: the removals of the command line, handleCleanup;
--   Monitor/Export: handleExport, exportVM and exportAllVMs.
-- - Database: pkg/storage/database.go, pkg/storage/database_helpers.go and pkg/storage/factory.go. A
--   database is a parameter, `Engine`, which is given the text of a statement and its arguments.
--   Database/Records has the operations on records, Database/States and Database/Logs those on the
--   states of VMs and the logs of actions, Database/Schema the tables and the opening, Database/Paths
--   the path of a SQLite database. Database/Sql says what SQL documents of the statements: of INSERT,
--   and of DELETE, SELECT and COUNT for conditions with arguments of
--   their columns' types, whose text it prints. Database/Refines compares
--   runs with a log of records, and Database/Same with runs of the file storage.
-- - Api: pkg/api/server.go. The measurements of requests, `record_request`, the cache of responses and
--   the check of the token, `is_authorized`; Api/History is handleHistory, Api/Handlers and Api/Figures
--   are the other handlers, and Api/Files is the choice of a static file in setupRoutes.
-- - Loader: pkg/config/loader.go and pkg/config/watcher.go. `reload` is Reload, on what the file system
--   has at the call; and onConfigReload of cmd/monitor/main.go.
-- - Ipc: pkg/ipc/socket.go, on the bytes of a connection, with the handlers of cmd/monitor/main.go.
-- - Charts: pkg/chart/json.go, pkg/chart/chart.go and pkg/chart/echarts.go: the data of an exported
--   file, the order of the VMs' statistics, the units and the widths of bars.
-- - Tests: runs of the model, and each theorem at a concrete input.
--
-- A file holds what decoding its lines gives, a write succeeds, and the proofs about the storage are
-- about directories that the program has written in its present format. Collections of records are
-- compared by how many of them pass each test, which forgets their order.
--
-- The client's operations use the functions of Network, and the manager uses both; a recovery is due
-- when the period of Period ends; the cache holds what Traffic computes for a period of Period,
-- under the VM, the period and the direction. The monitor calls all of these: a cycle saves a record,
-- drops the VM's statistics from the cache, computes them again from the storage, and acts through
-- the client and the manager. Where code reads the clock, the reading is an argument, and a loop takes
-- the readings of its n-th turn from a function of n. The command line sends the running program a
-- message after a removal, whose handler empties the cache; the handlers of the server read either of
-- the two storages.
--
-- A float64 is a parameter, `Float`, with the operations that the code uses, but for Duration.Hours. VM
-- identifiers are natural numbers, and integers where a request to the server names them. An error is a value without its text. The recursion of every function is on a list
-- or a number of its argument.
--
-- Not modelled: HTTP, JSON, the file system, SQL, sockets and timers, which are calls of libraries;
-- the titles, colours and file names of pkg/chart, and the libraries that draw; the web pages, of which handleIndex writes one;
-- and the output of the command line.
mod Base
pub mod Clock
pub mod Models
pub mod Period
pub mod Traffic
pub mod Rules
pub mod Network
pub mod Cache
pub mod Client
pub mod Validation
pub mod Recovery
pub mod Storage
pub mod Monitor
pub mod Database
pub mod Api
pub mod Loader
pub mod Ipc
pub mod Charts
mod Tests
