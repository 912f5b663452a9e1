-- ===== src/Tests.antt =====
-- Runs of the model and the theorems at concrete inputs, by part.
mod Periods
mod Traffics
mod Matches
mod Networks
mod Clients
mod Caches
mod Configs
mod Recoveries
mod Storages
mod Monitors
mod Databases
mod Engines
mod Tables
mod Servers
mod Exports
