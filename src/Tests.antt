-- ===== src/Tests.antt =====
-- Evaluations of the model at concrete inputs, and the theorems at inputs that meet their
-- hypotheses.
mod Sqlite
mod Fixtures
mod Store
mod Export
mod Capture
mod Inflight
mod TextSearch
mod Commit
mod Growth
mod Latency
mod Api
mod Open
mod Sync
mod Bundle
mod Events
mod Cursor
mod Hooks
mod Ccr
mod VersionCheck
