-- ===== src/Store.antt =====
-- internal/store/store.go and schema.sql: the tables, the statements on them, and `Store`'s methods.
pub mod Schema
pub mod Engine
pub mod Session
pub mod Write
pub mod Read
pub mod Clauses
pub mod Totals
pub mod Lookup
pub mod Queries
pub mod Counters
pub mod Index
pub mod Paging
pub mod Consistency
pub mod Invariant
pub mod Batch
pub mod Open
pub mod Search
pub mod Stats
pub mod Unchanged
