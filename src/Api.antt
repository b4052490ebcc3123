-- ===== src/Api.antt =====
-- internal/api: the handlers of the HTTP interface.
pub mod Export
pub mod Latency
pub mod Params
pub mod Http
pub mod Engrams
pub mod Queries
pub mod Timeline
pub mod AskCache
pub mod Ask
pub mod Digest
pub mod Metrics
pub mod Effects
pub mod Routes
pub mod Sort
