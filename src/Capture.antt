-- ===== src/Capture.antt =====
-- internal/capture: the parsers, the offset state and the watcher.
pub mod Chunks
pub mod Jsonl
pub mod Inflight
pub mod State
pub mod Commit
pub mod Cursor
pub mod Events
