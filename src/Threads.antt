-- ===== src/Threads.antt =====
-- gateway/acode-upstream/server/src/threads.ts: the threads of Codex, read from its database, from its
-- session index, and from the rollout files. Times are milliseconds.
pub mod Escape
pub mod Schema
pub mod Index
pub mod Rows
pub mod Rollout
mod Tests
