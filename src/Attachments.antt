-- ===== src/Attachments.antt =====
-- gateway/acode-upstream/server/src/attachments.ts: the files that a client sends along with a turn.
pub mod Names
pub mod Storage
mod Tests
