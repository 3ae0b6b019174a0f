-- ===== src/CodexBridge.antt =====
-- gateway/acode-upstream/server/src/codexBridge.ts: the bridge to the Codex app-server, a child process
-- that reads and writes one JSON message a line. What the child and the clients see is a list of
-- effects, in order.
pub mod Messages
pub mod Policies
pub mod Ids
pub mod State
pub mod Requests
pub mod Approvals
pub mod Lines
pub mod Environment
pub mod Histories
mod Tests
