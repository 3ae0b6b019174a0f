-- ===== src/Server.antt =====
-- gateway/acode-upstream/server/src/index.ts: the handlers of the gateway, on the store, the gate of
-- turns, the generations of runs and the sets of sessions that the module keeps itself. An `await` ends
-- a step: what a handler read before it comes back as an argument of the function behind it.
pub mod Types
pub mod State
pub mod Broadcast
pub mod Replies
pub mod Turns
pub mod ThreadTurns
pub mod Creation
pub mod Interrupts
pub mod Histories
mod Tests
