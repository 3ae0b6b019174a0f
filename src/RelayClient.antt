-- ===== src/RelayClient.antt =====
-- gateway/acode-upstream/server/src/relayClient.ts: the connection of the gateway to the cloud relay. A
-- promise, a timer or an event of a socket that comes to its end is a step of its own. What fetch, the
-- file system and the random generator give are arguments.
pub mod State
pub mod Enrollment
pub mod Connection
pub mod Messages
pub mod Histories
mod Tests
