-- ===== src/GatewayStore.antt =====
-- gateway/acode-upstream/server/src/gatewayStore.ts: the durable state of the gateway. Time is an
-- argument of each call, in milliseconds. A file is what it holds, and `disk_ok` says whether the file
-- system takes writes at present; writes of events are queued, and each is done by a step of its own.
pub mod Types
pub mod State
pub mod Cache
pub mod Timeline
pub mod Events
pub mod Requests
pub mod Relations
pub mod Startup
mod Tests
