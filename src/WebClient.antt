-- ===== src/WebClient.antt =====
-- gateway/acode-upstream/app/src/hooks/useCodeHarbor.ts: what the web client does with the messages of
-- the relay and with the histories that it loads. A message, a timer and a load that ends are steps
-- of their own, and a state setter of React takes effect in the step that calls it. Session ids are
-- texts, and sequence numbers and HTTP statuses are natural numbers.
pub mod State
pub mod Fields
pub mod SessionList
pub mod Messages
pub mod Loads
pub mod Histories
mod Tests
