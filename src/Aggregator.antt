-- ===== src/Aggregator.antt =====
-- gateway/acode-upstream/app/src/aggregator.ts: the rows that the web client makes of the events of a
-- session. `parse` is JSON.parse, which gives nothing where it throws; `millis`, `iso` and `random` are the
-- clock's and the random generator's texts. Ids, prompts, texts and commands that the code takes from an
-- event without a test are read where they are texts, as the gateway sends them.
pub mod Types
pub mod Rows
pub mod Approvals
pub mod Activities
pub mod Commands
pub mod Outputs
pub mod Inputs
pub mod Events
pub mod Growth
mod Tests
