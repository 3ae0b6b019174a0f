-- ===== src/WebClient/Histories.antt =====
-- useCodeHarbor.ts, the messages, timers and loads in any order.
pub mod Frames
pub mod Cursors
pub mod Order
pub mod Shown
pub mod Log
pub mod Resumes
pub mod Attempts
pub mod Retries
use code_harbor.Common.{List, Option, String, [], ℕ, ◌∷◌}
use code_harbor.Common.Json.{Json}
use code_harbor.WebClient.Loads.{load_ends, socket_opens}
use code_harbor.WebClient.Messages.{on_message}
use code_harbor.WebClient.State.{WebClient, gap_timer_fires}

-- A load ends with the events that it got, or with its failure; it notes the revision at its start.
pub data Step : Type 0 where
  opens : Step
  says : Option Json → Step
  fires : ℕ → Step
  ends_load : String → ℕ → Option (List Json) → Step
  selects : String → Step

module _ (show : ℕ → String) (parse_body : String → Option Json) where
  unfoldable pub step : WebClient → Step → WebClient
  step c opens = socket_opens c
  step c (says message) = on_message show parse_body c message
  step c (fires timer) = gap_timer_fires c timer
  step c (ends_load id revision result) = load_ends c id revision result
  step c (selects id) = record c { selected_session_id = id }

  unfoldable pub run : WebClient → List Step → WebClient
  run c [] = c
  run c (st ∷ sts) = run (step c st) sts
