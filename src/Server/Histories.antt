-- ===== src/Server/Histories.antt =====
-- index.ts, the handlers in any order, each cut at the calls that it waits for.
pub mod Holding
pub mod Threads
pub mod ThreadRuns
pub mod Creating
pub mod Exclusion
pub mod OneTurn
pub mod Generations
pub mod Growth
pub mod Silence
use code_harbor.Common.{List, Option, String, [], ℕ, ◌∷◌}
use code_harbor.GatewayStore.Types.{GatewaySession}
use code_harbor.Server.Broadcast.{broadcast_gateway}
use code_harbor.Server.Creation.{
  CreateBody, Resolved, Response, begin_creation, first_turn, take_thread, take_workspace,
}
use code_harbor.Server.Interrupts.{Context, post_interrupt}
use code_harbor.Server.State.{Server}
use code_harbor.Server.ThreadTurns.{
  Place, ThreadTurn, admit_thread_turn, begin_thread_turn, continue_thread_turn,
  with_gateway_thread_status,
}
use code_harbor.Server.Turns.{Outcome, Run, Stage, TurnBody, continue_run, post_turn}
use code_harbor.Server.Types.{Message}
use code_harbor.Threads.Index.{ThreadSummary}

pub data Step : Type 0 where
  posts_turn :
      String → TurnBody → Option GatewaySession → Option ThreadSummary → Option String → ℕ → Step
  continues : Run → Outcome → ℕ → Step
  begins_creation : CreateBody → ℕ → Step
  checks_workspace : CreateBody → Resolved → Step
  starts_thread : CreateBody → String → ℕ → Response → Step
  starts_first_turn : String → Outcome → ℕ → Step
  interrupts_turn : String → Option String → Option (Option ℕ) → Context → ℕ → Step
  broadcasts : Message → Step
  begins_thread_turn : String → Option String → Option (Option ℕ) → ℕ → Step
  admits_thread_turn : ThreadTurn → Place → Step
  continues_thread_turn : ThreadTurn → Stage → Outcome → ℕ → Step
  lists_thread : ThreadSummary → ℕ → Step

unfoldable pub step : Server → Step → Server
step s (posts_turn id body persisted thread resolved now) =
    (post_turn s id body persisted thread resolved now).0
step s (continues run outcome now) = (continue_run s run outcome now).0
step s (begins_creation body now) = (begin_creation s body now).0
step s (checks_workspace body resolved) = (take_workspace s body resolved).0
step s (starts_thread body workspace now response) = (take_thread s body workspace now response).0
step s (starts_first_turn id outcome now) = first_turn s id outcome now
step s (interrupts_turn id turn due context now) = (post_interrupt s id turn due context now).0
step s (broadcasts m) = broadcast_gateway s m
step s (begins_thread_turn id request due now) = (begin_thread_turn s id request due now).0
step s (admits_thread_turn t place) = (admit_thread_turn s t place).0
step s (continues_thread_turn t stage outcome now) = continue_thread_turn s t stage outcome now
step s (lists_thread thread now) = (with_gateway_thread_status s thread now).0

unfoldable pub run : Server → List Step → Server
run s [] = s
run s (st ∷ sts) = run (step s st) sts
