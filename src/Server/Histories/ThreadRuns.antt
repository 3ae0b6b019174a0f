-- ===== src/Server/Histories/ThreadRuns.antt =====
-- The turns of /api/threads and the listing of the threads begin no run and cancel none.
use code_harbor.Common.{Option, String, arith, nat_eq, none, refl, some, string_eq, ℕ, ◌∙◌, ◌≡◌}
use code_harbor.Common.JsMap.{get}
use code_harbor.GatewayStore.Types.{GatewaySession}
use code_harbor.Server.Broadcast.Effects.{broadcast-SameRuns}
use code_harbor.Server.State.{Server, let_go, mark_live, upsert}
use code_harbor.Server.ThreadTurns.{
  Place, ThreadTurn, admit_thread_turn, answer_admission, begin_thread_turn, continue_thread_turn,
  finish_thread_turn, place_allowed, place_fails, place_refused, session_for, with_existing,
  with_found, with_gateway_thread_status,
}
use code_harbor.Server.Turns.{
  Outcome, Stage, answers, fails, preparing, release_request, remember_request, reserve_request,
  resuming, running_message, starting_turn,
}
use code_harbor.Threads.Index.{ThreadSummary}
use code_harbor.TurnGate.{TurnAdmission, accepted, busy, duplicate}

request-runs :
    (s : Server) (id : String) (o : Option String) → (release_request s id o).runs ≡ s.runs
unfolding release_request
request-runs s id none = refl
request-runs s id (some request) = ground arith

pub begin_thread_turn-runs :
    (s : Server) (id : String) (o : Option String) (due : Option (Option ℕ)) (now : ℕ)
    → (begin_thread_turn s id o due now).0.runs ≡ s.runs
unfolding begin_thread_turn reserve_request
begin_thread_turn-runs s id none due now = ground arith
begin_thread_turn-runs s id (some request) due now = ground arith

admission-runs :
    (s : Server) (t : ThreadTurn) (a : TurnAdmission) → (answer_admission s t a).0.runs ≡ s.runs
admission-runs s t accepted = refl
admission-runs s t duplicate = request-runs s t.thread_id t.turn_request
admission-runs s t busy = request-runs s t.thread_id t.turn_request

pub admit_thread_turn-runs :
    (s : Server) (t : ThreadTurn) (place : Place) → (admit_thread_turn s t place).0.runs ≡ s.runs
unfolding admit_thread_turn
admit_thread_turn-runs s t place_fails = request-runs s t.thread_id t.turn_request
admit_thread_turn-runs s t place_refused = request-runs s t.thread_id t.turn_request
admit_thread_turn-runs s t place_allowed = admission-runs _ t _

remembered-runs :
    (s : Server) (id : String) (o : Option String) → (remember_request s id o).runs ≡ s.runs
unfolding remember_request
remembered-runs s id none = refl
remembered-runs s id (some request) = ground arith

pub continue_thread_turn-runs :
    (s : Server) (t : ThreadTurn) (stage : Stage) (o : Outcome) (now : ℕ)
    → (continue_thread_turn s t stage o now).runs ≡ s.runs
unfolding continue_thread_turn finish_thread_turn mark_live upsert
continue_thread_turn-runs s t stage fails now = request-runs _ t.thread_id t.turn_request
continue_thread_turn-runs s t resuming (answers turn) now = refl
continue_thread_turn-runs s t preparing (answers turn) now = refl
continue_thread_turn-runs s t starting_turn (answers turn) now =
    (broadcast-SameRuns _ (running_message t.thread_id (session_for s t t.found now) now)).0
    ∙ remembered-runs _ t.thread_id t.turn_request

pub lists_thread-runs :
    (s : Server) (thread : ThreadSummary) (now : ℕ)
    → (with_gateway_thread_status s thread now).0.runs ≡ s.runs
unfolding with_gateway_thread_status with_existing let_go
lists_thread-runs s thread now = by_case (get s.store.sessions thread.id)
  where
    by_case : (o : Option GatewaySession) → (with_found s thread now o).0.runs ≡ s.runs
    by_case none = refl
    by_case (some existing) = ground arith
