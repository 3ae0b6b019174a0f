-- ===== src/Server/Histories/Generations.antt =====
-- The generation of a session's runs only grows, whatever the handlers do.
use code_harbor.Common.{
  Bool, Bool-cases, Option, String, arith, false, inl, inr, nat_eq, none, or_else, refl, some,
  string_eq, true, ℕ, ◌+◌, ◌≡◌, ◌≤◌, ◌⊎◌,
}
use code_harbor.Common.JsMap.{get, get-set}
use code_harbor.GatewayStore.Types.{GatewaySession}
use code_harbor.RelayProxy.{plan}
use code_harbor.Server.Broadcast.{broadcast_gateway}
use code_harbor.Server.Broadcast.Effects.{broadcast-SameRuns}
use code_harbor.Server.Replies.{Reply}
use code_harbor.Server.State.{Server, let_go, request_codex_interrupt, update}
use code_harbor.Server.Turns.{
  Outcome, Plan, Run, Stage, TurnBody, acquire_turn, activate, admit_turn, admitted, advance,
  after_checks, after_reservation, answers, check_turn, client_request, continue_run, fail_run,
  fail_session, failed_message, fails, go_on, has_request, input_message, interrupt_late, post_turn,
  preparing, record_turn, release_request, remember_request, reserve_request, resuming,
  running_message, start_run, starting_turn, stop_late,
}
use code_harbor.Server.Types.{Message}
use code_harbor.SessionRunState.{SessionRunState, begin, is_current}
use code_harbor.Threads.Index.{ThreadSummary}
use code_harbor.TurnGate.{TurnAdmission, accepted, busy, duplicate}
use native.Mathlib.Nat.{le_refl}

module _ (id : String) where
  abbrev pub generation_of : SessionRunState → ℕ
  generation_of runs = or_else (get runs.generations id) 0

  abbrev pub Grows : Server → Server → Type 0
  Grows s t = generation_of s.runs ≤ generation_of t.runs

  pub same-Grows : (s t : Server) → t.runs ≡ s.runs → Grows s t
  same-Grows s t e = rw e (le_refl _)

  pub Grows-trans : (s t u : Server) → Grows s t → Grows t u → Grows s u
  Grows-trans s t u h k = omega arith

  pub begin-grows :
      (runs : SessionRunState) (other : String)
      → generation_of runs ≤ generation_of (begin runs other).0
  unfolding begin
  begin-grows runs other = ground (
    arith,
    get-set runs.generations other id (or_else (get runs.generations other) 0 + 1),
    string_eq.beq_iff other id,
  )

  pub broadcast-Grows : (s t : Server) (m : Message) → Grows s t → Grows s (broadcast_gateway t m)
  broadcast-Grows s t m h = rw (broadcast-SameRuns t m).0 h

  pub fail_run-Grows : (s : Server) (other : String) (now : ℕ) → Grows s (fail_run s other now)
  unfolding fail_run let_go update
  fail_run-Grows s other now =
      broadcast-Grows s (update (let_go s other) other (fail_session now))
        (failed_message other now) (le_refl _)

  pub request_codex_interrupt-runs :
      (s : Server) (other : String) (o : Option String)
      → (request_codex_interrupt s other o).runs ≡ s.runs
  unfolding request_codex_interrupt
  request_codex_interrupt-runs s other none = refl
  request_codex_interrupt-runs s other (some turn) = ground arith

  interrupt_late-runs :
      (s : Server) (r : Run) (turn : Option String) (stage : Stage)
      → (interrupt_late s r turn stage).runs ≡ s.runs
  unfolding interrupt_late
  interrupt_late-runs s r turn resuming = refl
  interrupt_late-runs s r turn preparing = refl
  interrupt_late-runs s r turn starting_turn = request_codex_interrupt-runs s r.session_id turn

  stop_late-runs : (s : Server) (r : Run) (o : Outcome) → (stop_late s r o).runs ≡ s.runs
  unfolding stop_late
  stop_late-runs s r fails = refl
  stop_late-runs s r (answers turn) = interrupt_late-runs s r turn r.stage

  activate-runs :
      (o : Option String) (now : ℕ) (s : Server) (other : String)
      → (activate o now s other).runs ≡ s.runs
  unfolding update
  activate-runs none now s other = refl
  activate-runs (some turn) now s other = ground arith

  advance-runs :
      (s : Server) (r : Run) (turn : Option String) (now : ℕ) (stage : Stage)
      → (advance s r turn now stage).0.runs ≡ s.runs
  unfolding advance
  advance-runs s r turn now resuming = refl
  advance-runs s r turn now preparing = refl
  advance-runs s r turn now starting_turn = activate-runs turn now s r.session_id

  go_on-Grows : (s : Server) (r : Run) (o : Outcome) (now : ℕ) → Grows s (go_on s r o now).0
  unfolding go_on
  go_on-Grows s r fails now = fail_run-Grows s r.session_id now
  go_on-Grows s r (answers turn) now = rw (advance-runs s r turn now r.stage) (le_refl _)

  pub continue_run-Grows :
      (s : Server) (r : Run) (o : Outcome) (now : ℕ) → Grows s (continue_run s r o now).0
  unfolding continue_run
  continue_run-Grows s r o now = elim (Bool-cases (is_current s.runs r.session_id r.generation)) [
    | inl current ↦ rw current (go_on-Grows s r o now)
    | inr late ↦ rw late (rw (stop_late-runs s r o) (le_refl _))
  ]

  pub remember_request-runs :
      (s : Server) (other : String) (o : Option String) → (remember_request s other o).runs ≡ s.runs
  unfolding remember_request
  remember_request-runs s other none = refl
  remember_request-runs s other (some request) = ground arith

  record_turn-Grows :
      (s : Server) (other : String) (body : TurnBody) (plan : Plan) (now : ℕ)
      → Grows s (record_turn s other body plan now).0
  unfolding record_turn
  record_turn-Grows s other body plan now =
      rw (remember_request-runs _ other (client_request body)) (begin-grows s.runs other)

  start_run-Grows :
      (s : Server) (other : String) (body : TurnBody) (plan : Plan) (now : ℕ)
      → Grows s (start_run s other body plan now).0
  unfolding start_run
  start_run-Grows s other body plan now =
      broadcast-Grows s _ (running_message other plan.session now) (
        broadcast-Grows s _ (input_message other body now)
          (record_turn-Grows s other body plan now))

  release_request-runs :
      (s : Server) (other : String) (o : Option String) → (release_request s other o).runs ≡ s.runs
  unfolding release_request
  release_request-runs s other none = refl
  release_request-runs s other (some request) = ground arith

  admitted-Grows :
      (s : Server) (other : String) (body : TurnBody) (plan : Plan) (now : ℕ) (a : TurnAdmission)
      → Grows s (admitted s other body plan now a).0
  unfolding admitted
  admitted-Grows s other body plan now duplicate =
      rw (release_request-runs s other (client_request body)) (le_refl _)
  admitted-Grows s other body plan now busy =
      rw (release_request-runs s other (client_request body)) (le_refl _)
  admitted-Grows s other body plan now accepted = start_run-Grows s other body plan now

  after_reservation-Grows :
      (s : Server) (other : String) (body : TurnBody) (plan : Plan) (now : ℕ) (ok : Bool)
      → Grows s (after_reservation s other body plan now ok).0
  unfolding after_reservation acquire_turn
  after_reservation-Grows s other body plan now true = admitted-Grows _ other body plan now _
  after_reservation-Grows s other body plan now false = (le_refl _)

  reserve_request-runs :
      (s : Server) (other : String) (o : Option String) (now : ℕ)
      → (reserve_request s other o now).0.runs ≡ s.runs
  unfolding reserve_request
  reserve_request-runs s other none now = refl
  reserve_request-runs s other (some request) now = ground arith

  admit_turn-Grows :
      (s : Server) (other : String) (body : TurnBody) (plan : Plan) (now : ℕ)
      → Grows s (admit_turn s other body plan now).0
  unfolding admit_turn
  admit_turn-Grows s other body plan now =
      elim (Bool-cases (has_request s other (client_request body))) [
        | inl old ↦ rw old (le_refl _)
        | inr new ↦ rw new (
            let (s', ok) = reserve_request s other (client_request body) now in
            Grows-trans s s' (after_reservation s' other body plan now ok).0
              (same-Grows s s' (reserve_request-runs s other (client_request body) now))
              (after_reservation-Grows s' other body plan now ok))
      ]

  after_checks-Grows :
      (s : Server) (other : String) (body : TurnBody) (now : ℕ) (c : Reply ⊎ Plan)
      → Grows s (after_checks s other body now c).0
  unfolding after_checks
  after_checks-Grows s other body now (inl reply) = (le_refl _)
  after_checks-Grows s other body now (inr plan) = admit_turn-Grows s other body plan now

  pub post_turn-Grows :
      (s : Server) (other : String) (body : TurnBody) (persisted : Option GatewaySession)
      (thread : Option ThreadSummary) (resolved : Option String) (now : ℕ)
      → Grows s (post_turn s other body persisted thread resolved now).0
  unfolding post_turn
  post_turn-Grows s other body persisted thread resolved now =
      after_checks-Grows s other body now (check_turn s.command body persisted thread resolved now)
