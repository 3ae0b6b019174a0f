-- ===== src/Server/Histories/Holding.antt =====
-- What keeps a session at the gate: turns, their runs, and messages.
use code_harbor.Common.{
  Bool, Bool-cases, List, Option, Option-cases, String, [], arith, false, inl, inr, nat_eq, none,
  refl, some, string_eq, true, truthy, ℕ, ◌&&◌, ◌==◌, ◌∷◌, ◌≡◌,
}
use code_harbor.Common.JsMap.{get, has}
use code_harbor.Common.JsMap.Distinct.{has-delete, has-set}
use code_harbor.GatewayStore.Types.{GatewaySession}
use code_harbor.Server.Broadcast.{broadcast_gateway}
use code_harbor.Server.Broadcast.Effects.{broadcast-gate, release_of, released_by}
use code_harbor.Server.Histories.{
  Step, admits_thread_turn, begins_creation, begins_thread_turn, broadcasts, checks_workspace,
  continues, continues_thread_turn, interrupts_turn, lists_thread, posts_turn, starts_first_turn,
  starts_thread, step,
}
use code_harbor.Server.Replies.{thread_to_session}
use code_harbor.Server.State.{Server, is_live, let_go, update}
use code_harbor.Server.ThreadTurns.{is_overdue}
use code_harbor.Server.Turns.{
  Outcome, Plan, Run, Stage, TurnBody, acquire_turn, activate, admit_turn, admitted, advance,
  after_reservation, answers, check_turn, client_request, continue_run, fail_run, failed_message,
  fails, go_on, has_request, input_message, interrupt_late, persisted_request, preparing,
  record_turn, release_request, reserve_request, resuming, running_message, start_run,
  starting_turn, stop_late,
}
use code_harbor.Server.Types.{Message}
use code_harbor.SessionRunState.{is_current}
use code_harbor.Threads.Index.{ThreadSummary}
use code_harbor.TurnGate.{TurnAdmission, TurnGate, accepted, acquire, busy, duplicate, release}

-- The steps that may end a turn of the session: a run, a first turn or a turn of /api/threads that
-- fails, an interrupt, and a message that says that the session is over.
abbrev pub names : Option String → String → Bool
names none id = false
names (some other) id = other == id

abbrev pub ends : String → Step → Bool
ends id (continues r fails now) = r.session_id == id
ends id (continues r (answers turn) now) = false
ends id (starts_first_turn other fails now) = other == id
ends id (starts_first_turn other (answers turn) now) = false
ends id (interrupts_turn other turn due context now) = other == id
ends id (broadcasts m) = names (released_by m) id
ends id (posts_turn other body persisted thread resolved now) = false
ends id (begins_creation body now) = false
ends id (checks_workspace body resolved) = false
ends id (starts_thread body workspace now response) = false
ends id (begins_thread_turn other request due now) = false
ends id (admits_thread_turn t place) = false
ends id (continues_thread_turn t stage fails now) = t.thread_id == id
ends id (continues_thread_turn t stage (answers turn) now) = false
ends id (lists_thread thread now) = false

-- A listing that finds the session busy without a change for more than ten minutes.
abbrev pub finds_overdue : String → Server → Step → Bool
finds_overdue id s (lists_thread thread now) =
    thread.id == id
    && elim (get s.store.sessions id) [ none ↦ false | some existing ↦ is_overdue existing now ]
finds_overdue id s (posts_turn other body persisted thread resolved now) = false
finds_overdue id s (continues r outcome now) = false
finds_overdue id s (begins_creation body now) = false
finds_overdue id s (checks_workspace body resolved) = false
finds_overdue id s (starts_thread body workspace now response) = false
finds_overdue id s (starts_first_turn other outcome now) = false
finds_overdue id s (interrupts_turn other turn due context now) = false
finds_overdue id s (broadcasts m) = false
finds_overdue id s (begins_thread_turn other request due now) = false
finds_overdue id s (admits_thread_turn t place) = false
finds_overdue id s (continues_thread_turn t stage outcome now) = false

-- No step of a history ends the turn of the session, or finds it overdue.
abbrev pub GoesOn : String → Server → List Step → Type 0
GoesOn id s [] = Unit
GoesOn id s (st ∷ sts) =
    (ends id st ≡ false) × (finds_overdue id s st ≡ false) × GoesOn id (step s st) sts

module _ (id : String) where
  abbrev pub Holds : Server → Type 0
  Holds s = has s.gate.active_sessions id ≡ true

  pub release_of-holds :
      (gate : TurnGate) (o : Option String)
      → names o id ≡ false
      → has gate.active_sessions id ≡ true
      → has (release_of gate o).active_sessions id ≡ true
  unfolding release
  release_of-holds gate none n h = h
  release_of-holds gate (some other) n h = ground (arith, has-delete gate.active_sessions other id)

  pub broadcast-Holds :
      (s : Server) (m : Message)
      → names (released_by m) id ≡ false
      → Holds s
      → Holds (broadcast_gateway s m)
  broadcast-Holds s m n h = rw (broadcast-gate s m) (release_of-holds s.gate (released_by m) n h)

  pub let_go-Holds :
      (s : Server) (other : String) → (other == id) ≡ false → Holds s → Holds (let_go s other)
  unfolding let_go
  let_go-Holds s other n h = ground (arith, has-delete s.gate.active_sessions other id)

  pub fail_run-Holds :
      (s : Server) (other : String) (now : ℕ)
      → (other == id) ≡ false
      → Holds s
      → Holds (fail_run s other now)
  unfolding fail_run released_by update
  fail_run-Holds s other now n h =
      broadcast-Holds _ (failed_message other now)
        (elim (Bool-cases (truthy other)) [ inl e ↦ rw e n | inr e ↦ rw e refl ])
        (let_go-Holds s other n h)

  activate-gate :
      (o : Option String) (now : ℕ) (s : Server) (other : String)
      → (activate o now s other).gate ≡ s.gate
  unfolding update
  activate-gate none now s other = refl
  activate-gate (some turn) now s other = ground arith

  interrupt_late-gate :
      (s : Server) (r : Run) (turn : Option String) (stage : Stage)
      → (interrupt_late s r turn stage).gate ≡ s.gate
  unfolding interrupt_late
  interrupt_late-gate s r turn resuming = refl
  interrupt_late-gate s r turn preparing = refl
  interrupt_late-gate s r none starting_turn = refl
  interrupt_late-gate s r (some turn) starting_turn = ground arith

  stop_late-gate : (s : Server) (r : Run) (o : Outcome) → (stop_late s r o).gate ≡ s.gate
  unfolding stop_late
  stop_late-gate s r fails = refl
  stop_late-gate s r (answers turn) = interrupt_late-gate s r turn r.stage

  advance-Holds :
      (s : Server) (r : Run) (turn : Option String) (now : ℕ) (stage : Stage)
      → Holds s
      → Holds (advance s r turn now stage).0
  unfolding advance
  advance-Holds s r turn now resuming h = h
  advance-Holds s r turn now preparing h = h
  advance-Holds s r turn now starting_turn h = rw (activate-gate turn now s r.session_id) h

  go_on-Holds :
      (s : Server) (r : Run) (o : Outcome) (now : ℕ)
      → ends id (continues r o now) ≡ false
      → Holds s
      → Holds (go_on s r o now).0
  unfolding go_on
  go_on-Holds s r fails now n h = fail_run-Holds s r.session_id now n h
  go_on-Holds s r (answers turn) now n h = advance-Holds s r turn now r.stage h

  pub continue_run-Holds :
      (s : Server) (r : Run) (o : Outcome) (now : ℕ)
      → ends id (continues r o now) ≡ false
      → Holds s
      → Holds (continue_run s r o now).0
  unfolding continue_run
  continue_run-Holds s r o now n h =
      elim (Bool-cases (is_current s.runs r.session_id r.generation)) [
        | inl current ↦ rw current (go_on-Holds s r o now n h)
        | inr late ↦ rw late (rw (stop_late-gate s r o) h)
      ]

  record_turn-gate :
      (s : Server) (other : String) (body : TurnBody) (plan : Plan) (now : ℕ)
      → (record_turn s other body plan now).0.gate ≡ s.gate
  unfolding record_turn
  record_turn-gate s other body plan now = elim (Option-cases (client_request body)) [
    | inl nothing ↦ rw nothing refl
    | inr (request, there) ↦ rw there (ground arith)
  ]

  pub start_run-Holds :
      (s : Server) (other : String) (body : TurnBody) (plan : Plan) (now : ℕ)
      → is_live plan.session.status ≡ true
      → Holds s
      → Holds (start_run s other body plan now).0
  unfolding start_run released_by
  start_run-Holds s other body plan now live h =
      broadcast-Holds _ (running_message other plan.session now) (rw live refl) (
        broadcast-Holds _ (input_message other body now)
          (elim (Bool-cases (truthy other)) [ inl e ↦ rw e refl | inr e ↦ rw e refl ])
          (rw (record_turn-gate s other body plan now) h))

  pub release_request-gate :
      (s : Server) (other : String) (o : Option String) → (release_request s other o).gate ≡ s.gate
  unfolding release_request
  release_request-gate s other none = refl
  release_request-gate s other (some request) = ground arith

  pub acquire-Holds :
      (gate : TurnGate) (other : String) (client persisted : Option String)
      → has gate.active_sessions id ≡ true
      → has (acquire gate other client persisted).0.active_sessions id ≡ true
  unfolding acquire
  acquire-Holds gate other client persisted h =
      ground (arith, has-set gate.active_sessions other id tt)

  admitted-Holds :
      (s : Server) (other : String) (body : TurnBody) (plan : Plan) (now : ℕ) (a : TurnAdmission)
      → is_live plan.session.status ≡ true
      → Holds s
      → Holds (admitted s other body plan now a).0
  unfolding admitted
  admitted-Holds s other body plan now duplicate live h =
      rw (release_request-gate s other (client_request body)) h
  admitted-Holds s other body plan now busy live h =
      rw (release_request-gate s other (client_request body)) h
  admitted-Holds s other body plan now accepted live h =
      start_run-Holds s other body plan now live h

  acquire_turn-Holds :
      (s : Server) (other : String) (body : TurnBody) (plan : Plan) (now : ℕ)
      → is_live plan.session.status ≡ true
      → Holds s
      → Holds (acquire_turn s other body plan now).0
  unfolding acquire_turn
  acquire_turn-Holds s other body plan now live h =
      admitted-Holds _ other body plan now _ live
        (acquire-Holds s.gate other (client_request body) (persisted_request plan.persisted) h)

  pub reserve_request-gate :
      (s : Server) (other : String) (o : Option String) (now : ℕ)
      → (reserve_request s other o now).0.gate ≡ s.gate
  unfolding reserve_request
  reserve_request-gate s other none now = refl
  reserve_request-gate s other (some request) now = ground arith

  reserved-Holds :
      (r : Server × Bool) (other : String) (body : TurnBody) (plan : Plan) (now : ℕ)
      → is_live plan.session.status ≡ true
      → Holds r.0
      → Holds (after_reservation r.0 other body plan now r.1).0
  unfolding after_reservation
  reserved-Holds (s, true) other body plan now live h =
      acquire_turn-Holds s other body plan now live h
  reserved-Holds (s, false) other body plan now live h = h

  pub admit_turn-Holds :
      (s : Server) (other : String) (body : TurnBody) (plan : Plan) (now : ℕ)
      → is_live plan.session.status ≡ true
      → Holds s
      → Holds (admit_turn s other body plan now).0
  unfolding admit_turn
  admit_turn-Holds s other body plan now live h =
      elim (Bool-cases (has_request s other (client_request body))) [
        | inl old ↦ rw old h
        | inr new ↦ rw new (
            reserved-Holds (reserve_request s other (client_request body) now) other body plan now
              live (rw (reserve_request-gate s other (client_request body) now) h))
      ]

-- A turn that passes the checks has a running session.
pub check_turn-is_live :
    (command : String) (body : TurnBody) (persisted : Option GatewaySession)
    (thread : Option ThreadSummary) (resolved : Option String) (now : ℕ) (plan : Plan)
    → check_turn command body persisted thread resolved now ≡ inr plan
    → is_live plan.session.status ≡ true
unfolding check_turn thread_to_session
check_turn-is_live command body (some s) thread resolved now plan h = ground arith
check_turn-is_live command body none (some thread) resolved now plan h = ground arith
check_turn-is_live command body none none resolved now plan h = ground arith
