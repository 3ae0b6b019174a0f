-- ===== src/Server/Histories/Growth.antt =====
-- The generation of a session's runs only grows, in every history.
use code_harbor.Common.{
  Bool-cases, List, Option, String, [], arith, inl, inr, nat_eq, none, refl, some, string_eq,
  truthy, ℕ, ◌∙◌, ◌∷◌, ◌≡◌,
}
use code_harbor.GatewayStore.Requests.{remember_create_request}
use code_harbor.GatewayStore.Types.{GatewaySession, running}
use code_harbor.Server.Broadcast.Effects.{broadcast-SameRuns}
use code_harbor.Server.Creation.{
  CreateBody, Resolved, Response, announce_session, begin_creation, create_admitted, create_thread,
  first_message, first_turn, new_session, optional, rejects, release_create, remember_create,
  reserve_create, resolves, responds, started_message, take_thread, take_workspace, throws,
}
use code_harbor.Server.Histories.{
  Step, admits_thread_turn, begins_creation, begins_thread_turn, broadcasts, checks_workspace,
  continues, continues_thread_turn, interrupts_turn, lists_thread, posts_turn, run,
  starts_first_turn, starts_thread, step,
}
use code_harbor.Server.Histories.Generations.{
  Grows, Grows-trans, begin-grows, broadcast-Grows, continue_run-Grows, fail_run-Grows,
  post_turn-Grows, remember_request-runs, request_codex_interrupt-runs,
}
use code_harbor.Server.Histories.ThreadRuns.{
  admit_thread_turn-runs, begin_thread_turn-runs, continue_thread_turn-runs, lists_thread-runs,
}
use code_harbor.Server.Interrupts.{
  Context, base_session, cancelled_message, interrupt_session, post_interrupt, record_interrupt,
  settle_interrupted_session, turn_to_stop,
}
use code_harbor.Server.Replies.{extract_thread_id, is_request_expired}
use code_harbor.Server.State.{Server, let_go, mark_live, update, upsert}
use code_harbor.Server.Turns.{Outcome, answers, fails, is_allowed}
use code_harbor.SessionRunState.{cancel}
use code_harbor.TurnGate.{TurnAdmission, accepted, busy, duplicate}
use native.Mathlib.Nat.{le_refl}

module _ (id : String) where
  release_create-runs : (s : Server) (o : Option String) → (release_create s o).runs ≡ s.runs
  unfolding release_create
  release_create-runs s none = refl
  release_create-runs s (some request) = ground arith

  reserve_create-runs :
      (s : Server) (o : Option String) (now : ℕ) → (reserve_create s o now).0.runs ≡ s.runs
  unfolding reserve_create
  reserve_create-runs s none now = refl
  reserve_create-runs s (some request) now = ground arith

  begin_creation-runs :
      (s : Server) (body : CreateBody) (now : ℕ) → (begin_creation s body now).0.runs ≡ s.runs
  unfolding begin_creation
  begin_creation-runs s body now = ground (arith, reserve_create-runs s body.client_request_id now)

  take_workspace-runs :
      (s : Server) (body : CreateBody) (r : Resolved) → (take_workspace s body r).0.runs ≡ s.runs
  unfolding take_workspace
  take_workspace-runs s body throws = release_create-runs s body.client_request_id
  take_workspace-runs s body (resolves w) =
      ground (arith, release_create-runs s body.client_request_id)

  remember_create-runs :
      (s : Server) (o : Option String) (other : String) (now : ℕ)
      → (remember_create s o other now).runs ≡ s.runs
  unfolding remember_create
  remember_create-runs s none other now = refl
  remember_create-runs s (some request) other now = ground (
    arith,
    remember_request-runs id
        (record s { store = remember_create_request s.store request other now }) other
        (some request),
  )

  create_admitted-runs :
      (s : Server) (other : String) (body : CreateBody) (session : GatewaySession) (now : ℕ)
      (a : TurnAdmission)
      → (create_admitted s other body session now a).0.runs ≡ s.runs
  unfolding create_admitted announce_session mark_live
  create_admitted-runs s other body session now busy = release_create-runs s body.client_request_id
  create_admitted-runs s other body session now accepted =
      (broadcast-SameRuns _ (started_message other session now)).0
      ∙ remember_create-runs _ body.client_request_id other now
  create_admitted-runs s other body session now duplicate =
      (broadcast-SameRuns _ (started_message other session now)).0
      ∙ remember_create-runs _ body.client_request_id other now

  create_thread-runs :
      (s : Server) (body : CreateBody) (workspace : String) (now : ℕ) (o : Option String)
      → (create_thread s body workspace now o).0.runs ≡ s.runs
  unfolding create_thread
  create_thread-runs s body workspace now none = release_create-runs s body.client_request_id
  create_thread-runs s body workspace now (some other) = elim (Bool-cases (truthy other)) [
    | inl there ↦
        rw there (create_admitted-runs _ other body (new_session s other body workspace now) now _)
    | inr empty ↦ rw empty (release_create-runs s body.client_request_id)
  ]

  take_thread-runs :
      (s : Server) (body : CreateBody) (workspace : String) (now : ℕ) (r : Response)
      → (take_thread s body workspace now r).0.runs ≡ s.runs
  unfolding take_thread
  take_thread-runs s body workspace now rejects = release_create-runs s body.client_request_id
  take_thread-runs s body workspace now (responds response) =
      create_thread-runs s body workspace now (extract_thread_id response)

  first_turn-Grows :
      (s : Server) (other : String) (o : Outcome) (now : ℕ) → Grows id s (first_turn s other o now)
  unfolding first_turn update
  first_turn-Grows s other fails now = fail_run-Grows id s other now
  first_turn-Grows s other (answers turn) now =
      broadcast-Grows id s
        (update s other (λ current. record current {
          status = running;
          active_turn_id = optional turn;
          last_updated_at = now;
        }))
        (first_message other now) (le_refl _)

  settle-Grows :
      (s : Server) (other : String) (base : GatewaySession) (now : ℕ)
      → Grows id s (settle_interrupted_session s other base now)
  unfolding settle_interrupted_session record_interrupt let_go upsert cancel
  settle-Grows s other base now =
      broadcast-Grows id s _ (cancelled_message other now) (begin-grows id s.runs other)

  interrupt_session-Grows :
      (s : Server) (other : String) (turn : Option String) (context : Context) (now : ℕ)
      (o : Option GatewaySession)
      → Grows id s (interrupt_session s other turn context now o).0
  unfolding interrupt_session
  interrupt_session-Grows s other turn context now none = le_refl _
  interrupt_session-Grows s other turn context now (some base) =
      elim (Bool-cases (is_allowed context.workspace_path)) [
        | inl there ↦ rw there (
            rw
              (request_codex_interrupt-runs id (settle_interrupted_session s other base now) other
                (turn_to_stop turn context))
              (settle-Grows s other base now))
        | inr outside ↦ rw outside (le_refl _)
      ]

  post_interrupt-Grows :
      (s : Server) (other : String) (turn : Option String) (due : Option (Option ℕ))
      (context : Context) (now : ℕ)
      → Grows id s (post_interrupt s other turn due context now).0
  unfolding post_interrupt
  post_interrupt-Grows s other turn due context now =
      elim (Bool-cases (is_request_expired due now)) [
        | inl expired ↦ rw expired (le_refl _)
        | inr open' ↦
            rw open'
              (interrupt_session-Grows s other turn context now (base_session s.command context))
      ]

  step-Grows : (s : Server) (st : Step) → Grows id s (step s st)
  unfolding step
  step-Grows s (posts_turn other body persisted thread resolved now) =
      post_turn-Grows id s other body persisted thread resolved now
  step-Grows s (continues r o now) = continue_run-Grows id s r o now
  step-Grows s (begins_creation body now) = rw (begin_creation-runs s body now) (le_refl _)
  step-Grows s (checks_workspace body r) = rw (take_workspace-runs s body r) (le_refl _)
  step-Grows s (starts_thread body workspace now r) =
      rw (take_thread-runs s body workspace now r) (le_refl _)
  step-Grows s (starts_first_turn other o now) = first_turn-Grows s other o now
  step-Grows s (interrupts_turn other turn due context now) =
      post_interrupt-Grows s other turn due context now
  step-Grows s (broadcasts m) = rw ((broadcast-SameRuns s m).0) (le_refl _)
  step-Grows s (begins_thread_turn other request due now) =
      rw (begin_thread_turn-runs s other request due now) (le_refl _)
  step-Grows s (admits_thread_turn t place) = rw (admit_thread_turn-runs s t place) (le_refl _)
  step-Grows s (continues_thread_turn t stage o now) =
      rw (continue_thread_turn-runs s t stage o now) (le_refl _)
  step-Grows s (lists_thread thread now) = rw (lists_thread-runs s thread now) (le_refl _)

  pub run-Grows : (s : Server) (sts : List Step) → Grows id s (run s sts)
  unfolding run
  run-Grows s [] = le_refl _
  run-Grows s (st ∷ sts) =
      Grows-trans id s (step s st) (run (step s st) sts) (step-Grows s st)
        (run-Grows (step s st) sts)
