-- ===== src/Server/Histories/Creating.antt =====
-- What keeps a session at the gate: the creation of sessions, and interrupts of others.
use code_harbor.CodexBridge.Requests.{response}
use code_harbor.Common.{
  Bool-cases, Option, Option-cases, String, arith, false, inl, inr, nat_eq, none, refl, some,
  string_eq, truthy, ℕ, ◌==◌, ◌≡◌, ◌≢◌,
}
use code_harbor.GatewayStore.Types.{GatewaySession}
use code_harbor.Server.Broadcast.Effects.{ended_by_status, released_by}
use code_harbor.Server.Creation.{
  CreateBody, Resolved, Response, announce_session, begin_creation, create_admitted, create_thread,
  first_message, first_turn, new_session, rejects, release_create, remember_create, reserve_create,
  resolves, responds, started_message, take_thread, take_workspace, throws,
}
use code_harbor.Server.Histories.{starts_first_turn}
use code_harbor.Server.Histories.Holding.{
  Holds, acquire-Holds, broadcast-Holds, ends, fail_run-Holds, let_go-Holds, names,
}
use code_harbor.Server.Interrupts.{
  Context, base_session, cancelled_message, interrupt_session, note_cancelled, post_interrupt,
  record_interrupt, settle_interrupted_session, turn_to_stop,
}
use code_harbor.Server.Replies.{extract_thread_id, is_request_expired}
use code_harbor.Server.State.{Server, mark_live, request_codex_interrupt, upsert}
use code_harbor.Server.Turns.{Outcome, answers, fails, is_allowed}
use code_harbor.SessionRunState.{cancel}
use code_harbor.TurnGate.{TurnAdmission, accepted, acquire, busy, duplicate}

module _ (id : String) where
  release_create-gate : (s : Server) (o : Option String) → (release_create s o).gate ≡ s.gate
  unfolding release_create
  release_create-gate s none = refl
  release_create-gate s (some request) = ground arith

  reserve_create-gate :
      (s : Server) (o : Option String) (now : ℕ) → (reserve_create s o now).0.gate ≡ s.gate
  unfolding reserve_create
  reserve_create-gate s none now = refl
  reserve_create-gate s (some request) now = ground arith

  pub begin_creation-Holds :
      (s : Server) (body : CreateBody) (now : ℕ)
      → Holds id s
      → Holds id (begin_creation s body now).0
  unfolding begin_creation
  begin_creation-Holds s body now h =
      ground (arith, reserve_create-gate s body.client_request_id now)

  pub take_workspace-Holds :
      (s : Server) (body : CreateBody) (r : Resolved)
      → Holds id s
      → Holds id (take_workspace s body r).0
  unfolding take_workspace
  take_workspace-Holds s body throws h = rw (release_create-gate s body.client_request_id) h
  take_workspace-Holds s body (resolves w) h =
      ground (arith, release_create-gate s body.client_request_id)

  remember_create-gate :
      (s : Server) (o : Option String) (other : String) (now : ℕ)
      → (remember_create s o other now).gate ≡ s.gate
  unfolding remember_create
  remember_create-gate s none other now = refl
  remember_create-gate s (some request) other now = ground arith

  announce_session-Holds :
      (s : Server) (other : String) (body : CreateBody) (session : GatewaySession) (now : ℕ)
      → names (ended_by_status session.id session.status) id ≡ false
      → Holds id s
      → Holds id (announce_session s other body session now)
  unfolding announce_session released_by mark_live
  announce_session-Holds s other body session now n h =
      broadcast-Holds id _ (started_message other session now) n
        (rw (remember_create-gate _ body.client_request_id other now) h)

  create_admitted-Holds :
      (s : Server) (other : String) (body : CreateBody) (session : GatewaySession) (now : ℕ)
      (a : TurnAdmission)
      → (a ≢ busy → names (ended_by_status session.id session.status) id ≡ false)
      → Holds id s
      → Holds id (create_admitted s other body session now a).0
  unfolding create_admitted
  create_admitted-Holds s other body session now busy n h =
      rw (release_create-gate s body.client_request_id) h
  create_admitted-Holds s other body session now accepted n h =
      announce_session-Holds s other body session now (n (λ e. cc)) h
  create_admitted-Holds s other body session now duplicate n h =
      announce_session-Holds s other body session now (n (λ e. cc)) h

  -- A thread that is new to a held session's gate is another thread.
  new_session-other :
      (s : Server) (other : String) (body : CreateBody) (workspace : String) (now : ℕ)
      → Holds id s
      → (acquire s.gate other body.client_request_id none).1 ≢ busy
      → names (ended_by_status other (new_session s other body workspace now).status) id ≡ false
  unfolding acquire new_session
  new_session-other s other body workspace now h n = elim (Bool-cases (other == id)) [
    | inl same ↦ absurd (
        n (
          rw ((string_eq.beq_iff other id).0 same) (elim (Option-cases body.client_request_id) [
            | inl nothing ↦ rw (nothing, h) refl
            | inr (request, there) ↦ rw (there, h) refl
          ])))
    | inr differs ↦ ground arith
  ]

  create_thread-Holds :
      (s : Server) (body : CreateBody) (workspace : String) (now : ℕ) (o : Option String)
      → Holds id s
      → Holds id (create_thread s body workspace now o).0
  unfolding create_thread
  create_thread-Holds s body workspace now none h =
      rw (release_create-gate s body.client_request_id) h
  create_thread-Holds s body workspace now (some other) h = elim (Bool-cases (truthy other)) [
    | inl there ↦ rw there (
        create_admitted-Holds _ other body (new_session s other body workspace now) now _
          (new_session-other s other body workspace now h)
          (acquire-Holds id s.gate other body.client_request_id none h))
    | inr empty ↦ rw empty (rw (release_create-gate s body.client_request_id) h)
  ]

  pub take_thread-Holds :
      (s : Server) (body : CreateBody) (workspace : String) (now : ℕ) (r : Response)
      → Holds id s
      → Holds id (take_thread s body workspace now r).0
  unfolding take_thread
  take_thread-Holds s body workspace now rejects h =
      rw (release_create-gate s body.client_request_id) h
  take_thread-Holds s body workspace now (responds response) h =
      create_thread-Holds s body workspace now (extract_thread_id response) h

  pub first_turn-Holds :
      (s : Server) (other : String) (o : Outcome) (now : ℕ)
      → ends id (starts_first_turn other o now) ≡ false
      → Holds id s
      → Holds id (first_turn s other o now)
  unfolding first_turn released_by
  first_turn-Holds s other fails now n h = fail_run-Holds id s other now n h
  first_turn-Holds s other (answers turn) now n h =
      broadcast-Holds id _ (first_message other now)
        (elim (Bool-cases (truthy other)) [ inl e ↦ rw e refl | inr e ↦ rw e refl ]) h

  request_codex_interrupt-gate :
      (s : Server) (other : String) (o : Option String)
      → (request_codex_interrupt s other o).gate ≡ s.gate
  unfolding request_codex_interrupt
  request_codex_interrupt-gate s other none = refl
  request_codex_interrupt-gate s other (some turn) = ground arith

  settle-Holds :
      (s : Server) (other : String) (base : GatewaySession) (now : ℕ)
      → (other == id) ≡ false
      → Holds id s
      → Holds id (settle_interrupted_session s other base now)
  unfolding settle_interrupted_session record_interrupt released_by upsert
  settle-Holds s other base now n h =
      broadcast-Holds id _ (cancelled_message other now)
        (elim (Bool-cases (truthy other)) [ inl e ↦ rw e n | inr e ↦ rw e refl ])
        (let_go-Holds id
          (record s {
            runs = (cancel s.runs other).0;
            cancelled_sessions = note_cancelled s.cancelled_sessions other;
          })
          other n h)

  interrupt_session-Holds :
      (s : Server) (other : String) (turn : Option String) (context : Context) (now : ℕ)
      (o : Option GatewaySession)
      → (other == id) ≡ false
      → Holds id s
      → Holds id (interrupt_session s other turn context now o).0
  unfolding interrupt_session
  interrupt_session-Holds s other turn context now none n h = h
  interrupt_session-Holds s other turn context now (some base) n h =
      elim (Bool-cases (is_allowed context.workspace_path)) [
        | inl there ↦ rw there (
            rw (request_codex_interrupt-gate _ other (turn_to_stop turn context))
              (settle-Holds s other base now n h))
        | inr outside ↦ rw outside h
      ]

  pub post_interrupt-Holds :
      (s : Server) (other : String) (turn : Option String) (due : Option (Option ℕ))
      (context : Context) (now : ℕ)
      → (other == id) ≡ false
      → Holds id s
      → Holds id (post_interrupt s other turn due context now).0
  unfolding post_interrupt
  post_interrupt-Holds s other turn due context now n h =
      elim (Bool-cases (is_request_expired due now)) [
        | inl expired ↦ rw expired h
        | inr open' ↦
            rw open' (
              interrupt_session-Holds s other turn context now (base_session s.command context) n h)
      ]
