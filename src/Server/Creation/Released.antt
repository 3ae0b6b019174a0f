-- ===== src/Server/Creation/Released.antt =====
-- What the announcement of a new session does to the gate.
use code_harbor.CodexBridge.Requests.{response}
use code_harbor.Common.{
  ==_refl, Bool-cases, Option, String, false, inl, inr, nat_eq, none, refl, some, string_eq, truthy,
  ℕ, ◌∙◌, ◌≡◌,
}
use code_harbor.Common.JsMap.{has}
use code_harbor.Common.JsMap.Distinct.{has-delete}
use code_harbor.Common.Json.{Json}
use code_harbor.GatewayStore.Types.{GatewaySession, completed}
use code_harbor.Server.Broadcast.Effects.{broadcast-gate, released_by}
use code_harbor.Server.Creation.{
  CreateBody, announce_session, create_admitted, create_thread, new_session, responds,
  started_message, take_thread,
}
use code_harbor.Server.Replies.{extract_thread_id, map_thread_status, session_created}
use code_harbor.Server.State.{Server}
use code_harbor.TurnGate.{TurnAdmission, accepted, busy, duplicate, release}

announced :
    (s : Server) (id : String) (body : CreateBody) (session : GatewaySession) (now : ℕ)
    → session.id ≡ id
    → session.status ≡ completed
    → has (announce_session s id body session now).gate.active_sessions id ≡ false
unfolding announce_session released_by release
announced s id body session now own over =
    rw (broadcast-gate _ (started_message id session now), over, own)
      (has-delete _ id id ∙ rw (==_refl id) refl)

create_admitted-released :
    (s : Server) (id other : String) (body : CreateBody) (session : GatewaySession) (now : ℕ)
    (a : TurnAdmission)
    → session.id ≡ other
    → session.status ≡ completed
    → (create_admitted s other body session now a).1 ≡ session_created id
    → has (create_admitted s other body session now a).0.gate.active_sessions id ≡ false
unfolding create_admitted
create_admitted-released s id other body session now busy own over h = cc
create_admitted-released s id other body session now accepted own over h =
    let e : other ≡ id = cc in rw (← e) (announced s other body session now own over)
create_admitted-released s id other body session now duplicate own over h =
    let e : other ≡ id = cc in rw (← e) (announced s other body session now own over)

new_session-id :
    (s : Server) (id : String) (body : CreateBody) (workspace : String) (now : ℕ)
    → (new_session s id body workspace now).id ≡ id
unfolding new_session
new_session-id s id body workspace now = refl

new_session-status :
    (s : Server) (id : String) (body : CreateBody) (workspace : String) (now : ℕ)
    → (new_session s id body workspace now).status ≡ completed
unfolding new_session map_thread_status
new_session-status s id body workspace now = refl

create_thread-released :
    (s : Server) (id : String) (body : CreateBody) (workspace : String) (now : ℕ)
    (o : Option String)
    → (create_thread s body workspace now o).1 ≡ session_created id
    → has (create_thread s body workspace now o).0.gate.active_sessions id ≡ false
unfolding create_thread
create_thread-released s id body workspace now none h = cc
create_thread-released s id body workspace now (some other) h = elim (Bool-cases (truthy other)) [
  | inl there ↦ rw there (
      create_admitted-released _ id other body (new_session s other body workspace now) now _
        (new_session-id s other body workspace now) (new_session-status s other body workspace now)
        (rw there at h))
  | inr empty ↦ (let bad = rw empty at h in cc)
]

-- A session that `POST /sessions` answers with 201 is not at the gate any more when the answer goes out,
-- though its first turn is only about to start: the session that is announced bears the status that
-- `mapThreadStatus` makes of `starting`, which is `completed`.
pub take_thread-released :
    (s : Server) (id : String) (body : CreateBody) (workspace : String) (now : ℕ) (response : Json)
    → (take_thread s body workspace now (responds response)).1 ≡ session_created id
    → has (take_thread s body workspace now (responds response)).0.gate.active_sessions id ≡ false
unfolding take_thread
take_thread-released s id body workspace now response h =
    create_thread-released s id body workspace now (extract_thread_id response) h
