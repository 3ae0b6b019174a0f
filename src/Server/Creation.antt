-- ===== src/Server/Creation.antt =====
-- index.ts, POST /sessions: the reservation of a create request, the thread that Codex starts, and the
-- first turn behind the reply.
pub mod Released
use code_harbor.CodexBridge.Approvals.{answer}
use code_harbor.CodexBridge.Requests.{response}
use code_harbor.Common.{
  Bool, Option, String, [], false, if◌then◌else◌, nat_eq, none, or_else, some, string_eq, truthy, ℕ,
  ◌∷◌,
}
use code_harbor.Common.Json.{Json}
use code_harbor.Common.Text.{take_text}
use code_harbor.GatewayStore.Requests.{
  Reservation, done, pending, release_create_request, remember_create_request,
  reserve_create_request, reserved,
}
use code_harbor.GatewayStore.State.{save_session}
use code_harbor.GatewayStore.Types.{
  GatewaySession, PolicyMode, Prop, running, starting, undefined, value,
}
use code_harbor.Server.Broadcast.{broadcast_gateway}
use code_harbor.Server.Replies.{
  Reply, already_created, extract_thread_id, forbidden, full_access_confirmation_required,
  internal_error, is_request_expired, needs_confirmation, pending_request, request_expired,
  session_created, thread_to_session, turn_already_running,
}
use code_harbor.Server.State.{Server, mark_live, update}
use code_harbor.Server.Turns.{Outcome, answers, fail_run, fails, is_allowed, remember_request}
use code_harbor.Server.Types.{Message, no_payload, session_started, session_status}
use code_harbor.Threads.Index.{ThreadSummary}
use code_harbor.TurnGate.{TurnAdmission, accepted, acquire, busy, duplicate}

pub record CreateBody : Type 0 where
  pub prompt : String
  pub client_request_id : Option String
  pub expires_at : Option (Option ℕ)
  pub title : Option String
  pub session_policy_mode : PolicyMode
  pub confirm_full_access : Option Bool

-- The calls of the store under `if (body.clientRequestId)`.
unfoldable pub reserve_create : Server → Option String → ℕ → Server × Reservation
unfolding reserve_create_request
reserve_create s none now = (s, reserved)
reserve_create s (some request) now =
    if truthy request
    then (let (st, answer) = reserve_create_request s.store request now in
        (record s { store = st }, answer))
    else (s, reserved)

unfoldable pub release_create : Server → Option String → Server
unfolding release_create_request
release_create s none = s
release_create s (some request) =
    if truthy request then record s { store = release_create_request s.store request } else s

unfoldable pub remember_create : Server → Option String → String → ℕ → Server
unfolding remember_create_request remember_request
remember_create s none id now = s
remember_create s (some request) id now =
    if truthy request
    then remember_request (record s { store = remember_create_request s.store request id now }) id
        (some request)
    else s

-- Up to the check of the workspace: a reply, or `none` when the handler goes on.
unfoldable pub begin_creation : Server → CreateBody → ℕ → Server × Option Reply
unfolding reserve_create is_request_expired needs_confirmation
begin_creation s body now =
    if is_request_expired body.expires_at now
    then (s, some request_expired)
    else if needs_confirmation (some body.session_policy_mode) body.confirm_full_access none
    then (s, some full_access_confirmation_required)
    else (let (s', answer) = reserve_create s body.client_request_id now in
        (
          s',
          elim answer [
            | reserved ↦ none
            | pending ↦ some pending_request
            | done id ↦ some (already_created id)
          ],
        ))

-- The answer of `resolveAllowedWorkspace`: it throws, or it gives a path or none.
pub data Resolved : Type 0 where
  throws : Resolved
  resolves : Option String → Resolved

unfoldable pub take_workspace : Server → CreateBody → Resolved → Server × Option Reply
unfolding release_create
take_workspace s body throws = (release_create s body.client_request_id, some internal_error)
take_workspace s body (resolves workspace) =
    if is_allowed workspace
    then (s, none)
    else (release_create s body.client_request_id, some forbidden)

-- `body.title || body.prompt.slice(0, 32) || "Codex 会话"`
unfoldable pub title_of_create : CreateBody → String
unfolding take_text
title_of_create body =
    let title = or_else body.title "" in
    let start = take_text 32 body.prompt in
    if truthy title then title else if truthy start then start else "Codex 会话"

unfoldable pub new_thread : String → CreateBody → String → ℕ → ThreadSummary
unfolding title_of_create
new_thread id body workspace now = record {
  id = id;
  title = title_of_create body;
  cwd = workspace;
  preview = body.prompt;
  model = none;
  model_provider = "codex";
  source = "web";
  status = "starting";
  created_at_ms = now;
  updated_at_ms = now;
  tokens_used = 0;
  archived = false;
  git_branch = none;
}

unfoldable pub new_session : Server → String → CreateBody → String → ℕ → GatewaySession
unfolding new_thread thread_to_session
new_session s id body workspace now =
    record (thread_to_session s.command (new_thread id body workspace now) none) {
      session_policy_mode = body.session_policy_mode;
    }

abbrev pub optional : Option String → Prop String
optional (some a) = value a
optional none = undefined

abbrev pub saved_session : GatewaySession → CreateBody → ℕ → GatewaySession
saved_session session body now = record session {
  status = starting;
  active_turn_id = undefined;
  args = "thread/start" ∷ "turn/start" ∷ [];
  last_client_request_id = optional body.client_request_id;
  last_turn_started_at = value now;
}

abbrev pub started_message : String → GatewaySession → ℕ → Message
started_message id session now = record {
  type = session_started;
  request_id = none;
  session_id = some id;
  timestamp = now;
  payload = record no_payload { session = some session };
  event_seq = none;
}

-- The session of a thread that has started: it is saved, remembered and announced.
unfoldable pub announce_session : Server → String → CreateBody → GatewaySession → ℕ → Server
unfolding remember_create mark_live broadcast_gateway
announce_session s id body session now =
    let s₁ = record s { store = save_session s.store (saved_session session body now) } in
    broadcast_gateway (mark_live (remember_create s₁ body.client_request_id id now) id)
      (started_message id session now)

unfoldable pub create_admitted :
    Server → String → CreateBody → GatewaySession → ℕ → TurnAdmission → Server × Reply
unfolding announce_session release_create
create_admitted s id body session now busy =
    (release_create s body.client_request_id, turn_already_running)
create_admitted s id body session now accepted =
    (announce_session s id body session now, session_created id)
create_admitted s id body session now duplicate =
    (announce_session s id body session now, session_created id)

-- `codexBridge.startThread` has thrown, or has given a response.
pub data Response : Type 0 where
  rejects : Response
  responds : Json → Response

unfoldable pub create_thread : Server → CreateBody → String → ℕ → Option String → Server × Reply
unfolding create_admitted new_session
create_thread s body workspace now none = (release_create s body.client_request_id, internal_error)
create_thread s body workspace now (some id) =
    if truthy id
    then (let (gate, admission) = acquire s.gate id body.client_request_id none in
        create_admitted (record s { gate = gate }) id body (new_session s id body workspace now) now
          admission)
    else (release_create s body.client_request_id, internal_error)

unfoldable pub take_thread : Server → CreateBody → String → ℕ → Response → Server × Reply
unfolding create_thread release_create extract_thread_id
take_thread s body workspace now rejects = (release_create s body.client_request_id, internal_error)
take_thread s body workspace now (responds response) =
    create_thread s body workspace now (extract_thread_id response)

abbrev pub first_message : String → ℕ → Message
first_message id now = record {
  type = session_status;
  request_id = none;
  session_id = some id;
  timestamp = now;
  payload = record no_payload { session_id = some id; thread_id = some id; status = some running };
  event_seq = none;
}

-- The first turn behind the reply; unlike a later run it has no generation.
unfoldable pub first_turn : Server → String → Outcome → ℕ → Server
unfolding fail_run update broadcast_gateway
first_turn s id fails now = fail_run s id now
first_turn s id (answers turn) now =
    broadcast_gateway
      (update s id (λ current. record current {
        status = running;
        active_turn_id = optional turn;
        last_updated_at = now;
      }))
      (first_message id now)
