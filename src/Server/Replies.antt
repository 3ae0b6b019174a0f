-- ===== src/Server/Replies.antt =====
-- index.ts, the replies of the handlers and the conditions that they share.
use code_harbor.CodexBridge.Requests.{response}
use code_harbor.Common.{
  Bool, Option, String, [], false, if◌then◌else◌, leb, nat_eq, none, not, or_else, some, string_eq,
  true, ℕ, ◌&&◌, ◌==◌, ◌||◌, ◌∷◌,
}
use code_harbor.Common.Json.{Json, field, text_field}
use code_harbor.GatewayStore.Types.{
  GatewaySession, GatewaySessionStatus, PolicyMode, absent, cancelled, completed, confirm, failed,
  full_access, resumable, running, starting, undefined, value, waiting_approval,
}
use code_harbor.Threads.Index.{ThreadSummary}

-- What a handler answers; each is one body, with the status code of the source.
pub data Reply : Type 0 where
  invalid_request request_expired full_access_confirmation_required : Reply
  session_not_found forbidden : Reply
  duplicate_request pending_request : Reply
  turn_already_running turn_accepted : Reply
  already_created session_created : String → Reply
  internal_error : Reply
  interrupted : Bool → Reply

abbrev pub status_code : Reply → ℕ
status_code invalid_request = 400
status_code request_expired = 400
status_code full_access_confirmation_required = 400
status_code session_not_found = 404
status_code forbidden = 403
status_code duplicate_request = 202
status_code pending_request = 202
status_code turn_already_running = 409
status_code turn_accepted = 202
status_code (already_created session) = 202
status_code (session_created session) = 201
status_code internal_error = 500
status_code (interrupted requested) = 200

-- `isRequestExpired`; a text that is there and is no date is `some none`.
unfoldable pub is_request_expired : Option (Option ℕ) → ℕ → Bool
is_request_expired none now = false
is_request_expired (some none) now = true
is_request_expired (some (some due)) now = leb due now

abbrev pub is_full_access : Option PolicyMode → Bool
is_full_access (some full_access) = true
is_full_access (some confirm) = false
is_full_access none = false

abbrev pub is_confirmed : Option Bool → Bool
is_confirmed (some true) = true
is_confirmed (some false) = false
is_confirmed none = false

-- `fullAccessConfirmationRequired`
unfoldable pub needs_confirmation : Option PolicyMode → Option Bool → Option PolicyMode → Bool
needs_confirmation requested confirmed current =
    is_full_access requested && not (is_full_access current) && not (is_confirmed confirmed)

-- The two forms of a response that names its thread directly.
abbrev flat_thread_id : Json → Option String
flat_thread_id response = elim (text_field response "threadId") [
  | some id ↦ some id
  | none ↦ text_field response "id"
]

-- `extractThreadId`
unfoldable pub extract_thread_id : Json → Option String
unfolding field
extract_thread_id response = elim (field response "thread") [
  | none ↦ flat_thread_id response
  | some thread ↦ elim (text_field thread "id") [
    | some id ↦ some id
    | none ↦ flat_thread_id response
  ]
]

-- `extractTurnId`
unfoldable pub extract_turn_id : Json → Option String
unfolding field
extract_turn_id response = elim (field response "turn") [
  | none ↦ text_field response "turnId"
  | some turn ↦ elim (text_field turn "id") [
    | some id ↦ some id
    | none ↦ text_field response "turnId"
  ]
]

-- `mapThreadStatus`
unfoldable pub map_thread_status : String → GatewaySessionStatus
map_thread_status status =
    if status == "running" || status == "inProgress" || status == "active"
    then running
    else if status == "failed" || status == "systemError"
    then failed
    else if status == "interrupted" || status == "cancelled"
    then cancelled
    else completed

abbrev pub is_completed : GatewaySessionStatus → Bool
is_completed completed = true
is_completed running = false
is_completed starting = false
is_completed waiting_approval = false
is_completed failed = false
is_completed cancelled = false

-- `threadToSession`
unfoldable pub thread_to_session :
    String → ThreadSummary → Option GatewaySessionStatus → GatewaySession
thread_to_session command thread override =
    let status = or_else override (map_thread_status thread.status) in
    let finished = if is_completed status then value thread.updated_at_ms else undefined in
    record {
      id = thread.id;
      provider_session_id = thread.id;
      title = thread.title;
      workspace_path = thread.cwd;
      status = status;
      session_policy_mode = confirm;
      active_turn_id = absent;
      can_resume = true;
      resume_status = resumable;
      command = command;
      args = "thread/import" ∷ "history/replay" ∷ [];
      prompt = thread.preview;
      model_label = elim thread.model [ some model ↦ value model | none ↦ undefined ];
      model_provider = value thread.model_provider;
      created_at = thread.created_at_ms;
      last_updated_at = thread.updated_at_ms;
      started_at = value thread.created_at_ms;
      finished_at = finished;
      last_turn_started_at = absent;
      last_turn_finished_at = finished;
      last_client_request_id = absent;
      recent_client_request_ids = absent;
      exit_code = absent;
      parent_session_id = absent;
      child_session_ids = absent;
      thread_source = absent;
      agent_nickname = absent;
      agent_role = absent;
      agent_path = absent;
    }
