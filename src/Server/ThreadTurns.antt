-- ===== src/Server/ThreadTurns.antt =====
-- index.ts, POST /api/threads/:id/turns behind the parsing of its body, and what listing the threads does
-- to the gate. Of a reply only whether the turn goes on is modelled. The audit log and the message
-- `remote/turn/started` to the event stream are not modelled.
use code_harbor.Common.{
  Bool, Option, String, [], false, if◌then◌else◌, ltb, nat_eq, none, not, some, string_eq, true,
  truthy, ℕ, ◌&&◌, ◌-◌, ◌∷◌,
}
use code_harbor.Common.JsMap.{get, has}
use code_harbor.Common.Text.{take_text}
use code_harbor.GatewayStore.Types.{
  GatewaySession, GatewaySessionStatus, Prop, absent, cancelled, completed, confirm, failed,
  resumable, running, starting, undefined, value, waiting_approval,
}
use code_harbor.Server.Broadcast.{broadcast_gateway}
use code_harbor.Server.Replies.{thread_to_session}
use code_harbor.Server.State.{Server, let_go, mark_live, upsert}
use code_harbor.Server.Turns.{
  Outcome, Stage, answers, fails, is_turn_expired, last_request, persisted_request, preparing,
  release_request, remember_request, reserve_request, resuming, running_message, starting_turn,
}
use code_harbor.Threads.Index.{ThreadSummary}
use code_harbor.TurnGate.{TurnAdmission, accepted, acquire, busy, duplicate, release}

-- `existing.status === "running" || existing.status === "starting"`
abbrev pub is_busy : GatewaySessionStatus → Bool
is_busy running = true
is_busy starting = true
is_busy waiting_approval = false
is_busy completed = false
is_busy failed = false
is_busy cancelled = false

abbrev pub status_text : GatewaySessionStatus → String
status_text running = "running"
status_text starting = "starting"
status_text waiting_approval = "waiting-approval"
status_text completed = "completed"
status_text failed = "failed"
status_text cancelled = "cancelled"

abbrev pub later : ℕ → ℕ → ℕ
later a b = if ltb a b then b else a

-- A session that has been busy without a change for more than ten minutes.
abbrev pub is_overdue : GatewaySession → ℕ → Bool
is_overdue existing now = is_busy existing.status && ltb 600_000 (now - existing.last_updated_at)

-- `withGatewayThreadStatus`, for the session that the store has.
unfoldable pub with_existing : Server → ThreadSummary → ℕ → GatewaySession → Server × ThreadSummary
unfolding let_go
with_existing s thread now existing =
    if is_busy existing.status && not (has s.process_live_session_ids thread.id)
    then (s, thread)
    else if is_overdue existing now
    then (let_go s thread.id, thread)
    else (
      s,
      record thread {
        status = status_text existing.status;
        updated_at_ms = later thread.updated_at_ms existing.last_updated_at;
      },
    )

abbrev pub with_found : Server → ThreadSummary → ℕ → Option GatewaySession → Server × ThreadSummary
with_found s thread now none = (s, thread)
with_found s thread now (some existing) = with_existing s thread now existing

unfoldable pub with_gateway_thread_status : Server → ThreadSummary → ℕ → Server × ThreadSummary
unfolding with_existing
with_gateway_thread_status s thread now = with_found s thread now (get s.store.sessions thread.id)

-- What the handler has read of its request, of the store at its start, and of the index of threads;
-- `directory` is `process.cwd()`.
pub record ThreadTurn : Type 0 where
  pub thread_id : String
  pub text : String
  pub turn_request : Option String
  pub kept : Option GatewaySession
  pub found : Option ThreadSummary
  pub directory : String

-- Up to the first `await`: the request is reserved, or it is answered as pending.
unfoldable pub begin_thread_turn :
    Server → String → Option String → Option (Option ℕ) → ℕ → Server × Bool
unfolding is_turn_expired reserve_request
begin_thread_turn s id request due now =
    if is_turn_expired due now then (s, false) else reserve_request s id request now

-- How the audit, the look at the index and the check of the workspace end.
pub data Place : Type 0 where
  place_fails place_refused place_allowed : Place

abbrev pub answer_admission : Server → ThreadTurn → TurnAdmission → Server × Bool
answer_admission s t accepted = (s, true)
answer_admission s t duplicate = (release_request s t.thread_id t.turn_request, false)
answer_admission s t busy = (release_request s t.thread_id t.turn_request, false)

unfoldable pub admit_thread_turn : Server → ThreadTurn → Place → Server × Bool
unfolding release_request
admit_thread_turn s t place_fails = (release_request s t.thread_id t.turn_request, false)
admit_thread_turn s t place_refused = (release_request s t.thread_id t.turn_request, false)
admit_thread_turn s t place_allowed =
    let (gate, admission) = acquire s.gate t.thread_id t.turn_request (persisted_request t.kept) in
    answer_admission (record s { gate = gate }) t admission

-- `minimalSession`
unfoldable pub minimal_session : String → String → String → String → ℕ → GatewaySession
minimal_session command directory id prompt now = record {
  id = id;
  provider_session_id = id;
  title = (if truthy (take_text 32 prompt) then take_text 32 prompt else "Codex 会话");
  workspace_path = directory;
  status = running;
  session_policy_mode = confirm;
  active_turn_id = absent;
  can_resume = true;
  resume_status = resumable;
  command = command;
  args = "thread/start" ∷ "turn/start" ∷ [];
  prompt = prompt;
  model_label = absent;
  model_provider = absent;
  created_at = now;
  last_updated_at = now;
  started_at = value now;
  finished_at = absent;
  last_turn_started_at = absent;
  last_turn_finished_at = absent;
  last_client_request_id = absent;
  recent_client_request_ids = absent;
  exit_code = absent;
  parent_session_id = absent;
  child_session_ids = absent;
  thread_source = absent;
  agent_nickname = absent;
  agent_role = absent;
  agent_path = absent;
}

abbrev pub session_for : Server → ThreadTurn → Option ThreadSummary → ℕ → GatewaySession
session_for s t none now = minimal_session s.command t.directory t.thread_id t.text now
session_for s t (some thread) now = thread_to_session s.command thread (some running)

abbrev pub turn_prop : Option String → Prop String
turn_prop none = undefined
turn_prop (some turn) = value turn

-- The turn has started: the session is stored, the request is remembered, and the clients are told.
unfoldable pub finish_thread_turn : Server → ThreadTurn → Option String → ℕ → Server
unfolding upsert remember_request mark_live thread_to_session minimal_session broadcast_gateway
finish_thread_turn s t turn now =
    let session = session_for s t t.found now in
    let s₁ = upsert s (record session {
      status = running;
      active_turn_id = turn_prop turn;
      last_client_request_id = last_request t.turn_request (persisted_request t.kept);
      last_turn_started_at = value now;
      last_updated_at = now;
    }) in
    let s₂ = mark_live (remember_request s₁ t.thread_id t.turn_request) t.thread_id in
    broadcast_gateway s₂ (running_message t.thread_id session now)

-- One of the three calls behind the admission has ended: `resumeThread`, `storeAttachments`, `startTurn`.
unfoldable pub continue_thread_turn : Server → ThreadTurn → Stage → Outcome → ℕ → Server
unfolding release_request finish_thread_turn release
continue_thread_turn s t stage fails now =
    release_request (record s { gate = release s.gate t.thread_id }) t.thread_id t.turn_request
continue_thread_turn s t resuming (answers turn) now = s
continue_thread_turn s t preparing (answers turn) now = s
continue_thread_turn s t starting_turn (answers turn) now = finish_thread_turn s t turn now
