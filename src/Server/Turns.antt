-- ===== src/Server/Turns.antt =====
-- index.ts, POST /sessions/:id/turns: the checks of a turn, its admission, and the run that prepares and
-- starts it behind the reply.
pub mod Refusals
pub mod Forgotten
use code_harbor.Common.{
  Bool, Option, String, false, if◌then◌else◌, inl, inr, leb, nat_eq, none, not, or_else, some,
  string_eq, true, truthy, ℕ, ◌&&◌, ◌==◌, ◌||◌, ◌⊎◌,
}
use code_harbor.Common.JsMap.{delete}
use code_harbor.Common.Text.{trim}
use code_harbor.GatewayStore.Requests.{
  has_client_request, release_client_request, remember_client_request, reserve_client_request,
}
use code_harbor.GatewayStore.Types.{
  GatewaySession, PolicyMode, Prop, absent, confirm, failed, running, undefined, value,
}
use code_harbor.RelayProxy.{plan}
use code_harbor.Server.Broadcast.{broadcast_gateway}
use code_harbor.Server.Replies.{
  Reply, duplicate_request, forbidden, full_access_confirmation_required, invalid_request,
  needs_confirmation, pending_request, request_expired, session_not_found, thread_to_session,
  turn_accepted, turn_already_running,
}
use code_harbor.Server.State.{Server, let_go, mark_live, request_codex_interrupt, update, upsert}
use code_harbor.Server.Types.{
  Message, no_payload, session_finished, session_status, session_user_input,
}
use code_harbor.SessionRunState.{begin, is_current}
use code_harbor.Threads.Index.{ThreadSummary}
use code_harbor.TurnGate.{TurnAdmission, accepted, acquire, busy, duplicate, run}

-- The body as zod passes it on. `attachments` is how many there are.
pub record TurnBody : Type 0 where
  pub prompt : String
  pub client_request_id : Option String
  pub request_id : Option String
  pub expires_at : Option (Option ℕ)
  pub attachments : ℕ
  pub session_policy_mode : Option PolicyMode
  pub confirm_full_access : Option Bool
  -- The JSON text of the payload of `session-user-input`.
  pub input_json : String

-- The refinement of the schema: a prompt or an attachment.
unfoldable pub is_turn_body : TurnBody → Bool
unfolding trim
is_turn_body body = truthy (trim body.prompt) || not (body.attachments == 0)

-- `body.clientRequestId ?? body.requestId`
abbrev pub client_request : TurnBody → Option String
client_request body = elim body.client_request_id [ some id ↦ some id | none ↦ body.request_id ]

-- `body.expiresAt && Date.parse(body.expiresAt) <= Date.now()`
unfoldable pub is_turn_expired : Option (Option ℕ) → ℕ → Bool
is_turn_expired none now = false
is_turn_expired (some none) now = false
is_turn_expired (some (some due)) now = leb due now

-- What the checks leave to the admission.
pub record Plan : Type 0 where
  pub persisted : Option GatewaySession
  pub session : GatewaySession
  pub policy : PolicyMode

abbrev pub policy_in : Option GatewaySession → Option PolicyMode
policy_in none = none
policy_in (some s) = some s.session_policy_mode

abbrev pub persisted_session : GatewaySession → PolicyMode → ℕ → GatewaySession
persisted_session s policy received = record s {
  status = running;
  session_policy_mode = policy;
  last_turn_started_at = value received;
  last_updated_at = received;
}

abbrev pub imported_session : String → ThreadSummary → String → PolicyMode → GatewaySession
imported_session command thread prompt policy =
    record (thread_to_session command thread (some running)) {
      prompt = prompt;
      session_policy_mode = policy;
    }

-- The workspace that a turn may run in: a persisted session is trusted, any other goes through
-- `resolveAllowedWorkspace`, whose answer is an argument.
abbrev pub allowed_workspace : Option GatewaySession → Option String → Option String
allowed_workspace (some s) resolved = some s.workspace_path
allowed_workspace none resolved = resolved

abbrev pub is_allowed : Option String → Bool
is_allowed none = false
is_allowed (some workspace) = truthy workspace

abbrev pub session_of :
    String
    → TurnBody
    → Option GatewaySession
    → Option ThreadSummary
    → PolicyMode
    → ℕ
    → Option GatewaySession
session_of command body (some s) thread policy received = some (persisted_session s policy received)
session_of command body none (some thread) policy received =
    some (imported_session command thread body.prompt policy)
session_of command body none none policy received = none

-- The checks in front of the reservation. `thread` is what the index of threads has for the id.
unfoldable pub check_turn :
    String
    → TurnBody
    → Option GatewaySession
    → Option ThreadSummary
    → Option String
    → ℕ
    → Reply ⊎ Plan
unfolding is_turn_body is_turn_expired needs_confirmation
check_turn command body persisted thread resolved received =
    let policy = or_else body.session_policy_mode (or_else (policy_in persisted) confirm) in
    if not (is_turn_body body)
    then inl invalid_request
    else if is_turn_expired body.expires_at received
    then inl request_expired
    else elim (session_of command body persisted thread policy received) [
      | none ↦ inl session_not_found
      | some session ↦
          if needs_confirmation body.session_policy_mode body.confirm_full_access
            (policy_in persisted)
          then inl full_access_confirmation_required
          else if not (is_allowed (allowed_workspace persisted resolved))
          then inl forbidden
          else inr (record { persisted = persisted; session = session; policy = policy })
    ]

-- The calls of the store under `if (clientRequestId)`.
unfoldable pub has_request : Server → String → Option String → Bool
unfolding has_client_request
has_request s id none = false
has_request s id (some request) = truthy request && has_client_request s.store id request

unfoldable pub reserve_request : Server → String → Option String → ℕ → Server × Bool
reserve_request s id none now = (s, true)
reserve_request s id (some request) now =
    if truthy request
    then (let (st, ok) = reserve_client_request s.store id request now in
        (record s { store = st }, ok))
    else (s, true)

unfoldable pub release_request : Server → String → Option String → Server
release_request s id none = s
release_request s id (some request) =
    if truthy request then record s { store = release_client_request s.store id request } else s

unfoldable pub remember_request : Server → String → Option String → Server
unfolding remember_client_request
remember_request s id none = s
remember_request s id (some request) =
    if truthy request then record s { store = remember_client_request s.store id request } else s

abbrev pub prop_text : Prop String → Option String
prop_text (value a) = some a
prop_text absent = none
prop_text undefined = none

abbrev pub persisted_request : Option GatewaySession → Option String
persisted_request none = none
persisted_request (some s) = prop_text s.last_client_request_id

-- `clientRequestId ?? persisted?.lastClientRequestId`
abbrev pub last_request : Option String → Option String → Prop String
last_request (some request) persisted = value request
last_request none (some request) = value request
last_request none none = undefined

-- A run behind the reply, at the call that it waits for.
pub data Stage : Type 0 where
  resuming preparing starting_turn : Stage

pub record Run : Type 0 where
  pub session_id : String
  pub generation : ℕ
  pub stage : Stage

abbrev pub input_message : String → TurnBody → ℕ → Message
input_message id body now = record {
  type = session_user_input;
  request_id = none;
  session_id = some id;
  timestamp = now;
  payload = record no_payload { session_id = some id; json = body.input_json };
  event_seq = none;
}

abbrev pub running_message : String → GatewaySession → ℕ → Message
running_message id session now = record {
  type = session_status;
  request_id = none;
  session_id = some id;
  timestamp = now;
  payload = record no_payload {
    session_id = some id;
    status = some running;
    session = some session;
  };
  event_seq = none;
}

-- The session as `upsertSession` gets it.
abbrev pub started_session : Plan → Option String → ℕ → GatewaySession
started_session plan request received = record plan.session {
  status = running;
  session_policy_mode = plan.policy;
  active_turn_id = undefined;
  last_client_request_id = last_request request (persisted_request plan.persisted);
  last_turn_started_at = value received;
  last_updated_at = received;
}

-- The bookkeeping of an admitted turn, up to the messages.
unfoldable pub record_turn : Server → String → TurnBody → Plan → ℕ → Server × ℕ
unfolding mark_live upsert remember_request
record_turn s id body plan received =
    let (runs, generation) = begin s.runs id in
    let s₁ =
      mark_live (record s { cancelled_sessions = delete s.cancelled_sessions id; runs = runs })
        id in
    let s₂ = upsert s₁ (started_session plan (client_request body) received) in
    (remember_request s₂ id (client_request body), generation)

unfoldable pub start_run : Server → String → TurnBody → Plan → ℕ → Server × Run
unfolding record_turn broadcast_gateway
start_run s id body plan received =
    let (s₁, generation) = record_turn s id body plan received in
    let s₂ = broadcast_gateway s₁ (input_message id body received) in
    (
      broadcast_gateway s₂ (running_message id plan.session received),
      record { session_id = id; generation = generation; stage = resuming },
    )

-- The answer of the gate.
unfoldable pub admitted :
    Server → String → TurnBody → Plan → ℕ → TurnAdmission → Server × Reply × Option Run
unfolding start_run release_request
admitted s id body plan received duplicate =
    (release_request s id (client_request body), duplicate_request, none)
admitted s id body plan received busy =
    (release_request s id (client_request body), turn_already_running, none)
admitted s id body plan received accepted =
    let (s', run) = start_run s id body plan received in (s', turn_accepted, some run)

unfoldable pub acquire_turn : Server → String → TurnBody → Plan → ℕ → Server × Reply × Option Run
unfolding admitted
acquire_turn s id body plan received =
    let (gate, admission) =
      acquire s.gate id (client_request body) (persisted_request plan.persisted) in
    admitted (record s { gate = gate }) id body plan received admission

-- A reservation that another caller has keeps the turn out.
unfoldable pub after_reservation :
    Server → String → TurnBody → Plan → ℕ → Bool → Server × Reply × Option Run
unfolding acquire_turn
after_reservation s id body plan received true = acquire_turn s id body plan received
after_reservation s id body plan received false = (s, pending_request, none)

-- The handler behind its checks, up to the reply.
unfoldable pub admit_turn : Server → String → TurnBody → Plan → ℕ → Server × Reply × Option Run
unfolding after_reservation has_request reserve_request
admit_turn s id body plan received =
    if has_request s id (client_request body)
    then (s, duplicate_request, none)
    else (let (s', ok) = reserve_request s id (client_request body) received in
        after_reservation s' id body plan received ok)

unfoldable pub after_checks :
    Server → String → TurnBody → ℕ → Reply ⊎ Plan → Server × Reply × Option Run
unfolding admit_turn
after_checks s id body received (inl reply) = (s, reply, none)
after_checks s id body received (inr plan) = admit_turn s id body plan received

-- The whole handler. `persisted` is what `getSession` gave at its start: for a session that is
-- persisted no `await` follows, for any other the index and the file system have answered.
unfoldable pub post_turn :
    Server
    → String
    → TurnBody
    → Option GatewaySession
    → Option ThreadSummary
    → Option String
    → ℕ
    → Server × Reply × Option Run
unfolding after_checks check_turn
post_turn s id body persisted thread resolved received =
    after_checks s id body received (check_turn s.command body persisted thread resolved received)

-- How the call that a run waits for ends: it fails, or it gives a value, for `turn/start` the id of the
-- turn.
pub data Outcome : Type 0 where
  fails : Outcome
  answers : Option String → Outcome

abbrev pub failed_message : String → ℕ → Message
failed_message id now = record {
  type = session_finished;
  request_id = none;
  session_id = some id;
  timestamp = now;
  payload = record no_payload { session_id = some id; status = some failed };
  event_seq = none;
}

abbrev pub fail_session : ℕ → GatewaySession → GatewaySession
fail_session now current = record current {
  status = failed;
  active_turn_id = undefined;
  finished_at = value now;
  last_updated_at = now;
}

-- The `catch` of a run that is current.
unfoldable pub fail_run : Server → String → ℕ → Server
unfolding let_go update broadcast_gateway
fail_run s id now =
    broadcast_gateway (update (let_go s id) id (fail_session now)) (failed_message id now)

abbrev pub activate : Option String → ℕ → Server → String → Server
activate none now s id = s
activate (some turn) now s id =
    if truthy turn
    then update s id
        (λ current. record current { active_turn_id = value turn; last_updated_at = now })
    else s

-- A run that is current goes on when its call has ended.
unfoldable pub advance : Server → Run → Option String → ℕ → Stage → Server × Option Run
unfolding update
advance s run turn now resuming = (s, some (record run { stage = preparing }))
advance s run turn now preparing = (s, some (record run { stage = starting_turn }))
advance s run turn now starting_turn = (activate turn now s run.session_id, none)

unfoldable pub go_on : Server → Run → Outcome → ℕ → Server × Option Run
unfolding fail_run advance
go_on s run fails now = (fail_run s run.session_id now, none)
go_on s run (answers turn) now = advance s run turn now run.stage

-- A run that another one has replaced stops; a turn that it started too late is interrupted.
unfoldable pub interrupt_late : Server → Run → Option String → Stage → Server
unfolding request_codex_interrupt
interrupt_late s run turn resuming = s
interrupt_late s run turn preparing = s
interrupt_late s run turn starting_turn = request_codex_interrupt s run.session_id turn

unfoldable pub stop_late : Server → Run → Outcome → Server
unfolding interrupt_late
stop_late s run fails = s
stop_late s run (answers turn) = interrupt_late s run turn run.stage

unfoldable pub continue_run : Server → Run → Outcome → ℕ → Server × Option Run
unfolding go_on stop_late
continue_run s run outcome now =
    if is_current s.runs run.session_id run.generation
    then go_on s run outcome now
    else (stop_late s run outcome, none)
