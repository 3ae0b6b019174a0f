-- ===== src/Server/Interrupts.antt =====
-- index.ts, the interrupt of a session: it is settled at once, and Codex is asked to stop the turn.
use code_harbor.Common.{
  Bool, Option, String, false, if◌then◌else◌, length, ltb, nat_eq, none, some, string_eq, truthy, ℕ,
}
use code_harbor.Common.JsMap.{JsSet, delete_oldest, set}
use code_harbor.GatewayStore.Types.{GatewaySession, cancelled, undefined, value}
use code_harbor.Server.Broadcast.{broadcast_gateway}
use code_harbor.Server.Replies.{
  Reply, forbidden, interrupted, is_request_expired, request_expired, session_not_found,
  thread_to_session,
}
use code_harbor.Server.State.{Server, let_go, request_codex_interrupt, upsert}
use code_harbor.Server.Turns.{is_allowed, prop_text}
use code_harbor.Server.Types.{Message, no_payload, session_finished}
use code_harbor.SessionRunState.{cancel}
use code_harbor.Threads.Index.{ThreadSummary}

abbrev pub max_cancelled : ℕ
max_cancelled = 10_000

-- `cancelledSessions.add(id)`, and the oldest goes when there are too many.
unfoldable pub note_cancelled : JsSet String → String → JsSet String
note_cancelled m id =
    let m' = set m id tt in if ltb max_cancelled (length m') then delete_oldest m' else m'

abbrev pub cancelled_session : GatewaySession → ℕ → GatewaySession
cancelled_session base now = record base {
  status = cancelled;
  active_turn_id = undefined;
  finished_at = value now;
  last_turn_finished_at = value now;
  last_updated_at = now;
}

abbrev pub cancelled_message : String → ℕ → Message
cancelled_message id now = record {
  type = session_finished;
  request_id = none;
  session_id = some id;
  timestamp = now;
  payload = record no_payload { session_id = some id; status = some cancelled };
  event_seq = none;
}

-- The bookkeeping of `settleInterruptedSession`, up to the message.
unfoldable pub record_interrupt : Server → String → GatewaySession → ℕ → Server
unfolding note_cancelled let_go upsert
record_interrupt s id base now =
    let s₁ = record s {
      runs = (cancel s.runs id).0;
      cancelled_sessions = note_cancelled s.cancelled_sessions id;
    } in
    upsert (let_go s₁ id) (cancelled_session base now)

unfoldable pub settle_interrupted_session : Server → String → GatewaySession → ℕ → Server
unfolding record_interrupt broadcast_gateway
settle_interrupted_session s id base now =
    broadcast_gateway (record_interrupt s id base now) (cancelled_message id now)

-- What `authorizedThreadContext` gave, before the audit was written.
pub record Context : Type 0 where
  pub session : Option GatewaySession
  pub thread : Option ThreadSummary
  pub workspace_path : Option String

abbrev pub base_session : String → Context → Option GatewaySession
base_session command context = elim context.session [
  | some session ↦ some session
  | none ↦ elim context.thread [
    | some thread ↦ some (thread_to_session command thread (some cancelled))
    | none ↦ none
  ]
]

-- `body.turnId ?? context.session?.activeTurnId`
abbrev pub turn_to_stop : Option String → Context → Option String
turn_to_stop (some turn) context = some turn
turn_to_stop none context = elim context.session [
  | none ↦ none
  | some session ↦ prop_text session.active_turn_id
]

abbrev pub is_turn : Option String → Bool
is_turn none = false
is_turn (some turn) = truthy turn

unfoldable pub interrupt_session :
    Server → String → Option String → Context → ℕ → Option GatewaySession → Server × Reply
unfolding settle_interrupted_session request_codex_interrupt
interrupt_session s id turn context now none = (s, session_not_found)
interrupt_session s id turn context now (some base) =
    if is_allowed context.workspace_path
    then (
      request_codex_interrupt (settle_interrupted_session s id base now) id
          (turn_to_stop turn context),
      interrupted (is_turn (turn_to_stop turn context)),
    )
    else (s, forbidden)

-- POST /sessions/:id/interrupt
unfoldable pub post_interrupt :
    Server → String → Option String → Option (Option ℕ) → Context → ℕ → Server × Reply
unfolding interrupt_session is_request_expired
post_interrupt s id turn expires_at context now =
    if is_request_expired expires_at now
    then (s, request_expired)
    else interrupt_session s id turn context now (base_session s.command context)
