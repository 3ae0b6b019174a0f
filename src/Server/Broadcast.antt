-- ===== src/Server/Broadcast.antt =====
-- index.ts, broadcastGateway: an event goes into the timeline of its session, into the store, the gate
-- and the sets, and then to the clients.
pub mod Effects
pub mod Sessions
use code_harbor.Common.{
  Bool, Option, String, false, if◌then◌else◌, nat_eq, none, some, string_eq, true, truthy, ◌&&◌,
  ◌==◌, ◌||◌,
}
use code_harbor.Common.JsMap.{has}
use code_harbor.GatewayStore.Events.{append_event, take_event_write_errors}
use code_harbor.GatewayStore.Relations.{link_subagent}
use code_harbor.GatewayStore.State.{Store}
use code_harbor.GatewayStore.Types.{
  GatewaySession, GatewaySessionStatus, cancelled, completed, failed, undefined, value,
  waiting_approval,
}
use code_harbor.Server.State.{Server, is_live, let_go, mark_live, send, update, upsert}
use code_harbor.Server.Types.{
  Message, MessageType, approval_expired, approval_requested, approval_resolved, numbered,
  session_finished, session_forked, session_output, session_policy_changed, session_started,
  session_status, session_user_input, stored, subagent_finished, subagent_started, subagent_tool,
}

-- `persistSubagentRelation`
abbrev pub parent_of : Message → Option String
parent_of m = elim m.payload.parent_session_id [
  | some parent ↦ some parent
  | none ↦ elim m.type [ subagent_started ↦ m.payload.thread_id | _ ↦ none ]
]

abbrev pub child_of : Message → Option String
child_of m = elim m.payload.child_thread_id [
  | some child_id ↦ some child_id
  | none ↦ elim m.payload.agent_thread_id [
    | some child_id ↦ some child_id
    | none ↦ elim m.type [ session_forked ↦ m.payload.session_id | _ ↦ none ]
  ]
]

abbrev pub relates : MessageType → Bool
relates subagent_started = true
relates subagent_finished = true
relates session_forked = true
relates session_started = false
relates session_user_input = false
relates session_status = false
relates session_finished = false
relates session_output = false
relates session_policy_changed = false
relates approval_requested = false
relates approval_resolved = false
relates approval_expired = false
relates subagent_tool = false

abbrev pub link : Store → Option String → Option String → Store
link st (some parent) (some child_id) = link_subagent st parent child_id
link st (some parent) none = st
link st none child_id = st

unfoldable pub persist_subagent_relation : Store → Message → Store
persist_subagent_relation st m = if relates m.type then link st (parent_of m) (child_of m) else st

-- `inferFinishedStatus`
unfoldable pub infer_finished_status : Option String → GatewaySessionStatus
infer_finished_status none = completed
infer_finished_status (some status) =
    if status == "failed" || status == "error"
    then failed
    else if status == "cancelled" || status == "interrupted"
    then cancelled
    else completed

-- `cancelledSessions.has(id)` and a status that a run that was cancelled would still report
unfoldable pub is_stale_status : Server → String → GatewaySessionStatus → Bool
is_stale_status s id status = has s.cancelled_sessions id && is_live status

unfoldable pub take_status : Server → String → GatewaySessionStatus → Server
unfolding mark_live let_go
take_status s id status = if is_live status then mark_live s id else let_go s id

-- A message that carries a session.
unfoldable pub take_session : Server → Message → GatewaySession → Server
unfolding is_stale_status take_status upsert send
take_session s m session =
    if is_stale_status s session.id session.status
    then s
    else send (upsert (take_status s session.id session.status) session) m

unfoldable pub take_finished : Server → Message → String → Server
unfolding let_go update infer_finished_status
take_finished s m id = update (let_go s id) id λ existing. record existing {
  status = infer_finished_status m.payload.turn_status;
  active_turn_id = undefined;
  finished_at = value m.timestamp;
  last_turn_finished_at = value m.timestamp;
  last_updated_at = m.timestamp;
}

unfoldable pub take_session_status :
    Server → Message → String → Option GatewaySessionStatus → Server
unfolding is_stale_status take_status update send
take_session_status s m id none = send s m
take_session_status s m id (some status) =
    if is_stale_status s id status
    then s
    else send
        (update (take_status s id status) id
          (λ existing. record existing { status = status; last_updated_at = m.timestamp }))
        m

-- A message of a session that carries no session.
unfoldable pub take_typed : Server → Message → String → MessageType → Server
unfolding take_finished take_session_status update send
take_typed s m id session_finished = send (take_finished s m id) m
take_typed s m id session_status = take_session_status s m id m.payload.status
take_typed s m id approval_requested =
    send
      (update s id
        (λ existing. record existing { status = waiting_approval; last_updated_at = m.timestamp }))
      m
take_typed s m id session_started = send s m
take_typed s m id session_user_input = send s m
take_typed s m id session_output = send s m
take_typed s m id session_forked = send s m
take_typed s m id session_policy_changed = send s m
take_typed s m id approval_resolved = send s m
take_typed s m id approval_expired = send s m
take_typed s m id subagent_started = send s m
take_typed s m id subagent_tool = send s m
take_typed s m id subagent_finished = send s m

unfoldable pub take_unlisted : Server → Message → Option String → Server
unfolding take_typed send
take_unlisted s m none = send s m
take_unlisted s m (some id) = if truthy id then take_typed s m id m.type else send s m

unfoldable pub take_message : Server → Message → Option GatewaySession → Server
unfolding take_session take_unlisted
take_message s m (some session) = take_session s m session
take_message s m none = take_unlisted s m m.session_id

-- What goes into the timeline, and the relation that the message tells of.
unfoldable pub persist_message : Server → Message → Server × Message
persist_message s m =
    let (st, persisted) = append_event s.store (stored m) in
    let out = numbered m persisted in
    (record s { store = persist_subagent_relation (take_event_write_errors st).0 out }, out)

unfoldable pub broadcast_gateway : Server → Message → Server
unfolding take_message persist_message
broadcast_gateway s m =
    let (s', out) = persist_message s m in take_message s' out out.payload.session
