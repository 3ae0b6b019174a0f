-- ===== src/Server/Types.antt =====
-- index.ts and gatewayStore.ts, the messages that the gateway sends to its clients.
use code_harbor.Common.{Option, String, none, some, ℕ}
use code_harbor.GatewayStore.Types.{GatewayMessage, GatewaySession, GatewaySessionStatus}

-- The types of the messages that the server builds.
pub data MessageType : Type 0 where
  session_started session_user_input session_status session_finished session_output : MessageType
  session_forked session_policy_changed : MessageType
  approval_requested approval_resolved approval_expired : MessageType
  subagent_started subagent_tool subagent_finished : MessageType

abbrev pub type_name : MessageType → String
type_name session_started = "session-started"
type_name session_user_input = "session-user-input"
type_name session_status = "session-status"
type_name session_finished = "session-finished"
type_name session_output = "session-output"
type_name session_forked = "session-forked"
type_name session_policy_changed = "session-policy-changed"
type_name approval_requested = "approval-requested"
type_name approval_resolved = "approval-resolved"
type_name approval_expired = "approval-expired"
type_name subagent_started = "subagent-started"
type_name subagent_tool = "subagent-tool"
type_name subagent_finished = "subagent-finished"

-- The properties of a payload that `broadcastGateway` reads, each where it has the type that is asked
-- for, and the JSON text of the whole.
pub record Payload : Type 0 where
  pub session : Option GatewaySession
  pub status : Option GatewaySessionStatus
  pub turn_status : Option String
  pub session_id : Option String
  pub thread_id : Option String
  pub parent_session_id : Option String
  pub child_thread_id : Option String
  pub agent_thread_id : Option String
  pub json : String

abbrev pub no_payload : Payload
no_payload = record {
  session = none;
  status = none;
  turn_status = none;
  session_id = none;
  thread_id = none;
  parent_session_id = none;
  child_thread_id = none;
  agent_thread_id = none;
  json = "{}";
}

pub record Message : Type 0 where
  pub type : MessageType
  pub request_id : Option String
  pub session_id : Option String
  pub timestamp : ℕ
  pub payload : Payload
  pub event_seq : Option ℕ

-- The message as the store keeps it.
abbrev pub stored : Message → GatewayMessage
stored m = record {
  type = type_name m.type;
  request_id = m.request_id;
  session_id = m.session_id;
  timestamp = m.timestamp;
  payload = m.payload.json;
  event_seq = m.event_seq;
}

-- `persisted ?? payload`: the store changes nothing but the number.
abbrev pub numbered : Message → Option GatewayMessage → Message
numbered m none = m
numbered m (some persisted) = record m { event_seq = persisted.event_seq }
