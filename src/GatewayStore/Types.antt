-- ===== src/GatewayStore/Types.antt =====
-- gatewayStore.ts, the types. A time is a number of milliseconds in place of its ISO text: texts of
-- one format are ordered as the times are.
use code_harbor.Common.{Bool, List, Option, String, or_else, ℕ}

pub data GatewaySessionStatus : Type 0 where
  starting running waiting_approval completed failed cancelled : GatewaySessionStatus

pub data PolicyMode : Type 0 where
  confirm full_access : PolicyMode

pub data ResumeStatus : Type 0 where
  resumable history_only missing_thread : ResumeStatus

-- An optional property of an object: not there, there and `undefined`, or there with a value.
pub data Prop {ℓ} (A : Type ℓ) : Type ℓ where
  absent undefined : Prop A
  value : A → Prop A

-- `p ?? d`
abbrev pub prop_or {ℓ} : {A : Type ℓ} → Prop A → A → A
prop_or (value a) d = a
prop_or absent d = d
prop_or undefined d = d

-- `{ ...old, ...new }` at one optional property
abbrev pub spread {ℓ} : {A : Type ℓ} → Prop A → Prop A → Prop A
spread old absent = old
spread old undefined = undefined
spread old (value a) = value a

pub record GatewaySession : Type 0 where
  pub id : String
  pub provider_session_id : String
  pub title : String
  pub workspace_path : String
  pub status : GatewaySessionStatus
  pub session_policy_mode : PolicyMode
  pub active_turn_id : Prop String
  pub can_resume : Bool
  pub resume_status : ResumeStatus
  pub command : String
  pub args : List String
  pub prompt : String
  pub model_label : Prop String
  pub model_provider : Prop String
  pub created_at : ℕ
  pub last_updated_at : ℕ
  pub started_at : Prop ℕ
  pub finished_at : Prop ℕ
  pub last_turn_started_at : Prop ℕ
  pub last_turn_finished_at : Prop ℕ
  pub last_client_request_id : Prop String
  pub recent_client_request_ids : Prop (List String)
  pub exit_code : Prop (Option ℕ)
  pub parent_session_id : Prop String
  pub child_session_ids : Prop (List String)
  pub thread_source : Prop String
  pub agent_nickname : Prop String
  pub agent_role : Prop String
  pub agent_path : Prop String

-- `{ ...existing, ...session, lastUpdatedAt: session.lastUpdatedAt }`
unfoldable pub merge_session : GatewaySession → GatewaySession → GatewaySession
merge_session existing session = record session {
  active_turn_id = spread existing.active_turn_id session.active_turn_id;
  model_label = spread existing.model_label session.model_label;
  model_provider = spread existing.model_provider session.model_provider;
  started_at = spread existing.started_at session.started_at;
  finished_at = spread existing.finished_at session.finished_at;
  last_turn_started_at = spread existing.last_turn_started_at session.last_turn_started_at;
  last_turn_finished_at = spread existing.last_turn_finished_at session.last_turn_finished_at;
  last_client_request_id = spread existing.last_client_request_id session.last_client_request_id;
  recent_client_request_ids =
      spread existing.recent_client_request_ids session.recent_client_request_ids;
  exit_code = spread existing.exit_code session.exit_code;
  parent_session_id = spread existing.parent_session_id session.parent_session_id;
  child_session_ids = spread existing.child_session_ids session.child_session_ids;
  thread_source = spread existing.thread_source session.thread_source;
  agent_nickname = spread existing.agent_nickname session.agent_nickname;
  agent_role = spread existing.agent_role session.agent_role;
  agent_path = spread existing.agent_path session.agent_path;
}

-- `payload` is the JSON text of the payload, which the store never reads. A sequence number that is
-- no natural number is `none`: the store ignores it as it ignores an absent one.
pub record GatewayMessage : Type 0 where
  pub type : String
  pub request_id : Option String
  pub session_id : Option String
  pub timestamp : ℕ
  pub payload : String
  pub event_seq : Option ℕ

-- A `SessionTimelineEntry` is an object with the message as its one field.
pub record SessionTimelineEntry : Type 0 where
  pub message : GatewayMessage

-- `entry.message.eventSeq ?? 0`
abbrev pub seq_of : SessionTimelineEntry → ℕ
seq_of entry = or_else entry.message.event_seq 0

pub record CreateRequestRecord : Type 0 where
  pub session_id : String
  pub created_at : ℕ

pub record CachedEvents : Type 0 where
  pub entries : List SessionTimelineEntry
  pub complete : Bool

-- A line of an events file: an entry, text that is no JSON, or `null`.
pub data Line : Type 0 where
  corrupt null_line : Line
  entry : SessionTimelineEntry → Line

-- What waits in the chain of promises of an events file.
pub data Task : Type 0 where
  writes_line : Line → Task
  removes_file : Task
