-- ===== src/Aggregator/Types.antt =====
-- app/src/types.ts, the rows of the web client and what stands in them.
use code_harbor.Common.{Bool, List, Option, String, false, true}
use code_harbor.Common.Json.{Json}

pub data AssistantStatus : Type 0 where
  idle streaming waiting_approval completed cancelled failed : AssistantStatus

pub record CommandExecution : Type 0 where
  pub id : String
  pub command : String
  pub cwd : Option String
  pub aggregated_output : String
  pub exit_code : Option Json
  pub status : String
  pub duration_ms : Option Json

pub record SubAgentActivity : Type 0 where
  pub agent_thread_id : Option String
  pub agent_path : Option String
  pub kind : String
  pub status : String
  pub tool_call : Option Json

pub record FileChange : Type 0 where
  pub id : String
  pub path : String
  pub kind : String
  pub diff : String
  pub status : String

pub data ToolItem : Type 0 where
  command_execution : CommandExecution → ToolItem
  sub_agent_activity : SubAgentActivity → ToolItem
  file_change : FileChange → ToolItem

pub record ApprovalRequest : Type 0 where
  pub request_id : String
  pub session_id : String
  pub approval_method : String
  pub turn_id : Option String
  pub item_id : Option String
  pub summary : Option String
  pub command : Option String
  pub cwd : Option String
  pub expires_at : Option String
  pub proposed_execpolicy_amendment : Option (List String)
  pub status : String
  pub created_at : Option Json
  pub raw_params : Json
  pub decision : Option String
  pub resolved_at : Option Json

pub record TokenUsage : Type 0 where
  pub total_tokens : Option Json
  pub input_tokens : Option Json
  pub output_tokens : Option Json
  pub reasoning_output_tokens : Option Json

pub record TurnMessage : Type 0 where
  pub turn_id : String
  pub session_id : String
  pub client_request_id : Option String
  pub user_prompt : String
  pub user_attachments : List Json
  pub user_time : Option Json
  pub is_interjection : Bool
  pub assistant_status : AssistantStatus
  pub reasoning : String
  pub reasoning_summary : List String
  pub reasoning_completed : Bool
  pub text : String
  pub tools : List ToolItem
  pub diffs : List String
  pub token_usage : Option TokenUsage
  pub approvals : List ApprovalRequest
  pub started_at : Option Json
  pub completed_at : Option Json

abbrev pub status_eq : AssistantStatus → AssistantStatus → Bool
status_eq idle idle = true
status_eq streaming streaming = true
status_eq waiting_approval waiting_approval = true
status_eq completed completed = true
status_eq cancelled cancelled = true
status_eq failed failed = true
status_eq a b = false
