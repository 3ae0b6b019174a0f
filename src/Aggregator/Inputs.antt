-- ===== src/Aggregator/Inputs.antt =====
-- aggregator.ts, the status of a row, its end, and the prompt that a user gives.
-- `event.timestamp || iso`
use code_harbor.Aggregator.Outputs.{take_text}
use code_harbor.Aggregator.Rows.{is_nil, nonempty, or_option}
use code_harbor.Aggregator.Types.{
  AssistantStatus, TurnMessage, cancelled, completed, failed, idle, status_eq, streaming,
  waiting_approval,
}
use code_harbor.Common.{
  Bool, List, Option, String, [], if◌then◌else◌, nat_eq, none, or_else, some, string_eq, truthy,
  ◌&&◌, ◌==◌, ◌∷◌,
}
use code_harbor.Common.Json.{Json, as_array, field, text, text_field}
use code_harbor.WebClient.Fields.{in_field, is_text, or_json, or_text, text_in}

abbrev pub stamp : String → Json → Option Json
stamp iso event = or_json (field event "timestamp") (some (text iso))

abbrev status_of : String → Option AssistantStatus
status_of t =
    if t == "completed"
    then some completed
    else if t == "cancelled"
    then some cancelled
    else if t == "failed"
    then some failed
    else none

-- `session-status`, for the last row
abbrev pub set_turn_status : Option Json → Option String → TurnMessage → TurnMessage
set_turn_status at none turn = turn
set_turn_status at (some t) turn =
    if t == "running"
    then record turn {
      assistant_status =
          if status_eq turn.assistant_status idle then streaming else turn.assistant_status;
    }
    else if t == "waiting-approval"
    then record turn { assistant_status = waiting_approval }
    else elim (status_of t) [
      | none ↦ turn
      | some status ↦ record turn { assistant_status = status; completed_at = at }
    ]

abbrev pub take_message_text : Json → TurnMessage → TurnMessage
take_message_text done turn =
    if is_text (text_field done "type") "agentMessage" then take_text done turn else turn

abbrev pub take_message_texts : List Json → TurnMessage → TurnMessage
take_message_texts [] turn = turn
take_message_texts (done ∷ rest) turn = take_message_texts rest (take_message_text done turn)

abbrev pub finished_status : Option String → AssistantStatus
finished_status status =
    if is_text status "cancelled"
    then cancelled
    else if is_text status "failed"
    then failed
    else completed

abbrev pub turn_status : Json → Option String
turn_status payload = text_in (field payload "turn") "status"

-- `session-finished`, for the last row
abbrev pub finish_turn : Option Json → Json → TurnMessage → TurnMessage
finish_turn at payload turn =
    take_message_texts (or_else (as_array (in_field (field payload "turn") "items")) [])
      (record turn {
        assistant_status =
            finished_status (or_text (turn_status payload) (text_field payload "status"));
        completed_at = at;
      })

abbrev pub is_same_input : Option String → String → String → TurnMessage → Bool
is_same_input (some id) prompt session turn = is_text turn.client_request_id id
is_same_input none prompt session turn =
    turn.user_prompt == prompt
    && status_eq turn.assistant_status streaming
    && turn.session_id == session

abbrev pub is_duplicate : Option String → String → String → TurnMessage → Bool
is_duplicate request prompt session turn = is_same_input (nonempty request) prompt session turn

abbrev pub merge_input : Option String → String → Option (List Json) → TurnMessage → TurnMessage
merge_input request prompt attachments turn = record turn {
  client_request_id = or_option (nonempty request) turn.client_request_id;
  user_prompt = if truthy turn.user_prompt then turn.user_prompt else prompt;
  user_attachments =
      if is_nil turn.user_attachments
      then or_else attachments turn.user_attachments
      else turn.user_attachments;
}
