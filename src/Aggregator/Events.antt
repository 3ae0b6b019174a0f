-- ===== src/Aggregator/Events.antt =====
-- aggregator.ts, applyLiveEventToTurns and aggregateEventsToTurns.
use code_harbor.Aggregator.Activities.{
  or_object, take_subagent_finished, take_subagent_started, take_subagent_tool,
}
use code_harbor.Aggregator.Approvals.{
  await_approval, decide_request, expire_request, inner_params, nested_params,
  normalized_approval_decision, parsed, read_text, request_of, resolved_decision, resolved_id,
  settle_in_all,
}
use code_harbor.Aggregator.Inputs.{
  finish_turn, is_duplicate, merge_input, stamp, set_turn_status, turn_status,
}
use code_harbor.Aggregator.Outputs.{session_output}
use code_harbor.Aggregator.Rows.{
  change_or_add, create_empty_turn, find_index, nonempty, or_option, update_last, with_turn,
}
use code_harbor.Aggregator.Types.{AssistantStatus, TurnMessage, cancelled, completed, streaming}
use code_harbor.Common.{
  Bool, List, Option, String, [], false, if◌then◌else◌, nat_eq, none, not, or_else, some, string_eq,
  truthy, ℕ, ◌&&◌, ◌||◌, ◌∷◌,
}
use code_harbor.Common.Json.{Json, as_array, field, text_field}
use code_harbor.Common.Text.{concat}
use code_harbor.WebClient.Fields.{in_field, is_text, or_json, or_text, text_in}

module _ (show : ℕ → String) (parse : String → Option Json) (millis iso random : String) where
  abbrev pub session_of_event : Json → Json → Option Json → String
  session_of_event event payload session =
      let outer = nested_params parse payload in
      let inner = inner_params parse payload in
      or_else
        (or_text (text_field event "sessionId") (
          or_text (text_field payload "sessionId") (
            or_text (text_field payload "threadId") (
              or_text (text_in outer "sessionId") (
                or_text (text_in outer "threadId") (
                  or_text (text_in inner "sessionId")
                    (or_text (text_in inner "threadId") (text_in session "id"))))))))
        ""

  -- `session-started`
  unfoldable pub take_session_started : Json → Json → String → List TurnMessage → List TurnMessage
  unfolding with_turn
  take_session_started event payload session (turn ∷ turns) = turn ∷ turns
  take_session_started event payload session [] =
      let started = field payload "session" in
      let prompt = or_else (text_in started "prompt") "" in
      if truthy prompt
      then with_turn millis iso session (some "turn-0") prompt
          (λ turn. record turn {
            user_time = or_json (field event "timestamp") (in_field started "createdAt");
            assistant_status = streaming;
          })
          []
      else []

  abbrev input_turn : Json → Json → String → Option String → String → TurnMessage
  input_turn event payload session request prompt =
      let id =
        or_else (nonempty (text_field payload "turnId"))
          (concat "turn-" (concat millis (concat "-" random))) in
      let turn = create_empty_turn iso id session prompt in
      record turn {
        client_request_id = request;
        user_attachments = or_else (as_array (field payload "attachments")) [];
        user_time = stamp iso event;
        is_interjection = is_text (text_field payload "kind") "interjection";
        assistant_status = streaming;
      }

  -- `session-user-input`: the echo of a row that is there completes it.
  unfoldable pub take_user_input : Json → Json → String → List TurnMessage → List TurnMessage
  take_user_input event payload session turns =
      let request = text_field payload "clientRequestId" in
      let prompt = or_else (text_field payload "prompt") "" in
      change_or_add (find_index (is_duplicate request prompt session) turns)
        (merge_input request prompt (as_array (field payload "attachments")))
        (input_turn event payload session request prompt) turns

  unfoldable pub take_approval_requested :
      Json → Json → String → List TurnMessage → List TurnMessage
  unfolding with_turn
  take_approval_requested event payload session turns =
      let id =
        or_else
          (or_option (nonempty (text_field event "requestId"))
            (read_text parse payload "requestId"))
          millis in
      with_turn millis iso session (read_text parse payload "turnId") ""
        (await_approval (request_of parse id session event payload (stamp iso event))) turns

  unfoldable pub take_approval_resolved : Json → Json → List TurnMessage → List TurnMessage
  take_approval_resolved event payload = settle_in_all (nonempty (resolved_id parse payload)) (
      decide_request (normalized_approval_decision (resolved_decision parse payload))
        (stamp iso event))

  unfoldable pub take_approval_expired : Json → Json → List TurnMessage → List TurnMessage
  take_approval_expired event payload =
      settle_in_all
        (or_option (nonempty (text_field event "requestId")) (read_text parse payload "requestId"))
        (expire_request (stamp iso event))

  abbrev pub json_payload : Json → Json
  json_payload payload =
      or_object (or_json (field payload "jsonPayload") (parsed parse (field payload "chunk")))

  -- The handler that changes the row of the event, for the types that have one.
  abbrev pub row_change : Option String → Json → Option (TurnMessage → TurnMessage)
  row_change type payload =
      if is_text type "subagent-started"
      then some (take_subagent_started payload)
      else if is_text type "subagent-tool"
      then some (take_subagent_tool payload)
      else if is_text type "subagent-finished"
      then some (take_subagent_finished payload)
      else if is_text type "session-output"
      then some (session_output show millis payload (json_payload payload))
      else none

  unfoldable pub apply_to_row :
      String → Json → Option (TurnMessage → TurnMessage) → List TurnMessage → List TurnMessage
  unfolding with_turn
  apply_to_row session payload none turns = turns
  apply_to_row session payload (some f) turns =
      with_turn millis iso session (text_field payload "turnId") "" f turns

  unfoldable pub apply_payload : Option Json → Json → Json → List TurnMessage → List TurnMessage
  unfolding take_session_started take_user_input take_approval_requested take_approval_resolved
      take_approval_expired apply_to_row session_output
  apply_payload session event payload turns =
      let type = text_field event "type" in
      let id = session_of_event event payload session in
      if is_text type "session-started"
      then take_session_started event payload id turns
      else if is_text type "session-user-input"
      then take_user_input event payload id turns
      else if is_text type "session-status"
      then update_last
          (set_turn_status (stamp iso event)
            (or_text (text_field payload "status") (turn_status payload)))
          turns
      else if is_text type "session-finished"
      then update_last (finish_turn (stamp iso event) payload) turns
      else if is_text type "approval-requested"
      then take_approval_requested event payload id turns
      else if is_text type "approval-resolved"
      then take_approval_resolved event payload turns
      else if is_text type "approval-expired"
      then take_approval_expired event payload turns
      else apply_to_row id payload (row_change type payload) turns

  unfoldable pub apply_live_event_to_turns :
      Option Json → List TurnMessage → Json → List TurnMessage
  unfolding apply_payload
  apply_live_event_to_turns session turns event =
      apply_payload session event (or_object (field event "payload")) turns

-- The texts of the clock and of the random generator when an event is applied.
pub record Moment : Type 0 where
  pub millis : String
  pub iso : String
  pub random : String

abbrev is_user_input : Json → Bool
is_user_input event =
    let payload = field event "payload" in
    is_text (text_field event "type") "session-user-input"
    || (is_text (text_field event "type") "session-output"
        && is_text (text_in payload "eventType") "item/completed"
        && is_text (text_in (in_field (in_field payload "jsonPayload") "item") "type")
            "userMessage")

abbrev has_user_input : List (Moment × Json) → Bool
has_user_input [] = false
has_user_input ((moment, event) ∷ events) = is_user_input event || has_user_input events

abbrev initial_status : Option String → AssistantStatus
initial_status status =
    if is_text status "running"
    then streaming
    else if is_text status "cancelled"
    then cancelled
    else completed

-- The row of the prompt that a session was created with.
unfoldable initial_turns : String → Option Json → List (Moment × Json) → List TurnMessage
initial_turns iso session events =
    let prompt = or_else (text_in session "prompt") "" in
    let turn = create_empty_turn iso "initial-turn" (or_else (text_in session "id") "") prompt in
    if truthy prompt && not (has_user_input events)
    then record turn {
      user_time = or_json (in_field session "createdAt") (in_field session "startedAt");
      assistant_status = initial_status (text_in session "status");
    }
      ∷ []
    else []

module _ (show : ℕ → String) (parse : String → Option Json) where
  unfoldable pub apply_each :
      Option Json → List TurnMessage → List (Moment × Json) → List TurnMessage
  unfolding apply_live_event_to_turns
  apply_each session turns [] = turns
  apply_each session turns ((moment, event) ∷ events) =
      apply_each session
        (apply_live_event_to_turns show parse moment.millis moment.iso moment.random session turns
          event)
        events

  unfoldable aggregate_events_to_turns :
      String → Option Json → List (Moment × Json) → List TurnMessage
  unfolding apply_each initial_turns
  aggregate_events_to_turns iso session events =
      apply_each session (initial_turns iso session events) events
