-- ===== src/Aggregator/Activities.antt =====
-- aggregator.ts, the events of a subagent.
use code_harbor.Aggregator.Rows.{change_or_add, find_index, nonempty}
use code_harbor.Aggregator.Types.{
  ToolItem, TurnMessage, command_execution, file_change, sub_agent_activity,
}
use code_harbor.Common.{
  Bool, List, Option, String, false, if◌then◌else◌, map, nat_eq, none, or_else, some, string_eq,
  truthy, ◌&&◌, ◌||◌,
}
use code_harbor.Common.Json.{Json, field, fields, no_members, text_field}
use code_harbor.WebClient.Fields.{is_text, or_json, or_text, text_in}
use code_harbor.WebClient.SessionList.{same_id}

abbrev pub set_tools : (List ToolItem → List ToolItem) → TurnMessage → TurnMessage
set_tools f turn = record turn { tools = f turn.tools }

abbrev is_agent : Option String → ToolItem → Bool
is_agent thread (sub_agent_activity a) = same_id a.agent_thread_id thread
is_agent thread (command_execution c) = false
is_agent thread (file_change c) = false

abbrev start_agent : Option String → ToolItem → ToolItem
start_agent path (sub_agent_activity a) =
    sub_agent_activity
      (record a { agent_path = or_text path a.agent_path; kind = "started"; status = "running" })
start_agent path (command_execution c) = command_execution c
start_agent path (file_change c) = file_change c

abbrev pub take_subagent_started : Json → TurnMessage → TurnMessage
take_subagent_started payload =
    let activity = field payload "activity" in
    let thread = or_text (text_in activity "agentThreadId") (text_field payload "threadId") in
    let path = text_in activity "agentPath" in
    set_tools (λ tools.
      change_or_add (find_index (is_agent thread) tools) (start_agent path)
        (sub_agent_activity (record {
          agent_thread_id = thread;
          agent_path = path;
          kind = "started";
          status = "running";
          tool_call = none;
        }))
        tools)

abbrev names_call : Option String → Option Json → Bool
names_call none call = false
names_call (some id) call =
    truthy id && (is_text (text_in call "id") id || is_text (text_in call "callId") id)

abbrev is_call : Option String → Option String → ToolItem → Bool
is_call thread id (sub_agent_activity a) =
    same_id a.agent_thread_id thread && names_call id a.tool_call
is_call thread id (command_execution c) = false
is_call thread id (file_change c) = false

abbrev take_call : Json → ToolItem → ToolItem
take_call call (sub_agent_activity a) = sub_agent_activity (record a {
  tool_call = some call;
  status = or_else (nonempty (text_field call "status")) a.status;
})
take_call call (command_execution c) = command_execution c
take_call call (file_change c) = file_change c

-- `value || {}`
abbrev pub or_object : Option Json → Json
or_object value = or_else (or_json value none) (fields no_members)

abbrev pub take_subagent_tool : Json → TurnMessage → TurnMessage
take_subagent_tool payload =
    let call = or_object (field payload "toolCall") in
    let thread = or_text (text_field call "senderThreadId") (text_field payload "threadId") in
    let id = or_text (text_field call "id") (text_field call "callId") in
    set_tools (λ tools.
      change_or_add (find_index (is_call thread id) tools) (take_call call)
        (sub_agent_activity (record {
          agent_thread_id = thread;
          agent_path = none;
          kind = "toolCall";
          status = "running";
          tool_call = some call;
        }))
        tools)

abbrev finish_agent : Option String → String → ToolItem → ToolItem
finish_agent thread status (sub_agent_activity a) =
    if same_id a.agent_thread_id thread
    then sub_agent_activity (record a { kind = "completed"; status = status })
    else sub_agent_activity a
finish_agent thread status (command_execution c) = command_execution c
finish_agent thread status (file_change c) = file_change c

abbrev pub take_subagent_finished : Json → TurnMessage → TurnMessage
take_subagent_finished payload =
    let thread =
      or_text (text_field payload "childThreadId")
        (text_in (field payload "activity") "agentThreadId") in
    let status = or_else (nonempty (text_field payload "status")) "completed" in
    set_tools (map (finish_agent thread status))
