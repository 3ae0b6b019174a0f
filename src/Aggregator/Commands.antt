-- ===== src/Aggregator/Commands.antt =====
-- aggregator.ts, `session-output`: the commands and the changed files of a row.
use code_harbor.Aggregator.Activities.{set_tools}
use code_harbor.Aggregator.Rows.{change_or_add, find_index, find_last_index, nonempty, or_option}
use code_harbor.Aggregator.Types.{
  FileChange, ToolItem, TurnMessage, command_execution, file_change, sub_agent_activity,
}
use code_harbor.Common.{
  Bool, List, Option, String, [], false, if◌then◌else◌, is_some, nat_eq, none, or_else, some,
  string_eq, suc, ℕ, ◌==◌, ◌∷◌,
}
use code_harbor.Common.Json.{Json, as_array, field, text_field}
use code_harbor.Common.Text.{concat}
use code_harbor.WebClient.Fields.{as_number, or_text, text_in}

abbrev is_command : Option String → ToolItem → Bool
is_command none tool = false
is_command (some id) (command_execution c) = c.id == id
is_command (some id) (sub_agent_activity a) = false
is_command (some id) (file_change c) = false

abbrev is_running_command : ToolItem → Bool
is_running_command (command_execution c) = c.status == "running"
is_running_command (sub_agent_activity a) = false
is_running_command (file_change c) = false

abbrev append_output : String → ToolItem → ToolItem
append_output chunk (command_execution c) =
    command_execution
      (record c { aggregated_output = concat c.aggregated_output chunk; status = "running" })
append_output chunk (sub_agent_activity a) = sub_agent_activity a
append_output chunk (file_change c) = file_change c

abbrev find_command : Option String → List ToolItem → Option ℕ
find_command id tools =
    or_option (find_index (is_command id) tools) (find_last_index is_running_command tools)

-- `item/commandExecution/outputDelta`
abbrev pub take_output_delta : String → Json → Json → TurnMessage → TurnMessage
take_output_delta millis payload inside =
    let chunk = or_else (text_field payload "chunk") "" in
    let named = or_option (text_field payload "itemId") (text_field inside "itemId") in
    let own_id =
      or_else (or_option (text_field payload "itemId") (text_in (field inside "item") "id"))
        (concat "cmd-" millis) in
    set_tools (λ tools.
      change_or_add (find_command (nonempty named) tools) (append_output chunk)
        (command_execution (record {
          id = own_id;
          command = "正在执行命令...";
          cwd = none;
          aggregated_output = chunk;
          exit_code = none;
          status = "running";
          duration_ms = none;
        }))
        tools)

abbrev is_zero : Option Json → Bool
is_zero value = elim (as_number value) [ none ↦ false | some n ↦ n == 0 ]

abbrev final_status : Json → String
final_status done =
    or_else (nonempty (text_field done "status"))
      (if is_zero (field done "exitCode") then "completed" else "failed")

abbrev finish_command : Json → ToolItem → ToolItem
finish_command done (command_execution c) = command_execution (record c {
  command = or_else (nonempty (text_field done "command")) c.command;
  cwd = or_text (text_field done "cwd") c.cwd;
  aggregated_output = or_else (text_field done "aggregatedOutput") c.aggregated_output;
  exit_code = field done "exitCode";
  status = final_status done;
  duration_ms = field done "durationMs";
})
finish_command done (sub_agent_activity a) = sub_agent_activity a
finish_command done (file_change c) = file_change c

-- A finished command is found by its id; one without an id is the last that runs.
abbrev find_finished : Option String → List ToolItem → Option ℕ
find_finished id tools =
    or_option (find_index (is_command id) tools)
      (if is_some (nonempty id) then none else find_last_index is_running_command tools)

abbrev pub complete_command : String → Json → TurnMessage → TurnMessage
complete_command millis done = set_tools (λ tools.
    change_or_add (find_finished (text_field done "id") tools) (finish_command done)
      (command_execution (record {
        id = or_else (nonempty (text_field done "id")) (concat "cmd-" millis);
        command = or_else (text_field done "command") "";
        cwd = text_field done "cwd";
        aggregated_output = or_else (text_field done "aggregatedOutput") "";
        exit_code = field done "exitCode";
        status = final_status done;
        duration_ms = field done "durationMs";
      }))
      tools)

abbrev pub is_file : String → ToolItem → Bool
is_file id (file_change c) = c.id == id
is_file id (command_execution c) = false
is_file id (sub_agent_activity a) = false

abbrev kind_of : Json → String
kind_of change =
    let kind = or_option (text_field change "kind") (text_in (field change "kind") "type") in
    or_else (nonempty kind) "modify"

module _ (show : ℕ → String) where
  abbrev pub change_of : String → Json → ℕ → Json → FileChange
  change_of millis done index change = record {
    id =
        concat (or_else (nonempty (text_field done "id")) (concat "file-" millis))
          (concat ":" (show index));
    path = or_else (text_field change "path") "";
    kind = kind_of change;
    diff = or_else (text_field change "diff") "";
    status = or_else (nonempty (text_field done "status")) "completed";
  }

  abbrev pub put_change : FileChange → List ToolItem → List ToolItem
  put_change next tools =
      change_or_add (find_index (is_file next.id) tools) (λ tool. file_change next)
        (file_change next) tools

  abbrev pub put_changes : String → Json → ℕ → List Json → List ToolItem → List ToolItem
  put_changes millis done index [] tools = tools
  put_changes millis done index (change ∷ changes) tools =
      put_changes millis done (suc index) changes
        (put_change (change_of millis done index change) tools)

  abbrev pub complete_files : String → Json → TurnMessage → TurnMessage
  complete_files millis done =
      set_tools (put_changes millis done 0 (or_else (as_array (field done "changes")) []))
