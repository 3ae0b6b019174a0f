-- ===== src/Aggregator/Outputs.antt =====
-- aggregator.ts, `session-output`: texts, prompts, reasoning, diffs and the use of tokens.
use code_harbor.Aggregator.Activities.{or_object}
use code_harbor.Aggregator.Commands.{complete_command, complete_files, take_output_delta}
use code_harbor.Aggregator.Rows.{or_option}
use code_harbor.Aggregator.Types.{TokenUsage, TurnMessage, streaming}
use code_harbor.Common.{
  List, Option, String, [], if◌then◌else◌, includes, nat_eq, none, not, or_else, some, string_eq,
  true, truthy, ℕ, ◌&&◌, ◌++◌, ◌∷◌,
}
use code_harbor.Common.Json.{Json, as_array, as_text, field, text_field}
use code_harbor.Common.Text.{concat, trim}
use code_harbor.WebClient.Fields.{in_field, is_text, is_truthy}

-- `typeof c === "string" ? c : c?.text || ""`
abbrev piece_text : Json → String
piece_text part = or_else (or_option (as_text (some part)) (text_field part "text")) ""

abbrev piece_texts : List Json → List String
piece_texts [] = []
piece_texts (part ∷ parts) =
    let rest = piece_texts parts in
    if truthy (piece_text part) then piece_text part ∷ rest else rest

-- `join("\n")`
abbrev pub join_lines : List String → String
join_lines [] = ""
join_lines (t ∷ []) = t
join_lines (t ∷ u ∷ us) = concat t (concat "\n" (join_lines (u ∷ us)))

abbrev user_text : Json → String
user_text done = elim (as_array (field done "content")) [
  | some parts ↦ join_lines (piece_texts parts)
  | none ↦ or_else (text_field done "text") ""
]

abbrev pub take_user_text : Json → TurnMessage → TurnMessage
take_user_text done turn = record turn {
  user_prompt =
      if truthy (user_text done) && not (truthy turn.user_prompt)
      then user_text done
      else turn.user_prompt;
}

abbrev pub take_reasoning : Json → TurnMessage → TurnMessage
take_reasoning done turn = record turn {
  reasoning_completed = true;
  reasoning_summary = elim (as_array (field done "summary")) [
    | some parts ↦ piece_texts parts
    | none ↦ turn.reasoning_summary
  ];
  reasoning =
      let content = join_lines (piece_texts (or_else (as_array (field done "content")) [])) in
      if truthy content then content else turn.reasoning;
}

-- `if (done.text && !turn.text) turn.text = done.text`
abbrev pub take_text : Json → TurnMessage → TurnMessage
take_text done turn = record turn {
  text = if truthy turn.text then turn.text else or_else (text_field done "text") "";
}

abbrev pub add_chunk : TurnMessage → Option String → TurnMessage
add_chunk turn none = turn
add_chunk turn (some chunk) = record turn {
  text = concat turn.text chunk;
  assistant_status = streaming;
}

abbrev take_text_delta : Json → TurnMessage → TurnMessage
take_text_delta payload turn = add_chunk turn (text_field payload "chunk")

abbrev pub add_diff : TurnMessage → Option String → TurnMessage
add_diff turn none = turn
add_diff turn (some diff) =
    if truthy (trim diff) && not (includes turn.diffs diff)
    then record turn { diffs = turn.diffs ++ diff ∷ [] }
    else turn

abbrev take_diff : Json → TurnMessage → TurnMessage
take_diff inside turn = add_diff turn (text_field inside "diff")

abbrev usage_of : Option Json → TokenUsage
usage_of total = record {
  total_tokens = in_field total "totalTokens";
  input_tokens = in_field total "inputTokens";
  output_tokens = in_field total "outputTokens";
  reasoning_output_tokens = in_field total "reasoningOutputTokens";
}

abbrev pub take_token_usage : Json → TurnMessage → TurnMessage
take_token_usage inside turn =
    let usage = field inside "tokenUsage" in
    if is_truthy usage
    then record turn { token_usage = some (usage_of (in_field usage "total")) }
    else turn

module _ (show : ℕ → String) where
  unfoldable pub item_completed : String → Json → TurnMessage → TurnMessage
  item_completed millis done turn =
      let type = text_field done "type" in
      if is_text type "userMessage"
      then take_user_text done turn
      else if is_text type "reasoning"
      then take_reasoning done turn
      else if is_text type "commandExecution"
      then complete_command millis done turn
      else if is_text type "fileChange"
      then complete_files show millis done turn
      else if is_text type "agentMessage"
      then take_text done turn
      else turn

  unfoldable pub session_output : String → Json → Json → TurnMessage → TurnMessage
  unfolding item_completed
  session_output millis payload inside turn =
      let type = text_field payload "eventType" in
      if is_text type "item/agentMessage/delta"
      then take_text_delta payload turn
      else if is_text type "item/commandExecution/outputDelta"
      then take_output_delta millis payload inside turn
      else if is_text type "item/completed"
      then item_completed millis (or_object (field inside "item")) turn
      else if is_text type "turn/diff/updated"
      then take_diff inside turn
      else if is_text type "thread/tokenUsage/updated"
      then take_token_usage inside turn
      else turn
