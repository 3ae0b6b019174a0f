-- ===== src/Threads/Rollout.antt =====
-- threads.ts, what a rollout file says of its thread: the metadata and the timeline. A line is what
-- `JSON.parse` makes of it, `none` where it throws; `Date.parse` is a parameter. Members that the code
-- takes for texts and that are none are read as missing.
pub mod Metadata
use code_harbor.CodexBridge.Ids.{id_text, number_id}
use code_harbor.CodexBridge.Messages.{ErrorText, first_text, text_or_json}
use code_harbor.Common.{
  Bool, List, Option, String, [], false, if◌then◌else◌, keep, ltb, map, nat_eq, none, not, or_else,
  some, string_eq, suc, truthy, ℕ, ◌&&◌, ◌==◌, ◌∷◌,
}
use code_harbor.Common.Json.{Json, as_array, as_text, field, null, text_field}
use code_harbor.Common.Text.{concat, take_text}
use code_harbor.Threads.Index.{RolloutMetadata, no_metadata}

abbrev pub payload_of : Json → Json
payload_of event = or_else (field event "payload") null

abbrev pub is_type : Json → String → Bool
is_type j name = or_else (text_field j "type") "" == name

module _ (parse_date : String → Option ℕ) where
  -- `Date.parse(entry.timestamp ?? "")`
  abbrev pub timestamp_of : Json → Option ℕ
  timestamp_of event = parse_date (or_else (text_field event "timestamp") "")

  -- The first time stays the time of creation; every later one is the time of the last update.
  abbrev pub note_time : RolloutMetadata → Option ℕ → RolloutMetadata
  note_time meta none = meta
  note_time meta (some ms) = record meta {
    meta_created_at_ms = some (or_else meta.meta_created_at_ms ms);
    meta_updated_at_ms = some ms;
  }

  abbrev pub note_session : RolloutMetadata → Json → RolloutMetadata
  note_session meta event =
      if is_type event "session_meta"
      then record meta {
        meta_cwd = first_text (text_field (payload_of event) "cwd") meta.meta_cwd;
        meta_model = first_text (text_field (payload_of event) "model") meta.meta_model;
        meta_model_provider =
            first_text (text_field (payload_of event) "model_provider") meta.meta_model_provider;
        meta_source = first_text (text_field (payload_of event) "source") meta.meta_source;
      }
      else meta

  abbrev pub is_given : Option String → Bool
  is_given none = false
  is_given (some s) = truthy s

  abbrev pub is_user_message : Json → Bool
  is_user_message event = is_type event "event_msg" && is_type (payload_of event) "user_message"

  abbrev pub note_preview : RolloutMetadata → Json → RolloutMetadata
  note_preview meta event =
      if not (is_given meta.meta_preview) && is_user_message event
      then record meta {
        meta_preview = some (take_text 240 (or_else (text_field (payload_of event) "message") ""));
      }
      else meta

  abbrev pub note_entry : RolloutMetadata → Json → RolloutMetadata
  note_entry meta event =
      note_preview (note_session (note_time meta (timestamp_of event)) event) event

  -- `index > 80 && metadata.preview && metadata.cwd`
  abbrev pub is_enough : ℕ → RolloutMetadata → Bool
  is_enough index meta = ltb 80 index && is_given meta.meta_preview && is_given meta.meta_cwd

  unfoldable pub metadata_from : ℕ → RolloutMetadata → List (Option Json) → RolloutMetadata
  metadata_from index meta [] = meta
  metadata_from index meta (none ∷ lines) = metadata_from (suc index) meta lines
  metadata_from index meta (some event ∷ lines) =
      let more = metadata_from (suc index) (note_entry meta event) lines in
      if is_enough index (note_entry meta event) then note_entry meta event else more

  unfoldable pub read_rollout_metadata : List (Option Json) → RolloutMetadata
  read_rollout_metadata lines = metadata_from 0 no_metadata lines

-- An item of the timeline. `output` is a text, or the JSON text of a value.
pub record TimelineItem : Type 0 where
  pub item_id : String
  pub kind : String
  pub item_text : Option String
  pub command : Option String
  pub output : Option ErrorText
  pub content : Option String

abbrev pub plain_item : String → String → Option String → Option String → TimelineItem
plain_item id kind t content = record {
  item_id = id;
  kind = kind;
  item_text = t;
  command = none;
  output = none;
  content = content;
}

abbrev pub command_item : String → String → Option ErrorText → TimelineItem
command_item id command output = record {
  item_id = id;
  kind = "commandExecution";
  item_text = none;
  command = some command;
  output = output;
  content = none;
}

-- `part.text ?? part.output_text ?? ""`
abbrev pub part_text : Json → String
part_text part = or_else (first_text (text_field part "text") (text_field part "output_text")) ""

abbrev pub join_lines : List String → String
join_lines [] = ""
join_lines (s ∷ []) = s
join_lines (s ∷ t ∷ ss) = concat s (concat "\n" (join_lines (t ∷ ss)))

abbrev pub message_text : Option (List Json) → String
message_text none = ""
message_text (some parts) = join_lines (keep truthy (map part_text parts))

abbrev pub message_item : String → Json → TimelineItem
message_item id payload =
    let t = message_text (as_array (field payload "content")) in
    if or_else (text_field payload "role") "" == "user"
    then plain_item id "userMessage" (some t) (some t)
    else plain_item id "agentMessage" (some t) none

abbrev pub output_of : Option Json → Option ErrorText
output_of none = none
output_of (some j) = some (text_or_json (as_text (some j)) j)

abbrev pub text_of : Json → String
text_of j = or_else (as_text (some j)) ""

abbrev pub reasoning_item : String → Option (List Json) → Option TimelineItem
reasoning_item id none = none
reasoning_item id (some summary) =
    let t = join_lines (map text_of summary) in
    if truthy t then some (plain_item id "reasoning" (some t) none) else none

abbrev pub response_item : String → Json → Option TimelineItem
response_item id payload =
    if is_type payload "message"
    then some (message_item id payload)
    else if is_type payload "function_call"
    then some (
        command_item id
          (concat (or_else (text_field payload "name") "undefined")
            (concat " " (or_else (text_field payload "arguments") "")))
          none)
    else if is_type payload "function_call_output"
    then some (
        command_item id (concat "output for " (or_else (text_field payload "call_id") "call"))
          (output_of (field payload "output")))
    else if is_type payload "reasoning"
    then reasoning_item id (as_array (field payload "summary"))
    else none

-- `${entry.timestamp ?? index}:${index}`
abbrev pub item_id_of : ℕ → Json → String
item_id_of index event =
    let n = id_text (number_id index) in
    concat (or_else (text_field event "timestamp") n) (concat ":" n)

unfoldable pub item_of : ℕ → Json → Option TimelineItem
item_of index event =
    let id = item_id_of index event in
    let payload = payload_of event in
    if is_type event "event_msg" && is_type payload "user_message"
    then some (plain_item id "userMessage" none (some (or_else (text_field payload "message") "")))
    else if is_type event "response_item"
    then response_item id payload
    else none

unfoldable pub read_rollout_items : ℕ → List (Option Json) → List TimelineItem
read_rollout_items index [] = []
read_rollout_items index (none ∷ lines) = read_rollout_items (suc index) lines
read_rollout_items index (some event ∷ lines) =
    let rest = read_rollout_items (suc index) lines in
    elim (item_of index event) [ none ↦ rest | some made ↦ made ∷ rest ]
