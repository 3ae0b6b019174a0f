-- ===== src/Aggregator/Tests.antt =====
-- The rows of the web client at concrete inputs.
use code_harbor.Aggregator.Events.{
  Moment, apply_each, apply_live_event_to_turns, apply_payload, apply_to_row, take_user_input,
}
use code_harbor.Aggregator.Growth.Echo.{prompt_shown_once}
use code_harbor.Aggregator.Growth.Histories.{apply_each-Extends}
use code_harbor.Aggregator.Growth.Lists.{Extends}
use code_harbor.Aggregator.Outputs.{session_output}
use code_harbor.Aggregator.Rows.{create_empty_turn, get_or_create_turn, with_turn}
use code_harbor.Aggregator.Types.{TurnMessage, streaming}
use code_harbor.Common.{List, Option, String, [], length, none, refl, ℕ, ◌∷◌, ◌≡◌}
use code_harbor.Common.Json.{Json, Members, field, fields, lookup, member, no_members, text}

abbrev no_text : ℕ → String
no_text n = ""

abbrev no_parse : String → Option Json
no_parse t = none

abbrev noon : Moment
noon = record { millis = "1"; iso = "t"; random = "x" }

abbrev payload_with : Members → Json
payload_with members = fields members

abbrev event_of : String → Members → Json
event_of type members = fields (
    member "type" (text type)
      (member "sessionId" (text "s") (member "payload" (fields members) no_members)))

abbrev prompt_event : Json
prompt_event =
    event_of "session-user-input"
      (member "clientRequestId" (text "r") (member "prompt" (text "hi") no_members))

abbrev delta : String → Json
delta chunk = event_of "session-output" (
    member "turnId" (text "u") (
      member "eventType" (text "item/agentMessage/delta") (member "chunk" (text chunk) no_members)))

abbrev two_deltas : List (Moment × Json)
two_deltas = (noon, delta "a") ∷ (noon, delta "b") ∷ []

abbrev texts : List TurnMessage → List (String × String)
texts [] = []
texts (t ∷ ts) = (t.turn_id, t.text) ∷ texts ts

-- The first delta gives the row of the prompt its id, the second finds it.
shown_rows :
    texts (apply_each no_text no_parse none [] ((noon, prompt_event) ∷ two_deltas))
    ≡ ("u", "ab") ∷ []
unfolding apply_each apply_live_event_to_turns apply_payload take_user_input apply_to_row with_turn
    get_or_create_turn session_output field lookup
shown_rows = refl

prompt_shown_once_example :
    length (
      apply_live_event_to_turns no_text no_parse "1" "t" "x" none
        (apply_each no_text no_parse none [] ((noon, prompt_event) ∷ two_deltas))
        prompt_event)
    ≡ length (apply_each no_text no_parse none [] ((noon, prompt_event) ∷ two_deltas))
unfolding field lookup
prompt_shown_once_example =
    prompt_shown_once no_text no_parse noon noon none [] prompt_event prompt_event "r" two_deltas
      refl (refl, refl) (refl, refl)

abbrev old_row : TurnMessage
old_row = record (create_empty_turn "t" "u" "s" "hi") { text = "x"; assistant_status = streaming }

apply_each-Extends_example :
    Extends (old_row ∷ []) (apply_each no_text no_parse none (old_row ∷ []) two_deltas)
apply_each-Extends_example = apply_each-Extends no_text no_parse none (old_row ∷ []) two_deltas
