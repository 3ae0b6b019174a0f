-- ===== src/Aggregator/Rows.antt =====
-- aggregator.ts, how an event finds its row: getEventSessionId, createEmptyTurn and getOrCreateTurn.
use code_harbor.Aggregator.Types.{TurnMessage, idle, status_eq, streaming, waiting_approval}
use code_harbor.Common.{
  Bool, List, Option, String, [], false, get_last?, if◌then◌else◌, length, nat_eq, none, not,
  or_else, some, string_eq, suc, true, truthy, zero, ℕ, ◌&&◌, ◌++◌, ◌==◌, ◌||◌, ◌∷◌,
}
use code_harbor.Common.Json.{Json, array, boolean, fields, null, number, other_number, text}
use code_harbor.Common.Text.{concat}
use code_harbor.WebClient.Fields.{in_field, text_in}

abbrev pub as_record : Option Json → Option Json
as_record (some (fields ms)) = some (fields ms)
as_record none = none
as_record (some null) = none
as_record (some (boolean b)) = none
as_record (some (number n)) = none
as_record (some (other_number t)) = none
as_record (some (text t)) = none
as_record (some (array js)) = none

abbrev pub or_option {ℓ} : {A : Type ℓ} → Option A → Option A → Option A
or_option none b = b
or_option (some a) b = some a

abbrev pub nonempty : Option String → Option String
nonempty none = none
nonempty (some t) = if truthy t then some t else none

-- The session of an event, in the event itself or in an envelope of three levels at most.
unfoldable session_id_within : ℕ → Option Json → Option String
session_id_within zero value = none
session_id_within (suc levels) value =
    let event = as_record value in
    let in_payload = session_id_within levels (in_field event "payload") in
    let in_params = session_id_within levels (in_field event "params") in
    or_option (nonempty (text_in event "sessionId"))
      (or_option (nonempty (text_in event "threadId")) (or_option in_payload in_params))

abbrev get_event_session_id : Json → Option String
get_event_session_id event = session_id_within 4 (some event)

abbrev pub create_empty_turn : String → String → String → String → TurnMessage
create_empty_turn iso turn_id session_id prompt = record {
  turn_id = turn_id;
  session_id = session_id;
  client_request_id = none;
  user_prompt = prompt;
  user_attachments = [];
  user_time = none;
  is_interjection = false;
  assistant_status = idle;
  reasoning = "";
  reasoning_summary = [];
  reasoning_completed = false;
  text = "";
  tools = [];
  diffs = [];
  token_usage = none;
  approvals = [];
  started_at = some (text iso);
  completed_at = none;
}

abbrev pub next_index : Option ℕ → Option ℕ
next_index none = none
next_index (some i) = some (suc i)

module _ {ℓ} {A : Type ℓ} where
  -- `findIndex`
  abbrev pub find_index : (A → Bool) → List A → Option ℕ
  find_index p [] = none
  find_index p (x ∷ xs) = let rest = find_index p xs in if p x then some 0 else next_index rest

  -- The loop from the last index down.
  abbrev pub find_last_index : (A → Bool) → List A → Option ℕ
  find_last_index p [] = none
  find_last_index p (x ∷ xs) = elim (find_last_index p xs) [
    | some i ↦ some (suc i)
    | none ↦ if p x then some 0 else none
  ]

  -- A change of the object that stands at an index.
  abbrev pub update_at : ℕ → (A → A) → List A → List A
  update_at i f [] = []
  update_at zero f (x ∷ xs) = f x ∷ xs
  update_at (suc i) f (x ∷ xs) = x ∷ update_at i f xs

  abbrev pub update_last : (A → A) → List A → List A
  update_last f [] = []
  update_last f (x ∷ []) = f x ∷ []
  update_last f (x ∷ y ∷ xs) = x ∷ update_last f (y ∷ xs)

  -- The object that is found is changed; where there is none, a new one is put behind the others.
  abbrev pub change_or_add : Option ℕ → (A → A) → A → List A → List A
  change_or_add none f new xs = xs ++ new ∷ []
  change_or_add (some i) f new xs = update_at i f xs

  abbrev pub is_nil : List A → Bool
  is_nil [] = true
  is_nil (x ∷ xs) = false

abbrev pub adopt : String → String → TurnMessage → TurnMessage
adopt turn_id fallback turn = record turn {
  turn_id = turn_id;
  user_prompt =
      if truthy fallback && not (truthy turn.user_prompt) then fallback else turn.user_prompt;
}

abbrev pub is_placeholder : TurnMessage → Bool
is_placeholder turn =
    (turn.turn_id == "turn-0" || turn.turn_id == "initial-turn")
    && not (truthy turn.text)
    && is_nil turn.tools

abbrev pub is_in_flight : String → String → TurnMessage → Bool
is_in_flight session fallback turn =
    turn.session_id == session
    && (status_eq turn.assistant_status streaming
        || status_eq turn.assistant_status waiting_approval)
    && not (truthy turn.text)
    && is_nil turn.tools
    && (truthy turn.user_prompt || truthy fallback)

abbrev pub last_turn_id : String → List TurnMessage → String
last_turn_id millis turns = elim (get_last? turns) [
  | none ↦ concat "turn-" millis
  | some turn ↦ turn.turn_id
]

-- The row of a pending prompt, or a new one.
abbrev pub take_pending :
    String → String → String → String → List TurnMessage → Option ℕ → List TurnMessage × ℕ
take_pending iso session turn_id fallback turns (some i) =
    (update_at i (adopt turn_id fallback) turns, i)
take_pending iso session turn_id fallback turns none =
    (turns ++ create_empty_turn iso turn_id session fallback ∷ [], length turns)

abbrev pub take_existing :
    String → String → String → String → List TurnMessage → Option ℕ → List TurnMessage × ℕ
take_existing iso session turn_id fallback turns (some i) = (turns, i)
take_existing iso session turn_id fallback turns none =
    take_pending iso session turn_id fallback turns
      (find_last_index (is_in_flight session fallback) turns)

abbrev pub find_turn : String → String → String → String → List TurnMessage → List TurnMessage × ℕ
find_turn iso session turn_id fallback turns =
    take_existing iso session turn_id fallback turns
      (find_index (λ turn. turn.turn_id == turn_id) turns)

abbrev pub take_turn : String → String → String → String → List TurnMessage → List TurnMessage × ℕ
take_turn iso session turn_id fallback [] = find_turn iso session turn_id fallback []
take_turn iso session turn_id fallback (turn ∷ []) =
    if is_placeholder turn
    then (adopt turn_id fallback turn ∷ [], 0)
    else find_turn iso session turn_id fallback (turn ∷ [])
take_turn iso session turn_id fallback (turn ∷ next ∷ turns) =
    find_turn iso session turn_id fallback (turn ∷ next ∷ turns)

-- The rows with the one that is asked for, and its index.
unfoldable pub get_or_create_turn :
    String → String → String → Option String → String → List TurnMessage → List TurnMessage × ℕ
get_or_create_turn millis iso session target fallback turns =
    take_turn iso session (or_else (nonempty target) (last_turn_id millis turns)) fallback turns

-- A handler that changes the row of its event.
unfoldable pub with_turn :
    String
    → String
    → String
    → Option String
    → String
    → (TurnMessage → TurnMessage)
    → List TurnMessage
    → List TurnMessage
unfolding get_or_create_turn
with_turn millis iso session target fallback f turns =
    let (found, i) = get_or_create_turn millis iso session target fallback turns in
    update_at i f found
