-- ===== src/WebClient/Messages.antt =====
-- useCodeHarbor.ts, the handler `onmessage` of the socket. `parse_body` is the platform's decoding of
-- a base64 body and its `JSON.parse`, and `show` is the text of a number.
use code_harbor.Common.{
  Bool, List, Option, String, [], false, if◌then◌else◌, last_n, leb, length, ltb, nat_eq, none, not,
  or_else, some, string_eq, suc, truthy, ℕ, ◌&&◌, ◌++◌, ◌+◌, ◌-◌, ◌==◌, ◌||◌, ◌∷◌,
}
use code_harbor.Common.JsMap.{JsMap, JsSet, delete, get, has, set}
use code_harbor.Common.Json.{
  Json, Members, array, boolean, field, fields, lookup, member, no_members, null, number,
  other_number, text, text_field,
}
use code_harbor.Common.Text.{concat}
use code_harbor.WebClient.Fields.{
  as_number, event_session_id, in_field, is_null, is_text, is_truthy, numbered, or_text, payload_of,
  text_in, unwrap,
}
use code_harbor.WebClient.SessionList.{update_sessions}
use code_harbor.WebClient.State.{
  Outcome, PendingProxy, WebClient, cursor_of, is_safe, rejected, reset_cursor, resolved,
  resolved_raw, save_cursor, schedule_gap_recovery,
}

abbrev pub save_numbered : WebClient → Option (String × ℕ) → WebClient
save_numbered c none = c
save_numbered c (some (id, seq)) = save_cursor c id seq

abbrev add_turn_event : WebClient → Json → String → List Json
add_turn_event c message id =
    if not (truthy id) || id == c.selected_session_id
    then c.turn_events ++ message ∷ []
    else c.turn_events

abbrev pub is_seen : WebClient → Option String → Bool
is_seen c none = false
is_seen c (some key) = has c.seen_event_keys key

unfoldable pub note_key : JsSet String → Option String → JsSet String
note_key seen none = seen
note_key seen (some key) =
    let seen' = set seen key tt in if ltb 2_000 (length seen') then last_n 1_000 seen' else seen'

unfoldable pub record_event : WebClient → Json → Option String → WebClient
unfolding note_key update_sessions
record_event c message key = record c {
  seen_event_keys = note_key c.seen_event_keys key;
  live_revision = suc c.live_revision;
  raw_events = last_n 499 c.raw_events ++ message ∷ [];
  sessions = update_sessions message c.sessions;
  turn_events = add_turn_event c message (event_session_id message);
}

-- An event that was not seen before is shown, and the cursor follows it.
unfoldable pub show_event : WebClient → Json → Option String → WebClient
unfolding record_event
show_event c message key = save_numbered (record_event c message key) (numbered message)

abbrev pub request_key : Json → Option String
request_key message = elim (text_in (payload_of message) "clientRequestId") [
  | none ↦ none
  | some id ↦ some (concat "request:" id)
]

-- `resume-complete`: the cursors that the gateway returned, each where it is ahead.
abbrev pub save_returned : WebClient → String → Option ℕ → WebClient
save_returned c id none = c
save_returned c id (some value) =
    if is_safe value && ltb (cursor_of c.cursors id) value then save_cursor c id value else c

abbrev pub save_each : WebClient → Members → Members → WebClient
save_each c all no_members = c
save_each c all (member id j ms) = save_each (save_returned c id (as_number (lookup all id))) all ms

abbrev pub save_all : WebClient → Option Json → WebClient
save_all c (some (fields ms)) = save_each c ms ms
save_all c none = c
save_all c (some null) = c
save_all c (some (boolean b)) = c
save_all c (some (number n)) = c
save_all c (some (other_number t)) = c
save_all c (some (text t)) = c
save_all c (some (array js)) = c

abbrev pub advances : JsMap String ℕ → JsMap String ℕ → Bool
advances before [] = false
advances before ((id, value) ∷ m) = ltb (cursor_of before id) value || advances before m

unfoldable pub resume_again : WebClient → JsMap String ℕ → WebClient
resume_again c before =
    if advances before c.cursors
    then record c {
      resume_attempts = suc c.resume_attempts;
      sent_resumes = c.sent_resumes ++ c.cursors ∷ [];
    }
    else c

unfoldable pub resume_complete : WebClient → Option Json → WebClient
unfolding resume_again
resume_complete c payload =
    if is_truthy (in_field payload "truncated") && c.socket_open && ltb c.resume_attempts 10
    then resume_again (save_all c (in_field payload "cursors")) c.cursors
    else c

unfoldable pub history_gap : WebClient → String → Option ℕ → WebClient
history_gap c id none = c
history_gap c id (some available_from) =
    if truthy id && is_safe available_from && not (available_from == 0)
    then reset_cursor c id (available_from - 1)
    else c

module _ (show : ℕ → String) (parse_body : String → Option Json) where
  abbrev pub event_key : Json → Option String
  event_key message = elim (numbered message) [
    | none ↦ request_key message
    | some (id, seq) ↦ some (concat id (concat ":" (show seq)))
  ]

  -- The echo of a row that is shown already moves the cursor only.
  unfoldable pub take_next : WebClient → Json → WebClient
  unfolding show_event
  take_next c message =
      if is_seen c (request_key message) || is_seen c (event_key message)
      then save_numbered c (numbered message)
      else show_event c message (event_key message)

  -- An event that is not the next of its session is dropped, or it opens a gap.
  unfoldable pub take_numbered : WebClient → Json → Option (String × ℕ) → WebClient
  unfolding take_next schedule_gap_recovery
  take_numbered c message none = take_next c message
  take_numbered c message (some (id, seq)) =
      if leb seq (cursor_of c.cursors id)
      then c
      else if ltb (cursor_of c.cursors id + 1) seq
      then schedule_gap_recovery c id seq
      else take_next c message

  abbrev body_of : Json → String
  body_of message = or_else (text_field message "bodyBase64") ""

  abbrev decoded_error : Json → Option String
  decoded_error message =
      let decoded = if truthy (body_of message) then parse_body (body_of message) else none in
      elim (text_in decoded "message") [ some t ↦ some t | none ↦ text_in decoded "error" ]

  abbrev has_failed : Json → Bool
  has_failed message =
      leb 400 (or_else (as_number (field message "status")) 0) || is_truthy (field message "error")

  abbrev decoded_body : Json → Json
  decoded_body message =
      if truthy (body_of message)
      then or_else (parse_body (body_of message)) (text (body_of message))
      else null

  abbrev pub outcome : PendingProxy → Json → Outcome
  outcome pending message =
      if has_failed message
      then rejected (or_text (text_field message "error") (or_text (decoded_error message) none))
      else if pending.raw
      then resolved_raw (field message "status") (field message "headers") (body_of message)
      else resolved (decoded_body message)

  unfoldable pub settle_proxy : WebClient → String → Json → Option PendingProxy → WebClient
  settle_proxy c id message none = c
  settle_proxy c id message (some pending) = record c {
    pending_requests = delete c.pending_requests id;
    settled = c.settled ++ (id, outcome pending message) ∷ [];
  }

  unfoldable pub proxy_response : WebClient → Json → Option String → WebClient
  unfolding settle_proxy
  proxy_response c message none = c
  proxy_response c message (some id) = settle_proxy c id message (get c.pending_requests id)

  unfoldable pub dispatch : WebClient → Json → WebClient
  unfolding proxy_response resume_complete history_gap take_numbered
  dispatch c message =
      let type = text_field message "type" in
      if is_text type "gateway-proxy-response"
      then proxy_response c message (text_field message "requestId")
      else if is_text type "resume-complete"
      then resume_complete c (payload_of message)
      else if is_text type "history-gap"
      then history_gap c (or_else (text_in (payload_of message) "sessionId") "")
          (as_number (in_field (payload_of message) "availableFrom"))
      else if is_text type "pong" || is_text type "cloud-ready"
      then c
      else take_numbered c message (numbered message)

  -- A text that does not parse, or whose message is null, throws, and changes nothing.
  unfoldable pub on_message : WebClient → Option Json → WebClient
  unfolding dispatch
  on_message c none = c
  on_message c (some raw) = if is_null (unwrap raw) then c else dispatch c (unwrap raw)
