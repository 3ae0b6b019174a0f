-- ===== src/WebClient/Fields.antt =====
-- useCodeHarbor.ts, how onmessage reads the parsed messages, and the session and number of an event.
use code_harbor.Common.{
  Bool, Option, String, false, if◌then◌else◌, nat_eq, none, not, or_else, some, string_eq, true,
  truthy, ℕ, ◌&&◌, ◌==◌,
}
use code_harbor.Common.Json.{
  Json, array, boolean, field, fields, null, number, other_number, text, text_field,
}

abbrev pub is_truthy : Option Json → Bool
is_truthy none = false
is_truthy (some null) = false
is_truthy (some (boolean b)) = b
is_truthy (some (number n)) = not (n == 0)
is_truthy (some (other_number t)) = true
is_truthy (some (text t)) = truthy t
is_truthy (some (array js)) = true
is_truthy (some (fields ms)) = true

abbrev pub as_number : Option Json → Option ℕ
as_number (some (number n)) = some n
as_number none = none
as_number (some null) = none
as_number (some (boolean b)) = none
as_number (some (other_number t)) = none
as_number (some (text t)) = none
as_number (some (array js)) = none
as_number (some (fields ms)) = none

abbrev pub is_null : Json → Bool
is_null null = true
is_null (boolean b) = false
is_null (number n) = false
is_null (other_number t) = false
is_null (text t) = false
is_null (array js) = false
is_null (fields ms) = false

-- `value?.[k]`
abbrev pub in_field : Option Json → String → Option Json
in_field none k = none
in_field (some j) k = field j k

abbrev pub text_in : Option Json → String → Option String
text_in none k = none
text_in (some j) k = text_field j k

-- `a || b` of texts that may be missing
abbrev pub or_text : Option String → Option String → Option String
or_text none b = b
or_text (some a) b = if truthy a then some a else b

abbrev pub or_json : Option Json → Option Json → Option Json
or_json a b = if is_truthy a then a else b

abbrev pub is_text : Option String → String → Bool
is_text none t = false
is_text (some a) t = a == t

abbrev pub payload_of : Json → Option Json
payload_of message = field message "payload"

-- A relay may wrap the message of the gateway.
abbrev pub unwrap : Json → Json
unwrap raw =
    if is_text (text_field raw "type") "gateway-event" && is_truthy (payload_of raw)
    then or_else (payload_of raw) raw
    else raw

-- `msg.sessionId || msg.payload?.sessionId || msg.payload?.threadId`; the empty text is no session.
abbrev pub event_session_id : Json → String
event_session_id message =
    let payload = payload_of message in
    or_else
      (or_text (text_field message "sessionId")
        (or_text (text_in payload "sessionId") (text_in payload "threadId")))
      ""

-- The session and the number of an event that has both.
abbrev pub number_in : String → Option ℕ → Option (String × ℕ)
number_in id none = none
number_in id (some seq) = if truthy id then some (id, seq) else none

abbrev pub numbered : Json → Option (String × ℕ)
numbered message = number_in (event_session_id message) (as_number (field message "eventSeq"))
