-- ===== src/WebClient/SessionList.antt =====
-- useCodeHarbor.ts, what onmessage changes in the list of the sessions.
use code_harbor.Common.{
  Bool, List, Option, String, [], false, if◌then◌else◌, nat_eq, none, or_else, some, string_eq,
  true, truthy, ◌&&◌, ◌==◌, ◌||◌, ◌∷◌,
}
use code_harbor.Common.Json.{
  Json, Members, array, boolean, fields, member, no_members, null, number, other_number, text,
  text_field,
}
use code_harbor.WebClient.Fields.{
  in_field, is_text, is_truthy, or_json, or_text, payload_of, text_in,
}

abbrev id_of : Json → Option String
id_of session = text_field session "id"

abbrev pub same_id : Option String → Option String → Bool
same_id none none = true
same_id none (some b) = false
same_id (some a) none = false
same_id (some a) (some b) = a == b

abbrev append_members : Members → Members → Members
append_members no_members ns = ns
append_members (member k j ms) ns = member k j (append_members ms ns)

-- `{ ...a, ...b }` of objects
abbrev pub spread : Json → Json → Json
spread (fields ms) (fields ns) = fields (append_members ms ns)
spread null b = b
spread (boolean x) b = b
spread (number n) b = b
spread (other_number t) b = b
spread (text t) b = b
spread (array js) b = b
spread (fields ms) b = fields ms

-- The session under its id, or in front of the list.
abbrev replace_session : Json → List Json → Option (List Json)
replace_session new [] = none
replace_session new (s ∷ ss) =
    let rest = replace_session new ss in
    if same_id (id_of s) (id_of new)
    then some (spread s new ∷ ss)
    else elim rest [ none ↦ none | some ss' ↦ some (s ∷ ss') ]

abbrev put_session : Json → List Json → List Json
put_session new ss = or_else (replace_session new ss) (new ∷ ss)

abbrev put_payload_session : Option Json → List Json → List Json
put_payload_session none ss = ss
put_payload_session (some new) ss = if is_truthy (some new) then put_session new ss else ss

-- `prev.map((s) => s.id === id ? { ...s, [k]: value } : s)`
abbrev set_member : String → String → Json → List Json → List Json
set_member id k value [] = []
set_member id k value (s ∷ ss) =
    (if is_text (id_of s) id then spread s (fields (member k value no_members)) else s)
    ∷ set_member id k value ss

abbrev set_policy : Option String → Option String → List Json → List Json
set_policy none mode ss = ss
set_policy (some id) none ss = ss
set_policy (some id) (some mode) ss =
    if truthy id && (mode == "confirm" || mode == "full-access")
    then set_member id "sessionPolicyMode" (text mode) ss
    else ss

abbrev set_status : Option String → Option Json → List Json → List Json
set_status none status ss = ss
set_status (some id) none ss = ss
set_status (some id) (some status) ss =
    if truthy id && is_truthy (some status) then set_member id "status" status ss else ss

-- What an event changes in the list of the sessions.
unfoldable pub update_sessions : Json → List Json → List Json
update_sessions message ss =
    let type = text_field message "type" in
    let payload = payload_of message in
    if is_text type "session-started" || is_text type "session-forked"
    then put_payload_session (in_field payload "session") ss
    else if is_text type "session-policy-changed"
    then set_policy (or_text (text_field message "sessionId") (text_in payload "sessionId"))
        (text_in payload "sessionPolicyMode") ss
    else if is_text type "session-status" || is_text type "session-finished"
    then set_status (or_text (text_field message "sessionId") (text_in payload "threadId"))
        (or_json (in_field payload "status") (in_field (in_field payload "turn") "status")) ss
    else ss
