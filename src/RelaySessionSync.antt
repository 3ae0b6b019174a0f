-- ===== src/RelaySessionSync.antt =====
-- gateway/acode-upstream/server/src/relaySessionSync.ts: the listing of the sessions that is sent to the
-- cloud relay. Sessions come as JSON objects, those of the gateway store too; a cursor that is no
-- natural number is `none`; what `fetch` gives is an argument.
pub mod Listing
pub mod Cursors
mod Tests
use code_harbor.CodexBridge.Requests.{response}
use code_harbor.Common.{
  Bool, List, Option, String, [], false, if◌then◌else◌, leb, map, nat_eq, none, or_else, some,
  string_eq, truthy, ℕ, ◌&&◌, ◌==◌, ◌∷◌,
}
use code_harbor.Common.JsMap.{JsMap, set}
use code_harbor.Common.Json.{
  Json, array, as_array, as_text, boolean, field, fields, is_object, no_members, null, number,
  other_number, text, text_field,
}
use code_harbor.Common.Text.{trim}
use code_harbor.GatewayStore.Events.{max_safe_integer}
use code_harbor.GatewayStore.Types.{PolicyMode, confirm, full_access}

pub record SessionSyncMetadata : Type 0 where
  pub id : String
  pub title : String
  pub workspace_path : String
  pub status : String
  pub updated_at : String
  pub session_policy_mode : PolicyMode

pub record SessionSyncPayload : Type 0 where
  pub request_id : String
  pub sessions : List SessionSyncMetadata
  pub cursors : JsMap String ℕ

abbrev pub string_or : Option Json → String → String
string_or given fallback = or_else (as_text given) fallback

-- `a ?? b`: the value `null` counts as missing.
abbrev pub coalesce : Option Json → Option Json → Option Json
coalesce none b = b
coalesce (some null) b = b
coalesce (some (boolean x)) b = some (boolean x)
coalesce (some (number x)) b = some (number x)
coalesce (some (other_number x)) b = some (other_number x)
coalesce (some (text x)) b = some (text x)
coalesce (some (array x)) b = some (array x)
coalesce (some (fields x)) b = some (fields x)

abbrev pub policy_mode : Option String → PolicyMode
policy_mode none = confirm
policy_mode (some mode) = if mode == "full-access" then full_access else confirm

-- `typeof record.id === "string" ? record.id.trim() : ""`
abbrev pub session_id_of : Json → String
session_id_of given = trim (string_or (field given "id") "")

unfoldable pub normalize_session : Json → Option SessionSyncMetadata
normalize_session given =
    if is_object given && truthy (session_id_of given)
    then some (record {
      id = session_id_of given;
      title = string_or (field given "title") "Codex 会话";
      workspace_path = string_or (field given "workspacePath") "";
      status = string_or (field given "status") "completed";
      updated_at =
          string_or (coalesce (field given "updatedAt") (field given "lastUpdatedAt"))
            "1970-01-01T00:00:00.000Z";
      session_policy_mode = policy_mode (text_field given "sessionPolicyMode");
    })
    else none

-- `value.sessions`, where that is an array.
unfoldable pub extract_response_sessions : Option Json → Option (List Json)
extract_response_sessions none = none
extract_response_sessions (some given) = as_array (field given "sessions")

abbrev pub add_session :
    JsMap String SessionSyncMetadata → Option SessionSyncMetadata → JsMap String SessionSyncMetadata
add_session m none = m
add_session m (some s) = set m s.id s

-- The loop over the source: of two sessions with one id the later counts.
unfoldable pub index_sessions :
    JsMap String SessionSyncMetadata → List Json → JsMap String SessionSyncMetadata
index_sessions m [] = m
index_sessions m (given ∷ rest) = index_sessions (add_session m (normalize_session given)) rest

-- The test of one cursor.
abbrev pub is_cursor : String → Option ℕ → Bool
is_cursor session none = false
is_cursor session (some cursor) = truthy session && leb cursor max_safe_integer

abbrev pub add_cursor : JsMap String ℕ → String → Option ℕ → JsMap String ℕ
add_cursor m session none = m
add_cursor m session (some cursor) =
    if is_cursor session (some cursor) then set m session cursor else m

unfoldable pub normalize_cursors : JsMap String ℕ → JsMap String (Option ℕ) → JsMap String ℕ
normalize_cursors m [] = m
normalize_cursors m ((session, cursor) ∷ rest) =
    normalize_cursors (add_cursor m session cursor) rest

-- A listing that succeeded is used even when it is empty.
unfoldable pub build_session_sync_payload :
    Option Json → List Json → JsMap String (Option ℕ) → String → SessionSyncPayload
build_session_sync_payload response fallback cursors request_id = record {
  request_id = request_id;
  sessions =
      map (λ e. e.1) (index_sessions [] (or_else (extract_response_sessions response) fallback));
  cursors = normalize_cursors [] cursors;
}

-- How the request to the local gateway ends: `body` is `none` where it is no JSON.
pub data Fetched : Type 0 where
  failed_fetch : String → Fetched
  replied_with : ℕ → Option Json → Fetched

-- `response.ok`
abbrev pub is_ok : ℕ → Bool
is_ok status = leb 200 status && leb status 299

-- The body of a response: an object, or `{}` in place of anything else.
unfoldable pub read_response_body : Option Json → Json
read_response_body none = fields no_members
read_response_body (some given) = if is_object given then given else fields no_members

-- What a failed listing says: the status and the error that the body names.
pub data ListingError : Type 0 where
  not_fetched : String → ListingError
  status_error : ℕ → Option String → ListingError

abbrev pub listing : Fetched → Option Json
listing (failed_fetch message) = none
listing (replied_with status body) = if is_ok status then some (read_response_body body) else none

abbrev pub listing_error : Fetched → Option ListingError
listing_error (failed_fetch message) = some (not_fetched message)
listing_error (replied_with status body) =
    if is_ok status
    then none
    else some (status_error status (text_field (read_response_body body) "error"))

unfoldable pub load_session_sync_payload :
    Fetched
    → List Json
    → JsMap String (Option ℕ)
    → String
    → SessionSyncPayload × Option ListingError
load_session_sync_payload fetched fallback cursors request_id = (
  build_session_sync_payload (listing fetched) fallback cursors request_id,
  listing_error fetched,
)

-- What is sent: the payload, if the connection is still open.
unfoldable pub send_session_sync :
    Bool → Fetched → List Json → JsMap String (Option ℕ) → String → Option SessionSyncPayload
send_session_sync is_open fetched fallback cursors request_id =
    if is_open then some (load_session_sync_payload fetched fallback cursors request_id).0 else none
