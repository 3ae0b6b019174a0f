-- ===== src/RelaySessionSync/Cursors.antt =====
-- What the relay is told of the cursors.
use code_harbor.CodexBridge.Requests.{response}
use code_harbor.Common.{
  List, Option, String, [], arith, if◌then◌else◌, nat_eq, none, or_else, refl, some, string_eq, ℕ,
  ◌&&◌, ◌==◌, ◌∷◌, ◌≡◌,
}
use code_harbor.Common.JsMap.{JsMap, get, get-set, has}
use code_harbor.Common.JsMap.Distinct.{HasDistinctKeys}
use code_harbor.Common.Json.{Json}
use code_harbor.RelaySessionSync.{
  add_cursor, build_session_sync_payload, is_cursor, normalize_cursors,
}

get-add_cursor :
    (m : JsMap String ℕ) (session id : String) (cursor : Option ℕ)
    → get (add_cursor m session cursor) id
      ≡ (if is_cursor session cursor && session == id then cursor else get m id)
get-add_cursor m session id none = refl
get-add_cursor m session id (some c) = ground (arith, get-set m session id c)

get-normalize_cursors :
    (m : JsMap String ℕ) (known : JsMap String (Option ℕ)) (id : String)
    → HasDistinctKeys known
    → get (normalize_cursors m known) id ≡ (
        if is_cursor id (or_else (get known id) none)
        then or_else (get known id) none
        else get m id)
unfolding normalize_cursors get has
get-normalize_cursors m [] id d = refl
get-normalize_cursors m ((session, cursor) ∷ rest) id (new, d) = ground (
  arith,
  get-normalize_cursors (add_cursor m session cursor) rest id d,
  get-add_cursor m session id cursor,
  string_eq.beq_iff session id,
)

-- The cursor that is sent for a session is the one that is known, if the session id is not empty and
-- the cursor a natural number up to 2^53 - 1, and none otherwise.
pub get-build_session_sync_payload :
    (response : Option Json) (fallback : List Json) (known : JsMap String (Option ℕ))
    (request_id id : String)
    → HasDistinctKeys known
    → get (build_session_sync_payload response fallback known request_id).cursors id
      ≡ (if is_cursor id (or_else (get known id) none) then or_else (get known id) none else none)
unfolding build_session_sync_payload get
get-build_session_sync_payload response fallback known request_id id d =
    get-normalize_cursors [] known id d
