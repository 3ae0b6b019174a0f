-- ===== src/RelaySessionSync/Tests.antt =====
-- The session listing at concrete inputs.
use code_harbor.Common.{[], arith, map, nat_eq, none, refl, some, string_eq, ◌∷◌, ◌≡◌}
use code_harbor.Common.JsMap.Distinct.{HasDistinctKeys}
use code_harbor.Common.Json.{Json, array, field, fields, lookup, member, no_items, no_members, text}
use code_harbor.RelaySessionSync.{
  Fetched, build_session_sync_payload, extract_response_sessions, index_sessions,
  load_session_sync_payload, read_response_body, replied_with,
}
use code_harbor.RelaySessionSync.Listing.{find-build_session_sync_payload, find_session, lists}

abbrev test_value : Json
test_value = fields (member "id" (text " a ") no_members)

abbrev empty_response : Fetched
empty_response = replied_with 200 (some (fields (member "sessions" (array no_items) no_members)))

empty_listing_test :
    (load_session_sync_payload empty_response (test_value ∷ []) [] "r").0.sessions ≡ []
unfolding load_session_sync_payload build_session_sync_payload extract_response_sessions
    read_response_body index_sessions field lookup
empty_listing_test = refl

find-build_session_sync_payload_example :
    let p = (load_session_sync_payload empty_response (test_value ∷ []) [] "r").0 in
    (find_session "a" p.sessions ≡ none) × HasDistinctKeys (map (λ s. (s.id, s)) p.sessions)
unfolding field lookup
find-build_session_sync_payload_example =
    find-build_session_sync_payload empty_response (test_value ∷ []) [] [] "r" "a"
      (lists (omega arith) (omega arith) refl)
