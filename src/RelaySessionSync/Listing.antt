-- ===== src/RelaySessionSync/Listing.antt =====
-- What the relay is told of the sessions: which, and each once.
use code_harbor.Common.{
  Bool-cases, List, Option, String, [], ap, arith, false, if◌then◌else◌, inl, inr, map, nat_eq,
  none, or_else, refl, some, string_eq, subst, sym, true, ℕ, ◌<◌, ◌==◌, ◌∙◌, ◌∷◌, ◌≡◌, ◌≢◌, ◌≤◌,
  ◌⊎◌,
}
use code_harbor.Common.JsMap.{JsMap, get, get-set}
use code_harbor.Common.JsMap.Distinct.{HasDistinctKeys, set-HasDistinctKeys}
use code_harbor.Common.JsMap.Every.{Every, Every-set}
use code_harbor.Common.Json.{
  Items, Json, array, as_array, boolean, field, fields, lookup, null, number, other_number, text,
  to_list,
}
use code_harbor.RelaySessionSync.{
  Fetched, SessionSyncMetadata, add_session, build_session_sync_payload, extract_response_sessions,
  failed_fetch, index_sessions, is_ok, listing, load_session_sync_payload, normalize_session,
  read_response_body, replied_with,
}
use mathlib.Core.Path.{ap₂}

-- The first of two answers that is there.
abbrev pub or_earlier {ℓ} : {A : Type ℓ} → Option A → Option A → Option A
or_earlier (some later) earlier = some later
or_earlier none earlier = earlier

abbrev pub named : String → Option SessionSyncMetadata → Option SessionSyncMetadata
named id none = none
named id (some s) = if s.id == id then some s else none

-- The last session of the source with the id, looked for from the end.
abbrev pub last_named : String → List Json → Option SessionSyncMetadata
last_named id [] = none
last_named id (given ∷ rest) = or_earlier (last_named id rest) (named id (normalize_session given))

or_earlier_assoc :
    (a b c : Option SessionSyncMetadata)
    → or_earlier a (or_earlier b c) ≡ or_earlier (or_earlier a b) c
or_earlier_assoc none b c = refl
or_earlier_assoc (some x) b c = refl

get-add_session :
    (m : JsMap String SessionSyncMetadata) (n : Option SessionSyncMetadata) (id : String)
    → get (add_session m n) id ≡ or_earlier (named id n) (get m id)
get-add_session m none id = refl
get-add_session m (some s) id = ground (arith, get-set m s.id id s)

get-index_sessions :
    (m : JsMap String SessionSyncMetadata) (source : List Json) (id : String)
    → get (index_sessions m source) id ≡ or_earlier (last_named id source) (get m id)
unfolding index_sessions
get-index_sessions m [] id = refl
get-index_sessions m (given ∷ rest) id =
    let n = normalize_session given in
    get-index_sessions (add_session m n) rest id
    ∙ ap (or_earlier (last_named id rest)) (get-add_session m n id)
    ∙ or_earlier_assoc (last_named id rest) (named id n) (get m id)

add_session-HasDistinctKeys :
    (m : JsMap String SessionSyncMetadata) (n : Option SessionSyncMetadata)
    → HasDistinctKeys m
    → HasDistinctKeys (add_session m n)
add_session-HasDistinctKeys m none h = h
add_session-HasDistinctKeys m (some s) h = set-HasDistinctKeys m s.id s h

index_sessions-HasDistinctKeys :
    (m : JsMap String SessionSyncMetadata) (source : List Json)
    → HasDistinctKeys m
    → HasDistinctKeys (index_sessions m source)
unfolding index_sessions
index_sessions-HasDistinctKeys m [] h = h
index_sessions-HasDistinctKeys m (given ∷ rest) h =
    let n = normalize_session given in
    index_sessions-HasDistinctKeys (add_session m n) rest (add_session-HasDistinctKeys m n h)

-- The first session of a list that has the id.
abbrev pub find_session : String → List SessionSyncMetadata → Option SessionSyncMetadata
find_session id [] = none
find_session id (s ∷ ss) = if s.id == id then some s else find_session id ss

find_session-map :
    (m : JsMap String SessionSyncMetadata) (id : String)
    → Every (λ k s. s.id ≡ k) m
    → find_session id (map (λ e. e.1) m) ≡ get m id
unfolding get
find_session-map [] id h = refl
find_session-map ((k, s) ∷ m) id (p, h) = rw (p, find_session-map m id h) refl

add_session-Every :
    (m : JsMap String SessionSyncMetadata) (n : Option SessionSyncMetadata)
    → Every (λ k s. s.id ≡ k) m
    → Every (λ k s. s.id ≡ k) (add_session m n)
add_session-Every m none h = h
add_session-Every m (some s) h = Every-set _ m s.id s h refl

-- Each session stands under its own id.
index_sessions-Every :
    (m : JsMap String SessionSyncMetadata) (source : List Json)
    → Every (λ k s. s.id ≡ k) m
    → Every (λ k s. s.id ≡ k) (index_sessions m source)
unfolding index_sessions
index_sessions-Every m [] h = h
index_sessions-Every m (given ∷ rest) h =
    let n = normalize_session given in
    index_sessions-Every (add_session m n) rest (add_session-Every m n h)

or_earlier-none : (a : Option SessionSyncMetadata) → or_earlier a none ≡ a
or_earlier-none none = refl
or_earlier-none (some s) = refl

rekey :
    (m : JsMap String SessionSyncMetadata)
    → Every (λ k s. s.id ≡ k) m
    → m ≡ map (λ s. (s.id, s)) (map (λ e. e.1) m)
rekey [] h = refl
rekey ((k, s) ∷ m) (p, h) = ap₂ (λ j rest. (j, s) ∷ rest) (sym p) (rekey m h)

-- Where the sessions that are sent come from: the array of sessions in the body of a reply with a
-- status from 200 to 299, also an empty one; and the snapshot where `fetch` failed, the status is
-- another one, or the body is no JSON or holds no such array.
pub data IsSource (fallback : List Json) : Fetched → List Json → Type 0 where
  lists :
      {status : ℕ} {body : Json} {js : Items}
      → 200 ≤ status
      → status ≤ 299
      → field body "sessions" ≡ some (array js)
      → IsSource fallback (replied_with status (some body)) (to_list js)
  fails : {message : String} → IsSource fallback (failed_fetch message) fallback
  refuses :
      {status : ℕ} {body : Option Json}
      → (status < 200) ⊎ (299 < status)
      → IsSource fallback (replied_with status body) fallback
  no_body : {status : ℕ} → IsSource fallback (replied_with status none) fallback
  no_array :
      {status : ℕ} {body : Json}
      → ((js : Items) → field body "sessions" ≢ some (array js))
      → IsSource fallback (replied_with status (some body)) fallback

empty_body :
    (fallback : List Json)
    → or_else (extract_response_sessions (some (read_response_body none))) fallback ≡ fallback
unfolding extract_response_sessions read_response_body field lookup
empty_body fallback = refl

as_array-none : (o : Option Json) → ((js : Items) → o ≢ some (array js)) → as_array o ≡ none
as_array-none none h = refl
as_array-none (some (array js)) h = absurd (h js refl)
as_array-none (some null) h = refl
as_array-none (some (boolean b)) h = refl
as_array-none (some (number n)) h = refl
as_array-none (some (other_number t)) h = refl
as_array-none (some (text t)) h = refl
as_array-none (some (fields ms)) h = refl

-- What is read of a body is its array of sessions, if it has one.
extract-body :
    (body : Json)
    → extract_response_sessions (some (read_response_body (some body)))
      ≡ as_array (field body "sessions")
unfolding extract_response_sessions read_response_body field lookup
extract-body (fields ms) = refl
extract-body (array js) = refl
extract-body null = refl
extract-body (boolean b) = refl
extract-body (number n) = refl
extract-body (other_number t) = refl
extract-body (text t) = refl

source-IsSource :
    (fallback : List Json) (fetched : Fetched) (source : List Json)
    → IsSource fallback fetched source
    → or_else (extract_response_sessions (listing fetched)) fallback ≡ source
unfolding extract_response_sessions
source-IsSource fallback (replied_with status (some body)) source (lists low high e) =
    let ok : is_ok status ≡ true = ground arith in rw (ok, extract-body body, e) refl
source-IsSource fallback (failed_fetch message) source fails = refl
source-IsSource fallback (replied_with status body) source (refuses out) =
    let bad : is_ok status ≡ false = ground arith in rw bad refl
source-IsSource fallback (replied_with status none) source no_body =
    elim (Bool-cases (is_ok status)) [
      | inl ok ↦ rw ok (empty_body fallback)
      | inr bad ↦ rw bad refl
    ]
source-IsSource fallback (replied_with status (some body)) source (no_array h) =
    elim (Bool-cases (is_ok status)) [
      | inl ok ↦ rw (ok, extract-body body, as_array-none (field body "sessions") h) refl
      | inr bad ↦ rw bad refl
    ]

pub find-build_session_sync_payload :
    (fetched : Fetched) (fallback source : List Json) (known : JsMap String (Option ℕ))
    (request_id id : String)
    → IsSource fallback fetched source
    → let p = (load_session_sync_payload fetched fallback known request_id).0 in
      (find_session id p.sessions ≡ last_named id source)
      × HasDistinctKeys (map (λ s. (s.id, s)) p.sessions)
unfolding load_session_sync_payload build_session_sync_payload get
find-build_session_sync_payload fetched fallback source known request_id id from =
    let used = or_else (extract_response_sessions (listing fetched)) fallback in
    let m = index_sessions [] used in
    let k = index_sessions-Every [] used tt in
    (
      find_session-map m id k
          ∙ get-index_sessions [] used id
          ∙ or_earlier-none (last_named id used)
          ∙ ap (last_named id) (source-IsSource fallback fetched source from),
      subst HasDistinctKeys (rekey m k) (index_sessions-HasDistinctKeys [] used tt),
    )
