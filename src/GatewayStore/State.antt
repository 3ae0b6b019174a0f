-- ===== src/GatewayStore/State.antt =====
-- gatewayStore.ts, the state, its snapshots in files, and the operations on single sessions.
use code_harbor.Common.{
  Bool, List, Option, String, [], false, if◌then◌else◌, ltb, map, nat_eq, none, some, string_eq,
  true, ℕ, ◌∷◌,
}
use code_harbor.Common.JsMap.{JsMap, JsSet, delete, get, set}
use code_harbor.GatewayStore.Types.{
  CachedEvents, CreateRequestRecord, GatewaySession, Line, Task, merge_session,
}

pub record Store : Type 0 where
  pub sessions : JsMap String GatewaySession
  pub subagent_relations : JsMap String String
  pub create_requests : JsMap String CreateRequestRecord
  pub latest_seq_by_session : JsMap String ℕ
  pub event_cache : JsMap String CachedEvents
  pub deleted_sessions : JsSet String
  pub client_request_reservations : JsMap String ℕ
  pub create_request_reservations : JsMap String ℕ
  pub session_persist_timer : Bool
  pub session_persist_dirty : Bool
  -- The file system: the snapshots, the events file of each session, what is queued for it, and the sessions whose writes failed.
  pub disk_ok : Bool
  pub sessions_file : List GatewaySession
  pub relations_file : JsMap String String
  pub create_requests_file : JsMap String CreateRequestRecord
  pub event_files : JsMap String (List Line)
  pub event_write_chains : JsMap String (List Task)
  pub event_write_errors : JsSet String

-- Into a list sorted by falling `lastUpdatedAt`, behind the entries that are as recent: the sort of
-- JavaScript is stable.
insert_session : GatewaySession → List GatewaySession → List GatewaySession
insert_session s [] = s ∷ []
insert_session s (t ∷ ts) =
    let rest = insert_session s ts in
    if ltb t.last_updated_at s.last_updated_at then s ∷ t ∷ ts else t ∷ rest

sort_into : List GatewaySession → List GatewaySession → List GatewaySession
sort_into sorted [] = sorted
sort_into sorted (s ∷ rest) = sort_into (insert_session s sorted) rest

unfoldable pub sort_sessions : List GatewaySession → List GatewaySession
unfolding sort_into insert_session
sort_sessions ss = sort_into [] ss

unfoldable pub list_sessions : Store → List GatewaySession
unfolding sort_sessions
list_sessions st = sort_sessions (map (λ e. e.1) st.sessions)

unfoldable pub get_session : Store → String → Option GatewaySession
get_session st id = get st.sessions id

-- The snapshot is written by a timer, which is armed if it is not yet.
unfoldable pub persist_sessions : Store → Store
persist_sessions st = record st { session_persist_dirty = true; session_persist_timer = true }

unfoldable pub persist_sessions_now : Store → Store
persist_sessions_now st = if st.disk_ok then record st { sessions_file = list_sessions st } else st

-- The callback of the timer, 100 ms after it was armed.
unfoldable pub timer_fires : Store → Store
unfolding persist_sessions_now
timer_fires st =
    let st' = record st { session_persist_timer = false } in
    if st.session_persist_dirty
    then persist_sessions_now (record st' { session_persist_dirty = false })
    else st'

unfoldable pub save_session : Store → GatewaySession → Store
unfolding persist_sessions
save_session st session = persist_sessions (record st {
  deleted_sessions = delete st.deleted_sessions session.id;
  sessions = set st.sessions session.id session;
})

-- `existing ? { ...existing, ...session } : session`
unfoldable pub merged : Store → GatewaySession → GatewaySession
merged st session = elim (get st.sessions session.id) [
  | none ↦ session
  | some existing ↦ merge_session existing session
]

unfoldable pub upsert_session : Store → GatewaySession → Store
unfolding save_session merged
upsert_session st session = save_session st (merged st session)

-- The loop of `upsertSessions`, which does not go through `saveSession`.
unfoldable pub upsert_each : Store → List GatewaySession → Store
unfolding merged
upsert_each st [] = st
upsert_each st (session ∷ rest) =
    upsert_each (record st { sessions = set st.sessions session.id (merged st session) }) rest

unfoldable pub upsert_sessions : Store → List GatewaySession → Store × List GatewaySession
unfolding upsert_each persist_sessions
upsert_sessions st ss = let st' = persist_sessions (upsert_each st ss) in (st', list_sessions st')

unfoldable pub update_session :
    Store → String → (GatewaySession → GatewaySession) → Store × Option GatewaySession
unfolding save_session
update_session st id updater = elim (get st.sessions id) [
  | none ↦ (st, none)
  | some existing ↦ (save_session st (updater existing), some (updater existing))
]

-- `flush`: the pending snapshot now, and then every queued line.
unfoldable pub flush_snapshot : Store → Store
unfolding persist_sessions_now
flush_snapshot st =
    let st' = record st { session_persist_timer = false } in
    if st.session_persist_dirty
    then persist_sessions_now (record st' { session_persist_dirty = false })
    else st'
