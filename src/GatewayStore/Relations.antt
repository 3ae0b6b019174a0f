-- ===== src/GatewayStore/Relations.antt =====
-- gatewayStore.ts, the relations between a session and its subagents, and the deletion of a session.
pub mod Deletion
pub mod Reimport
use code_harbor.Common.{
  Bool, List, Option, String, [], false, if◌then◌else◌, includes, is_some, keep, nat_eq, none, not,
  some, string_eq, truthy, ◌++◌, ◌==◌, ◌||◌, ◌∷◌,
}
use code_harbor.Common.JsMap.{JsMap, delete, delete_where, get, has, set}
use code_harbor.Common.Text.{strip_prefix}
use code_harbor.GatewayStore.Events.{queue_task}
use code_harbor.GatewayStore.Requests.{reservation_key, write_create_requests}
use code_harbor.GatewayStore.State.{Store, persist_sessions, update_session}
use code_harbor.GatewayStore.Types.{
  CreateRequestRecord, GatewaySession, prop_or, removes_file, value,
}

-- `writeJsonAtomic(this.relationsFilePath, …)`
unfoldable pub write_relations : Store → Store
write_relations st = if st.disk_ok then record st { relations_file = st.subagent_relations } else st

-- `Array.from(new Set(ids))`: each text once, where it comes first.
unfoldable pub unique : List String → List String → List String
unique seen [] = []
unique seen (id ∷ ids) =
    let rest = unique (id ∷ seen) ids in if includes seen id then rest else id ∷ rest

abbrev pub with_child : String → GatewaySession → GatewaySession
with_child child s = record s {
  child_session_ids = value (unique [] (prop_or s.child_session_ids [] ++ child ∷ []));
}

abbrev pub without_child : String → GatewaySession → GatewaySession
without_child child s = record s {
  child_session_ids = value (keep (λ c. not (c == child)) (prop_or s.child_session_ids []));
}

unfoldable pub link_subagent : Store → String → String → Store
link_subagent st parent child =
    if not (truthy parent) || not (truthy child) || parent == child
    then st
    else (let st₁ =
          write_relations
            (record st { subagent_relations = set st.subagent_relations child parent }) in
        let st₂ = (update_session st₁ parent (with_child child)).0 in
        (update_session st₂ child (λ s. record s { parent_session_id = value parent })).0)

unfoldable pub get_subagent_parent : Store → String → Option String
get_subagent_parent st child = get st.subagent_relations child

-- The session itself: it is marked as deleted and leaves the map.
unfoldable pub drop_session : Store → String → Store
drop_session st id =
    let st' = record st {
      deleted_sessions = set st.deleted_sessions id tt;
      sessions = delete st.sessions id;
    } in
    if has st.sessions id then persist_sessions st' else st'

-- Its place among the children of its parent, if it has one.
unfoldable pub forget_child : Store → String → Option String → Store
forget_child st id none = st
forget_child st id (some parent) =
    if truthy parent then (update_session st parent (without_child id)).0 else st

-- The relations with it on either side.
abbrev pub cut_relations : Store → String → Store
cut_relations st id = record st {
  subagent_relations =
      delete_where (λ child parent. parent == id) (delete st.subagent_relations id);
}

unfoldable pub drop_relations : Store → String → Store
drop_relations st id =
    write_relations (forget_child (cut_relations st id) id (get st.subagent_relations id))

abbrev pub any_of : String → JsMap String CreateRequestRecord → Bool
any_of id [] = false
any_of id ((request, r) ∷ m) = r.session_id == id || any_of id m

-- The records of the create requests that led to it.
unfoldable pub drop_create_requests : Store → String → Store
drop_create_requests st id =
    let st' = record st {
      create_requests = delete_where (λ request r. r.session_id == id) st.create_requests;
    } in
    if any_of id st.create_requests then write_create_requests st' else st'

-- Its events file: now, or behind the writes that are queued for it.
unfoldable pub drop_events : Store → String → Store
drop_events st id =
    let st' = record st {
      latest_seq_by_session = delete st.latest_seq_by_session id;
      event_cache = delete st.event_cache id;
    } in
    if has st.event_write_chains id
    then queue_task st' id removes_file
    else record st' { event_files = delete st.event_files id }

-- `key.startsWith(`${sessionId}\u0000`)`
abbrev pub is_key_of : String → String → Bool
is_key_of id key = is_some (strip_prefix (reservation_key id "") key)

unfoldable pub drop_reservations : Store → String → Store
drop_reservations st id = record st {
  client_request_reservations =
      delete_where (λ key created. is_key_of id key) st.client_request_reservations;
}

unfoldable pub delete_session : Store → String → Store × Bool
delete_session st id = (
  drop_reservations
      (drop_events (drop_create_requests (drop_relations (drop_session st id) id) id) id) id,
  has st.sessions id,
)
