-- ===== src/GatewayStore/Startup.antt =====
-- gatewayStore.ts, the constructor: what a restart makes of the snapshots.
pub mod Recovery
use code_harbor.Common.{
  Bool, List, Option, String, [], false, if◌then◌else◌, keep, last_n, map, nat_eq, none, or_else,
  some, string_eq, true, truthy, ℕ, ◌∷◌,
}
use code_harbor.Common.JsMap.{JsMap, has, set}
use code_harbor.GatewayStore.Requests.{client_request_max}
use code_harbor.GatewayStore.State.{Store, persist_sessions}
use code_harbor.GatewayStore.Types.{
  CreateRequestRecord, GatewaySession, GatewaySessionStatus, Line, PolicyMode, Prop, absent,
  cancelled, completed, confirm, failed, prop_or, running, starting, undefined, value,
  waiting_approval,
}

-- A session of the snapshot, with the two fields that an older snapshot may lack.
pub record PersistedSession : Type 0 where
  pub session : GatewaySession
  pub stored_policy_mode : Option PolicyMode
  pub stored_last_updated_at : Option ℕ

abbrev pub last_id : Prop String → List String
last_id (value id) = if truthy id then id ∷ [] else []
last_id absent = []
last_id undefined = []

abbrev pub persisted_ids : GatewaySession → List String
persisted_ids s = elim s.recent_client_request_ids [
  | value ids ↦ last_n client_request_max (keep truthy ids)
  | absent ↦ last_id s.last_client_request_id
  | undefined ↦ last_id s.last_client_request_id
]

abbrev pub is_unfinished : GatewaySessionStatus → Bool
is_unfinished running = true
is_unfinished starting = true
is_unfinished waiting_approval = false
is_unfinished completed = false
is_unfinished failed = false
is_unfinished cancelled = false

-- A turn that ran when the process ended is over.
unfoldable pub normalize_persisted_session : PersistedSession → ℕ → GatewaySession
normalize_persisted_session p now =
    let normalized = record (p.session) {
      session_policy_mode = or_else p.stored_policy_mode confirm;
      recent_client_request_ids = value (persisted_ids p.session);
      last_updated_at = or_else p.stored_last_updated_at p.session.last_updated_at;
    } in
    if is_unfinished p.session.status
    then record normalized {
      status = completed;
      active_turn_id = undefined;
      finished_at = value (prop_or p.session.finished_at now);
      last_turn_finished_at = value (prop_or p.session.last_turn_finished_at now);
      last_updated_at = or_else p.stored_last_updated_at now;
    }
    else normalized

unfoldable pub load_snapshot :
    JsMap String GatewaySession → List PersistedSession → ℕ → JsMap String GatewaySession
load_snapshot m [] now = m
load_snapshot m (p ∷ ps) now =
    load_snapshot (set m p.session.id (normalize_persisted_session p now)) ps now

-- `Object.entries` of the create-requests file; `none` is a value of another shape.
unfoldable pub load_create_requests :
    JsMap String GatewaySession
    → JsMap String CreateRequestRecord
    → List (String × Option CreateRequestRecord)
    → JsMap String CreateRequestRecord
load_create_requests sessions m [] = m
load_create_requests sessions m ((request, none) ∷ rest) = load_create_requests sessions m rest
load_create_requests sessions m ((request, some r) ∷ rest) =
    load_create_requests sessions (if has sessions r.session_id then set m request r else m) rest

unfoldable pub load_relations : JsMap String String → List (String × String) → JsMap String String
load_relations m [] = m
load_relations m ((child, parent) ∷ rest) = load_relations (set m child parent) rest

unfoldable pub construct :
    List PersistedSession
    → List (String × String)
    → List (String × Option CreateRequestRecord)
    → JsMap String (List Line)
    → ℕ
    → Bool
    → Store
construct snapshot relations requests files now disk_ok =
    let sessions = load_snapshot [] snapshot now in
    persist_sessions (record {
      sessions = sessions;
      subagent_relations = load_relations [] relations;
      create_requests = load_create_requests sessions [] requests;
      latest_seq_by_session = [];
      event_cache = [];
      deleted_sessions = [];
      client_request_reservations = [];
      create_request_reservations = [];
      session_persist_timer = false;
      session_persist_dirty = false;
      disk_ok = disk_ok;
      sessions_file = map (λ p. p.session) snapshot;
      relations_file = load_relations [] relations;
      create_requests_file = [];
      event_files = files;
      event_write_chains = [];
      event_write_errors = [];
    })
