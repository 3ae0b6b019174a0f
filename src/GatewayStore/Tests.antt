-- ===== src/GatewayStore/Tests.antt =====
-- The gateway store at concrete inputs.
use code_harbor.Common.{
  All, Option, String, [], arith, false, length, nat_eq, none, refl, some, string_eq, true, ℕ, ◌++◌,
  ◌∷◌, ◌≡◌, ◌≤◌,
}
use code_harbor.Common.JsMap.{delete_where, get, has, shrink}
use code_harbor.GatewayStore.Cache.Bounds.{IsBounded}
use code_harbor.GatewayStore.Events.{
  after_cursor, append_event, append_to, appends, cursors, event_run, list_events, lists,
  max_safe_integer, page_of, writes,
}
use code_harbor.GatewayStore.Events.Bounds.{event_run-IsBounded}
use code_harbor.GatewayStore.Events.Latest.{latest_known}
use code_harbor.GatewayStore.Events.Paging.{page_of-resume}
use code_harbor.GatewayStore.Events.Sequence.{appended, appended-RisesFrom}
use code_harbor.GatewayStore.Events.Stale.{list-append_stale}
use code_harbor.GatewayStore.Relations.{delete_session}
use code_harbor.GatewayStore.Relations.Deletion.{Forgotten, delete_session-Forgotten}
use code_harbor.GatewayStore.Relations.Reimport.{append-upsert_deleted}
use code_harbor.GatewayStore.Requests.{
  create_request_max, done, get_create_request_session, has_client_request, pending,
  prune_reservations, remember_client_request, remember_create_request, reserve_create_request,
  reserve_new_create,
}
use code_harbor.GatewayStore.Requests.Held.{releases, reserve_run, reserves}
use code_harbor.GatewayStore.Requests.Ledger.{
  has-remember_client_request, reserve-remember_create_request,
}
use code_harbor.GatewayStore.Requests.Once.{reserve_create_request_twice}
use code_harbor.GatewayStore.Startup.{construct}
use code_harbor.GatewayStore.Startup.Recovery.{Recovered, construct-Recovered}
use code_harbor.GatewayStore.State.{Store, get_session, upsert_sessions}
use code_harbor.GatewayStore.Timeline.{
  number_entries, parse_lines, read_events_from_disk, read_lines,
}
use code_harbor.GatewayStore.Timeline.Order.{RisesFrom, read_lines-RisesFrom}
use code_harbor.GatewayStore.Types.{
  GatewayMessage, GatewaySession, SessionTimelineEntry, absent, confirm, corrupt, entry, resumable,
  running, seq_of, writes_line,
}

abbrev test_session : String → GatewaySession
test_session id = record {
  id = id;
  provider_session_id = id;
  title = "t";
  workspace_path = "/w";
  status = running;
  session_policy_mode = confirm;
  active_turn_id = absent;
  can_resume = true;
  resume_status = resumable;
  command = "codex";
  args = [];
  prompt = "p";
  model_label = absent;
  model_provider = absent;
  created_at = 1;
  last_updated_at = 1;
  started_at = absent;
  finished_at = absent;
  last_turn_started_at = absent;
  last_turn_finished_at = absent;
  last_client_request_id = absent;
  recent_client_request_ids = absent;
  exit_code = absent;
  parent_session_id = absent;
  child_session_ids = absent;
  thread_source = absent;
  agent_nickname = absent;
  agent_role = absent;
  agent_path = absent;
}

abbrev test_message : String → Option ℕ → GatewayMessage
test_message id seq = record {
  type = "event";
  request_id = none;
  session_id = some id;
  timestamp = 1;
  payload = "{}";
  event_seq = seq;
}

abbrev test_entry : String → ℕ → SessionTimelineEntry
test_entry id seq = record { message = test_message id (some seq) }

-- Two sessions, of which "b" is a subagent of "a", and one event of "a" in its file.
abbrev test_store : Store
test_store = record {
  sessions = ("a", test_session "a") ∷ ("b", test_session "b") ∷ [];
  subagent_relations = ("b", "a") ∷ [];
  create_requests = [];
  latest_seq_by_session = ("a", 3) ∷ [];
  event_cache = [];
  deleted_sessions = [];
  client_request_reservations = [];
  create_request_reservations = [];
  session_persist_timer = false;
  session_persist_dirty = false;
  disk_ok = true;
  sessions_file = [];
  relations_file = [];
  create_requests_file = [];
  event_files = ("a", entry (test_entry "a" 1) ∷ []) ∷ [];
  event_write_chains = ("a", writes_line (entry (test_entry "a" 3)) ∷ []) ∷ [];
  event_write_errors = [];
}

abbrev empty_cache : IsBounded []
empty_cache = record { distinct = tt; few = omega arith; short = tt }

read_lines-RisesFrom_example :
    RisesFrom 0 (read_lines "a" (corrupt ∷ entry (test_entry "a" 4) ∷ []))
    × All
        (λ e. seq_of e ≤ max_safe_integer)
        (read_lines "a" (corrupt ∷ entry (test_entry "a" 4) ∷ []))
read_lines-RisesFrom_example =
    read_lines-RisesFrom "a" (corrupt ∷ entry (test_entry "a" 4) ∷ []) 4 (omega arith, tt)
      (omega arith)

appended-RisesFrom_example :
    RisesFrom (latest_known (record test_store { latest_seq_by_session = [] }) "a") (
      appended "a"
        (record test_store { latest_seq_by_session = [] })
        (test_message "a" none ∷ test_message "b" none ∷ test_message "a" (some 2) ∷ []))
unfolding get
appended-RisesFrom_example =
    appended-RisesFrom "a" (record test_store { latest_seq_by_session = [] })
      (test_message "a" none ∷ test_message "b" none ∷ test_message "a" (some 2) ∷ []) (λ h. refl)

event_run-IsBounded_example :
    IsBounded
      (event_run test_store
        (appends (test_message "a" none) ∷ lists "a" ∷ writes "a" ∷ cursors ∷ [])).event_cache
event_run-IsBounded_example =
    event_run-IsBounded test_store
      (appends (test_message "a" none) ∷ lists "a" ∷ writes "a" ∷ cursors ∷ []) empty_cache

list-append_stale_example :
    ((append_to (list_events test_store "a").0 "a" (test_message "a" none)).1.event_seq ≡ some 2)
    × (2 ≤ 3)
unfolding get read_events_from_disk read_lines parse_lines number_entries
list-append_stale_example =
    list-append_stale test_store "a" (test_message "a" none) 3 1 refl refl refl (omega arith)
      (omega arith) refl

reserve_create_request_twice_example :
    (reserve_create_request
      (reserve_run
        (reserve_create_request test_store "r" 5).0
        (reserves "r" 6 ∷ reserves "s" 7 ∷ releases "s" ∷ []))
      "r"
      9).1
    ≡ pending
unfolding get has reserve_create_request get_create_request_session reserve_new_create
    prune_reservations delete_where shrink
reserve_create_request_twice_example =
    reserve_create_request_twice test_store "r" 5 9
      (reserves "r" 6 ∷ reserves "s" 7 ∷ releases "s" ∷ []) refl tt (omega arith) refl refl
      (omega arith, (omega arith, (refl, tt))) (omega arith)

delete_session-Forgotten_example : Forgotten "b" (delete_session test_store "b").0
delete_session-Forgotten_example = delete_session-Forgotten test_store "b" (refl, (refl, tt))

construct-Recovered_example : Recovered (
    construct
      (record {
        session = test_session "a";
        stored_policy_mode = none;
        stored_last_updated_at = some 1;
      }
        ∷ [])
      []
      (("r", none) ∷ ("s", some (record { session_id = "c"; created_at = 1 })) ∷ [])
      []
      7
      true)
construct-Recovered_example =
    construct-Recovered
      (record {
        session = test_session "a";
        stored_policy_mode = none;
        stored_last_updated_at = some 1;
      }
        ∷ [])
      [] (("r", none) ∷ ("s", some (record { session_id = "c"; created_at = 1 })) ∷ []) [] 7 true

page_of-resume_example :
    ((page_of (test_entry "a" 4 ∷ test_entry "a" 6 ∷ []) 3 1).entries
        ++ after_cursor
            (page_of (test_entry "a" 4 ∷ test_entry "a" 6 ∷ []) 3 1).next_cursor
            (test_entry "a" 4 ∷ test_entry "a" 6 ∷ [])
      ≡ test_entry "a" 4 ∷ test_entry "a" 6 ∷ [])
page_of-resume_example =
    (page_of-resume (test_entry "a" 4 ∷ test_entry "a" 6 ∷ []) 3 1
      (refl, omega arith, (refl, omega arith, tt))).0

reserve-remember_create_request_example :
    ((reserve_create_request (remember_create_request test_store "r" "a" 5) "r" 9).1 ≡ done "a")
    × (length (remember_create_request test_store "r" "a" 5).create_requests ≤ create_request_max)
unfolding get has
reserve-remember_create_request_example =
    reserve-remember_create_request test_store "r" "a" 5 9 refl refl tt refl refl

has-remember_client_request_example :
    has_client_request (remember_client_request test_store "a" "r") "a" "r" ≡ true
unfolding get
has-remember_client_request_example =
    (has-remember_client_request test_store "a" "r" (test_session "a") refl refl refl refl).0

append-upsert_deleted_example :
    let st' = (upsert_sessions (delete_session test_store "a").0 (test_session "a" ∷ [])).0 in
    (get_session st' "a" ≡ some (test_session "a"))
    × (append_event st' (test_message "a" none) ≡ (st', none))
append-upsert_deleted_example =
    append-upsert_deleted test_store (test_session "a") (test_message "a" none) (refl, (refl, tt))
      refl
