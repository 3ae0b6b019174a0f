-- ===== src/Server/Tests.antt =====
-- The handlers at concrete inputs.
use code_harbor.Common.{[], false, nat_eq, none, refl, some, string_eq, true, ◌++◌, ◌∷◌, ◌≡◌, ◌≢◌}
use code_harbor.Common.JsMap.{delete_where, get, has, shrink}
use code_harbor.Common.Json.{Json, fields, lookup, member, no_members, text}
use code_harbor.GatewayStore.Requests.{
  has_client_request, prune_reservations, reserve_client_request,
}
use code_harbor.GatewayStore.Types.{
  GatewaySession, absent, completed, confirm, full_access, resumable, value,
}
use code_harbor.Server.Broadcast.Effects.{released_by}
use code_harbor.Server.Creation.{CreateBody, responds, take_thread}
use code_harbor.Server.Creation.Released.{take_thread-released}
use code_harbor.Server.Histories.{begins_thread_turn, broadcasts, lists_thread, posts_turn, run}
use code_harbor.Server.Histories.OneTurn.{turn_exclusive}
use code_harbor.Server.Histories.Silence.{Untouched, interrupted_run_silent}
use code_harbor.Server.Interrupts.{cancelled_message, settle_interrupted_session}
use code_harbor.Server.Replies.{full_access_confirmation_required, session_created, turn_accepted}
use code_harbor.Server.State.{Server}
use code_harbor.Server.Turns.{
  Run, TurnBody, answers, continue_run, persisted_session, post_turn, start_run, starting_turn,
}
use code_harbor.Server.Turns.Forgotten.{start_run-forgets}
use code_harbor.Server.Turns.Refusals.{Refused, post_turn-Refused}
use code_harbor.SessionRunState.{is_current}
use code_harbor.Threads.Index.{ThreadSummary}
use code_harbor.TurnGate.{acquire}

abbrev test_session : GatewaySession
test_session = record {
  id = "a";
  provider_session_id = "a";
  title = "t";
  workspace_path = "/w";
  status = completed;
  session_policy_mode = confirm;
  active_turn_id = absent;
  can_resume = true;
  resume_status = resumable;
  command = "codex";
  args = [];
  prompt = "p";
  model_label = absent;
  model_provider = absent;
  created_at = 1;
  last_updated_at = 1;
  started_at = absent;
  finished_at = absent;
  last_turn_started_at = absent;
  last_turn_finished_at = absent;
  last_client_request_id = value "r1";
  recent_client_request_ids = value ("r1" ∷ []);
  exit_code = absent;
  parent_session_id = absent;
  child_session_ids = absent;
  thread_source = absent;
  agent_nickname = absent;
  agent_role = absent;
  agent_path = absent;
}

-- One session, which has had one turn.
abbrev test_server : Server
test_server = record {
  store = record {
    sessions = ("a", test_session) ∷ [];
    subagent_relations = [];
    create_requests = [];
    latest_seq_by_session = [];
    event_cache = [];
    deleted_sessions = [];
    client_request_reservations = [];
    create_request_reservations = [];
    session_persist_timer = false;
    session_persist_dirty = false;
    disk_ok = true;
    sessions_file = [];
    relations_file = [];
    create_requests_file = [];
    event_files = [];
    event_write_chains = [];
    event_write_errors = [];
  };
  gate = record { active_sessions = [] };
  runs = record { generations = ("a", 1) ∷ [] };
  cancelled_sessions = [];
  process_live_session_ids = [];
  subagent_parents = [];
  sent = [];
  interrupts = [];
  command = "codex app-server";
}

abbrev test_body : TurnBody
test_body = record {
  prompt = "go";
  client_request_id = some "r2";
  request_id = none;
  expires_at = none;
  attachments = 0;
  session_policy_mode = none;
  confirm_full_access = none;
  input_json = "{}";
}

abbrev full_access_body : TurnBody
full_access_body = record test_body { session_policy_mode = some full_access }

abbrev test_thread : ThreadSummary
test_thread = record {
  id = "a";
  title = "t";
  cwd = "/w";
  preview = "p";
  model = none;
  model_provider = "codex";
  source = "cli";
  status = "notLoaded";
  created_at_ms = 1;
  updated_at_ms = 1;
  tokens_used = 0;
  archived = false;
  git_branch = none;
}

first_turn_accepted :
    (post_turn test_server "a" test_body (some test_session) none none 5).1 ≡ turn_accepted
unfolding post_turn has_client_request reserve_client_request prune_reservations delete_where shrink
    acquire has get
first_turn_accepted = refl

turn_exclusive_example :
    (post_turn
      (run (post_turn test_server "a" test_body (some test_session) none none 5).0 (
        posts_turn "b" test_body none none none 6
        ∷ begins_thread_turn "a" (some "q") none 6
        ∷ lists_thread (record test_thread { id = "b" }) 7
        ∷ broadcasts (cancelled_message "b" 8)
        ∷ []))
      "a"
      full_access_body
      none
      (some test_thread)
      (some "/w")
      9).1
    ≢ turn_accepted
unfolding released_by
turn_exclusive_example =
    turn_exclusive test_server "a" test_body (some test_session) none none 5
      (posts_turn "b" test_body none none none 6
        ∷ begins_thread_turn "a" (some "q") none 6
        ∷ lists_thread (record test_thread { id = "b" }) 7
        ∷ broadcasts (cancelled_message "b" 8)
        ∷ [])
      full_access_body none (some test_thread) (some "/w") 9 first_turn_accepted
      (refl, refl, (refl, refl, (refl, refl, (refl, refl, tt))))

abbrev test_run : Run
test_run = record { session_id = "a"; generation = 1; stage = starting_turn }

interrupted_run_silent_example :
    let t =
      run
        (settle_interrupted_session test_server "a" test_session 6)
        (posts_turn "a" test_body (some test_session) none none 7 ∷ []) in
    ((continue_run t test_run (answers (some "turn")) 8).1 ≡ none)
    × Untouched t (continue_run t test_run (answers (some "turn")) 8).0
    × ((continue_run t test_run (answers (some "turn")) 8).0.interrupts
        ≡ t.interrupts ++ ("a", "turn") ∷ [])
unfolding is_current get
interrupted_run_silent_example =
    interrupted_run_silent test_server test_run test_session 6
      (posts_turn "a" test_body (some test_session) none none 7 ∷ []) (answers (some "turn")) 8 refl

needs_confirmation_refused :
    (post_turn test_server "a" full_access_body (some test_session) none none 5).1
    ≡ full_access_confirmation_required
unfolding post_turn
needs_confirmation_refused = refl

post_turn-Refused_example :
    Refused test_server
      (post_turn test_server "a" full_access_body (some test_session) none none 5).0
post_turn-Refused_example =
    post_turn-Refused test_server "a" full_access_body (some test_session) none none 5
      (λ h. let e = needs_confirmation_refused in cc)

start_run-forgets_example :
    has_client_request
      (start_run test_server "a" test_body
        (record {
          persisted = some test_session;
          session = persisted_session test_session confirm 5;
          policy = confirm;
        })
        5).0.store
      "a"
      "r2"
    ≡ false
start_run-forgets_example =
    start_run-forgets test_server "a" test_body test_session confirm 5 "r2" "r1" ("r1" ∷ []) refl
      refl refl refl refl

abbrev test_create : CreateBody
test_create = record {
  prompt = "go";
  client_request_id = none;
  expires_at = none;
  title = none;
  session_policy_mode = confirm;
  confirm_full_access = none;
}

abbrev test_response : Json
test_response = fields (member "threadId" (text "n") no_members)

new_session_created :
    (take_thread test_server test_create "/w" 5 (responds test_response)).1 ≡ session_created "n"
unfolding take_thread acquire has get lookup
new_session_created = refl

take_thread-released_example :
    has
      (take_thread test_server test_create "/w" 5 (responds test_response)).0.gate.active_sessions
      "n"
    ≡ false
take_thread-released_example =
    take_thread-released test_server "n" test_create "/w" 5 test_response new_session_created
