-- ===== src/WebClient/Tests.antt =====
-- The web client at concrete inputs.
use code_harbor.Common.{
  List, Option, String, [], arith, false, if◌then◌else◌, length, nat_eq, none, refl, some,
  string_eq, true, ℕ, ◌+◌, ◌==◌, ◌∷◌, ◌≡◌, ◌≤◌,
}
use code_harbor.Common.JsMap.{get, has, set}
use code_harbor.Common.Json.{Json, boolean, field, fields, lookup, member, no_members, number, text}
use code_harbor.WebClient.Histories.{Step, run, says, step}
use code_harbor.WebClient.Histories.Attempts.{run-asks_at_most}
use code_harbor.WebClient.Histories.Log.{InOrder, shown, shown-InOrder}
use code_harbor.WebClient.Histories.Order.{rests, shows}
use code_harbor.WebClient.Histories.Retries.{load_ends_short, retries}
use code_harbor.WebClient.Loads.{load_ends}
use code_harbor.WebClient.Messages.{
  dispatch, note_key, on_message, record_event, resume_again, resume_complete, show_event,
  take_next, take_numbered,
}
use code_harbor.WebClient.SessionList.{update_sessions}
use code_harbor.WebClient.State.{
  Recovery, WebClient, keep_newest, save_cursor, schedule_gap_recovery, schedule_over,
  set_gap_timer, store_cursors,
}

abbrev one_mark : ℕ → String
one_mark n = if n == 2 then "2" else "?"

abbrev no_body : String → Option Json
no_body body = none

abbrev new_client : WebClient
new_client = record {
  cursors = ("a", 1) ∷ [];
  stored_cursors = [];
  storage_fails = false;
  gaps = [];
  timers = [];
  next_timer = 1;
  seen_event_keys = [];
  live_revision = 0;
  raw_events = [];
  sessions = [];
  selected_session_id = "a";
  turn_events = [];
  resume_attempts = 0;
  socket_open = true;
  pending_requests = [];
  settled = [];
  sent_resumes = [];
  loads = [];
}

abbrev event : ℕ → Json
event seq = fields (member "sessionId" (text "a") (member "eventSeq" (number seq) no_members))

abbrev two_events : List Step
two_events = says (some (event 4)) ∷ says (some (event 2)) ∷ []

shown_two : shown one_mark no_body "a" new_client two_events ≡ (rests, 1) ∷ (shows 2, 2) ∷ []
unfolding shown run step on_message dispatch take_numbered take_next show_event record_event
    note_key update_sessions save_cursor store_cursors keep_newest get set has field lookup
    schedule_gap_recovery schedule_over set_gap_timer
shown_two = refl

shown-InOrder_example : InOrder 1 (shown one_mark no_body "a" new_client two_events)
unfolding step on_message dispatch take_numbered take_next show_event record_event note_key
    update_sessions save_cursor store_cursors keep_newest get set has field lookup
    schedule_gap_recovery schedule_over set_gap_timer
shown-InOrder_example =
    shown-InOrder one_mark no_body "a" new_client two_events
      (omega arith, refl, (omega arith, refl, tt))

abbrev short_gap : Recovery
short_gap = record { expected_seq = 4; attempt = 1; timer = 0 }

abbrev waiting_client : WebClient
waiting_client = record new_client { gaps = ("a", short_gap) ∷ [] }

load_ends_short_example :
    retries (load_ends waiting_client "a" 0 (some (event 2 ∷ []))) ≡ retries waiting_client
unfolding get field lookup
load_ends_short_example =
    load_ends_short waiting_client "a" (event 2 ∷ []) short_gap refl refl (λ e. omega arith)
      (omega arith) (omega arith)

abbrev cut_off : Json
cut_off = fields (
    member "type" (text "resume-complete") (
      member "payload"
        (fields (
          member "truncated" (boolean true)
            (member "cursors" (fields (member "a" (number 5) no_members)) no_members)))
        no_members))

abbrev cut_twice : List Step
cut_twice = says (some cut_off) ∷ says (some cut_off) ∷ []

asked_once : length (run one_mark no_body new_client cut_twice).sent_resumes ≡ 1
unfolding run step on_message dispatch resume_complete resume_again save_cursor store_cursors
    keep_newest get set field lookup
asked_once = refl

run-asks_at_most_example : length (run one_mark no_body new_client cut_twice).sent_resumes + 0 ≤ 10
run-asks_at_most_example =
    run-asks_at_most one_mark no_body new_client cut_twice (omega arith) (refl, (refl, tt))

-- An echo of a row that is shown moves the cursor and adds nothing.
abbrev echo : Json
echo = fields (
    member "sessionId" (text "a") (
      member "eventSeq" (number 2)
        (member "payload" (fields (member "clientRequestId" (text "r") no_members)) no_members)))

abbrev shown_client : WebClient
shown_client = record new_client { seen_event_keys = ("request:r", tt) ∷ [] }

echo_test :
    on_message one_mark no_body shown_client (some echo)
    ≡ record shown_client { cursors = ("a", 2) ∷ []; stored_cursors = ("a", 2) ∷ [] }
unfolding on_message dispatch take_numbered take_next save_cursor store_cursors keep_newest get set
    has field lookup
echo_test = refl
