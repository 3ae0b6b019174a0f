-- ===== src/WebClient/Loads.antt =====
-- useCodeHarbor.ts, loadSessionEvents and the handler `onopen`. `fetch` gives the parsed answer to a
-- request of the events behind a cursor, or nothing where the request fails.
use code_harbor.Common.{
  Bool, List, Option, String, [], false, if◌then◌else◌, keep, last_n, leb, ltb, nat_eq, none, not,
  or_else, some, string_eq, suc, true, truthy, zero, ℕ, ◌&&◌, ◌++◌, ◌-◌, ◌==◌, ◌||◌, ◌∷◌,
}
use code_harbor.Common.JsMap.{delete, get}
use code_harbor.Common.Json.{
  Json, array, as_array, boolean, field, fields, null, number, other_number, text, text_field,
}
use code_harbor.WebClient.Fields.{as_number, is_text}
use code_harbor.WebClient.State.{Recovery, WebClient, is_safe, save_cursor, schedule_gap_recovery}

abbrev larger : ℕ → ℕ → ℕ
larger a b = if leb a b then b else a

abbrev pub seq_of : Json → ℕ
seq_of event = or_else (as_number (field event "eventSeq")) 0

-- `Math.max(n, ...events.map(...))`
abbrev pub max_seq : ℕ → List Json → ℕ
max_seq n [] = n
max_seq n (event ∷ events) = max_seq (larger n (seq_of event)) events

-- `value === true`
abbrev is_true : Option Json → Bool
is_true (some (boolean b)) = b
is_true none = false
is_true (some null) = false
is_true (some (number n)) = false
is_true (some (other_number t)) = false
is_true (some (text t)) = false
is_true (some (array js)) = false
is_true (some (fields ms)) = false

-- A history that has lost its beginning is read from the first number that it still has.
abbrev skip_to : ℕ → Option ℕ → ℕ
skip_to after none = after
skip_to after (some from) =
    if is_safe from && not (from == 0) then larger after (from - 1) else after

abbrev behind_gap : ℕ → Json → ℕ
behind_gap after page =
    if is_true (field page "historyGap")
    then skip_to after (as_number (field page "availableFrom"))
    else after

abbrev page_events : Json → List Json
page_events page = or_else (as_array (field page "events")) []

abbrev pub next_cursor : ℕ → Json → ℕ
next_cursor after page =
    or_else (as_number (field page "nextCursor")) (max_seq after (page_events page))

abbrev pub is_empty : List Json → Bool
is_empty [] = true
is_empty (x ∷ xs) = false

abbrev pub goes_on : ℕ → Json → Bool
goes_on after page =
    is_true (field page "truncated")
    && ltb after (next_cursor after page)
    && not (is_empty (page_events page))

module _ (fetch : ℕ → Option Json) where
  -- The pages from `after` on, on fuel: the loop stops after 100 pages.
  unfoldable more_pages : ℕ → ℕ → List Json
  more_pages zero after = []
  more_pages (suc fuel) after = elim (fetch after) [
    | none ↦ []
    | some page ↦
        let after' = behind_gap after page in
        let rest = more_pages fuel (next_cursor after' page) in
        if goes_on after' page then page_events page ++ rest else page_events page
  ]

  -- Nothing, where the first request fails.
  unfoldable collect_events : Option (List Json)
  unfolding more_pages
  collect_events = elim (fetch 0) [ none ↦ none | some page ↦ some (more_pages 100 0) ]

abbrev is_of_other : String → Json → Bool
is_of_other id event = not (is_text (text_field event "sessionId") id)

abbrev pub record_history : WebClient → String → List Json → WebClient
record_history c id events = record c {
  raw_events =
      if is_empty events
      then c.raw_events
      else last_n 500 (keep (is_of_other id) c.raw_events ++ events);
  turn_events = events;
}

unfoldable pub show_history : WebClient → String → List Json → WebClient
unfolding save_cursor
show_history c id events = save_cursor (record_history c id events) id (max_seq 0 events)

-- After a load: the gap is closed, given up, or to be tried again.
unfoldable pub settle_gap : WebClient → String → ℕ → Option Recovery → WebClient
unfolding schedule_gap_recovery
settle_gap c id reached none = c
settle_gap c id reached (some recovery) =
    if leb recovery.expected_seq reached || leb 5 recovery.attempt
    then record c {
      timers = if recovery.timer == 0 then c.timers else delete c.timers recovery.timer;
      gaps = delete c.gaps id;
    }
    else schedule_gap_recovery c id recovery.expected_seq

-- A load that was started at `revision` ends. What came live in the meantime, or another choice of
-- the session, makes it void.
unfoldable pub load_ends : WebClient → String → ℕ → Option (List Json) → WebClient
unfolding show_history settle_gap
load_ends c id revision result =
    if not (c.selected_session_id == id) || not (c.live_revision == revision)
    then c
    else elim result [
      | none ↦ record c { turn_events = [] }
      | some events ↦
          let c' = show_history c id events in settle_gap c' id (max_seq 0 events) (get c'.gaps id)
    ]

-- `onopen`, without the subscription, the list of the models and the heartbeat.
unfoldable pub socket_opens : WebClient → WebClient
socket_opens c = record c {
  socket_open = true;
  resume_attempts = 0;
  sent_resumes = elim c.cursors [ [] ↦ c.sent_resumes | _ ↦ c.sent_resumes ++ c.cursors ∷ [] ];
  loads = if truthy c.selected_session_id then c.loads ++ c.selected_session_id ∷ [] else c.loads;
}
