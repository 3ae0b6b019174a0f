-- ===== src/GatewayStore/Events.antt =====
-- gatewayStore.ts, the timelines: appending, listing, paging, and the queue of writes.
pub mod Latest
pub mod Sequence
pub mod Bounds
pub mod Reading
pub mod Paging
pub mod Stale
use code_harbor.Common.{
  Bool, List, Option, String, [], get_last?, if◌then◌else◌, keep, leb, length, ltb, map, nat_eq,
  none, not, or_else, some, string_eq, take, true, truthy, ℕ, ◌&&◌, ◌++◌, ◌+◌, ◌==◌, ◌∷◌,
}
use code_harbor.Common.JsMap.{JsMap, delete, get, has, set}
use code_harbor.GatewayStore.Cache.{cache_events, get_cached_events}
use code_harbor.GatewayStore.State.{Store}
use code_harbor.GatewayStore.Timeline.{merge_events, read_events_from_disk}
use code_harbor.GatewayStore.Types.{
  CachedEvents, GatewayMessage, GatewaySession, Line, SessionTimelineEntry, Task, entry,
  removes_file, seq_of, writes_line,
}

-- `Number.MAX_SAFE_INTEGER`
abbrev pub max_safe_integer : ℕ
max_safe_integer = 9_007_199_254_740_991

abbrev pub last_seq : List SessionTimelineEntry → Option ℕ
last_seq entries = elim (get_last? entries) [ none ↦ none | some e ↦ e.message.event_seq ]

-- `if (latest) this.latestSeqBySession.set(sessionId, latest)`
abbrev pub note_latest : Store → String → Option ℕ → Store
note_latest st id none = st
note_latest st id (some latest) =
    if latest == 0
    then st
    else record st { latest_seq_by_session = set st.latest_seq_by_session id latest }

-- The entries that `listEvents` returns.
unfoldable pub listed : Store → String → Option CachedEvents → List SessionTimelineEntry
listed st id none = merge_events (read_events_from_disk st id) []
listed st id (some cached) =
    if cached.complete
    then cached.entries
    else merge_events (read_events_from_disk st id) cached.entries

abbrev pub completeness : Option CachedEvents → Bool
completeness none = true
completeness (some cached) = cached.complete

unfoldable pub list_events : Store → String → Store × List SessionTimelineEntry
list_events st id =
    let (st₁, cached) = get_cached_events st id in
    let entries = listed st₁ id cached in
    let st₂ = cache_events st₁ id entries (completeness cached) in
    (note_latest st₂ id (last_seq entries), entries)

-- `this.latestSeqBySession.get(id) ?? this.listEvents(id).at(-1)?.message.eventSeq`
unfoldable pub latest_seq : Store → String → Store × Option ℕ
latest_seq st id = elim (get st.latest_seq_by_session id) [
  | some latest ↦ (st, some latest)
  | none ↦ let (st', entries) = list_events st id in (st', last_seq entries)
]

unfoldable pub next_event_seq : Store → String → Store × ℕ
next_event_seq st id = let (st', current) = latest_seq st id in (st', or_else current 0 + 1)

-- The number that a new event gets: its own, if that is safe and above the current one.
unfoldable pub assign_seq : Option ℕ → ℕ → ℕ
assign_seq none current = current + 1
assign_seq (some supplied) current =
    if leb supplied max_safe_integer && ltb current supplied then supplied else current + 1

unfoldable pub queue_task : Store → String → Task → Store
queue_task st id task = record st {
  event_write_chains =
      set st.event_write_chains id (or_else (get st.event_write_chains id) [] ++ task ∷ []);
}

unfoldable pub queue_event_write : Store → String → Line → Store
unfolding queue_task
queue_event_write st id line = queue_task st id (writes_line line)

-- A line reaches the file, or its write fails and is noted; a removal takes the file away.
unfoldable pub do_task : Store → String → Task → Store
do_task st id (writes_line line) =
    if st.disk_ok
    then record st {
      event_files = set st.event_files id (or_else (get st.event_files id) [] ++ line ∷ []);
    }
    else record st { event_write_errors = set st.event_write_errors id tt }
do_task st id removes_file = record st { event_files = delete st.event_files id }

-- The first task of the chain of a session comes to its end.
unfoldable pub write_done : Store → String → Store
unfolding do_task
write_done st id = elim (get st.event_write_chains id) [
  | none ↦ st
  | some [] ↦ record st { event_write_chains = delete st.event_write_chains id }
  | some (task ∷ []) ↦
      do_task (record st { event_write_chains = delete st.event_write_chains id }) id task
  | some (task ∷ next ∷ rest) ↦
      do_task (record st { event_write_chains = set st.event_write_chains id (next ∷ rest) }) id
        task
]

-- `cached ? [...cached.entries, entry] : [...this.readEventsFromDisk(id), entry]`
abbrev pub extended :
    Store → String → Option CachedEvents → SessionTimelineEntry → List SessionTimelineEntry
extended st id none e = read_events_from_disk st id ++ e ∷ []
extended st id (some cached) e = cached.entries ++ e ∷ []

-- The body of `appendEvent` behind its guard.
unfoldable pub append_to : Store → String → GatewayMessage → Store × GatewayMessage
append_to st id message =
    let (st₁, current) = latest_seq st id in
    let seq = assign_seq message.event_seq (or_else current 0) in
    let persisted = record message { event_seq = some seq } in
    let e : SessionTimelineEntry = record { message = persisted } in
    let (st₂, cached) = get_cached_events st₁ id in
    let entries = extended st₂ id cached e in
    let st₃ = cache_events st₂ id entries (completeness cached) in
    let st₄ = queue_event_write st₃ id (entry e) in
    (record st₄ { latest_seq_by_session = set st₄.latest_seq_by_session id seq }, persisted)

-- The guard of `appendEvent`, on the `sessionId` of the message.
unfoldable pub append_owned : Store → GatewayMessage → Option String → Store × Option GatewayMessage
append_owned st message none = (st, none)
append_owned st message (some id) =
    if truthy id && not (has st.deleted_sessions id)
    then (let (st', persisted) = append_to st id message in (st', some persisted))
    else (st, none)

-- An event with no session, or of a deleted one, is dropped.
unfoldable pub append_event : Store → GatewayMessage → Store × Option GatewayMessage
unfolding append_owned
append_event st message = append_owned st message message.session_id

abbrev pub after_cursor : ℕ → List SessionTimelineEntry → List SessionTimelineEntry
after_cursor cursor = keep (λ e. ltb cursor (seq_of e))

unfoldable pub list_events_after : Store → String → ℕ → Store × List SessionTimelineEntry
list_events_after st id cursor =
    let (st', entries) = list_events st id in (st', after_cursor cursor entries)

-- `Math.max(1, Math.min(5_000, Math.floor(limit) || 1))`
abbrev pub safe_limit : ℕ → ℕ
safe_limit limit = if limit == 0 then 1 else if ltb 5_000 limit then 5_000 else limit

pub record Page : Type 0 where
  pub entries : List SessionTimelineEntry
  pub next_cursor : ℕ
  pub truncated : Bool

unfoldable pub page_of : List SessionTimelineEntry → ℕ → ℕ → Page
page_of entries cursor limit =
    let truncated = ltb (safe_limit limit) (length entries) in
    let page = if truncated then take (safe_limit limit) entries else entries in
    record { entries = page; next_cursor = or_else (last_seq page) cursor; truncated = truncated }

unfoldable pub list_events_after_limited : Store → String → ℕ → ℕ → Store × Page
unfolding page_of
list_events_after_limited st id cursor limit =
    let (st', entries) = list_events_after st id cursor in (st', page_of entries cursor limit)

-- The loop of `latestCursors` over the sessions; a latest number of 0 is left out.
unfoldable pub collect_cursors :
    Store → List GatewaySession → JsMap String ℕ → Store × JsMap String ℕ
collect_cursors st [] cursors = (st, cursors)
collect_cursors st (s ∷ ss) cursors =
    let (st', last) = latest_seq st s.id in
    collect_cursors st' ss
      (elim last [ none ↦ cursors | some n ↦ if n == 0 then cursors else set cursors s.id n ])

unfoldable pub latest_cursors : Store → Store × JsMap String ℕ
unfolding collect_cursors
latest_cursors st = collect_cursors st (map (λ e. e.1) st.sessions) []

-- Whether the events file exists.
unfoldable pub has_events : Store → String → Bool
has_events st id = has st.event_files id

unfoldable pub take_event_write_errors : Store → Store × List String
take_event_write_errors st =
    (record st { event_write_errors = [] }, map (λ e. e.0) st.event_write_errors)

-- A call on the timelines, or a queued write that comes to its end.
pub data EventCall : Type 0 where
  appends : GatewayMessage → EventCall
  lists : String → EventCall
  pages : String → ℕ → ℕ → EventCall
  cursors : EventCall
  writes : String → EventCall

unfoldable pub event_step : Store → EventCall → Store
event_step st (appends message) = (append_event st message).0
event_step st (lists id) = (list_events st id).0
event_step st (pages id cursor limit) = (list_events_after_limited st id cursor limit).0
event_step st cursors = (latest_cursors st).0
event_step st (writes id) = write_done st id

unfoldable pub event_run : Store → List EventCall → Store
event_run st [] = st
event_run st (c ∷ cs) = event_run (event_step st c) cs
