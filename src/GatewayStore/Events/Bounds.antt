-- ===== src/GatewayStore/Events/Bounds.antt =====
-- The cache in every history of calls on the timelines.
use code_harbor.Common.{
  List, Option, Option-cases, String, [], arith, inl, inr, map, nat_eq, none, refl, some, string_eq,
  ℕ, ◌∷◌, ◌≡◌,
}
use code_harbor.Common.JsMap.{JsMap, get}
use code_harbor.GatewayStore.Cache.{cache_events, get_cached_events}
use code_harbor.GatewayStore.Cache.Bounds.{
  IsBounded, cache_events-IsBounded, get_cached_events-IsBounded,
}
use code_harbor.GatewayStore.Events.{
  EventCall, append_event, append_to, appends, collect_cursors, completeness, cursors, do_task,
  event_run, event_step, last_seq, latest_cursors, latest_seq, list_events, list_events_after,
  list_events_after_limited, listed, lists, note_latest, pages, queue_event_write, write_done,
  writes,
}
use code_harbor.GatewayStore.Events.Sequence.{append_event_split}
use code_harbor.GatewayStore.State.{Store}
use code_harbor.GatewayStore.Types.{GatewayMessage, GatewaySession, Task, removes_file, writes_line}

note_latest-cache :
    (st : Store) (id : String) (o : Option ℕ) → (note_latest st id o).event_cache ≡ st.event_cache
note_latest-cache st id none = refl
note_latest-cache st id (some n) = ground arith

pub list_events-IsBounded :
    (st : Store) (id : String)
    → IsBounded st.event_cache
    → IsBounded (list_events st id).0.event_cache
unfolding list_events
list_events-IsBounded st id b =
    let (st₁, cached) = get_cached_events st id in
    let entries = listed st₁ id cached in
    let st₂ = cache_events st₁ id entries (completeness cached) in
    rw (note_latest-cache st₂ id (last_seq entries)) (
      cache_events-IsBounded st₁ id entries (completeness cached)
        (get_cached_events-IsBounded st id b))

pub latest_seq-IsBounded :
    (st : Store) (id : String)
    → IsBounded st.event_cache
    → IsBounded (latest_seq st id).0.event_cache
unfolding latest_seq
latest_seq-IsBounded st id b = elim (Option-cases (get st.latest_seq_by_session id)) [
  | inl none' ↦ rw (none', latest_seq) (list_events-IsBounded st id b)
  | inr (n, known) ↦ rw (known, latest_seq) b
]

append_to-IsBounded :
    (st : Store) (id : String) (message : GatewayMessage)
    → IsBounded st.event_cache
    → IsBounded (append_to st id message).0.event_cache
unfolding append_to queue_event_write
append_to-IsBounded st id message b =
    cache_events-IsBounded _ id _ _
      (get_cached_events-IsBounded (latest_seq st id).0 id (latest_seq-IsBounded st id b))

append_event-IsBounded :
    (st : Store) (message : GatewayMessage)
    → IsBounded st.event_cache
    → IsBounded (append_event st message).0.event_cache
append_event-IsBounded st message b = elim (append_event_split st message) [
  | inl dropped ↦ rw dropped b
  | inr (id, own, taken) ↦ rw taken (append_to-IsBounded st id message b)
]

collect_cursors-IsBounded :
    (st : Store) (ss : List GatewaySession) (m : JsMap String ℕ)
    → IsBounded st.event_cache
    → IsBounded (collect_cursors st ss m).0.event_cache
unfolding collect_cursors
collect_cursors-IsBounded st [] m b = b
collect_cursors-IsBounded st (s ∷ ss) m b =
    collect_cursors-IsBounded (latest_seq st s.id).0 ss _ (latest_seq-IsBounded st s.id b)

do_task-cache :
    (st : Store) (id : String) (task : Task) → (do_task st id task).event_cache ≡ st.event_cache
unfolding do_task
do_task-cache st id (writes_line line) = ground arith
do_task-cache st id removes_file = refl

write_done-cache : (st : Store) (id : String) → (write_done st id).event_cache ≡ st.event_cache
unfolding write_done
write_done-cache st id = ground arith

event_step-IsBounded :
    (st : Store) (c : EventCall)
    → IsBounded st.event_cache
    → IsBounded (event_step st c).event_cache
unfolding event_step list_events_after_limited list_events_after latest_cursors
event_step-IsBounded st (appends message) b = append_event-IsBounded st message b
event_step-IsBounded st (lists id) b = list_events-IsBounded st id b
event_step-IsBounded st (pages id cursor limit) b = list_events-IsBounded st id b
event_step-IsBounded st cursors b = collect_cursors-IsBounded st (map (λ e. e.1) st.sessions) [] b
event_step-IsBounded st (writes id) b = rw (write_done-cache st id) b

-- In every history of appends, listings, pages, cursors and ended writes the cache holds at most 64
-- sessions, each once, and at most 512 entries of each.
pub event_run-IsBounded :
    (st : Store) (cs : List EventCall)
    → IsBounded st.event_cache
    → IsBounded (event_run st cs).event_cache
unfolding event_run
event_run-IsBounded st [] b = b
event_run-IsBounded st (c ∷ cs) b =
    event_run-IsBounded (event_step st c) cs (event_step-IsBounded st c b)
