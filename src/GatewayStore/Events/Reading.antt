-- ===== src/GatewayStore/Events/Reading.antt =====
-- What a listing shows after an event was appended.
use code_harbor.Common.{
  ==_refl, List, Option-cases, String, [], ap, arith, inl, inr, length, length-append, nat_eq, none,
  refl, some, string_eq, true, ℕ, ◌&&◌, ◌++◌, ◌<◌, ◌==◌, ◌∙◌, ◌∷◌, ◌≡◌, ◌≤◌,
}
use code_harbor.Common.JsMap.{get}
use code_harbor.GatewayStore.Cache.{bounded_entries, event_cache_max_entries, get_cached_events}
use code_harbor.GatewayStore.Cache.Bounds.{IsBounded, get-cache_events, get_cached_events-IsBounded}
use code_harbor.GatewayStore.Events.{
  append_to, assign_seq, completeness, extended, latest_seq, list_events, listed, queue_event_write,
}
use code_harbor.GatewayStore.State.{Store}
use code_harbor.GatewayStore.Timeline.{merge_events, read_events_from_disk}
use code_harbor.GatewayStore.Types.{CachedEvents, GatewayMessage, SessionTimelineEntry}

cached-disk :
    (st : Store) (id : String)
    → read_events_from_disk (get_cached_events st id).0 id ≡ read_events_from_disk st id
unfolding get_cached_events read_events_from_disk
cached-disk st id = ground arith

cached-result : (st : Store) (id : String) → (get_cached_events st id).1 ≡ get st.event_cache id
unfolding get_cached_events
cached-result st id = ground arith

-- The timeline of a session as a listing shows it.
abbrev pub shown : Store → String → List SessionTimelineEntry
shown st id = (list_events st id).1

-- The cache has the whole timeline of the session, or nothing of it.
abbrev pub IsWhole : Store → String → Type 0
IsWhole st id = completeness (get st.event_cache id) ≡ true

shown_of_cached :
    (st : Store) (id : String) (cached : CachedEvents)
    → get st.event_cache id ≡ some cached
    → cached.complete ≡ true
    → shown st id ≡ cached.entries
unfolding list_events listed
shown_of_cached st id cached hit whole = ground (arith, cached-result st id)

pub shown_of_absent :
    (st : Store) (id : String)
    → get st.event_cache id ≡ none
    → shown st id ≡ read_events_from_disk st id
unfolding list_events listed merge_events
shown_of_absent st id miss = ground (arith, cached-result st id, cached-disk st id)

-- The entries that `appendEvent` caches: those shown before, and the new one.
entries_after :
    (st : Store) (id : String) (e : SessionTimelineEntry)
    → IsWhole st id
    → extended (get_cached_events st id).0 id (get_cached_events st id).1 e ≡ shown st id ++ e ∷ []
entries_after st id e whole = elim (Option-cases (get st.event_cache id)) [
  | inl miss ↦ ground (arith, cached-result st id, cached-disk st id, shown_of_absent st id miss)
  | inr (cached, hit) ↦ ground (arith, cached-result st id, shown_of_cached st id cached hit)
]

pub latest_seq_known :
    (st : Store) (id : String) (latest : ℕ)
    → get st.latest_seq_by_session id ≡ some latest
    → latest_seq st id ≡ (st, some latest)
unfolding latest_seq
latest_seq_known st id latest known = rw (known, latest_seq)

bounded_short :
    (entries : List SessionTimelineEntry)
    → length entries ≤ event_cache_max_entries
    → bounded_entries entries ≡ entries
unfolding bounded_entries
bounded_short entries h = ground arith

-- What `appendEvent` leaves in the cache, where the latest number is known.
get-append_to :
    (st : Store) (id : String) (message : GatewayMessage) (latest : ℕ)
    → IsBounded st.event_cache
    → get st.latest_seq_by_session id ≡ some latest
    → let e : SessionTimelineEntry = record { message = (append_to st id message).1 } in
      let (st₂, cached) = get_cached_events st id in
      let entries = extended st₂ id cached e in
      get (append_to st id message).0.event_cache id
      ≡ some (record {
        entries = bounded_entries entries;
        complete = completeness cached && length (bounded_entries entries) == length entries;
      })
unfolding append_to queue_event_write
get-append_to st id message latest b known =
    let e : SessionTimelineEntry = record {
      message = record message { event_seq = some (assign_seq message.event_seq latest) };
    } in
    let (st₂, cached) = get_cached_events st id in
    rw (latest_seq_known st id latest known) (
      get-cache_events st₂ id (extended st₂ id cached e) (completeness cached)
        (get_cached_events-IsBounded st id b))

-- An event is shown at once behind all that was shown before, though its line may still be queued: for a
-- session with a latest number, of whose timeline the cache holds all or nothing and at most 511
-- entries are shown.
shown-append_to :
    (st : Store) (id : String) (message : GatewayMessage) (latest : ℕ)
    → IsBounded st.event_cache
    → get st.latest_seq_by_session id ≡ some latest
    → IsWhole st id
    → length (shown st id) < event_cache_max_entries
    → shown (append_to st id message).0 id
      ≡ shown st id ++ record { message = (append_to st id message).1 } ∷ []
shown-append_to st id message latest b known whole short =
    let e : SessionTimelineEntry = record { message = (append_to st id message).1 } in
    let all = shown st id ++ e ∷ [] in
    let same = entries_after st id e whole in
    let fits : length all ≤ event_cache_max_entries =
      omega (arith, length-append (shown st id) (e ∷ [])) in
    let left = get-append_to st id message latest b known in
    shown_of_cached (append_to st id message).0 id (record { entries = all; complete = true })
      (left
        ∙ ap some (
            ground (
              arith,
              same,
              bounded_short all fits,
              cached-result st id,
              whole,
              ==_refl (length all),
            )))
      refl
