-- ===== src/GatewayStore/Cache/Bounds.antt =====
-- The cache stays within its bounds, whatever is put into it.
use code_harbor.Common.{
  ==_refl, Bool, List, Option-cases, String, arith, inl, inr, length, length-last_n-le, nat_eq,
  some, string_eq, ◌&&◌, ◌==◌, ◌≡◌, ◌≤◌,
}
use code_harbor.Common.JsMap.{
  JsMap, delete, get, length-delete-lt, length-set-le, length-shrink-le, set,
}
use code_harbor.Common.JsMap.Distinct.{
  HasDistinctKeys, delete-HasDistinctKeys, get-shrink-set_new, has-delete, set-HasDistinctKeys,
  shrink-HasDistinctKeys,
}
use code_harbor.Common.JsMap.Every.{Every, Every-delete, Every-get, Every-set, Every-shrink}
use code_harbor.GatewayStore.Cache.{
  bounded_entries, cache_events, event_cache_max_entries, event_cache_max_sessions,
  get_cached_events,
}
use code_harbor.GatewayStore.State.{Store}
use code_harbor.GatewayStore.Types.{CachedEvents, SessionTimelineEntry}

pub record IsBounded (cache : JsMap String CachedEvents) : Type 0 where
  pub distinct : HasDistinctKeys cache
  pub few : length cache ≤ event_cache_max_sessions
  pub short : Every (λ id cached. length cached.entries ≤ event_cache_max_entries) cache

length-bounded_entries-le :
    (entries : List SessionTimelineEntry)
    → length (bounded_entries entries) ≤ event_cache_max_entries
unfolding bounded_entries
length-bounded_entries-le entries = ground (arith, length-last_n-le event_cache_max_entries entries)

-- Looking a session up leaves the other sessions and the number of them as they were.
pub get_cached_events-IsBounded :
    (st : Store) (id : String)
    → IsBounded st.event_cache
    → IsBounded (get_cached_events st id).0.event_cache
unfolding get_cached_events
get_cached_events-IsBounded st id b = elim (Option-cases (get st.event_cache id)) [
  | inl none' ↦ rw (none', get_cached_events) b
  | inr (cached, hit) ↦
      rw (hit, get_cached_events)
        (record {
          distinct =
              set-HasDistinctKeys _ id cached (delete-HasDistinctKeys st.event_cache id b.distinct);
          few = omega (
            arith,
            length-set-le (delete st.event_cache id) id cached,
            length-delete-lt st.event_cache id cached hit,
            b.few,
          );
          short =
              Every-set _ (delete st.event_cache id) id cached
                (Every-delete _ st.event_cache id b.short)
                (Every-get _ st.event_cache id cached b.short hit);
        })
]

pub cache_events-IsBounded :
    (st : Store) (id : String) (entries : List SessionTimelineEntry) (complete : Bool)
    → IsBounded st.event_cache
    → IsBounded (cache_events st id entries complete).event_cache
unfolding cache_events
cache_events-IsBounded st id entries complete b =
    let cached : CachedEvents = record {
      entries = bounded_entries entries;
      complete = complete && length (bounded_entries entries) == length entries;
    } in
    let m = set (delete st.event_cache id) id cached in
    record {
      distinct =
          shrink-HasDistinctKeys event_cache_max_sessions m
            (set-HasDistinctKeys _ id cached (delete-HasDistinctKeys st.event_cache id b.distinct));
      few = length-shrink-le event_cache_max_sessions m;
      short = Every-shrink _ event_cache_max_sessions m (
          Every-set _ (delete st.event_cache id) id cached
            (Every-delete _ st.event_cache id b.short) (length-bounded_entries-le entries));
    }

-- The session that was put in last is there, with all entries if they are at most 512.
pub get-cache_events :
    (st : Store) (id : String) (entries : List SessionTimelineEntry) (complete : Bool)
    → IsBounded st.event_cache
    → get (cache_events st id entries complete).event_cache id
      ≡ some (record {
        entries = bounded_entries entries;
        complete = complete && length (bounded_entries entries) == length entries;
      })
unfolding cache_events
get-cache_events st id entries complete b =
    get-shrink-set_new event_cache_max_sessions (delete st.event_cache id) id _
      (delete-HasDistinctKeys st.event_cache id b.distinct) (rw (has-delete, ==_refl id))
      (omega arith)
