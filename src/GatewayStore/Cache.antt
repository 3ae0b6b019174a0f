-- ===== src/GatewayStore/Cache.antt =====
-- gatewayStore.ts, the cache of timelines: at most 64 sessions, the least recently used first, and at
-- most 512 entries of each.
pub mod Bounds
use code_harbor.Common.{
  Bool, List, Option, String, if◌then◌else◌, last_n, length, ltb, nat_eq, none, some, string_eq, ℕ,
  ◌&&◌, ◌==◌,
}
use code_harbor.Common.JsMap.{delete, get, set, shrink}
use code_harbor.GatewayStore.State.{Store}
use code_harbor.GatewayStore.Types.{CachedEvents, SessionTimelineEntry}

abbrev pub event_cache_max_sessions : ℕ
event_cache_max_sessions = 64

abbrev pub event_cache_max_entries : ℕ
event_cache_max_entries = 512

-- A hit moves the session to the end of the map.
unfoldable pub get_cached_events : Store → String → Store × Option CachedEvents
get_cached_events st id = elim (get st.event_cache id) [
  | none ↦ (st, none)
  | some cached ↦
      (record st { event_cache = set (delete st.event_cache id) id cached }, some cached)
]

unfoldable pub bounded_entries : List SessionTimelineEntry → List SessionTimelineEntry
bounded_entries entries =
    if ltb event_cache_max_entries (length entries)
    then last_n event_cache_max_entries entries
    else entries

unfoldable pub cache_events : Store → String → List SessionTimelineEntry → Bool → Store
cache_events st id entries complete =
    let bounded = bounded_entries entries in
    let cached : CachedEvents = record {
      entries = bounded;
      complete = complete && length bounded == length entries;
    } in
    record st {
      event_cache = shrink event_cache_max_sessions (set (delete st.event_cache id) id cached);
    }
