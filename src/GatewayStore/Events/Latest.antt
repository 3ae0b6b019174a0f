-- ===== src/GatewayStore/Events/Latest.antt =====
-- The latest number of a session that is not at hand, and what calls for other sessions leave of it.
use code_harbor.Common.{
  Bool, Bool-cases, List, Option, Option-cases, String, [], ap, arith, false, if◌then◌else◌, inl,
  inr, nat_eq, none, or_else, refl, some, string_eq, ℕ, ◌<◌, ◌==◌, ◌∙◌, ◌≡◌,
}
use code_harbor.Common.JsMap.{get, get-delete, get-set}
use code_harbor.Common.JsMap.Distinct.{get-shrink-none}
use code_harbor.GatewayStore.Cache.{cache_events, event_cache_max_sessions, get_cached_events}
use code_harbor.GatewayStore.Events.{
  append_to, assign_seq, completeness, last_seq, latest_seq, list_events, listed, note_latest,
  queue_event_write,
}
use code_harbor.GatewayStore.State.{Store}
use code_harbor.GatewayStore.Timeline.{merge_events, read_events_from_disk, read_lines}
use code_harbor.GatewayStore.Types.{GatewayMessage, SessionTimelineEntry}

-- The latest number of a session: the one that is at hand, and without one that of the last event in its
-- file.
abbrev pub latest_known : Store → String → ℕ
latest_known st id =
    or_else (get st.latest_seq_by_session id) (or_else (last_seq (read_events_from_disk st id)) 0)

-- A session with no latest number at hand has no cached events either.
abbrev pub IsCold : Store → String → Type 0
IsCold st id = get st.latest_seq_by_session id ≡ none → get st.event_cache id ≡ none

last_listed : (st : Store) (id : String) → (listed st id none) ≡ read_events_from_disk st id
unfolding listed merge_events
last_listed st id = refl

list_events-last :
    (st : Store) (id : String)
    → get st.event_cache id ≡ none
    → (list_events st id).1 ≡ read_events_from_disk st id
unfolding list_events get_cached_events
list_events-last st id cold = rw (cold, get_cached_events) (last_listed st id)

pub latest_seq-known :
    (st : Store) (id : String) → IsCold st id → or_else (latest_seq st id).1 0 ≡ latest_known st id
unfolding latest_seq
latest_seq-known st id cold = elim (Option-cases (get st.latest_seq_by_session id)) [
  | inl none' ↦ rw (none', latest_seq, list_events-last st id (cold none')) refl
  | inr (n, found) ↦ rw (found, latest_seq) refl
]

module _ (id : String) where
  cached-absent :
      (st : Store) (other : String)
      → get st.event_cache id ≡ none
      → get (get_cached_events st other).0.event_cache id ≡ none
  unfolding get_cached_events
  cached-absent st other h = elim (Option-cases (get st.event_cache other)) [
    | inl none' ↦ rw (none', get_cached_events) h
    | inr (cached, found) ↦
        let apart : (other == id) ≡ false = ground (arith, string_eq.beq_iff other id, h, found) in
        rw (found, get_cached_events, get-set, apart, get-delete, apart) h
  ]

  cache_events-absent :
      (st : Store) (other : String) (es : List SessionTimelineEntry) (complete : Bool)
      → (other == id) ≡ false
      → get st.event_cache id ≡ none
      → get (cache_events st other es complete).event_cache id ≡ none
  unfolding cache_events
  cache_events-absent st other es complete apart h =
      get-shrink-none event_cache_max_sessions _ id (rw (get-set, apart, get-delete, apart) h)

  note_latest-cache :
      (st : Store) (other : String) (o : Option ℕ)
      → (note_latest st other o).event_cache ≡ st.event_cache
  note_latest-cache st other none = refl
  note_latest-cache st other (some n) = ground arith

  latest_seq-absent :
      (st : Store) (other : String)
      → (other == id) ≡ false
      → get st.event_cache id ≡ none
      → get (latest_seq st other).0.event_cache id ≡ none
  unfolding latest_seq list_events
  latest_seq-absent st other apart h =
      let (st₁, cached) = get_cached_events st other in
      let entries = listed st₁ other cached in
      elim (Option-cases (get st.latest_seq_by_session other)) [
        | inr (n, found) ↦ rw (found, latest_seq) h
        | inl none' ↦
            rw
              (
                none',
                latest_seq,
                note_latest-cache (cache_events st₁ other entries (completeness cached)) other
                    (last_seq entries),
              )
              (cache_events-absent st₁ other entries (completeness cached) apart
                (cached-absent st other h))
      ]

  -- An event of another session leaves the cache of this one empty, and its file as it was.
  pub append_to-absent :
      (st : Store) (other : String) (message : GatewayMessage)
      → (other == id) ≡ false
      → get st.event_cache id ≡ none
      → get (append_to st other message).0.event_cache id ≡ none
  unfolding append_to queue_event_write
  append_to-absent st other message apart h =
      cache_events-absent _ other _ _ apart
        (cached-absent (latest_seq st other).0 other (latest_seq-absent st other apart h))

cached-files : (st : Store) (id : String) → (get_cached_events st id).0.event_files ≡ st.event_files
unfolding get_cached_events
cached-files st id = ground arith

note_latest-files :
    (st : Store) (id : String) (o : Option ℕ) → (note_latest st id o).event_files ≡ st.event_files
note_latest-files st id none = refl
note_latest-files st id (some n) = ground arith

latest_seq-files : (st : Store) (id : String) → (latest_seq st id).0.event_files ≡ st.event_files
unfolding latest_seq list_events cache_events get_cached_events
latest_seq-files st id =
    let (st₁, cached) = get_cached_events st id in
    let entries = listed st₁ id cached in
    elim (Option-cases (get st.latest_seq_by_session id)) [
      | inr (n, found) ↦ rw (found, latest_seq) refl
      | inl none' ↦
          rw
            (
              none',
              latest_seq,
              note_latest-files (cache_events st₁ id entries (completeness cached)) id
                  (last_seq entries),
            )
            (cached-files st id)
    ]

pub append_to-files :
    (st : Store) (id : String) (message : GatewayMessage)
    → (append_to st id message).0.event_files ≡ st.event_files
unfolding append_to queue_event_write cache_events
append_to-files st id message = cached-files (latest_seq st id).0 id ∙ latest_seq-files st id

pub append_to-read :
    (st : Store) (owner id : String) (message : GatewayMessage)
    → read_events_from_disk (append_to st owner message).0 id ≡ read_events_from_disk st id
unfolding read_events_from_disk
append_to-read st owner id message =
    ap (λ m. read_lines id (or_else (get m id) [])) (append_to-files st owner message)

pub assign_seq-lt : (supplied : Option ℕ) (current : ℕ) → current < assign_seq supplied current
unfolding assign_seq
assign_seq-lt none current = omega arith
assign_seq-lt (some supplied) current = ground arith

cached-latest :
    (st : Store) (id : String)
    → (get_cached_events st id).0.latest_seq_by_session ≡ st.latest_seq_by_session
unfolding get_cached_events
cached-latest st id = ground arith

-- Listing one session leaves the latest numbers of the others as they were.
list_events-latest_other :
    (st : Store) (id other : String)
    → (id == other) ≡ false
    → get (list_events st id).0.latest_seq_by_session other ≡ get st.latest_seq_by_session other
unfolding list_events cache_events
list_events-latest_other st id other ne =
    let (st₁, cached) = get_cached_events st id in
    let entries = listed st₁ id cached in
    let m = st₁.latest_seq_by_session in
    elim (Option-cases (last_seq entries)) [
      | inl e ↦ rw (e, cached-latest st id)
      | inr (n, e) ↦ elim (Bool-cases (n == 0)) [
        | inl z ↦ rw (e, z, cached-latest st id)
        | inr z ↦ rw (e, z, get-set, ne, cached-latest st id)
      ]
    ]

latest_seq-latest_other :
    (st : Store) (id other : String)
    → (id == other) ≡ false
    → get (latest_seq st id).0.latest_seq_by_session other ≡ get st.latest_seq_by_session other
unfolding latest_seq
latest_seq-latest_other st id other ne = ground (arith, list_events-latest_other st id other ne)

pub append_to-latest :
    (st : Store) (id other : String) (message : GatewayMessage)
    → get (append_to st id message).0.latest_seq_by_session other ≡ (
        if id == other
        then (append_to st id message).1.event_seq
        else get st.latest_seq_by_session other)
unfolding append_to cache_events queue_event_write
append_to-latest st id other message = elim (Bool-cases (id == other)) [
  | inl same ↦ rw (get-set, same)
  | inr ne ↦
      rw (get-set, ne, cached-latest (latest_seq st id).0 id)
        (latest_seq-latest_other st id other ne)
]
