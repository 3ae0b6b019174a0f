-- ===== src/GatewayStore/Timeline.antt =====
-- gatewayStore.ts, what the events file of a session says, and how it is joined with the cache.
pub mod Order
use code_harbor.Common.{
  Bool, List, String, [], false, if◌then◌else◌, keep, ltb, map, nat_eq, none, or_else, some,
  string_eq, true, ℕ, ◌+◌, ◌==◌, ◌∷◌,
}
use code_harbor.Common.JsMap.{JsMap, get, set}
use code_harbor.GatewayStore.State.{Store}
use code_harbor.GatewayStore.Types.{Line, SessionTimelineEntry, corrupt, entry, null_line, seq_of}

-- The lines that parse and belong to the session, each with a number above the one before: its own, if
-- that is above, and else the next.
unfoldable pub number_entries : ℕ → List SessionTimelineEntry → List SessionTimelineEntry
number_entries fallback [] = []
number_entries fallback (e ∷ es) =
    let explicit = or_else e.message.event_seq 0 in
    let seq = if ltb fallback explicit then explicit else fallback + 1 in
    record { message = record (e.message) { event_seq = some seq } } ∷ number_entries seq es

abbrev pub belongs : String → SessionTimelineEntry → Bool
belongs id e = elim e.message.session_id [ none ↦ false | some owner ↦ owner == id ]

unfoldable pub parse_lines : List Line → List SessionTimelineEntry
parse_lines [] = []
parse_lines (corrupt ∷ ls) = parse_lines ls
parse_lines (null_line ∷ ls) = parse_lines ls
parse_lines (entry e ∷ ls) = e ∷ parse_lines ls

abbrev pub has_null : List Line → Bool
has_null [] = false
has_null (null_line ∷ ls) = true
has_null (corrupt ∷ ls) = has_null ls
has_null (entry e ∷ ls) = has_null ls

-- The test of `entry.message` throws on a line that says `null`, and then nothing is read.
unfoldable pub read_lines : String → List Line → List SessionTimelineEntry
unfolding parse_lines
read_lines id ls = if has_null ls then [] else number_entries 0 (keep (belongs id) (parse_lines ls))

-- A file that is not there reads as no lines.
unfoldable pub read_events_from_disk : Store → String → List SessionTimelineEntry
unfolding read_lines
read_events_from_disk st id = read_lines id (or_else (get st.event_files id) [])

-- `bySequence.set(eventSeq, entry)` for each entry that has a number
unfoldable pub index_entries :
    JsMap ℕ SessionTimelineEntry → List SessionTimelineEntry → JsMap ℕ SessionTimelineEntry
index_entries m [] = m
index_entries m (e ∷ es) =
    index_entries (elim e.message.event_seq [ none ↦ m | some seq ↦ set m seq e ]) es

insert_entry : SessionTimelineEntry → List SessionTimelineEntry → List SessionTimelineEntry
insert_entry e [] = e ∷ []
insert_entry e (f ∷ fs) =
    let rest = insert_entry e fs in if ltb (seq_of e) (seq_of f) then e ∷ f ∷ fs else f ∷ rest

sort_entries : List SessionTimelineEntry → List SessionTimelineEntry → List SessionTimelineEntry
sort_entries sorted [] = sorted
sort_entries sorted (e ∷ es) = sort_entries (insert_entry e sorted) es

-- An entry of the cache takes the place of the one with its number.
unfoldable pub merge_events :
    List SessionTimelineEntry → List SessionTimelineEntry → List SessionTimelineEntry
unfolding index_entries sort_entries insert_entry
merge_events disk [] = disk
merge_events disk (c ∷ cs) =
    sort_entries [] (map (λ e. e.1) (index_entries (index_entries [] disk) (c ∷ cs)))
