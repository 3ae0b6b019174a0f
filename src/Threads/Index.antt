-- ===== src/Threads/Index.antt =====
-- threads.ts, the listing of threads by the session index, and the pages. The metadata of a thread come
-- from its rollout file, which is a parameter, as are `Date.parse`, which gives `none` for a text that is
-- no date, and the order of ids that `localeCompare` gives.
pub mod Pages
use code_harbor.Common.{
  Bool, List, Option, String, [], false, get_last?, if◌then◌else◌, keep, length, ltb, nat_eq, none,
  or_else, some, string_eq, take, truthy, ℕ, ◌==◌, ◌||◌, ◌∷◌,
}
use code_harbor.Common.Json.{Json, text_field}

pub record ThreadSummary : Type 0 where
  pub id : String
  pub title : String
  pub cwd : String
  pub preview : String
  pub model : Option String
  pub model_provider : String
  pub source : String
  pub status : String
  pub created_at_ms : ℕ
  pub updated_at_ms : ℕ
  pub tokens_used : ℕ
  pub archived : Bool
  pub git_branch : Option String

pub record IndexRow : Type 0 where
  pub row_id : String
  pub thread_name : Option String
  pub updated_at : Option String

-- A line that is no JSON, or that has no id, is left out.
unfoldable pub parse_index_line : Option Json → Option IndexRow
parse_index_line none = none
parse_index_line (some row) = elim (text_field row "id") [
  | none ↦ none
  | some id ↦ some (record {
    row_id = id;
    thread_name = text_field row "thread_name";
    updated_at = text_field row "updated_at";
  })
]

pub record RolloutMetadata : Type 0 where
  pub meta_cwd : Option String
  pub meta_preview : Option String
  pub meta_model : Option String
  pub meta_model_provider : Option String
  pub meta_source : Option String
  pub meta_created_at_ms : Option ℕ
  pub meta_updated_at_ms : Option ℕ

-- `{}`
abbrev pub no_metadata : RolloutMetadata
no_metadata = record {
  meta_cwd = none;
  meta_preview = none;
  meta_model = none;
  meta_model_provider = none;
  meta_source = none;
  meta_created_at_ms = none;
  meta_updated_at_ms = none;
}

-- `n || d` on numbers and on texts
abbrev pub or_number : Option ℕ → ℕ → ℕ
or_number none d = d
or_number (some n) d = if n == 0 then d else n

abbrev pub or_text : Option String → String → String
or_text none d = d
or_text (some s) d = if truthy s then s else d

-- `Math.min(Math.max(limit || 40, 1), 100)`
abbrev pub safe_thread_limit : ℕ → ℕ
safe_thread_limit limit = if limit == 0 then 40 else if ltb 100 limit then 100 else limit

pub record ThreadPage : Type 0 where
  pub page_data : List ThreadSummary
  pub page_cursor : Option ℕ

abbrev pub last_updated : List ThreadSummary → Option ℕ
last_updated ts = elim (get_last? ts) [ none ↦ none | some t ↦ some t.updated_at_ms ]

-- A page has a cursor when there are more threads behind it.
unfoldable pub thread_page : ℕ → List ThreadSummary → ThreadPage
thread_page limit rows =
    let page = take limit rows in
    record {
      page_data = page;
      page_cursor = if ltb limit (length rows) then last_updated page else none;
    }

module _ (rollout : String → Option RolloutMetadata) (parse_date : String → Option ℕ)
    (id_before : String → String → Bool) where
  unfoldable pub index_row_to_thread_summary : ℕ → IndexRow → ThreadSummary
  index_row_to_thread_summary now row =
      let meta = or_else (rollout row.row_id) no_metadata in
      let updated =
        or_number (parse_date (or_else row.updated_at ""))
          (or_number meta.meta_updated_at_ms now) in
      record {
        id = row.row_id;
        title = or_text row.thread_name (or_text meta.meta_preview "Untitled");
        cwd = or_else meta.meta_cwd "";
        preview = or_else meta.meta_preview "";
        model = meta.meta_model;
        model_provider = or_else meta.meta_model_provider "codex";
        source = or_else meta.meta_source "session_index";
        status = "notLoaded";
        created_at_ms = or_number meta.meta_created_at_ms updated;
        updated_at_ms = updated;
        tokens_used = 0;
        archived = false;
        git_branch = none;
      }

  -- The lines that parse, as threads; `now` is the clock.
  unfoldable pub index_threads : ℕ → List (Option Json) → List ThreadSummary
  index_threads now [] = []
  index_threads now (line ∷ lines) =
      let rest = index_threads now lines in
      elim (parse_index_line line) [
        | none ↦ rest
        | some row ↦ index_row_to_thread_summary now row ∷ rest
      ]

  -- `!cursorMs || thread.updatedAtMs < cursorMs`; a cursor that is no number is 0.
  abbrev pub is_before : ℕ → ThreadSummary → Bool
  is_before cursor t = cursor == 0 || ltb t.updated_at_ms cursor

  -- `right.updatedAtMs - left.updatedAtMs || right.id.localeCompare(left.id)`
  abbrev pub comes_first : ThreadSummary → ThreadSummary → Bool
  comes_first s t =
      if s.updated_at_ms == t.updated_at_ms
      then id_before s.id t.id
      else ltb t.updated_at_ms s.updated_at_ms

  unfoldable pub insert_thread : ThreadSummary → List ThreadSummary → List ThreadSummary
  insert_thread s [] = s ∷ []
  insert_thread s (t ∷ ts) =
      let rest = insert_thread s ts in if comes_first s t then s ∷ t ∷ ts else t ∷ rest

  unfoldable pub sort_threads : List ThreadSummary → List ThreadSummary → List ThreadSummary
  sort_threads sorted [] = sorted
  sort_threads sorted (s ∷ rest) = sort_threads (insert_thread s sorted) rest

  unfoldable pub list_threads_from_index : ℕ → ℕ → ℕ → List (Option Json) → ThreadPage
  list_threads_from_index now limit cursor lines =
      thread_page (safe_thread_limit limit)
        (sort_threads [] (keep (is_before cursor) (index_threads now lines)))
