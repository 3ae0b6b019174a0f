-- ===== src/Threads/Rows.antt =====
-- threads.ts, the rows of the thread table, and the listing that the database gives.
use code_harbor.Common.{
  List, Option, String, if◌then◌else◌, map, nat_eq, or_else, string_eq, truthy, ℕ, ◌*◌, ◌==◌,
}
use code_harbor.Threads.Index.{ThreadPage, ThreadSummary, safe_thread_limit, thread_page}

-- A column that is NULL is `none`.
pub record ThreadRow : Type 0 where
  pub id : String
  pub title : String
  pub cwd : String
  pub preview : String
  pub model : Option String
  pub model_provider : String
  pub source : String
  pub created_at_ms : Option ℕ
  pub updated_at_ms : Option ℕ
  pub created_at : ℕ
  pub updated_at : ℕ
  pub tokens_used : ℕ
  pub archived : ℕ
  pub git_branch : Option String

-- `row.title || row.preview || "Untitled"`
abbrev pub title_of : ThreadRow → String
title_of row =
    if truthy row.title then row.title else if truthy row.preview then row.preview else "Untitled"

unfoldable pub map_thread_row : ThreadRow → ThreadSummary
map_thread_row row = record {
  id = row.id;
  title = title_of row;
  cwd = row.cwd;
  preview = row.preview;
  model = row.model;
  model_provider = row.model_provider;
  source = row.source;
  status = "notLoaded";
  created_at_ms = or_else row.created_at_ms (row.created_at * 1000);
  updated_at_ms = or_else row.updated_at_ms (row.updated_at * 1000);
  tokens_used = row.tokens_used;
  archived = row.archived == 1;
  git_branch = row.git_branch;
}

-- The page of the rows that the query returns, at most one more than the limit.
unfoldable pub list_threads : ℕ → List ThreadRow → ThreadPage
list_threads limit rows = thread_page (safe_thread_limit limit) (map map_thread_row rows)
