-- ===== src/Threads/Tests.antt =====
-- The listing of threads at concrete inputs.
use code_harbor.Common.{
  All, Bool, Option, String, [], arith, false, keep, nat_eq, none, refl, some, string_eq, ℕ, ◌==◌,
  ◌∷◌, ◌≡◌,
}
use code_harbor.Common.Text.{concat}
use code_harbor.Threads.Escape.{escape_sql, read_literal, read_literal-escape_sql}
use code_harbor.Threads.Index.{
  RolloutMetadata, ThreadSummary, is_before, list_threads_from_index, thread_page,
}
use code_harbor.Threads.Index.Pages.{keep-thread_page}

abbrev test_thread : String → ℕ → ThreadSummary
test_thread id updated = record {
  id = id;
  title = "t";
  cwd = "";
  preview = "";
  model = none;
  model_provider = "codex";
  source = "rollout";
  status = "notLoaded";
  created_at_ms = 1;
  updated_at_ms = updated;
  tokens_used = 0;
  archived = false;
  git_branch = none;
}

-- No rollout files, texts that are no dates, and ids that are never first.
abbrev test_rollout : String → Option RolloutMetadata
test_rollout id = none

abbrev test_date : String → Option ℕ
test_date s = none

abbrev test_order : String → String → Bool
test_order a b = false

read_literal-escape_sql_example :
    read_literal (concat (escape_sql "a'b") "' limit") ≡ some ("a'b", " limit")
read_literal-escape_sql_example = read_literal-escape_sql "a'b" "'" " limit" refl refl

-- The thread "b" shares the time of the last one of the first page, and is on no later page.
keep-thread_page_example :
    (keep
        (is_before test_rollout test_date test_order 5)
        (test_thread "a" 5 ∷ test_thread "b" 5 ∷ test_thread "c" 4 ∷ [])
      ≡ test_thread "c" 4 ∷ [])
    × All
        (λ t. (t.updated_at_ms == 5) ≡ false)
        (list_threads_from_index test_rollout test_date test_order 9 1 5 []).page_data
unfolding thread_page
keep-thread_page_example =
    keep-thread_page test_rollout test_date test_order 1 5 9 1
      (test_thread "a" 5 ∷ test_thread "b" 5 ∷ test_thread "c" 4 ∷ []) [] (omega arith) refl
      ((omega arith, (omega arith, tt)), ((omega arith, tt), (tt, tt))) refl
