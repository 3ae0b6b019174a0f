-- ===== src/Threads/Schema/Columns.antt =====
-- The queries name no column that the table lacks.
use code_harbor.Common.{
  All, All-append, Bool, Bool-cases, List, String, [], false, if◌then◌else◌, includes, inl, inr,
  map, nat_eq, refl, string_eq, true, ◌++◌, ◌∷◌, ◌≡◌,
}
use code_harbor.Threads.Schema.{
  Sql, by_thousand, coalesce_pair, coalesce_triple, column, column_or, literal, more_columns,
  nullif_empty, select_or, thread_columns, thread_created_at_expr, thread_created_at_ms_expr,
  thread_preview_expr, thread_source_expr, thread_updated_at_expr, thread_updated_at_ms_expr,
  times_thousand,
}

-- Every column of the expression is one of the table.
abbrev pub IsKnown : List String → Sql → Type 0
IsKnown schema (column c) = includes schema c ≡ true
IsKnown schema (literal t) = Unit
IsKnown schema (nullif_empty a) = IsKnown schema a
IsKnown schema (coalesce_pair a b) = IsKnown schema a × IsKnown schema b
IsKnown schema (coalesce_triple a b c) = IsKnown schema a × IsKnown schema b × IsKnown schema c
IsKnown schema (times_thousand a) = IsKnown schema a
IsKnown schema (by_thousand a) = IsKnown schema a

module _ (schema : List String) where
  column_or-IsKnown : (name fallback : String) → IsKnown schema (column_or schema name fallback)
  unfolding column_or
  column_or-IsKnown name fallback = elim (Bool-cases (includes schema name)) [
    | inl there ↦ rw there there
    | inr missing ↦ rw missing tt
  ]

  thread_preview_expr-IsKnown : IsKnown schema (thread_preview_expr schema)
  unfolding thread_preview_expr
  thread_preview_expr-IsKnown = elim (Bool-cases (includes schema "preview")) [
    | inl p ↦ elim (Bool-cases (includes schema "first_user_message")) [
      | inl f ↦ rw (p, f) (p, f, tt)
      | inr f ↦ rw (p, f) (p, tt)
    ]
    | inr p ↦ elim (Bool-cases (includes schema "first_user_message")) [
      | inl f ↦ rw (p, f) (f, tt)
      | inr f ↦ rw (p, f) tt
    ]
  ]

  thread_source_expr-IsKnown : IsKnown schema (thread_source_expr schema)
  unfolding thread_source_expr
  thread_source_expr-IsKnown = elim (Bool-cases (includes schema "source")) [
    | inl s ↦ rw s s
    | inr s ↦ elim (Bool-cases (includes schema "thread_source")) [
      | inl t ↦ rw (s, t) t
      | inr t ↦ rw (s, t) tt
    ]
  ]

  thread_created_at_ms_expr-IsKnown : IsKnown schema (thread_created_at_ms_expr schema)
  unfolding thread_created_at_ms_expr
  thread_created_at_ms_expr-IsKnown = elim (Bool-cases (includes schema "created_at_ms")) [
    | inl m ↦ elim (Bool-cases (includes schema "created_at")) [
      | inl s ↦ rw (m, s) (m, s)
      | inr s ↦ rw (m, s) m
    ]
    | inr m ↦ elim (Bool-cases (includes schema "created_at")) [
      | inl s ↦ rw (m, s) s
      | inr s ↦ rw (m, s) tt
    ]
  ]

  thread_updated_at_ms_expr-IsKnown : IsKnown schema (thread_updated_at_ms_expr schema)
  unfolding thread_updated_at_ms_expr
  thread_updated_at_ms_expr-IsKnown = elim (Bool-cases (includes schema "updated_at_ms")) [
    | inl m ↦ elim (Bool-cases (includes schema "updated_at")) [
      | inl s ↦ rw (m, s) (m, s)
      | inr s ↦ rw (m, s) m
    ]
    | inr m ↦ elim (Bool-cases (includes schema "updated_at")) [
      | inl s ↦ rw (m, s) s
      | inr s ↦ rw (m, s) thread_created_at_ms_expr-IsKnown
    ]
  ]

  thread_created_at_expr-IsKnown : IsKnown schema (thread_created_at_expr schema)
  unfolding thread_created_at_expr
  thread_created_at_expr-IsKnown = elim (Bool-cases (includes schema "created_at")) [
    | inl s ↦ rw s s
    | inr s ↦ rw s thread_created_at_ms_expr-IsKnown
  ]

  thread_updated_at_expr-IsKnown : IsKnown schema (thread_updated_at_expr schema)
  unfolding thread_updated_at_expr
  thread_updated_at_expr-IsKnown = elim (Bool-cases (includes schema "updated_at")) [
    | inl s ↦ rw s s
    | inr s ↦ rw s thread_updated_at_ms_expr-IsKnown
  ]

  more_columns-AllKnown : All (λ s. IsKnown schema s.expression) (more_columns schema)
  more_columns-AllKnown = (
    column_or-IsKnown "title" "''",
    (
      column_or-IsKnown "cwd" "''",
      (
        thread_preview_expr-IsKnown,
        (
          column_or-IsKnown "model" "null",
          (
            column_or-IsKnown "model_provider" "'codex'",
            (
              thread_source_expr-IsKnown,
              (
                thread_created_at_ms_expr-IsKnown,
                (
                  thread_updated_at_ms_expr-IsKnown,
                  (
                    thread_created_at_expr-IsKnown,
                    (
                      thread_updated_at_expr-IsKnown,
                      (
                        column_or-IsKnown "tokens_used" "0",
                        (
                          column_or-IsKnown "archived" "0",
                          (column_or-IsKnown "git_branch" "null", tt),
                        ),
                      ),
                    ),
                  ),
                ),
              ),
            ),
          ),
        ),
      ),
    ),
  )

-- The names under which a query returns its columns.
abbrev pub aliases : Bool → List String
aliases detail =
    "id" ∷ (if detail then "rollout_path" ∷ [] else [])
    ++ "title"
      ∷ "cwd"
      ∷ "preview"
      ∷ "model"
      ∷ "model_provider"
      ∷ "source"
      ∷ "created_at_ms"
      ∷ "updated_at_ms"
      ∷ "created_at"
      ∷ "updated_at"
      ∷ "tokens_used"
      ∷ "archived"
      ∷ "git_branch"
      ∷ (if detail then "cli_version" ∷ [] else [])

-- Whichever columns the table of threads has, the query names none that it lacks, and returns the
-- columns that the rows are read by, in one order.
thread_columns-IsKnown :
    (schema : List String) (detail : Bool)
    → All (λ s. IsKnown schema s.expression) (thread_columns schema detail)
      × (map (λ s. s.alias) (thread_columns schema detail) ≡ aliases detail)
unfolding thread_columns
thread_columns-IsKnown schema false =
    ((column_or-IsKnown schema "id" "''", more_columns-AllKnown schema), refl)
thread_columns-IsKnown schema true = (
  (
    column_or-IsKnown schema "id" "''",
    (
      column_or-IsKnown schema "rollout_path" "''",
      All-append (λ s. IsKnown schema s.expression) (more_columns schema)
          (select_or schema "cli_version" "''" ∷ []) (more_columns-AllKnown schema)
          (column_or-IsKnown schema "cli_version" "''", tt),
    ),
  ),
  refl,
)
