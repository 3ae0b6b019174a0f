-- ===== src/Threads/Schema.antt =====
-- threads.ts, the columns that the queries select: the table of an older Codex may lack some.
pub mod Columns
use code_harbor.Common.{
  Bool, List, Option, String, [], false, if◌then◌else◌, includes, keep, nat_eq, none, some,
  string_eq, true, truthy, ◌&&◌, ◌++◌, ◌∷◌,
}
use code_harbor.Common.Text.{concat}

-- An expression of the query; `render` gives its text.
pub data Sql : Type 0 where
  column literal : String → Sql
  nullif_empty : Sql → Sql
  coalesce_pair : Sql → Sql → Sql
  coalesce_triple : Sql → Sql → Sql → Sql
  times_thousand by_thousand : Sql → Sql

unfoldable pub render : Sql → String
render (column c) = c
render (literal t) = t
render (nullif_empty a) = concat "nullif(" (concat (render a) ", '')")
render (coalesce_pair a b) =
    concat "coalesce(" (concat (render a) (concat ", " (concat (render b) ")")))
render (coalesce_triple a b c) =
    concat "coalesce("
      (concat (render a) (concat ", " (concat (render b) (concat ", " (concat (render c) ")")))))
render (times_thousand a) = concat (render a) " * 1000"
render (by_thousand a) = concat "cast((" (concat (render a) ") / 1000 as integer)")

unfoldable pub column_or : List String → String → String → Sql
column_or schema name fallback = if includes schema name then column name else literal fallback

unfoldable pub thread_preview_expr : List String → Sql
thread_preview_expr schema =
    if includes schema "preview" && includes schema "first_user_message"
    then coalesce_triple (nullif_empty (column "preview")) (column "first_user_message")
        (literal "''")
    else if includes schema "preview"
    then coalesce_pair (column "preview") (literal "''")
    else if includes schema "first_user_message"
    then coalesce_pair (column "first_user_message") (literal "''")
    else literal "''"

unfoldable pub thread_source_expr : List String → Sql
thread_source_expr schema =
    if includes schema "source"
    then column "source"
    else if includes schema "thread_source"
    then column "thread_source"
    else literal "'codex'"

unfoldable pub thread_created_at_ms_expr : List String → Sql
thread_created_at_ms_expr schema =
    if includes schema "created_at_ms" && includes schema "created_at"
    then coalesce_pair (column "created_at_ms") (times_thousand (column "created_at"))
    else if includes schema "created_at_ms"
    then column "created_at_ms"
    else if includes schema "created_at"
    then times_thousand (column "created_at")
    else literal "0"

unfoldable pub thread_updated_at_ms_expr : List String → Sql
thread_updated_at_ms_expr schema =
    if includes schema "updated_at_ms" && includes schema "updated_at"
    then coalesce_pair (column "updated_at_ms") (times_thousand (column "updated_at"))
    else if includes schema "updated_at_ms"
    then column "updated_at_ms"
    else if includes schema "updated_at"
    then times_thousand (column "updated_at")
    else thread_created_at_ms_expr schema

unfoldable pub thread_created_at_expr : List String → Sql
thread_created_at_expr schema =
    if includes schema "created_at"
    then column "created_at"
    else by_thousand (thread_created_at_ms_expr schema)

unfoldable pub thread_updated_at_expr : List String → Sql
thread_updated_at_expr schema =
    if includes schema "updated_at"
    then column "updated_at"
    else by_thousand (thread_updated_at_ms_expr schema)

-- `${expression} as ${alias}`
pub record Selected : Type 0 where
  pub expression : Sql
  pub alias : String

abbrev pub select_as : Sql → String → Selected
select_as e name = record { expression = e; alias = name }

abbrev pub select_or : List String → String → String → Selected
select_or schema name fallback = select_as (column_or schema name fallback) name

-- The columns behind the first one.
abbrev pub more_columns : List String → List Selected
more_columns schema =
    select_or schema "title" "''"
    ∷ select_or schema "cwd" "''"
    ∷ select_as (thread_preview_expr schema) "preview"
    ∷ select_or schema "model" "null"
    ∷ select_or schema "model_provider" "'codex'"
    ∷ select_as (thread_source_expr schema) "source"
    ∷ select_as (thread_created_at_ms_expr schema) "created_at_ms"
    ∷ select_as (thread_updated_at_ms_expr schema) "updated_at_ms"
    ∷ select_as (thread_created_at_expr schema) "created_at"
    ∷ select_as (thread_updated_at_expr schema) "updated_at"
    ∷ select_or schema "tokens_used" "0"
    ∷ select_or schema "archived" "0"
    ∷ select_or schema "git_branch" "null"
    ∷ []

-- With the detail, the rollout path comes second, and the version of the client last.
unfoldable pub thread_columns : List String → Bool → List Selected
thread_columns schema false = select_or schema "id" "''" ∷ more_columns schema
thread_columns schema true =
    select_or schema "id" "''" ∷ select_or schema "rollout_path" "''" ∷ more_columns schema
    ++ select_or schema "cli_version" "''" ∷ []

abbrev pub render_selected : Selected → String
render_selected s = concat (render s.expression) (concat " as " s.alias)

-- `columns.join(",\n            ")`
abbrev pub join_columns : List Selected → String
join_columns [] = ""
join_columns (s ∷ []) = render_selected s
join_columns (s ∷ t ∷ ss) =
    concat (render_selected s) (concat ",\n            " (join_columns (t ∷ ss)))

unfoldable pub build_thread_select : List String → Bool → String
build_thread_select schema detail = join_columns (thread_columns schema detail)

-- The names that are not empty; without the column `id` the table is of no use.
unfoldable pub read_thread_schema : List String → Option (List String)
read_thread_schema rows =
    let names = keep truthy rows in if includes names "id" then some names else none

-- `schema.has("archived") ? "coalesce(archived, 0)" : "0"`
unfoldable pub archived_expr : List String → Sql
archived_expr schema =
    if includes schema "archived"
    then coalesce_pair (column "archived") (literal "0")
    else literal "0"
