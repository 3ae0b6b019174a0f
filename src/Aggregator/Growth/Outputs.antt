-- ===== src/Aggregator/Growth/Outputs.antt =====
-- aggregator.ts, the changes of a row by `session-output`.
use code_harbor.Aggregator.Activities.{or_object}
use code_harbor.Aggregator.Commands.{
  change_of, complete_command, complete_files, is_file, put_change, put_changes, take_output_delta,
}
use code_harbor.Aggregator.Growth.Handlers.{
  change_tools-Grown, kept, set_tools-Grown, take_text-Grown,
}
use code_harbor.Aggregator.Growth.Lists.{Grown, Grown-refl, length-change_or_add-le}
use code_harbor.Aggregator.Outputs.{
  add_chunk, add_diff, item_completed, session_output, take_reasoning, take_token_usage,
  take_user_text,
}
use code_harbor.Aggregator.Rows.{find_index}
use code_harbor.Aggregator.Types.{ToolItem, TurnMessage, file_change}
use code_harbor.Common.{
  Bool-cases, List, Option, String, [], arith, includes, inl, inr, length, nat_eq, none, not,
  or_else, refl, some, string_eq, suc, sym, truthy, ℕ, ◌&&◌, ◌++◌, ◌∷◌, ◌≤◌,
}
use code_harbor.Common.Json.{Json, as_array, field, text_field}
use code_harbor.Common.Text.{concat-nil, trim}
use code_harbor.WebClient.Fields.{is_text}
use mathlib.Core.List.{append-nil}

complete_command-Grown :
    (millis : String) (done : Json) (t : TurnMessage) → Grown t (complete_command millis done t)
complete_command-Grown millis done t = change_tools-Grown _ _ _ t

take_output_delta-Grown :
    (millis : String) (payload inside : Json) (t : TurnMessage)
    → Grown t (take_output_delta millis payload inside t)
take_output_delta-Grown millis payload inside t = change_tools-Grown _ _ _ t

take_user_text-Grown : (done : Json) (t : TurnMessage) → Grown t (take_user_text done t)
take_user_text-Grown done t =
    kept t (take_user_text done t) refl (λ h. ground arith) refl refl (omega arith) (omega arith)
      refl

take_reasoning-Grown : (done : Json) (t : TurnMessage) → Grown t (take_reasoning done t)
take_reasoning-Grown done t =
    kept t (take_reasoning done t) refl (λ h. refl) refl refl (omega arith) (omega arith) refl

add_chunk-Grown : (t : TurnMessage) (o : Option String) → Grown t (add_chunk t o)
add_chunk-Grown t none = Grown-refl t
add_chunk-Grown t (some chunk) = record {
  session = refl;
  prompt = λ h. refl;
  written = (chunk, refl);
  changes = ([], sym (append-nil t.diffs));
  tools = omega arith;
  approvals = omega arith;
  request = λ id e. e;
}

new_diff-Grown :
    (t : TurnMessage) (diff : String) → Grown t (record t { diffs = t.diffs ++ diff ∷ [] })
new_diff-Grown t diff = record {
  session = refl;
  prompt = λ h. refl;
  written = ("", sym (concat-nil t.text));
  changes = (diff ∷ [], refl);
  tools = omega arith;
  approvals = omega arith;
  request = λ id e. e;
}

add_diff-Grown : (t : TurnMessage) (o : Option String) → Grown t (add_diff t o)
add_diff-Grown t none = Grown-refl t
add_diff-Grown t (some diff) =
    elim (Bool-cases (truthy (trim diff) && not (includes t.diffs diff))) [
      | inl new ↦ rw new (new_diff-Grown t diff)
      | inr old ↦ rw old (Grown-refl t)
    ]

take_token_usage-Grown : (inside : Json) (t : TurnMessage) → Grown t (take_token_usage inside t)
take_token_usage-Grown inside t =
    kept t (take_token_usage inside t) (ground arith) (λ h. ground arith) (ground arith)
      (ground arith) (ground arith) (ground arith) (ground arith)

module _ (show : ℕ → String) where
  length-put_changes-le :
      (millis : String) (done : Json) (index : ℕ) (changes : List Json) (tools : List ToolItem)
      → length tools ≤ length (put_changes show millis done index changes tools)
  length-put_changes-le millis done index [] tools = omega arith
  length-put_changes-le millis done index (change ∷ changes) tools =
      let next = change_of show millis done index change in
      let rest =
        length-put_changes-le millis done (suc index) changes (put_change show next tools) in
      let more =
        length-change_or_add-le (find_index (is_file next.id) tools) (λ tool. file_change next)
          (file_change next) tools in
      omega arith

  complete_files-Grown :
      (millis : String) (done : Json) (t : TurnMessage)
      → Grown t (complete_files show millis done t)
  complete_files-Grown millis done t =
      let changes = or_else (as_array (field done "changes")) [] in
      set_tools-Grown (put_changes show millis done 0 changes) t
        (length-put_changes-le millis done 0 changes t.tools)

  item_completed-Grown :
      (millis : String) (done : Json) (t : TurnMessage)
      → Grown t (item_completed show millis done t)
  unfolding item_completed
  item_completed-Grown millis done t =
      let type = text_field done "type" in
      elim (Bool-cases (is_text type "userMessage")) [
        | inl is ↦ rw is (take_user_text-Grown done t)
        | inr no₁ ↦ rw no₁ (elim (Bool-cases (is_text type "reasoning")) [
          | inl is ↦ rw is (take_reasoning-Grown done t)
          | inr no₂ ↦ rw no₂ (elim (Bool-cases (is_text type "commandExecution")) [
            | inl is ↦ rw is (complete_command-Grown millis done t)
            | inr no₃ ↦ rw no₃ (elim (Bool-cases (is_text type "fileChange")) [
              | inl is ↦ rw is (complete_files-Grown millis done t)
              | inr no₄ ↦ rw no₄ (elim (Bool-cases (is_text type "agentMessage")) [
                | inl is ↦ rw is (take_text-Grown done t)
                | inr no₅ ↦ rw no₅ (Grown-refl t)
              ])
            ])
          ])
        ])
      ]

  pub session_output-Grown :
      (millis : String) (payload inside : Json) (t : TurnMessage)
      → Grown t (session_output show millis payload inside t)
  unfolding session_output
  session_output-Grown millis payload inside t =
      let type = text_field payload "eventType" in
      elim (Bool-cases (is_text type "item/agentMessage/delta")) [
        | inl is ↦ rw is (add_chunk-Grown t (text_field payload "chunk"))
        | inr no₁ ↦ rw no₁ (elim (Bool-cases (is_text type "item/commandExecution/outputDelta")) [
          | inl is ↦ rw is (take_output_delta-Grown millis payload inside t)
          | inr no₂ ↦ rw no₂ (elim (Bool-cases (is_text type "item/completed")) [
            | inl is ↦ rw is (item_completed-Grown millis (or_object (field inside "item")) t)
            | inr no₃ ↦ rw no₃ (elim (Bool-cases (is_text type "turn/diff/updated")) [
              | inl is ↦ rw is (add_diff-Grown t (text_field inside "diff"))
              | inr no₄ ↦ rw no₄ (elim (Bool-cases (is_text type "thread/tokenUsage/updated")) [
                | inl is ↦ rw is (take_token_usage-Grown inside t)
                | inr no₅ ↦ rw no₅ (Grown-refl t)
              ])
            ])
          ])
        ])
      ]
