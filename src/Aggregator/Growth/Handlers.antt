-- ===== src/Aggregator/Growth/Handlers.antt =====
-- aggregator.ts, the handlers that change one row.
use code_harbor.Aggregator.Activities.{
  set_tools, take_subagent_finished, take_subagent_started, take_subagent_tool,
}
use code_harbor.Aggregator.Approvals.{assign_request, await_approval, settle_at, settle_request}
use code_harbor.Aggregator.Growth.Lists.{
  Grown, Grown-refl, Grown-trans, length-change_or_add-le, length-map, length-update_at,
}
use code_harbor.Aggregator.Inputs.{
  finish_turn, finished_status, is_duplicate, is_same_input, merge_input, take_message_text,
  take_message_texts, set_turn_status, turn_status,
}
use code_harbor.Aggregator.Outputs.{take_text}
use code_harbor.Aggregator.Rows.{adopt, change_or_add, find_index, nonempty, or_option}
use code_harbor.Aggregator.Types.{ApprovalRequest, ToolItem, TurnMessage}
use code_harbor.Common.{
  Bool-cases, List, Option, String, [], ap, arith, inl, inr, length, map, nat_eq, none, or_else,
  refl, some, string_eq, sym, true, truthy, ℕ, ◌==◌, ◌∙◌, ◌∷◌, ◌≡◌, ◌≤◌,
}
use code_harbor.Common.Json.{Json, as_array, field, text_field}
use code_harbor.Common.Text.{concat-nil, concat_of_empty}
use code_harbor.WebClient.Fields.{in_field, is_text, or_text}
use mathlib.Core.List.{append-nil}

pub kept :
    (t u : TurnMessage)
    → u.session_id ≡ t.session_id
    → (truthy t.user_prompt ≡ true → u.user_prompt ≡ t.user_prompt)
    → u.text ≡ t.text
    → u.diffs ≡ t.diffs
    → length t.tools ≤ length u.tools
    → length t.approvals ≤ length u.approvals
    → u.client_request_id ≡ t.client_request_id
    → Grown t u
kept t u same prompt written changes tools approvals requested = record {
  session = same;
  prompt = prompt;
  written = ("", written ∙ sym (concat-nil t.text));
  changes = ([], changes ∙ sym (append-nil t.diffs));
  tools = tools;
  approvals = approvals;
  request = λ id e. requested ∙ e;
}

pub adopt-Grown : (id fallback : String) (t : TurnMessage) → Grown t (adopt id fallback t)
adopt-Grown id fallback t =
    kept t (adopt id fallback t) refl (λ h. ground arith) refl refl (omega arith) (omega arith) refl

pub set_tools-Grown :
    (f : List ToolItem → List ToolItem) (t : TurnMessage)
    → length t.tools ≤ length (f t.tools)
    → Grown t (set_tools f t)
set_tools-Grown f t le = kept t (set_tools f t) refl (λ h. refl) refl refl le (omega arith) refl

pub set_turn_status-Grown :
    (at : Option Json) (o : Option String) (t : TurnMessage) → Grown t (set_turn_status at o t)
set_turn_status-Grown at none t = Grown-refl t
set_turn_status-Grown at (some s) t =
    kept t (set_turn_status at (some s) t) (ground arith) (λ h. ground arith) (ground arith)
      (ground arith) (ground arith) (ground arith) (ground arith)

pub take_text-Grown : (done : Json) (t : TurnMessage) → Grown t (take_text done t)
take_text-Grown done t = elim (Bool-cases (truthy t.text)) [
  | inl there ↦
      kept t (take_text done t) refl (λ h. refl) (ground arith) refl (omega arith) (omega arith)
        refl
  | inr empty ↦ record {
    session = refl;
    prompt = λ h. refl;
    written = (
      or_else (text_field done "text") "",
      let e = concat_of_empty t.text (or_else (text_field done "text") "") empty in ground arith,
    );
    changes = ([], sym (append-nil t.diffs));
    tools = omega arith;
    approvals = omega arith;
    request = λ id e. e;
  }
]

take_message_texts-Grown :
    (items : List Json) (t : TurnMessage) → Grown t (take_message_texts items t)
take_message_texts-Grown [] t = Grown-refl t
take_message_texts-Grown (done ∷ rest) t =
    Grown-trans t (take_message_text done t) (take_message_texts rest (take_message_text done t))
      (elim (Bool-cases (is_text (text_field done "type") "agentMessage")) [
        | inl is ↦ rw is (take_text-Grown done t)
        | inr isnt ↦ rw isnt (Grown-refl t)
      ])
      (take_message_texts-Grown rest (take_message_text done t))

pub finish_turn-Grown :
    (at : Option Json) (payload : Json) (t : TurnMessage) → Grown t (finish_turn at payload t)
finish_turn-Grown at payload t =
    let t' : TurnMessage = record t {
      assistant_status =
          finished_status (or_text (turn_status payload) (text_field payload "status"));
      completed_at = at;
    } in
    Grown-trans t t' (finish_turn at payload t)
      (kept t t' refl (λ h. refl) refl refl (omega arith) (omega arith) refl)
      (take_message_texts-Grown (or_else (as_array (in_field (field payload "turn") "items")) [])
        t')

-- The echo of a request finds the row with the id that it brings.
merged_id :
    (o : Option String) (prompt session : String) (t : TurnMessage) (id : String)
    → is_same_input o prompt session t ≡ true
    → t.client_request_id ≡ some id
    → or_option o t.client_request_id ≡ some id
merged_id none prompt session t id same e = e
merged_id (some r) prompt session t id same e =
    let same' : (id == r) ≡ true = ap (λ x. is_text x r) (sym e) ∙ same in
    ap some (sym ((string_eq.beq_iff id r).0 same'))

pub merge_input-Grown :
    (request : Option String) (prompt session : String) (attachments : Option (List Json))
    (t : TurnMessage)
    → is_duplicate request prompt session t ≡ true
    → Grown t (merge_input request prompt attachments t)
merge_input-Grown request prompt session attachments t same = record {
  session = refl;
  prompt = λ h. ground arith;
  written = ("", sym (concat-nil t.text));
  changes = ([], sym (append-nil t.diffs));
  tools = omega arith;
  approvals = omega arith;
  request = λ id e. merged_id (nonempty request) prompt session t id same e;
}

pub await_approval-Grown :
    (request : ApprovalRequest) (t : TurnMessage) → Grown t (await_approval request t)
await_approval-Grown request t =
    kept t (await_approval request t) refl (λ h. refl) refl refl (omega arith)
      (length-change_or_add-le (find_index (λ a. a.request_id == request.request_id) t.approvals)
        (assign_request request) request t.approvals)
      refl

settle_at-Grown :
    (f : ApprovalRequest → ApprovalRequest) (t : TurnMessage) (o : Option ℕ)
    → Grown t (settle_at f t o)
settle_at-Grown f t none = Grown-refl t
settle_at-Grown f t (some i) =
    kept t (settle_at f t (some i)) refl (λ h. refl) refl refl (omega arith)
      (omega (arith, length-update_at i f t.approvals)) refl

pub settle_request-Grown :
    (id : String) (f : ApprovalRequest → ApprovalRequest) (t : TurnMessage)
    → Grown t (settle_request id f t)
settle_request-Grown id f t = settle_at-Grown f t (find_index (λ a. a.request_id == id) t.approvals)

pub change_tools-Grown :
    (o : Option ℕ) (f : ToolItem → ToolItem) (new : ToolItem) (t : TurnMessage)
    → Grown t (record t { tools = change_or_add o f new t.tools })
change_tools-Grown o f new t =
    set_tools-Grown (change_or_add o f new) t (length-change_or_add-le o f new t.tools)

map_tools-Grown :
    (f : ToolItem → ToolItem) (t : TurnMessage) → Grown t (record t { tools = map f t.tools })
map_tools-Grown f t = set_tools-Grown (map f) t (omega (arith, length-map f t.tools))

pub take_subagent_started-Grown :
    (payload : Json) (t : TurnMessage) → Grown t (take_subagent_started payload t)
take_subagent_started-Grown payload t = change_tools-Grown _ _ _ t

pub take_subagent_tool-Grown :
    (payload : Json) (t : TurnMessage) → Grown t (take_subagent_tool payload t)
take_subagent_tool-Grown payload t = change_tools-Grown _ _ _ t

pub take_subagent_finished-Grown :
    (payload : Json) (t : TurnMessage) → Grown t (take_subagent_finished payload t)
take_subagent_finished-Grown payload t = map_tools-Grown _ t
