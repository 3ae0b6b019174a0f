-- ===== src/CodexBridge/Approvals.antt =====
-- codexBridge.ts, the requests of the child: what is granted at once, what is asked of the user, and
-- the answers. The audit log is not modelled; its writes stand before each handler.
pub mod Resolution
use code_harbor.CodexBridge.Ids.{RequestId, id_text}
use code_harbor.CodexBridge.Messages.{
  ApprovalDecision, RequestMethod, Result, apply_patch_approval, approval_result, command_approval,
  denial, direct_result, exec_command_approval, file_change_approval, first_text,
  is_approval_request, other_method, request_method, user_input,
}
use code_harbor.CodexBridge.Policies.{policy_of}
use code_harbor.CodexBridge.State.{
  Bridge, Decided, Effect, PendingApproval, Prompt, approval_expired, approval_requested, can_write,
  emits, request_error, server_request, writes_result,
}
use code_harbor.Common.{
  Bool, List, Option, String, [], false, if◌then◌else◌, leb, length, map, nat_eq, none, not,
  or_else, some, string_eq, take, true, truthy, ℕ, ◌&&◌, ◌++◌, ◌+◌, ◌==◌, ◌||◌, ◌∷◌,
}
use code_harbor.Common.JsMap.{delete, get, set}
use code_harbor.Common.Json.{
  Json, array, as_array, boolean, field, fields, null, number, other_number, text, text_field,
}
use code_harbor.Common.Text.{take_text}
use code_harbor.GatewayStore.Types.{PolicyMode, confirm, full_access}

abbrev pub max_pending_approvals : ℕ
max_pending_approvals = 256

abbrev pub approval_ttl_ms : ℕ
approval_ttl_ms = 600_000

-- The write of a result, or what the `catch` around the handler does when the child is gone.
unfoldable pub answer : Bridge → RequestId → String → Result → List Effect
answer b id method result =
    if can_write b.process
    then writes_result id result ∷ []
    else emits (request_error id method) ∷ []

-- An empty `threadId` counts as none.
abbrev pub named_thread : Option String → Option String
named_thread none = none
named_thread (some thread) = if truthy thread then some thread else none

-- The policy of the thread that the request names, and `confirm` without one.
abbrev pub mode_of : Bridge → Option String → PolicyMode
mode_of b none = confirm
mode_of b (some thread) = policy_of b.policy_by_thread thread

abbrev pub is_confirm : PolicyMode → Bool
is_confirm confirm = true
is_confirm full_access = false

abbrev pub cut : ℕ → Option String → Option String
cut n none = none
cut n (some t) = some (take_text n t)

-- The texts of the array, at most 50, each cut to 300 characters.
abbrev pub rule_texts : List Json → List String
rule_texts [] = []
rule_texts (text t ∷ js) = t ∷ rule_texts js
rule_texts (null ∷ js) = rule_texts js
rule_texts (boolean b ∷ js) = rule_texts js
rule_texts (number n ∷ js) = rule_texts js
rule_texts (other_number t ∷ js) = rule_texts js
rule_texts (array is ∷ js) = rule_texts js
rule_texts (fields ms ∷ js) = rule_texts js

abbrev pub cut_rules : Option (List Json) → Option (List String)
cut_rules none = none
cut_rules (some js) = some (map (take_text 300) (take 50 (rule_texts js)))

abbrev pub prompt_of : PendingApproval → Json → Prompt
prompt_of a params = record {
  prompt_request = a;
  item_id = text_field params "itemId";
  summary = cut 2_000 (first_text (text_field params "reason") (text_field params "message"));
  command = cut 12_000 (text_field params "command");
  cwd = cut 2_000 (text_field params "cwd");
  proposed_execpolicy_amendment = cut_rules (as_array (field params "proposedExecpolicyAmendment"));
}

-- The question to the user; beyond 256 open ones it is denied at once.
unfoldable pub request_approval : Bridge → PendingApproval → Json → Bridge × List Effect
request_approval b a params =
    let shown = emits (approval_requested (prompt_of a params)) in
    if leb max_pending_approvals (length b.pending_approvals)
    then (b, shown ∷ answer b a.id a.method (approval_result (request_method a.method) denial))
    else (
      record b {
        pending_approvals = set b.pending_approvals a.request_id a;
        approval_timers = set b.approval_timers a.handle a;
      },
      shown ∷ [],
    )

-- The answer without a question. Only the first of the methods is told to the clients.
abbrev pub answer_directly : Bridge → RequestId → String → RequestMethod → List Effect
answer_directly b id method m = shown m ++ answer b id method (direct_result m)
  where
    shown : RequestMethod → List Effect
    shown command_approval = emits (server_request id method) ∷ []
    shown file_change_approval = []
    shown exec_command_approval = []
    shown apply_patch_approval = []
    shown user_input = []
    shown (other_method t) = []

-- An approval that no thread is named for is denied.
unfoldable pub ask_user :
    Bridge → RequestId → String → Option String → Json → ℕ → ℕ → Bridge × List Effect
ask_user b id method none params now handle =
    (b, answer b id method (approval_result (request_method method) denial))
ask_user b id method (some thread) params now handle =
    request_approval b
      (record {
        request_id = id_text id;
        id = id;
        thread_id = thread;
        turn_id = text_field params "turnId";
        method = method;
        expires_at = now + approval_ttl_ms;
        handle = handle;
      })
      params

-- `now` is the clock, and `handle` what `setTimeout` returns.
unfoldable pub handle_server_request :
    ℕ → ℕ → Bridge → RequestId → String → Option Json → Bridge × List Effect
handle_server_request now handle b id method params =
    let given = or_else params null in
    let thread = named_thread (text_field given "threadId") in
    let m = request_method method in
    if is_confirm (mode_of b thread) && is_approval_request m
    then ask_user b id method thread given now handle
    else (b, answer_directly b id method m)

-- `!pending.turnId || !turnId || pending.turnId !== turnId` is the refusal.
abbrev pub same_turn : Option String → Option String → Bool
same_turn (some p) (some t) = truthy p && p == t
same_turn none t = false
same_turn (some p) none = false

-- `threadId && pending.threadId !== threadId` is the refusal.
abbrev pub same_thread : String → Option String → Bool
same_thread p none = true
same_thread p (some t) = not (truthy t) || p == t

unfoldable pub decide : Bridge → PendingApproval → ApprovalDecision → Bridge
decide b a d = record b {
  pending_approvals = delete b.pending_approvals a.request_id;
  approval_timers = delete b.approval_timers a.handle;
  decided = b.decided ++ record { decided_id = a.id; decided_method = a.method; verdict = d } ∷ [];
}

unfoldable pub resolve_approval :
    Bridge → String → ApprovalDecision → Option String → Option String → Bridge × Bool
resolve_approval b request d thread turn = elim (get b.pending_approvals request) [
  | none ↦ (b, false)
  | some a ↦
      if same_thread a.thread_id thread && same_turn a.turn_id turn
      then (decide b a d, true)
      else (b, false)
]

-- The timer of an approval: its callback deletes what stands under its request id.
unfoldable pub approval_expires : Bridge → ℕ → Bridge × List Effect
approval_expires b handle = elim (get b.approval_timers handle) [
  | none ↦ (b, [])
  | some a ↦ (decide b a denial, emits (approval_expired a) ∷ [])
]

abbrev pub answer_first : Bridge → List Decided → Bridge × List Effect
answer_first b [] = (b, [])
answer_first b (d ∷ ds) = (
  record b { decided = ds },
  answer b d.decided_id d.decided_method
      (approval_result (request_method d.decided_method) d.verdict),
)

-- The handler of the first decided request goes on, and answers it.
unfoldable pub answer_decided : Bridge → Bridge × List Effect
answer_decided b = answer_first b b.decided
