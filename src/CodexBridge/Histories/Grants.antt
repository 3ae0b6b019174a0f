-- ===== src/CodexBridge/Histories/Grants.antt =====
-- What the child is allowed to do: no result grants anything that the user did not allow.
pub mod Runs
pub mod Safety
use code_harbor.CodexBridge.Approvals.{
  answer, answer_directly, ask_user, handle_server_request, is_confirm, max_pending_approvals,
  mode_of, named_thread, request_approval,
}
use code_harbor.CodexBridge.Ids.{RequestId}
use code_harbor.CodexBridge.Messages.{
  ApprovalDecision, Decision, RequestMethod, Result, accept, accept_with_execpolicy_amendment,
  answers, apply_patch_approval, approval_result, approve, approved_for_session, cancel,
  command_approval, decision_result, denial, deny, direct_result, exec_command_approval,
  file_change_approval, is_approval_request, is_approve, null_result, other_method, request_method,
  user_input,
}
use code_harbor.CodexBridge.Policies.{policy_of}
use code_harbor.CodexBridge.State.{
  Bridge, Effect, PendingApproval, emits, kills, rejects, resolves, spawns, writes_failure,
  writes_notification, writes_request, writes_result,
}
use code_harbor.Common.{
  All, Bool, Bool-cases, List, Option, Option-cases, String, [], arith, false, inl, inr, leb,
  length, nat_eq, none, or_else, refl, some, string_eq, true, ℕ, ◌++◌, ◌||◌, ◌∷◌, ◌≡◌,
}
use code_harbor.Common.JsMap.{get}
use code_harbor.Common.JsMap.Every.{Every, Every-get}
use code_harbor.Common.Json.{Json, null, text_field}
use code_harbor.GatewayStore.Types.{confirm}

-- The results that let the child go on with what it asked for.
abbrev pub grants : Result → Bool
grants (answers given) = given
grants accept = true
grants cancel = false
grants approved_for_session = true
grants null_result = false
grants (accept_with_execpolicy_amendment rules) = true

abbrev pub effect_grants : Effect → Bool
effect_grants (writes_result i r) = grants r
effect_grants (resolves n j) = false
effect_grants (rejects n f) = false
effect_grants spawns = false
effect_grants kills = false
effect_grants (writes_request n m p) = false
effect_grants (writes_notification m) = false
effect_grants (writes_failure i) = false
effect_grants (emits e) = false

abbrev pub any_grants : List Effect → Bool
any_grants [] = false
any_grants (e ∷ es) = effect_grants e || any_grants es

pub any_grants-append :
    (es fs : List Effect) → any_grants (es ++ fs) ≡ (any_grants es || any_grants fs)
any_grants-append [] fs = refl
any_grants-append (e ∷ es) fs = ground (arith, any_grants-append es fs)

-- No thread has full access, and nothing that waits for its answer was approved.
pub record Guarded (b : Bridge) : Type 0 where
  pub confirms : Every (λ thread mode. mode ≡ confirm) b.policy_by_thread
  pub denials : All (λ d. is_approve d.verdict.decision ≡ false) b.decided

pub record Denies (r : Bridge × List Effect) : Type 0 where
  pub guarded : Guarded r.0
  pub nothing : any_grants r.1 ≡ false

grants-decision_result :
    (granted : Result) (d : Decision) (rules : List String)
    → grants granted ≡ true
    → grants (decision_result granted d rules) ≡ is_approve d
grants-decision_result granted approve [] h = h
grants-decision_result granted approve (rule ∷ rules) h = refl
grants-decision_result granted deny rules h = refl

-- An approval is granted when it was approved, and then only.
pub grants-approval_result :
    (m : RequestMethod) (d : ApprovalDecision)
    → grants (approval_result m d) ≡ is_approve d.decision
unfolding approval_result
grants-approval_result user_input d = refl
grants-approval_result exec_command_approval d =
    grants-decision_result approved_for_session d.decision d.execpolicy_amendment refl
grants-approval_result apply_patch_approval d =
    grants-decision_result approved_for_session d.decision d.execpolicy_amendment refl
grants-approval_result command_approval d =
    grants-decision_result accept d.decision d.execpolicy_amendment refl
grants-approval_result file_change_approval d =
    grants-decision_result accept d.decision d.execpolicy_amendment refl
grants-approval_result (other_method t) d =
    grants-decision_result accept d.decision d.execpolicy_amendment refl

pub any_grants-answer :
    (b : Bridge) (i : RequestId) (method : String) (r : Result)
    → grants r ≡ false
    → any_grants (answer b i method r) ≡ false
unfolding answer
any_grants-answer b i method r h = ground (arith, h)

request_approval-Denies :
    (b : Bridge) (a : PendingApproval) (params : Json)
    → Guarded b
    → Denies (request_approval b a params)
unfolding request_approval
request_approval-Denies b a params g =
    let none' =
      any_grants-answer b a.id a.method (approval_result (request_method a.method) denial)
        (grants-approval_result (request_method a.method) denial) in
    elim (Bool-cases (leb max_pending_approvals (length b.pending_approvals))) [
      | inl full ↦ rw full (record { guarded = g; nothing = none' })
      | inr room ↦ rw room (record {
        guarded = record { confirms = g.confirms; denials = g.denials };
        nothing = refl;
      })
    ]

ask_user-Denies :
    (b : Bridge) (i : RequestId) (method : String) (thread : Option String) (params : Json)
    (now handle : ℕ)
    → Guarded b
    → Denies (ask_user b i method thread params now handle)
unfolding ask_user
ask_user-Denies b i method none params now handle g = record {
  guarded = g;
  nothing =
      any_grants-answer b i method (approval_result (request_method method) denial)
        (grants-approval_result (request_method method) denial);
}
ask_user-Denies b i method (some thread) params now handle g = request_approval-Denies b _ params g

mode_of-confirm :
    (b : Bridge) (thread : Option String) → Guarded b → is_confirm (mode_of b thread) ≡ true
unfolding policy_of
mode_of-confirm b none g = refl
mode_of-confirm b (some thread) g = elim (Option-cases (get b.policy_by_thread thread)) [
  | inl none' ↦ rw none' refl
  | inr (mode, found) ↦
      let same : mode ≡ confirm = Every-get _ b.policy_by_thread thread mode g.confirms found in
      rw (found, same) refl
]

-- What asks for no approval grants nothing.
direct-Denies :
    (b : Bridge) (i : RequestId) (method : String) (m : RequestMethod)
    → is_approval_request m ≡ false
    → any_grants (answer_directly b i method m) ≡ false
unfolding is_approval_request direct_result
direct-Denies b i method (other_method t) h = any_grants-answer b i method null_result refl
direct-Denies b i method command_approval h = cc
direct-Denies b i method file_change_approval h = cc
direct-Denies b i method exec_command_approval h = cc
direct-Denies b i method apply_patch_approval h = cc
direct-Denies b i method user_input h = cc

pub handle_server_request-Denies :
    (now handle : ℕ) (b : Bridge) (i : RequestId) (method : String) (params : Option Json)
    → Guarded b
    → Denies (handle_server_request now handle b i method params)
unfolding handle_server_request
handle_server_request-Denies now handle b i method params g =
    let given = or_else params null in
    let thread = named_thread (text_field given "threadId") in
    let m = request_method method in
    elim (Bool-cases (is_approval_request m)) [
      | inl ask ↦
          rw (mode_of-confirm b thread g, ask)
            (ask_user-Denies b i method thread given now handle g)
      | inr direct ↦
          rw (mode_of-confirm b thread g, direct)
            (record { guarded = g; nothing = direct-Denies b i method m direct })
    ]
