-- ===== src/CodexBridge/Histories/Settlement/Steps.antt =====
-- The steps that settle requests, and those that leave them alone.
use code_harbor.CodexBridge.Approvals.{
  answer, answer_directly, ask_user, handle_server_request, is_confirm, mode_of, named_thread,
  request_approval,
}
use code_harbor.CodexBridge.Histories.Settlement.{
  Balance, IsValid, Quiet, Quiet-Balance, settled-Balance, settles, settles_one,
}
use code_harbor.CodexBridge.Ids.{RequestId, number_id, other_number_id, read_id, text_id}
use code_harbor.CodexBridge.Messages.{
  BridgeError, RequestMethod, Result, apply_patch_approval, approval_result, command_approval,
  denial, direct_result, exec_command_approval, file_change_approval, is_approval_request,
  message_error, other_method, request_method, user_input,
}
use code_harbor.CodexBridge.Requests.{
  Incoming, asks, broken, classify, handle_incoming, ignored, incoming, notifies, pending_id,
  request_times_out, responds, response, settle,
}
use code_harbor.CodexBridge.State.{Bridge, PendingApproval, rejects, timed_out}
use code_harbor.Common.{
  Bool-cases, Option, Option-cases, String, arith, if◌then◌else◌, inl, inr, nat_eq, none, or_else,
  refl, some, string_eq, subst, true, ℕ, ◌&&◌, ◌==◌, ◌≡◌,
}
use code_harbor.Common.JsMap.{get, has}
use code_harbor.Common.Json.{Json, field, is_object, null, text_field}

pub settles-answer :
    (id : ℕ) (b : Bridge) (i : RequestId) (method : String) (r : Result)
    → settles id (answer b i method r) ≡ 0
unfolding answer
settles-answer id b i method r = ground arith

settles-answer_directly :
    (id : ℕ) (b : Bridge) (i : RequestId) (method : String) (m : RequestMethod)
    → settles id (answer_directly b i method m) ≡ 0
settles-answer_directly id b i method command_approval =
    omega (arith, settles-answer id b i method (direct_result command_approval))
settles-answer_directly id b i method file_change_approval =
    settles-answer id b i method (direct_result file_change_approval)
settles-answer_directly id b i method exec_command_approval =
    settles-answer id b i method (direct_result exec_command_approval)
settles-answer_directly id b i method apply_patch_approval =
    settles-answer id b i method (direct_result apply_patch_approval)
settles-answer_directly id b i method user_input =
    settles-answer id b i method (direct_result user_input)
settles-answer_directly id b i method (other_method t) =
    settles-answer id b i method (direct_result (other_method t))

request_approval-Quiet :
    (id : ℕ) (b : Bridge) (a : PendingApproval) (params : Json)
    → Quiet id b (request_approval b a params)
unfolding request_approval
request_approval-Quiet id b a params =
    let none' =
      settles-answer id b a.id a.method (approval_result (request_method a.method) denial) in
    record { same = ground arith; same_next = ground arith; silent = ground (arith, none') }

ask_user-Quiet :
    (id : ℕ) (b : Bridge) (i : RequestId) (method : String) (thread : Option String) (params : Json)
    (now handle : ℕ)
    → Quiet id b (ask_user b i method thread params now handle)
unfolding ask_user
ask_user-Quiet id b i method none params now handle = record {
  same = refl;
  same_next = refl;
  silent = settles-answer id b i method (approval_result (request_method method) denial);
}
ask_user-Quiet id b i method (some thread) params now handle = request_approval-Quiet id b _ params

handle_server_request-Quiet :
    (id now handle : ℕ) (b : Bridge) (i : RequestId) (method : String) (params : Option Json)
    → Quiet id b (handle_server_request now handle b i method params)
unfolding handle_server_request
handle_server_request-Quiet id now handle b i method params =
    let given = or_else params null in
    let m = request_method method in
    elim (Bool-cases (
      is_confirm (mode_of b (named_thread (text_field given "threadId")))
      && is_approval_request m)) [
        | inl ask ↦ rw ask (
            ask_user-Quiet id b i method (named_thread (text_field given "threadId")) given now
              handle)
        | inr direct ↦ rw direct (record {
          same = refl;
          same_next = refl;
          silent = settles-answer_directly id b i method m;
        })
      ]

pending_id-there :
    (b : Bridge) (id : Option RequestId) (n : ℕ)
    → pending_id b id ≡ some n
    → has b.pending_requests n ≡ true
pending_id-there b none n h = cc
pending_id-there b (some (other_number_id t)) n h = cc
pending_id-there b (some (text_id t)) n h = cc
pending_id-there b (some (number_id k)) n h = elim (Bool-cases (has b.pending_requests k)) [
  | inl there ↦
      let same : k ≡ n = ground (arith, rw there at h) in
      subst (λ j. has b.pending_requests j ≡ true) same there
  | inr missing ↦ absurd (ground (arith, rw missing at h))
]

incoming-responds :
    (p : Option ℕ) (id : Option RequestId) (method : Option String) (n : ℕ)
    → incoming p id method ≡ responds n
    → p ≡ some n
incoming-responds (some k) id method n h = cc
incoming-responds none none none n h = cc
incoming-responds none none (some m) n h = cc
incoming-responds none (some i) none n h = cc
incoming-responds none (some i) (some m) n h = cc

-- A message that is classified as a response answers a pending request.
pub classify-pending :
    (b : Bridge) (message : Option Json) (n : ℕ)
    → classify b message ≡ responds n
    → has b.pending_requests n ≡ true
unfolding classify
classify-pending b none n h = cc
classify-pending b (some message) n h = elim (Bool-cases (is_object message)) [
  | inr other ↦ absurd (ground (arith, rw (other, classify) at h))
  | inl there ↦
      let id = read_id (field message "id") in
      pending_id-there b id n (
        incoming-responds (pending_id b id) id (text_field message "method") n
          (rw (there, classify) at h))
]

settles-settle :
    (id n : ℕ) (message : Json) (e : Option BridgeError)
    → settles_one id (settle n message e) ≡ (if n == id then 1 else 0)
settles-settle id n message none = refl
settles-settle id n message (some e) = refl

response-Balance :
    (id : ℕ) (b : Bridge) (n : ℕ) (message : Json)
    → IsValid b
    → has b.pending_requests n ≡ true
    → Balance id b (response b n message)
unfolding response
response-Balance id b n message v there =
    settled-Balance id n b _ v there (settles-settle id n message (message_error message))

pub handle_incoming-Balance :
    (id now handle : ℕ) (b : Bridge) (raw : String) (message : Json) (i : Incoming)
    → IsValid b
    → ((n : ℕ) → i ≡ responds n → has b.pending_requests n ≡ true)
    → Balance id b (handle_incoming (handle_server_request now handle) b raw message i)
unfolding handle_incoming
handle_incoming-Balance id now handle b raw message broken v h =
    Quiet-Balance id b _ v (record { same = refl; same_next = refl; silent = refl })
handle_incoming-Balance id now handle b raw message ignored v h =
    Quiet-Balance id b _ v (record { same = refl; same_next = refl; silent = refl })
handle_incoming-Balance id now handle b raw message (responds n) v h =
    response-Balance id b n message v (h n refl)
handle_incoming-Balance id now handle b raw message (asks i method) v h =
    Quiet-Balance id b _ v
      (handle_server_request-Quiet id now handle b i method (field message "params"))
handle_incoming-Balance id now handle b raw message (notifies method) v h =
    Quiet-Balance id b _ v (record { same = refl; same_next = refl; silent = refl })

pub request_times_out-Balance :
    (id : ℕ) (b : Bridge) (n timeout_ms : ℕ)
    → IsValid b
    → Balance id b (request_times_out b n timeout_ms)
unfolding request_times_out has
request_times_out-Balance id b n timeout_ms v = elim (Option-cases (get b.pending_requests n)) [
  | inl none' ↦
      rw (none', request_times_out)
        (Quiet-Balance id b _ v (record { same = refl; same_next = refl; silent = refl }))
  | inr (method, found) ↦
      let there : has b.pending_requests n ≡ true = ground (arith, found) in
      rw (found, request_times_out)
        (settled-Balance id n b (rejects n (timed_out method timeout_ms)) v there refl)
]
