-- ===== src/CodexBridge/Histories/Settlement/Once.antt =====
-- Every request to the child is settled once, in every history.
use code_harbor.CodexBridge.Histories.{
  Step, connects, exits, expires, fails, goes_on, handle_lines, handle_message, handle_received,
  handle_stdout_chunk, initializes, input_fails, new_bridge, receives, resolves_approval, run,
  sends, set_policy_mode, sets_policy, shuts_down, step, times_out,
}
use code_harbor.CodexBridge.Histories.Settlement.{
  Balance, Balance-trans, IsValid, Quiet-Balance, send_request-Balance, settles,
}
use code_harbor.CodexBridge.Histories.Settlement.Runs.{
  answer_decided-Balance, approval_expires-Balance, child_error-Balance, child_exit-Balance,
  connect-Balance, exceed_limit-Balance, from_same, initialized-Balance, no_change,
  resolve_approval-Balance, same-IsValid, shutdown-Balance, stdin_error-Balance,
}
use code_harbor.CodexBridge.Histories.Settlement.Steps.{
  classify-pending, handle_incoming-Balance, request_times_out-Balance,
}
use code_harbor.CodexBridge.Lines.{receive}
use code_harbor.CodexBridge.Requests.{classify}
use code_harbor.CodexBridge.State.{Bridge}
use code_harbor.Common.{
  List, Option, String, [], arith, if◌then◌else◌, ltb, nat_eq, none, or_else, refl, some, string_eq,
  suc, ℕ, ◌∷◌, ◌≡◌, ◌≤◌,
}
use code_harbor.Common.JsMap.{get, has}
use code_harbor.Common.Json.{Json, null}

module _ (parse : String → Option Json) (id : ℕ) where
  handle_lines-Balance :
      (now handle : ℕ) (b : Bridge) (lines : List String)
      → IsValid b
      → Balance id b (handle_lines parse now handle b lines)
  unfolding handle_lines handle_message
  handle_lines-Balance now handle b [] v = Quiet-Balance id b _ v (no_change id b)
  handle_lines-Balance now handle b (line ∷ lines) v =
      let message = parse line in
      let p =
        handle_incoming-Balance id now handle b line (or_else message null) (classify b message) v
          (classify-pending b message) in
      let b₁ = (handle_message parse now handle b line).0 in
      Balance-trans id b (handle_message parse now handle b line)
        (handle_lines parse now (suc handle) b₁ lines) p
        (handle_lines-Balance now (suc handle) b₁ lines p.valid)

  handle_received-Balance :
      (now handle : ℕ) (b : Bridge) (received : Option (List String × String))
      → IsValid b
      → Balance id b (handle_received parse now handle b received)
  unfolding handle_received
  handle_received-Balance now handle b none v = exceed_limit-Balance id b v
  handle_received-Balance now handle b (some (lines, left)) v =
      let c = record b { stdout_buffer = left } in
      from_same id b c _ refl refl
        (handle_lines-Balance now handle c lines (same-IsValid b c refl refl v))

  step-Balance : (b : Bridge) (s : Step parse) → IsValid b → Balance id b (step parse b s)
  unfolding step handle_stdout_chunk set_policy_mode
  step-Balance b (connects params) v = connect-Balance id b v params
  step-Balance b initializes v = initialized-Balance id b v
  step-Balance b (sends method params) v = send_request-Balance id b method params v
  step-Balance b (times_out n timeout_ms) v = request_times_out-Balance id b n timeout_ms v
  step-Balance b (receives now handle chunk) v =
      handle_received-Balance now handle b (receive b.stdout_buffer chunk) v
  step-Balance b (resolves_approval request d thread turn) v =
      resolve_approval-Balance id b v request d thread turn
  step-Balance b (expires handle) v = approval_expires-Balance id b v handle
  step-Balance b goes_on v = answer_decided-Balance id b v
  step-Balance b (sets_policy thread mode) v =
      Quiet-Balance id b _ v (record { same = refl; same_next = refl; silent = refl })
  step-Balance b shuts_down v = shutdown-Balance id b v
  step-Balance b (input_fails message) v = stdin_error-Balance id b v message
  step-Balance b (fails message) v = child_error-Balance id b v message
  step-Balance b (exits message) v = child_exit-Balance id b v message

  run-Balance : (b : Bridge) (ss : List (Step parse)) → IsValid b → Balance id b (run parse b ss)
  unfolding run
  run-Balance b [] v = Quiet-Balance id b _ v (no_change id b)
  run-Balance b (s ∷ ss) v =
      let p = step-Balance b s v in
      let b₁ = (step parse b s).0 in
      Balance-trans id b (step parse b s) (run parse b₁ ss) p (run-Balance b₁ ss p.valid)

-- In every history of a new bridge, each request that was sent (its id, from 1 on, is below the next) is either
-- still pending and was never settled, or was resolved or rejected exactly once; a request that was
-- not sent is never settled.
pub run-settles :
    (parse : String → Option Json) (id : ℕ) (ss : List (Step parse))
    → 1 ≤ id
    → settles id (run parse new_bridge ss).1 ≡ (
        if has (run parse new_bridge ss).0.pending_requests id
        then 0
        else if ltb id (run parse new_bridge ss).0.next_id
        then 1
        else 0)
unfolding has get
run-settles parse id ss pos =
    let p = run-Balance parse id new_bridge ss (record { distinct = tt; below = tt }) in
    ground (arith, p.balanced)
