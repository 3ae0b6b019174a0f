-- ===== src/CodexBridge/Histories.antt =====
-- codexBridge.ts, the output handler, the connection, and histories of all that can happen to the
-- bridge. What `JSON.parse` makes of a line is a parameter, `none` where it throws.
pub mod Settlement
pub mod Grants
use code_harbor.CodexBridge.Approvals.{
  answer_decided, approval_expires, handle_server_request, resolve_approval,
}
use code_harbor.CodexBridge.Lines.{max_stdout_buffer_bytes, receive}
use code_harbor.CodexBridge.Messages.{ApprovalDecision}
use code_harbor.CodexBridge.Policies.{remember_policy}
use code_harbor.CodexBridge.Requests.{classify, handle_incoming, request_times_out, send_request}
use code_harbor.CodexBridge.State.{
  Bridge, Child, Effect, can_write, child, child_error, child_exit, emits, ensure_server_process,
  is_alive, kills, no_child, output_limit, reject_all, shutdown, stdin_error, stopped,
  writes_notification,
}
use code_harbor.Common.{
  List, Option, String, [], false, if◌then◌else◌, none, or_else, some, suc, true, ℕ, ◌++◌, ◌∷◌,
}
use code_harbor.Common.Json.{Json, null}
use code_harbor.GatewayStore.Types.{PolicyMode}

-- `setPolicyMode`: the policy of the next turn of a thread.
unfoldable pub set_policy_mode : Bridge → String → PolicyMode → Bridge
set_policy_mode b thread mode = record b {
  policy_by_thread = remember_policy b.policy_by_thread thread mode;
}

-- `connect` up to the wait for the response to `initialize`.
unfoldable pub connect : Bridge → Json → Bridge × List Effect
connect b params =
    let (b₁, spawned) = ensure_server_process (record b { ready = false }) in
    let (b₂, written, outcome) = send_request b₁ "initialize" (some params) in
    (b₂, spawned ++ written)

-- The rest of `connect`, once the response is there.
unfoldable pub initialized : Bridge → Bridge × List Effect
initialized b =
    if can_write b.process
    then (record b { ready = true }, writes_notification "initialized" ∷ [])
    else (b, [])

abbrev pub killed : Child → Child
killed no_child = no_child
killed (child dead writable) = child true writable

abbrev pub kill_effects : Child → List Effect
kill_effects c = if is_alive c then kills ∷ [] else []

-- Too much output: all that waits is given up, and the child is killed.
unfoldable pub exceed_limit : Bridge → Bridge × List Effect
exceed_limit b =
    let (b', effects) =
      reject_all (record b { stdout_buffer = "" })
        (stopped "Codex app-server output exceeded the safety limit") in
    (
      record b' { process = killed b.process },
      effects ++ (kill_effects b.process ++ emits (output_limit max_stdout_buffer_bytes) ∷ []),
    )

module _ (parse : String → Option Json) where
  -- The clock is read once for a chunk, and each timer has a handle of its own.
  unfoldable pub handle_message : ℕ → ℕ → Bridge → String → Bridge × List Effect
  handle_message now handle b raw =
      let message = parse raw in
      handle_incoming (handle_server_request now handle) b raw (or_else message null)
        (classify b message)

  unfoldable pub handle_lines : ℕ → ℕ → Bridge → List String → Bridge × List Effect
  handle_lines now handle b [] = (b, [])
  handle_lines now handle b (line ∷ lines) =
      let (b₁, effects) = handle_message now handle b line in
      let (b₂, more) = handle_lines now (suc handle) b₁ lines in (b₂, effects ++ more)

  unfoldable pub handle_received :
      ℕ → ℕ → Bridge → Option (List String × String) → Bridge × List Effect
  handle_received now handle b none = exceed_limit b
  handle_received now handle b (some (lines, left)) =
      handle_lines now handle (record b { stdout_buffer = left }) lines

  unfoldable pub handle_stdout_chunk : ℕ → ℕ → Bridge → String → Bridge × List Effect
  handle_stdout_chunk now handle b chunk =
      handle_received now handle b (receive b.stdout_buffer chunk)

  -- What can happen next.
  pub data Step : Type 0 where
    connects : Json → Step
    initializes : Step
    sends : String → Option Json → Step
    times_out : ℕ → ℕ → Step
    receives : ℕ → ℕ → String → Step
    resolves_approval : String → ApprovalDecision → Option String → Option String → Step
    expires : ℕ → Step
    goes_on : Step
    sets_policy : String → PolicyMode → Step
    shuts_down : Step
    input_fails fails exits : String → Step

  unfoldable pub step : Bridge → Step → Bridge × List Effect
  step b (connects params) = connect b params
  step b initializes = initialized b
  step b (sends method params) =
      let (b', effects, outcome) = send_request b method params in (b', effects)
  step b (times_out id timeout_ms) = request_times_out b id timeout_ms
  step b (receives now handle chunk) = handle_stdout_chunk now handle b chunk
  step b (resolves_approval request d thread turn) =
      ((resolve_approval b request d thread turn).0, [])
  step b (expires handle) = approval_expires b handle
  step b goes_on = answer_decided b
  step b (sets_policy thread mode) = (set_policy_mode b thread mode, [])
  step b shuts_down = shutdown b
  step b (input_fails message) = stdin_error b message
  step b (fails message) = child_error b message
  step b (exits message) = child_exit b message

  unfoldable pub run : Bridge → List Step → Bridge × List Effect
  run b [] = (b, [])
  run b (s ∷ ss) =
      let (b₁, effects) = step b s in let (b₂, more) = run b₁ ss in (b₂, effects ++ more)

abbrev pub new_bridge : Bridge
new_bridge = record {
  process = no_child;
  ready = false;
  next_id = 1;
  pending_requests = [];
  pending_approvals = [];
  approval_timers = [];
  policy_by_thread = [];
  stdout_buffer = "";
  decided = [];
}
