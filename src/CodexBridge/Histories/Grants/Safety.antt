-- ===== src/CodexBridge/Histories/Grants/Safety.antt =====
-- No result grants anything without an approval by the user: messages, and whole histories.
use code_harbor.CodexBridge.Approvals.{handle_server_request}
use code_harbor.CodexBridge.Histories.{
  Step, connect, connects, exits, expires, fails, goes_on, handle_lines, handle_message,
  handle_received, handle_stdout_chunk, initializes, input_fails, new_bridge, receives,
  resolves_approval, run, sends, sets_policy, shuts_down, step, times_out,
}
use code_harbor.CodexBridge.Histories.Grants.{
  Denies, Guarded, any_grants, handle_server_request-Denies,
}
use code_harbor.CodexBridge.Histories.Grants.Runs.{
  Denies-append, answer_decided-Denies, approval_expires-Denies, child_error-Denies,
  child_exit-Denies, exceed_limit-Denies, initialized-Denies, request_times_out-Denies,
  resolve_approval-Guarded, same_guard, send_request-Denies, set_policy_mode-Guarded,
  shutdown-Denies, stdin_error-Denies,
}
use code_harbor.CodexBridge.Lines.{receive}
use code_harbor.CodexBridge.Messages.{BridgeError, is_approve, message_error}
use code_harbor.CodexBridge.Requests.{
  Incoming, asks, broken, classify, handle_incoming, ignored, notifies, responds, response, settle,
}
use code_harbor.CodexBridge.State.{Bridge, child, ensure_server_process, is_alive}
use code_harbor.Common.{
  All, Bool-cases, List, Option, String, [], false, inl, inr, none, or_else, refl, some, suc, true,
  ℕ, ◌∷◌, ◌≡◌,
}
use code_harbor.Common.Json.{Json, field, null}
use code_harbor.GatewayStore.Types.{confirm}

response-Denies : (b : Bridge) (n : ℕ) (message : Json) → Guarded b → Denies (response b n message)
unfolding response
response-Denies b n message g = record {
  guarded = same_guard b _ refl refl g;
  nothing = by_error (message_error message);
}
  where
    by_error : (e : Option BridgeError) → any_grants (settle n message e ∷ []) ≡ false
    by_error none = refl
    by_error (some e) = refl

handle_incoming-Denies :
    (now handle : ℕ) (b : Bridge) (raw : String) (message : Json) (i : Incoming)
    → Guarded b
    → Denies (handle_incoming (handle_server_request now handle) b raw message i)
unfolding handle_incoming
handle_incoming-Denies now handle b raw message broken g = record { guarded = g; nothing = refl }
handle_incoming-Denies now handle b raw message ignored g = record { guarded = g; nothing = refl }
handle_incoming-Denies now handle b raw message (responds n) g = response-Denies b n message g
handle_incoming-Denies now handle b raw message (asks i method) g =
    handle_server_request-Denies now handle b i method (field message "params") g
handle_incoming-Denies now handle b raw message (notifies method) g = record {
  guarded = g;
  nothing = refl;
}

connect-Denies : (b : Bridge) (params : Json) → Guarded b → Denies (connect b params)
unfolding connect ensure_server_process
connect-Denies b params g = elim (Bool-cases (is_alive b.process)) [
  | inl alive ↦
      let c = record b { ready = false } in
      rw alive (send_request-Denies c (same_guard b c refl refl g) "initialize" (some params))
  | inr dead ↦
      let c = record b { ready = false; process = child false true; stdout_buffer = "" } in
      let p = send_request-Denies c (same_guard b c refl refl g) "initialize" (some params) in
      rw dead (record { guarded = p.guarded; nothing = p.nothing })
]

module _ (parse : String → Option Json) where
  handle_lines-Denies :
      (now handle : ℕ) (b : Bridge) (lines : List String)
      → Guarded b
      → Denies (handle_lines parse now handle b lines)
  unfolding handle_lines handle_message
  handle_lines-Denies now handle b [] g = record { guarded = g; nothing = refl }
  handle_lines-Denies now handle b (line ∷ lines) g =
      let message = parse line in
      let p =
        handle_incoming-Denies now handle b line (or_else message null) (classify b message) g in
      let r = handle_message parse now handle b line in
      Denies-append r (handle_lines parse now (suc handle) r.0 lines) p
        (handle_lines-Denies now (suc handle) r.0 lines p.guarded)

  handle_received-Denies :
      (now handle : ℕ) (b : Bridge) (received : Option (List String × String))
      → Guarded b
      → Denies (handle_received parse now handle b received)
  unfolding handle_received
  handle_received-Denies now handle b none g = exceed_limit-Denies b g
  handle_received-Denies now handle b (some (lines, left)) g =
      let c = record b { stdout_buffer = left } in
      handle_lines-Denies now handle c lines (same_guard b c refl refl g)

  -- The step is no approval, and gives no thread full access.
  abbrev pub IsCautious : Step parse → Type 0
  IsCautious (resolves_approval request d thread turn) = is_approve d.decision ≡ false
  IsCautious (sets_policy thread mode) = mode ≡ confirm
  IsCautious (connects params) = Unit
  IsCautious initializes = Unit
  IsCautious (sends method params) = Unit
  IsCautious (times_out n timeout_ms) = Unit
  IsCautious (receives now handle chunk) = Unit
  IsCautious (expires handle) = Unit
  IsCautious goes_on = Unit
  IsCautious shuts_down = Unit
  IsCautious (input_fails message) = Unit
  IsCautious (fails message) = Unit
  IsCautious (exits message) = Unit

  step-Denies : (b : Bridge) (s : Step parse) → IsCautious s → Guarded b → Denies (step parse b s)
  unfolding step handle_stdout_chunk
  step-Denies b (connects params) c g = connect-Denies b params g
  step-Denies b initializes c g = initialized-Denies b g
  step-Denies b (sends method params) c g = send_request-Denies b g method params
  step-Denies b (times_out n timeout_ms) c g = request_times_out-Denies b g n timeout_ms
  step-Denies b (receives now handle chunk) c g =
      handle_received-Denies now handle b (receive b.stdout_buffer chunk) g
  step-Denies b (resolves_approval request d thread turn) c g = record {
    guarded = resolve_approval-Guarded b g request d thread turn c;
    nothing = refl;
  }
  step-Denies b (expires handle) c g = approval_expires-Denies b g handle
  step-Denies b goes_on c g = answer_decided-Denies b g
  step-Denies b (sets_policy thread mode) c g = record {
    guarded = rw c (set_policy_mode-Guarded b g thread);
    nothing = refl;
  }
  step-Denies b shuts_down c g = shutdown-Denies b g
  step-Denies b (input_fails message) c g = stdin_error-Denies b g message
  step-Denies b (fails message) c g = child_error-Denies b g message
  step-Denies b (exits message) c g = child_exit-Denies b g message

  run-Denies :
      (b : Bridge) (ss : List (Step parse))
      → All IsCautious ss
      → Guarded b
      → Denies (run parse b ss)
  unfolding run
  run-Denies b [] c g = record { guarded = g; nothing = refl }
  run-Denies b (s ∷ ss) (c, cs) g =
      let r = step parse b s in
      let p = step-Denies b s c g in
      Denies-append r (run parse r.0 ss) p (run-Denies r.0 ss cs p.guarded)

-- In a history in which the user approves nothing and no thread is given full access, the child is
-- never told that it may go on with what it asked approval for: no result that the bridge writes
-- grants anything, whatever the child sends, whichever timers run out and however the child ends.
pub run-grants_nothing :
    (parse : String → Option Json) (ss : List (Step parse))
    → All (IsCautious parse) ss
    → any_grants (run parse new_bridge ss).1 ≡ false
run-grants_nothing parse ss c =
    (run-Denies parse new_bridge ss c (record { confirms = tt; denials = tt })).nothing
