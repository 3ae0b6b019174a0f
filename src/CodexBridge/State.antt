-- ===== src/CodexBridge/State.antt =====
-- codexBridge.ts, the state of the bridge, and the effects of its steps. The continuation of an
-- approval runs after the code that decided it, so decisions wait in `decided` for a step of their own.
use code_harbor.CodexBridge.Ids.{RequestId}
use code_harbor.CodexBridge.Messages.{ApprovalDecision, BridgeError, Result, denial}
use code_harbor.Common.{
  Bool, List, Option, String, [], false, if◌then◌else◌, nat_eq, not, string_eq, true, ℕ, ◌&&◌, ◌++◌,
  ◌∷◌,
}
use code_harbor.Common.JsMap.{JsMap, delete}
use code_harbor.Common.Json.{Json}
use code_harbor.Common.Text.{concat}
use code_harbor.GatewayStore.Types.{PolicyMode}

-- The child process: whether it was killed, and whether its input takes writes.
pub data Child : Type 0 where
  no_child : Child
  child : Bool → Bool → Child

-- The guard of every write.
abbrev pub can_write : Child → Bool
can_write no_child = false
can_write (child killed writable) = not killed && writable

-- `this.child && !this.child.killed`
abbrev pub is_alive : Child → Bool
is_alive no_child = false
is_alive (child killed writable) = not killed

-- `handle` names the timer, which carries what its callback needs: `id` is the request to answer.
pub record PendingApproval : Type 0 where
  pub request_id : String
  pub id : RequestId
  pub thread_id : String
  pub turn_id : Option String
  pub method : String
  pub expires_at : ℕ
  pub handle : ℕ

-- An approval that was decided, and is not answered yet.
pub record Decided : Type 0 where
  pub decided_id : RequestId
  pub decided_method : String
  pub verdict : ApprovalDecision

pub record Bridge : Type 0 where
  pub process : Child
  pub ready : Bool
  pub next_id : ℕ
  -- The method of each request that waits for its response or its timer.
  pub pending_requests : JsMap ℕ String
  pub pending_approvals : JsMap String PendingApproval
  pub approval_timers : JsMap ℕ PendingApproval
  pub policy_by_thread : JsMap String PolicyMode
  pub stdout_buffer : String
  pub decided : List Decided

-- Why a request of ours is rejected.
pub data Failure : Type 0 where
  replied : BridgeError → Failure
  timed_out : String → ℕ → Failure
  stopped : String → Failure

-- What a prompt for an approval shows: the texts are cut to their bounds.
pub record Prompt : Type 0 where
  pub prompt_request : PendingApproval
  pub item_id : Option String
  pub summary : Option String
  pub command : Option String
  pub cwd : Option String
  pub proposed_execpolicy_amendment : Option (List String)

pub data Event : Type 0 where
  unparseable : String → Event
  notification : String → Option Json → Event
  approval_requested : Prompt → Event
  approval_expired : PendingApproval → Event
  server_request : RequestId → String → Event
  request_error : RequestId → String → Event
  output_limit : ℕ → Event
  app_server_error : String → Event
  app_server_exited : Event
  logs : String → Event

pub data Effect : Type 0 where
  spawns kills : Effect
  writes_request : ℕ → String → Option Json → Effect
  writes_notification : String → Effect
  writes_result : RequestId → Result → Effect
  writes_failure : RequestId → Effect
  resolves : ℕ → Json → Effect
  rejects : ℕ → Failure → Effect
  emits : Event → Effect

-- Every request is rejected and every approval denied; all timers of both are cleared.
abbrev pub reject_each : Failure → JsMap ℕ String → List Effect
reject_each failure [] = []
reject_each failure ((id, method) ∷ m) = rejects id failure ∷ reject_each failure m

abbrev pub denied : JsMap String PendingApproval → List Decided
denied [] = []
denied ((request_id, a) ∷ m) =
    record { decided_id = a.id; decided_method = a.method; verdict = denial } ∷ denied m

abbrev pub clear_timers :
    JsMap String PendingApproval → JsMap ℕ PendingApproval → JsMap ℕ PendingApproval
clear_timers [] timers = timers
clear_timers ((request_id, a) ∷ m) timers = clear_timers m (delete timers a.handle)

unfoldable pub reject_all : Bridge → Failure → Bridge × List Effect
reject_all b failure = (
  record b {
    pending_requests = [];
    pending_approvals = [];
    approval_timers = clear_timers b.pending_approvals b.approval_timers;
    decided = b.decided ++ denied b.pending_approvals;
  },
  reject_each failure b.pending_requests,
)

unfoldable pub shutdown : Bridge → Bridge × List Effect
shutdown b =
    let (b', effects) =
      reject_all (record b { ready = false }) (stopped "Codex app-server shutting down") in
    (record b' { process = no_child }, effects ++ (if is_alive b.process then kills ∷ [] else []))

-- The handlers of the child: an error of its input, of the process, and its exit.
unfoldable pub stdin_error : Bridge → String → Bridge × List Effect
stdin_error b message =
    let (b', effects) = reject_all (record b { ready = false }) (stopped message) in
    (b', effects ++ emits (logs (concat "Codex app-server stdin failed: " message)) ∷ [])

unfoldable pub child_error : Bridge → String → Bridge × List Effect
child_error b message =
    let (b', effects) =
      reject_all (record b { ready = false; process = no_child }) (stopped message) in
    (
      b',
      effects
          ++ emits (logs (concat "Failed to start Codex app-server: " message))
            ∷ emits (app_server_error message)
            ∷ [],
    )

-- `message` says with which code and signal.
unfoldable pub child_exit : Bridge → String → Bridge × List Effect
child_exit b message =
    let (b', effects) =
      reject_all (record b { ready = false; process = no_child }) (stopped message) in
    (b', effects ++ emits app_server_exited ∷ [])

unfoldable pub ensure_server_process : Bridge → Bridge × List Effect
ensure_server_process b =
    if is_alive b.process
    then (b, [])
    else (record b { process = child false true; stdout_buffer = "" }, spawns ∷ [])
