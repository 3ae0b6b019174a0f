-- ===== src/CodexBridge/Policies.antt =====
-- codexBridge.ts, the policy of each thread and what is sent to the child for it.
pub mod Laws
use code_harbor.Common.{Option, String, nat_eq, or_else, string_eq, ℕ}
use code_harbor.Common.JsMap.{JsMap, delete, get, set, shrink}
use code_harbor.GatewayStore.Types.{PolicyMode, confirm, full_access}

abbrev pub max_policy_entries : ℕ
max_policy_entries = 10_000

-- A thread whose policy is set again becomes the newest; the oldest beyond the bound are dropped.
unfoldable pub remember_policy :
    JsMap String PolicyMode → String → PolicyMode → JsMap String PolicyMode
remember_policy m thread mode = shrink max_policy_entries (set (delete m thread) thread mode)

-- `this.policyByThread.get(threadId) ?? "confirm"`
unfoldable pub policy_of : JsMap String PolicyMode → String → PolicyMode
policy_of m thread = or_else (get m thread) confirm

pub data ApprovalPolicy : Type 0 where
  never on_request : ApprovalPolicy

pub data Sandbox : Type 0 where
  danger_full_access read_only : Sandbox

-- `mode === "full-access" ? "never" : "on-request"`
abbrev pub approval_policy : PolicyMode → ApprovalPolicy
approval_policy full_access = never
approval_policy confirm = on_request

abbrev pub sandbox_policy : PolicyMode → Sandbox
sandbox_policy full_access = danger_full_access
sandbox_policy confirm = read_only

-- The policy with which `resumeThread`, `startTurn` and `forkThread` go on, and that they remember:
-- the one given, or the one remembered for the thread.
unfoldable pub effective_mode : JsMap String PolicyMode → String → Option PolicyMode → PolicyMode
effective_mode m thread mode = or_else mode (policy_of m thread)

unfoldable pub choose_policy :
    JsMap String PolicyMode
    → String
    → Option PolicyMode
    → JsMap String PolicyMode × (ApprovalPolicy × Sandbox)
choose_policy m thread mode =
    let chosen = effective_mode m thread mode in
    (remember_policy m thread chosen, (approval_policy chosen, sandbox_policy chosen))
