-- ===== src/Server/State.antt =====
-- index.ts, the state that the handlers share: the singletons that it imports, its own sets, and what
-- has been sent to the clients and to Codex.
use code_harbor.Common.{
  Bool, List, Option, String, [], false, if◌then◌else◌, nat_eq, none, some, string_eq, true, truthy,
  ◌++◌, ◌∷◌,
}
use code_harbor.Common.JsMap.{JsMap, JsSet, delete, set}
use code_harbor.GatewayStore.State.{Store, update_session, upsert_session}
use code_harbor.GatewayStore.Types.{
  GatewaySession, GatewaySessionStatus, cancelled, completed, failed, running, starting,
  waiting_approval,
}
use code_harbor.Server.Types.{Message}
use code_harbor.SessionRunState.{SessionRunState}
use code_harbor.TurnGate.{TurnGate, release}

pub record Server : Type 0 where
  pub store : Store
  pub gate : TurnGate
  pub runs : SessionRunState
  pub cancelled_sessions : JsSet String
  pub process_live_session_ids : JsSet String
  pub subagent_parents : JsMap String String
  pub sent : List Message
  -- Calls of `codexBridge.interruptTurn`: the thread and the turn.
  pub interrupts : List (String × String)
  -- `config.codexBin` with ` app-server` behind it.
  pub command : String

-- `status === "running" || status === "starting" || status === "waiting-approval"`
abbrev pub is_live : GatewaySessionStatus → Bool
is_live running = true
is_live starting = true
is_live waiting_approval = true
is_live completed = false
is_live failed = false
is_live cancelled = false

unfoldable pub mark_live : Server → String → Server
mark_live s id = record s { process_live_session_ids = set s.process_live_session_ids id tt }

-- `processLiveSessionIds.delete(id); turnGate.release(id)`
unfoldable pub let_go : Server → String → Server
unfolding release
let_go s id = record s {
  process_live_session_ids = delete s.process_live_session_ids id;
  gate = release s.gate id;
}

unfoldable pub update : Server → String → (GatewaySession → GatewaySession) → Server
update s id updater = record s { store = (update_session s.store id updater).0 }

unfoldable pub upsert : Server → GatewaySession → Server
upsert s session = record s { store = upsert_session s.store session }

-- `broadcast(outbound)`
unfoldable pub send : Server → Message → Server
send s m = record s { sent = s.sent ++ m ∷ [] }

-- `requestCodexInterrupt`
unfoldable pub request_codex_interrupt : Server → String → Option String → Server
request_codex_interrupt s id none = s
request_codex_interrupt s id (some turn) =
    if truthy turn then record s { interrupts = s.interrupts ++ (id, turn) ∷ [] } else s
