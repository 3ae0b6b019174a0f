-- ===== src/TurnGate.antt =====
-- gateway/acode-upstream/server/src/turnGate.ts: one top-level turn at a time in each session.
pub mod Exclusion
mod Tests
use code_harbor.Common.{
  Bool, List, Option, String, [], false, if◌then◌else◌, nat_eq, none, some, string_eq, truthy, ◌&&◌,
  ◌==◌, ◌∷◌,
}
use code_harbor.Common.JsMap.{JsSet, delete, has, set}

pub data TurnAdmission : Type 0 where
  accepted duplicate busy : TurnAdmission

pub record TurnGate : Type 0 where
  pub active_sessions : JsSet String

-- `clientRequestId && clientRequestId === persistedRequestId`
abbrev pub is_retry : Option String → Option String → Bool
is_retry none persisted = false
is_retry (some client) none = false
is_retry (some client) (some persisted) = truthy client && client == persisted

unfoldable pub acquire :
    TurnGate → String → Option String → Option String → TurnGate × TurnAdmission
unfolding has
acquire gate session client persisted =
    if is_retry client persisted
    then (gate, duplicate)
    else if has gate.active_sessions session
    then (gate, busy)
    else (record gate { active_sessions = set gate.active_sessions session tt }, accepted)

unfoldable pub release : TurnGate → String → TurnGate
release gate session = record gate { active_sessions = delete gate.active_sessions session }

unfoldable pub is_active : TurnGate → String → Bool
is_active gate session = has gate.active_sessions session

-- A call of the gate, and a history of calls.
pub data Call : Type 0 where
  acquires : String → Option String → Option String → Call
  releases : String → Call

pub step : TurnGate → Call → TurnGate
step gate (acquires session client persisted) = (acquire gate session client persisted).0
step gate (releases session) = release gate session

pub run : TurnGate → List Call → TurnGate
run gate [] = gate
run gate (c ∷ cs) = run (step gate c) cs
