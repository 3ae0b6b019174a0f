-- ===== src/Server/Broadcast/Effects.antt =====
-- What a broadcast does to the gate, and what it leaves alone.
use code_harbor.Common.{
  Bool-cases, Option, Option-cases, String, ap, arith, if◌then◌else◌, inl, inr, nat_eq, none, refl,
  some, string_eq, truthy, ◌∙◌, ◌≡◌,
}
use code_harbor.GatewayStore.Events.{append_event}
use code_harbor.GatewayStore.Types.{GatewayMessage, GatewaySession, GatewaySessionStatus}
use code_harbor.Server.Broadcast.{
  broadcast_gateway, persist_message, take_message, take_session, take_session_status, take_typed,
  take_unlisted,
}
use code_harbor.Server.State.{Server, is_live}
use code_harbor.Server.Types.{
  Message, MessageType, approval_expired, approval_requested, approval_resolved, numbered,
  session_finished, session_forked, session_output, session_policy_changed, session_started,
  session_status, session_user_input, stored, subagent_finished, subagent_started, subagent_tool,
}
use code_harbor.TurnGate.{TurnGate, release}

-- The session that a message releases at the gate.
abbrev pub ended_by_status : String → GatewaySessionStatus → Option String
ended_by_status id status = if is_live status then none else some id

abbrev pub ended_by_type : String → Option GatewaySessionStatus → MessageType → Option String
ended_by_type id status session_finished = some id
ended_by_type id none session_status = none
ended_by_type id (some status) session_status = ended_by_status id status
ended_by_type id status session_started = none
ended_by_type id status session_user_input = none
ended_by_type id status session_output = none
ended_by_type id status session_forked = none
ended_by_type id status session_policy_changed = none
ended_by_type id status approval_requested = none
ended_by_type id status approval_resolved = none
ended_by_type id status approval_expired = none
ended_by_type id status subagent_started = none
ended_by_type id status subagent_tool = none
ended_by_type id status subagent_finished = none

abbrev pub ended_unlisted :
    Option String → Option GatewaySessionStatus → MessageType → Option String
ended_unlisted none status type = none
ended_unlisted (some id) status type = if truthy id then ended_by_type id status type else none

abbrev pub ended_by :
    Option GatewaySession
    → Option String
    → Option GatewaySessionStatus
    → MessageType
    → Option String
ended_by (some session) id status type = ended_by_status session.id session.status
ended_by none id status type = ended_unlisted id status type

unfoldable pub released_by : Message → Option String
released_by m = ended_by m.payload.session m.session_id m.payload.status m.type

abbrev pub release_of : TurnGate → Option String → TurnGate
release_of gate none = gate
release_of gate (some id) = release gate id

take_session-gate :
    (s : Server) (m : Message) (session : GatewaySession)
    → (take_session s m session).gate
      ≡ release_of s.gate (ended_by_status session.id session.status)
unfolding take_session
take_session-gate s m session = ground arith

take_session_status-gate :
    (s : Server) (m : Message) (id : String) (o : Option GatewaySessionStatus)
    → (take_session_status s m id o).gate ≡ release_of s.gate (ended_by_type id o session_status)
unfolding take_session_status
take_session_status-gate s m id none = refl
take_session_status-gate s m id (some status) = ground arith

take_typed-gate :
    (s : Server) (m : Message) (id : String) (type : MessageType)
    → (take_typed s m id type).gate ≡ release_of s.gate (ended_by_type id m.payload.status type)
unfolding take_typed
take_typed-gate s m id session_status = take_session_status-gate s m id m.payload.status
take_typed-gate s m id session_finished = refl
take_typed-gate s m id approval_requested = refl
take_typed-gate s m id _ = refl

take_unlisted-gate :
    (s : Server) (m : Message) (o : Option String)
    → (take_unlisted s m o).gate ≡ release_of s.gate (ended_unlisted o m.payload.status m.type)
unfolding take_unlisted
take_unlisted-gate s m none = refl
take_unlisted-gate s m (some id) = elim (Bool-cases (truthy id)) [
  | inl there ↦ rw there (take_typed-gate s m id m.type)
  | inr empty ↦ rw empty refl
]

take_message-gate :
    (s : Server) (m : Message) (o : Option GatewaySession)
    → (take_message s m o).gate
      ≡ release_of s.gate (ended_by o m.session_id m.payload.status m.type)
unfolding take_message
take_message-gate s m (some session) = take_session-gate s m session
take_message-gate s m none = take_unlisted-gate s m m.session_id

numbered-released :
    (m : Message) (o : Option GatewayMessage) → released_by (numbered m o) ≡ released_by m
unfolding released_by
numbered-released m none = refl
numbered-released m (some p) = refl

-- The gate behind a broadcast.
pub broadcast-gate :
    (s : Server) (m : Message) → (broadcast_gateway s m).gate ≡ release_of s.gate (released_by m)
unfolding broadcast_gateway persist_message released_by
broadcast-gate s m =
    let (s', out) = persist_message s m in
    take_message-gate s' out out.payload.session
    ∙ ap (release_of s.gate) (numbered-released m (append_event s.store (stored m)).1)

-- What no message touches.
abbrev pub SameRuns : Server → Server → Type 0
SameRuns s t =
    (t.runs ≡ s.runs)
    × (t.cancelled_sessions ≡ s.cancelled_sessions)
    × (t.interrupts ≡ s.interrupts)
    × (t.command ≡ s.command)

take_typed-SameRuns :
    (s : Server) (m : Message) (id : String) (type : MessageType)
    → SameRuns s (take_typed s m id type)
unfolding take_typed
take_typed-SameRuns s m id session_status = elim (Option-cases m.payload.status) [
  | inl nothing ↦ rw nothing (refl, refl, refl, refl)
  | inr (status, there) ↦ rw there (ground arith)
]
take_typed-SameRuns s m id session_finished = (refl, refl, refl, refl)
take_typed-SameRuns s m id _ = (refl, refl, refl, refl)

take_message-SameRuns :
    (s : Server) (m : Message) (o : Option GatewaySession) → SameRuns s (take_message s m o)
unfolding take_message take_session take_unlisted
take_message-SameRuns s m (some session) = ground arith
take_message-SameRuns s m none = elim (Option-cases m.session_id) [
  | inl nothing ↦ rw nothing (refl, refl, refl, refl)
  | inr (id, there) ↦ rw there (ground (arith, take_typed-SameRuns s m id m.type))
]

pub broadcast-SameRuns : (s : Server) (m : Message) → SameRuns s (broadcast_gateway s m)
unfolding broadcast_gateway persist_message
broadcast-SameRuns s m =
    let (s', out) = persist_message s m in take_message-SameRuns s' out out.payload.session
