-- ===== src/Server/Histories/Silence.antt =====
-- A run that was interrupted is silent from then on.
use code_harbor.Common.{
  ==_refl, Bool-cases, List, Option, Option-cases, String, [], arith, false, if◌then◌else◌, inl,
  inr, nat_eq, none, or_else, refl, some, string_eq, sym, true, truthy, ℕ, ◌++◌, ◌+◌, ◌<◌, ◌∷◌, ◌≡◌,
}
use code_harbor.Common.JsMap.{get, get-set}
use code_harbor.GatewayStore.Types.{GatewaySession}
use code_harbor.Server.Broadcast.Effects.{broadcast-SameRuns}
use code_harbor.Server.Histories.{Step, run}
use code_harbor.Server.Histories.Generations.{generation_of}
use code_harbor.Server.Histories.Growth.{run-Grows}
use code_harbor.Server.Interrupts.{cancelled_message, record_interrupt, settle_interrupted_session}
use code_harbor.Server.State.{Server, let_go, upsert}
use code_harbor.Server.Turns.{
  Outcome, Run, Stage, answers, continue_run, fails, interrupt_late, preparing, resuming,
  starting_turn, stop_late,
}
use code_harbor.SessionRunState.{SessionRunState, begin, cancel, is_current}
use mathlib.Core.List.{append-nil}

-- The turn that a run started too late.
abbrev pub late_turn : Stage → Outcome → Option String
late_turn resuming o = none
late_turn preparing o = none
late_turn starting_turn fails = none
late_turn starting_turn (answers turn) = turn

abbrev pub late_interrupts : String → Option String → List (String × String)
late_interrupts id none = []
late_interrupts id (some turn) = if truthy turn then (id, turn) ∷ [] else []

-- Everything but the calls to interrupt a turn.
pub record Untouched (s t : Server) : Type 0 where
  pub store : t.store ≡ s.store
  pub gate : t.gate ≡ s.gate
  pub runs : t.runs ≡ s.runs
  pub cancelled_sessions : t.cancelled_sessions ≡ s.cancelled_sessions
  pub process_live_session_ids : t.process_live_session_ids ≡ s.process_live_session_ids
  pub subagent_parents : t.subagent_parents ≡ s.subagent_parents
  pub sent : t.sent ≡ s.sent

interrupt_late-Untouched :
    (s : Server) (r : Run) (turn : Option String) (stage : Stage)
    → Untouched s (interrupt_late s r turn stage)
      × ((interrupt_late s r turn stage).interrupts
          ≡ s.interrupts ++ late_interrupts r.session_id (late_turn stage (answers turn)))
unfolding interrupt_late
interrupt_late-Untouched s r turn resuming = (ground arith, sym (append-nil s.interrupts))
interrupt_late-Untouched s r turn preparing = (ground arith, sym (append-nil s.interrupts))
interrupt_late-Untouched s r none starting_turn = (ground arith, sym (append-nil s.interrupts))
interrupt_late-Untouched s r (some turn) starting_turn = elim (Bool-cases (truthy turn)) [
  | inl there ↦ rw there (ground arith, refl)
  | inr empty ↦ rw empty (ground arith, sym (append-nil s.interrupts))
]

stop_late-Untouched :
    (s : Server) (r : Run) (o : Outcome)
    → Untouched s (stop_late s r o)
      × ((stop_late s r o).interrupts
          ≡ s.interrupts ++ late_interrupts r.session_id (late_turn r.stage o))
unfolding stop_late
stop_late-Untouched s r (answers turn) = interrupt_late-Untouched s r turn r.stage
stop_late-Untouched s r fails = (ground arith, no_turn r.stage)
  where
    no_turn :
        (stage : Stage)
        → s.interrupts ≡ s.interrupts ++ late_interrupts r.session_id (late_turn stage fails)
    no_turn resuming = sym (append-nil s.interrupts)
    no_turn preparing = sym (append-nil s.interrupts)
    no_turn starting_turn = sym (append-nil s.interrupts)

-- A run of an older generation is not current.
older-not-current :
    (id : String) (runs : SessionRunState) (generation : ℕ)
    → generation < generation_of id runs
    → is_current runs id generation ≡ false
unfolding is_current
older-not-current id runs generation h = elim (Option-cases (get runs.generations id)) [
  | inl nothing ↦ rw (nothing, is_current) refl
  | inr (current, there) ↦
      rw (there, is_current) (ground (arith, nat_eq.beq_iff current generation, there))
]

cancel-newer :
    (id : String) (runs : SessionRunState) (generation : ℕ)
    → is_current runs id generation ≡ true
    → generation < generation_of id (cancel runs id).0
unfolding cancel begin is_current
cancel-newer id runs generation h = elim (Option-cases (get runs.generations id)) [
  | inl nothing ↦ (let bad = rw (nothing, is_current) at h in cc)
  | inr (current, there) ↦
      let same = rw (there, is_current) at h in
      rw
        (
          get-set runs.generations id id (or_else (get runs.generations id) 0 + 1),
          ==_refl id,
          there,
        )
        (ground (arith, nat_eq.beq_iff current generation, same))
]

settle-newer :
    (s : Server) (id : String) (base : GatewaySession) (now generation : ℕ)
    → is_current s.runs id generation ≡ true
    → generation < generation_of id (settle_interrupted_session s id base now).runs
unfolding settle_interrupted_session record_interrupt let_go upsert
settle-newer s id base now generation h =
    rw ((broadcast-SameRuns (record_interrupt s id base now) (cancelled_message id now)).0)
      (cancel-newer id s.runs generation h)

-- Let a run of a session be current when the session is interrupted. Whatever happens then, also new
-- turns of the same session, the run does nothing when the call that it waits for ends: it stops, and
-- the store, the gate, the sets and what was sent are untouched. If it was the start of a turn that
-- still came through, Codex is asked to interrupt that very turn, and nothing else.
pub interrupted_run_silent :
    (s : Server) (r : Run) (base : GatewaySession) (now : ℕ) (sts : List Step) (o : Outcome)
    (now' : ℕ)
    → is_current s.runs r.session_id r.generation ≡ true
    → let t = run (settle_interrupted_session s r.session_id base now) sts in
      ((continue_run t r o now').1 ≡ none)
      × Untouched t (continue_run t r o now').0
      × ((continue_run t r o now').0.interrupts
          ≡ t.interrupts ++ late_interrupts r.session_id (late_turn r.stage o))
unfolding continue_run
interrupted_run_silent s r base now sts o now' h =
    let s' = settle_interrupted_session s r.session_id base now in
    let late : is_current (run s' sts).runs r.session_id r.generation ≡ false =
      older-not-current r.session_id (run s' sts).runs r.generation (
        omega (
          arith,
          settle-newer s r.session_id base now r.generation h,
          run-Grows r.session_id s' sts,
        )) in
    let quiet = stop_late-Untouched (run s' sts) r o in rw late (refl, quiet.0, quiet.1)
