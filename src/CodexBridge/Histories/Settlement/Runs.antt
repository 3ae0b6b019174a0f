-- ===== src/CodexBridge/Histories/Settlement/Runs.antt =====
-- The steps that give up what is pending, and the others that the bridge takes by itself.
use code_harbor.CodexBridge.Approvals.{
  answer_decided, answer_first, approval_expires, decide, resolve_approval,
}
use code_harbor.CodexBridge.Histories.{connect, exceed_limit, initialized}
use code_harbor.CodexBridge.Histories.Settlement.{
  Balance, Balance-trans, IsValid, Quiet, Quiet-Balance, debt, reject_all-Balance,
  send_request-Balance, settles,
}
use code_harbor.CodexBridge.Histories.Settlement.Steps.{settles-answer}
use code_harbor.CodexBridge.Messages.{ApprovalDecision}
use code_harbor.CodexBridge.State.{
  Bridge, Decided, Effect, Failure, child, child_error, child_exit, ensure_server_process, is_alive,
  no_child, reject_all, shutdown, spawns, stdin_error, stopped,
}
use code_harbor.Common.{
  Bool-cases, List, Option, Option-cases, String, [], arith, false, inl, inr, nat_eq, refl, some,
  string_eq, true, ℕ, ◌++◌, ◌∙◌, ◌∷◌, ◌≡◌,
}
use code_harbor.Common.JsMap.{get}
use code_harbor.Common.Json.{Json}
use mathlib.Core.Path.{ap₂}

abbrev pub no_change : (id : ℕ) (b : Bridge) → Quiet id b (b, [])
no_change id b = record { same = refl; same_next = refl; silent = refl }

-- More effects that settle nothing behind a balanced step.
more_effects :
    (id : ℕ) (b : Bridge) (r : Bridge × List Effect) (b' : Bridge) (es : List Effect)
    → Balance id b r
    → b'.pending_requests ≡ r.0.pending_requests
    → b'.next_id ≡ r.0.next_id
    → settles id es ≡ 0
    → Balance id b (b', r.1 ++ es)
more_effects id b r b' es p same next none' =
    let q =
      Quiet-Balance id r.0 (b', es) p.valid
        (record { same = same; same_next = next; silent = none' }) in
    Balance-trans id b r (b', es) p q

-- From a state with the same requests.
pub from_same :
    (id : ℕ) (b c : Bridge) (r : Bridge × List Effect)
    → c.pending_requests ≡ b.pending_requests
    → c.next_id ≡ b.next_id
    → Balance id c r
    → Balance id b r
from_same id b c r same next p = record {
  valid = p.valid;
  balanced = p.balanced ∙ ap₂ (λ m n. debt m n id) same next;
}

pub same-IsValid :
    (b c : Bridge)
    → c.pending_requests ≡ b.pending_requests
    → c.next_id ≡ b.next_id
    → IsValid b
    → IsValid c
same-IsValid b c same next v = record {
  distinct = rw same v.distinct;
  below = rw (same, next) v.below;
}

module _ (id : ℕ) (b : Bridge) (v : IsValid b) where
  -- `reject_all` after a change of the state elsewhere, with more effects and changes behind it.
  give_up :
      (c b' : Bridge) (failure : Failure) (es : List Effect)
      → c.pending_requests ≡ b.pending_requests
      → c.next_id ≡ b.next_id
      → b'.pending_requests ≡ (reject_all c failure).0.pending_requests
      → b'.next_id ≡ (reject_all c failure).0.next_id
      → settles id es ≡ 0
      → Balance id b (b', (reject_all c failure).1 ++ es)
  give_up c b' failure es same next same' next' none' = from_same id b c _ same next (
      more_effects id c (reject_all c failure) b' es
        (reject_all-Balance id c failure (same-IsValid b c same next v)) same' next' none')

  pub shutdown-Balance : Balance id b (shutdown b)
  unfolding shutdown
  shutdown-Balance =
      give_up (record b { ready = false }) _ (stopped "Codex app-server shutting down") _ refl refl
        refl refl (ground arith)

  pub stdin_error-Balance : (message : String) → Balance id b (stdin_error b message)
  unfolding stdin_error
  stdin_error-Balance message =
      give_up (record b { ready = false }) _ (stopped message) _ refl refl refl refl refl

  pub child_error-Balance : (message : String) → Balance id b (child_error b message)
  unfolding child_error
  child_error-Balance message =
      give_up (record b { ready = false; process = no_child }) _ (stopped message) _ refl refl refl
        refl refl

  pub child_exit-Balance : (message : String) → Balance id b (child_exit b message)
  unfolding child_exit
  child_exit-Balance message =
      give_up (record b { ready = false; process = no_child }) _ (stopped message) _ refl refl refl
        refl refl

  pub exceed_limit-Balance : Balance id b (exceed_limit b)
  unfolding exceed_limit
  exceed_limit-Balance =
      give_up (record b { stdout_buffer = "" }) _
        (stopped "Codex app-server output exceeded the safety limit") _ refl refl refl refl
        (ground arith)

  pub initialized-Balance : Balance id b (initialized b)
  unfolding initialized
  initialized-Balance =
      Quiet-Balance id b _ v
        (record { same = ground arith; same_next = ground arith; silent = ground arith })

  pub approval_expires-Balance : (handle : ℕ) → Balance id b (approval_expires b handle)
  unfolding approval_expires decide
  approval_expires-Balance handle = elim (Option-cases (get b.approval_timers handle)) [
    | inl none' ↦ rw (none', approval_expires) (Quiet-Balance id b _ v (no_change id b))
    | inr (a, found) ↦
        rw (found, approval_expires)
          (Quiet-Balance id b _ v (record { same = refl; same_next = refl; silent = refl }))
  ]

  pub resolve_approval-Balance :
      (request : String) (d : ApprovalDecision) (thread turn : Option String)
      → Balance id b ((resolve_approval b request d thread turn).0, [])
  unfolding resolve_approval decide
  resolve_approval-Balance request d thread turn =
      elim (Option-cases (get b.pending_approvals request)) [
        | inl none' ↦ rw (none', resolve_approval) (Quiet-Balance id b _ v (no_change id b))
        | inr (a, found) ↦
            rw (found, resolve_approval)
              (Quiet-Balance id b _ v
                (record { same = ground arith; same_next = ground arith; silent = refl }))
      ]

  pub answer_decided-Balance : Balance id b (answer_decided b)
  unfolding answer_decided
  answer_decided-Balance = first b.decided
    where
      first : (ds : List Decided) → Balance id b (answer_first b ds)
      first [] = Quiet-Balance id b _ v (no_change id b)
      first (d ∷ ds) = Quiet-Balance id b _ v (record {
        same = refl;
        same_next = refl;
        silent = settles-answer id b d.decided_id d.decided_method _;
      })

  pub connect-Balance : (params : Json) → Balance id b (connect b params)
  unfolding connect ensure_server_process
  connect-Balance params = elim (Bool-cases (is_alive b.process)) [
    | inl alive ↦ rw alive (
        from_same id b (record b { ready = false }) _ refl refl
          (send_request-Balance id (record b { ready = false }) "initialize" (some params)
            (same-IsValid b (record b { ready = false }) refl refl v)))
    | inr dead ↦
        let c = record b { ready = false; process = child false true; stdout_buffer = "" } in
        rw dead (
          Balance-trans id b (c, spawns ∷ []) _
            (Quiet-Balance id b (c, spawns ∷ []) v
              (record { same = refl; same_next = refl; silent = refl }))
            (send_request-Balance id c "initialize" (some params) (same-IsValid b c refl refl v)))
  ]
