-- ===== src/CodexBridge/Histories/Grants/Runs.antt =====
-- No result grants anything without an approval by the user, in every history.
use code_harbor.CodexBridge.Approvals.{
  answer_decided, answer_first, approval_expires, decide, resolve_approval, same_thread, same_turn,
}
use code_harbor.CodexBridge.Histories.{exceed_limit, initialized, set_policy_mode}
use code_harbor.CodexBridge.Histories.Grants.{
  Denies, Guarded, any_grants, any_grants-answer, any_grants-append, grants-approval_result,
}
use code_harbor.CodexBridge.Messages.{ApprovalDecision, denial, is_approve, request_method}
use code_harbor.CodexBridge.Policies.{max_policy_entries, remember_policy}
use code_harbor.CodexBridge.Requests.{request_times_out, send_request}
use code_harbor.CodexBridge.State.{
  Bridge, Decided, Effect, Failure, PendingApproval, child_error, child_exit, denied, no_child,
  reject_all, reject_each, shutdown, stdin_error, stopped,
}
use code_harbor.Common.{
  All, All-append, Bool-cases, List, Option, Option-cases, String, [], arith, false, inl, inr,
  nat_eq, refl, string_eq, ℕ, ◌&&◌, ◌++◌, ◌∙◌, ◌∷◌, ◌≡◌,
}
use code_harbor.Common.JsMap.{JsMap, delete, get}
use code_harbor.Common.JsMap.Every.{Every-delete, Every-set, Every-shrink}
use code_harbor.Common.Json.{Json}
use code_harbor.GatewayStore.Types.{confirm}

pub Denies-append : (r s : Bridge × List Effect) → Denies r → Denies s → Denies (s.0, r.1 ++ s.1)
Denies-append r s p q = record {
  guarded = q.guarded;
  nothing = rw (any_grants-append r.1 s.1, p.nothing) q.nothing;
}

-- A state with the same policies and decisions.
pub same_guard :
    (b c : Bridge)
    → c.policy_by_thread ≡ b.policy_by_thread
    → c.decided ≡ b.decided
    → Guarded b
    → Guarded c
same_guard b c policies decisions g = record {
  confirms = rw policies g.confirms;
  denials = rw decisions g.denials;
}

any_grants-reject_each :
    (failure : Failure) (m : JsMap ℕ String) → any_grants (reject_each failure m) ≡ false
any_grants-reject_each failure [] = refl
any_grants-reject_each failure ((id, method) ∷ m) = any_grants-reject_each failure m

All-denied :
    (m : JsMap String PendingApproval) → All (λ d. is_approve d.verdict.decision ≡ false) (denied m)
All-denied [] = tt
All-denied ((request_id, a) ∷ m) = (refl, All-denied m)

reject_all-Denies : (b : Bridge) (failure : Failure) → Guarded b → Denies (reject_all b failure)
unfolding reject_all
reject_all-Denies b failure g = record {
  guarded = record {
    confirms = g.confirms;
    denials =
        All-append _ b.decided (denied b.pending_approvals) g.denials
          (All-denied b.pending_approvals);
  };
  nothing = any_grants-reject_each failure b.pending_requests;
}

decide-Guarded :
    (b : Bridge) (a : PendingApproval) (d : ApprovalDecision)
    → is_approve d.decision ≡ false
    → Guarded b
    → Guarded (decide b a d)
unfolding decide
decide-Guarded b a d h g = record {
  confirms = g.confirms;
  denials = All-append _ b.decided _ g.denials (h, tt);
}

module _ (b : Bridge) (g : Guarded b) where
  -- `reject_all` after a change of the state elsewhere, with more effects behind it.
  give_up :
      (c b' : Bridge) (failure : Failure) (es : List Effect)
      → c.policy_by_thread ≡ b.policy_by_thread
      → c.decided ≡ b.decided
      → b'.policy_by_thread ≡ (reject_all c failure).0.policy_by_thread
      → b'.decided ≡ (reject_all c failure).0.decided
      → any_grants es ≡ false
      → Denies (b', (reject_all c failure).1 ++ es)
  give_up c b' failure es policies decisions policies' decisions' none' =
      let p = reject_all-Denies c failure (same_guard b c policies decisions g) in
      Denies-append (reject_all c failure) (b', es) p
        (record {
          guarded = same_guard (reject_all c failure).0 b' policies' decisions' p.guarded;
          nothing = none';
        })

  pub shutdown-Denies : Denies (shutdown b)
  unfolding shutdown
  shutdown-Denies =
      give_up (record b { ready = false }) _ (stopped "Codex app-server shutting down") _ refl refl
        refl refl (ground arith)

  pub stdin_error-Denies : (message : String) → Denies (stdin_error b message)
  unfolding stdin_error
  stdin_error-Denies message =
      give_up (record b { ready = false }) _ (stopped message) _ refl refl refl refl refl

  pub child_error-Denies : (message : String) → Denies (child_error b message)
  unfolding child_error
  child_error-Denies message =
      give_up (record b { ready = false; process = no_child }) _ (stopped message) _ refl refl refl
        refl refl

  pub child_exit-Denies : (message : String) → Denies (child_exit b message)
  unfolding child_exit
  child_exit-Denies message =
      give_up (record b { ready = false; process = no_child }) _ (stopped message) _ refl refl refl
        refl refl

  pub exceed_limit-Denies : Denies (exceed_limit b)
  unfolding exceed_limit
  exceed_limit-Denies =
      give_up (record b { stdout_buffer = "" }) _
        (stopped "Codex app-server output exceeded the safety limit") _ refl refl refl refl
        (ground arith)

  pub initialized-Denies : Denies (initialized b)
  unfolding initialized
  initialized-Denies = record {
    guarded = same_guard b _ (ground arith) (ground arith) g;
    nothing = ground arith;
  }

  pub send_request-Denies :
      (method : String) (params : Option Json)
      → Denies ((send_request b method params).0, (send_request b method params).1)
  unfolding send_request
  send_request-Denies method params = record {
    guarded = same_guard b _ (ground arith) (ground arith) g;
    nothing = ground arith;
  }

  pub request_times_out-Denies : (n timeout_ms : ℕ) → Denies (request_times_out b n timeout_ms)
  unfolding request_times_out
  request_times_out-Denies n timeout_ms = elim (Option-cases (get b.pending_requests n)) [
    | inl none' ↦ rw (none', request_times_out) (record { guarded = g; nothing = refl })
    | inr (m, found) ↦
        rw (found, request_times_out)
          (record { guarded = same_guard b _ refl refl g; nothing = refl })
  ]

  pub approval_expires-Denies : (handle : ℕ) → Denies (approval_expires b handle)
  unfolding approval_expires
  approval_expires-Denies handle = elim (Option-cases (get b.approval_timers handle)) [
    | inl none' ↦ rw (none', approval_expires) (record { guarded = g; nothing = refl })
    | inr (a, found) ↦
        rw (found, approval_expires)
          (record { guarded = decide-Guarded b a denial refl g; nothing = refl })
  ]

  pub resolve_approval-Guarded :
      (request : String) (d : ApprovalDecision) (thread turn : Option String)
      → is_approve d.decision ≡ false
      → Guarded (resolve_approval b request d thread turn).0
  unfolding resolve_approval
  resolve_approval-Guarded request d thread turn h =
      elim (Option-cases (get b.pending_approvals request)) [
        | inl none' ↦ rw (none', resolve_approval) g
        | inr (a, found) ↦
            elim (Bool-cases (same_thread a.thread_id thread && same_turn a.turn_id turn)) [
              | inl same ↦ rw (found, resolve_approval, same) (decide-Guarded b a d h g)
              | inr other ↦ rw (found, resolve_approval, other) g
            ]
      ]

  pub answer_decided-Denies : Denies (answer_decided b)
  unfolding answer_decided
  answer_decided-Denies = first b.decided g.denials
    where
      first :
          (ds : List Decided)
          → All (λ d. is_approve d.verdict.decision ≡ false) ds
          → Denies (answer_first b ds)
      first [] h = record { guarded = g; nothing = refl }
      first (d ∷ ds) (p, h) = record {
        guarded = record { confirms = g.confirms; denials = h };
        nothing =
            any_grants-answer b d.decided_id d.decided_method _
              (grants-approval_result (request_method d.decided_method) d.verdict ∙ p);
      }

  pub set_policy_mode-Guarded : (thread : String) → Guarded (set_policy_mode b thread confirm)
  unfolding set_policy_mode remember_policy
  set_policy_mode-Guarded thread = record {
    confirms = Every-shrink _ max_policy_entries _ (
        Every-set _ (delete b.policy_by_thread thread) thread confirm
          (Every-delete _ b.policy_by_thread thread g.confirms) refl);
    denials = g.denials;
  }
