-- ===== src/Server/Histories/Exclusion.antt =====
-- One turn at a time in each session, for the server as a whole.
use code_harbor.Common.{
  Bool, Bool-cases, List, Option, String, [], false, inl, inr, refl, true, ℕ, ◌∷◌, ◌≡◌, ◌≢◌, ◌⊎◌,
}
use code_harbor.GatewayStore.Types.{GatewaySession}
use code_harbor.Server.Histories.{
  Step, admits_thread_turn, begins_creation, begins_thread_turn, broadcasts, checks_workspace,
  continues, continues_thread_turn, interrupts_turn, lists_thread, posts_turn, run,
  starts_first_turn, starts_thread, step,
}
use code_harbor.Server.Histories.Creating.{
  begin_creation-Holds, first_turn-Holds, post_interrupt-Holds, take_thread-Holds,
  take_workspace-Holds,
}
use code_harbor.Server.Histories.Holding.{
  GoesOn, Holds, admit_turn-Holds, broadcast-Holds, check_turn-is_live, continue_run-Holds, ends,
  finds_overdue, reserve_request-gate, start_run-Holds,
}
use code_harbor.Server.Histories.Threads.{
  admit_thread_turn-Holds, begin_thread_turn-Holds, continue_thread_turn-Holds, lists_thread-Holds,
}
use code_harbor.Server.Replies.{Reply, turn_accepted}
use code_harbor.Server.State.{Server, is_live}
use code_harbor.Server.Turns.{
  Plan, TurnBody, acquire_turn, admit_turn, admitted, after_checks, after_reservation, check_turn,
  client_request, has_request, persisted_request, post_turn, reserve_request,
}
use code_harbor.Threads.Index.{ThreadSummary}
use code_harbor.TurnGate.{TurnAdmission, accepted, busy, duplicate, is_active}
use code_harbor.TurnGate.Exclusion.{accepted-is_active, active-not-accepted}

module _ (id : String) where
  after_checks-Holds :
      (s : Server) (other : String) (body : TurnBody) (now : ℕ) (c : Reply ⊎ Plan)
      → ((plan : Plan) → c ≡ inr plan → is_live plan.session.status ≡ true)
      → Holds id s
      → Holds id (after_checks s other body now c).0
  unfolding after_checks
  after_checks-Holds s other body now (inl reply) live h = h
  after_checks-Holds s other body now (inr plan) live h =
      admit_turn-Holds id s other body plan now (live plan refl) h

  post_turn-Holds :
      (s : Server) (other : String) (body : TurnBody) (persisted : Option GatewaySession)
      (thread : Option ThreadSummary) (resolved : Option String) (now : ℕ)
      → Holds id s
      → Holds id (post_turn s other body persisted thread resolved now).0
  unfolding post_turn
  post_turn-Holds s other body persisted thread resolved now h =
      after_checks-Holds s other body now (check_turn s.command body persisted thread resolved now)
        (check_turn-is_live s.command body persisted thread resolved now) h

  step-Holds :
      (s : Server) (st : Step)
      → ends id st ≡ false
      → finds_overdue id s st ≡ false
      → Holds id s
      → Holds id (step s st)
  unfolding step
  step-Holds s (posts_turn other body persisted thread resolved now) n o h =
      post_turn-Holds s other body persisted thread resolved now h
  step-Holds s (continues r out now) n o h = continue_run-Holds id s r out now n h
  step-Holds s (begins_creation body now) n o h = begin_creation-Holds id s body now h
  step-Holds s (checks_workspace body r) n o h = take_workspace-Holds id s body r h
  step-Holds s (starts_thread body workspace now r) n o h =
      take_thread-Holds id s body workspace now r h
  step-Holds s (starts_first_turn other out now) n o h = first_turn-Holds id s other out now n h
  step-Holds s (interrupts_turn other turn due context now) n o h =
      post_interrupt-Holds id s other turn due context now n h
  step-Holds s (broadcasts m) n o h = broadcast-Holds id s m n h
  step-Holds s (begins_thread_turn other request due now) n o h =
      begin_thread_turn-Holds id s other request due now h
  step-Holds s (admits_thread_turn t place) n o h = admit_thread_turn-Holds id s t place h
  step-Holds s (continues_thread_turn t stage out now) n o h =
      continue_thread_turn-Holds id s t stage out now n h
  step-Holds s (lists_thread thread now) n o h = lists_thread-Holds id s thread now o h

  pub run-Holds :
      (s : Server) (sts : List Step) → GoesOn id s sts → Holds id s → Holds id (run s sts)
  unfolding run
  run-Holds s [] n h = h
  run-Holds s (st ∷ sts) n h = run-Holds (step s st) sts n.2 (step-Holds s st n.0 n.1 h)

  admitted-accepted :
      (s : Server) (body : TurnBody) (plan : Plan) (now : ℕ) (a : TurnAdmission)
      → (admitted s id body plan now a).1 ≡ turn_accepted
      → a ≡ accepted
  unfolding admitted
  admitted-accepted s body plan now accepted h = refl
  admitted-accepted s body plan now busy h = cc
  admitted-accepted s body plan now duplicate h = cc

  admitted-held :
      (s : Server) (body : TurnBody) (plan : Plan) (now : ℕ) (a : TurnAdmission)
      → is_live plan.session.status ≡ true
      → (a ≡ accepted → Holds id s)
      → (admitted s id body plan now a).1 ≡ turn_accepted
      → Holds id (admitted s id body plan now a).0
  unfolding admitted
  admitted-held s body plan now accepted live held h =
      start_run-Holds id s id body plan now live (held refl)
  admitted-held s body plan now busy live held h = cc
  admitted-held s body plan now duplicate live held h = cc

  acquire_turn-held :
      (s : Server) (body : TurnBody) (plan : Plan) (now : ℕ)
      → is_live plan.session.status ≡ true
      → (acquire_turn s id body plan now).1 ≡ turn_accepted
      → Holds id (acquire_turn s id body plan now).0
  unfolding acquire_turn is_active
  acquire_turn-held s body plan now live h =
      admitted-held _ body plan now _ live
        (accepted-is_active s.gate id (client_request body) (persisted_request plan.persisted)) h

  acquire_turn-refused :
      (s : Server) (body : TurnBody) (plan : Plan) (now : ℕ)
      → Holds id s
      → (acquire_turn s id body plan now).1 ≢ turn_accepted
  unfolding acquire_turn is_active
  acquire_turn-refused s body plan now held h =
      active-not-accepted s.gate id (client_request body) (persisted_request plan.persisted) held
        (admitted-accepted _ body plan now _ h)

  reserved-held :
      (r : Server × Bool) (body : TurnBody) (plan : Plan) (now : ℕ)
      → is_live plan.session.status ≡ true
      → (after_reservation r.0 id body plan now r.1).1 ≡ turn_accepted
      → Holds id (after_reservation r.0 id body plan now r.1).0
  unfolding after_reservation
  reserved-held (s, true) body plan now live h = acquire_turn-held s body plan now live h
  reserved-held (s, false) body plan now live h = cc

  reserved-refused :
      (r : Server × Bool) (body : TurnBody) (plan : Plan) (now : ℕ)
      → Holds id r.0
      → (after_reservation r.0 id body plan now r.1).1 ≢ turn_accepted
  unfolding after_reservation
  reserved-refused (s, true) body plan now held h = acquire_turn-refused s body plan now held h
  reserved-refused (s, false) body plan now held h = cc

  admit_turn-held :
      (s : Server) (body : TurnBody) (plan : Plan) (now : ℕ)
      → is_live plan.session.status ≡ true
      → (admit_turn s id body plan now).1 ≡ turn_accepted
      → Holds id (admit_turn s id body plan now).0
  unfolding admit_turn
  admit_turn-held s body plan now live h =
      elim (Bool-cases (has_request s id (client_request body))) [
        | inl old ↦ (let h' = rw old at h in cc)
        | inr new ↦ rw new (
            reserved-held (reserve_request s id (client_request body) now) body plan now live
              (rw new at h))
      ]

  admit_turn-refused :
      (s : Server) (body : TurnBody) (plan : Plan) (now : ℕ)
      → Holds id s
      → (admit_turn s id body plan now).1 ≢ turn_accepted
  unfolding admit_turn
  admit_turn-refused s body plan now held h =
      elim (Bool-cases (has_request s id (client_request body))) [
        | inl old ↦ (let h' = rw old at h in cc)
        | inr new ↦
            reserved-refused (reserve_request s id (client_request body) now) body plan now
              (rw (reserve_request-gate id s id (client_request body) now) held) (rw new at h)
      ]

  pub after_checks-held :
      (s : Server) (body : TurnBody) (now : ℕ) (c : Reply ⊎ Plan)
      → ((plan : Plan) → c ≡ inr plan → is_live plan.session.status ≡ true)
      → ((reply : Reply) → c ≡ inl reply → reply ≢ turn_accepted)
      → (after_checks s id body now c).1 ≡ turn_accepted
      → Holds id (after_checks s id body now c).0
  unfolding after_checks
  after_checks-held s body now (inl reply) live refuses h = absurd (refuses reply refl h)
  after_checks-held s body now (inr plan) live refuses h =
      admit_turn-held s body plan now (live plan refl) h

  pub after_checks-refused :
      (s : Server) (body : TurnBody) (now : ℕ) (c : Reply ⊎ Plan)
      → ((reply : Reply) → c ≡ inl reply → reply ≢ turn_accepted)
      → Holds id s
      → (after_checks s id body now c).1 ≢ turn_accepted
  unfolding after_checks
  after_checks-refused s body now (inl reply) refuses held h = refuses reply refl h
  after_checks-refused s body now (inr plan) refuses held h =
      admit_turn-refused s body plan now held h
