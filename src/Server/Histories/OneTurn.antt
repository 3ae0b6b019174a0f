-- ===== src/Server/Histories/OneTurn.antt =====
-- One turn at a time in each session, for the server as a whole.
use code_harbor.Common.{List, Option, String, arith, inl, none, some, ℕ, ◌≡◌, ◌≢◌}
use code_harbor.GatewayStore.Types.{GatewaySession}
use code_harbor.Server.Histories.{Step, run}
use code_harbor.Server.Histories.Exclusion.{after_checks-held, after_checks-refused, run-Holds}
use code_harbor.Server.Histories.Holding.{GoesOn, check_turn-is_live}
use code_harbor.Server.Replies.{Reply, turn_accepted}
use code_harbor.Server.State.{Server}
use code_harbor.Server.Turns.{TurnBody, check_turn, post_turn}
use code_harbor.Threads.Index.{ThreadSummary}

-- No check accepts a turn by itself.
check_turn-refuses :
    (command : String) (body : TurnBody) (persisted : Option GatewaySession)
    (thread : Option ThreadSummary) (resolved : Option String) (now : ℕ) (reply : Reply)
    → check_turn command body persisted thread resolved now ≡ inl reply
    → reply ≢ turn_accepted
unfolding check_turn
check_turn-refuses command body (some s) thread resolved now reply h k = ground arith
check_turn-refuses command body none (some thread) resolved now reply h k = ground arith
check_turn-refuses command body none none resolved now reply h k = ground arith

-- After a turn of a session was accepted, no other is accepted for that session by POST
-- /sessions/:id/turns, however the steps of these are mixed: that handler and the runs behind it, POST
-- /sessions and its first turns, the interrupts, POST /api/threads/:id/turns, the listing of threads, and
-- the messages of Codex. This holds as long as no run, first turn or thread turn of the session fails,
-- the session is not interrupted, no message says that it is over, and no listing finds it running or
-- starting without a change for more than ten minutes, at which the code opens the gate.
pub turn_exclusive :
    (s : Server) (id : String) (body : TurnBody) (persisted : Option GatewaySession)
    (thread : Option ThreadSummary) (resolved : Option String) (now : ℕ) (sts : List Step)
    (body' : TurnBody) (persisted' : Option GatewaySession) (thread' : Option ThreadSummary)
    (resolved' : Option String) (now' : ℕ)
    → (post_turn s id body persisted thread resolved now).1 ≡ turn_accepted
    → GoesOn id (post_turn s id body persisted thread resolved now).0 sts
    → (post_turn
        (run (post_turn s id body persisted thread resolved now).0 sts)
        id
        body'
        persisted'
        thread'
        resolved'
        now').1
      ≢ turn_accepted
unfolding post_turn
turn_exclusive s id body persisted thread resolved now sts body' persisted' thread' resolved' now' h
      g =
    let s' = (post_turn s id body persisted thread resolved now).0 in
    after_checks-refused id (run s' sts) body' now'
      (check_turn (run s' sts).command body' persisted' thread' resolved' now')
      (check_turn-refuses (run s' sts).command body' persisted' thread' resolved' now')
      (run-Holds id s' sts g (
        after_checks-held id s body now (check_turn s.command body persisted thread resolved now)
          (check_turn-is_live s.command body persisted thread resolved now)
          (check_turn-refuses s.command body persisted thread resolved now) h))
