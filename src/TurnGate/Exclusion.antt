-- ===== src/TurnGate/Exclusion.antt =====
-- What the gate guarantees to the handlers that start turns.
use code_harbor.Common.{
  ==_refl, List, Option, String, [], arith, false, nat_eq, string_eq, true, ◌==◌, ◌∷◌, ◌≡◌, ◌≢◌,
}
use code_harbor.Common.JsMap.Distinct.{has-delete, has-set}
use code_harbor.TurnGate.{
  Call, TurnGate, accepted, acquire, acquires, is_active, release, releases, run, step,
}

-- A history in which the session is not released.
abbrev pub Keeps : String → List Call → Type 0
Keeps session [] = Unit
Keeps session (acquires s c p ∷ cs) = Keeps session cs
Keeps session (releases s ∷ cs) = ((s == session) ≡ false) × Keeps session cs

step-Keeps :
    (gate : TurnGate) (session : String) (c : Call) (cs : List Call)
    → Keeps session (c ∷ cs)
    → is_active gate session ≡ true
    → is_active (step gate c) session ≡ true
unfolding step acquire release is_active
step-Keeps gate session (acquires s client persisted) cs k h =
    ground (arith, has-set gate.active_sessions s session tt)
step-Keeps gate session (releases s) cs k h =
    ground (arith, has-delete gate.active_sessions s session)

run-Keeps :
    (gate : TurnGate) (session : String) (cs : List Call)
    → Keeps session cs
    → is_active gate session ≡ true
    → is_active (run gate cs) session ≡ true
unfolding run
run-Keeps gate session [] k h = h
run-Keeps gate session (acquires s c p ∷ cs) k h =
    run-Keeps (step gate (acquires s c p)) session cs k
      (step-Keeps gate session (acquires s c p) cs k h)
run-Keeps gate session (releases s ∷ cs) k h =
    run-Keeps (step gate (releases s)) session cs k.1 (step-Keeps gate session (releases s) cs k h)

pub accepted-is_active :
    (gate : TurnGate) (session : String) (client persisted : Option String)
    → (acquire gate session client persisted).1 ≡ accepted
    → is_active (acquire gate session client persisted).0 session ≡ true
unfolding acquire is_active
accepted-is_active gate session client persisted h =
    ground (arith, has-set gate.active_sessions session session tt, ==_refl session)

pub active-not-accepted :
    (gate : TurnGate) (session : String) (client persisted : Option String)
    → is_active gate session ≡ true
    → (acquire gate session client persisted).1 ≢ accepted
unfolding acquire is_active
active-not-accepted gate session client persisted h = ground arith

-- After a turn of a session was admitted, no other is admitted for that session, whatever calls come
-- in between, as long as none of them releases it.
pub acquire_exclusive :
    (gate : TurnGate) (session : String) (client persisted : Option String) (cs : List Call)
    (client' persisted' : Option String)
    → (acquire gate session client persisted).1 ≡ accepted
    → Keeps session cs
    → (acquire (run (acquire gate session client persisted).0 cs) session client' persisted').1
      ≢ accepted
acquire_exclusive gate session client persisted cs client' persisted' h k =
    active-not-accepted _ session client' persisted'
      (run-Keeps _ session cs k (accepted-is_active gate session client persisted h))
