-- ===== src/TurnGate/Tests.antt =====
-- The turn gate at concrete inputs.
use code_harbor.Common.{[], nat_eq, none, refl, some, string_eq, ◌∷◌, ◌≡◌, ◌≢◌}
use code_harbor.Common.JsMap.{get}
use code_harbor.TurnGate.{TurnGate, accepted, acquire, acquires, busy, duplicate, releases, run}
use code_harbor.TurnGate.Exclusion.{acquire_exclusive}

abbrev idle_gate : TurnGate
idle_gate = record { active_sessions = [] }

abbrev one_active : TurnGate
one_active = record { active_sessions = ("s1", tt) ∷ [] }

retry_test : (acquire idle_gate "s1" (some "r1") (some "r1")).1 ≡ duplicate
unfolding acquire
retry_test = refl

busy_test : (acquire one_active "s1" (some "r2") (some "r1")).1 ≡ busy
unfolding acquire get
busy_test = refl

acquire_exclusive_example :
    (acquire
      (run
        (acquire idle_gate "s1" (some "r1") none).0
        (acquires "s2" none none ∷ releases "s2" ∷ []))
      "s1"
      (some "r2")
      (some "r1")).1
    ≢ accepted
unfolding acquire get
acquire_exclusive_example =
    acquire_exclusive idle_gate "s1" (some "r1") none (acquires "s2" none none ∷ releases "s2" ∷ [])
      (some "r2") (some "r1") refl (refl, tt)
