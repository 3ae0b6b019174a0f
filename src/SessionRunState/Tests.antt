-- ===== src/SessionRunState/Tests.antt =====
-- The run state at concrete inputs.
use code_harbor.Common.{[], false, refl, ◌∷◌, ◌≡◌}
use code_harbor.Common.JsMap.{get, set}
use code_harbor.SessionRunState.{SessionRunState, begin, cancel, cancels, is_current, run, step}

abbrev fresh_state : SessionRunState
fresh_state = record { generations = [] }

cancelled_test :
    is_current (run (begin fresh_state "s").0 (cancels "s" ∷ [])) "s" (begin fresh_state "s").1
    ≡ false
unfolding begin cancel is_current step run get set
cancelled_test = refl
