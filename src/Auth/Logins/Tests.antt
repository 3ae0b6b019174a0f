-- ===== src/Auth/Logins/Tests.antt =====
-- The login limit at concrete inputs.
use code_harbor.Auth.Logins.{Attempt, allow_login_attempt, fails, run}
use code_harbor.Auth.Logins.Limit.{allow-run_limit}
use code_harbor.Common.{String, [], arith, false, nat_eq, refl, string_eq, ◌∷◌, ◌≡◌}
use code_harbor.Common.JsMap.{JsMap, get, has}

abbrev seven_failures : JsMap String Attempt
seven_failures = ("10.0.0.1", record { started_at = 100; failures = 7 }) ∷ []

allow-run_limit_example :
    (allow_login_attempt "10.0.0.1" 300 (run seven_failures (fails "10.0.0.1" 200 ∷ []))).1 ≡ false
unfolding get has
allow-run_limit_example =
    allow-run_limit seven_failures "10.0.0.1" (record { started_at = 100; failures = 7 })
      (fails "10.0.0.1" 200 ∷ []) 300 (refl, tt) refl (omega arith) (omega arith)
