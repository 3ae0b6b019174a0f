-- ===== src/Auth/Sessions/Tests.antt =====
-- Login sessions at concrete inputs.
use code_harbor.Auth.Sessions.{
  AuthConfig, AuthState, create_session, creates, load_sessions, not_object, persist_sessions,
  revoke_session, revokes, run, verifies, verify_session,
}
use code_harbor.Auth.Sessions.Invariant.{IsValid, run-load_sessions-IsValid}
use code_harbor.Auth.Sessions.Lifetime.{verify-create_session, verify-revoke_session}
use code_harbor.Auth.Sessions.Reload.{load-persist_sessions, to_item}
use code_harbor.Common.{
  String, [], arith, false, inr, map, nat_eq, refl, some, string_eq, true, ◌∷◌, ◌≡◌, ◌≢◌,
}
use code_harbor.Common.JsMap.{get, has}
use code_harbor.Common.Text.{concat}

-- A stand-in for the keyed hash.
abbrev test_hmac : String → String
test_hmac token = concat "h:" token

abbrev test_config : AuthConfig
test_config = record { gateway_auth_token = "gateway"; session_ttl_hours = 1 }

abbrev no_sessions : AuthState
no_sessions = record { sessions = []; file = [] }

abbrev one_session : AuthState
one_session = record {
  sessions = ("h:t", record { token_hash = "h:t"; expires_at = 90; created_at = 10 }) ∷ [];
  file = [];
}

verify_test : (verify_session test_hmac test_config (some "t") 91 true one_session).1 ≡ false
unfolding verify_session get
verify_test = refl

run-load_sessions-IsValid_example :
    IsValid
      (run test_hmac test_config
        (record { sessions = load_sessions 5 (some (not_object ∷ [])); file = [] })
        (creates "t" 6 6 true ∷ revokes (some "t") true ∷ [])).sessions
run-load_sessions-IsValid_example =
    run-load_sessions-IsValid test_hmac test_config 5 (some (not_object ∷ [])) []
      (creates "t" 6 6 true ∷ revokes (some "t") true ∷ [])

apart_hashes : test_hmac "u" ≢ test_hmac "t"
apart_hashes e =
    let h : false ≡ true = (string_eq.beq_iff (test_hmac "u") (test_hmac "t")).1 e in cc

verify-create_session_example :
    (verify_session test_hmac test_config (some "t") 3_600_005 true (
      run test_hmac test_config
        (create_session test_hmac test_config "t" 5 5 false no_sessions).0
        (verifies (some "t") 40 true ∷ creates "u" 41 41 true ∷ []))).1
    ≡ true
verify-create_session_example =
    verify-create_session test_hmac test_config "t" 5 5 3_600_005 false true no_sessions
      (verifies (some "t") 40 true ∷ creates "u" 41 41 true ∷ []) refl refl tt (omega arith)
      (inr (omega arith), ((apart_hashes, omega arith), tt))

verify-revoke_session_example :
    (verify_session test_hmac test_config (some "t") 50 true (
      run test_hmac test_config
        (revoke_session test_hmac test_config (some "t") true one_session).0
        (verifies (some "t") 40 true ∷ []))).1
    ≡ false
verify-revoke_session_example =
    verify-revoke_session test_hmac test_config "t" 50 true true one_session
      (verifies (some "t") 40 true ∷ []) refl refl ((λ h. h), tt)

load-persist_sessions_example :
    get (load_sessions 50 (some (map to_item (persist_sessions true one_session).file))) "h:t"
    ≡ some (record { token_hash = "h:t"; expires_at = 90; created_at = 10 })
unfolding get has
load-persist_sessions_example =
    load-persist_sessions one_session 50 "h:t"
      (record { keyed = (refl, tt); distinct = (refl, tt); bounded = omega arith })
