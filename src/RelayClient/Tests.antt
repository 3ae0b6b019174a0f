-- ===== src/RelayClient/Tests.antt =====
-- The relay client at concrete inputs.
use code_harbor.Common.{String, [], arith, false, none, refl, some, true, ℕ, ◌∷◌, ◌≡◌, ◌⊎◌}
use code_harbor.Common.Json.{Json, field, fields, lookup, member, no_members, text}
use code_harbor.RelayClient.Enrollment.{
  Answer, Answers, answer_of, ensure_device_credential, no_answer,
}
use code_harbor.RelayClient.Histories.{
  closes, credential_arrives, opens, reconnects, run, says, starts,
}
use code_harbor.RelayClient.Histories.Life.{Lives, run-refines_life, run-stays_revoked}
use code_harbor.RelayClient.State.{Client, Config, Identity}

abbrev test_config : Config
test_config = record {
  relay_url = "https://relay.example";
  is_production = true;
  is_https = true;
  account_token = "t";
  account_username = "";
  account_password = "";
  server_token = "";
  device_name = "d";
  public_origin = "https://home.example";
}

abbrev no_identity : Identity
no_identity = record { device_id = some "id"; device_token = none; device_secret = none }

abbrev new_client : Client
new_client = record {
  config = test_config;
  relay_socket = none;
  relay_ready_socket = none;
  gateway_event_socket = none;
  ready = [];
  buffered = [];
  next_socket = 0;
  reconnect_timer = none;
  relay_heartbeat_timer = false;
  gateway_heartbeat_timer = false;
  pending = [];
  settled = [];
  identity = no_identity;
  identity_file = no_identity;
  started = false;
  connecting = false;
  revoked = false;
  credential_recovery_attempted = false;
  status = record {
    connected = false;
    device_id = none;
    device_name = none;
    pair_code = none;
    pair_code_expires_at = none;
    last_error = none;
  };
  session_sync = none;
  session_sync_again = false;
  outgoing = [];
}

abbrev revoked_client : Client
revoked_client = record new_client {
  started = true;
  revoked = true;
  relay_socket = some 0;
  next_socket = 1;
}

abbrev show_none : ℕ → String
show_none n = ""

abbrev owned : Answer
owned = answer_of 409 (fields (member "error" (text "device_owned") no_members))

abbrev credential : Answer
credential = answer_of 200 (fields (member "deviceToken" (text "k") no_members))

abbrev test_answers : Answers
test_answers = record {
  fresh = "new";
  login = no_answer "";
  enroll = owned;
  login_again = no_answer "";
  enroll_again = credential;
}

-- A device of another account is enrolled under a new identity.
rotation_test :
    (ensure_device_credential show_none new_client test_answers).0.identity
    ≡ record { device_id = some "new"; device_token = some "k"; device_secret = none }
unfolding ensure_device_credential field lookup
rotation_test = refl

abbrev ready_message : Json
ready_message = fields (member "type" (text "device-ready") no_members)

run-refines_life_example : Lives show_none new_client (
    starts
    ∷ credential_arrives test_answers true
    ∷ opens 0 "hello"
    ∷ says (some ready_message)
    ∷ closes 0 1006 ""
    ∷ reconnects
    ∷ [])
run-refines_life_example =
    run-refines_life show_none new_client
      (starts
        ∷ credential_arrives test_answers true
        ∷ opens 0 "hello"
        ∷ says (some ready_message)
        ∷ closes 0 1006 ""
        ∷ reconnects
        ∷ [])
      (record { one = omega arith; alive = λ h. cc; idle = λ h. refl })

run-stays_revoked_example :
    ((run show_none revoked_client (says (some ready_message) ∷ closes 0 1006 "" ∷ [])).revoked
      ≡ true)
    × (((run show_none revoked_client
            (says (some ready_message) ∷ closes 0 1006 "" ∷ [])).relay_socket
          ≡ some 0)
        ⊎ ((run show_none revoked_client
              (says (some ready_message) ∷ closes 0 1006 "" ∷ [])).relay_socket
            ≡ none))
run-stays_revoked_example =
    run-stays_revoked show_none revoked_client (says (some ready_message) ∷ closes 0 1006 "" ∷ [])
      (record { one = omega arith; alive = λ h g. cc; idle = λ h. cc }) refl
