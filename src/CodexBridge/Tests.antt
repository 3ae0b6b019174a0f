-- ===== src/CodexBridge/Tests.antt =====
-- The bridge at concrete inputs.
use code_harbor.CodexBridge.Approvals.{resolve_approval}
use code_harbor.CodexBridge.Approvals.Resolution.{resolve_approval_iff}
use code_harbor.CodexBridge.Environment.{process_env_with_tool_path}
use code_harbor.CodexBridge.Environment.Secrets.{Sees, get-process_env_with_tool_path}
use code_harbor.CodexBridge.Histories.{
  Step, connects, exits, goes_on, new_bridge, receives, run, sends,
}
use code_harbor.CodexBridge.Histories.Grants.{any_grants}
use code_harbor.CodexBridge.Histories.Grants.Safety.{run-grants_nothing}
use code_harbor.CodexBridge.Histories.Settlement.{settles}
use code_harbor.CodexBridge.Histories.Settlement.Once.{run-settles}
use code_harbor.CodexBridge.Ids.{number_id}
use code_harbor.CodexBridge.Lines.{receive, receive_all}
use code_harbor.CodexBridge.Lines.Chunks.{receive_all-eq-receive}
use code_harbor.CodexBridge.Messages.{denial}
use code_harbor.CodexBridge.State.{Bridge, PendingApproval}
use code_harbor.Common.{
  List, Option, String, [], arith, false, if◌then◌else◌, inr, ltb, nat_eq, none, refl, some,
  string_eq, true, ◌∷◌, ◌≡◌,
}
use code_harbor.Common.JsMap.{JsMap, get, has}
use code_harbor.Common.Json.{Json, fields, member, no_members, null, number}
use code_harbor.Common.Text.{byte_length}

-- A stand-in for the parser: every line is the response to the first request.
abbrev test_parse : String → Option Json
test_parse line = some (fields (member "id" (number 1) no_members))

abbrev test_approval : PendingApproval
test_approval = record {
  request_id = "7";
  id = number_id 7;
  thread_id = "t";
  turn_id = some "u";
  method = "execCommandApproval";
  expires_at = 600_000;
  handle = 3;
}

abbrev waiting_bridge : Bridge
waiting_bridge = record new_bridge {
  pending_approvals = ("7", test_approval) ∷ [];
  approval_timers = (3, test_approval) ∷ [];
}

abbrev test_steps : List (Step test_parse)
test_steps = connects null ∷ receives 5 1 "x\n" ∷ sends "m" none ∷ exits "gone" ∷ goes_on ∷ []

run-settles_example : settles 2 (run test_parse new_bridge test_steps).1 ≡ (
    if has (run test_parse new_bridge test_steps).0.pending_requests 2
    then 0
    else if ltb 2 (run test_parse new_bridge test_steps).0.next_id
    then 1
    else 0)
run-settles_example = run-settles test_parse 2 test_steps (omega arith)

run-grants_nothing_example : any_grants (run test_parse new_bridge test_steps).1 ≡ false
run-grants_nothing_example =
    run-grants_nothing test_parse test_steps (tt, (tt, (tt, (tt, (tt, tt)))))

receive_all-eq-receive_example : receive_all "a" ("b\nc" ∷ "d" ∷ []) ≡ receive "a" "b\ncd"
unfolding byte_length
receive_all-eq-receive_example =
    receive_all-eq-receive "a" ("b\nc" ∷ "d" ∷ []) (refl, tt) (omega arith)

resolve_approval_iff_example :
    (resolve_approval waiting_bridge "7" denial (some "t") (some "u")).1 ≡ true
unfolding get
resolve_approval_iff_example =
    (resolve_approval_iff waiting_bridge "7" denial (some "t") (some "u")).1 (
      test_approval,
      refl,
      record { turn_id = "u"; asked = refl; given = refl; not_empty = refl; threads = inr refl },
    )

abbrev test_env : JsMap String String
test_env = ("OPENAI_API_KEY", "k") ∷ ("LANG", "C") ∷ []

get-process_env_with_tool_path_example :
    Sees ":" test_env "OPENAI_API_KEY"
      (get (process_env_with_tool_path ":" test_env) "OPENAI_API_KEY")
unfolding has get
get-process_env_with_tool_path_example =
    get-process_env_with_tool_path ":" test_env "OPENAI_API_KEY" (refl, (refl, tt))
