-- ===== src/RelayProxy/Tests.antt =====
-- The proxy at concrete inputs.
use code_harbor.Common.{List, String, [], inr, nat_eq, some, string_eq, ℕ, ◌∷◌, ◌⊎◌}
use code_harbor.Common.JsMap.{JsMap}
use code_harbor.Common.Json.{Json, null}
use code_harbor.RelayProxy.{
  LocalRequest, LocalResponse, ProxyRequest, base64, local_reply, proxy_local_request,
}
use code_harbor.RelayProxy.Forwarding.{AllForwarded, proxy_local_request-AllForwarded}

abbrev test_headers : Json → String ⊎ JsMap String String
test_headers j = inr (("authorization", "Bearer of the relay") ∷ [])

-- A stand-in for the base64 code.
abbrev test_decode : String → List ℕ
test_decode s = 1 ∷ []

abbrev test_fetch : LocalRequest → LocalResponse
test_fetch r = local_reply 200 (("Connection", "close") ∷ []) (some ((1 ∷ []) ∷ (2 ∷ []) ∷ []))

abbrev test_request : ProxyRequest
test_request = record {
  request_id = some "r";
  method = some "POST";
  path = some "/sessions";
  headers = null;
  body_base64 = base64 "AQ==";
}

proxy_local_request-AllForwarded_example :
    AllForwarded test_headers test_decode "http://local" "own" test_request
      (proxy_local_request test_headers test_decode "http://local" "own" test_fetch test_request).1
proxy_local_request-AllForwarded_example =
    proxy_local_request-AllForwarded test_headers test_decode "http://local" "own" test_fetch
      test_request
