-- ===== src/RelayProxy.antt =====
-- gateway/acode-upstream/server/src/relayProxy.ts: a request that the cloud relay passes on to the local
-- gateway. A body is a list of bytes. Of the platform, these are parameters: `Headers`, which may refuse
-- the headers of the message, the base64 code of bytes, and `fetch`.
pub mod Forwarding
mod Tests
use code_harbor.Common.{
  Bool, List, Option, String, [], false, if◌then◌else◌, inl, inr, is_some, leb, length, ltb, nat_eq,
  none, not, or_else, some, string_eq, truthy, ℕ, ◌%◌, ◌&&◌, ◌++◌, ◌+◌, ◌==◌, ◌||◌, ◌∷◌, ◌⊎◌,
}
use code_harbor.Common.JsMap.{JsMap, delete_where, set}
use code_harbor.Common.Json.{Json}
use code_harbor.Common.Text.{concat, equals_lowered, skip_while, strip_prefix, utf16_length}

abbrev pub max_proxy_body_bytes : ℕ
max_proxy_body_bytes = 16_777_216

-- `Math.ceil(maxProxyBodyBytes * 4 / 3) + 512`
abbrev pub max_proxy_body_base64_chars : ℕ
max_proxy_body_base64_chars = 22_370_134

-- The message, with what a field holds that is no text: `none`, also for a body that is there.
pub data BodyField : Type 0 where
  no_body wrong_body : BodyField
  base64 : String → BodyField

pub record ProxyRequest : Type 0 where
  pub request_id : Option String
  pub method : Option String
  pub path : Option String
  pub headers : Json
  pub body_base64 : BodyField

pub record LocalRequest : Type 0 where
  pub url : String
  pub local_method : String
  pub local_headers : JsMap String String
  pub local_body : Option (List ℕ)

-- What `fetch` gives: an error, or a response with its body in chunks, where reading may fail.
pub data LocalResponse : Type 0 where
  fetch_failed : String → LocalResponse
  local_reply : ℕ → JsMap String String → Option (List (List ℕ)) → LocalResponse

-- The one answer to the relay; its body before it is encoded.
pub data ResponseBody : Type 0 where
  error_body : String → ResponseBody
  bytes : List ℕ → ResponseBody

pub record ProxyResponse : Type 0 where
  pub response_id : Option String
  pub status : ℕ
  pub response_headers : JsMap String String
  pub body : ResponseBody

-- `/^[A-Za-z0-9+/]*={0,2}$/`
abbrev pub is_base64_char : ℕ → Bool
is_base64_char c =
    (leb b'A' c && leb c b'Z')
    || (leb b'a' c && leb c b'z')
    || (leb b'0' c && leb c b'9')
    || c == b'+'
    || c == b'/'

abbrev pub is_base64 : String → Bool
is_base64 s =
    let padding = skip_while is_base64_char s in padding == "" || padding == "=" || padding == "=="

-- The test of a body that is there: a text of the alphabet, of a length that a code can have.
abbrev pub is_encoded : String → Bool
is_encoded s = not (utf16_length s % 4 == 1) && is_base64 s

abbrev pub is_short : ℕ → Option String → Bool
is_short n none = false
is_short n (some s) = leb (utf16_length s) n

abbrev pub is_local_path : Option String → Bool
is_local_path none = false
is_local_path (some path) = is_some (strip_prefix "/" path) && leb (utf16_length path) 4_096

abbrev pub is_valid_request : ProxyRequest → Bool
is_valid_request m = is_short 120 m.request_id && is_local_path m.path && is_some m.method

-- `["GET", "HEAD"].includes(method.toUpperCase())`
abbrev pub has_no_body : String → Bool
has_no_body method = equals_lowered method "get" || equals_lowered method "head"

-- What becomes of a message: an error, the answer 413, or a request to the local gateway.
pub data Plan : Type 0 where
  rejects_message : String → Plan
  too_large : Plan
  forwards : LocalRequest → Plan

module _ (make_headers : Json → String ⊎ JsMap String String) (decode : String → List ℕ)
    (local_origin gateway_auth_token : String) where
  -- The request that is made, with the gateway's own token in place of any other.
  unfoldable pub local_request : ProxyRequest → JsMap String String → Option (List ℕ) → LocalRequest
  local_request m headers body =
      let method = or_else m.method "" in
      record {
        url = concat local_origin (or_else m.path "");
        local_method = method;
        local_headers = set headers "authorization" (concat "Bearer " gateway_auth_token);
        local_body = if has_no_body method then none else body;
      }

  unfoldable pub plan_body : ProxyRequest → JsMap String String → BodyField → Plan
  plan_body m headers no_body = forwards (local_request m headers none)
  plan_body m headers wrong_body = rejects_message "invalid_proxy_body"
  plan_body m headers (base64 s) =
      if not (truthy s)
      then forwards (local_request m headers none)
      else if not (is_encoded s)
      then rejects_message "invalid_proxy_body"
      else if ltb max_proxy_body_base64_chars (utf16_length s)
      then too_large
      else if ltb max_proxy_body_bytes (length (decode s))
      then too_large
      else forwards (local_request m headers (some (decode s)))

  unfoldable pub plan_headers : ProxyRequest → String ⊎ JsMap String String → Plan
  plan_headers m (inl error) = rejects_message error
  plan_headers m (inr headers) = plan_body m headers m.body_base64

  unfoldable pub plan : ProxyRequest → Plan
  plan m =
      if is_valid_request m
      then plan_headers m (make_headers m.headers)
      else rejects_message "invalid_proxy_request"

abbrev pub on_body : List ℕ → Option (List ℕ) → Option (List ℕ)
on_body chunk none = none
on_body chunk (some rest) = some (chunk ++ rest)

-- `total += value.byteLength; if (total > limit) throw`, for each chunk.
unfoldable pub read_body : ℕ → ℕ → List (List ℕ) → Option (List ℕ)
read_body limit total [] = some []
read_body limit total (chunk ∷ chunks) =
    let rest = read_body limit (total + length chunk) chunks in
    if ltb limit (total + length chunk) then none else on_body chunk rest

-- A response with no body has no chunks.
unfoldable pub read_body_with_limit : Option (List (List ℕ)) → ℕ → Option (List ℕ)
unfolding read_body
read_body_with_limit none limit = some []
read_body_with_limit (some chunks) limit = read_body limit 0 chunks

abbrev pub is_dropped_header : String → Bool
is_dropped_header key =
    equals_lowered key "transfer-encoding"
    || equals_lowered key "content-encoding"
    || equals_lowered key "connection"

unfoldable pub filter_response_headers : JsMap String String → JsMap String String
filter_response_headers headers = delete_where (λ key v. is_dropped_header key) headers

abbrev pub json_headers : JsMap String String
json_headers = ("content-type", "application/json") ∷ []

abbrev pub error_response : ProxyRequest → ℕ → String → ProxyResponse
error_response m status error = record {
  response_id = m.request_id;
  status = status;
  response_headers = json_headers;
  body = error_body error;
}

unfoldable pub answer_read :
    ProxyRequest → ℕ → JsMap String String → Option (List ℕ) → ProxyResponse
answer_read m status headers none = error_response m 502 "proxy_response_too_large"
answer_read m status headers (some read) = record {
  response_id = m.request_id;
  status = status;
  response_headers = filter_response_headers headers;
  body = bytes read;
}

unfoldable pub answer_local : ProxyRequest → LocalResponse → ProxyResponse
unfolding read_body_with_limit
answer_local m (fetch_failed error) = error_response m 502 error
answer_local m (local_reply status headers chunks) =
    answer_read m status headers (read_body_with_limit chunks max_proxy_body_bytes)

-- The one response that is sent, and the request that is made, if one is.
unfoldable pub answer_plan :
    (LocalRequest → LocalResponse) → ProxyRequest → Plan → ProxyResponse × Option LocalRequest
answer_plan fetch m (rejects_message error) = (error_response m 502 error, none)
answer_plan fetch m too_large = (error_response m 413 "request_too_large", none)
answer_plan fetch m (forwards r) = (answer_local m (fetch r), some r)

unfoldable pub proxy_local_request :
    (Json → String ⊎ JsMap String String)
    → (String → List ℕ)
    → String
    → String
    → (LocalRequest → LocalResponse)
    → ProxyRequest
    → ProxyResponse × Option LocalRequest
proxy_local_request make_headers decode origin token fetch m =
    answer_plan fetch m (plan make_headers decode origin token m)
