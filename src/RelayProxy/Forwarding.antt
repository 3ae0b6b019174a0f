-- ===== src/RelayProxy/Forwarding.antt =====
-- What reaches the local gateway, and what comes back.
use code_harbor.Common.{
  Bool-cases, List, Option, String, [], ap, arith, false, if◌then◌else◌, inl, inr, is_some, leb,
  length, length-append, ltb, nat_eq, none, or_else, refl, some, string_eq, subst, true, truthy, ℕ,
  ◌++◌, ◌+◌, ◌∷◌, ◌≡◌, ◌≤◌, ◌⊎◌,
}
use code_harbor.Common.JsMap.{JsMap, get, get-set}
use code_harbor.Common.JsMap.Every.{Every, Every-delete_where_self}
use code_harbor.Common.Json.{Json}
use code_harbor.Common.Text.{concat, equals_lowered, utf16_length}
use code_harbor.Common.Text.Ends.{strip_prefix-Starts}
use code_harbor.RelayProxy.{
  BodyField, LocalRequest, LocalResponse, Plan, ProxyRequest, ProxyResponse, ResponseBody,
  answer_local, answer_plan, answer_read, base64, bytes, error_body, error_response, fetch_failed,
  filter_response_headers, forwards, is_dropped_header, is_encoded, is_local_path, is_short,
  is_valid_request, local_reply, local_request, max_proxy_body_base64_chars, max_proxy_body_bytes,
  no_body, plan, plan_body, plan_headers, proxy_local_request, read_body, read_body_with_limit,
  rejects_message, too_large, wrong_body,
}

-- The chunks joined.
abbrev pub flatten : List (List ℕ) → List ℕ
flatten [] = []
flatten (chunk ∷ chunks) = chunk ++ flatten chunks

read_body-flatten :
    (limit total : ℕ) (chunks : List (List ℕ))
    → total ≤ limit
    → read_body limit total chunks
      ≡ (if leb (total + length (flatten chunks)) limit then some (flatten chunks) else none)
unfolding read_body
read_body-flatten limit total [] h = ground arith
read_body-flatten limit total (chunk ∷ chunks) h =
    elim (Bool-cases (ltb limit (total + length chunk))) [
      | inl over ↦ ground (arith, over, length-append chunk (flatten chunks))
      | inr fits ↦
          let rest = read_body-flatten limit (total + length chunk) chunks (ground (arith, fits)) in
          ground (arith, fits, rest, length-append chunk (flatten chunks))
    ]

-- The body of a response is the chunks joined, if they have at most the limit of bytes together, and
-- reading fails otherwise, however the body is cut into chunks.
pub read_body_with_limit-flatten :
    (chunks : List (List ℕ)) (limit : ℕ)
    → read_body_with_limit (some chunks) limit
      ≡ (if leb (length (flatten chunks)) limit then some (flatten chunks) else none)
unfolding read_body_with_limit
read_body_with_limit-flatten chunks limit =
    ground (arith, read_body-flatten limit 0 chunks (omega arith))

is_short-inv :
    (n : ℕ) (o : Option String)
    → is_short n o ≡ true
    → (t : String) × (o ≡ some t) × (utf16_length t ≤ n)
is_short-inv n none h = absurd cc
is_short-inv n (some t) h = (t, refl, ground arith)

is_some-inv : (o : Option String) → is_some o ≡ true → o ≡ some (or_else o "")
is_some-inv none h = absurd cc
is_some-inv (some t) h = refl

is_local_path-inv :
    (o : Option String)
    → is_local_path o ≡ true
    → (rest : String) × (o ≡ some (concat "/" rest)) × (utf16_length (concat "/" rest) ≤ 4_096)
is_local_path-inv none h = absurd cc
is_local_path-inv (some path) h =
    let (rest, e) = (strip_prefix-Starts "/" path).0 (ground arith) in
    let short : utf16_length path ≤ 4_096 = ground arith in
    (rest, ap (λ t. some t) e, subst (λ t. utf16_length t ≤ 4_096) e short)

module _ (make_headers : Json → String ⊎ JsMap String String) (decode : String → List ℕ)
    (origin token : String) where
  -- What holds of a request that is made for a message.
  pub record Forwarded (m : ProxyRequest) (r : LocalRequest) : Type 0 where
    pub short_id : (request : String) × (m.request_id ≡ some request) × (utf16_length request ≤ 120)
    pub method : m.method ≡ some r.local_method
    pub target :
        (rest : String) × (m.path ≡ some (concat "/" rest))
        × (utf16_length (concat "/" rest) ≤ 4_096)
        × (r.url ≡ concat origin (concat "/" rest))
    pub own_token : get r.local_headers "authorization" ≡ some (concat "Bearer " token)
    pub bounded : length (or_else r.local_body []) ≤ max_proxy_body_bytes

  local_request-Forwarded :
      (m : ProxyRequest) (headers : JsMap String String) (body : Option (List ℕ))
      → is_valid_request m ≡ true
      → length (or_else body []) ≤ max_proxy_body_bytes
      → Forwarded m (local_request make_headers decode origin token m headers body)
  unfolding local_request
  local_request-Forwarded m headers body v h = record {
    short_id = is_short-inv 120 m.request_id (ground arith);
    method = is_some-inv m.method (ground arith);
    target =
        let (rest, named, short) = is_local_path-inv m.path (ground arith) in
        (rest, named, short, ap (λ o. concat origin (or_else o "")) named);
    own_token = get-set headers "authorization" "authorization" (concat "Bearer " token);
    bounded = ground arith;
  }

  abbrev IsSound : ProxyRequest → Plan → Type 0
  IsSound m (rejects_message error) = Unit
  IsSound m too_large = Unit
  IsSound m (forwards r) = Forwarded m r

  plan_body-IsSound :
      (m : ProxyRequest) (headers : JsMap String String) (body : BodyField)
      → is_valid_request m ≡ true
      → IsSound m (plan_body make_headers decode origin token m headers body)
  unfolding plan_body
  plan_body-IsSound m headers no_body v = local_request-Forwarded m headers none v (omega arith)
  plan_body-IsSound m headers wrong_body v = tt
  plan_body-IsSound m headers (base64 s) v = elim (Bool-cases (truthy s)) [
    | inr empty ↦ rw empty (local_request-Forwarded m headers none v (omega arith))
    | inl there ↦ elim (Bool-cases (is_encoded s)) [
      | inr wrong ↦ rw (there, wrong) tt
      | inl encoded ↦ elim (Bool-cases (ltb max_proxy_body_base64_chars (utf16_length s))) [
        | inl long ↦ rw (there, encoded, long) tt
        | inr short ↦ elim (Bool-cases (ltb max_proxy_body_bytes (length (decode s)))) [
          | inl large ↦ rw (there, encoded, short, large) tt
          | inr small ↦
              rw (there, encoded, short, small)
                (local_request-Forwarded m headers (some (decode s)) v (ground (arith, small)))
        ]
      ]
    ]
  ]

  plan_headers-IsSound :
      (m : ProxyRequest) (headers : String ⊎ JsMap String String)
      → is_valid_request m ≡ true
      → IsSound m (plan_headers make_headers decode origin token m headers)
  unfolding plan_headers
  plan_headers-IsSound m (inl error) v = tt
  plan_headers-IsSound m (inr headers) v = plan_body-IsSound m headers m.body_base64 v

  plan-IsSound : (m : ProxyRequest) → IsSound m (plan make_headers decode origin token m)
  unfolding plan
  plan-IsSound m = elim (Bool-cases (is_valid_request m)) [
    | inl v ↦ rw v (plan_headers-IsSound m (make_headers m.headers) v)
    | inr invalid ↦ rw invalid tt
  ]

  abbrev pub AllForwarded : ProxyRequest → Option LocalRequest → Type 0
  AllForwarded m none = Unit
  AllForwarded m (some r) = Forwarded m r

  answer_plan-AllForwarded :
      (fetch : LocalRequest → LocalResponse) (m : ProxyRequest) (p : Plan)
      → IsSound m p
      → AllForwarded m (answer_plan fetch m p).1
  unfolding answer_plan
  answer_plan-AllForwarded fetch m (rejects_message error) h = tt
  answer_plan-AllForwarded fetch m too_large h = tt
  answer_plan-AllForwarded fetch m (forwards r) h = h

  -- A request reaches the local gateway only for a message with a request id of at most 120 UTF-16
  -- units, a method, and a path of at most 4,096 units that starts with a slash; it has that method,
  -- goes to the gateway's own origin followed by that path, carries the gateway's own token whatever
  -- authorization the message brought, and has a body of at most 16 MB.
  pub proxy_local_request-AllForwarded :
      (fetch : LocalRequest → LocalResponse) (m : ProxyRequest)
      → AllForwarded m (proxy_local_request make_headers decode origin token fetch m).1
  unfolding proxy_local_request
  proxy_local_request-AllForwarded fetch m =
      answer_plan-AllForwarded fetch m (plan make_headers decode origin token m) (plan-IsSound m)

-- The size of a body that was read; an error is short.
abbrev pub body_size : ResponseBody → ℕ
body_size (error_body error) = 0
body_size (bytes read) = length read

-- What the relay gets back: the id of the message, no header of one connection alone, and a body of
-- at most 16 MB.
pub record IsAnswer (m : ProxyRequest) (a : ProxyResponse) : Type 0 where
  pub same_id : a.response_id ≡ m.request_id
  pub end_to_end : Every (λ key v. is_dropped_header key ≡ false) a.response_headers
  pub limited : body_size a.body ≤ max_proxy_body_bytes

error-IsAnswer :
    (m : ProxyRequest) (status : ℕ) (error : String) → IsAnswer m (error_response m status error)
unfolding equals_lowered
error-IsAnswer m status error = record {
  same_id = refl;
  end_to_end = (refl, tt);
  limited = omega arith;
}

answer_read-IsAnswer :
    (m : ProxyRequest) (status : ℕ) (headers : JsMap String String) (read : Option (List ℕ))
    → length (or_else read []) ≤ max_proxy_body_bytes
    → IsAnswer m (answer_read m status headers read)
unfolding answer_read filter_response_headers
answer_read-IsAnswer m status headers none h = error-IsAnswer m 502 "proxy_response_too_large"
answer_read-IsAnswer m status headers (some read) h = record {
  same_id = refl;
  end_to_end = Every-delete_where_self (λ key v. is_dropped_header key) headers;
  limited = h;
}

length-read_body_with_limit-le :
    (chunks : Option (List (List ℕ))) (limit : ℕ)
    → length (or_else (read_body_with_limit chunks limit) []) ≤ limit
unfolding read_body_with_limit
length-read_body_with_limit-le none limit = omega arith
length-read_body_with_limit-le (some chunks) limit =
    ground (arith, read_body_with_limit-flatten chunks limit)

answer_local-IsAnswer :
    (m : ProxyRequest) (response : LocalResponse) → IsAnswer m (answer_local m response)
unfolding answer_local
answer_local-IsAnswer m (fetch_failed error) = error-IsAnswer m 502 error
answer_local-IsAnswer m (local_reply status headers chunks) =
    answer_read-IsAnswer m status headers (read_body_with_limit chunks max_proxy_body_bytes)
      (length-read_body_with_limit-le chunks max_proxy_body_bytes)

-- Whatever the message holds and however the local gateway answers, the relay gets one answer, under
-- the id of the message, with none of the headers of a single connection and a body of at most 16 MB.
proxy_local_request-IsAnswer :
    (make_headers : Json → String ⊎ JsMap String String) (decode : String → List ℕ)
    (origin token : String) (fetch : LocalRequest → LocalResponse) (m : ProxyRequest)
    → IsAnswer m (proxy_local_request make_headers decode origin token fetch m).0
unfolding proxy_local_request answer_plan
proxy_local_request-IsAnswer make_headers decode origin token fetch m =
    by_plan (plan make_headers decode origin token m)
  where
    by_plan : (p : Plan) → IsAnswer m (answer_plan fetch m p).0
    by_plan (rejects_message error) = error-IsAnswer m 502 error
    by_plan too_large = error-IsAnswer m 413 "request_too_large"
    by_plan (forwards r) = answer_local-IsAnswer m (fetch r)
