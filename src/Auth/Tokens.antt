-- ===== src/Auth/Tokens.antt =====
-- auth.ts, the tokens that a request carries, and the comparisons of secrets. The keyed hash of
-- node:crypto is a parameter; `timingSafeEqual` compares bytes, and texts are equal exactly when their
-- bytes are.
pub mod RoundTrip
mod Tests
use Prim.Native.String.{len}
use code_harbor.Auth.Sessions.{values}
use code_harbor.Common.{
  Bool, List, Option, String, [], if◌then◌else◌, nat_eq, none, some, string_eq, truthy, ◌&&◌, ◌==◌,
  ◌∷◌,
}
use code_harbor.Common.Text.{equals_lowered, split, strip_prefix, trim}

-- `safeEqual`
unfoldable pub safe_equal : String → String → Bool
safe_equal a b = len a == len b && a == b

unfoldable pub verify_admin_token : (String → String) → String → String → Bool
verify_admin_token hmac admin_token token = safe_equal (hmac token) (hmac admin_token)

-- `username` and `password` are those of the configuration.
unfoldable pub validate_gateway_login : String → String → String → String → Bool
validate_gateway_login auth_username auth_password username password =
    safe_equal username auth_username && safe_equal password auth_password

-- `const [scheme, token] = header.split(" ")`; the scheme is compared in lower case.
bearer_of : List String → Option String
bearer_of (scheme ∷ token ∷ rest) = if equals_lowered scheme "bearer" then some token else none
bearer_of (scheme ∷ []) = none
bearer_of [] = none

-- The argument is the `authorization` header.
unfoldable pub get_bearer_token : Option String → Option String
unfolding bearer_of
get_bearer_token none = none
get_bearer_token (some header) = if truthy header then bearer_of (split b' ' header) else none

-- `queryToken` is `none` when the query holds no text under `token`; `allow` is the setting by which a
-- query may carry one at all.
unfoldable pub get_request_token : Option String → Option String → Bool → Option String
get_request_token header query_token allow = elim (get_bearer_token header) [
  | none ↦ if allow then query_token else none
  | some token ↦ some token
]

-- A header that comes once, several times, or not at all.
pub data Header : Type 0 where
  absent : Header
  one : String → Header
  many : List String → Header

abbrev pub header_values : Header → List String
header_values absent = []
header_values (one value) = if truthy value then value ∷ [] else []
header_values (many values) = values

-- The test of one protocol of the list: the prefix, and a token that is not empty.
pub protocol_token : String → Option String
protocol_token raw = elim (strip_prefix "codeharbor-v1." (trim raw)) [
  | none ↦ none
  | some rest ↦ if truthy (trim rest) then some (trim rest) else none
]

pub first_protocol_token : List String → Option String
first_protocol_token [] = none
first_protocol_token (raw ∷ raws) =
    let later = first_protocol_token raws in
    elim (protocol_token raw) [ none ↦ later | some token ↦ some token ]

pub first_value_token : List String → Option String
unfolding first_protocol_token
first_value_token [] = none
first_value_token (value ∷ values) =
    let later = first_value_token values in
    elim (first_protocol_token (split b',' value)) [ none ↦ later | some token ↦ some token ]

pub get_websocket_protocol_token : Header → Option String
unfolding first_value_token
get_websocket_protocol_token header = first_value_token (header_values header)
