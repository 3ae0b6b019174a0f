-- ===== src/Auth/Tokens/RoundTrip.antt =====
-- What a client sends, the server reads back.
use code_harbor.Auth.Tokens.{
  first_value_token, get_bearer_token, get_websocket_protocol_token, one, protocol_token,
}
use code_harbor.Common.{String, arith, nat_eq, refl, some, string_eq, true, truthy, ◌≡◌}
use code_harbor.Common.Text.{
  Avoids, Avoids-concat, NoSpace, NoSpace-concat, concat, concat_assoc, equals_lowered, is_space,
  split-concat, split_of_Avoids, strip_prefix-append, trim_of_NoSpace, truthy-concat,
}

get_bearer_token-bearer :
    (token : String)
    → Avoids b' ' token
    → get_bearer_token (some (concat "Bearer " token)) ≡ some token
unfolding get_bearer_token equals_lowered
get_bearer_token-bearer token h =
    let e : concat "Bearer " token ≡ concat "Bearer" (concat " " token) =
      concat_assoc "Bearer" " " token in
    rw
      (
        e,
        get_bearer_token,
        truthy-concat "Bearer" (concat " " token) refl,
        split-concat b' ' "Bearer" _ token (ground arith) refl,
        split_of_Avoids b' ' token h,
      )
      refl

-- A token with neither comma nor white space that a client offers as a protocol is read back, also
-- where other protocols follow it in the header.
pub get_websocket_protocol_token-offer :
    (token rest : String)
    → truthy token ≡ true
    → Avoids b',' token
    → NoSpace token
    → get_websocket_protocol_token (one (concat (concat "codeharbor-v1." token) (concat "," rest)))
      ≡ some token
unfolding get_websocket_protocol_token protocol_token is_space
get_websocket_protocol_token-offer token rest t a n =
    let raw = concat "codeharbor-v1." token in
    rw
      (
        truthy-concat raw (concat "," rest) (truthy-concat "codeharbor-v1." token refl),
        first_value_token,
        split-concat b',' raw _ rest (Avoids-concat b',' "codeharbor-v1." token (ground arith) a)
            refl,
      )
      (ground (
        arith,
        trim_of_NoSpace raw (NoSpace-concat "codeharbor-v1." token (ground arith) n),
        strip_prefix-append "codeharbor-v1." token,
        trim_of_NoSpace token n,
      ))
