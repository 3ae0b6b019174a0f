-- ===== src/CodexBridge/Environment.antt =====
-- codexBridge.ts, the environment of the child: that of the gateway without its secrets. The separator
-- of paths is a parameter.
pub mod Secrets
use code_harbor.Common.{
  Bool, List, String, [], false, is_some, keep, nat_eq, or_else, string_eq, truthy, ◌++◌, ◌==◌,
  ◌||◌, ◌∷◌,
}
use code_harbor.Common.JsMap.{JsMap, delete_where, get, set}
use code_harbor.Common.Text.{concat, ends_with, strip_prefix}

-- `/(?:^|_)(?:API_KEY|TOKEN|SECRET|PASSWORD|PRIVATE_KEY|ACCESS_KEY)$/`, for one of the words
abbrev pub ends_in_word : String → String → Bool
ends_in_word key word = key == word || ends_with (concat "_" word) key

abbrev pub starts_with : String → String → Bool
starts_with prefix key = is_some (strip_prefix prefix key)

abbrev pub any_text : (String → Bool) → List String → Bool
any_text p [] = false
any_text p (t ∷ ts) = p t || any_text p ts

abbrev pub secret_prefixes : List String
secret_prefixes = "CODEHARBOR_" ∷ "RELAY_" ∷ "GATEWAY_AUTH_" ∷ "POSTGRES_" ∷ "PG" ∷ []

abbrev pub secret_names : List String
secret_names = "ADMIN_TOKEN" ∷ "SESSION_SECRET" ∷ "DATABASE_URL" ∷ "REDIS_URL" ∷ []

abbrev pub secret_words : List String
secret_words = "API_KEY" ∷ "TOKEN" ∷ "SECRET" ∷ "PASSWORD" ∷ "PRIVATE_KEY" ∷ "ACCESS_KEY" ∷ []

unfoldable pub is_secret : String → Bool
is_secret key =
    any_text (λ prefix. starts_with prefix key) secret_prefixes
    || any_text (λ name. key == name) secret_names
    || any_text (λ word. ends_in_word key word) secret_words

abbrev pub extra_path : List String
extra_path =
    "/opt/homebrew/bin" ∷ "/usr/local/bin" ∷ "/usr/bin" ∷ "/bin" ∷ "/usr/sbin" ∷ "/sbin" ∷ []

abbrev pub join_with : String → List String → String
join_with delimiter [] = ""
join_with delimiter (t ∷ []) = t
join_with delimiter (t ∷ u ∷ us) = concat t (concat delimiter (join_with delimiter (u ∷ us)))

-- `[...extraPath, existingPath].filter(Boolean).join(path.delimiter)`
abbrev pub tool_path : String → JsMap String String → String
tool_path delimiter env =
    join_with delimiter (keep truthy (extra_path ++ or_else (get env "PATH") "" ∷ []))

unfoldable pub process_env_with_tool_path : String → JsMap String String → JsMap String String
process_env_with_tool_path delimiter env =
    set (delete_where (λ key v. is_secret key) env) "PATH" (tool_path delimiter env)
