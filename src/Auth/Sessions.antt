-- ===== src/Auth/Sessions.antt =====
-- auth.ts, the login sessions: a map from the hash of a token, and its copy in a file. The keyed hash
-- of node:crypto is a parameter; times are milliseconds; each reading of the clock is an argument.
pub mod Invariant
pub mod Kept
pub mod Lifetime
pub mod Reload
mod Tests
use code_harbor.Common.{
  Bool, List, Option, String, [], false, if◌then◌else◌, leb, length, ltb, map, nat_eq, none, some,
  string_eq, true, truthy, ℕ, ◌*◌, ◌+◌, ◌==◌, ◌∷◌,
}
use code_harbor.Common.JsMap.{JsMap, delete, delete_oldest, delete_where, get, has, set, shrink}

pub record Session : Type 0 where
  pub token_hash : String
  pub expires_at : ℕ
  pub created_at : ℕ

-- The fields of `config` that this file reads.
pub record AuthConfig : Type 0 where
  pub gateway_auth_token : String
  pub session_ttl_hours : ℕ

-- `file` is what the sessions file holds.
pub record AuthState : Type 0 where
  pub sessions : JsMap String Session
  pub file : List Session

abbrev pub max_auth_sessions : ℕ
max_auth_sessions = 10_000

abbrev pub values : JsMap String Session → List Session
values = map (λ e. e.1)

-- An element of the parsed file; a field is `none` when it is absent or of another type.
pub data StoredItem : Type 0 where
  not_object : StoredItem
  object : Option String → Option ℕ → Option ℕ → StoredItem

-- The check of one element: all three fields, of their types, and not expired.
pub load_item : ℕ → JsMap String Session → StoredItem → JsMap String Session
load_item now m not_object = m
load_item now m (object (some hash) (some created) (some expires)) =
    if ltb now expires
    then set m hash (record { token_hash = hash; expires_at = expires; created_at = created })
    else m
load_item now m (object _ _ _) = m

pub load_items : ℕ → JsMap String Session → List StoredItem → JsMap String Session
load_items now m [] = m
load_items now m (i ∷ items) = load_items now (load_item now m i) items

pub prune_sessions : ℕ → JsMap String Session → JsMap String Session
prune_sessions now m =
    shrink max_auth_sessions (delete_where (λ hash session. leb session.expires_at now) m)

-- `none`: the file is missing, is not JSON, or holds no array.
pub load_sessions : ℕ → Option (List StoredItem) → JsMap String Session
load_sessions now none = []
load_sessions now (some items) = prune_sessions now (load_items now [] items)

-- `written` says whether the file system took the write; a failure is swallowed.
pub persist_sessions : Bool → AuthState → AuthState
persist_sessions written s = if written then record s { file = values s.sessions } else s

module _ (hmac : String → String) (cfg : AuthConfig) where
  -- `token` is what `nanoid(48)` returns; the clock is read twice.
  pub create_session : String → ℕ → ℕ → Bool → AuthState → AuthState × ℕ
  create_session token pruned_at now written s =
      let pruned = prune_sessions pruned_at s.sessions in
      let room = if leb max_auth_sessions (length pruned) then delete_oldest pruned else pruned in
      let hash = hmac token in
      let expires = now + cfg.session_ttl_hours * 60 * 60 * 1000 in
      let session : Session = record {
        token_hash = hash;
        expires_at = expires;
        created_at = now;
      } in
      (persist_sessions written (record s { sessions = set room hash session }), expires)

  pub verify_session : Option String → ℕ → Bool → AuthState → AuthState × Bool
  verify_session none now written s = (s, false)
  verify_session (some token) now written s =
      if truthy token
      then (if token == cfg.gateway_auth_token
          then (s, true)
          else elim (get s.sessions (hmac token)) [
            | none ↦ (s, false)
            | some session ↦
                if ltb session.expires_at now
                then (
                  persist_sessions written (record s { sessions = delete s.sessions (hmac token) }),
                  false,
                )
                else (s, true)
          ])
      else (s, false)

  pub revoke_session : Option String → Bool → AuthState → AuthState × Bool
  revoke_session none written s = (s, false)
  revoke_session (some token) written s =
      if truthy token
      then (if has s.sessions (hmac token)
          then (
            persist_sessions written (record s { sessions = delete s.sessions (hmac token) }),
            true,
          )
          else (s, false))
      else (s, false)

  -- A call from a handler.
  pub data Call : Type 0 where
    creates : String → ℕ → ℕ → Bool → Call
    verifies : Option String → ℕ → Bool → Call
    revokes : Option String → Bool → Call

  pub step : AuthState → Call → AuthState
  step s (creates token pruned_at now written) = (create_session token pruned_at now written s).0
  step s (verifies token now written) = (verify_session token now written s).0
  step s (revokes token written) = (revoke_session token written s).0

  pub run : AuthState → List Call → AuthState
  run s [] = s
  run s (c ∷ cs) = run (step s c) cs
