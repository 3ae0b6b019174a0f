-- ===== src/Auth/Sessions/Lifetime.antt =====
-- From the creation of a login session to its end: what a token opens, and when it stops.
use code_harbor.Auth.Sessions.{
  AuthConfig, AuthState, Call, Session, create_session, creates, max_auth_sessions, prune_sessions,
  revoke_session, revokes, run, step, verifies, verify_session,
}
use code_harbor.Auth.Sessions.Invariant.{persist_keeps}
use code_harbor.Auth.Sessions.Kept.{AllLeave, Kept, run-Kept}
use code_harbor.Common.{
  ==_refl, Bool, List, String, [], arith, false, if◌then◌else◌, leb, length, nat_eq, none, some,
  string_eq, suc, true, truthy, ℕ, ◌*◌, ◌+◌, ◌==◌, ◌↔◌, ◌∷◌, ◌≡◌, ◌≤◌, ◌⊎◌,
}
use code_harbor.Common.JsMap.{
  JsMap, delete, delete_oldest, delete_where, get, get-delete, get-set, has, length-delete_where-le,
  length-set-le, shrink, shrink_of_short,
}
use code_harbor.Common.JsMap.Distinct.{
  HasDistinctKeys, delete_where-HasDistinctKeys, get-delete_oldest-none, get-delete_where-none,
  get-shrink-none, set-HasDistinctKeys,
}

prune-absent :
    (m : JsMap String Session) (now : ℕ) (hash : String)
    → get m hash ≡ none
    → get (prune_sessions now m) hash ≡ none
unfolding prune_sessions
prune-absent m now hash h =
    get-shrink-none max_auth_sessions _ hash
      (get-delete_where-none (λ k session. leb session.expires_at now) m hash h)

module _ (hmac : String → String) (cfg : AuthConfig) where
  abbrev pub Opens : String → ℕ → AuthState → Type 0
  Opens token now s =
      (token ≡ cfg.gateway_auth_token)
      ⊎ ((session : Session) × (get s.sessions (hmac token) ≡ some session)
          × (now ≤ session.expires_at))

  -- A token is accepted exactly when it is not empty and is the Gateway's own token, or an unexpired
  -- session is stored under its hash.
  pub verify_session_iff :
      (token : String) (now : ℕ) (written : Bool) (s : AuthState)
      → ((verify_session hmac cfg (some token) now written s).1 ≡ true)
        ↔ ((truthy token ≡ true) × Opens token now s)
  unfolding verify_session
  verify_session_iff token now written s = (
    λ h. ground (arith, string_eq.beq_iff token cfg.gateway_auth_token),
    λ h. ground (arith, string_eq.beq_iff token cfg.gateway_auth_token),
  )

  get-create_session :
      (token : String) (pruned_at now : ℕ) (written : Bool) (s : AuthState)
      → get (create_session hmac cfg token pruned_at now written s).0.sessions (hmac token)
        ≡ some (record {
          token_hash = hmac token;
          expires_at = now + cfg.session_ttl_hours * 60 * 60 * 1000;
          created_at = now;
        })
  unfolding create_session
  get-create_session token pruned_at now written s =
      rw (persist_keeps written _, get-set, ==_refl (hmac token))

  create_session-Kept :
      (token : String) (pruned_at now : ℕ) (written : Bool) (room : ℕ) (s : AuthState)
      → HasDistinctKeys s.sessions
      → length s.sessions + suc room ≤ max_auth_sessions
      → Kept
          (hmac token)
          (record {
            token_hash = hmac token;
            expires_at = now + cfg.session_ttl_hours * 3_600_000;
            created_at = now;
          })
          room
          (create_session hmac cfg token pruned_at now written s).0.sessions
  unfolding create_session prune_sessions
  create_session-Kept token pruned_at now written room s d fits =
      let p = λ (h : String) (session : Session). leb session.expires_at pruned_at in
      let cut = delete_where p s.sessions in
      let few = length-delete_where-le p s.sessions in
      let e : shrink max_auth_sessions cut ≡ cut =
        shrink_of_short max_auth_sessions cut (omega (arith, fits, few)) in
      let free : leb max_auth_sessions (length cut) ≡ false = ground (arith, fits, few) in
      record {
        found = ground (arith, get-create_session token pruned_at now written s);
        distinct =
            rw (persist_keeps written _, e, free)
              (set-HasDistinctKeys cut (hmac token) _
                (delete_where-HasDistinctKeys p s.sessions d));
        fits =
            rw (persist_keeps written _, e, free)
              (omega (arith, fits, few, length-set-le cut (hmac token) _));
      }

  -- After a login the Gateway takes its token, where that is not empty and not the Gateway's own, up to
  -- and including the millisecond at which the session expires and no longer, whatever calls lie between:
  -- other logins whose pruning comes before that millisecond, any checks of other tokens, checks of this
  -- token up to that millisecond, and any logouts with other tokens. This is for tokens with different
  -- hashes, and as long as the sessions stay within 10,000.
  pub verify-create_session :
      (token : String) (pruned_at now later : ℕ) (written written' : Bool) (s : AuthState)
      (cs : List (Call hmac cfg))
      → truthy token ≡ true
      → (token == cfg.gateway_auth_token) ≡ false
      → HasDistinctKeys s.sessions
      → length s.sessions + suc (length cs) ≤ max_auth_sessions
      → AllLeave hmac cfg (hmac token) (now + cfg.session_ttl_hours * 3_600_000) cs
      → (verify_session hmac cfg
          (some token)
          later
          written'
          (run hmac cfg (create_session hmac cfg token pruned_at now written s).0 cs)).1
        ≡ leb later (now + cfg.session_ttl_hours * 3_600_000)
  unfolding verify_session
  verify-create_session token pruned_at now later written written' s cs t g d fits n =
      let s' = (create_session hmac cfg token pruned_at now written s).0 in
      let session : Session = record {
        token_hash = hmac token;
        expires_at = now + cfg.session_ttl_hours * 3_600_000;
        created_at = now;
      } in
      let kept =
        run-Kept hmac cfg (hmac token) session s' cs n
          (create_session-Kept token pruned_at now written (length cs) s d fits) in
      ground (arith, kept.found)

  -- A call that could store a session under the hash.
  abbrev pub Renews : String → Call hmac cfg → Type 0
  Renews hash (creates token pruned_at now written) = hmac token ≡ hash
  Renews hash (verifies token now written) = ⊥
  Renews hash (revokes token written) = ⊥

  abbrev pub NeverRenews : String → List (Call hmac cfg) → Type 0
  NeverRenews hash [] = Unit
  NeverRenews hash (c ∷ cs) = (¬ Renews hash c) × NeverRenews hash cs

  room-absent :
      (m : JsMap String Session) (now : ℕ) (hash : String)
      → get m hash ≡ none
      → get
          (if leb max_auth_sessions (length (prune_sessions now m))
            then delete_oldest (prune_sessions now m)
            else prune_sessions now m)
          hash
        ≡ none
  room-absent m now hash h =
      let kept = prune-absent m now hash h in
      ground (arith, kept, get-delete_oldest-none (prune_sessions now m) hash kept)

  step-absent :
      (s : AuthState) (c : Call hmac cfg) (hash : String)
      → ¬ Renews hash c
      → get s.sessions hash ≡ none
      → get (step hmac cfg s c).sessions hash ≡ none
  unfolding step create_session verify_session revoke_session
  step-absent s (creates token pruned_at now written) hash n h =
      rw (persist_keeps written _, get-set)
        (ground
          (arith, room-absent s.sessions pruned_at hash h, string_eq.beq_iff (hmac token) hash))
  step-absent s (verifies none now written) hash n h = h
  step-absent s (verifies (some token) now written) hash n h =
      let out = record s { sessions = delete s.sessions (hmac token) } in
      ground (arith, persist_keeps written out, get-delete s.sessions (hmac token) hash)
  step-absent s (revokes none written) hash n h = h
  step-absent s (revokes (some token) written) hash n h =
      let out = record s { sessions = delete s.sessions (hmac token) } in
      ground (arith, persist_keeps written out, get-delete s.sessions (hmac token) hash)

  run-absent :
      (s : AuthState) (cs : List (Call hmac cfg)) (hash : String)
      → NeverRenews hash cs
      → get s.sessions hash ≡ none
      → get (run hmac cfg s cs).sessions hash ≡ none
  unfolding run
  run-absent s [] hash n h = h
  run-absent s (c ∷ cs) hash n h =
      run-absent (step hmac cfg s c) cs hash n.1 (step-absent s c hash n.0 h)

  get-revoke_session :
      (token : String) (written : Bool) (s : AuthState)
      → truthy token ≡ true
      → get (revoke_session hmac cfg (some token) written s).0.sessions (hmac token) ≡ none
  unfolding revoke_session has
  get-revoke_session token written s t =
      let out = record s { sessions = delete s.sessions (hmac token) } in
      ground (
        arith,
        persist_keeps written out,
        get-delete s.sessions (hmac token) (hmac token),
        ==_refl (hmac token),
      )

  -- After a logout the token is refused at every time and after every further history of calls in which
  -- no session is created under the same hash, unless it is the Gateway's own token.
  pub verify-revoke_session :
      (token : String) (later : ℕ) (written written' : Bool) (s : AuthState)
      (cs : List (Call hmac cfg))
      → truthy token ≡ true
      → (token == cfg.gateway_auth_token) ≡ false
      → NeverRenews (hmac token) cs
      → (verify_session hmac cfg
          (some token)
          later
          written'
          (run hmac cfg (revoke_session hmac cfg (some token) written s).0 cs)).1
        ≡ false
  unfolding verify_session
  verify-revoke_session token later written written' s cs t g n =
      let s' = (revoke_session hmac cfg (some token) written s).0 in
      ground (arith, run-absent s' cs (hmac token) n (get-revoke_session token written s t))
