-- ===== src/Auth/Sessions/Kept.antt =====
-- A login session that stays while other calls come.
use code_harbor.Auth.Sessions.{
  AuthConfig, AuthState, Call, Session, create_session, creates, max_auth_sessions, prune_sessions,
  revoke_session, revokes, run, step, verifies, verify_session,
}
use code_harbor.Auth.Sessions.Invariant.{persist_keeps}
use code_harbor.Common.{
  Bool, Bool-cases, List, Option-cases, String, [], arith, false, if◌then◌else◌, inl, inr, leb,
  length, ltb, nat_eq, none, refl, some, string_eq, subst, suc, sym, true, truthy, ℕ, ◌+◌, ◌<◌,
  ◌==◌, ◌∷◌, ◌≡◌, ◌≢◌, ◌≤◌, ◌⊎◌,
}
use code_harbor.Common.JsMap.{
  JsMap, delete, delete_oldest, delete_where, get, get-delete, get-set, has, length-delete-le,
  length-delete_where-le, length-set-le, set, shrink, shrink_of_short,
}
use code_harbor.Common.JsMap.Distinct.{
  HasDistinctKeys, delete-HasDistinctKeys, delete_where-HasDistinctKeys, get-delete_where,
  set-HasDistinctKeys,
}

module _ (hmac : String → String) (cfg : AuthConfig) where
  -- A call that leaves the session of the hash alone: a login with another token that prunes before the
  -- session expires, a check of its token up to the millisecond at which it expires, and any other check
  -- and logout.
  abbrev pub Leaves : String → ℕ → Call hmac cfg → Type 0
  Leaves hash expires (creates token pruned_at now written) =
      (hmac token ≢ hash) × (pruned_at < expires)
  Leaves hash expires (verifies none now written) = Unit
  Leaves hash expires (verifies (some token) now written) = (hmac token ≢ hash) ⊎ (now ≤ expires)
  Leaves hash expires (revokes none written) = Unit
  Leaves hash expires (revokes (some token) written) = hmac token ≢ hash

  abbrev pub AllLeave : String → ℕ → List (Call hmac cfg) → Type 0
  AllLeave hash expires [] = Unit
  AllLeave hash expires (c ∷ cs) = Leaves hash expires c × AllLeave hash expires cs

-- The session is there, and `room` more fit.
pub record Kept (hash : String) (session : Session) (room : ℕ) (m : JsMap String Session)
    : Type 0 where
  pub found : get m hash ≡ some session
  pub distinct : HasDistinctKeys m
  pub fits : length m + room ≤ max_auth_sessions

module _ (hash : String) (session : Session) (room : ℕ) where
  weaker-Kept :
      (m : JsMap String Session) → Kept hash session (suc room) m → Kept hash session room m
  weaker-Kept m k = record { found = k.found; distinct = k.distinct; fits = omega (arith, k.fits) }

  delete-Kept :
      (m : JsMap String Session) (other : String)
      → (other == hash) ≡ false
      → Kept hash session (suc room) m
      → Kept hash session room (delete m other)
  delete-Kept m other apart k = record {
    found = rw (get-delete, apart) k.found;
    distinct = delete-HasDistinctKeys m other k.distinct;
    fits = omega (arith, k.fits, length-delete-le m other);
  }

  -- A pruning before the session expires.
  prune-Kept :
      (m : JsMap String Session) (at : ℕ)
      → at < session.expires_at
      → Kept hash session (suc room) m
      → Kept hash session (suc room) (prune_sessions at m)
  unfolding prune_sessions
  prune-Kept m at soon k =
      let p = λ (h : String) (s : Session). leb s.expires_at at in
      let fresh : leb session.expires_at at ≡ false = ground arith in
      let few = length-delete_where-le p m in
      let e : shrink max_auth_sessions (delete_where p m) ≡ delete_where p m =
        shrink_of_short max_auth_sessions (delete_where p m) (omega (arith, k.fits, few)) in
      rw e (record {
        found = rw (get-delete_where p m hash session k.distinct k.found, fresh) refl;
        distinct = delete_where-HasDistinctKeys p m k.distinct;
        fits = omega (arith, k.fits, few);
      })

  -- Another session finds room, and takes no other one's place.
  add-Kept :
      (m : JsMap String Session) (other : String) (added : Session)
      → (other == hash) ≡ false
      → Kept hash session (suc room) m
      → Kept hash session room
          (set (if leb max_auth_sessions (length m) then delete_oldest m else m) other added)
  add-Kept m other added apart k =
      let free : leb max_auth_sessions (length m) ≡ false = ground (arith, k.fits) in
      rw free (record {
        found = rw (get-set, apart) k.found;
        distinct = set-HasDistinctKeys m other added k.distinct;
        fits = omega (arith, k.fits, length-set-le m other added);
      })

module _ (hmac : String → String) (cfg : AuthConfig) (hash : String) (session : Session) where
  verify-Kept :
      (s : AuthState) (token : String) (now : ℕ) (written : Bool) (room : ℕ)
      → (hmac token ≢ hash) ⊎ (now ≤ session.expires_at)
      → Kept hash session (suc room) s.sessions
      → Kept hash session room (verify_session hmac cfg (some token) now written s).0.sessions
  unfolding verify_session
  verify-Kept s token now written room n k =
      let weak = weaker-Kept hash session room s.sessions k in
      let out = record s { sessions = delete s.sessions (hmac token) } in
      elim (Bool-cases (truthy token)) [
        | inr empty ↦ rw empty weak
        | inl there ↦ elim (Bool-cases (token == cfg.gateway_auth_token)) [
          | inl own ↦ rw (there, own) weak
          | inr foreign ↦ elim (Option-cases (get s.sessions (hmac token))) [
            | inl none' ↦ rw (there, foreign, none', verify_session) weak
            | inr (held, at) ↦ elim (Bool-cases (ltb held.expires_at now)) [
              | inr fresh ↦ rw (there, foreign, at, verify_session, fresh) weak
              | inl old ↦
                  let apart : (hmac token == hash) ≡ false = not_this s token now n k held at old in
                  rw (there, foreign, at, verify_session, old, persist_keeps written out)
                    (delete-Kept hash session room s.sessions (hmac token) apart k)
            ]
          ]
        ]
      ]
    where
      not_this :
          (s : AuthState) (token : String) (now : ℕ)
          → (hmac token ≢ hash) ⊎ (now ≤ session.expires_at)
          → Kept hash session (suc room) s.sessions
          → (held : Session) → get s.sessions (hmac token) ≡ some held
          → ltb held.expires_at now ≡ true
          → (hmac token == hash) ≡ false
      not_this s token now n k held at old = elim (Bool-cases (hmac token == hash)) [
        | inr apart ↦ apart
        | inl same ↦
            let e : hmac token ≡ hash = (string_eq.beq_iff (hmac token) hash).0 same in
            let found : get s.sessions (hmac token) ≡ some session =
              subst (λ j. get s.sessions j ≡ some session) (sym e) k.found in
            absurd (elim n [ inl other ↦ other e | inr le ↦ ground (arith, found, at, old, le) ])
      ]

  revoke-Kept :
      (s : AuthState) (token : String) (written : Bool) (room : ℕ)
      → hmac token ≢ hash
      → Kept hash session (suc room) s.sessions
      → Kept hash session room (revoke_session hmac cfg (some token) written s).0.sessions
  unfolding revoke_session
  revoke-Kept s token written room n k =
      let weak = weaker-Kept hash session room s.sessions k in
      let out = record s { sessions = delete s.sessions (hmac token) } in
      let apart : (hmac token == hash) ≡ false =
        ground (arith, n, string_eq.beq_iff (hmac token) hash) in
      elim (Bool-cases (truthy token)) [
        | inr empty ↦ rw empty weak
        | inl there ↦ elim (Bool-cases (has s.sessions (hmac token))) [
          | inr gone ↦ rw (there, gone) weak
          | inl held ↦
              rw (there, held, persist_keeps written out)
                (delete-Kept hash session room s.sessions (hmac token) apart k)
        ]
      ]

  step-Kept :
      (s : AuthState) (c : Call hmac cfg) (room : ℕ)
      → Leaves hmac cfg hash session.expires_at c
      → Kept hash session (suc room) s.sessions
      → Kept hash session room (step hmac cfg s c).sessions
  unfolding step verify_session revoke_session create_session
  step-Kept s (creates token pruned_at now written) room (n, soon) k =
      let apart : (hmac token == hash) ≡ false =
        ground (arith, n, string_eq.beq_iff (hmac token) hash) in
      rw (persist_keeps written _) (
        add-Kept hash session room (prune_sessions pruned_at s.sessions) (hmac token) _ apart
          (prune-Kept hash session room s.sessions pruned_at soon k))
  step-Kept s (verifies none now written) room n k = weaker-Kept hash session room s.sessions k
  step-Kept s (verifies (some token) now written) room n k =
      verify-Kept s token now written room n k
  step-Kept s (revokes none written) room n k = weaker-Kept hash session room s.sessions k
  step-Kept s (revokes (some token) written) room n k = revoke-Kept s token written room n k

  pub run-Kept :
      (s : AuthState) (cs : List (Call hmac cfg))
      → AllLeave hmac cfg hash session.expires_at cs
      → Kept hash session (length cs) s.sessions
      → Kept hash session 0 (run hmac cfg s cs).sessions
  unfolding run
  run-Kept s [] n k = k
  run-Kept s (c ∷ cs) n k = run-Kept (step hmac cfg s c) cs n.1 (step-Kept s c (length cs) n.0 k)
