-- ===== src/Auth/Sessions/Invariant.antt =====
-- The shape of the session map in every history of calls.
use code_harbor.Auth.Sessions.{
  AuthConfig, AuthState, Call, Session, StoredItem, create_session, creates, load_item, load_items,
  load_sessions, max_auth_sessions, not_object, object, persist_sessions, prune_sessions,
  revoke_session, revokes, run, step, verifies, verify_session,
}
use code_harbor.Common.{
  Bool, Bool-cases, List, Option, String, [], arith, if◌then◌else◌, inl, inr, leb, length, ltb,
  nat_eq, none, refl, some, string_eq, ℕ, ◌∷◌, ◌≡◌, ◌≤◌,
}
use code_harbor.Common.JsMap.{
  JsMap, delete, delete_oldest, delete_where, length-delete-le, length-delete_oldest, length-set-le,
  length-shrink-le, set,
}
use code_harbor.Common.JsMap.Distinct.{
  HasDistinctKeys, delete-HasDistinctKeys, delete_oldest-HasDistinctKeys,
  delete_where-HasDistinctKeys, set-HasDistinctKeys, shrink-HasDistinctKeys,
}
use code_harbor.Common.JsMap.Every.{
  Every, Every-delete, Every-delete_oldest, Every-delete_where, Every-set, Every-shrink,
}

-- A session stands under its own hash.
abbrev pub IsKeyed : JsMap String Session → Type 0
IsKeyed = Every (λ hash session. session.token_hash ≡ hash)

pub record IsValid (m : JsMap String Session) : Type 0 where
  pub keyed : IsKeyed m
  pub distinct : HasDistinctKeys m
  pub bounded : length m ≤ max_auth_sessions

pub prune_sessions-IsValid :
    (now : ℕ) (m : JsMap String Session)
    → IsKeyed m
    → HasDistinctKeys m
    → IsValid (prune_sessions now m)
unfolding prune_sessions
prune_sessions-IsValid now m k h = record {
  keyed = Every-shrink _ max_auth_sessions _ (Every-delete_where _ _ m k);
  distinct = shrink-HasDistinctKeys max_auth_sessions _ (delete_where-HasDistinctKeys _ m h);
  bounded =
      length-shrink-le max_auth_sessions
        (delete_where (λ (hash : String) (session : Session). leb session.expires_at now) m);
}

set_room-IsValid :
    (m : JsMap String Session) (k : String) (v : Session)
    → IsValid m
    → v.token_hash ≡ k
    → IsValid (set (if leb max_auth_sessions (length m) then delete_oldest m else m) k v)
set_room-IsValid m k v h e = elim (Bool-cases (leb max_auth_sessions (length m))) [
  | inl full ↦ rw full (record {
    keyed = Every-set _ _ k v (Every-delete_oldest _ m h.keyed) e;
    distinct = set-HasDistinctKeys _ k v (delete_oldest-HasDistinctKeys m h.distinct);
    bounded =
        omega (arith, length-set-le (delete_oldest m) k v, length-delete_oldest m 9_999 h.bounded);
  })
  | inr free ↦ rw free (record {
    keyed = Every-set _ m k v h.keyed e;
    distinct = set-HasDistinctKeys m k v h.distinct;
    bounded = ground (arith, length-set-le m k v);
  })
]

delete-IsValid : (m : JsMap String Session) (k : String) → IsValid m → IsValid (delete m k)
delete-IsValid m k h = record {
  keyed = Every-delete _ m k h.keyed;
  distinct = delete-HasDistinctKeys m k h.distinct;
  bounded = omega (arith, length-delete-le m k, h.bounded);
}

pub persist_keeps :
    (written : Bool) (s : AuthState) → (persist_sessions written s).sessions ≡ s.sessions
unfolding persist_sessions
persist_keeps written s = ground arith

module _ (hmac : String → String) (cfg : AuthConfig) where
  create_session-IsValid :
      (token : String) (pruned_at now : ℕ) (written : Bool) (s : AuthState)
      → IsValid s.sessions
      → IsValid (create_session hmac cfg token pruned_at now written s).0.sessions
  unfolding create_session
  create_session-IsValid token pruned_at now written s v =
      rw (persist_keeps written _) (
        set_room-IsValid _ _ _ (prune_sessions-IsValid pruned_at s.sessions v.keyed v.distinct)
          refl)

  verify_session-IsValid :
      (token : Option String) (now : ℕ) (written : Bool) (s : AuthState)
      → IsValid s.sessions
      → IsValid (verify_session hmac cfg token now written s).0.sessions
  unfolding verify_session
  verify_session-IsValid none now written s v = v
  verify_session-IsValid (some token) now written s v =
      let out = record s { sessions = delete s.sessions (hmac token) } in
      ground (arith, persist_keeps written out, delete-IsValid s.sessions (hmac token) v)

  revoke_session-IsValid :
      (token : Option String) (written : Bool) (s : AuthState)
      → IsValid s.sessions
      → IsValid (revoke_session hmac cfg token written s).0.sessions
  unfolding revoke_session
  revoke_session-IsValid none written s v = v
  revoke_session-IsValid (some token) written s v =
      let out = record s { sessions = delete s.sessions (hmac token) } in
      ground (arith, persist_keeps written out, delete-IsValid s.sessions (hmac token) v)

  step-IsValid :
      (s : AuthState) (c : Call hmac cfg)
      → IsValid s.sessions
      → IsValid (step hmac cfg s c).sessions
  unfolding step
  step-IsValid s (creates token pruned_at now written) v =
      create_session-IsValid token pruned_at now written s v
  step-IsValid s (verifies token now written) v = verify_session-IsValid token now written s v
  step-IsValid s (revokes token written) v = revoke_session-IsValid token written s v

  run-IsValid :
      (s : AuthState) (cs : List (Call hmac cfg))
      → IsValid s.sessions
      → IsValid (run hmac cfg s cs).sessions
  unfolding run
  run-IsValid s [] v = v
  run-IsValid s (c ∷ cs) v = run-IsValid (step hmac cfg s c) cs (step-IsValid s c v)

load_item-keeps :
    (now : ℕ) (m : JsMap String Session) (item : StoredItem)
    → IsKeyed m
    → HasDistinctKeys m
    → IsKeyed (load_item now m item) × HasDistinctKeys (load_item now m item)
unfolding load_item
load_item-keeps now m (object (some hash) (some created) (some expires)) k h =
    elim (Bool-cases (ltb now expires)) [
      | inl live ↦ rw live (Every-set _ m hash _ k refl, set-HasDistinctKeys m hash _ h)
      | inr dead ↦ rw dead (k, h)
    ]
load_item-keeps now m (object (some hash) (some created) none) k h = (k, h)
load_item-keeps now m (object (some hash) none c) k h = (k, h)
load_item-keeps now m (object none b c) k h = (k, h)
load_item-keeps now m not_object k h = (k, h)

pub load_items-keeps :
    (now : ℕ) (m : JsMap String Session) (items : List StoredItem)
    → IsKeyed m
    → HasDistinctKeys m
    → IsKeyed (load_items now m items) × HasDistinctKeys (load_items now m items)
unfolding load_items
load_items-keeps now m [] k h = (k, h)
load_items-keeps now m (item ∷ items) k h =
    let (k', h') = load_item-keeps now m item k h in
    load_items-keeps now (load_item now m item) items k' h'

load_sessions-IsValid :
    (now : ℕ) (items : Option (List StoredItem)) → IsValid (load_sessions now items)
unfolding load_sessions
load_sessions-IsValid now none = record { keyed = tt; distinct = tt; bounded = omega arith }
load_sessions-IsValid now (some items) =
    let (k, h) = load_items-keeps now [] items tt tt in
    prune_sessions-IsValid now (load_items now [] items) k h

-- After any start from any file and any history of calls, the map holds each hash once, every session
-- under its own hash, and at most 10,000 sessions.
pub run-load_sessions-IsValid :
    (hmac : String → String) (cfg : AuthConfig) (now : ℕ) (items : Option (List StoredItem))
    (file : List Session) (cs : List (Call hmac cfg))
    → IsValid
        (run hmac cfg (record { sessions = load_sessions now items; file = file }) cs).sessions
run-load_sessions-IsValid hmac cfg now items file cs =
    run-IsValid hmac cfg (record { sessions = load_sessions now items; file = file }) cs
      (load_sessions-IsValid now items)
