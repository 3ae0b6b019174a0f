-- ===== src/Auth/Sessions/Reload.antt =====
-- The sessions file across a restart: what `persistSessions` writes, `loadSessions` reads back.
use code_harbor.Auth.Sessions.{
  AuthState, Session, StoredItem, load_item, load_items, load_sessions, max_auth_sessions,
  not_object, object, persist_sessions, prune_sessions, values,
}
use code_harbor.Auth.Sessions.Invariant.{IsKeyed, IsValid}
use code_harbor.Common.{
  Bool-cases, List, Option, String, [], arith, if◌then◌else◌, inl, inr, leb, length, ltb, map,
  nat_eq, none, refl, some, string_eq, true, ℕ, ◌+◌, ◌∷◌, ◌≡◌, ◌≤◌,
}
use code_harbor.Common.JsMap.{
  JsMap, delete_where, get, get-set, has, length-set-le, set, shrink_of_short,
}
use code_harbor.Common.JsMap.Distinct.{HasDistinctKeys}
use code_harbor.Common.JsMap.Every.{Every, Every-set}

-- What JSON makes of a session that was written and parsed again.
abbrev pub to_item : Session → StoredItem
to_item session =
    object (some session.token_hash) (some session.created_at) (some session.expires_at)

-- The part of an entry that a restart at this time keeps.
abbrev pub live : ℕ → Option Session → Option Session
live now none = none
live now (some session) = if ltb now session.expires_at then some session else none

abbrev IsLive : ℕ → JsMap String Session → Type 0
IsLive now = Every (λ hash session. ltb now session.expires_at ≡ true)

get-load_items :
    (now : ℕ) (acc m : JsMap String Session) (hash : String)
    → IsKeyed m
    → HasDistinctKeys m
    → get (load_items now acc (map to_item (values m))) hash
      ≡ elim (live now (get m hash)) [ none ↦ get acc hash | some session ↦ some session ]
unfolding load_items load_item get has
get-load_items now acc [] hash k d = refl
get-load_items now acc ((j, session) ∷ m) hash (same, k) (new, d) =
    let acc' = load_item now acc (to_item session) in
    ground (
      arith,
      get-load_items now acc' m hash k d,
      get-set acc session.token_hash hash session,
      string_eq.beq_iff session.token_hash hash,
      string_eq.beq_iff j hash,
      same,
    )

load_item_cases {κ} :
    (P : JsMap String Session → Type κ) (now : ℕ) (acc : JsMap String Session) (item : StoredItem)
    → P acc
    → ((hash : String) (session : Session)
        → ltb now session.expires_at ≡ true
        → P (set acc hash session))
    → P (load_item now acc item)
unfolding load_item
load_item_cases P now acc (object (some hash) (some created) (some expires)) old new =
    elim (Bool-cases (ltb now expires)) [
      | inl alive ↦ rw alive (new hash _ alive)
      | inr dead ↦ rw dead old
    ]
load_item_cases P now acc (object (some hash) (some created) none) old new = old
load_item_cases P now acc (object (some hash) none c) old new = old
load_item_cases P now acc (object none b c) old new = old
load_item_cases P now acc not_object old new = old

load_items-IsLive :
    (now : ℕ) (acc : JsMap String Session) (items : List StoredItem)
    → IsLive now acc
    → IsLive now (load_items now acc items)
unfolding load_items
load_items-IsLive now acc [] h = h
load_items-IsLive now acc (item ∷ items) h =
    load_items-IsLive now (load_item now acc item) items
      (load_item_cases (IsLive now) now acc item h (λ hash v alive. Every-set _ acc hash v h alive))

length-load_items-le :
    (now : ℕ) (acc : JsMap String Session) (items : List StoredItem)
    → length (load_items now acc items) ≤ length acc + length items
unfolding load_items
length-load_items-le now acc [] = omega arith
length-load_items-le now acc (item ∷ items) =
    let one : length (load_item now acc item) ≤ length acc + 1 =
      load_item_cases (λ m. length m ≤ length acc + 1) now acc item (omega arith)
        (λ hash v alive. omega (arith, length-set-le acc hash v)) in
    omega (arith, length-load_items-le now (load_item now acc item) items, one)

length-values : (m : JsMap String Session) → length (map to_item (values m)) ≡ length m
length-values [] = refl
length-values (e ∷ m) = omega (arith, length-values m)

delete_where_nothing :
    (now : ℕ) (m : JsMap String Session)
    → IsLive now m
    → delete_where (λ hash session. leb session.expires_at now) m ≡ m
unfolding delete_where
delete_where_nothing now [] h = refl
delete_where_nothing now ((j, session) ∷ m) (live, h) = ground (arith, delete_where_nothing now m h)

-- A restart at time `now` from the file that a successful write left behind restores exactly the
-- sessions that are unexpired at that time, each with its hash and its times.
pub load-persist_sessions :
    (s : AuthState) (now : ℕ) (hash : String)
    → IsValid s.sessions
    → get (load_sessions now (some (map to_item (persist_sessions true s).file))) hash
      ≡ live now (get s.sessions hash)
unfolding load_sessions persist_sessions prune_sessions get
load-persist_sessions s now hash v =
    let items = map to_item (values s.sessions) in
    let loaded = load_items now [] items in
    let short : length loaded ≤ max_auth_sessions =
      omega (arith, length-load_items-le now [] items, length-values s.sessions, v.bounded) in
    rw
      (
        delete_where_nothing now loaded (load_items-IsLive now [] items tt),
        shrink_of_short max_auth_sessions loaded short,
      )
      (ground (arith, get-load_items now [] s.sessions hash v.keyed v.distinct))
