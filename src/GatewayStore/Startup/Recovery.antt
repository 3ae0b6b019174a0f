-- ===== src/GatewayStore/Startup/Recovery.antt =====
-- What the constructor makes of the snapshots.
use code_harbor.Common.{
  Bool, Bool-cases, List, Option, String, [], arith, false, if◌then◌else◌, inl, inr, keep, length,
  length-last_n-le, nat_eq, none, refl, some, string_eq, true, truthy, ℕ, ◌∷◌, ◌≡◌, ◌≤◌,
}
use code_harbor.Common.JsMap.{JsMap, has, set}
use code_harbor.Common.JsMap.Every.{Every, Every-set}
use code_harbor.GatewayStore.Requests.{client_request_max}
use code_harbor.GatewayStore.Startup.{
  PersistedSession, construct, is_unfinished, last_id, load_create_requests, load_snapshot,
  normalize_persisted_session, persisted_ids,
}
use code_harbor.GatewayStore.State.{
  Store, list_sessions, persist_sessions, persist_sessions_now, timer_fires,
}
use code_harbor.GatewayStore.Types.{
  CreateRequestRecord, GatewaySession, Line, Prop, absent, prop_or, undefined, value,
}

-- No turn runs in the session, it stands under its own id, and its ledger is within the bound.
pub record Settled (id : String) (s : GatewaySession) : Type 0 where
  finished : is_unfinished s.status ≡ false
  keyed : s.id ≡ id
  bounded : length (prop_or s.recent_client_request_ids []) ≤ client_request_max

normalize-status :
    (p : PersistedSession) (now : ℕ)
    → is_unfinished (normalize_persisted_session p now).status ≡ false
unfolding normalize_persisted_session
normalize-status p now = ground arith

normalize-ids :
    (p : PersistedSession) (now : ℕ)
    → (normalize_persisted_session p now).recent_client_request_ids
      ≡ value (persisted_ids p.session)
unfolding normalize_persisted_session
normalize-ids p now = ground arith

normalize-id :
    (p : PersistedSession) (now : ℕ) → (normalize_persisted_session p now).id ≡ p.session.id
unfolding normalize_persisted_session
normalize-id p now = ground arith

length-last_id-le : (id : Prop String) → length (last_id id) ≤ client_request_max
length-last_id-le absent = omega arith
length-last_id-le undefined = omega arith
length-last_id-le (value id) = ground arith

length-persisted_ids-le : (s : GatewaySession) → length (persisted_ids s) ≤ client_request_max
length-persisted_ids-le s = by_case s.recent_client_request_ids
  where
    by_case :
        (recent : Prop (List String))
        → length (persisted_ids (record s { recent_client_request_ids = recent }))
          ≤ client_request_max
    by_case absent = length-last_id-le s.last_client_request_id
    by_case undefined = length-last_id-le s.last_client_request_id
    by_case (value ids) = length-last_n-le client_request_max (keep truthy ids)

normalize-Settled :
    (p : PersistedSession) (now : ℕ) → Settled p.session.id (normalize_persisted_session p now)
normalize-Settled p now = record {
  finished = normalize-status p now;
  keyed = normalize-id p now;
  bounded = rw (normalize-ids p now) (length-persisted_ids-le p.session);
}

load_snapshot-Settled :
    (m : JsMap String GatewaySession) (ps : List PersistedSession) (now : ℕ)
    → Every Settled m
    → Every Settled (load_snapshot m ps now)
unfolding load_snapshot
load_snapshot-Settled m [] now h = h
load_snapshot-Settled m (p ∷ ps) now h =
    load_snapshot-Settled (set m p.session.id (normalize_persisted_session p now)) ps now
      (Every-set Settled m p.session.id _ h (normalize-Settled p now))

-- Every create request that is loaded leads to a session that is there.
abbrev pub LeadsInto : JsMap String GatewaySession → JsMap String CreateRequestRecord → Type 0
LeadsInto sessions = Every (λ request r. has sessions r.session_id ≡ true)

load_create_requests-LeadsInto :
    (sessions : JsMap String GatewaySession) (m : JsMap String CreateRequestRecord)
    (rest : List (String × Option CreateRequestRecord))
    → LeadsInto sessions m
    → LeadsInto sessions (load_create_requests sessions m rest)
unfolding load_create_requests
load_create_requests-LeadsInto sessions m [] h = h
load_create_requests-LeadsInto sessions m ((request, none) ∷ rest) h =
    load_create_requests-LeadsInto sessions m rest h
load_create_requests-LeadsInto sessions m ((request, some r) ∷ rest) h =
    load_create_requests-LeadsInto sessions
      (if has sessions r.session_id then set m request r else m) rest
      (elim (Bool-cases (has sessions r.session_id)) [
        | inl there ↦ rw there (Every-set _ m request r h there)
        | inr missing ↦ rw missing h
      ])

-- What a restarted store satisfies.
pub record Recovered (st : Store) : Type 0 where
  settled : Every Settled st.sessions
  connected : LeadsInto st.sessions st.create_requests
  scheduled : st.session_persist_timer ≡ true
  due : st.session_persist_dirty ≡ true
  written :
      (timer_fires st).sessions_file ≡ (if st.disk_ok then list_sessions st else st.sessions_file)

timer_fires-sessions_file :
    (st : Store)
    → st.session_persist_dirty ≡ true
    → (timer_fires st).sessions_file ≡ (if st.disk_ok then list_sessions st else st.sessions_file)
unfolding timer_fires persist_sessions_now list_sessions
timer_fires-sessions_file st dirty = elim (Bool-cases st.disk_ok) [
  | inl ok ↦ rw (dirty, ok) refl
  | inr bad ↦ rw (dirty, bad) refl
]

pub construct-Recovered :
    (snapshot : List PersistedSession) (relations : List (String × String))
    (requests : List (String × Option CreateRequestRecord)) (files : JsMap String (List Line))
    (now : ℕ) (disk_ok : Bool)
    → Recovered (construct snapshot relations requests files now disk_ok)
unfolding construct persist_sessions
construct-Recovered snapshot relations requests files now disk_ok = record {
  settled = load_snapshot-Settled [] snapshot now tt;
  connected = load_create_requests-LeadsInto (load_snapshot [] snapshot now) [] requests tt;
  scheduled = refl;
  due = refl;
  written =
      timer_fires-sessions_file (construct snapshot relations requests files now disk_ok) refl;
}
