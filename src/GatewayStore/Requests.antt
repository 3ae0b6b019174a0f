-- ===== src/GatewayStore/Requests.antt =====
-- gatewayStore.ts, the reservations and the ledgers by which a repeated request is recognised.
pub mod Held
pub mod Once
pub mod Ledger
use code_harbor.Common.{
  Bool, List, Option, String, [], false, if◌then◌else◌, includes, last_n, leb, nat_eq, none, not,
  some, string_eq, true, truthy, ℕ, ◌&&◌, ◌++◌, ◌+◌, ◌==◌, ◌||◌, ◌∷◌,
}
use code_harbor.Common.JsMap.{JsMap, delete, delete_where, get, has, set, shrink}
use code_harbor.Common.Text.{concat}
use code_harbor.GatewayStore.State.{Store, save_session}
use code_harbor.GatewayStore.Types.{
  CreateRequestRecord, GatewaySession, Prop, absent, prop_or, undefined, value,
}

abbrev pub request_reservation_ttl_ms : ℕ
request_reservation_ttl_ms = 600_000

abbrev pub request_reservation_max : ℕ
request_reservation_max = 10_000

-- `createdAt <= Date.now() - ttl`
abbrev pub is_stale : ℕ → ℕ → Bool
is_stale now created = leb (created + request_reservation_ttl_ms) now

unfoldable pub prune_reservations : ℕ → JsMap String ℕ → JsMap String ℕ
prune_reservations now m =
    shrink request_reservation_max (delete_where (λ key created. is_stale now created) m)

-- `${sessionId}\u0000${requestId}`
unfoldable pub reservation_key : String → String → String
reservation_key session request = concat session (concat "\0" request)

abbrev pub prop_is : Prop String → String → Bool
prop_is (value a) b = a == b
prop_is absent b = false
prop_is undefined b = false

abbrev pub prop_includes : Prop (List String) → String → Bool
prop_includes (value ids) b = includes ids b
prop_includes absent b = false
prop_includes undefined b = false

unfoldable pub has_client_request : Store → String → String → Bool
has_client_request st session request = truthy request && elim (get st.sessions session) [
  | none ↦ false
  | some s ↦
      prop_includes s.recent_client_request_ids request || prop_is s.last_client_request_id request
]

unfoldable pub reserve_client_request : Store → String → String → ℕ → Store × Bool
reserve_client_request st session request now =
    if not (truthy session) || not (truthy request)
    then (st, true)
    else if has_client_request st session request
    then (st, false)
    else (let pruned = prune_reservations now st.client_request_reservations in
        let key = reservation_key session request in
        if has pruned key
        then (record st { client_request_reservations = pruned }, false)
        else (record st { client_request_reservations = set pruned key now }, true))

unfoldable pub release_client_request : Store → String → String → Store
release_client_request st session request =
    if not (truthy session) || not (truthy request) then st else record st {
      client_request_reservations =
          delete st.client_request_reservations (reservation_key session request);
    }

abbrev pub write_create_requests : Store → Store
write_create_requests st =
    if st.disk_ok then record st { create_requests_file = st.create_requests } else st

-- A record whose session is gone is dropped on the way.
unfoldable pub get_create_request_session : Store → String → Store × Option String
get_create_request_session st request =
    if truthy request
    then elim (get st.create_requests request) [
      | none ↦ (st, none)
      | some r ↦ if has st.sessions r.session_id then (st, some r.session_id) else (
        write_create_requests (record st { create_requests = delete st.create_requests request }),
        none,
      )
    ]
    else (st, none)

-- `{ reserved: true }`, `{ reserved: false, sessionId }` or `{ reserved: false, pending: true }`
pub data Reservation : Type 0 where
  reserved pending : Reservation
  done : String → Reservation

-- The part of `reserveCreateRequest` behind the look at the ledger.
unfoldable pub reserve_new_create : Store → String → ℕ → Store × Reservation
reserve_new_create st request now =
    let pruned = prune_reservations now st.create_request_reservations in
    if has pruned request
    then (record st { create_request_reservations = pruned }, pending)
    else (record st { create_request_reservations = set pruned request now }, reserved)

-- What follows the look at the ledger.
abbrev pub reserve_behind : Store → String → ℕ → Option String → Store × Reservation
reserve_behind st request now none = reserve_new_create st request now
reserve_behind st request now (some session) =
    if truthy session then (st, done session) else reserve_new_create st request now

unfoldable pub reserve_create_request : Store → String → ℕ → Store × Reservation
reserve_create_request st request now =
    if truthy request
    then (let (st', existing) = get_create_request_session st request in
        reserve_behind st' request now existing)
    else (st, reserved)

unfoldable pub release_create_request : Store → String → Store
release_create_request st request =
    if truthy request
    then record st { create_request_reservations = delete st.create_request_reservations request }
    else st

abbrev pub create_request_max : ℕ
create_request_max = 512

-- The newest 512 records stay: `slice(-512)` of the entries.
unfoldable pub remember_create_request : Store → String → String → ℕ → Store
remember_create_request st request session now =
    if not (truthy request) || not (truthy session)
    then st
    else (let r : CreateRequestRecord = record { session_id = session; created_at = now } in
        write_create_requests (record st {
          create_request_reservations = delete st.create_request_reservations request;
          create_requests = last_n create_request_max (set st.create_requests request r);
        }))

-- `values.filter((value, index, values) => value && values.indexOf(value) === index)`
unfoldable pub distinct_ids : List String → List String → List String
distinct_ids seen [] = []
distinct_ids seen (id ∷ ids) =
    let rest = distinct_ids (id ∷ seen) ids in
    if truthy id && not (includes seen id) then id ∷ rest else rest

abbrev pub client_request_max : ℕ
client_request_max = 128

unfoldable pub with_request : GatewaySession → String → GatewaySession
with_request s request = record s {
  recent_client_request_ids = value (
      last_n client_request_max
        (distinct_ids [] (prop_or s.recent_client_request_ids [] ++ request ∷ [])));
  last_client_request_id = value request;
}

unfoldable pub remember_client_request : Store → String → String → Store
remember_client_request st session request =
    if truthy request
    then (let st' = release_client_request st session request in
        elim (get st'.sessions session) [
          | none ↦ st'
          | some s ↦ save_session st' (with_request s request)
        ])
    else st
