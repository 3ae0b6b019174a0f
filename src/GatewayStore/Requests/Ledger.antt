-- ===== src/GatewayStore/Requests/Ledger.antt =====
-- What is remembered of a request is found again.
use code_harbor.Common.{
  ==_refl, String, [], ap, arith, false, last_n, length, length-last_n-le, nat_eq, refl, some,
  string_eq, subst, true, truthy, ℕ, ◌++◌, ◌∷◌, ◌≡◌, ◌≤◌,
}
use code_harbor.Common.JsMap.{get, get-set, has, set}
use code_harbor.Common.JsMap.Distinct.{
  HasDistinctKeys, get-shrink-set_new, has-delete, set-HasDistinctKeys, shrink-eq-last_n,
}
use code_harbor.GatewayStore.Requests.{
  client_request_max, create_request_max, distinct_ids, done, get_create_request_session,
  has_client_request, release_client_request, remember_client_request, remember_create_request,
  reservation_key, reserve_create_request, with_request,
}
use code_harbor.GatewayStore.State.{Store, save_session}
use code_harbor.GatewayStore.Types.{CreateRequestRecord, GatewaySession, prop_or, value}

-- A create request that was remembered for a session that the store knows leads to that session, so a
-- repeated create request is answered with it; the ledger holds at most 512 records.
pub reserve-remember_create_request :
    (st : Store) (request session : String) (now later : ℕ)
    → truthy request ≡ true
    → truthy session ≡ true
    → HasDistinctKeys st.create_requests
    → has st.create_requests request ≡ false
    → has st.sessions session ≡ true
    → ((reserve_create_request (remember_create_request st request session now) request later).1
        ≡ done session)
      × (length (remember_create_request st request session now).create_requests
          ≤ create_request_max)
unfolding reserve_create_request get_create_request_session remember_create_request has
reserve-remember_create_request st request session now later t u d new known =
    let r : CreateRequestRecord = record { session_id = session; created_at = now } in
    let found : get (last_n create_request_max (set st.create_requests request r)) request
        ≡ some r =
      subst (λ m. get m request ≡ some r)
        (shrink-eq-last_n create_request_max (set st.create_requests request r)
          (set-HasDistinctKeys st.create_requests request r d))
        (get-shrink-set_new create_request_max st.create_requests request r d new (omega arith)) in
    (
      ground (arith, found),
      ground (arith, length-last_n-le create_request_max (set st.create_requests request r)),
    )

release-sessions :
    (st : Store) (session request : String)
    → (release_client_request st session request).sessions ≡ st.sessions
unfolding release_client_request
release-sessions st session request = ground arith

remember_known :
    (st : Store) (session request : String) (s : GatewaySession)
    → truthy request ≡ true
    → get st.sessions session ≡ some s
    → remember_client_request st session request
      ≡ save_session (release_client_request st session request) (with_request s request)
unfolding remember_client_request
remember_known st session request s t known =
    ground (arith, ap (λ m. get m session) (release-sessions st session request))

recognised :
    (st : Store) (session request : String) (s : GatewaySession)
    → truthy request ≡ true
    → get st.sessions session ≡ some s
    → s.last_client_request_id ≡ value request
    → has_client_request st session request ≡ true
unfolding has_client_request
recognised st session request s t known last = ground (arith, ==_refl request)

released :
    (st : Store) (session request : String)
    → truthy session ≡ true
    → truthy request ≡ true
    → has
        (release_client_request st session request).client_request_reservations
        (reservation_key session request)
      ≡ false
unfolding release_client_request
released st session request u t =
    let key = reservation_key session request in rw (u, t, has-delete, ==_refl key)

-- Right after a client request was remembered in a session of the store, the request is recognised in
-- that session; the session keeps at most 128 ids, and the reservation of the request is given back.
pub has-remember_client_request :
    (st : Store) (session request : String) (s : GatewaySession)
    → truthy session ≡ true
    → truthy request ≡ true
    → get st.sessions session ≡ some s
    → s.id ≡ session
    → (has_client_request (remember_client_request st session request) session request ≡ true)
      × (get (remember_client_request st session request).sessions session
          ≡ some (with_request s request))
      × (length (prop_or (with_request s request).recent_client_request_ids [])
          ≤ client_request_max)
      × (has
            (remember_client_request st session request).client_request_reservations
            (reservation_key session request)
          ≡ false)
unfolding save_session with_request
has-remember_client_request st session request s u t known own =
    let st' = release_client_request st session request in
    let s' = with_request s request in
    let e = remember_known st session request s t known in
    let stored : get (save_session st' s').sessions session ≡ some s' =
      rw (get-set, own, ==_refl session) in
    (
      rw e (recognised (save_session st' s') session request s' t stored refl),
      rw e stored,
      length-last_n-le client_request_max
          (distinct_ids [] (prop_or s.recent_client_request_ids [] ++ request ∷ [])),
      rw e (released st session request u t),
    )
