-- ===== src/GatewayStore/Requests/Once.antt =====
-- A request is admitted once.
use code_harbor.Common.{
  ==_refl, Bool-cases, List, String, arith, inl, inr, length, nat_eq, none, refl, string_eq, suc,
  true, truthy, ℕ, ◌+◌, ◌<◌, ◌≡◌, ◌≤◌,
}
use code_harbor.Common.JsMap.{get, get-set, has, length-set-le}
use code_harbor.Common.JsMap.Distinct.{HasDistinctKeys, set-HasDistinctKeys}
use code_harbor.GatewayStore.Requests.{
  get_create_request_session, pending, prune_reservations, request_reservation_max,
  request_reservation_ttl_ms, reserve_create_request, reserve_new_create, reserved,
}
use code_harbor.GatewayStore.Requests.Held.{
  Held, InTime, ReserveCall, get-prune, length-prune-le, prune-HasDistinctKeys, reserve_run,
  reserve_run-Held,
}
use code_harbor.GatewayStore.State.{Store}

-- A request that the ledger does not know goes on to the reservations.
reserve_create_request_new :
    (st : Store) (request : String) (now : ℕ)
    → truthy request ≡ true
    → get st.create_requests request ≡ none
    → reserve_create_request st request now ≡ reserve_new_create st request now
unfolding reserve_create_request get_create_request_session
reserve_create_request_new st request now t new = ground arith

Held-pending :
    (request : String) (now later : ℕ) (st : Store)
    → truthy request ≡ true
    → later < now + request_reservation_ttl_ms
    → Held request now 0 st
    → (reserve_create_request st request later).1 ≡ pending
unfolding reserve_new_create has
Held-pending request now later st t soon h =
    let m = st.create_request_reservations in
    let kept = get-prune later now request m (omega (arith, h.fits)) h.distinct h.held soon in
    rw (reserve_create_request_new st request later t h.unknown, kept) refl

first-Held :
    (request : String) (now room : ℕ) (st : Store)
    → HasDistinctKeys st.create_request_reservations
    → length st.create_request_reservations + suc room ≤ request_reservation_max
    → get st.create_requests request ≡ none
    → (reserve_new_create st request now).1 ≡ reserved
    → Held request now room (reserve_new_create st request now).0
unfolding reserve_new_create
first-Held request now room st d fits new first =
    let m = st.create_request_reservations in
    let pruned = prune_reservations now m in
    let size = length-prune-le now m (omega (arith, fits)) in
    elim (Bool-cases (has pruned request)) [
      | inl old ↦ absurd (ground arith)
      | inr fresh ↦ rw fresh (record {
        held = rw (get-set, ==_refl request) refl;
        distinct = set-HasDistinctKeys pruned request now (prune-HasDistinctKeys now m d);
        fits = omega (arith, size, fits, length-set-le pruned request now);
        unknown = new;
      })
    ]

-- Whoever reserved a create request holds it alone for ten minutes: whatever callers reserve, also this
-- request again, and whatever others they release in between, each before the ten minutes are over, the
-- next caller for the request is told to wait. This is for a request that is not in the ledger and is
-- not released or remembered in between, and as long as the reservations stay within 10,000.
pub reserve_create_request_twice :
    (st : Store) (request : String) (now later : ℕ) (cs : List ReserveCall)
    → truthy request ≡ true
    → HasDistinctKeys st.create_request_reservations
    → length st.create_request_reservations + suc (length cs) ≤ request_reservation_max
    → get st.create_requests request ≡ none
    → (reserve_create_request st request now).1 ≡ reserved
    → InTime request now cs
    → later < now + request_reservation_ttl_ms
    → (reserve_create_request
        (reserve_run (reserve_create_request st request now).0 cs)
        request
        later).1
      ≡ pending
reserve_create_request_twice st request now later cs t d fits new first n soon =
    let e = reserve_create_request_new st request now t new in
    let st' = (reserve_new_create st request now).0 in
    let start = first-Held request now (length cs) st d fits new (rw e at first) in
    rw e (
      Held-pending request now later (reserve_run st' cs) t soon
        (reserve_run-Held request now st' cs n start))
