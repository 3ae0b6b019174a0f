-- ===== src/GatewayStore/Requests/Held.antt =====
-- A create request that stays reserved while other requests are reserved and released.
use code_harbor.Common.{
  Bool-cases, List, Option, String, [], arith, false, inl, inr, length, nat_eq, none, refl, some,
  string_eq, suc, truthy, ℕ, ◌+◌, ◌<◌, ◌==◌, ◌∷◌, ◌≡◌, ◌≤◌,
}
use code_harbor.Common.JsMap.{
  JsMap, delete_where, get, get-delete, get-set, has, length-delete-le, length-delete_where-le,
  length-set-le, shrink_of_short,
}
use code_harbor.Common.JsMap.Distinct.{
  HasDistinctKeys, delete-HasDistinctKeys, delete_where-HasDistinctKeys, get-delete_where,
  set-HasDistinctKeys, shrink-HasDistinctKeys,
}
use code_harbor.GatewayStore.Requests.{
  get_create_request_session, is_stale, prune_reservations, release_create_request,
  request_reservation_max, request_reservation_ttl_ms, reserve_behind, reserve_create_request,
  reserve_new_create,
}
use code_harbor.GatewayStore.State.{Store}

-- What callers do in between: they reserve a create request at a time, or release one.
pub data ReserveCall : Type 0 where
  reserves : String → ℕ → ReserveCall
  releases : String → ReserveCall

pub reserve_run : Store → List ReserveCall → Store
reserve_run st [] = st
reserve_run st (reserves request now ∷ cs) =
    reserve_run (reserve_create_request st request now).0 cs
reserve_run st (releases request ∷ cs) = reserve_run (release_create_request st request) cs

-- No call gives the request back, and none comes when its reservation is ten minutes old.
abbrev pub InTime : String → ℕ → List ReserveCall → Type 0
InTime request now [] = Unit
InTime request now (reserves other at ∷ cs) =
    (at < now + request_reservation_ttl_ms) × InTime request now cs
InTime request now (releases other ∷ cs) = ((other == request) ≡ false) × InTime request now cs

-- The request is reserved since `now` and not in the ledger, and `room` more reservations fit.
pub record Held (request : String) (now room : ℕ) (st : Store) : Type 0 where
  pub held : get st.create_request_reservations request ≡ some now
  pub distinct : HasDistinctKeys st.create_request_reservations
  pub fits : length st.create_request_reservations + room ≤ request_reservation_max
  pub unknown : get st.create_requests request ≡ none

prune_of_short :
    (at : ℕ) (m : JsMap String ℕ)
    → length m ≤ request_reservation_max
    → prune_reservations at m ≡ delete_where (λ key created. is_stale at created) m
unfolding prune_reservations
prune_of_short at m h =
    let p = λ (key : String) (created : ℕ). is_stale at created in
    shrink_of_short request_reservation_max (delete_where p m)
      (omega (arith, length-delete_where-le p m))

-- A reservation that is not yet ten minutes old outlives a pruning, where the map has room.
pub get-prune :
    (at now : ℕ) (request : String) (m : JsMap String ℕ)
    → length m ≤ request_reservation_max
    → HasDistinctKeys m
    → get m request ≡ some now
    → at < now + request_reservation_ttl_ms
    → get (prune_reservations at m) request ≡ some now
get-prune at now request m h d held soon =
    let p = λ (key : String) (created : ℕ). is_stale at created in
    let fresh : is_stale at now ≡ false = ground arith in
    rw (prune_of_short at m h, get-delete_where p m request now d held, fresh) refl

pub length-prune-le :
    (at : ℕ) (m : JsMap String ℕ)
    → length m ≤ request_reservation_max
    → length (prune_reservations at m) ≤ length m
length-prune-le at m h =
    let p = λ (key : String) (created : ℕ). is_stale at created in
    rw (prune_of_short at m h) (length-delete_where-le p m)

pub prune-HasDistinctKeys :
    (now : ℕ) (m : JsMap String ℕ) → HasDistinctKeys m → HasDistinctKeys (prune_reservations now m)
unfolding prune_reservations
prune-HasDistinctKeys now m d =
    shrink-HasDistinctKeys request_reservation_max _ (delete_where-HasDistinctKeys _ m d)

-- The look at the ledger changes nothing but the ledger, and adds nothing to it.
record LooksUp (request : String) (st st' : Store) : Type 0 where
  same : st'.create_request_reservations ≡ st.create_request_reservations
  absent : get st.create_requests request ≡ none → get st'.create_requests request ≡ none

get_create_request_session-LooksUp :
    (st : Store) (request other : String)
    → LooksUp request st (get_create_request_session st other).0
unfolding get_create_request_session
get_create_request_session-LooksUp st request other = record {
  same = ground arith;
  absent = λ h. ground (arith, h, get-delete st.create_requests other request);
}

module _ (request : String) (now room : ℕ) where
  reserve_new_create-Held :
      (st : Store) (other : String) (at : ℕ)
      → at < now + request_reservation_ttl_ms
      → Held request now (suc room) st
      → Held request now room (reserve_new_create st other at).0
  unfolding reserve_new_create has
  reserve_new_create-Held st other at soon h =
      let m = st.create_request_reservations in
      let pruned = prune_reservations at m in
      let kept = get-prune at now request m (omega (arith, h.fits)) h.distinct h.held soon in
      let size = length-prune-le at m (omega (arith, h.fits)) in
      let d = prune-HasDistinctKeys at m h.distinct in
      elim (Bool-cases (has pruned other)) [
        | inl old ↦ rw old (record {
          held = kept;
          distinct = d;
          fits = omega (arith, size, h.fits);
          unknown = h.unknown;
        })
        | inr new ↦
            let apart : (other == request) ≡ false =
              ground (arith, string_eq.beq_iff other request, kept) in
            rw new (record {
              held = rw (get-set, apart) kept;
              distinct = set-HasDistinctKeys pruned other at d;
              fits = omega (arith, size, h.fits, length-set-le pruned other at);
              unknown = h.unknown;
            })
      ]

  weaker-Held : (st : Store) → Held request now (suc room) st → Held request now room st
  weaker-Held st h = record {
    held = h.held;
    distinct = h.distinct;
    fits = omega (arith, h.fits);
    unknown = h.unknown;
  }

  looked_up-Held :
      (st st' : Store)
      → LooksUp request st st'
      → Held request now room st
      → Held request now room st'
  looked_up-Held st st' l h = record {
    held = rw l.same h.held;
    distinct = rw l.same h.distinct;
    fits = rw l.same h.fits;
    unknown = l.absent h.unknown;
  }

module _ (request : String) (now room : ℕ) where
  behind_look-Held :
      (st : Store) (other : String) (at : ℕ) (existing : Option String)
      → at < now + request_reservation_ttl_ms
      → Held request now (suc room) st
      → Held request now room (reserve_behind st other at existing).0
  behind_look-Held st other at none soon h =
      reserve_new_create-Held request now room st other at soon h
  behind_look-Held st other at (some session) soon h = elim (Bool-cases (truthy session)) [
    | inl t ↦ rw t (weaker-Held request now room st h)
    | inr f ↦ rw f (reserve_new_create-Held request now room st other at soon h)
  ]

  reserve_create_request-Held :
      (st : Store) (other : String) (at : ℕ)
      → at < now + request_reservation_ttl_ms
      → Held request now (suc room) st
      → Held request now room (reserve_create_request st other at).0
  unfolding reserve_create_request
  reserve_create_request-Held st other at soon h = elim (Bool-cases (truthy other)) [
    | inr f ↦ rw f (weaker-Held request now room st h)
    | inl t ↦
        let (st', existing) = get_create_request_session st other in
        rw t (
          behind_look-Held st' other at existing soon (
            looked_up-Held request now (suc room) st st'
              (get_create_request_session-LooksUp st request other) h))
  ]

  release_create_request-Held :
      (st : Store) (other : String)
      → (other == request) ≡ false
      → Held request now (suc room) st
      → Held request now room (release_create_request st other)
  unfolding release_create_request
  release_create_request-Held st other apart h =
      let m = st.create_request_reservations in
      elim (Bool-cases (truthy other)) [
        | inr f ↦ rw f (weaker-Held request now room st h)
        | inl t ↦ rw t (record {
          held = rw (get-delete, apart) h.held;
          distinct = delete-HasDistinctKeys m other h.distinct;
          fits = omega (arith, h.fits, length-delete-le m other);
          unknown = h.unknown;
        })
      ]

pub reserve_run-Held :
    (request : String) (now : ℕ) (st : Store) (cs : List ReserveCall)
    → InTime request now cs
    → Held request now (length cs) st
    → Held request now 0 (reserve_run st cs)
unfolding reserve_run
reserve_run-Held request now st [] n h = h
reserve_run-Held request now st (reserves other at ∷ cs) (soon, n) h =
    reserve_run-Held request now (reserve_create_request st other at).0 cs n
      (reserve_create_request-Held request now (length cs) st other at soon h)
reserve_run-Held request now st (releases other ∷ cs) (apart, n) h =
    reserve_run-Held request now (release_create_request st other) cs n
      (release_create_request-Held request now (length cs) st other apart h)
