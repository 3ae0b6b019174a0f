-- ===== src/Server/Turns/Refusals.antt =====
-- A turn that is not accepted leaves no trace.
use code_harbor.Common.{
  Bool, Bool-cases, Option, String, arith, false, inl, inr, nat_eq, none, refl, some, string_eq,
  true, truthy, ℕ, ◌∙◌, ◌≡◌, ◌≢◌, ◌⊎◌,
}
use code_harbor.Common.JsMap.{get, get-delete, get-set, set}
use code_harbor.Common.JsMap.Distinct.{get-delete_where-none, get-shrink-none}
use code_harbor.GatewayStore.Requests.{
  is_stale, prune_reservations, release_client_request, request_reservation_max, reservation_key,
  reserve_client_request,
}
use code_harbor.GatewayStore.State.{Store}
use code_harbor.GatewayStore.Types.{GatewaySession}
use code_harbor.RelayProxy.{plan}
use code_harbor.Server.Histories.Holding.{reserve_request-gate}
use code_harbor.Server.Replies.{Reply, turn_accepted}
use code_harbor.Server.State.{Server}
use code_harbor.Server.Turns.{
  Plan, TurnBody, acquire_turn, admit_turn, admitted, after_checks, after_reservation, check_turn,
  client_request, has_request, persisted_request, post_turn, release_request, reserve_request,
}
use code_harbor.Threads.Index.{ThreadSummary}
use code_harbor.TurnGate.{TurnAdmission, TurnGate, accepted, acquire, busy, duplicate}

-- What a refused turn may differ in: the reservations of client requests that have run out.
pub record Refused (s t : Server) : Type 0 where
  pub gate : t.gate ≡ s.gate
  pub runs : t.runs ≡ s.runs
  pub cancelled_sessions : t.cancelled_sessions ≡ s.cancelled_sessions
  pub process_live_session_ids : t.process_live_session_ids ≡ s.process_live_session_ids
  pub sent : t.sent ≡ s.sent
  pub interrupts : t.interrupts ≡ s.interrupts
  pub sessions : t.store.sessions ≡ s.store.sessions
  pub unreserved :
      (key : String)
      → get s.store.client_request_reservations key ≡ none
      → get t.store.client_request_reservations key ≡ none

refl-Refused : (s : Server) → Refused s s
refl-Refused s = record {
  gate = refl;
  runs = refl;
  cancelled_sessions = refl;
  process_live_session_ids = refl;
  sent = refl;
  interrupts = refl;
  sessions = refl;
  unreserved = λ key h. h;
}

abbrev Empty : Store → String → Type 0
Empty st key = get st.client_request_reservations key ≡ none

-- What a reservation changes: nothing but reservations that have run out, and its own key.
reserve-sessions :
    (st : Store) (id request : String) (now : ℕ)
    → (reserve_client_request st id request now).0.sessions ≡ st.sessions
unfolding reserve_client_request
reserve-sessions st id request now = ground arith

release-sessions :
    (st : Store) (id request : String)
    → (release_client_request st id request).sessions ≡ st.sessions
unfolding release_client_request
release-sessions st id request = ground arith

pruned-none :
    (st : Store) (now : ℕ) (key : String)
    → Empty st key
    → get (prune_reservations now st.client_request_reservations) key ≡ none
unfolding prune_reservations
pruned-none st now key h =
    get-shrink-none request_reservation_max _ key (
      get-delete_where-none (λ k created. is_stale now created) st.client_request_reservations key
        h)

reserve-unreserved :
    (st : Store) (id request : String) (now : ℕ) (key : String)
    → (reserve_client_request st id request now).1 ≡ false
    → Empty st key
    → Empty (reserve_client_request st id request now).0 key
unfolding reserve_client_request
reserve-unreserved st id request now key no_place h = ground (arith, pruned-none st now key h)

release-unreserved :
    (st : Store) (id request : String) (now : ℕ) (key : String)
    → Empty st key
    → Empty (release_client_request (reserve_client_request st id request now).0 id request) key
unfolding reserve_client_request release_client_request
release-unreserved st id request now key h = ground (
  arith,
  pruned-none st now key h,
  get-set (prune_reservations now st.client_request_reservations) (reservation_key id request) key
      now,
  get-delete
      (set (prune_reservations now st.client_request_reservations) (reservation_key id request) now)
      (reservation_key id request) key,
  get-delete (prune_reservations now st.client_request_reservations) (reservation_key id request)
      key,
  get-delete st.client_request_reservations (reservation_key id request) key,
  string_eq.beq_iff (reservation_key id request) key,
)

acquire-refused :
    (gate : TurnGate) (id : String) (client persisted : Option String)
    → (acquire gate id client persisted).1 ≢ accepted
    → (acquire gate id client persisted).0 ≡ gate
unfolding acquire
acquire-refused gate id client persisted h = ground arith

store-Refused :
    (s : Server) (st : Store) (gate : TurnGate)
    → gate ≡ s.gate
    → st.sessions ≡ s.store.sessions
    → ((key : String) → Empty s.store key → Empty st key)
    → Refused s (record s { store = st; gate = gate })
store-Refused s st gate e same kept = record {
  gate = e;
  runs = refl;
  cancelled_sessions = refl;
  process_live_session_ids = refl;
  sent = refl;
  interrupts = refl;
  sessions = same;
  unreserved = kept;
}

-- The reservation is refused, or it is given back.
reserve_request-Refused :
    (s : Server) (id : String) (o : Option String) (now : ℕ)
    → (reserve_request s id o now).1 ≡ false
    → Refused s (reserve_request s id o now).0
unfolding reserve_request
reserve_request-Refused s id none now h = cc
reserve_request-Refused s id (some request) now h = elim (Bool-cases (truthy request)) [
  | inl there ↦
      let kept_out = rw there at h in
      rw there (
        store-Refused s (reserve_client_request s.store id request now).0 s.gate refl
          (reserve-sessions s.store id request now)
          (λ key none_yet. reserve-unreserved s.store id request now key kept_out none_yet))
  | inr empty ↦ (let bad = rw empty at h in cc)
]

given_back-Refused :
    (s : Server) (id : String) (o : Option String) (now : ℕ) (gate : TurnGate)
    → gate ≡ s.gate
    → Refused s (release_request (record (reserve_request s id o now).0 { gate = gate }) id o)
unfolding reserve_request release_request
given_back-Refused s id none now gate e =
    store-Refused s s.store gate e refl (λ key none_yet. none_yet)
given_back-Refused s id (some request) now gate e = elim (Bool-cases (truthy request)) [
  | inl there ↦ rw there (
      store-Refused s
        (release_client_request (reserve_client_request s.store id request now).0 id request) gate e
        (release-sessions _ id request ∙ reserve-sessions s.store id request now)
        (λ key none_yet. release-unreserved s.store id request now key none_yet))
  | inr empty ↦ rw empty (store-Refused s s.store gate e refl (λ key none_yet. none_yet))
]

admitted-Refused :
    (s : Server) (id : String) (body : TurnBody) (plan : Plan) (now : ℕ) (gate : TurnGate)
    (a : TurnAdmission)
    → (a ≢ accepted → gate ≡ s.gate)
    → (admitted
        (record (reserve_request s id (client_request body) now).0 { gate = gate })
        id
        body
        plan
        now
        a).1
      ≢ turn_accepted
    → Refused s
        (admitted
          (record (reserve_request s id (client_request body) now).0 { gate = gate })
          id
          body
          plan
          now
          a).0
unfolding admitted
admitted-Refused s id body plan now gate accepted e h = absurd (h refl)
admitted-Refused s id body plan now gate busy e h =
    given_back-Refused s id (client_request body) now gate (e (λ p. cc))
admitted-Refused s id body plan now gate duplicate e h =
    given_back-Refused s id (client_request body) now gate (e (λ p. cc))

after_reservation-Refused :
    (s : Server) (id : String) (body : TurnBody) (plan : Plan) (now : ℕ) (ok : Bool)
    → (reserve_request s id (client_request body) now).1 ≡ ok
    → let s' = (reserve_request s id (client_request body) now).0 in
      (after_reservation s' id body plan now ok).1 ≢ turn_accepted
      → Refused s (after_reservation s' id body plan now ok).0
unfolding after_reservation acquire_turn
after_reservation-Refused s id body plan now false e h =
    reserve_request-Refused s id (client_request body) now e
after_reservation-Refused s id body plan now true e h =
    let s' = (reserve_request s id (client_request body) now).0 in
    let client = client_request body in
    let last = persisted_request plan.persisted in
    admitted-Refused s id body plan now (acquire s'.gate id client last).0
      (acquire s'.gate id client last).1
      (λ n. acquire-refused s'.gate id client last n ∙ reserve_request-gate id s id client now) h

admit_turn-Refused :
    (s : Server) (id : String) (body : TurnBody) (plan : Plan) (now : ℕ)
    → (admit_turn s id body plan now).1 ≢ turn_accepted
    → Refused s (admit_turn s id body plan now).0
unfolding admit_turn
admit_turn-Refused s id body plan now h =
    elim (Bool-cases (has_request s id (client_request body))) [
      | inl old ↦ rw old (refl-Refused s)
      | inr new ↦ rw new (
          after_reservation-Refused s id body plan now
            (reserve_request s id (client_request body) now).1 refl (rw new at h))
    ]

after_checks-Refused :
    (s : Server) (id : String) (body : TurnBody) (now : ℕ) (c : Reply ⊎ Plan)
    → (after_checks s id body now c).1 ≢ turn_accepted
    → Refused s (after_checks s id body now c).0
unfolding after_checks
after_checks-Refused s id body now (inl reply) h = refl-Refused s
after_checks-Refused s id body now (inr plan) h = admit_turn-Refused s id body plan now h

-- A turn that is answered with anything but its acceptance leaves no trace: the gate, the generations,
-- the sets, the sessions and what was sent are as before, and no client request is reserved that was not
-- reserved before, in particular not the one of the turn, so it can be sent again.
pub post_turn-Refused :
    (s : Server) (id : String) (body : TurnBody) (persisted : Option GatewaySession)
    (thread : Option ThreadSummary) (resolved : Option String) (now : ℕ)
    → (post_turn s id body persisted thread resolved now).1 ≢ turn_accepted
    → Refused s (post_turn s id body persisted thread resolved now).0
unfolding post_turn
post_turn-Refused s id body persisted thread resolved now h =
    after_checks-Refused s id body now (check_turn s.command body persisted thread resolved now) h
