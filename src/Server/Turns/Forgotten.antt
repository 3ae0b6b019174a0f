-- ===== src/Server/Turns/Forgotten.antt =====
-- What an accepted turn leaves of the request ids of its session.
use code_harbor.Common.{
  ==_refl, Bool-cases, List, Option, String, arith, false, includes, inl, inr, nat_eq, none, refl,
  some, string_eq, subst, truthy, ℕ, ◌==◌, ◌∙◌, ◌≡◌,
}
use code_harbor.Common.JsMap.{get, has}
use code_harbor.Common.JsMap.Distinct.{has-delete}
use code_harbor.GatewayStore.Requests.{has_client_request}
use code_harbor.GatewayStore.State.{Store, merged}
use code_harbor.GatewayStore.Types.{GatewaySession, PolicyMode, value}
use code_harbor.RelayProxy.{plan}
use code_harbor.Server.Broadcast.{broadcast_gateway, is_stale_status, persist_message}
use code_harbor.Server.Broadcast.Effects.{broadcast-SameRuns}
use code_harbor.Server.Broadcast.Sessions.{broadcast-get, merged-last, merged-recent}
use code_harbor.Server.State.{Server, mark_live, upsert}
use code_harbor.Server.Turns.{
  Plan, TurnBody, client_request, input_message, persisted_session, record_turn, remember_request,
  running_message, start_run,
}
use code_harbor.Server.Types.{Message}

remember_request-frame :
    (s : Server) (id : String) (o : Option String)
    → (remember_request s id o).cancelled_sessions ≡ s.cancelled_sessions
unfolding remember_request
remember_request-frame s id none = refl
remember_request-frame s id (some request) = ground arith

record_turn-cancelled :
    (s : Server) (id : String) (body : TurnBody) (plan : Plan) (now : ℕ)
    → has (record_turn s id body plan now).0.cancelled_sessions id ≡ false
unfolding record_turn mark_live upsert
record_turn-cancelled s id body plan now =
    rw (remember_request-frame _ id (client_request body))
      (has-delete s.cancelled_sessions id id ∙ rw (==_refl id) refl)

still_not_cancelled :
    (s : Server) (m : Message) (id own : String)
    → own ≡ id
    → has s.cancelled_sessions id ≡ false
    → has (broadcast_gateway s m).cancelled_sessions own ≡ false
still_not_cancelled s m id own e h = rw ((broadcast-SameRuns s m).1, e) h

forgets :
    (st : Store) (id request last : String) (ids : List String) (session : GatewaySession)
    → get st.sessions id ≡ some session
    → session.recent_client_request_ids ≡ value ids
    → session.last_client_request_id ≡ value last
    → includes ids request ≡ false
    → (last == request) ≡ false
    → has_client_request st id request ≡ false
unfolding has_client_request
forgets st id request last ids session there recent newest new other =
    rw (there, has_client_request, recent, newest, new, other)
      (elim (Bool-cases (truthy request)) [ inl e ↦ rw e refl | inr e ↦ rw e refl ])

-- The status message of an accepted turn carries the session as it was read at the start of the handler,
-- and writes it back over what `rememberClientRequest` has noted. So for a persisted session that had
-- request ids already, none of which is the new one, the store does not recognise the request of the turn
-- that has just been accepted.
pub start_run-forgets :
    (s : Server) (id : String) (body : TurnBody) (p : GatewaySession) (policy : PolicyMode)
    (now : ℕ) (request last : String) (ids : List String)
    → p.id ≡ id
    → p.recent_client_request_ids ≡ value ids
    → p.last_client_request_id ≡ value last
    → includes ids request ≡ false
    → (last == request) ≡ false
    → let plan : Plan = record {
      persisted = some p;
      session = persisted_session p policy now;
      policy = policy;
    } in
      has_client_request (start_run s id body plan now).0.store id request ≡ false
unfolding start_run is_stale_status
start_run-forgets s id body p policy now request last ids own recent newest new other =
    let plan : Plan = record {
      persisted = some p;
      session = persisted_session p policy now;
      policy = policy;
    } in
    let t = broadcast_gateway (record_turn s id body plan now).0 (input_message id body now) in
    let m = running_message id plan.session now in
    let st = (persist_message t m).0.store in
    let fresh =
      still_not_cancelled (record_turn s id body plan now).0 (input_message id body now) id p.id own
        (record_turn-cancelled s id body plan now) in
    forgets (broadcast_gateway t m).store id request last ids (merged st plan.session)
      (subst (λ k. get (broadcast_gateway t m).store.sessions k ≡ some (merged st plan.session)) own
        (broadcast-get t m plan.session refl (rw fresh refl)))
      (merged-recent st plan.session ids recent) (merged-last st plan.session last newest) new other
