-- ===== src/Server/Broadcast/Sessions.antt =====
-- A message that carries a session writes that session into the store.
use code_harbor.Common.{
  ==_refl, List, Option, Option-cases, String, ap, arith, false, inl, inr, nat_eq, none, refl, some,
  string_eq, ◌∙◌, ◌≡◌,
}
use code_harbor.Common.JsMap.{get, get-set}
use code_harbor.GatewayStore.Events.{append_event}
use code_harbor.GatewayStore.State.{Store, merged, upsert_session}
use code_harbor.GatewayStore.Types.{
  GatewayMessage, GatewaySession, GatewaySessionStatus, merge_session, value,
}
use code_harbor.Server.Broadcast.{
  broadcast_gateway, is_stale_status, persist_message, take_message, take_session, take_status,
}
use code_harbor.Server.State.{Server, upsert}
use code_harbor.Server.Types.{Message, numbered, stored}

take_status-store :
    (s : Server) (id : String) (status : GatewaySessionStatus)
    → (take_status s id status).store ≡ s.store
unfolding take_status
take_status-store s id status = ground arith

upsert-get :
    (s : Server) (session : GatewaySession)
    → get (upsert s session).store.sessions session.id ≡ some (merged s.store session)
unfolding upsert upsert_session get merge_session
upsert-get s session = elim (Option-cases (get s.store.sessions session.id)) [
  | inl nothing ↦
      rw (nothing, merged)
        (rw (get-set s.store.sessions session.id session.id session, ==_refl session.id) refl)
  | inr (existing, there) ↦
      rw (there, merged)
        (rw
          (
            get-set s.store.sessions session.id session.id (merge_session existing session),
            ==_refl session.id,
          )
          refl)
]

take_session-get :
    (s : Server) (m : Message) (session : GatewaySession)
    → is_stale_status s session.id session.status ≡ false
    → get (take_session s m session).store.sessions session.id ≡ some (merged s.store session)
unfolding take_session
take_session-get s m session fresh = rw fresh (
    upsert-get (take_status s session.id session.status) session
    ∙ ap (λ st. some (merged st session)) (take_status-store s session.id session.status))

numbered-session :
    (m : Message) (o : Option GatewayMessage) → (numbered m o).payload.session ≡ m.payload.session
numbered-session m none = refl
numbered-session m (some persisted) = refl

take_message-get :
    (s : Server) (m : Message) (o : Option GatewaySession) (session : GatewaySession)
    → o ≡ some session
    → is_stale_status s session.id session.status ≡ false
    → get (take_message s m o).store.sessions session.id ≡ some (merged s.store session)
unfolding take_message
take_message-get s m o session e fresh = rw e (take_session-get s m session fresh)

-- What is in the store behind a message with a session, unless it is a status of a cancelled run.
pub broadcast-get :
    (s : Server) (m : Message) (session : GatewaySession)
    → m.payload.session ≡ some session
    → is_stale_status s session.id session.status ≡ false
    → get (broadcast_gateway s m).store.sessions session.id
      ≡ some (merged (persist_message s m).0.store session)
unfolding broadcast_gateway take_message persist_message is_stale_status
broadcast-get s m session carried fresh =
    let (s', out) = persist_message s m in
    take_message-get s' out out.payload.session session
      (numbered-session m (append_event s.store (stored m)).1 ∙ carried) fresh

pub merged-status :
    (st : Store) (session : GatewaySession) → (merged st session).status ≡ session.status
unfolding merged merge_session
merged-status st session = elim (Option-cases (get st.sessions session.id)) [
  | inl nothing ↦ rw (nothing, merged) refl
  | inr (existing, there) ↦ rw (there, merged) refl
]

pub merged-recent :
    (st : Store) (session : GatewaySession) (ids : List String)
    → session.recent_client_request_ids ≡ value ids
    → (merged st session).recent_client_request_ids ≡ value ids
unfolding merged merge_session
merged-recent st session ids h = elim (Option-cases (get st.sessions session.id)) [
  | inl nothing ↦ rw (nothing, merged) h
  | inr (existing, there) ↦ rw (there, merged) (rw h refl)
]

pub merged-last :
    (st : Store) (session : GatewaySession) (last : String)
    → session.last_client_request_id ≡ value last
    → (merged st session).last_client_request_id ≡ value last
unfolding merged merge_session
merged-last st session last h = elim (Option-cases (get st.sessions session.id)) [
  | inl nothing ↦ rw (nothing, merged) h
  | inr (existing, there) ↦ rw (there, merged) (rw h refl)
]
