-- ===== src/GatewayStore/Relations/Reimport.antt =====
-- What `upsertSessions` does to a session that was deleted: it does not go through `saveSession`,
-- which alone takes the mark of the deletion away.
use code_harbor.Common.{==_refl, [], arith, nat_eq, none, refl, some, string_eq, ◌∷◌, ◌≡◌}
use code_harbor.Common.JsMap.{get, get-set}
use code_harbor.GatewayStore.Events.{append_event, append_owned}
use code_harbor.GatewayStore.Relations.{delete_session}
use code_harbor.GatewayStore.Relations.Deletion.{IsKeyedById, delete_session-Forgotten}
use code_harbor.GatewayStore.State.{
  Store, get_session, merged, persist_sessions, upsert_each, upsert_sessions,
}
use code_harbor.GatewayStore.Types.{GatewayMessage, GatewaySession}

merged_of_missing :
    (st : Store) (s : GatewaySession) → get st.sessions s.id ≡ none → merged st s ≡ s
unfolding merged
merged_of_missing st s h = rw (h, merged) refl

-- A session that was deleted and is then brought back by `upsertSessions` is in the store again, as
-- it was brought, but it stays marked as deleted: its events are dropped from then on.
pub append-upsert_deleted :
    (st : Store) (s : GatewaySession) (message : GatewayMessage)
    → IsKeyedById st.sessions
    → message.session_id ≡ some s.id
    → let st' = (upsert_sessions (delete_session st s.id).0 (s ∷ [])).0 in
      (get_session st' s.id ≡ some s) × (append_event st' message ≡ (st', none))
unfolding upsert_sessions upsert_each persist_sessions get_session append_event append_owned
append-upsert_deleted st s message k owner =
    let old = delete_session-Forgotten st s.id k in
    let st₁ = (delete_session st s.id).0 in
    (
      rw (merged_of_missing st₁ s old.gone.missing, get-set, ==_refl s.id) refl,
      rw (owner, old.gone.marked) (ground (arith, old.gone.marked)),
    )
