-- ===== src/GatewayStore/Relations/Deletion.antt =====
-- What is left of a session after `deleteSession`.
use code_harbor.Common.{
  ==_refl, Bool, Bool-cases, Option, Option-cases, String, [], arith, false, inl, inr, nat_eq, none,
  refl, some, string_eq, subst, sym, true, truthy, ◌==◌, ◌∙◌, ◌∷◌, ◌≡◌,
}
use code_harbor.Common.JsMap.{JsMap, delete, delete_where, get, get-delete, get-set, has}
use code_harbor.Common.JsMap.Distinct.{has-delete}
use code_harbor.Common.JsMap.Every.{Every, Every-delete, Every-delete_where_self, Every-get}
use code_harbor.GatewayStore.Events.{queue_task}
use code_harbor.GatewayStore.Relations.{
  any_of, cut_relations, delete_session, drop_create_requests, drop_events, drop_relations,
  drop_reservations, drop_session, forget_child, is_key_of, without_child, write_relations,
}
use code_harbor.GatewayStore.State.{Store, persist_sessions, save_session, update_session}
use code_harbor.GatewayStore.Types.{CreateRequestRecord, GatewaySession}

-- Each session stands under its own id.
abbrev pub IsKeyedById : JsMap String GatewaySession → Type 0
IsKeyedById = Every (λ id s. s.id ≡ id)

-- The session is not in the map and is marked as deleted.
pub record Gone (id : String) (st : Store) : Type 0 where
  pub missing : get st.sessions id ≡ none
  pub marked : has st.deleted_sessions id ≡ true

drop_session-Gone : (st : Store) (id : String) → Gone id (drop_session st id)
unfolding drop_session persist_sessions has
drop_session-Gone st id =
    let out = get-delete st.sessions id id in
    let mark = get-set st.deleted_sessions id id tt in
    record { missing = ground (arith, out, ==_refl id); marked = ground (arith, mark, ==_refl id) }

drop_session-IsKeyed :
    (st : Store) (id : String) → IsKeyedById st.sessions → IsKeyedById (drop_session st id).sessions
unfolding drop_session persist_sessions
drop_session-IsKeyed st id k = elim (Bool-cases (has st.sessions id)) [
  | inl there ↦ rw there (Every-delete _ st.sessions id k)
  | inr missing ↦ rw missing (Every-delete _ st.sessions id k)
]

update_without_child-Gone :
    (st : Store) (id parent : String)
    → IsKeyedById st.sessions
    → Gone id st
    → Gone id (update_session st parent (without_child id)).0
unfolding update_session save_session
update_without_child-Gone st id parent k g = elim (Option-cases (get st.sessions parent)) [
  | inl none' ↦ rw (none', update_session) g
  | inr (s, found) ↦
      let own : s.id ≡ parent = Every-get _ st.sessions parent s k found in
      let other : (parent == id) ≡ false = ground (arith, string_eq.beq_iff parent id, g.missing) in
      rw (found, update_session)
        (record {
          missing = rw (get-set, own, other) g.missing;
          marked = rw (has-delete, own, other) g.marked;
        })
]

-- No relation has the session on either side.
pub record Unrelated (id : String) (m : JsMap String String) : Type 0 where
  child : get m id ≡ none
  parents : Every (λ child parent. (parent == id) ≡ false) m

get-delete_where :
    (m : JsMap String String) (id k : String) (p : String → String → Bool)
    → get m k ≡ none
    → get (delete_where p m) k ≡ none
unfolding get delete_where
get-delete_where [] id k p h = h
get-delete_where ((j, w) ∷ m) id k p h = ground (arith, get-delete_where m id k p)

cut-Unrelated :
    (m : JsMap String String) (id : String)
    → Unrelated id (delete_where (λ child parent. parent == id) (delete m id))
cut-Unrelated m id =
    let out : get (delete m id) id ≡ none = ground (arith, get-delete m id id, ==_refl id) in
    record {
      child = get-delete_where (delete m id) id id (λ child parent. parent == id) out;
      parents = Every-delete_where_self (λ child parent. parent == id) (delete m id);
    }

update-relations :
    (st : Store) (id : String) (u : GatewaySession → GatewaySession)
    → (update_session st id u).0.subagent_relations ≡ st.subagent_relations
unfolding update_session save_session persist_sessions
update-relations st id u = elim (Option-cases (get st.sessions id)) [
  | inl none' ↦ rw (none', update_session) refl
  | inr (s, found) ↦ rw (found, update_session) refl
]

write_relations-same :
    (st : Store)
    → ((write_relations st).subagent_relations ≡ st.subagent_relations)
      × ((write_relations st).sessions ≡ st.sessions)
      × ((write_relations st).deleted_sessions ≡ st.deleted_sessions)
unfolding write_relations
write_relations-same st = ground arith

forget_child-relations :
    (st : Store) (id : String) (p : Option String)
    → (forget_child st id p).subagent_relations ≡ st.subagent_relations
unfolding forget_child
forget_child-relations st id none = refl
forget_child-relations st id (some parent) =
    ground (arith, update-relations st parent (without_child id))

drop_relations-Unrelated :
    (st : Store) (id : String) → Unrelated id (drop_relations st id).subagent_relations
unfolding drop_relations
drop_relations-Unrelated st id =
    let parent = get st.subagent_relations id in
    let st' = cut_relations st id in
    subst (Unrelated id)
      (sym (forget_child-relations st' id parent)
        ∙ sym (write_relations-same (forget_child st' id parent)).0)
      (cut-Unrelated st.subagent_relations id)

forget_child-Gone :
    (st : Store) (id : String) (p : Option String)
    → IsKeyedById st.sessions
    → Gone id st
    → Gone id (forget_child st id p)
unfolding forget_child
forget_child-Gone st id none k g = g
forget_child-Gone st id (some parent) k g = elim (Bool-cases (truthy parent)) [
  | inl t ↦ rw t (update_without_child-Gone st id parent k g)
  | inr f ↦ rw f g
]

write_relations-Gone : (st : Store) (id : String) → Gone id st → Gone id (write_relations st)
write_relations-Gone st id g = record {
  missing = rw (write_relations-same st).1 g.missing;
  marked = rw (write_relations-same st).2 g.marked;
}

drop_relations-Gone :
    (st : Store) (id : String)
    → IsKeyedById st.sessions
    → Gone id st
    → Gone id (drop_relations st id)
unfolding drop_relations
drop_relations-Gone st id k g =
    let st' = cut_relations st id in
    write_relations-Gone (forget_child st' id (get st.subagent_relations id)) id (
      forget_child-Gone st' id (get st.subagent_relations id) k
        (record { missing = g.missing; marked = g.marked }))

-- No create request leads to the session.
abbrev pub NoneLeadsTo : String → JsMap String CreateRequestRecord → Type 0
NoneLeadsTo id = Every (λ request r. (r.session_id == id) ≡ false)

none_leads_of_not_any :
    (id : String) (m : JsMap String CreateRequestRecord) → any_of id m ≡ false → NoneLeadsTo id m
none_leads_of_not_any id [] h = tt
none_leads_of_not_any id ((k, r) ∷ m) h = (ground arith, none_leads_of_not_any id m (ground arith))

drop_create_requests-NoneLeadsTo :
    (st : Store) (id : String) → NoneLeadsTo id (drop_create_requests st id).create_requests
unfolding drop_create_requests
drop_create_requests-NoneLeadsTo st id =
    let left = Every-delete_where_self (λ request r. r.session_id == id) st.create_requests in
    elim (Bool-cases (any_of id st.create_requests)) [
      | inl some' ↦ elim (Bool-cases st.disk_ok) [
        | inl d ↦ rw (some', d) left
        | inr d ↦ rw (some', d) left
      ]
      | inr none' ↦ rw none' left
    ]

drop_create_requests-same :
    (st : Store) (id : String)
    → ((drop_create_requests st id).subagent_relations ≡ st.subagent_relations)
      × ((drop_create_requests st id).sessions ≡ st.sessions)
      × ((drop_create_requests st id).deleted_sessions ≡ st.deleted_sessions)
unfolding drop_create_requests
drop_create_requests-same st id = ground arith

drop_events-same :
    (st : Store) (id : String)
    → ((drop_events st id).subagent_relations ≡ st.subagent_relations)
      × ((drop_events st id).sessions ≡ st.sessions)
      × ((drop_events st id).deleted_sessions ≡ st.deleted_sessions)
      × ((drop_events st id).create_requests ≡ st.create_requests)
unfolding drop_events queue_task
drop_events-same st id = ground arith

drop_events-empty :
    (st : Store) (id : String)
    → (get (drop_events st id).latest_seq_by_session id ≡ none)
      × (get (drop_events st id).event_cache id ≡ none)
unfolding drop_events queue_task
drop_events-empty st id =
    ground (
      arith,
      get-delete st.latest_seq_by_session id id,
      get-delete st.event_cache id id,
      ==_refl id,
    )

-- What is gone of a session after its deletion.
pub record Forgotten (id : String) (st : Store) : Type 0 where
  pub gone : Gone id st
  unrelated : Unrelated id st.subagent_relations
  unrequested : NoneLeadsTo id st.create_requests
  unnumbered : get st.latest_seq_by_session id ≡ none
  uncached : get st.event_cache id ≡ none
  unreserved : Every (λ key created. is_key_of id key ≡ false) st.client_request_reservations

pub delete_session-Forgotten :
    (st : Store) (id : String) → IsKeyedById st.sessions → Forgotten id (delete_session st id).0
unfolding delete_session drop_reservations
delete_session-Forgotten st id k =
    let s₁ = drop_session st id in
    let s₂ = drop_relations s₁ id in
    let s₃ = drop_create_requests s₂ id in
    let g = drop_relations-Gone s₁ id (drop_session-IsKeyed st id k) (drop_session-Gone st id) in
    let same₃ = drop_create_requests-same s₂ id in
    let same₄ = drop_events-same s₃ id in
    record {
      gone = record {
        missing = rw (same₄.1, same₃.1) g.missing;
        marked = rw (same₄.2, same₃.2) g.marked;
      };
      unrelated = rw (same₄.0, same₃.0) (drop_relations-Unrelated s₁ id);
      unrequested = rw same₄.3 (drop_create_requests-NoneLeadsTo s₂ id);
      unnumbered = (drop_events-empty s₃ id).0;
      uncached = (drop_events-empty s₃ id).1;
      unreserved = Every-delete_where_self (λ key created. is_key_of id key) _;
    }
