-- ===== src/Aggregator/Growth/Histories.antt =====
-- aggregator.ts, applyLiveEventToTurns for every event, and for rows of events.
use code_harbor.Aggregator.Activities.{or_object}
use code_harbor.Aggregator.Approvals.{
  await_approval, read_text, request_of, settle_in_all, settle_request,
}
use code_harbor.Aggregator.Events.{
  Moment, apply_each, apply_live_event_to_turns, apply_payload, apply_to_row, take_approval_expired,
  take_approval_requested, take_approval_resolved, json_payload, row_change, session_of_event,
  take_session_started, take_user_input,
}
use code_harbor.Aggregator.Growth.Handlers.{
  adopt-Grown, await_approval-Grown, finish_turn-Grown, merge_input-Grown, settle_request-Grown,
  take_subagent_finished-Grown, take_subagent_started-Grown, take_subagent_tool-Grown,
  set_turn_status-Grown,
}
use code_harbor.Aggregator.Growth.Lists.{
  Extends, Extends-refl, Extends-trans, Grown, append-Extends, change_found-Extends, map-Extends,
  update_at-Extends, update_last-Extends,
}
use code_harbor.Aggregator.Growth.Outputs.{session_output-Grown}
use code_harbor.Aggregator.Inputs.{
  finish_turn, is_duplicate, merge_input, stamp, set_turn_status, turn_status,
}
use code_harbor.Aggregator.Rows.{
  adopt, create_empty_turn, find_index, find_last_index, find_turn, get_or_create_turn,
  is_in_flight, is_placeholder, last_turn_id, nonempty, or_option, take_existing, take_pending,
  take_turn, update_at, with_turn,
}
use code_harbor.Aggregator.Types.{ApprovalRequest, TurnMessage}
use code_harbor.Common.{
  Bool-cases, List, Option, String, [], inl, inr, nat_eq, none, or_else, some, string_eq, ℕ, ◌==◌,
  ◌∷◌,
}
use code_harbor.Common.Json.{Json, as_array, field, text_field}
use code_harbor.WebClient.Fields.{is_text, or_text}

take_pending-Extends :
    (iso session id fallback : String) (turns : List TurnMessage) (o : Option ℕ)
    → Extends turns (take_pending iso session id fallback turns o).0
take_pending-Extends iso session id fallback turns (some i) =
    update_at-Extends (adopt id fallback) (adopt-Grown id fallback) i turns
take_pending-Extends iso session id fallback turns none =
    append-Extends turns (create_empty_turn iso id session fallback ∷ [])

take_existing-Extends :
    (iso session id fallback : String) (turns : List TurnMessage) (o : Option ℕ)
    → Extends turns (take_existing iso session id fallback turns o).0
take_existing-Extends iso session id fallback turns (some i) = Extends-refl turns
take_existing-Extends iso session id fallback turns none =
    take_pending-Extends iso session id fallback turns
      (find_last_index (is_in_flight session fallback) turns)

find_turn-Extends :
    (iso session id fallback : String) (turns : List TurnMessage)
    → Extends turns (find_turn iso session id fallback turns).0
find_turn-Extends iso session id fallback turns =
    take_existing-Extends iso session id fallback turns
      (find_index (λ turn. turn.turn_id == id) turns)

take_turn-Extends :
    (iso session id fallback : String) (turns : List TurnMessage)
    → Extends turns (take_turn iso session id fallback turns).0
take_turn-Extends iso session id fallback [] = tt
take_turn-Extends iso session id fallback (t ∷ []) = elim (Bool-cases (is_placeholder t)) [
  | inl is ↦ rw is (adopt-Grown id fallback t, tt)
  | inr isnt ↦ rw isnt (find_turn-Extends iso session id fallback (t ∷ []))
]
take_turn-Extends iso session id fallback (t ∷ u ∷ turns) =
    find_turn-Extends iso session id fallback (t ∷ u ∷ turns)

with_turn-Extends :
    (millis iso session : String) (target : Option String) (fallback : String)
    (f : TurnMessage → TurnMessage) (turns : List TurnMessage)
    → ((t : TurnMessage) → Grown t (f t))
    → Extends turns (with_turn millis iso session target fallback f turns)
unfolding with_turn get_or_create_turn
with_turn-Extends millis iso session target fallback f turns grows =
    let id = or_else (nonempty target) (last_turn_id millis turns) in
    let found = take_turn iso session id fallback turns in
    Extends-trans turns found.0 (update_at found.1 f found.0)
      (take_turn-Extends iso session id fallback turns) (update_at-Extends f grows found.1 found.0)

settle_in_all-Extends :
    (o : Option String) (f : ApprovalRequest → ApprovalRequest) (turns : List TurnMessage)
    → Extends turns (settle_in_all o f turns)
settle_in_all-Extends none f turns = Extends-refl turns
settle_in_all-Extends (some id) f turns =
    map-Extends (settle_request id f) (settle_request-Grown id f) turns

-- The change of a row, where there is one, keeps what the row has.
abbrev GrowsIf : Option (TurnMessage → TurnMessage) → Type 0
GrowsIf none = Unit
GrowsIf (some f) = (t : TurnMessage) → Grown t (f t)

module _ (show : ℕ → String) (parse : String → Option Json) (millis iso random : String) where
  take_session_started-Extends :
      (event payload : Json) (session : String) (turns : List TurnMessage)
      → Extends turns
          (take_session_started show parse millis iso random event payload session turns)
  unfolding take_session_started
  take_session_started-Extends event payload session [] = tt
  take_session_started-Extends event payload session (t ∷ turns) = Extends-refl (t ∷ turns)

  apply_to_row-Extends :
      (session : String) (payload : Json) (o : Option (TurnMessage → TurnMessage))
      (turns : List TurnMessage)
      → GrowsIf o
      → Extends turns (apply_to_row show parse millis iso random session payload o turns)
  unfolding apply_to_row
  apply_to_row-Extends session payload none turns grows = Extends-refl turns
  apply_to_row-Extends session payload (some f) turns grows =
      with_turn-Extends millis iso session (text_field payload "turnId") "" f turns grows

  row_change-GrowsIf :
      (type : Option String) (payload : Json)
      → GrowsIf (row_change show parse millis iso random type payload)
  row_change-GrowsIf type payload = elim (Bool-cases (is_text type "subagent-started")) [
    | inl is ↦ rw is (take_subagent_started-Grown payload)
    | inr no₁ ↦ rw no₁ (elim (Bool-cases (is_text type "subagent-tool")) [
      | inl is ↦ rw is (take_subagent_tool-Grown payload)
      | inr no₂ ↦ rw no₂ (elim (Bool-cases (is_text type "subagent-finished")) [
        | inl is ↦ rw is (take_subagent_finished-Grown payload)
        | inr no₃ ↦ rw no₃ (elim (Bool-cases (is_text type "session-output")) [
          | inl is ↦ rw is (
              session_output-Grown show millis payload
                (json_payload show parse millis iso random payload))
          | inr no₄ ↦ rw no₄ tt
        ])
      ])
    ])
  ]

  take_approval_requested-Extends :
      (event payload : Json) (session : String) (turns : List TurnMessage)
      → Extends turns
          (take_approval_requested show parse millis iso random event payload session turns)
  unfolding take_approval_requested
  take_approval_requested-Extends event payload session turns =
      let id =
        or_else
          (or_option (nonempty (text_field event "requestId"))
            (read_text parse payload "requestId"))
          millis in
      let request = request_of parse id session event payload (stamp iso event) in
      with_turn-Extends millis iso session (read_text parse payload "turnId") ""
        (await_approval request) turns (await_approval-Grown request)

  take_approval_resolved-Extends :
      (event payload : Json) (turns : List TurnMessage)
      → Extends turns (take_approval_resolved show parse millis iso random event payload turns)
  unfolding take_approval_resolved
  take_approval_resolved-Extends event payload turns = settle_in_all-Extends _ _ turns

  take_approval_expired-Extends :
      (event payload : Json) (turns : List TurnMessage)
      → Extends turns (take_approval_expired show parse millis iso random event payload turns)
  unfolding take_approval_expired
  take_approval_expired-Extends event payload turns = settle_in_all-Extends _ _ turns

  take_user_input-Extends :
      (event payload : Json) (session : String) (turns : List TurnMessage)
      → Extends turns (take_user_input show parse millis iso random event payload session turns)
  unfolding take_user_input
  take_user_input-Extends event payload session turns =
      let request = text_field payload "clientRequestId" in
      let prompt = or_else (text_field payload "prompt") "" in
      let attachments = as_array (field payload "attachments") in
      change_found-Extends (is_duplicate request prompt session)
        (merge_input request prompt attachments) _
        (merge_input-Grown request prompt session attachments) turns

  apply_payload-Extends :
      (session : Option Json) (event payload : Json) (turns : List TurnMessage)
      → Extends turns (apply_payload show parse millis iso random session event payload turns)
  unfolding apply_payload
  apply_payload-Extends session event payload turns =
      let type = text_field event "type" in
      let id = session_of_event show parse millis iso random event payload session in
      let at = stamp iso event in
      elim (Bool-cases (is_text type "session-started")) [
        | inl is ↦ rw is (take_session_started-Extends event payload id turns)
        | inr no₁ ↦ rw no₁ (elim (Bool-cases (is_text type "session-user-input")) [
          | inl is ↦ rw is (take_user_input-Extends event payload id turns)
          | inr no₂ ↦ rw no₂ (elim (Bool-cases (is_text type "session-status")) [
            | inl is ↦
                let status = or_text (text_field payload "status") (turn_status payload) in
                rw is (
                  update_last-Extends (set_turn_status at status) (set_turn_status-Grown at status)
                    turns)
            | inr no₃ ↦ rw no₃ (elim (Bool-cases (is_text type "session-finished")) [
              | inl is ↦ rw is (
                  update_last-Extends (finish_turn at payload) (finish_turn-Grown at payload) turns)
              | inr no₄ ↦ rw no₄ (elim (Bool-cases (is_text type "approval-requested")) [
                | inl is ↦ rw is (take_approval_requested-Extends event payload id turns)
                | inr no₅ ↦ rw no₅ (elim (Bool-cases (is_text type "approval-resolved")) [
                  | inl is ↦ rw is (take_approval_resolved-Extends event payload turns)
                  | inr no₆ ↦ rw no₆ (elim (Bool-cases (is_text type "approval-expired")) [
                    | inl is ↦ rw is (take_approval_expired-Extends event payload turns)
                    | inr no₇ ↦ rw no₇ (
                        apply_to_row-Extends id payload
                          (row_change show parse millis iso random type payload) turns
                          (row_change-GrowsIf type payload))
                  ])
                ])
              ])
            ])
          ])
        ])
      ]

module _ (show : ℕ → String) (parse : String → Option Json) where
  -- Whatever events arrive, each row stays at its place, of its session and with its prompt once that is
  -- not empty; its answer and its list of diffs are what they were with more behind; the number of its
  -- tools and the number of its approvals do not fall; and it keeps the id of the request that it was
  -- made for. New rows come behind. What a tool or an approval says, and the reasoning, may be replaced.
  pub apply_each-Extends :
      (session : Option Json) (turns : List TurnMessage) (events : List (Moment × Json))
      → Extends turns (apply_each show parse session turns events)
  unfolding apply_each apply_live_event_to_turns
  apply_each-Extends session turns [] = Extends-refl turns
  apply_each-Extends session turns ((m, event) ∷ events) =
      let next = apply_live_event_to_turns show parse m.millis m.iso m.random session turns event in
      Extends-trans turns next (apply_each show parse session next events)
        (apply_payload-Extends show parse m.millis m.iso m.random session event
          (or_object (field event "payload")) turns)
        (apply_each-Extends session next events)
