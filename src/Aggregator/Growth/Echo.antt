-- ===== src/Aggregator/Growth/Echo.antt =====
-- aggregator.ts, the row of a prompt and the echo that brings the same request.
use code_harbor.Aggregator.Activities.{or_object}
use code_harbor.Aggregator.Events.{
  Moment, apply_each, apply_live_event_to_turns, apply_payload, take_user_input,
}
use code_harbor.Aggregator.Growth.Histories.{apply_each-Extends}
use code_harbor.Aggregator.Growth.Lists.{Extends, change_next}
use code_harbor.Aggregator.Inputs.{is_duplicate, is_same_input, merge_input}
use code_harbor.Aggregator.Rows.{change_or_add, find_index, nonempty, or_option}
use code_harbor.Aggregator.Types.{TurnMessage}
use code_harbor.Common.{
  ==_refl, Bool, Bool-cases, List, Option, String, [], ap, arith, false, inl, inr, length, nat_eq,
  none, or_else, some, string_eq, suc, true, truthy, ℕ, ◌||◌, ◌∙◌, ◌∷◌, ◌≡◌,
}
use code_harbor.Common.Json.{Json, as_array, field, text_field}
use code_harbor.WebClient.Fields.{is_text}

abbrev has_request : String → List TurnMessage → Bool
has_request id [] = false
has_request id (t ∷ ts) = is_text t.client_request_id id || has_request id ts

is_text_iff : (o : Option String) (id : String) → is_text o id ≡ true → o ≡ some id
is_text_iff none id h = cc
is_text_iff (some a) id h = ap some ((string_eq.beq_iff a id).0 h)

has_request-Extends :
    (id : String) (ts us : List TurnMessage)
    → Extends ts us
    → has_request id ts ≡ true
    → has_request id us ≡ true
has_request-Extends id [] us ext h = cc
has_request-Extends id (t ∷ ts) [] ext h = absurd ext
has_request-Extends id (t ∷ ts) (u ∷ us) (g, ext) h =
    elim (Bool-cases (is_text t.client_request_id id)) [
      | inl is ↦
          let e : u.client_request_id ≡ some id =
            g.request id (is_text_iff t.client_request_id id is) in
          rw (e, ==_refl id)
      | inr isnt ↦
          let rest : has_request id us ≡ true = has_request-Extends id ts us ext (ground arith) in
          ground arith
    ]

module _ (id : String) (p : TurnMessage → Bool)
    (same : (t : TurnMessage) → p t ≡ is_text t.client_request_id id) where
  length-change_found :
      (f : TurnMessage → TurnMessage) (new : TurnMessage) (ts : List TurnMessage)
      → has_request id ts ≡ true
      → length (change_or_add (find_index p ts) f new ts) ≡ length ts
  length-change_found f new [] h = cc
  length-change_found f new (t ∷ ts) h = elim (Bool-cases (is_text t.client_request_id id)) [
    | inl is ↦ let e : p t ≡ true = same t ∙ is in rw e
    | inr isnt ↦
        let e : p t ≡ false = same t ∙ isnt in
        let rest : has_request id ts ≡ true = ground arith in
        rw (e, change_next (find_index p ts) f new t ts)
          (ap suc (length-change_found f new ts rest))
  ]

  has_request-change_found :
      (f : TurnMessage → TurnMessage) (new : TurnMessage)
      → ((t : TurnMessage) → is_text (f t).client_request_id id ≡ true)
      → is_text new.client_request_id id ≡ true
      → (ts : List TurnMessage) → has_request id (change_or_add (find_index p ts) f new ts) ≡ true
  has_request-change_found f new old fresh [] = rw fresh
  has_request-change_found f new old fresh (t ∷ ts) = elim (Bool-cases (p t)) [
    | inl is ↦ rw (is, old t)
    | inr isnt ↦
        let rest = has_request-change_found f new old fresh ts in
        rw (isnt, change_next (find_index p ts) f new t ts) (ground arith)
  ]

nonempty_of_truthy : (id : String) → truthy id ≡ true → nonempty (some id) ≡ some id
nonempty_of_truthy id real = rw real

is_duplicate_of_truthy :
    (id prompt session : String)
    → truthy id ≡ true
    → (t : TurnMessage) → is_duplicate (some id) prompt session t ≡ is_text t.client_request_id id
is_duplicate_of_truthy id prompt session real t =
    ap (λ o. is_same_input o prompt session t) (nonempty_of_truthy id real)

merged-is_text :
    (id prompt : String) (attachments : Option (List Json))
    → truthy id ≡ true
    → (t : TurnMessage)
    → is_text (merge_input (some id) prompt attachments t).client_request_id id ≡ true
merged-is_text id prompt attachments real t =
    ap (λ o. is_text (or_option o t.client_request_id) id) (nonempty_of_truthy id real) ∙ ==_refl id

-- An event that brings the prompt of the request `id`.
abbrev Asks : Json → String → Type 0
Asks event id =
    (text_field event "type" ≡ some "session-user-input")
    × (text_field (or_object (field event "payload")) "clientRequestId" ≡ some id)

module _ (show : ℕ → String) (parse : String → Option Json) where
  abbrev apply_at : Moment → Option Json → List TurnMessage → Json → List TurnMessage
  apply_at m session = apply_live_event_to_turns show parse m.millis m.iso m.random session

  Asks-has_request :
      (m : Moment) (session : Option Json) (turns : List TurnMessage) (event : Json) (id : String)
      → truthy id ≡ true
      → Asks event id
      → has_request id (apply_at m session turns event) ≡ true
  unfolding apply_live_event_to_turns apply_payload take_user_input
  Asks-has_request m session turns event id real (typed, asked) =
      rw (typed, asked)
        (has_request-change_found id _ (is_duplicate_of_truthy id _ _ real) _ _
          (merged-is_text id (or_else (text_field (or_object (field event "payload")) "prompt") "")
            (as_array (field (or_object (field event "payload")) "attachments")) real)
          (==_refl id) turns)

  length-echo :
      (m : Moment) (session : Option Json) (turns : List TurnMessage) (event : Json) (id : String)
      → truthy id ≡ true
      → Asks event id
      → has_request id turns ≡ true
      → length (apply_at m session turns event) ≡ length turns
  unfolding apply_live_event_to_turns apply_payload take_user_input
  length-echo m session turns event id real (typed, asked) there =
      rw (typed, asked)
        (length-change_found id _ (is_duplicate_of_truthy id _ _ real) _ _ turns there)

  -- The prompt of a request makes one row: when it comes a second time, as the echo of the gateway or
  -- again in a history, and whatever events came in between, no row is added. The id of the request is
  -- not empty.
  pub prompt_shown_once :
      (first second : Moment) (session : Option Json) (turns : List TurnMessage) (event echo : Json)
      (id : String) (events : List (Moment × Json))
      → truthy id ≡ true
      → Asks event id
      → Asks echo id
      → length (
          apply_live_event_to_turns show parse second.millis second.iso second.random session
            (apply_each show parse session turns ((first, event) ∷ events))
            echo)
        ≡ length (apply_each show parse session turns ((first, event) ∷ events))
  unfolding apply_each
  prompt_shown_once first second session turns event echo id events real asks echoes =
      let shown = apply_at first session turns event in
      let later = apply_each show parse session shown events in
      length-echo second session later echo id real echoes (
        has_request-Extends id shown later (apply_each-Extends show parse session shown events)
          (Asks-has_request first session turns event id real asks))
