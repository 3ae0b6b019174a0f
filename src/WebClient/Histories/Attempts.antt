-- ===== src/WebClient/Histories/Attempts.antt =====
-- useCodeHarbor.ts, the bound on the resumes of one connection.
use code_harbor.Common.{
  Bool, Bool-cases, List, Option, String, [], arith, false, inl, inr, length, none, or_else, refl,
  some, true, ℕ, ◌+◌, ◌||◌, ◌∷◌, ◌≡◌, ◌≤◌,
}
use code_harbor.Common.Json.{Json, text_field}
use code_harbor.WebClient.Fields.{
  as_number, in_field, is_null, is_text, numbered, payload_of, text_in, unwrap,
}
use code_harbor.WebClient.Histories.{Step, ends_load, fires, opens, run, says, selects, step}
use code_harbor.WebClient.Histories.Frames.{fires-core, proxy_response-core}
use code_harbor.WebClient.Histories.Resumes.{
  Counts, core-resumes, history_gap-resumes, load_ends-resumes, resume_complete-Counts, same-Counts,
  take_numbered-resumes,
}
use code_harbor.WebClient.Loads.{load_ends}
use code_harbor.WebClient.Messages.{
  dispatch, history_gap, on_message, proxy_response, take_numbered,
}
use code_harbor.WebClient.State.{WebClient, gap_timer_fires}

abbrev is_opening : Step → Bool
is_opening opens = true
is_opening (says message) = false
is_opening (fires timer) = false
is_opening (ends_load id revision result) = false
is_opening (selects id) = false

abbrev IsOneConnection : List Step → Type 0
IsOneConnection [] = Unit
IsOneConnection (st ∷ sts) = (is_opening st ≡ false) × IsOneConnection sts

module _ (show : ℕ → String) (parse_body : String → Option Json) where
  dispatch-Counts : (c : WebClient) (message : Json) → Counts c (dispatch show parse_body c message)
  unfolding dispatch
  dispatch-Counts c message =
      let type = text_field message "type" in
      elim (Bool-cases (is_text type "gateway-proxy-response")) [
        | inl is ↦
            let c' = proxy_response show parse_body c message (text_field message "requestId") in
            rw is (
              same-Counts c c' (
                core-resumes c c'
                  (proxy_response-core show parse_body c message (text_field message "requestId"))))
        | inr no₁ ↦ rw no₁ (elim (Bool-cases (is_text type "resume-complete")) [
          | inl is ↦ rw is (resume_complete-Counts c (payload_of message))
          | inr no₂ ↦ rw no₂ (elim (Bool-cases (is_text type "history-gap")) [
            | inl is ↦
                let k = or_else (text_in (payload_of message) "sessionId") "" in
                let from = as_number (in_field (payload_of message) "availableFrom") in
                rw is (same-Counts c (history_gap c k from) (history_gap-resumes c k from))
            | inr no₃ ↦
                rw no₃ (elim (Bool-cases (is_text type "pong" || is_text type "cloud-ready")) [
                  | inl is ↦ rw is (refl, λ h. h)
                  | inr no₄ ↦ rw no₄ (
                      same-Counts c (take_numbered show parse_body c message (numbered message))
                        (take_numbered-resumes show parse_body c message (numbered message)))
                ])
          ])
        ])
      ]

  on_message-Counts : (c : WebClient) (o : Option Json) → Counts c (on_message show parse_body c o)
  unfolding on_message
  on_message-Counts c none = (refl, λ h. h)
  on_message-Counts c (some raw) = elim (Bool-cases (is_null (unwrap raw))) [
    | inl is ↦ rw is (refl, λ h. h)
    | inr isnt ↦ rw isnt (dispatch-Counts c (unwrap raw))
  ]

  step-Counts :
      (c : WebClient) (st : Step) → is_opening st ≡ false → Counts c (step show parse_body c st)
  unfolding step
  step-Counts c opens h = cc
  step-Counts c (says message) h = on_message-Counts c message
  step-Counts c (fires timer) h =
      same-Counts c (gap_timer_fires c timer)
        (core-resumes c (gap_timer_fires c timer) (fires-core c timer))
  step-Counts c (ends_load id revision result) h =
      same-Counts c (load_ends c id revision result) (load_ends-resumes c id revision result)
  step-Counts c (selects id) h = (refl, λ k. k)

  -- As long as no new connection opens, the client asks to resume only as often as attempts are left of
  -- the ten of the connection, whatever the gateway answers: each answer that is cut off and moves a
  -- cursor costs an attempt, and no other message makes the client ask.
  pub run-asks_at_most :
      (c : WebClient) (sts : List Step)
      → c.resume_attempts ≤ 10
      → IsOneConnection sts
      → length (run show parse_body c sts).sent_resumes + c.resume_attempts
        ≤ length c.sent_resumes + 10
  unfolding run
  run-asks_at_most c [] few one = omega arith
  run-asks_at_most c (st ∷ sts) few (keeps, one) =
      let (n, up) = step-Counts c st keeps in
      let rest = run-asks_at_most (step show parse_body c st) sts (up few) one in omega arith
