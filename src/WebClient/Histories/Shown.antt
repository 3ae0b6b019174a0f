-- ===== src/WebClient/Histories/Shown.antt =====
-- useCodeHarbor.ts, the history of the events of a session, as far as the map of the cursors has room.
use code_harbor.Common.{
  Bool, Bool-cases, List, Option, String, ap, arith, false, if◌then◌else◌, inl, inr, length, nat_eq,
  none, or_else, refl, some, string_eq, suc, ℕ, ◌&&◌, ◌+◌, ◌-◌, ◌==◌, ◌||◌, ◌∙◌, ◌≡◌, ◌≤◌,
}
use code_harbor.Common.JsMap.{get, get-set}
use code_harbor.Common.Json.{
  Json, Members, array, boolean, fields, lookup, member, no_members, null, number, other_number,
  text, text_field,
}
use code_harbor.WebClient.Fields.{
  as_number, in_field, is_null, is_text, numbered, payload_of, text_in, unwrap,
}
use code_harbor.WebClient.Histories.Cursors.{
  count_members, cursor, save_cursor-le, save_cursor-other, save_each-le,
}
use code_harbor.WebClient.Histories.Frames.{proxy_response-core, settle_gap-core}
use code_harbor.WebClient.Histories.Order.{
  IsInOrder, Moves, core-IsInOrder, jumps, moved-IsInOrder, rests, save_cursor-revision,
  silent-IsInOrder, take_numbered-IsInOrder,
}
use code_harbor.WebClient.Loads.{load_ends, max_seq, record_history, settle_gap, show_history}
use code_harbor.WebClient.Messages.{
  dispatch, history_gap, on_message, proxy_response, resume_again, resume_complete, save_all,
  save_each, save_returned, take_numbered,
}
use code_harbor.WebClient.State.{WebClient, cursor_of, reset_cursor, store_cursors}

-- How many cursors a message names.
abbrev names_in : Option Json → ℕ
names_in (some (fields ms)) = count_members ms
names_in none = 0
names_in (some null) = 0
names_in (some (boolean b)) = 0
names_in (some (number n)) = 0
names_in (some (other_number t)) = 0
names_in (some (text t)) = 0
names_in (some (array js)) = 0

abbrev pub names : Json → ℕ
names message = suc (names_in (in_field (payload_of message) "cursors"))

-- The gateway says that the beginning of the session's history is gone.
abbrev pub resets : String → Json → Bool
resets id message =
    is_text (text_field message "type") "history-gap"
    && or_else (text_in (payload_of message) "sessionId") "" == id

save_returned-revision :
    (c : WebClient) (k : String) (o : Option ℕ)
    → (save_returned c k o).live_revision ≡ c.live_revision
save_returned-revision c k none = refl
save_returned-revision c k (some value) = ground (arith, save_cursor-revision c k value)

save_each-revision :
    (c : WebClient) (all ms : Members) → (save_each c all ms).live_revision ≡ c.live_revision
save_each-revision c all no_members = refl
save_each-revision c all (member k j ms) =
    save_each-revision (save_returned c k (as_number (lookup all k))) all ms
    ∙ save_returned-revision c k (as_number (lookup all k))

save_all-revision :
    (c : WebClient) (o : Option Json) → (save_all c o).live_revision ≡ c.live_revision
save_all-revision c (some (fields ms)) = save_each-revision c ms ms
save_all-revision c none = refl
save_all-revision c (some null) = refl
save_all-revision c (some (boolean b)) = refl
save_all-revision c (some (number n)) = refl
save_all-revision c (some (other_number t)) = refl
save_all-revision c (some (text t)) = refl
save_all-revision c (some (array js)) = refl

save_all-le :
    (id : String) (c : WebClient) (o : Option Json)
    → length c.cursors + names_in o ≤ 10_000
    → cursor id c ≤ cursor id (save_all c o)
save_all-le id c (some (fields ms)) h = save_each-le id c ms ms h
save_all-le id c none h = omega arith
save_all-le id c (some null) h = omega arith
save_all-le id c (some (boolean b)) h = omega arith
save_all-le id c (some (number n)) h = omega arith
save_all-le id c (some (other_number t)) h = omega arith
save_all-le id c (some (text t)) h = omega arith
save_all-le id c (some (array js)) h = omega arith

resume_complete-le :
    (id : String) (c : WebClient) (message : Json)
    → length c.cursors + names message ≤ 10_000
    → cursor id c ≤ cursor id (resume_complete c (payload_of message))
unfolding resume_complete resume_again
resume_complete-le id c message h =
    let le = save_all-le id c (in_field (payload_of message) "cursors") (omega arith) in
    ground (arith, le)

history_gap-revision :
    (c : WebClient) (k : String) (o : Option ℕ)
    → (history_gap c k o).live_revision ≡ c.live_revision
unfolding history_gap reset_cursor store_cursors
history_gap-revision c k none = refl
history_gap-revision c k (some n) = ground arith

history_gap-other :
    (id : String) (c : WebClient) (k : String) (o : Option ℕ)
    → (k == id) ≡ false
    → cursor id (history_gap c k o) ≡ cursor id c
unfolding history_gap reset_cursor store_cursors
history_gap-other id c k none h = refl
history_gap-other id c k (some n) h = ground (arith, get-set c.cursors k id (n - 1))

settle_gap-cursor :
    (id : String) (c : WebClient) (k : String) (events : List Json)
    → cursor id (settle_gap c k (max_seq 0 events) (get c.gaps k)) ≡ cursor id c
settle_gap-cursor id c k events =
    ap (λ x. cursor_of x.0 id) (settle_gap-core c k (max_seq 0 events) (get c.gaps k))

-- A load moves the cursor of its own session, and forward.
pub load_ends-Moves :
    (id : String) (c : WebClient) (k : String) (revision : ℕ) (result : Option (List Json))
    → suc (length c.cursors) ≤ 10_000
    → Moves
        (cursor id c)
        (cursor id (load_ends c k revision result))
        (if k == id then jumps else rests)
unfolding load_ends show_history
load_ends-Moves id c k revision none h = elim (Bool-cases (k == id)) [
  | inl is ↦ rw is (ground arith)
  | inr isnt ↦ rw isnt (ground arith)
]
load_ends-Moves id c k revision (some events) h =
    let c' = show_history c k events in
    let settled = settle_gap-cursor id c' k events in
    elim (Bool-cases (k == id)) [
      | inl is ↦
          let le = save_cursor-le id (record_history c k events) k (max_seq 0 events) h in
          rw is (ground (arith, settled, le))
      | inr isnt ↦
          let same = save_cursor-other id (record_history c k events) k (max_seq 0 events) h isnt in
          rw isnt (ground (arith, settled, same))
    ]

module _ (show : ℕ → String) (parse_body : String → Option Json) (id : String) where
  dispatch-IsInOrder :
      (c : WebClient) (message : Json)
      → length c.cursors + names message ≤ 10_000
      → resets id message ≡ false
      → IsInOrder show parse_body id c (dispatch show parse_body c message) message
  unfolding dispatch
  dispatch-IsInOrder c message h kept =
      let type = text_field message "type" in
      let at = moved-IsInOrder show parse_body id c (dispatch show parse_body c message) in
      elim (Bool-cases (is_text type "gateway-proxy-response")) [
        | inl is ↦
            let c' = proxy_response show parse_body c message (text_field message "requestId") in
            at c' message (rw is refl) (
              core-IsInOrder show parse_body id c c' message
                (proxy_response-core show parse_body c message (text_field message "requestId")))
        | inr no₁ ↦ elim (Bool-cases (is_text type "resume-complete")) [
          | inl is ↦
              at (resume_complete c (payload_of message)) message (rw (no₁, is) refl)
                (rw is (resume_complete-le id c message h))
          | inr no₂ ↦ elim (Bool-cases (is_text type "history-gap")) [
            | inl is ↦
                let k = or_else (text_in (payload_of message) "sessionId") "" in
                let from = as_number (in_field (payload_of message) "availableFrom") in
                let other : (k == id) ≡ false = ground arith in
                at (history_gap c k from) message (rw (no₁, no₂, is) refl) (
                  silent-IsInOrder show parse_body id c (history_gap c k from) message
                    (history_gap-revision c k from) (history_gap-other id c k from other))
            | inr no₃ ↦ elim (Bool-cases (is_text type "pong" || is_text type "cloud-ready")) [
              | inl is ↦
                  at c message (rw (no₁, no₂, no₃, is) refl)
                    (silent-IsInOrder show parse_body id c c message refl refl)
              | inr no₄ ↦
                  let c' = take_numbered show parse_body c message (numbered message) in
                  at c' message (rw (no₁, no₂, no₃, no₄) refl) (
                    take_numbered-IsInOrder show parse_body id c message (numbered message)
                      (omega arith) no₂ refl)
            ]
          ]
        ]
      ]

  pub on_message-IsInOrder :
      (c : WebClient) (raw : Json)
      → length c.cursors + names (unwrap raw) ≤ 10_000
      → resets id (unwrap raw) ≡ false
      → IsInOrder show parse_body id c (on_message show parse_body c (some raw)) (unwrap raw)
  unfolding on_message
  on_message-IsInOrder c raw h kept = elim (Bool-cases (is_null (unwrap raw))) [
    | inl is ↦ rw is (silent-IsInOrder show parse_body id c c (unwrap raw) refl refl)
    | inr isnt ↦ rw isnt (dispatch-IsInOrder c (unwrap raw) h kept)
  ]
