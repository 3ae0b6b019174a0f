-- ===== src/WebClient/Histories/Resumes.antt =====
-- useCodeHarbor.ts, how often the client asks to resume.
use code_harbor.Common.{
  Bool-cases, List, Option, String, [], ap, arith, inl, inr, length, length-append, ltb, nat_eq,
  none, refl, some, string_eq, suc, ℕ, ◌&&◌, ◌+◌, ◌∙◌, ◌∷◌, ◌≡◌, ◌≤◌,
}
use code_harbor.Common.JsMap.{JsMap, get}
use code_harbor.Common.Json.{
  Json, Members, array, boolean, fields, lookup, member, no_members, null, number, other_number,
  text,
}
use code_harbor.WebClient.Fields.{as_number, in_field, is_truthy, numbered}
use code_harbor.WebClient.Histories.Frames.{core, schedule-core, settle_gap-core}
use code_harbor.WebClient.Loads.{load_ends, max_seq, record_history, settle_gap, show_history}
use code_harbor.WebClient.Messages.{
  advances, event_key, history_gap, record_event, resume_again, resume_complete, save_all,
  save_each, save_numbered, save_returned, show_event, take_next, take_numbered,
}
use code_harbor.WebClient.State.{
  WebClient, reset_cursor, save_cursor, schedule_gap_recovery, store_cursors,
}

abbrev pub resumes : WebClient → ℕ × List (JsMap String ℕ)
resumes c = (c.resume_attempts, c.sent_resumes)

pub core-resumes : (c c' : WebClient) → core c' ≡ core c → resumes c' ≡ resumes c
core-resumes c c' e = ap (λ x. (x.2, x.3)) e

save_cursor-resumes :
    (c : WebClient) (k : String) (seq : ℕ) → resumes (save_cursor c k seq) ≡ resumes c
unfolding save_cursor store_cursors
save_cursor-resumes c k seq = ground arith

save_numbered-resumes :
    (c : WebClient) (o : Option (String × ℕ)) → resumes (save_numbered c o) ≡ resumes c
save_numbered-resumes c none = refl
save_numbered-resumes c (some (k, seq)) = save_cursor-resumes c k seq

save_returned-resumes :
    (c : WebClient) (k : String) (o : Option ℕ) → resumes (save_returned c k o) ≡ resumes c
save_returned-resumes c k none = refl
save_returned-resumes c k (some value) = ground (arith, save_cursor-resumes c k value)

save_each-resumes : (c : WebClient) (all ms : Members) → resumes (save_each c all ms) ≡ resumes c
save_each-resumes c all no_members = refl
save_each-resumes c all (member k j ms) =
    save_each-resumes (save_returned c k (as_number (lookup all k))) all ms
    ∙ save_returned-resumes c k (as_number (lookup all k))

save_all-resumes : (c : WebClient) (o : Option Json) → resumes (save_all c o) ≡ resumes c
save_all-resumes c (some (fields ms)) = save_each-resumes c ms ms
save_all-resumes c none = refl
save_all-resumes c (some null) = refl
save_all-resumes c (some (boolean b)) = refl
save_all-resumes c (some (number n)) = refl
save_all-resumes c (some (other_number t)) = refl
save_all-resumes c (some (text t)) = refl
save_all-resumes c (some (array js)) = refl

pub history_gap-resumes :
    (c : WebClient) (k : String) (o : Option ℕ) → resumes (history_gap c k o) ≡ resumes c
unfolding history_gap reset_cursor store_cursors
history_gap-resumes c k none = refl
history_gap-resumes c k (some n) = ground arith

pub load_ends-resumes :
    (c : WebClient) (k : String) (revision : ℕ) (result : Option (List Json))
    → resumes (load_ends c k revision result) ≡ resumes c
unfolding load_ends show_history
load_ends-resumes c k revision none = ground arith
load_ends-resumes c k revision (some events) =
    let c' = show_history c k events in
    let kept : resumes c' ≡ resumes c =
      save_cursor-resumes (record_history c k events) k (max_seq 0 events) in
    let settled : resumes (settle_gap c' k (max_seq 0 events) (get c'.gaps k)) ≡ resumes c' =
      core-resumes c' (settle_gap c' k (max_seq 0 events) (get c'.gaps k))
        (settle_gap-core c' k (max_seq 0 events) (get c'.gaps k)) in
    ground arith

-- Each resume is an attempt, and there are ten attempts at most.
abbrev pub Counts : WebClient → WebClient → Type 0
Counts c c' =
    (length c'.sent_resumes + c.resume_attempts ≡ length c.sent_resumes + c'.resume_attempts)
    × (c.resume_attempts ≤ 10 → c'.resume_attempts ≤ 10)

pub same-Counts : (c c' : WebClient) → resumes c' ≡ resumes c → Counts c c'
same-Counts c c' e =
    let a : c'.resume_attempts ≡ c.resume_attempts = ap (λ x. x.0) e in
    let s : length c'.sent_resumes ≡ length c.sent_resumes = ap (λ x. length x.1) e in
    (omega arith, λ h. omega arith)

resume_again-Counts :
    (c : WebClient) (before : JsMap String ℕ)
    → suc c.resume_attempts ≤ 10
    → Counts c (resume_again c before)
unfolding resume_again
resume_again-Counts c before h = elim (Bool-cases (advances before c.cursors)) [
  | inl ahead ↦ rw ahead (omega (arith, length-append c.sent_resumes (c.cursors ∷ [])), λ k. h)
  | inr still ↦ rw still (refl, λ k. k)
]

pub resume_complete-Counts :
    (c : WebClient) (payload : Option Json) → Counts c (resume_complete c payload)
unfolding resume_complete
resume_complete-Counts c payload =
    let given = in_field payload "cursors" in
    let saved = same-Counts c (save_all c given) (save_all-resumes c given) in
    let a : (save_all c given).resume_attempts ≡ c.resume_attempts =
      ap (λ x. x.0) (save_all-resumes c given) in
    elim (Bool-cases
      (is_truthy (in_field payload "truncated") && c.socket_open && ltb c.resume_attempts 10)) [
        | inl again ↦
            let few : suc (save_all c given).resume_attempts ≤ 10 = ground arith in
            let (n, up) = resume_again-Counts (save_all c given) c.cursors few in
            rw again (omega (arith, saved.0), λ k. up (saved.1 k))
        | inr done ↦ rw done (refl, λ k. k)
      ]

module _ (show : ℕ → String) (parse_body : String → Option Json) where
  take_next-resumes :
      (c : WebClient) (message : Json) → resumes (take_next show parse_body c message) ≡ resumes c
  unfolding take_next show_event record_event
  take_next-resumes c message = ground (
    arith,
    save_numbered-resumes c (numbered message),
    save_numbered-resumes (record_event c message (event_key show parse_body message))
        (numbered message),
  )

  pub take_numbered-resumes :
      (c : WebClient) (message : Json) (o : Option (String × ℕ))
      → resumes (take_numbered show parse_body c message o) ≡ resumes c
  unfolding take_numbered
  take_numbered-resumes c message none = take_next-resumes c message
  take_numbered-resumes c message (some (k, seq)) = ground (
    arith,
    take_next-resumes c message,
    core-resumes c (schedule_gap_recovery c k seq) (schedule-core c k seq),
  )
