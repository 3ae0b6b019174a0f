-- ===== src/CodexBridge/Approvals/Resolution.antt =====
-- Which decision of the user an approval takes, and how often.
use code_harbor.CodexBridge.Approvals.{decide, resolve_approval, same_thread, same_turn}
use code_harbor.CodexBridge.Messages.{ApprovalDecision}
use code_harbor.CodexBridge.State.{Bridge, PendingApproval}
use code_harbor.Common.{
  ==_refl, Bool-cases, Option, Option-cases, String, [], arith, false, falsy-empty, if◌then◌else◌,
  inl, inr, nat_eq, none, refl, some, string_eq, true, truthy, ◌&&◌, ◌++◌, ◌==◌, ◌↔◌, ◌∷◌, ◌≡◌, ◌⊎◌,
}
use code_harbor.Common.JsMap.{delete, get, get-delete}
use code_harbor.Common.JsMap.Every.{Every, Every-get}

-- A decision for the thread `own`: it names no thread, or the empty text, or that thread.
abbrev pub NamesThread : String → Option String → Type 0
NamesThread own none = Unit
NamesThread own (some t) = (t ≡ "") ⊎ (own ≡ t)

same_thread_iff :
    (own : String) (thread : Option String)
    → (same_thread own thread ≡ true) ↔ NamesThread own thread
same_thread_iff own none = (λ h. tt, λ n. refl)
same_thread_iff own (some t) = elim (Bool-cases (truthy t)) [
  | inl there ↦ (
    λ h. inr (ground (arith, h, there, string_eq.beq_iff own t)),
    λ n. elim n [
      | inl empty ↦ rw empty refl
      | inr e ↦ ground (arith, (string_eq.beq_iff own t).1 e)
    ],
  )
  | inr gone ↦ (λ h. inl (falsy-empty t gone), λ n. ground (arith, gone))
]

-- The decision names the approval's turn, and its thread if it names one.
pub record Matches (a : PendingApproval) (thread turn : Option String) : Type 0 where
  pub turn_id : String
  pub asked : a.turn_id ≡ some turn_id
  pub given : turn ≡ some turn_id
  pub not_empty : truthy turn_id ≡ true
  pub threads : NamesThread a.thread_id thread

same_turn-Matches :
    (a : PendingApproval) (thread turn : Option String) (own : Option String)
    → a.turn_id ≡ own
    → same_thread a.thread_id thread ≡ true
    → same_turn own turn ≡ true
    → Matches a thread turn
same_turn-Matches a thread none none e t h = cc
same_turn-Matches a thread (some q) none e t h = cc
same_turn-Matches a thread none (some p) e t h = cc
same_turn-Matches a thread (some q) (some p) e t h = record {
  turn_id = p;
  asked = e;
  given = ground (arith, string_eq.beq_iff p q);
  not_empty = ground arith;
  threads = (same_thread_iff a.thread_id thread).0 t;
}

-- A decision is taken exactly when an approval waits under its request id, whose turn id is not empty
-- and the one that is given, and whose thread is the one that is given, unless no thread is given or
-- the empty text.
pub resolve_approval_iff :
    (b : Bridge) (request : String) (d : ApprovalDecision) (thread turn : Option String)
    → ((resolve_approval b request d thread turn).1 ≡ true)
      ↔ ((a : PendingApproval) × (get b.pending_approvals request ≡ some a) × Matches a thread turn)
unfolding resolve_approval
resolve_approval_iff b request d thread turn = (
  λ h. elim (Option-cases (get b.pending_approvals request)) [
    | inl none' ↦ absurd (ground (arith, rw (none', resolve_approval) at h))
    | inr (a, found) ↦
        let h' = rw (found, resolve_approval) at h in
        (
          a,
          found,
          same_turn-Matches a thread turn a.turn_id refl (ground (arith, h')) (ground (arith, h')),
        )
  ],
  λ (a, found, m).
      let same = (same_thread_iff a.thread_id thread).1 m.threads in
      rw (found, resolve_approval, same, m.asked, m.given, m.not_empty, ==_refl m.turn_id) refl,
)

-- A decision that is taken is queued behind those that wait, for the request that asked; the approval
-- and its timer are gone, so no later decision for the request is taken, and no other approval is
-- touched. One that is not taken changes nothing.
resolve_approval_once :
    (b : Bridge) (request other : String) (d d' : ApprovalDecision)
    (thread turn thread' turn' : Option String) (a : PendingApproval)
    → Every (λ request a. a.request_id ≡ request) b.pending_approvals
    → get b.pending_approvals request ≡ some a
    → let (b', taken) = resolve_approval b request d thread turn in
      (b'.decided ≡ (
        if taken
        then b.decided ++ record { decided_id = a.id; decided_method = a.method; verdict = d } ∷ []
        else b.decided))
      × (get b'.pending_approvals other
          ≡ (if taken && request == other then none else get b.pending_approvals other))
      × ((taken && (resolve_approval b' request d' thread' turn').1) ≡ false)
unfolding resolve_approval decide
resolve_approval_once b request other d d' thread turn thread' turn' a keyed found =
    let own : a.request_id ≡ request = Every-get _ b.pending_approvals request a keyed found in
    let cut = get-delete b.pending_approvals request other in
    let gone : get (delete b.pending_approvals request) request ≡ none =
      ground (arith, get-delete b.pending_approvals request request, ==_refl request) in
    elim (Bool-cases (same_thread a.thread_id thread && same_turn a.turn_id turn)) [
      | inl same ↦ rw (found, resolve_approval, same, own, gone) (refl, cut, refl)
      | inr other_turn ↦ rw (found, resolve_approval, other_turn) (refl, refl, refl)
    ]
