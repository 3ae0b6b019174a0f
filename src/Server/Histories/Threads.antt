-- ===== src/Server/Histories/Threads.antt =====
-- What keeps a session at the gate: the turns of /api/threads, and the listing of the threads.
use code_harbor.Common.{
  Bool-cases, Option, Option-cases, String, arith, false, inl, inr, nat_eq, none, not, refl, some,
  string_eq, subst, true, ℕ, ◌&&◌, ◌==◌, ◌≡◌,
}
use code_harbor.Common.JsMap.{get, has}
use code_harbor.GatewayStore.Types.{GatewaySession}
use code_harbor.Server.Broadcast.Effects.{released_by}
use code_harbor.Server.Histories.{continues_thread_turn, lists_thread}
use code_harbor.Server.Histories.Holding.{
  Holds, acquire-Holds, broadcast-Holds, ends, finds_overdue, let_go-Holds, release_of-holds,
  release_request-gate, reserve_request-gate,
}
use code_harbor.Server.Replies.{thread_to_session}
use code_harbor.Server.State.{Server, is_live, mark_live, upsert}
use code_harbor.Server.ThreadTurns.{
  Place, ThreadTurn, admit_thread_turn, answer_admission, begin_thread_turn, continue_thread_turn,
  finish_thread_turn, is_busy, is_overdue, minimal_session, place_allowed, place_fails,
  place_refused, session_for, with_existing, with_gateway_thread_status,
}
use code_harbor.Server.Turns.{
  Outcome, Stage, answers, fails, is_turn_expired, persisted_request, preparing, remember_request,
  resuming, running_message, starting_turn,
}
use code_harbor.Threads.Index.{ThreadSummary}
use code_harbor.TurnGate.{TurnAdmission, accepted, busy, duplicate}

module _ (id : String) where
  pub begin_thread_turn-Holds :
      (s : Server) (other : String) (request : Option String) (due : Option (Option ℕ)) (now : ℕ)
      → Holds id s
      → Holds id (begin_thread_turn s other request due now).0
  unfolding begin_thread_turn
  begin_thread_turn-Holds s other request due now h = elim (Bool-cases (is_turn_expired due now)) [
    | inl late ↦ rw late h
    | inr early ↦ rw (early, reserve_request-gate id s other request now) h
  ]

  answer_admission-Holds :
      (s : Server) (t : ThreadTurn) (a : TurnAdmission)
      → Holds id s
      → Holds id (answer_admission s t a).0
  answer_admission-Holds s t accepted h = h
  answer_admission-Holds s t duplicate h =
      rw (release_request-gate id s t.thread_id t.turn_request) h
  answer_admission-Holds s t busy h = rw (release_request-gate id s t.thread_id t.turn_request) h

  pub admit_thread_turn-Holds :
      (s : Server) (t : ThreadTurn) (place : Place)
      → Holds id s
      → Holds id (admit_thread_turn s t place).0
  unfolding admit_thread_turn
  admit_thread_turn-Holds s t place_fails h =
      rw (release_request-gate id s t.thread_id t.turn_request) h
  admit_thread_turn-Holds s t place_refused h =
      rw (release_request-gate id s t.thread_id t.turn_request) h
  admit_thread_turn-Holds s t place_allowed h =
      answer_admission-Holds _ t _
        (acquire-Holds id s.gate t.thread_id t.turn_request (persisted_request t.kept) h)

  remember_request-gate :
      (s : Server) (other : String) (o : Option String) → (remember_request s other o).gate ≡ s.gate
  unfolding remember_request
  remember_request-gate s other none = refl
  remember_request-gate s other (some request) = ground arith

  session_for-running :
      (s : Server) (t : ThreadTurn) (o : Option ThreadSummary) (now : ℕ)
      → is_live (session_for s t o now).status ≡ true
  unfolding minimal_session thread_to_session
  session_for-running s t none now = refl
  session_for-running s t (some thread) now = refl

  finish_thread_turn-Holds :
      (s : Server) (t : ThreadTurn) (turn : Option String) (now : ℕ)
      → Holds id s
      → Holds id (finish_thread_turn s t turn now)
  unfolding finish_thread_turn released_by mark_live upsert
  finish_thread_turn-Holds s t turn now h =
      let session = session_for s t t.found now in
      broadcast-Holds id _ (running_message t.thread_id session now)
        (rw (session_for-running s t t.found now) refl)
        (rw (remember_request-gate _ t.thread_id t.turn_request) h)

  pub continue_thread_turn-Holds :
      (s : Server) (t : ThreadTurn) (stage : Stage) (o : Outcome) (now : ℕ)
      → ends id (continues_thread_turn t stage o now) ≡ false
      → Holds id s
      → Holds id (continue_thread_turn s t stage o now)
  unfolding continue_thread_turn
  continue_thread_turn-Holds s t stage fails now n h =
      rw (release_request-gate id _ t.thread_id t.turn_request)
        (release_of-holds id s.gate (some t.thread_id) n h)
  continue_thread_turn-Holds s t resuming (answers turn) now n h = h
  continue_thread_turn-Holds s t preparing (answers turn) now n h = h
  continue_thread_turn-Holds s t starting_turn (answers turn) now n h =
      finish_thread_turn-Holds s t turn now h

  with_existing-Holds :
      (s : Server) (thread : ThreadSummary) (now : ℕ) (existing : GatewaySession)
      → (thread.id == id && is_overdue existing now) ≡ false
      → Holds id s
      → Holds id (with_existing s thread now existing).0
  unfolding with_existing
  with_existing-Holds s thread now existing n h =
      elim (Bool-cases
        (is_busy existing.status && not (has s.process_live_session_ids thread.id))) [
          | inl stale ↦ rw stale h
          | inr fresh ↦ elim (Bool-cases (is_overdue existing now)) [
            | inl over ↦
                let other : (thread.id == id) ≡ false = ground arith in
                rw (fresh, over) (let_go-Holds id s thread.id other h)
            | inr fine ↦ rw (fresh, fine) h
          ]
        ]

  pub lists_thread-Holds :
      (s : Server) (thread : ThreadSummary) (now : ℕ)
      → finds_overdue id s (lists_thread thread now) ≡ false
      → Holds id s
      → Holds id (with_gateway_thread_status s thread now).0
  unfolding with_gateway_thread_status
  lists_thread-Holds s thread now n h = elim (Option-cases (get s.store.sessions thread.id)) [
    | inl none' ↦ rw (none', with_gateway_thread_status) h
    | inr (existing, there) ↦
        let own : (thread.id == id && is_overdue existing now) ≡ false =
          elim (Bool-cases (thread.id == id)) [
            | inr other ↦ rw other refl
            | inl same ↦
                let e : thread.id ≡ id = (string_eq.beq_iff thread.id id).0 same in
                let at : get s.store.sessions id ≡ some existing =
                  subst (λ k. get s.store.sessions k ≡ some existing) e there in
                rw same (rw (same, at) at n)
          ] in
        rw (there, with_gateway_thread_status) (with_existing-Holds s thread now existing own h)
  ]
