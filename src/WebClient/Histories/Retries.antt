-- ===== src/WebClient/Histories/Retries.antt =====
-- useCodeHarbor.ts, scheduleGapRecovery as loadSessionEvents calls it again.
use code_harbor.Common.{
  ==_refl, List, String, ap, arith, nat_eq, some, string_eq, true, ℕ, ◌<◌, ◌==◌, ◌∙◌, ◌≡◌, ◌≢◌,
}
use code_harbor.Common.JsMap.{get}
use code_harbor.Common.Json.{Json}
use code_harbor.WebClient.Loads.{load_ends, max_seq, record_history, settle_gap, show_history}
use code_harbor.WebClient.State.{
  Recovery, WebClient, save_cursor, schedule_gap_recovery, schedule_over, store_cursors,
}

-- What says when a gap is tried again.
abbrev pub retries : WebClient → List (String × Recovery) × List (ℕ × (String × ℕ)) × ℕ
retries c = (c.gaps, c.timers, c.next_timer)

save_cursor-retries :
    (c : WebClient) (id : String) (seq : ℕ) → retries (save_cursor c id seq) ≡ retries c
unfolding save_cursor store_cursors
save_cursor-retries c id seq = ground arith

show_history-retries :
    (c : WebClient) (id : String) (events : List Json)
    → retries (show_history c id events) ≡ retries c
unfolding show_history
show_history-retries c id events =
    save_cursor-retries (record_history c id events) id (max_seq 0 events)

schedule-same :
    (c : WebClient) (id : String) (r : Recovery)
    → get c.gaps id ≡ some r
    → r.expected_seq ≢ 0
    → schedule_gap_recovery c id r.expected_seq ≡ c
unfolding schedule_gap_recovery schedule_over
schedule-same c id r h pos = ground arith

settle_gap_short :
    (c : WebClient) (id : String) (reached : ℕ) (r : Recovery)
    → get c.gaps id ≡ some r
    → r.expected_seq ≢ 0
    → reached < r.expected_seq
    → r.attempt < 5
    → settle_gap c id reached (some r) ≡ c
unfolding settle_gap
settle_gap_short c id reached r h pos short few = ground (arith, schedule-same c id r h pos)

-- When the load of a gap ends short of the number that it is to reach, and fewer than five attempts
-- were made, nothing is done for another attempt: the gaps, with their attempts, and the timers stay
-- as they are. This holds for a load that is not void, of a session whose gap is to reach a number
-- above 0.
pub load_ends_short :
    (c : WebClient) (id : String) (events : List Json) (r : Recovery)
    → (c.selected_session_id == id) ≡ true
    → get c.gaps id ≡ some r
    → r.expected_seq ≢ 0
    → max_seq 0 events < r.expected_seq
    → r.attempt < 5
    → retries (load_ends c id c.live_revision (some events)) ≡ retries c
unfolding load_ends
load_ends_short c id events r selected h pos short few =
    let same = show_history-retries c id events in
    let there : get (show_history c id events).gaps id ≡ some r = ap (λ x. get x.0 id) same ∙ h in
    rw (selected, ==_refl c.live_revision, there)
      (ap retries
          (settle_gap_short (show_history c id events) id (max_seq 0 events) r there pos short few)
        ∙ same)
