-- ===== src/WebClient/State.antt =====
-- useCodeHarbor.ts, the refs of the hook, with saveCursor, resetCursor and scheduleGapRecovery.
use code_harbor.Common.{
  Bool, List, Option, String, [], if◌then◌else◌, last_n, leb, length, ltb, nat_eq, none, not,
  or_else, some, string_eq, suc, truthy, zero, ℕ, ◌&&◌, ◌*◌, ◌+◌, ◌-◌, ◌==◌, ◌++◌, ◌∷◌,
}
use code_harbor.Common.JsMap.{JsMap, JsSet, delete, get, set}
use code_harbor.Common.Json.{Json}

-- A gap for which the history is to be loaded. The timer 0 is no timer.
pub record Recovery : Type 0 where
  pub expected_seq : ℕ
  pub attempt : ℕ
  pub timer : ℕ

pub record PendingProxy : Type 0 where
  pub raw : Bool

-- How a promise of `sendGatewayProxy` is settled; a rejection without a text names the status.
pub data Outcome : Type 0 where
  rejected : Option String → Outcome
  resolved_raw : Option Json → Option Json → String → Outcome
  resolved : Json → Outcome

-- `turn_events` are the events that the rows on the screen are made of.
pub record WebClient : Type 0 where
  pub cursors : JsMap String ℕ
  pub stored_cursors : JsMap String ℕ
  pub storage_fails : Bool
  pub gaps : JsMap String Recovery
  pub timers : JsMap ℕ (String × ℕ)
  pub next_timer : ℕ
  pub seen_event_keys : JsSet String
  pub live_revision : ℕ
  pub raw_events : List Json
  pub sessions : List Json
  pub selected_session_id : String
  pub turn_events : List Json
  pub resume_attempts : ℕ
  pub socket_open : Bool
  pub pending_requests : JsMap String PendingProxy
  pub settled : List (String × Outcome)
  pub sent_resumes : List (JsMap String ℕ)
  pub loads : List String

-- `Number.isSafeInteger` of a natural number
abbrev pub is_safe : ℕ → Bool
is_safe n = leb n 9_007_199_254_740_991

-- `cursorsRef.current[sessionId] || 0`
abbrev pub cursor_of : JsMap String ℕ → String → ℕ
cursor_of cursors id = or_else (get cursors id) 0

unfoldable pub keep_newest : JsMap String ℕ → JsMap String ℕ
keep_newest cursors = if ltb 10_000 (length cursors) then last_n 8_000 cursors else cursors

-- A write to the storage of the browser that throws is ignored.
unfoldable pub store_cursors : WebClient → JsMap String ℕ → WebClient
store_cursors c cursors = record c {
  cursors = cursors;
  stored_cursors = if c.storage_fails then c.stored_cursors else cursors;
}

unfoldable pub save_cursor : WebClient → String → ℕ → WebClient
unfolding store_cursors keep_newest
save_cursor c id seq =
    if truthy id && not (seq == 0) && ltb (cursor_of c.cursors id) seq
    then store_cursors c (keep_newest (set c.cursors id seq))
    else c

unfoldable pub reset_cursor : WebClient → String → ℕ → WebClient
unfolding store_cursors
reset_cursor c id seq =
    if truthy id && is_safe seq then store_cursors c (set c.cursors id seq) else c

abbrev pow2 : ℕ → ℕ
pow2 zero = 1
pow2 (suc n) = 2 * pow2 n

abbrev smaller : ℕ → ℕ → ℕ
smaller a b = if leb a b then a else b

abbrev gap_delay : ℕ → ℕ
gap_delay attempt = smaller 2_000 (100 * pow2 (attempt - 1))

unfoldable pub set_gap_timer : WebClient → String → ℕ → ℕ → WebClient
set_gap_timer c id expected_seq attempt = record c {
  timers = set c.timers c.next_timer (id, gap_delay attempt);
  next_timer = suc c.next_timer;
  gaps =
      set c.gaps id
        (record { expected_seq = expected_seq; attempt = attempt; timer = c.next_timer });
}

unfoldable pub schedule_over : WebClient → String → ℕ → Option Recovery → WebClient
unfolding set_gap_timer
schedule_over c id expected_seq none = set_gap_timer c id expected_seq 1
schedule_over c id expected_seq (some current) =
    if not (current.expected_seq == 0) && leb expected_seq current.expected_seq
    then c
    else set_gap_timer (record c { timers = delete c.timers current.timer }) id expected_seq
        (smaller (current.attempt + 1) 5)

unfoldable pub schedule_gap_recovery : WebClient → String → ℕ → WebClient
unfolding schedule_over
schedule_gap_recovery c id expected_seq = schedule_over c id expected_seq (get c.gaps id)

abbrev without_timer : JsMap String Recovery → String → Option Recovery → JsMap String Recovery
without_timer gaps id none = gaps
without_timer gaps id (some pending) = set gaps id (record pending { timer = 0 })

-- The timer of a gap, which starts a load of the history.
unfoldable pub gap_timer_fires_for : WebClient → ℕ → Option (String × ℕ) → WebClient
gap_timer_fires_for c timer none = c
gap_timer_fires_for c timer (some (id, delay)) = record c {
  timers = delete c.timers timer;
  gaps = without_timer c.gaps id (get c.gaps id);
  loads = c.loads ++ id ∷ [];
}

unfoldable pub gap_timer_fires : WebClient → ℕ → WebClient
unfolding gap_timer_fires_for
gap_timer_fires c timer = gap_timer_fires_for c timer (get c.timers timer)
