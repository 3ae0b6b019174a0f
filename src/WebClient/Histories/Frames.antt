-- ===== src/WebClient/Histories/Frames.antt =====
-- useCodeHarbor.ts, the operations that leave the cursors, the events and the resumes alone.
use code_harbor.Common.{List, Option, String, arith, nat_eq, none, refl, some, string_eq, ℕ, ◌≡◌}
use code_harbor.Common.JsMap.{JsMap, get}
use code_harbor.Common.Json.{Json}
use code_harbor.WebClient.Loads.{settle_gap}
use code_harbor.WebClient.Messages.{proxy_response, settle_proxy}
use code_harbor.WebClient.State.{
  PendingProxy, Recovery, WebClient, gap_timer_fires, gap_timer_fires_for, schedule_gap_recovery,
  schedule_over, set_gap_timer,
}

abbrev pub core : WebClient → JsMap String ℕ × ℕ × ℕ × List (JsMap String ℕ)
core c = (c.cursors, c.live_revision, c.resume_attempts, c.sent_resumes)

schedule_over-core :
    (c : WebClient) (id : String) (seq : ℕ) (o : Option Recovery)
    → core (schedule_over c id seq o) ≡ core c
unfolding schedule_over set_gap_timer
schedule_over-core c id seq none = refl
schedule_over-core c id seq (some r) = ground arith

pub schedule-core :
    (c : WebClient) (id : String) (seq : ℕ) → core (schedule_gap_recovery c id seq) ≡ core c
unfolding schedule_gap_recovery
schedule-core c id seq = schedule_over-core c id seq (get c.gaps id)

fires_for-core :
    (c : WebClient) (timer : ℕ) (o : Option (String × ℕ))
    → core (gap_timer_fires_for c timer o) ≡ core c
unfolding gap_timer_fires_for
fires_for-core c timer none = refl
fires_for-core c timer (some x) = refl

pub fires-core : (c : WebClient) (timer : ℕ) → core (gap_timer_fires c timer) ≡ core c
unfolding gap_timer_fires
fires-core c timer = fires_for-core c timer (get c.timers timer)

pub settle_gap-core :
    (c : WebClient) (id : String) (reached : ℕ) (o : Option Recovery)
    → core (settle_gap c id reached o) ≡ core c
unfolding settle_gap
settle_gap-core c id reached none = refl
settle_gap-core c id reached (some r) = ground (arith, schedule-core c id r.expected_seq)

module _ (show : ℕ → String) (parse_body : String → Option Json) where
  settle_proxy-core :
      (c : WebClient) (id : String) (message : Json) (o : Option PendingProxy)
      → core (settle_proxy show parse_body c id message o) ≡ core c
  unfolding settle_proxy
  settle_proxy-core c id message none = refl
  settle_proxy-core c id message (some r) = refl

  pub proxy_response-core :
      (c : WebClient) (message : Json) (o : Option String)
      → core (proxy_response show parse_body c message o) ≡ core c
  unfolding proxy_response
  proxy_response-core c message none = refl
  proxy_response-core c message (some id) =
      settle_proxy-core c id message (get c.pending_requests id)
