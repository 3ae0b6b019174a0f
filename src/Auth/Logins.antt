-- ===== src/Auth/Logins.antt =====
-- auth.ts, the limit on failed logins from one address. Times are milliseconds.
pub mod Limit
mod Tests
use code_harbor.Common.{
  Bool, List, Option, String, [], if◌then◌else◌, leb, length, ltb, nat_eq, none, some, string_eq,
  true, ℕ, ◌+◌, ◌-◌, ◌∷◌,
}
use code_harbor.Common.JsMap.{JsMap, delete, get, set}

pub record Attempt : Type 0 where
  pub started_at : ℕ
  pub failures : ℕ

abbrev pub login_window_ms : ℕ
login_window_ms = 60_000

abbrev pub max_login_failures : ℕ
max_login_failures = 8

-- `now - attempt.startedAt >= loginWindowMs`
abbrev pub is_over : ℕ → Attempt → Bool
is_over now a = leb (a.started_at + login_window_ms) now

pub allow_login_attempt : String → ℕ → JsMap String Attempt → JsMap String Attempt × Bool
allow_login_attempt ip now m = elim (get m ip) [
  | none ↦ (set m ip (record { started_at = now; failures = 0 }), true)
  | some attempt ↦
      if is_over now attempt
      then (set m ip (record { started_at = now; failures = 0 }), true)
      else (m, ltb attempt.failures max_login_failures)
]

-- The loop over the entries, with the size that the map still has: it drops what is over, and stops
-- after the entry at which the size is 5,000 or less.
pub sweep : ℕ → ℕ → JsMap String Attempt → JsMap String Attempt
sweep now size [] = []
sweep now size ((ip, a) ∷ m) =
    let gone = is_over now a in
    let size' = if gone then size - 1 else size in
    let rest = sweep now size' m in
    let kept = if leb size' 5_000 then m else rest in if gone then kept else (ip, a) ∷ kept

-- A new window, or one failure more in the window that is open.
abbrev pub next_attempt : ℕ → Option Attempt → Attempt
next_attempt now none = record { started_at = now; failures = 1 }
next_attempt now (some attempt) =
    if is_over now attempt
    then record { started_at = now; failures = 1 }
    else record attempt { failures = attempt.failures + 1 }

pub record_login_failure : String → ℕ → JsMap String Attempt → JsMap String Attempt
record_login_failure ip now m =
    let m' = set m ip (next_attempt now (get m ip)) in
    if ltb 10_000 (length m') then sweep now (length m') m' else m'

pub clear_login_failures : String → JsMap String Attempt → JsMap String Attempt
clear_login_failures ip m = delete m ip

-- A call from the login handlers, with its time.
pub data Call : Type 0 where
  allows fails : String → ℕ → Call
  clears : String → Call

pub step : JsMap String Attempt → Call → JsMap String Attempt
step m (allows ip now) = (allow_login_attempt ip now m).0
step m (fails ip now) = record_login_failure ip now m
step m (clears ip) = clear_login_failures ip m

pub run : JsMap String Attempt → List Call → JsMap String Attempt
run m [] = m
run m (c ∷ cs) = run (step m c) cs
