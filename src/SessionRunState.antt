-- ===== src/SessionRunState.antt =====
-- gateway/acode-upstream/server/src/sessionRunState.ts: generations, by which a finished run learns
-- whether a later one has replaced it. A generation is a number that does not wrap.
pub mod Generations
mod Tests
use code_harbor.Common.{
  Bool, List, String, [], false, nat_eq, none, or_else, some, string_eq, ℕ, ◌+◌, ◌==◌, ◌∷◌,
}
use code_harbor.Common.JsMap.{JsMap, get, set}

pub record SessionRunState : Type 0 where
  pub generations : JsMap String ℕ

unfoldable pub begin : SessionRunState → String → SessionRunState × ℕ
begin s session =
    let generation = or_else (get s.generations session) 0 + 1 in
    (record s { generations = set s.generations session generation }, generation)

unfoldable pub cancel : SessionRunState → String → SessionRunState × ℕ
unfolding begin
cancel s session = begin s session

-- `this.generations.get(sessionId) === generation`
unfoldable pub is_current : SessionRunState → String → ℕ → Bool
is_current s session generation = elim (get s.generations session) [
  | none ↦ false
  | some current ↦ current == generation
]

pub data Call : Type 0 where
  begins cancels : String → Call

pub step : SessionRunState → Call → SessionRunState
step s (begins session) = (begin s session).0
step s (cancels session) = (cancel s session).0

pub run : SessionRunState → List Call → SessionRunState
run s [] = s
run s (c ∷ cs) = run (step s c) cs
