-- ===== src/SessionRunState/Generations.antt =====
-- A generation is current until the next call for its session, and never again.
use code_harbor.Common.{
  ==_refl, Bool, List, String, [], arith, false, if◌then◌else◌, nat_eq, not, or_else, refl,
  string_eq, true, ℕ, ◌+◌, ◌<◌, ◌==◌, ◌||◌, ◌∷◌, ◌≡◌, ◌≤◌,
}
use code_harbor.Common.JsMap.{get, get-set}
use code_harbor.SessionRunState.{
  Call, SessionRunState, begin, begins, cancel, cancels, is_current, run, step,
}

abbrev pub session_of : Call → String
session_of (begins s) = s
session_of (cancels s) = s

-- Whether a call of the history is for the session.
abbrev pub touched : String → List Call → Bool
touched session [] = false
touched session (c ∷ cs) = session_of c == session || touched session cs

abbrev generation : SessionRunState → String → ℕ
generation s session = or_else (get s.generations session) 0

generation-step :
    (s : SessionRunState) (c : Call) (session : String)
    → generation (step s c) session
      ≡ (if session_of c == session then generation s session + 1 else generation s session)
unfolding step begin cancel
generation-step s (begins k) session =
    ground
      (arith, get-set s.generations k session (generation s k + 1), string_eq.beq_iff k session)
generation-step s (cancels k) session =
    ground
      (arith, get-set s.generations k session (generation s k + 1), string_eq.beq_iff k session)

generation-run :
    (s : SessionRunState) (cs : List Call) (session : String)
    → (touched session cs ≡ false → generation (run s cs) session ≡ generation s session)
      × (touched session cs ≡ true → generation s session < generation (run s cs) session)
      × (generation s session ≤ generation (run s cs) session)
unfolding run
generation-run s [] session = (λ h. refl, λ h. cc, omega arith)
generation-run s (c ∷ cs) session =
    let (same, more, le) = generation-run (step s c) cs session in
    let e = generation-step s c session in
    (λ h. ground (arith, same, e), λ h. ground (arith, more, le, e), ground (arith, le, e))

is_current-eq :
    (s : SessionRunState) (session : String) (g : ℕ)
    → 0 < g
    → is_current s session g ≡ (generation s session == g)
unfolding is_current
is_current-eq s session g h = ground arith

begin-generation :
    (s : SessionRunState) (session : String)
    → (generation (begin s session).0 session ≡ (begin s session).1) × (0 < (begin s session).1)
unfolding begin
begin-generation s session = (
  ground (arith, get-set s.generations session session (generation s session + 1), ==_refl session),
  omega arith,
)

-- The generation that `begin` hands out is current after any further calls exactly when none of them
-- began or cancelled the same session.
pub begin_current_iff :
    (s : SessionRunState) (session : String) (cs : List Call)
    → is_current (run (begin s session).0 cs) session (begin s session).1 ≡ not (touched session cs)
begin_current_iff s session cs =
    let s' = (begin s session).0 in
    let (same, pos) = begin-generation s session in
    let (kept, more, _) = generation-run s' cs session in
    ground (arith, is_current-eq (run s' cs) session (begin s session).1 pos, same, kept, more)
