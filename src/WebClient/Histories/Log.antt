-- ===== src/WebClient/Histories/Log.antt =====
-- useCodeHarbor.ts, the events of one session in a whole history.
use code_harbor.Common.{
  Bool, List, Option, String, [], ap, arith, false, if◌then◌else◌, length, nat_eq, none, refl, some,
  string_eq, ℕ, ◌+◌, ◌==◌, ◌∷◌, ◌≡◌, ◌≤◌,
}
use code_harbor.Common.Json.{Json}
use code_harbor.WebClient.Fields.{unwrap}
use code_harbor.WebClient.Histories.{Step, ends_load, fires, opens, says, selects, step}
use code_harbor.WebClient.Histories.Cursors.{cursor}
use code_harbor.WebClient.Histories.Frames.{fires-core}
use code_harbor.WebClient.Histories.Order.{Change, Moves, change_by, jumps, rests}
use code_harbor.WebClient.Histories.Shown.{load_ends-Moves, names, on_message-IsInOrder, resets}
use code_harbor.WebClient.Loads.{socket_opens}
use code_harbor.WebClient.Messages.{on_message}
use code_harbor.WebClient.State.{WebClient, cursor_of}

abbrev new_names : Step → ℕ
new_names opens = 0
new_names (says none) = 0
new_names (says (some raw)) = names (unwrap raw)
new_names (fires timer) = 0
new_names (ends_load id revision result) = 1
new_names (selects id) = 0

abbrev resets_in : String → Step → Bool
resets_in id opens = false
resets_in id (says none) = false
resets_in id (says (some raw)) = resets id (unwrap raw)
resets_in id (fires timer) = false
resets_in id (ends_load k revision result) = false
resets_in id (selects k) = false

-- The moves of a cursor, each with its reason and where it leads, follow on each other.
abbrev pub InOrder : ℕ → List (Change × ℕ) → Type 0
InOrder n [] = Unit
InOrder n ((change, m) ∷ later) = Moves n m change × InOrder m later

module _ (show : ℕ → String) (parse_body : String → Option Json) (id : String) where
  abbrev change_in : WebClient → WebClient → Step → Change
  change_in c c' opens = rests
  change_in c c' (says none) = rests
  change_in c c' (says (some raw)) = change_by show parse_body id c c' (unwrap raw)
  change_in c c' (fires timer) = rests
  change_in c c' (ends_load k revision result) = if k == id then jumps else rests
  change_in c c' (selects k) = rests

  -- What each step of a history may do to the cursor of the session, and where the cursor then stands.
  unfoldable pub shown : WebClient → List Step → List (Change × ℕ)
  unfolding step
  shown c [] = []
  shown c (st ∷ sts) =
      let c' = step show parse_body c st in (change_in c c' st, cursor id c') ∷ shown c' sts

  -- The map of the cursors stays below its limit, and the history of the session keeps its beginning.
  abbrev IsKept : WebClient → List Step → Type 0
  IsKept c [] = Unit
  IsKept c (st ∷ sts) =
      (length c.cursors + new_names st ≤ 10_000)
      × (resets_in id st ≡ false)
      × IsKept (step show parse_body c st) sts

  step-Moves :
      (c : WebClient) (st : Step)
      → length c.cursors + new_names st ≤ 10_000
      → resets_in id st ≡ false
      → Moves
          (cursor id c)
          (cursor id (step show parse_body c st))
          (change_in c (step show parse_body c st) st)
  unfolding step on_message socket_opens
  step-Moves c opens h kept = refl
  step-Moves c (says none) h kept = refl
  step-Moves c (says (some raw)) h kept = on_message-IsInOrder show parse_body id c raw h kept
  step-Moves c (fires timer) h kept = ap (λ x. cursor_of x.0 id) (fires-core c timer)
  step-Moves c (ends_load k revision result) h kept =
      load_ends-Moves id c k revision result (omega arith)
  step-Moves c (selects k) h kept = refl

  -- However messages of all sessions, loads, timers and new connections follow each other, the cursor of
  -- a session moves in these ways and no other: a message that shows a numbered event of the session
  -- shows the very next one behind the cursor, and the cursor then stands at it; a numbered event with a
  -- key of what is shown already moves it by one or not at all; the end of a resume and the end of a
  -- load of this session move it forward or not at all; and at every other step it stays where it is.
  -- So no event is shown twice or out of order, and none is left out but those that a load, a resume or
  -- an echo has moved the cursor over. This holds as long as the cursors stay within 10,000 and the
  -- gateway does not say that the beginning of the session's history is gone.
  pub shown-InOrder :
      (c : WebClient) (sts : List Step) → IsKept c sts → InOrder (cursor id c) (shown c sts)
  unfolding shown
  shown-InOrder c [] h = tt
  shown-InOrder c (st ∷ sts) (room, kept, h) =
      (step-Moves c st room kept, shown-InOrder (step show parse_body c st) sts h)
