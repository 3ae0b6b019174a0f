-- ===== src/GatewayStore/Timeline/Order.antt =====
-- The numbers of a timeline rise strictly.
use code_harbor.Common.{
  All, Bool-cases, List, String, [], arith, false, if◌then◌else◌, inl, inr, keep, length, ltb, map,
  or_else, refl, some, suc, true, ℕ, ◌+◌, ◌<◌, ◌∷◌, ◌≡◌, ◌≤◌,
}
use code_harbor.GatewayStore.Events.{max_safe_integer}
use code_harbor.GatewayStore.Timeline.{belongs, has_null, number_entries, parse_lines, read_lines}
use code_harbor.GatewayStore.Types.{Line, SessionTimelineEntry, corrupt, entry, null_line, seq_of}

-- Every entry has a number, each above the one before and the first above n.
abbrev pub RisesFrom : ℕ → List SessionTimelineEntry → Type 0
RisesFrom n [] = Unit
RisesFrom n (e ∷ es) =
    (e.message.event_seq ≡ some (seq_of e)) × (n < seq_of e) × RisesFrom (seq_of e) es

number_entries-RisesFrom :
    (n : ℕ) (es : List SessionTimelineEntry) → RisesFrom n (number_entries n es)
unfolding number_entries
number_entries-RisesFrom n [] = tt
number_entries-RisesFrom n (e ∷ es) =
    let seq =
      if ltb n (or_else e.message.event_seq 0) then or_else e.message.event_seq 0 else n + 1 in
    (refl, ground arith, number_entries-RisesFrom seq es)

-- No entry among the lines has a number above the bound.
abbrev pub LinesUpTo : ℕ → List Line → Type 0
LinesUpTo b [] = Unit
LinesUpTo b (corrupt ∷ ls) = LinesUpTo b ls
LinesUpTo b (null_line ∷ ls) = LinesUpTo b ls
LinesUpTo b (entry e ∷ ls) = (or_else e.message.event_seq 0 ≤ b) × LinesUpTo b ls

abbrev EntriesUpTo : ℕ → List SessionTimelineEntry → Type 0
EntriesUpTo b = All (λ e. or_else e.message.event_seq 0 ≤ b)

AllUpTo-weaken :
    (b c : ℕ) (es : List SessionTimelineEntry) → b ≤ c → EntriesUpTo b es → EntriesUpTo c es
AllUpTo-weaken b c [] le h = tt
AllUpTo-weaken b c (e ∷ es) le (p, h) = (omega arith, AllUpTo-weaken b c es le h)

seq-weaken :
    (b c : ℕ) (es : List SessionTimelineEntry)
    → b ≤ c
    → All (λ e. seq_of e ≤ b) es
    → All (λ e. seq_of e ≤ c) es
seq-weaken b c [] le h = tt
seq-weaken b c (e ∷ es) le (p, h) = (omega arith, seq-weaken b c es le h)

number_entries-le :
    (n b : ℕ) (es : List SessionTimelineEntry)
    → n ≤ b
    → EntriesUpTo b es
    → All (λ e. seq_of e ≤ b + length es) (number_entries n es)
unfolding number_entries
number_entries-le n b [] le h = tt
number_entries-le n b (e ∷ es) le (p, h) =
    let explicit = or_else e.message.event_seq 0 in
    let seq = if ltb n explicit then explicit else n + 1 in
    let low : seq ≤ suc b = ground (arith, le, p) in
    let rest = number_entries-le seq (suc b) es low (AllUpTo-weaken b (suc b) es (omega arith) h) in
    (omega (arith, low), seq-weaken (suc b + length es) (b + suc (length es)) _ (omega arith) rest)

parsed-le :
    (id : String) (b : ℕ) (ls : List Line)
    → LinesUpTo b ls
    → EntriesUpTo b (keep (belongs id) (parse_lines ls))
      × (length (keep (belongs id) (parse_lines ls)) ≤ length ls)
unfolding parse_lines
parsed-le id b [] h = (tt, omega arith)
parsed-le id b (corrupt ∷ ls) h = let (all, few) = parsed-le id b ls h in (all, omega (arith, few))
parsed-le id b (null_line ∷ ls) h =
    let (all, few) = parsed-le id b ls h in (all, omega (arith, few))
parsed-le id b (entry e ∷ ls) (p, h) =
    let (all, few) = parsed-le id b ls h in
    elim (Bool-cases (belongs id e)) [
      | inl mine ↦ rw mine ((p, all), omega (arith, few))
      | inr other ↦ rw other (all, omega (arith, few))
    ]

-- Whatever else an events file holds (lines that do not parse or say `null`, entries of other sessions,
-- repeated or missing numbers), if its numbers are natural numbers that are further from
-- `Number.MAX_SAFE_INTEGER` than the file has lines, the timeline that is read from it has strictly
-- rising numbers, none of them above that integer, so each sum is one that JavaScript computes exactly.
pub read_lines-RisesFrom :
    (id : String) (ls : List Line) (b : ℕ)
    → LinesUpTo b ls
    → b + length ls ≤ max_safe_integer
    → RisesFrom 0 (read_lines id ls) × All (λ e. seq_of e ≤ max_safe_integer) (read_lines id ls)
unfolding read_lines
read_lines-RisesFrom id ls b h room = elim (Bool-cases (has_null ls)) [
  | inl throws ↦ rw throws (tt, tt)
  | inr fine ↦
      let es = keep (belongs id) (parse_lines ls) in
      let (all, few) = parsed-le id b ls h in
      rw fine (
        number_entries-RisesFrom 0 es,
        seq-weaken (b + length es) max_safe_integer _ (omega (arith, few, room))
            (number_entries-le 0 b es (omega arith) all),
      )
]

number_entries_of_RisesFrom :
    (n : ℕ) (es : List SessionTimelineEntry) → RisesFrom n es → number_entries n es ≡ es
unfolding number_entries
number_entries_of_RisesFrom n [] h = refl
number_entries_of_RisesFrom n (e ∷ es) (has_seq, above, h) =
    ground (arith, number_entries_of_RisesFrom (seq_of e) es h)

-- Every entry is the session's own.
abbrev pub AllBelong : String → List SessionTimelineEntry → Type 0
AllBelong id [] = Unit
AllBelong id (e ∷ es) = (belongs id e ≡ true) × AllBelong id es

parse_written :
    (id : String) (es : List SessionTimelineEntry)
    → AllBelong id es
    → keep (belongs id) (parse_lines (map entry es)) ≡ es
unfolding parse_lines
parse_written id [] h = refl
parse_written id (e ∷ es) (mine, h) = rw (mine, parse_written id es h)

no_null : (es : List SessionTimelineEntry) → has_null (map entry es) ≡ false
no_null [] = refl
no_null (e ∷ es) = no_null es

-- A timeline of a session with rising numbers that was written line by line is read back unchanged.
pub read_lines-written :
    (id : String) (es : List SessionTimelineEntry)
    → AllBelong id es
    → RisesFrom 0 es
    → read_lines id (map entry es) ≡ es
unfolding read_lines
read_lines-written id es mine h =
    rw (no_null es, parse_written id es mine) (number_entries_of_RisesFrom 0 es h)
