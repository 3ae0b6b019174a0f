-- ===== src/Auth/Logins/Limit.antt =====
-- How many guesses an address has in one window.
use code_harbor.Auth.Logins.{
  Attempt, Call, allow_login_attempt, allows, clear_login_failures, clears, fails, is_over,
  login_window_ms, max_login_failures, next_attempt, record_login_failure, run, step, sweep,
}
use code_harbor.Common.{
  Bool-cases, List, String, [], arith, false, if◌then◌else◌, inl, inr, length, ltb, nat_eq, none,
  refl, some, string_eq, subst, ℕ, ◌+◌, ◌-◌, ◌<◌, ◌==◌, ◌∷◌, ◌≡◌, ◌≤◌,
}
use code_harbor.Common.JsMap.{JsMap, get, get-delete, get-set, has, set}
use code_harbor.Common.JsMap.Distinct.{HasDistinctKeys, delete-HasDistinctKeys, set-HasDistinctKeys}

sweep_keeps :
    (now size : ℕ) (m : JsMap String Attempt) (ip : String) (a : Attempt)
    → HasDistinctKeys m
    → get m ip ≡ some a
    → is_over now a ≡ false
    → get (sweep now size m) ip ≡ some a
unfolding sweep get has
sweep_keeps now size [] ip a d g h = cc
sweep_keeps now size ((j, b) ∷ m) ip a (new, d) g h = ground (
  arith,
  sweep_keeps now (size - 1) m ip a d,
  sweep_keeps now size m ip a d,
  string_eq.beq_iff j ip,
)

sweep-none :
    (now size : ℕ) (m : JsMap String Attempt) (ip : String)
    → get m ip ≡ none
    → get (sweep now size m) ip ≡ none
unfolding sweep get
sweep-none now size [] ip h = refl
sweep-none now size ((j, b) ∷ m) ip h =
    ground (arith, sweep-none now (size - 1) m ip, sweep-none now size m ip)

sweep-HasDistinctKeys :
    (now size : ℕ) (m : JsMap String Attempt)
    → HasDistinctKeys m
    → HasDistinctKeys (sweep now size m)
unfolding sweep has
sweep-HasDistinctKeys now size [] d = tt
sweep-HasDistinctKeys now size ((j, b) ∷ m) (new, d) = ground (
  arith,
  sweep-HasDistinctKeys now (size - 1) m d,
  sweep-HasDistinctKeys now size m d,
  sweep-none now (size - 1) m j,
  sweep-none now size m j,
)

-- How many of the calls are failures from the address.
abbrev pub failures_of : String → List Call → ℕ
failures_of ip [] = 0
failures_of ip (fails j now ∷ cs) = (if j == ip then 1 else 0) + failures_of ip cs
failures_of ip (allows j now ∷ cs) = failures_of ip cs
failures_of ip (clears j ∷ cs) = failures_of ip cs

-- Every call comes before the window that began at `start` is over, and none clears the address.
abbrev pub InWindow : String → ℕ → List Call → Type 0
InWindow ip start [] = Unit
InWindow ip start (fails j now ∷ cs) =
    (start ≤ now) × (now < start + login_window_ms) × InWindow ip start cs
InWindow ip start (allows j now ∷ cs) =
    (start ≤ now) × (now < start + login_window_ms) × InWindow ip start cs
InWindow ip start (clears j ∷ cs) = ((j == ip) ≡ false) × InWindow ip start cs

-- What the map holds for the address, with the keys distinct.
record Counts (ip : String) (start n : ℕ) (m : JsMap String Attempt) : Type 0 where
  entry : get m ip ≡ some (record { started_at = start; failures = n })
  distinct : HasDistinctKeys m

record_failure-Counts :
    (m : JsMap String Attempt) (ip j : String) (start n now : ℕ)
    → now < start + login_window_ms
    → Counts ip start n m
    → Counts ip start ((if j == ip then 1 else 0) + n) (set m j (next_attempt now (get m j)))
record_failure-Counts m ip j start n now h c =
    let a = next_attempt now (get m j) in
    record {
      entry = ground (arith, get-set m j ip a, string_eq.beq_iff j ip, c.entry);
      distinct = set-HasDistinctKeys m j a c.distinct;
    }

record_login_failure-Counts :
    (m : JsMap String Attempt) (ip j : String) (start n now : ℕ)
    → now < start + login_window_ms
    → Counts ip start n m
    → Counts ip start ((if j == ip then 1 else 0) + n) (record_login_failure j now m)
unfolding record_login_failure
record_login_failure-Counts m ip j start n now h c =
    let m' = set m j (next_attempt now (get m j)) in
    let c' = record_failure-Counts m ip j start n now h c in
    elim (Bool-cases (ltb 10_000 (length m'))) [
      | inl many ↦ rw many (record {
        entry = sweep_keeps now (length m') m' ip _ c'.distinct c'.entry (ground arith);
        distinct = sweep-HasDistinctKeys now (length m') m' c'.distinct;
      })
      | inr few ↦ rw few c'
    ]

allow-Counts :
    (m : JsMap String Attempt) (ip j : String) (start n now : ℕ)
    → now < start + login_window_ms
    → Counts ip start n m
    → Counts ip start n (allow_login_attempt j now m).0
unfolding allow_login_attempt
allow-Counts m ip j start n now h c =
    let a : Attempt = record { started_at = now; failures = 0 } in
    record {
      entry = ground (arith, get-set m j ip a, string_eq.beq_iff j ip, c.entry);
      distinct = ground (arith, set-HasDistinctKeys m j a c.distinct, c.distinct);
    }

run-Counts :
    (m : JsMap String Attempt) (ip : String) (start n : ℕ) (cs : List Call)
    → InWindow ip start cs
    → Counts ip start n m
    → Counts ip start (failures_of ip cs + n) (run m cs)
unfolding run step clear_login_failures
run-Counts m ip start n [] w c = subst (λ t. Counts ip start t m) (omega arith) c
run-Counts m ip start n (fails j now ∷ cs) (lo, hi, w) c =
    let k = (if j == ip then 1 else 0) in
    subst (λ t. Counts ip start t (run (record_login_failure j now m) cs)) (omega arith)
      (run-Counts (record_login_failure j now m) ip start (k + n) cs w
        (record_login_failure-Counts m ip j start n now hi c))
run-Counts m ip start n (allows j now ∷ cs) (lo, hi, w) c =
    run-Counts (allow_login_attempt j now m).0 ip start n cs w
      (allow-Counts m ip j start n now hi c)
run-Counts m ip start n (clears j ∷ cs) (ne, w) c =
    run-Counts (clear_login_failures j m) ip start n cs w (record {
      entry = ground (arith, get-delete m j ip, c.entry);
      distinct = delete-HasDistinctKeys m j c.distinct;
    })

-- Let a window of an address be open with n failures counted, and let calls follow before it is over,
-- none of which clears the address. Then a further attempt in the window is allowed exactly when fewer
-- than eight failures of that address have been counted in all, whatever other addresses did and
-- however often the table was swept.
pub allow-run_limit :
    (m : JsMap String Attempt) (ip : String) (a : Attempt) (cs : List Call) (now : ℕ)
    → HasDistinctKeys m
    → get m ip ≡ some a
    → InWindow ip a.started_at cs
    → now < a.started_at + login_window_ms
    → (allow_login_attempt ip now (run m cs)).1
      ≡ ltb (failures_of ip cs + a.failures) max_login_failures
unfolding allow_login_attempt
allow-run_limit m ip a cs now d g w h =
    let c = run-Counts m ip a.started_at a.failures cs w (record { entry = g; distinct = d }) in
    ground (arith, c.entry)
