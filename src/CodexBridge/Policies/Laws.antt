-- ===== src/CodexBridge/Policies/Laws.antt =====
-- The policy of a thread is the one that was set last.
use code_harbor.CodexBridge.Policies.{max_policy_entries, policy_of, remember_policy}
use code_harbor.Common.{
  ==_refl, Bool-cases, String, arith, false, if◌then◌else◌, inl, inr, leb, length, nat_eq, refl,
  string_eq, ◌==◌, ◌≡◌, ◌≤◌, ◌⊎◌,
}
use code_harbor.Common.JsMap.{
  JsMap, delete, get-delete, get-set, has, length-delete-le, length-set-le, length-shrink-le, set,
  shrink_of_short,
}
use code_harbor.Common.JsMap.Distinct.{
  HasDistinctKeys, delete-HasDistinctKeys, get-shrink-set_new, has-delete,
}
use code_harbor.GatewayStore.Types.{PolicyMode}

-- The policy that was set for a thread is the thread's, also when the table is full; the table holds
-- at most 10,000 threads, and while it is not full no other thread loses its policy.
pub policy_of-remember_policy :
    (m : JsMap String PolicyMode) (thread other : String) (mode : PolicyMode)
    → HasDistinctKeys m
    → (policy_of (remember_policy m thread mode) thread ≡ mode)
      × (length (remember_policy m thread mode) ≤ max_policy_entries)
      × ((max_policy_entries ≤ length m)
          ⊎ (policy_of (remember_policy m thread mode) other
              ≡ (if thread == other then mode else policy_of m other)))
unfolding policy_of remember_policy
policy_of-remember_policy m thread other mode d =
    let rest = delete m thread in
    let out : has rest thread ≡ false =
      ground (arith, has-delete m thread thread, ==_refl thread) in
    let kept =
      get-shrink-set_new max_policy_entries rest thread mode (delete-HasDistinctKeys m thread d) out
        (omega arith) in
    (
      rw kept refl,
      length-shrink-le max_policy_entries (set rest thread mode),
      elim (Bool-cases (leb max_policy_entries (length m))) [
        | inl full ↦ inl (ground arith)
        | inr room ↦
            let short : length (set rest thread mode) ≤ max_policy_entries =
              ground (arith, length-set-le rest thread mode, length-delete-le m thread) in
            inr (
              rw
                (
                  shrink_of_short max_policy_entries (set rest thread mode) short,
                  get-set,
                  get-delete,
                )
                (ground arith))
      ],
    )
