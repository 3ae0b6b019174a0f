-- ===== src/CodexBridge/Histories/Settlement.antt =====
-- Every request to the child is settled once: the steps that settle, and those that do not.
pub mod Steps
pub mod Runs
pub mod Once
use code_harbor.CodexBridge.Requests.{max_pending_requests, send_request}
use code_harbor.CodexBridge.State.{
  Bridge, Effect, Failure, can_write, emits, kills, reject_all, reject_each, rejects, resolves,
  spawns, writes_failure, writes_notification, writes_request, writes_result,
}
use code_harbor.Common.{
  Bool-cases, List, Option, Option-cases, String, [], arith, false, if◌then◌else◌, inl, inr, leb,
  length, nat_eq, refl, string_eq, suc, true, ℕ, ◌++◌, ◌+◌, ◌<◌, ◌==◌, ◌∷◌, ◌≡◌, ◌≤◌,
}
use code_harbor.Common.JsMap.{JsMap, delete, get, has}
use code_harbor.Common.JsMap.Distinct.{
  HasDistinctKeys, delete-HasDistinctKeys, has-delete, has-set, set-HasDistinctKeys,
}
use code_harbor.Common.JsMap.Every.{Every, Every-delete, Every-get, Every-set}
use code_harbor.Common.Json.{Json}

abbrev pub settles_one : ℕ → Effect → ℕ
settles_one id (resolves n j) = if n == id then 1 else 0
settles_one id (rejects n f) = if n == id then 1 else 0
settles_one id spawns = 0
settles_one id kills = 0
settles_one id (writes_request n m p) = 0
settles_one id (writes_notification m) = 0
settles_one id (writes_result i r) = 0
settles_one id (writes_failure i) = 0
settles_one id (emits e) = 0

-- How often the request is resolved or rejected.
abbrev pub settles : ℕ → List Effect → ℕ
settles id [] = 0
settles id (e ∷ es) = settles_one id e + settles id es

pub settles-append :
    (id : ℕ) (es fs : List Effect) → settles id (es ++ fs) ≡ settles id es + settles id fs
settles-append id [] fs = omega arith
settles-append id (e ∷ es) fs = omega (arith, settles-append id es fs)

-- The settlements that are still to come: of a pending request, and of one that was not sent.
abbrev pub debt : JsMap ℕ String → ℕ → ℕ → ℕ
debt m next id = if has m id then 1 else if leb next id then 1 else 0

pub record IsValid (b : Bridge) : Type 0 where
  pub distinct : HasDistinctKeys b.pending_requests
  pub below : Every (λ id method. id < b.next_id) b.pending_requests

pub record Balance (id : ℕ) (b : Bridge) (r : Bridge × List Effect) : Type 0 where
  pub valid : IsValid r.0
  pub balanced :
      settles id r.1 + debt r.0.pending_requests r.0.next_id id
      ≡ debt b.pending_requests b.next_id id

-- A step that leaves the requests alone.
pub record Quiet (id : ℕ) (b : Bridge) (r : Bridge × List Effect) : Type 0 where
  pub same : r.0.pending_requests ≡ b.pending_requests
  pub same_next : r.0.next_id ≡ b.next_id
  pub silent : settles id r.1 ≡ 0

pub Quiet-Balance :
    (id : ℕ) (b : Bridge) (r : Bridge × List Effect) → IsValid b → Quiet id b r → Balance id b r
Quiet-Balance id b r v q = record {
  valid = record { distinct = rw q.same v.distinct; below = rw (q.same, q.same_next) v.below };
  balanced = rw (q.same, q.same_next, q.silent) (omega arith);
}

-- One step behind another.
pub Balance-trans :
    (id : ℕ) (b : Bridge) (r s : Bridge × List Effect)
    → Balance id b r
    → Balance id r.0 s
    → Balance id b (s.0, r.1 ++ s.1)
Balance-trans id b r s p q = record {
  valid = q.valid;
  balanced = omega (arith, settles-append id r.1 s.1, p.balanced, q.balanced);
}

-- An id that was not given out is not pending.
absent_of_le :
    (b : Bridge) (id : ℕ) → IsValid b → b.next_id ≤ id → has b.pending_requests id ≡ false
unfolding has
absent_of_le b id v h = elim (Option-cases (get b.pending_requests id)) [
  | inl none' ↦ rw none' refl
  | inr (m, found) ↦
      let small : id < b.next_id = Every-get _ b.pending_requests id m v.below found in
      absurd (omega arith)
]

Every-weaken :
    (m : JsMap ℕ String) (n : ℕ) → Every (λ id method. id < n) m → Every (λ id method. id < suc n) m
Every-weaken [] n h = tt
Every-weaken ((k, w) ∷ m) n (p, h) = (omega arith, Every-weaken m n h)

pub send_request-Balance :
    (id : ℕ) (b : Bridge) (method : String) (params : Option Json)
    → IsValid b
    → Balance id b ((send_request b method params).0, (send_request b method params).1)
unfolding send_request
send_request-Balance id b method params v = elim (Bool-cases (can_write b.process)) [
  | inr shut ↦
      rw shut (Quiet-Balance id b _ v (record { same = refl; same_next = refl; silent = refl }))
  | inl open' ↦ elim (Bool-cases (leb max_pending_requests (length b.pending_requests))) [
    | inl full ↦
        rw (open', full)
          (Quiet-Balance id b _ v (record { same = refl; same_next = refl; silent = refl }))
    | inr room ↦
        rw (open', room)
          (record {
            valid = record {
              distinct = set-HasDistinctKeys b.pending_requests b.next_id method v.distinct;
              below =
                  Every-set _ b.pending_requests b.next_id method
                    (Every-weaken b.pending_requests b.next_id v.below) (omega arith);
            };
            balanced = ground (
              arith,
              has-set b.pending_requests b.next_id id method,
              absent_of_le b id v,
              nat_eq.beq_iff b.next_id id,
            );
          })
  ]
]

-- A pending request is settled: it leaves the map.
pub settled-Balance :
    (id n : ℕ) (b : Bridge) (e : Effect)
    → IsValid b
    → has b.pending_requests n ≡ true
    → settles_one id e ≡ (if n == id then 1 else 0)
    → Balance id b (record b { pending_requests = delete b.pending_requests n }, e ∷ [])
settled-Balance id n b e v there single = record {
  valid = record {
    distinct = delete-HasDistinctKeys b.pending_requests n v.distinct;
    below = Every-delete _ b.pending_requests n v.below;
  };
  balanced = ground (
    arith,
    single,
    there,
    has-delete b.pending_requests n id,
    absent_of_le b id v,
    nat_eq.beq_iff n id,
  );
}

settles-reject_each :
    (id : ℕ) (failure : Failure) (m : JsMap ℕ String)
    → HasDistinctKeys m
    → settles id (reject_each failure m) ≡ (if has m id then 1 else 0)
unfolding has get
settles-reject_each id failure [] h = refl
settles-reject_each id failure ((k, w) ∷ m) (new, h) =
    ground (arith, settles-reject_each id failure m h, nat_eq.beq_iff k id)

pub reject_all-Balance :
    (id : ℕ) (b : Bridge) (failure : Failure) → IsValid b → Balance id b (reject_all b failure)
unfolding reject_all has get
reject_all-Balance id b failure v = record {
  valid = record { distinct = tt; below = tt };
  balanced =
      ground
        (arith, settles-reject_each id failure b.pending_requests v.distinct, absent_of_le b id v);
}
