-- ===== src/Threads/Index/Pages.antt =====
-- The pages of the listing of threads.
use code_harbor.Common.{
  All, Bool, Bool-cases, List, Option, String, [], arith, drop, false, inl, inr, keep, length,
  length-take-le, ltb, nat_eq, not, refl, some, string_eq, subst, suc, take, true, zero, ℕ, ◌<◌,
  ◌==◌, ◌∙◌, ◌∷◌, ◌≡◌, ◌≤◌,
}
use code_harbor.Common.Json.{Json}
use code_harbor.Threads.Index.{
  RolloutMetadata, ThreadSummary, comes_first, index_threads, insert_thread, is_before,
  last_updated, list_threads_from_index, safe_thread_limit, sort_threads, thread_page,
}

abbrev pub AllUpTo : ℕ → List ThreadSummary → Type 0
AllUpTo n = All (λ t. t.updated_at_ms ≤ n)

-- The newest first.
abbrev pub Falls : List ThreadSummary → Type 0
Falls [] = Unit
Falls (t ∷ ts) = AllUpTo t.updated_at_ms ts × Falls ts

AllUpTo-weaken : (m n : ℕ) (ts : List ThreadSummary) → m ≤ n → AllUpTo m ts → AllUpTo n ts
AllUpTo-weaken m n [] h k = tt
AllUpTo-weaken m n (t ∷ ts) h (p, k) = (omega arith, AllUpTo-weaken m n ts h k)

module _ (rollout : String → Option RolloutMetadata) (parse_date : String → Option ℕ)
    (id_before : String → String → Bool) where
  insert_thread-All :
      (P : ThreadSummary → Type 0) (s : ThreadSummary) (ts : List ThreadSummary)
      → P s
      → All P ts
      → All P (insert_thread rollout parse_date id_before s ts)
  unfolding insert_thread
  insert_thread-All P s [] p h = (p, tt)
  insert_thread-All P s (t ∷ ts) p (q, h) =
      elim (Bool-cases (comes_first rollout parse_date id_before s t)) [
        | inl first ↦ rw first (p, (q, h))
        | inr later ↦ rw later (q, insert_thread-All P s ts p h)
      ]

  insert_thread-Falls :
      (s : ThreadSummary) (ts : List ThreadSummary)
      → Falls ts
      → Falls (insert_thread rollout parse_date id_before s ts)
  unfolding insert_thread
  insert_thread-Falls s [] h = (tt, tt)
  insert_thread-Falls s (t ∷ ts) (q, h) =
      elim (Bool-cases (comes_first rollout parse_date id_before s t)) [
        | inl first ↦
            let le : t.updated_at_ms ≤ s.updated_at_ms = ground (arith, first) in
            rw first ((le, AllUpTo-weaken t.updated_at_ms s.updated_at_ms ts le q), (q, h))
        | inr later ↦
            let le : s.updated_at_ms ≤ t.updated_at_ms = ground (arith, later) in
            rw later (
              insert_thread-All (λ u. u.updated_at_ms ≤ t.updated_at_ms) s ts le q,
              insert_thread-Falls s ts h,
            )
      ]

  sort_threads-Falls :
      (sorted ts : List ThreadSummary)
      → Falls sorted
      → Falls (sort_threads rollout parse_date id_before sorted ts)
  unfolding sort_threads
  sort_threads-Falls sorted [] h = h
  sort_threads-Falls sorted (t ∷ ts) h =
      sort_threads-Falls (insert_thread rollout parse_date id_before t sorted) ts
        (insert_thread-Falls t sorted h)

  sort_threads-All :
      (P : ThreadSummary → Type 0) (sorted ts : List ThreadSummary)
      → All P sorted
      → All P ts
      → All P (sort_threads rollout parse_date id_before sorted ts)
  unfolding sort_threads
  sort_threads-All P sorted [] h k = h
  sort_threads-All P sorted (t ∷ ts) h (p, k) =
      sort_threads-All P (insert_thread rollout parse_date id_before t sorted) ts
        (insert_thread-All P t sorted p h) k

-- Nothing of what starts a list is lost in its front.
take-All :
    (P : ThreadSummary → Type 0) (n : ℕ) (ts : List ThreadSummary) → All P ts → All P (take n ts)
take-All P zero ts h = tt
take-All P (suc n) [] h = tt
take-All P (suc n) (t ∷ ts) (p, h) = (p, take-All P n ts h)

take-Falls : (n : ℕ) (ts : List ThreadSummary) → Falls ts → Falls (take n ts)
take-Falls zero ts h = tt
take-Falls (suc n) [] h = tt
take-Falls (suc n) (t ∷ ts) (q, h) = (take-All _ n ts q, take-Falls n ts h)

keep-satisfies :
    (p : ThreadSummary → Bool) (ts : List ThreadSummary) → All (λ t. p t ≡ true) (keep p ts)
keep-satisfies p [] = tt
keep-satisfies p (t ∷ ts) = elim (Bool-cases (p t)) [
  | inl kept ↦ rw kept (kept, keep-satisfies p ts)
  | inr gone ↦ rw gone (keep-satisfies p ts)
]

-- A listing has the newest threads first, at most as many as asked for and 100, and only threads from
-- before its cursor.
list_threads_from_index-Falls :
    (rollout : String → Option RolloutMetadata) (parse_date : String → Option ℕ)
    (id_before : String → String → Bool) (now limit cursor : ℕ) (lines : List (Option Json))
    → let page = list_threads_from_index rollout parse_date id_before now limit cursor lines in
      Falls page.page_data
      × (length page.page_data ≤ safe_thread_limit limit)
      × (safe_thread_limit limit ≤ 100)
      × All (λ t. is_before rollout parse_date id_before cursor t ≡ true) page.page_data
unfolding list_threads_from_index thread_page
list_threads_from_index-Falls rollout parse_date id_before now limit cursor lines =
    let n = safe_thread_limit limit in
    let p = is_before rollout parse_date id_before cursor in
    let ts = index_threads rollout parse_date id_before now lines in
    let sorted = sort_threads rollout parse_date id_before [] (keep p ts) in
    (
      take-Falls n sorted (sort_threads-Falls rollout parse_date id_before [] (keep p ts) tt),
      length-take-le n sorted,
      ground arith,
      take-All (λ t. p t ≡ true) n sorted
          (sort_threads-All rollout parse_date id_before (λ t. p t ≡ true) [] (keep p ts) tt
            (keep-satisfies p ts)),
    )

-- None of the threads is newer than the one in front, and the last of a page is the oldest of it.
last_updated-step :
    (n : ℕ) (t u : ThreadSummary) (ts : List ThreadSummary)
    → last_updated (take (suc (suc n)) (t ∷ u ∷ ts)) ≡ last_updated (take (suc n) (u ∷ ts))
last_updated-step n t u ts = refl

keep_older :
    (c : ℕ) (ts : List ThreadSummary)
    → AllUpTo c ts
    → keep (λ t. ltb t.updated_at_ms c) ts ≡ keep (λ t. not (t.updated_at_ms == c)) ts
keep_older c [] h = refl
keep_older c (t ∷ ts) (p, h) = ground (arith, keep_older c ts h)

last-le :
    (n c : ℕ) (t : ThreadSummary) (ts : List ThreadSummary)
    → Falls (t ∷ ts)
    → last_updated (take (suc n) (t ∷ ts)) ≡ some c
    → c ≤ t.updated_at_ms
last-le zero c t ts h e = ground arith
last-le (suc n) c t [] h e = ground arith
last-le (suc n) c t (u ∷ ts) (p, h) e = omega (arith, last-le n c u ts h e, p.0)

keep-drop :
    (n c : ℕ) (t : ThreadSummary) (ts : List ThreadSummary)
    → Falls (t ∷ ts)
    → last_updated (take (suc n) (t ∷ ts)) ≡ some c
    → keep (λ u. ltb u.updated_at_ms c) (t ∷ ts)
      ≡ keep (λ u. not (u.updated_at_ms == c)) (drop (suc n) (t ∷ ts))
keep-drop zero c t ts (p, h) e =
    let same : t.updated_at_ms ≡ c = ground arith in
    ground (arith, same, keep_older c ts (subst (λ n. AllUpTo n ts) same p))
keep-drop (suc n) c t [] h e = ground arith
keep-drop (suc n) c t (u ∷ ts) (p, h) e =
    let low = last-le (suc n) c t (u ∷ ts) (p, h) e in ground (arith, low, keep-drop n c u ts h e)

keep_before :
    (rollout : String → Option RolloutMetadata) (parse_date : String → Option ℕ)
    (id_before : String → String → Bool) (c : ℕ) (ts : List ThreadSummary)
    → (c == 0) ≡ false
    → keep (is_before rollout parse_date id_before c) ts ≡ keep (λ t. ltb t.updated_at_ms c) ts
keep_before rollout parse_date id_before c [] h = refl
keep_before rollout parse_date id_before c (t ∷ ts) h =
    ground (arith, keep_before rollout parse_date id_before c ts h)

before-All :
    (rollout : String → Option RolloutMetadata) (parse_date : String → Option ℕ)
    (id_before : String → String → Bool) (c : ℕ) (ts : List ThreadSummary)
    → (c == 0) ≡ false
    → All (λ t. is_before rollout parse_date id_before c t ≡ true) ts
    → All (λ t. (t.updated_at_ms == c) ≡ false) ts
before-All rollout parse_date id_before c [] h all = tt
before-All rollout parse_date id_before c (t ∷ ts) h (p, all) =
    (ground arith, before-All rollout parse_date id_before c ts h all)

older_rows :
    (limit c : ℕ) (rows : List ThreadSummary)
    → 0 < limit
    → Falls rows
    → (thread_page limit rows).page_cursor ≡ some c
    → keep (λ t. ltb t.updated_at_ms c) rows
      ≡ keep (λ t. not (t.updated_at_ms == c)) (drop limit rows)
unfolding thread_page
older_rows zero c rows p h e = absurd (omega arith)
older_rows (suc n) c [] p h e = refl
older_rows (suc n) c (t ∷ ts) p h e = elim (Bool-cases (ltb (suc n) (length (t ∷ ts)))) [
  | inl more ↦ keep-drop n c t ts h (rw more at e)
  | inr last ↦ absurd (ground (arith, rw last at e))
]

-- Of threads that are listed with the newest first, the code's filter for the next page, with the
-- cursor of a page that is not 0, keeps the threads behind the page without those that have the
-- cursor's time themselves; and whatever the index holds, no listing with this cursor has a thread of
-- that time. So a thread that was updated in the same millisecond as the last one of a page, and did
-- not fit on that page, is on no later page.
pub keep-thread_page :
    (rollout : String → Option RolloutMetadata) (parse_date : String → Option ℕ)
    (id_before : String → String → Bool) (limit c now limit' : ℕ) (rows : List ThreadSummary)
    (lines : List (Option Json))
    → 0 < limit
    → (c == 0) ≡ false
    → Falls rows
    → (thread_page limit rows).page_cursor ≡ some c
    → (keep (is_before rollout parse_date id_before c) rows
        ≡ keep (λ t. not (t.updated_at_ms == c)) (drop limit rows))
      × All
          (λ t. (t.updated_at_ms == c) ≡ false)
          (list_threads_from_index rollout parse_date id_before now limit' c lines).page_data
keep-thread_page rollout parse_date id_before limit c now limit' rows lines some' set' falls at =
    let page = list_threads_from_index rollout parse_date id_before now limit' c lines in
    let listed = list_threads_from_index-Falls rollout parse_date id_before now limit' c lines in
    (
      keep_before rollout parse_date id_before c rows set' ∙ older_rows limit c rows some' falls at,
      before-All rollout parse_date id_before c page.page_data set' listed.3,
    )
