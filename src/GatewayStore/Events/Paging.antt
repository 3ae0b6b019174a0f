-- ===== src/GatewayStore/Events/Paging.antt =====
-- Pages of a timeline: nothing is lost and nothing comes twice.
use code_harbor.Common.{
  Bool-cases, List, [], ap, arith, drop, false, inl, inr, length, length-take-le, ltb, or_else,
  refl, suc, take, zero, ℕ, ◌++◌, ◌<◌, ◌∙◌, ◌∷◌, ◌≡◌, ◌≢◌, ◌≤◌, ◌⊎◌,
}
use code_harbor.GatewayStore.Events.{after_cursor, last_seq, page_of, safe_limit}
use code_harbor.GatewayStore.Timeline.Order.{RisesFrom}
use code_harbor.GatewayStore.Types.{SessionTimelineEntry, seq_of}

after_cursor_below :
    (m n : ℕ) (es : List SessionTimelineEntry) → m ≤ n → RisesFrom n es → after_cursor m es ≡ es
after_cursor_below m n [] le h = refl
after_cursor_below m n (e ∷ es) le (has_seq, above, h) =
    ground (arith, after_cursor_below m (seq_of e) es)

seq-le-last_seq :
    (k c d : ℕ) (e : SessionTimelineEntry) (es : List SessionTimelineEntry)
    → RisesFrom c (e ∷ es)
    → seq_of e ≤ or_else (last_seq (e ∷ take k es)) d
seq-le-last_seq zero c d e es h = ground (arith, h.0)
seq-le-last_seq (suc k) c d e [] h = ground (arith, h.0)
seq-le-last_seq (suc k) c d e (f ∷ fs) h =
    omega (arith, seq-le-last_seq k (seq_of e) d f fs h.2, h.2.1)

after_last_of_page :
    (k c d : ℕ) (e : SessionTimelineEntry) (es : List SessionTimelineEntry)
    → RisesFrom c (e ∷ es)
    → after_cursor (or_else (last_seq (e ∷ take k es)) d) (e ∷ es) ≡ drop k es
after_last_of_page zero c d e es h =
    ground (arith, h.0, after_cursor_below (seq_of e) (seq_of e) es (omega arith) h.2)
after_last_of_page (suc k) c d e [] h = ground (arith, h.0)
after_last_of_page (suc k) c d e (f ∷ fs) h =
    let last = or_else (last_seq (f ∷ take k fs)) d in
    let below : ltb last (seq_of e) ≡ false =
      ground (arith, seq-le-last_seq k (seq_of e) d f fs h.2, h.2.1) in
    rw below (after_last_of_page k (seq_of e) d f fs h.2)

take-append-drop {ℓ} : {A : Type ℓ} (n : ℕ) (xs : List A) → take n xs ++ drop n xs ≡ xs
take-append-drop zero xs = refl
take-append-drop (suc n) [] = refl
take-append-drop (suc n) (x ∷ xs) = ap (◌∷◌ x) (take-append-drop n xs)

take_all {ℓ} : {A : Type ℓ} (n : ℕ) (xs : List A) → length xs ≤ n → take n xs ≡ xs
take_all zero [] h = refl
take_all zero (x ∷ xs) h = absurd (omega arith)
take_all (suc n) [] h = refl
take_all (suc n) (x ∷ xs) h = ap (◌∷◌ x) (take_all n xs (omega arith))

page-eq-take :
    (entries : List SessionTimelineEntry) (cursor limit : ℕ)
    → (page_of entries cursor limit).entries ≡ take (safe_limit limit) entries
unfolding page_of
page-eq-take entries cursor limit = ground (arith, take_all (safe_limit limit) entries)

take_resume :
    (n cursor : ℕ) (entries : List SessionTimelineEntry)
    → RisesFrom cursor entries
    → 0 < n
    → (take n entries ++ after_cursor (or_else (last_seq (take n entries)) cursor) entries
        ≡ entries)
      × ((entries ≢ []) → cursor < or_else (last_seq (take n entries)) cursor)
take_resume zero cursor entries h p = absurd (omega arith)
take_resume (suc k) cursor [] h p = (refl, λ ne. absurd (ne refl))
take_resume (suc k) cursor (e ∷ es) h p = (
  ap (◌++◌ (take (suc k) (e ∷ es))) (after_last_of_page k cursor cursor e es h)
      ∙ take-append-drop (suc k) (e ∷ es),
  λ ne. omega (arith, seq-le-last_seq k cursor cursor e es h, h.1),
)

pub page_of-resume :
    (entries : List SessionTimelineEntry) (cursor limit : ℕ)
    → RisesFrom cursor entries
    → ((page_of entries cursor limit).entries
          ++ after_cursor (page_of entries cursor limit).next_cursor entries
        ≡ entries)
      × (length (page_of entries cursor limit).entries ≤ safe_limit limit)
      × (safe_limit limit ≤ 5_000)
      × (((page_of entries cursor limit).truncated ≡ false)
          ⊎ (cursor < (page_of entries cursor limit).next_cursor))
unfolding page_of
page_of-resume entries cursor limit h =
    let n = safe_limit limit in
    let (all, forward) = take_resume n cursor entries h (ground arith) in
    let same = page-eq-take entries cursor limit in
    (
      rw same all,
      rw same (length-take-le n entries),
      ground arith,
      elim (Bool-cases (page_of entries cursor limit).truncated) [
        | inl truncated ↦ inr (rw same (forward (λ empty. ground arith)))
        | inr last ↦ inl last
      ],
    )
