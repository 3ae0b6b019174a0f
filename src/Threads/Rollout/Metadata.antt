-- ===== src/Threads/Rollout/Metadata.antt =====
-- The times of a thread, as its rollout file gives them.
use code_harbor.Common.{
  Bool-cases, List, Option, String, [], ap, arith, false, inl, inr, length, ltb, none, not, or_else,
  refl, some, suc, ℕ, ◌&&◌, ◌+◌, ◌∙◌, ◌∷◌, ◌≡◌, ◌≤◌,
}
use code_harbor.Common.Json.{Json}
use code_harbor.Threads.Index.{RolloutMetadata, no_metadata}
use code_harbor.Threads.Rollout.{
  is_given, is_type, is_user_message, metadata_from, note_entry, note_preview, note_session,
  note_time, read_rollout_metadata, timestamp_of,
}

-- The times of the lines, in order.
abbrev pub times : (String → Option ℕ) → List (Option Json) → List (Option ℕ)
times parse_date [] = []
times parse_date (none ∷ lines) = none ∷ times parse_date lines
times parse_date (some event ∷ lines) = timestamp_of parse_date event ∷ times parse_date lines

abbrev pub first_time : Option ℕ → List (Option ℕ) → Option ℕ
first_time found [] = found
first_time found (none ∷ ts) = first_time found ts
first_time found (some t ∷ ts) = first_time (some (or_else found t)) ts

abbrev pub last_time : Option ℕ → List (Option ℕ) → Option ℕ
last_time found [] = found
last_time found (none ∷ ts) = last_time found ts
last_time found (some t ∷ ts) = last_time (some t) ts

module _ (parse_date : String → Option ℕ) where
  note_time-times :
      (meta : RolloutMetadata) (t : Option ℕ) (ts : List (Option ℕ))
      → (first_time (note_time parse_date meta t).meta_created_at_ms ts
          ≡ first_time meta.meta_created_at_ms (t ∷ ts))
        × (last_time (note_time parse_date meta t).meta_updated_at_ms ts
            ≡ last_time meta.meta_updated_at_ms (t ∷ ts))
  note_time-times meta none ts = (refl, refl)
  note_time-times meta (some t) ts = (refl, refl)

  note_session-times :
      (meta : RolloutMetadata) (event : Json)
      → ((note_session parse_date meta event).meta_created_at_ms ≡ meta.meta_created_at_ms)
        × ((note_session parse_date meta event).meta_updated_at_ms ≡ meta.meta_updated_at_ms)
  note_session-times meta event = elim (Bool-cases (is_type event "session_meta")) [
    | inl yes' ↦ rw yes' (refl, refl)
    | inr no' ↦ rw no' (refl, refl)
  ]

  note_preview-times :
      (meta : RolloutMetadata) (event : Json)
      → ((note_preview parse_date meta event).meta_created_at_ms ≡ meta.meta_created_at_ms)
        × ((note_preview parse_date meta event).meta_updated_at_ms ≡ meta.meta_updated_at_ms)
  note_preview-times meta event =
      elim (Bool-cases
        (not (is_given parse_date meta.meta_preview) && is_user_message parse_date event)) [
          | inl yes' ↦ rw yes' (refl, refl)
          | inr no' ↦ rw no' (refl, refl)
        ]

  -- The times after one more line.
  pub note_entry-times :
      (meta : RolloutMetadata) (event : Json) (ts : List (Option ℕ))
      → (first_time (note_entry parse_date meta event).meta_created_at_ms ts
          ≡ first_time meta.meta_created_at_ms (timestamp_of parse_date event ∷ ts))
        × (last_time (note_entry parse_date meta event).meta_updated_at_ms ts
            ≡ last_time meta.meta_updated_at_ms (timestamp_of parse_date event ∷ ts))
  note_entry-times meta event ts =
      let timed = note_time parse_date meta (timestamp_of parse_date event) in
      let named = note_session parse_date timed event in
      let p = note_preview-times named event in
      let q = note_session-times timed event in
      let (c, u) = note_time-times meta (timestamp_of parse_date event) ts in
      (ap (λ t. first_time t ts) (p.0 ∙ q.0) ∙ c, ap (λ t. last_time t ts) (p.1 ∙ q.1) ∙ u)

  metadata_from-times :
      (index : ℕ) (meta : RolloutMetadata) (lines : List (Option Json))
      → index + length lines ≤ 81
      → ((metadata_from parse_date index meta lines).meta_created_at_ms
          ≡ first_time meta.meta_created_at_ms (times parse_date lines))
        × ((metadata_from parse_date index meta lines).meta_updated_at_ms
            ≡ last_time meta.meta_updated_at_ms (times parse_date lines))
  unfolding metadata_from
  metadata_from-times index meta [] h = (refl, refl)
  metadata_from-times index meta (none ∷ lines) h =
      metadata_from-times (suc index) meta lines (omega arith)
  metadata_from-times index meta (some event ∷ lines) h =
      let next = note_entry parse_date meta event in
      let early : ltb 80 index ≡ false = ground arith in
      let (c, u) = metadata_from-times (suc index) next lines (omega arith) in
      let (c', u') = note_entry-times meta event (times parse_date lines) in
      rw early (c ∙ c', u ∙ u')

-- In a rollout file of at most 81 lines, the time of creation is the first time that a line bears and
-- the time of the last update is the last one; lines that do not parse or bear no date do not count.
pub read_rollout_metadata-times :
    (parse_date : String → Option ℕ) (lines : List (Option Json))
    → length lines ≤ 81
    → ((read_rollout_metadata parse_date lines).meta_created_at_ms
        ≡ first_time none (times parse_date lines))
      × ((read_rollout_metadata parse_date lines).meta_updated_at_ms
          ≡ last_time none (times parse_date lines))
unfolding read_rollout_metadata
read_rollout_metadata-times parse_date lines h =
    metadata_from-times parse_date 0 no_metadata lines (omega (arith, h))
