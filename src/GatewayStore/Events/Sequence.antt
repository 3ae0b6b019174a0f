-- ===== src/GatewayStore/Events/Sequence.antt =====
-- The numbers that `appendEvent` gives out.
use code_harbor.Common.{
  Bool, Bool-cases, List, Option, String, [], ap, arith, false, if◌then◌else◌, inl, inr, nat_eq,
  none, not, or_else, refl, some, string_eq, subst, sym, true, truthy, ℕ, ◌&&◌, ◌<◌, ◌==◌, ◌∙◌, ◌∷◌,
  ◌≡◌, ◌⊎◌,
}
use code_harbor.Common.JsMap.{has}
use code_harbor.GatewayStore.Events.{append_event, append_owned, append_to, assign_seq, latest_seq}
use code_harbor.GatewayStore.Events.Latest.{
  IsCold, append_to-absent, append_to-latest, append_to-read, assign_seq-lt, latest_known,
  latest_seq-known,
}
use code_harbor.GatewayStore.State.{Store}
use code_harbor.GatewayStore.Timeline.{belongs}
use code_harbor.GatewayStore.Timeline.Order.{RisesFrom}
use code_harbor.GatewayStore.Types.{GatewayMessage, SessionTimelineEntry, seq_of}

append_to-numbered :
    (st : Store) (id : String) (message : GatewayMessage)
    → (seq : ℕ) × ((append_to st id message).1.event_seq ≡ some seq)
unfolding append_to
append_to-numbered st id message =
    (assign_seq message.event_seq (or_else (latest_seq st id).1 0), refl)

append_to-above :
    (st : Store) (owner id : String) (message : GatewayMessage) (seq : ℕ)
    → (owner == id) ≡ true
    → (append_to st owner message).1.event_seq ≡ some seq
    → IsCold st id
    → latest_known st id < seq
unfolding append_to
append_to-above st owner id message seq same numbered cold =
    let e : owner ≡ id = (string_eq.beq_iff owner id).0 same in
    let current = (latest_seq st owner).1 in
    let above = assign_seq-lt message.event_seq (or_else current 0) in
    let known = latest_seq-known st owner (subst (IsCold st) (sym e) cold) in
    let own : latest_known st owner ≡ latest_known st id = ap (latest_known st) e in
    ground (arith, above, known, own, numbered)

append_owned_split :
    (st : Store) (message : GatewayMessage) (owner : Option String)
    → (append_owned st message owner ≡ (st, none))
      ⊎ ((id : String) × (owner ≡ some id)
          × (append_owned st message owner
              ≡ ((append_to st id message).0, some (append_to st id message).1)))
unfolding append_owned
append_owned_split st message none = inl refl
append_owned_split st message (some id) =
    elim (Bool-cases (truthy id && not (has st.deleted_sessions id))) [
      | inl open' ↦ inr (id, refl, rw open')
      | inr shut ↦ inl (rw shut)
    ]

-- An event is dropped and nothing changes, or it is appended to its session.
pub append_event_split :
    (st : Store) (message : GatewayMessage)
    → (append_event st message ≡ (st, none))
      ⊎ ((id : String) × (message.session_id ≡ some id)
          × (append_event st message
              ≡ ((append_to st id message).0, some (append_to st id message).1)))
unfolding append_event
append_event_split st message = append_owned_split st message message.session_id

append_to-owner :
    (st : Store) (id : String) (message : GatewayMessage)
    → (append_to st id message).1.session_id ≡ message.session_id
unfolding append_to
append_to-owner st id message = refl

abbrev pub to_entry : GatewayMessage → SessionTimelineEntry
to_entry message = record { message = message }

abbrev pub cons_if :
    Bool → SessionTimelineEntry → List SessionTimelineEntry → List SessionTimelineEntry
cons_if b e later = if b then e ∷ later else later

abbrev pub with_result :
    String → Option GatewayMessage → List SessionTimelineEntry → List SessionTimelineEntry
with_result id none later = later
with_result id (some p) later = cons_if (belongs id (to_entry p)) (to_entry p) later

-- The entries of one session that a row of calls of `appendEvent` makes, in order.
pub appended : String → Store → List GatewayMessage → List SessionTimelineEntry
appended id st [] = []
appended id st (message ∷ rest) =
    with_result id (append_event st message).1 (appended id (append_event st message).0 rest)

-- The timeline goes on to rise behind the result of one call.
module _ (n seq : ℕ) (id owner : String) (p : GatewayMessage) (later : List SessionTimelineEntry)
    (named : p.session_id ≡ some owner) where
  rises_own :
      (owner == id) ≡ true
      → p.event_seq ≡ some seq
      → n < seq
      → RisesFrom seq later
      → RisesFrom n (with_result id (some p) later)
  rises_own same numbered above h =
      let mine : belongs id (to_entry p) ≡ true = ground (arith, named, same) in
      let at_seq : seq ≡ seq_of (to_entry p) = ground (arith, numbered) in
      subst (λ b. RisesFrom n (cons_if b (to_entry p) later)) (sym mine)
        (
          ground (arith, numbered),
          ground (arith, above, at_seq),
          subst (λ k. RisesFrom k later) at_seq h,
        )

  rises_other :
      (owner == id) ≡ false → RisesFrom n later → RisesFrom n (with_result id (some p) later)
  rises_other other h =
      let foreign : belongs id (to_entry p) ≡ false = ground (arith, named, other) in
      subst (λ b. RisesFrom n (cons_if b (to_entry p) later)) (sym foreign) h

-- What one event does to the latest number of a session.
module _ (id owner : String) (st : Store) (message : GatewayMessage) where
  append_to-IsCold :
      (seq : ℕ)
      → (append_to st owner message).1.event_seq ≡ some seq
      → IsCold st id
      → IsCold (append_to st owner message).0 id
  append_to-IsCold seq numbered cold none' = elim (Bool-cases (owner == id)) [
    | inl same ↦
        absurd (ground (arith, append_to-latest st owner id message, none', numbered, same))
    | inr apart ↦
        append_to-absent id st owner message apart
          (cold (ground (arith, append_to-latest st owner id message, none', apart)))
  ]

  append_to-known :
      (seq : ℕ)
      → (append_to st owner message).1.event_seq ≡ some seq
      → latest_known (append_to st owner message).0 id
        ≡ (if owner == id then seq else latest_known st id)
  append_to-known seq numbered = elim (Bool-cases (owner == id)) [
    | inl same ↦ rw (append_to-latest st owner id message, same, numbered) refl
    | inr apart ↦
        rw (append_to-latest st owner id message, apart, append_to-read st owner id message) refl
  ]

pub appended-RisesFrom :
    (id : String) (st : Store) (messages : List GatewayMessage)
    → IsCold st id
    → RisesFrom (latest_known st id) (appended id st messages)
unfolding appended
appended-RisesFrom id st [] cold = tt
appended-RisesFrom id st (message ∷ rest) cold = elim (append_event_split st message) [
  | inl dropped ↦ at_result (sym dropped) (appended-RisesFrom id st rest cold)
  | inr (owner, own, taken) ↦
      let (seq, numbered) = append_to-numbered st owner message in
      at_result (sym taken) (
        goes_on owner seq own numbered (
          appended-RisesFrom id (append_to st owner message).0 rest
            (append_to-IsCold id owner st message seq numbered cold)))
]
  where
    at_result :
        {x y : Store × Option GatewayMessage}
        → x ≡ y
        → RisesFrom (latest_known st id) (with_result id x.1 (appended id x.0 rest))
        → RisesFrom (latest_known st id) (with_result id y.1 (appended id y.0 rest))
    at_result e =
        subst (λ z. RisesFrom (latest_known st id) (with_result id z.1 (appended id z.0 rest))) e

    goes_on :
        (owner : String) (seq : ℕ)
        → message.session_id ≡ some owner
        → (append_to st owner message).1.event_seq ≡ some seq
        → RisesFrom
            (latest_known (append_to st owner message).0 id)
            (appended id (append_to st owner message).0 rest)
        → RisesFrom (latest_known st id) (
            with_result id
              (some (append_to st owner message).1)
              (appended id (append_to st owner message).0 rest))
    goes_on owner seq own numbered ih =
        let (st', p) = append_to st owner message in
        let known = append_to-known id owner st message seq numbered in
        let named = append_to-owner st owner message ∙ own in
        elim (Bool-cases (owner == id)) [
          | inl same ↦
              let e : latest_known st' id ≡ seq = ground (arith, known, same) in
              rises_own (latest_known st id) seq id owner p (appended id st' rest) named same
                numbered (append_to-above st owner id message seq same numbered cold)
                (subst (λ k. RisesFrom k (appended id st' rest)) e ih)
          | inr other ↦
              let e : latest_known st' id ≡ latest_known st id = ground (arith, known, other) in
              rises_other (latest_known st id) seq id owner p (appended id st' rest) named other
                (subst (λ k. RisesFrom k (appended id st' rest)) e ih)
        ]
