-- ===== src/WebClient/Histories/Order.antt =====
-- useCodeHarbor.ts, onmessage: the order in which the events of a session are shown.
use code_harbor.Common.{
  Bool, Bool-cases, Option, String, ap, arith, false, if◌then◌else◌, inl, inr, leb, length, ltb,
  nat_eq, none, refl, some, string_eq, subst, suc, sym, true, truthy, ℕ, ◌+◌, ◌==◌, ◌||◌, ◌∙◌, ◌≡◌,
  ◌≤◌, ◌⊎◌,
}
use code_harbor.Common.Json.{Json, field, text_field}
use code_harbor.WebClient.Fields.{as_number, event_session_id, is_text, number_in, numbered}
use code_harbor.WebClient.Histories.Cursors.{cursor, save_cursor-at, save_cursor-other}
use code_harbor.WebClient.Histories.Frames.{core, schedule-core}
use code_harbor.WebClient.Messages.{
  event_key, is_seen, record_event, request_key, save_numbered, show_event, take_next,
  take_numbered,
}
use code_harbor.WebClient.State.{
  WebClient, cursor_of, save_cursor, schedule_gap_recovery, store_cursors,
}

abbrev own : String → Option (String × ℕ) → Option ℕ
own id none = none
own id (some (k, seq)) = if k == id then some seq else none

-- Why the cursor of a session may move: an event is shown; a numbered event says again what is shown
-- already; a resume or a load has brought the events up to a later one; and otherwise not at all.
pub data Change : Type 0 where
  shows : ℕ → Change
  echoes jumps rests : Change

-- From n to m: to the event that is shown, which is the very next; to the very next or not at all;
-- forward; and not at all.
abbrev pub Moves : ℕ → ℕ → Change → Type 0
Moves n m (shows seq) = (seq ≡ suc n) × (m ≡ seq)
Moves n m echoes = (m ≡ n) ⊎ (m ≡ suc n)
Moves n m jumps = n ≤ m
Moves n m rests = m ≡ n

abbrev by_shown : Option ℕ → Change
by_shown none = rests
by_shown (some seq) = shows seq

abbrev by_known : Option ℕ → Bool → Change
by_known none known = rests
by_known (some seq) known = if known then echoes else rests

abbrev Next : WebClient → Option (String × ℕ) → Type 0
Next c none = Unit
Next c (some (k, seq)) = (truthy k ≡ true) × (seq ≡ suc (cursor k c))

pub save_cursor-revision :
    (c : WebClient) (k : String) (seq : ℕ) → (save_cursor c k seq).live_revision ≡ c.live_revision
unfolding save_cursor store_cursors
save_cursor-revision c k seq = ground arith

save_numbered-revision :
    (c : WebClient) (o : Option (String × ℕ)) → (save_numbered c o).live_revision ≡ c.live_revision
save_numbered-revision c none = refl
save_numbered-revision c (some (k, seq)) = save_cursor-revision c k seq

save_numbered-shown :
    (id : String) (c : WebClient) (o : Option (String × ℕ))
    → suc (length c.cursors) ≤ 10_000
    → Next c o
    → Moves (cursor id c) (cursor id (save_numbered c o)) (by_shown (own id o))
save_numbered-shown id c none h next = refl
save_numbered-shown id c (some (k, seq)) h (t, next) = elim (Bool-cases (k == id)) [
  | inl is ↦
      let e : k ≡ id = (string_eq.beq_iff k id).0 is in
      let t' : truthy id ≡ true = subst (λ x. truthy x ≡ true) e t in
      let n' : seq ≡ suc (cursor id c) = subst (λ x. seq ≡ suc (cursor x c)) e next in
      let at : cursor id (save_cursor c id seq) ≡ seq =
        save_cursor-at id c seq h t' (omega arith) in
      rw is (n', subst (λ x. cursor id (save_cursor c x seq) ≡ seq) (sym e) at)
  | inr isnt ↦ rw isnt (save_cursor-other id c k seq h isnt)
]

-- What is known already moves the cursor by one.
save_numbered-known :
    (id : String) (c : WebClient) (o : Option (String × ℕ))
    → suc (length c.cursors) ≤ 10_000
    → Next c o
    → Moves (cursor id c) (cursor id (save_numbered c o)) (by_known (own id o) true)
save_numbered-known id c o h next = weaken (own id o) (save_numbered-shown id c o h next)
  where
    weaken :
        (p : Option ℕ)
        → Moves (cursor id c) (cursor id (save_numbered c o)) (by_shown p)
        → Moves (cursor id c) (cursor id (save_numbered c o)) (by_known p true)
    weaken none m = m
    weaken (some seq) (e, f) = inr (f ∙ e)

number_in-truthy :
    (id k : String) (o : Option ℕ) (seq : ℕ) → number_in id o ≡ some (k, seq) → truthy k ≡ true
number_in-truthy id k none seq h = cc
number_in-truthy id k (some n) seq h = ground arith

module _ (show : ℕ → String) (parse_body : String → Option Json) where
  -- One of the keys of the message is among the keys of what is shown.
  abbrev is_known : WebClient → Json → Bool
  is_known c message =
      is_seen c (request_key message) || is_seen c (event_key show parse_body message)

  -- What a message that came to c, and made it c', may do to the cursor of the session: the number of
  -- the revisions of c' tells whether it was shown.
  abbrev pub change_by : String → WebClient → WebClient → Json → Change
  change_by id c c' message =
      if is_text (text_field message "type") "resume-complete"
      then jumps
      else if c'.live_revision == c.live_revision
      then by_known (own id (numbered message)) (is_known c message)
      else by_shown (own id (numbered message))

  abbrev pub IsInOrder : String → WebClient → WebClient → Json → Type 0
  IsInOrder id c c' message = Moves (cursor id c) (cursor id c') (change_by id c c' message)

  resting : (n m : ℕ) (o : Option ℕ) (known : Bool) → m ≡ n → Moves n m (by_known o known)
  resting n m none known e = e
  resting n m (some seq) true e = inl e
  resting n m (some seq) false e = e

  pub silent-IsInOrder :
      (id : String) (c c' : WebClient) (message : Json)
      → c'.live_revision ≡ c.live_revision
      → cursor id c' ≡ cursor id c
      → IsInOrder id c c' message
  silent-IsInOrder id c c' message same still =
      elim (Bool-cases (is_text (text_field message "type") "resume-complete")) [
        | inl is ↦ rw is (omega (arith, still))
        | inr isnt ↦
            let e : (c'.live_revision == c.live_revision) ≡ true = ground arith in
            rw (isnt, e)
              (resting (cursor id c) (cursor id c') (own id (numbered message)) (is_known c message)
                still)
      ]

  pub core-IsInOrder :
      (id : String) (c c' : WebClient) (message : Json)
      → core c' ≡ core c
      → IsInOrder id c c' message
  core-IsInOrder id c c' message e =
      silent-IsInOrder id c c' message (ap (λ x. x.1) e) (ap (λ x. cursor_of x.0 id) e)

  show_event-IsInOrder :
      (id : String) (c : WebClient) (message : Json) (key : Option String)
      → suc (length c.cursors) ≤ 10_000
      → is_text (text_field message "type") "resume-complete" ≡ false
      → Next c (numbered message)
      → IsInOrder id c (show_event c message key) message
  unfolding show_event record_event
  show_event-IsInOrder id c message key h isnt next =
      let c' = record_event c message key in
      let grown : (save_numbered c' (numbered message)).live_revision ≡ suc c.live_revision =
        save_numbered-revision c' (numbered message) in
      let e : ((save_numbered c' (numbered message)).live_revision == c.live_revision) ≡ false =
        ground arith in
      rw (isnt, e) (save_numbered-shown id c' (numbered message) h next)

  pub moved-IsInOrder :
      (id : String) (c c' c'' : WebClient) (message : Json)
      → c' ≡ c''
      → IsInOrder id c c'' message
      → IsInOrder id c c' message
  moved-IsInOrder id c c' c'' message e h = subst (λ x. IsInOrder id c x message) (sym e) h

  take_next-IsInOrder :
      (id : String) (c : WebClient) (message : Json)
      → suc (length c.cursors) ≤ 10_000
      → is_text (text_field message "type") "resume-complete" ≡ false
      → Next c (numbered message)
      → IsInOrder id c (take_next show parse_body c message) message
  unfolding take_next
  take_next-IsInOrder id c message h isnt next = elim (Bool-cases (is_known c message)) [
    | inl seen ↦
        let same = save_numbered-revision c (numbered message) in
        let e : ((save_numbered c (numbered message)).live_revision == c.live_revision) ≡ true =
          ground arith in
        rw (seen, isnt, e) (save_numbered-known id c (numbered message) h next)
    | inr new ↦
        let key = event_key show parse_body message in
        moved-IsInOrder id c (take_next show parse_body c message) (show_event c message key)
          message (rw new refl) (show_event-IsInOrder id c message key h isnt next)
  ]

  pub take_numbered-IsInOrder :
      (id : String) (c : WebClient) (message : Json) (o : Option (String × ℕ))
      → suc (length c.cursors) ≤ 10_000
      → is_text (text_field message "type") "resume-complete" ≡ false
      → numbered message ≡ o
      → IsInOrder id c (take_numbered show parse_body c message o) message
  unfolding take_numbered
  take_numbered-IsInOrder id c message none h isnt e =
      take_next-IsInOrder id c message h isnt (subst (Next c) (sym e) tt)
  take_numbered-IsInOrder id c message (some (k, seq)) h isnt e =
      elim (Bool-cases (leb seq (cursor k c))) [
        | inl old ↦ rw old (silent-IsInOrder id c c message refl refl)
        | inr new ↦ rw new (elim (Bool-cases (ltb (cursor k c + 1) seq)) [
          | inl gap ↦
              rw gap (
                core-IsInOrder id c (schedule_gap_recovery c k seq) message (schedule-core c k seq))
          | inr next ↦
              let t : truthy k ≡ true =
                number_in-truthy (event_session_id message) k (as_number (field message "eventSeq"))
                  seq e in
              let s : seq ≡ suc (cursor k c) = ground arith in
              rw next (take_next-IsInOrder id c message h isnt (subst (Next c) (sym e) (t, s)))
        ])
      ]
