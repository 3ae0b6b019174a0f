-- ===== src/Aggregator/Growth/Lists.antt =====
-- aggregator.ts, how a row may change, and how the list of the rows may.
use code_harbor.Aggregator.Rows.{change_or_add, find_index, next_index, update_at, update_last}
use code_harbor.Aggregator.Types.{TurnMessage}
use code_harbor.Common.{
  Bool, Bool-cases, List, Option, String, [], ap, arith, inl, inr, length, length-append, map,
  nat_eq, none, refl, some, string_eq, subst, suc, sym, true, truthy, zero, ℕ, ◌++◌, ◌∙◌, ◌∷◌, ◌≡◌,
  ◌≤◌,
}
use code_harbor.Common.Text.{concat, concat-nil, concat_assoc}
use mathlib.Core.List.{append-nil, append_assoc}

-- What a row keeps: its session, its prompt once there is one, what stands of its answer and of its
-- diffs, all its tools and approvals, and the request that it was made for.
pub record Grown (t u : TurnMessage) : Type 0 where
  pub session : u.session_id ≡ t.session_id
  pub prompt : truthy t.user_prompt ≡ true → u.user_prompt ≡ t.user_prompt
  pub written : (more : String) × (u.text ≡ concat t.text more)
  pub changes : (more : List String) × (u.diffs ≡ t.diffs ++ more)
  pub tools : length t.tools ≤ length u.tools
  pub approvals : length t.approvals ≤ length u.approvals
  pub request : (id : String) → t.client_request_id ≡ some id → u.client_request_id ≡ some id

pub Grown-refl : (t : TurnMessage) → Grown t t
Grown-refl t = record {
  session = refl;
  prompt = λ h. refl;
  written = ("", sym (concat-nil t.text));
  changes = ([], sym (append-nil t.diffs));
  tools = omega arith;
  approvals = omega arith;
  request = λ id e. e;
}

pub Grown-trans : (t u v : TurnMessage) → Grown t u → Grown u v → Grown t v
Grown-trans t u v g h = record {
  session = h.session ∙ g.session;
  prompt = λ p. h.prompt (subst (λ x. truthy x ≡ true) (sym (g.prompt p)) p) ∙ g.prompt p;
  written = (
    concat g.written.0 h.written.0,
    h.written.1
        ∙ ap (λ x. concat x h.written.0) g.written.1
        ∙ concat_assoc t.text g.written.0 h.written.0,
  );
  changes = (
    g.changes.0 ++ h.changes.0,
    h.changes.1
        ∙ ap (λ x. x ++ h.changes.0) g.changes.1
        ∙ append_assoc t.diffs g.changes.0 h.changes.0,
  );
  tools = let a = g.tools in let b = h.tools in omega arith;
  approvals = let a = g.approvals in let b = h.approvals in omega arith;
  request = λ id e. h.request id (g.request id e);
}

-- Each row stays at its place and grows, and new ones come behind.
abbrev pub Extends : List TurnMessage → List TurnMessage → Type 0
Extends [] us = Unit
Extends (t ∷ ts) [] = ⊥
Extends (t ∷ ts) (u ∷ us) = Grown t u × Extends ts us

pub Extends-refl : (ts : List TurnMessage) → Extends ts ts
Extends-refl [] = tt
Extends-refl (t ∷ ts) = (Grown-refl t, Extends-refl ts)

pub Extends-trans : (ts us vs : List TurnMessage) → Extends ts us → Extends us vs → Extends ts vs
Extends-trans [] us vs h k = tt
Extends-trans (t ∷ ts) [] vs h k = absurd h
Extends-trans (t ∷ ts) (u ∷ us) [] h k = absurd k
Extends-trans (t ∷ ts) (u ∷ us) (v ∷ vs) (g, h) (g', k) =
    (Grown-trans t u v g g', Extends-trans ts us vs h k)

pub append-Extends : (ts us : List TurnMessage) → Extends ts (ts ++ us)
append-Extends [] us = tt
append-Extends (t ∷ ts) us = (Grown-refl t, append-Extends ts us)

module _ (f : TurnMessage → TurnMessage) (grows : (t : TurnMessage) → Grown t (f t)) where
  pub update_at-Extends : (i : ℕ) (ts : List TurnMessage) → Extends ts (update_at i f ts)
  update_at-Extends i [] = tt
  update_at-Extends zero (t ∷ ts) = (grows t, Extends-refl ts)
  update_at-Extends (suc i) (t ∷ ts) = (Grown-refl t, update_at-Extends i ts)

  pub update_last-Extends : (ts : List TurnMessage) → Extends ts (update_last f ts)
  update_last-Extends [] = tt
  update_last-Extends (t ∷ []) = (grows t, tt)
  update_last-Extends (t ∷ u ∷ ts) = (Grown-refl t, update_last-Extends (u ∷ ts))

  pub map-Extends : (ts : List TurnMessage) → Extends ts (map f ts)
  map-Extends [] = tt
  map-Extends (t ∷ ts) = (grows t, map-Extends ts)

pub change_next :
    (o : Option ℕ) (f : TurnMessage → TurnMessage) (new t : TurnMessage) (ts : List TurnMessage)
    → change_or_add (next_index o) f new (t ∷ ts) ≡ t ∷ change_or_add o f new ts
change_next none f new t ts = refl
change_next (some i) f new t ts = refl

-- A row that is found by a test is changed, or a new one is put behind the others.
pub change_found-Extends :
    (p : TurnMessage → Bool) (f : TurnMessage → TurnMessage) (new : TurnMessage)
    → ((t : TurnMessage) → p t ≡ true → Grown t (f t))
    → (ts : List TurnMessage) → Extends ts (change_or_add (find_index p ts) f new ts)
change_found-Extends p f new grows [] = tt
change_found-Extends p f new grows (t ∷ ts) = elim (Bool-cases (p t)) [
  | inl is ↦ rw is (grows t is, Extends-refl ts)
  | inr isnt ↦
      rw (isnt, change_next (find_index p ts) f new t ts)
        (Grown-refl t, change_found-Extends p f new grows ts)
]

module _ {ℓ} {A : Type ℓ} where
  pub length-update_at : (i : ℕ) (f : A → A) (xs : List A) → length (update_at i f xs) ≡ length xs
  length-update_at i f [] = refl
  length-update_at zero f (x ∷ xs) = refl
  length-update_at (suc i) f (x ∷ xs) = ap suc (length-update_at i f xs)

  pub length-change_or_add-le :
      (o : Option ℕ) (f : A → A) (new : A) (xs : List A)
      → length xs ≤ length (change_or_add o f new xs)
  length-change_or_add-le none f new xs = omega (arith, length-append xs (new ∷ []))
  length-change_or_add-le (some i) f new xs = omega (arith, length-update_at i f xs)

  pub length-map : (f : A → A) (xs : List A) → length (map f xs) ≡ length xs
  length-map f [] = refl
  length-map f (x ∷ xs) = ap suc (length-map f xs)
