-- ===== src/Common/Text/Parts.antt =====
-- Texts that are joined, and then split or measured.
use Prim.Native.Char.{Char, code}
use Prim.Native.Nat.{ℕ, ◌+◌, ◌≤◌}
use Prim.Native.String.{String, [], ◌∷◌}
use mathlib.Core.Bool.{true, false}
use mathlib.Core.List.{List, [], ◌∷◌}
use mathlib.Core.Logic.{inl, inr}
use mathlib.Core.Path.{◌≡◌, refl, subst, sym}
use native.Mathlib.Omega.{arith}
use text.Mathlib.TextLemmas.{nil-append, cons-append}
use code_harbor.Common.Booleans.{if◌then◌else◌, ◌==◌, nat_eq, Bool-cases}
use code_harbor.Common.Lists.{All}
use code_harbor.Common.Text.{Avoids, byte_length, concat, cons_head, split, utf8_size}

-- The parts of a text, the last of which goes on with the first of another.
abbrev pub glue : List String → List String → List String
glue [] ys = ys
glue (x ∷ []) [] = x ∷ []
glue (x ∷ []) (y ∷ ys) = concat x y ∷ ys
glue (x ∷ x' ∷ xs) ys = x ∷ glue (x' ∷ xs) ys

glue-cons_head :
    (c : Char) (x : String) (xs ys : List String)
    → glue (cons_head c (x ∷ xs)) ys ≡ cons_head c (glue (x ∷ xs) ys)
glue-cons_head c x [] [] = refl
glue-cons_head c x [] (y ∷ ys) = rw cons-append refl
glue-cons_head c x (x' ∷ xs) ys = refl

-- A split text has a first part.
pub split-first :
    (sep : ℕ) (s : String) → (x : String) × (xs : List String) × (split sep s ≡ x ∷ xs)
unfolding split
split-first sep [] = ([], [], refl)
split-first sep (c ∷ s) =
    let (x, xs, e) = split-first sep s in
    elim (code c == sep)
      as (λ b.
        (y : String) × (ys : List String) × ((if b
            then [] ∷ split sep s
            else cons_head c (split sep s))
          ≡ y ∷ ys)) [ true ↦ ([], split sep s, refl) | false ↦ (c ∷ x, xs, rw e refl) ]

pub split-concat-glue :
    (sep : ℕ) (s t : String) → split sep (concat s t) ≡ glue (split sep s) (split sep t)
unfolding split
split-concat-glue sep [] t =
    let (y, ys, e) = split-first sep t in rw (nil-append, e, nil-append) refl
split-concat-glue sep (c ∷ s) t =
    let (x, xs, e) = split-first sep s in
    let parts = split sep t in
    elim (Bool-cases (code c == sep)) [
      | inl same ↦ rw (cons-append, split, same, split-concat-glue sep s t, e) refl
      | inr other ↦
          rw (cons-append, split, other, split-concat-glue sep s t, e)
            (sym (glue-cons_head c x xs parts))
    ]

pub byte_length-concat : (s t : String) → byte_length (concat s t) ≡ byte_length s + byte_length t
unfolding byte_length
byte_length-concat [] t = rw nil-append (omega arith)
byte_length-concat (c ∷ s) t = rw (cons-append, byte_length, byte_length-concat s t) (omega arith)

-- No part of a split text holds the separator.
pub split-Avoids : (sep : ℕ) (s : String) → All (Avoids sep) (split sep s)
unfolding split
split-Avoids sep [] = (tt, tt)
split-Avoids sep (c ∷ s) = elim (Bool-cases (code c == sep)) [
  | inl same ↦ rw same (tt, split-Avoids sep s)
  | inr other ↦
      let (x, xs, e) = split-first sep s in
      let (p, h) = subst (All (Avoids sep)) e (split-Avoids sep s) in rw (other, e) ((other, p), h)
]

pub concat-nil : (s : String) → concat s "" ≡ s
concat-nil [] = rw nil-append refl
concat-nil (c ∷ s) = rw (cons-append, concat-nil s) refl

abbrev pub sum_bytes : List String → ℕ
sum_bytes [] = 0
sum_bytes (x ∷ xs) = byte_length x + sum_bytes xs

sum_bytes-cons_head :
    (c : Char) (x : String) (xs : List String)
    → sum_bytes (cons_head c (x ∷ xs)) ≡ utf8_size (code c) + sum_bytes (x ∷ xs)
unfolding byte_length
sum_bytes-cons_head c x xs = omega arith

-- The parts have no more bytes than the text.
pub sum_bytes-split : (sep : ℕ) (s : String) → sum_bytes (split sep s) ≤ byte_length s
unfolding split byte_length
sum_bytes-split sep [] = omega arith
sum_bytes-split sep (c ∷ s) = elim (Bool-cases (code c == sep)) [
  | inl same ↦ rw same (omega (arith, sum_bytes-split sep s))
  | inr other ↦
      let (x, xs, e) = split-first sep s in
      let h = rw e at (sum_bytes-split sep s) in
      rw (other, e, sum_bytes-cons_head c x xs) (omega (arith, h))
]
