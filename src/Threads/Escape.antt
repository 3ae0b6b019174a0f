-- ===== src/Threads/Escape.antt =====
-- threads.ts, `escapeSql`, and how SQL reads a text literal.
use Prim.Native.Char.{Char, code}
use Prim.Native.String.{String, [], ◌∷◌}
use mathlib.Core.Bool.{true, false}
use mathlib.Core.Logic.{inl, inr}
use mathlib.Core.Option.{Option, none, some}
use mathlib.Core.Path.{◌≡◌, refl}
use text.Mathlib.TextLemmas.{nil-append, cons-append}
use code_harbor.Common.{Bool-cases, if◌then◌else◌, nat_eq, ◌==◌}
use code_harbor.Common.Text.{concat}

-- `value.replaceAll("'", "''")`
unfoldable pub escape_sql : String → String
escape_sql [] = []
escape_sql (c ∷ s) = let rest = escape_sql s in if code c == b'\'' then c ∷ c ∷ rest else c ∷ rest

-- The first character of what was read is put in front.
abbrev pub in_front : Char → Option (String × String) → Option (String × String)
in_front c none = none
in_front c (some (read, rest)) = some (c ∷ read, rest)

-- What a text literal says from behind its opening quote on, and what follows it: two quotes are one,
-- and a quote alone is the end.
unfoldable pub read_literal : String → Option (String × String)
read_literal [] = none
read_literal (c ∷ []) = if code c == b'\'' then some ([], []) else none
read_literal (c ∷ d ∷ s) =
    let doubled = read_literal s in
    let next = read_literal (d ∷ s) in
    if code c == b'\''
    then (if code d == b'\'' then in_front c doubled else some ([], d ∷ s))
    else in_front c next

-- The text does not go on with a quote.
abbrev pub IsClosed : String → Type 0
IsClosed [] = Unit
IsClosed (c ∷ s) = (code c == b'\'') ≡ false

read_literal-step :
    (c : Char) (t : String)
    → (code c == b'\'') ≡ false
    → read_literal (c ∷ t) ≡ in_front c (read_literal t)
unfolding read_literal
read_literal-step c [] h = rw h refl
read_literal-step c (d ∷ s) h = rw h refl

read_literal-double :
    (c : Char) (t : String)
    → (code c == b'\'') ≡ true
    → read_literal (c ∷ c ∷ t) ≡ in_front c (read_literal t)
unfolding read_literal
read_literal-double c t h = rw h refl

read_literal-end :
    (q : Char) (after : String)
    → (code q == b'\'') ≡ true
    → IsClosed after
    → read_literal (q ∷ after) ≡ some ([], after)
unfolding read_literal
read_literal-end q [] h k = rw h refl
read_literal-end q (d ∷ s) h k = rw (h, k) refl

-- Whatever a thread id holds, SQL reads back exactly that id from the literal that is made of it, and
-- the literal ends at the quote that the query puts behind it, if the query does not go on with one:
-- no id reaches into the query.
pub read_literal-escape_sql :
    (v : String) (q : Char) (after : String)
    → (code q == b'\'') ≡ true
    → IsClosed after
    → read_literal (concat (escape_sql v) (q ∷ after)) ≡ some (v, after)
unfolding escape_sql
read_literal-escape_sql [] q after h k = rw nil-append (read_literal-end q after h k)
read_literal-escape_sql (c ∷ v) q after h k =
    let tail = read_literal-escape_sql v q after h k in
    elim (Bool-cases (code c == b'\'')) [
      | inl quote ↦
          rw
            (
              quote,
              cons-append,
              cons-append,
              read_literal-double c (concat (escape_sql v) (q ∷ after)) quote,
              tail,
            )
            refl
      | inr other ↦
          rw
            (
              other,
              cons-append,
              read_literal-step c (concat (escape_sql v) (q ∷ after)) other,
              tail,
            )
            refl
    ]
