-- ===== src/Common/Text/Ends.antt =====
-- How a text starts and how it ends.
use Prim.Native.Char.{code}
use Prim.Native.String.{String, [], ◌∷◌}
use mathlib.Core.Bool.{true}
use mathlib.Core.Logic.{inl, inr, ◌↔◌}
use mathlib.Core.Option.{some}
use mathlib.Core.Path.{◌≡◌, refl, ap}
use native.Mathlib.Omega.{arith}
use text.Mathlib.TextEquality.{Char-path}
use text.Mathlib.TextLemmas.{nil-append, cons-append}
use code_harbor.Common.Booleans.{
  ==_refl, Bool-cases, Option-cases, is_some, nat_eq, string_eq, ◌==◌,
}
use code_harbor.Common.Text.{concat, ends_with, is_empty, strip_prefix, strip_prefix-append}

-- `s` starts with `prefix`, and ends with `suffix`.
abbrev pub Starts : String → String → Type 0
Starts prefix s = (rest : String) × (s ≡ concat prefix rest)

abbrev pub Ends : String → String → Type 0
Ends suffix s = (front : String) × (s ≡ concat front suffix)

pub strip_prefix-inv : (p s r : String) → strip_prefix p s ≡ some r → s ≡ concat p r
unfolding strip_prefix
strip_prefix-inv [] s r h = rw nil-append (ground (arith, h))
strip_prefix-inv (c ∷ p) [] r h = absurd cc
strip_prefix-inv (c ∷ p) (d ∷ s) r h = elim (Bool-cases (code c == code d)) [
  | inl same ↦
      let e : d ≡ c = Char-path d c (ground arith) in
      rw (cons-append, e) (ap (λ t. c ∷ t) (strip_prefix-inv p s r (rw same at h)))
  | inr other ↦ absurd (cc (rw other at h))
]

pub strip_prefix-Starts : (p s : String) → (is_some (strip_prefix p s) ≡ true) ↔ Starts p s
strip_prefix-Starts p s = (
  λ h. elim (Option-cases (strip_prefix p s)) [
    | inl none' ↦ absurd (cc (rw none' at h))
    | inr (r, e) ↦ (r, strip_prefix-inv p s r e)
  ],
  λ (r, e). rw (e, strip_prefix-append) refl,
)

is_empty-eq : (s : String) → is_empty s ≡ true → s ≡ []
is_empty-eq [] h = refl
is_empty-eq (c ∷ s) h = absurd cc

ends_with_refl : (s : String) → ends_with s s ≡ true
unfolding ends_with
ends_with_refl [] = refl
ends_with_refl (c ∷ s) = ground (arith, ==_refl (c ∷ s))

ends_with-append : (front s : String) → ends_with s (concat front s) ≡ true
unfolding ends_with
ends_with-append [] s = rw nil-append (ends_with_refl s)
ends_with-append (c ∷ front) s =
    rw (cons-append, ends_with) (ground (arith, ends_with-append front s))

ends_with-inv : (suffix s : String) → ends_with suffix s ≡ true → Ends suffix s
unfolding ends_with
ends_with-inv suffix [] h = ([], rw (is_empty-eq suffix h, nil-append) refl)
ends_with-inv suffix (c ∷ s) h = elim (Bool-cases (c ∷ s == suffix)) [
  | inl same ↦ ([], rw nil-append ((string_eq.beq_iff (c ∷ s) suffix).0 same))
  | inr other ↦
      let (front, e) = ends_with-inv suffix s (rw other at h) in
      (c ∷ front, rw cons-append (ap (λ t. c ∷ t) e))
]

pub ends_with-Ends : (suffix s : String) → (ends_with suffix s ≡ true) ↔ Ends suffix s
ends_with-Ends suffix s =
    (ends_with-inv suffix s, λ (front, e). rw e (ends_with-append front suffix))
