-- ===== src/Attachments/Names.antt =====
-- attachments.ts, `sanitizeAttachmentFileName`: the name under which an attachment is stored. The base
-- name of a path and the NFKC form of a text are parameters.
use Prim.Native.Char.{Char, code}
use Prim.Native.Nat.{ℕ, zero, suc, ◌≤◌}
use Prim.Native.String.{String, [], ◌∷◌}
use mathlib.Core.Bool.{Bool, true, false, ◌&&◌, ◌||◌}
use mathlib.Core.Logic.{inl, inr}
use mathlib.Core.Path.{◌≡◌, refl}
use native.Mathlib.Omega.{arith}
use code_harbor.Common.{Bool-cases, if◌then◌else◌, leb, nat_eq, string_eq, truthy, ◌==◌}
use code_harbor.Common.Text.{
  Avoids, count_text, is_empty, is_space, take_text, trim, trim_end, trim_start,
}

abbrev pub dash : Char
dash = "-"

abbrev pub space : Char
space = " "

-- `/[\u0000-\u001f\u007f]/g` is removed.
abbrev pub is_control : ℕ → Bool
is_control c = leb c 0x1f || c == 0x7f

abbrev pub is_separator : ℕ → Bool
is_separator c = c == b'\\' || c == b'/'

unfoldable pub drop_controls : String → String
drop_controls [] = []
drop_controls (c ∷ s) = let rest = drop_controls s in if is_control (code c) then rest else c ∷ rest

-- `.replace(/[\\/]/g, "-")`
unfoldable pub dash_separators : String → String
dash_separators [] = []
dash_separators (c ∷ s) =
    let rest = dash_separators s in if is_separator (code c) then dash ∷ rest else c ∷ rest

-- `.replace(/\s+/g, " ")`; the flag says whether the character in front was a space.
unfoldable pub collapse_spaces : Bool → String → String
collapse_spaces behind_space [] = []
collapse_spaces behind_space (c ∷ s) =
    let after_space = collapse_spaces true s in
    let after_text = collapse_spaces false s in
    if is_space (code c)
    then (if behind_space then after_space else space ∷ after_space)
    else c ∷ after_text

abbrev pub cleaned : (String → String) → (String → String) → String → String
cleaned base_name nfkc name =
    let given = if truthy name then name else "attachment" in
    trim (collapse_spaces false (dash_separators (drop_controls (nfkc (base_name given)))))

unfoldable pub sanitize_attachment_file_name :
    (String → String) → (String → String) → String → String
sanitize_attachment_file_name base_name nfkc name =
    let clean = cleaned base_name nfkc name in
    if is_empty clean || clean == "." || clean == ".." then "attachment" else take_text 120 clean

module _ (sep : ℕ) where
  dash_separators-Avoids : (s : String) → is_separator sep ≡ true → Avoids sep (dash_separators s)
  unfolding dash_separators
  dash_separators-Avoids [] k = tt
  dash_separators-Avoids (c ∷ s) k = elim (Bool-cases (is_separator (code c))) [
    | inl hit ↦ rw hit (ground (arith, k), dash_separators-Avoids s k)
    | inr plain ↦ rw plain (ground (arith, k, plain), dash_separators-Avoids s k)
  ]

  collapse_spaces-Avoids :
      (b : Bool) (s : String)
      → is_separator sep ≡ true
      → Avoids sep s
      → Avoids sep (collapse_spaces b s)
  unfolding collapse_spaces
  collapse_spaces-Avoids b [] k h = tt
  collapse_spaces-Avoids b (c ∷ s) k (p, h) = elim (Bool-cases (is_space (code c))) [
    | inl hit ↦ elim (Bool-cases b) [
      | inl behind ↦ rw (hit, behind) (collapse_spaces-Avoids true s k h)
      | inr fresh ↦ rw (hit, fresh) (ground (arith, k), collapse_spaces-Avoids true s k h)
    ]
    | inr plain ↦ rw plain (p, collapse_spaces-Avoids false s k h)
  ]

  trim_start-Avoids : (s : String) → Avoids sep s → Avoids sep (trim_start s)
  unfolding trim_start
  trim_start-Avoids [] h = tt
  trim_start-Avoids (c ∷ s) (p, h) = elim (Bool-cases (is_space (code c))) [
    | inl hit ↦ rw hit (trim_start-Avoids s h)
    | inr plain ↦ rw plain (p, h)
  ]

  trim_end-Avoids : (s : String) → Avoids sep s → Avoids sep (trim_end s)
  unfolding trim_end
  trim_end-Avoids [] h = tt
  trim_end-Avoids (c ∷ s) (p, h) = elim (Bool-cases (is_space (code c) && is_empty (trim_end s))) [
    | inl hit ↦ rw hit tt
    | inr plain ↦ rw plain (p, trim_end-Avoids s h)
  ]

  take_text-Avoids : (n : ℕ) (s : String) → Avoids sep s → Avoids sep (take_text n s)
  unfolding take_text
  take_text-Avoids n [] h = tt
  take_text-Avoids zero (c ∷ s) h = tt
  take_text-Avoids (suc n) (c ∷ s) (p, h) = (p, take_text-Avoids n s h)

  cleaned-Avoids :
      (base_name nfkc : String → String) (name : String)
      → is_separator sep ≡ true
      → Avoids sep (cleaned base_name nfkc name)
  unfolding trim
  cleaned-Avoids base_name nfkc name k =
      let given = if truthy name then name else "attachment" in
      let dashed = dash_separators (drop_controls (nfkc (base_name given))) in
      trim_end-Avoids (trim_start (collapse_spaces false dashed)) (
        trim_start-Avoids (collapse_spaces false dashed) (
          collapse_spaces-Avoids false dashed k
            (dash_separators-Avoids (drop_controls (nfkc (base_name given))) k)))

count-take_text-le : (n : ℕ) (s : String) → count_text (take_text n s) ≤ n
unfolding take_text
count-take_text-le n [] = omega arith
count-take_text-le zero (c ∷ s) = omega arith
count-take_text-le (suc n) (c ∷ s) = omega (arith, count-take_text-le n s)

-- Whatever name a client gives an attachment, and whatever the base name and the normal form of it
-- are, the name under which it is stored holds no slash and no backslash and has at most 120
-- characters.
pub sanitize_attachment_file_name-Avoids :
    (base_name nfkc : String → String) (name : String)
    → Avoids b'/' (sanitize_attachment_file_name base_name nfkc name)
      × Avoids b'\\' (sanitize_attachment_file_name base_name nfkc name)
      × (count_text (sanitize_attachment_file_name base_name nfkc name) ≤ 120)
unfolding sanitize_attachment_file_name
sanitize_attachment_file_name-Avoids base_name nfkc name =
    let clean = cleaned base_name nfkc name in
    let kept = take_text 120 clean in
    elim (Bool-cases (is_empty clean || clean == "." || clean == "..")) [
      | inl odd ↦ rw odd (ground arith, ground arith, omega arith)
      | inr good ↦ rw good (
        take_text-Avoids b'/' 120 clean (cleaned-Avoids b'/' base_name nfkc name refl),
        take_text-Avoids b'\\' 120 clean (cleaned-Avoids b'\\' base_name nfkc name refl),
        count-take_text-le 120 clean,
      )
    ]
