-- ===== src/Common/Text.antt =====
-- The string methods that the code calls, by code points: split, trim, startsWith with slice, and
-- a comparison that ignores the case of ASCII letters.
pub mod Ends
pub mod Parts
use Prim.Native.Char.{Char, code}
use Prim.Native.Nat.{ℕ, zero, suc, ◌+◌}
use Prim.Native.String.{String, [], ◌∷◌}
pub use Prim.Native.String.{◌++◌ as concat}
use mathlib.Core.Bool.{Bool, true, false, ◌&&◌, ◌||◌}
use mathlib.Core.List.{List, [], ◌∷◌}
use mathlib.Core.Option.{Option, none, some}
use mathlib.Core.Path.{◌≡◌, refl}
use native.Mathlib.Omega.{arith}
use text.Mathlib.TextLemmas.{nil-append, cons-append, append_assoc, append-nil}
use code_harbor.Common.Booleans.{leb, truthy, if◌then◌else◌, ◌==◌, nat_eq, string_eq, ==_refl}

abbrev pub cons_head : Char → List String → List String
cons_head c [] = (c ∷ []) ∷ []
cons_head c (w ∷ ws) = (c ∷ w) ∷ ws

-- `s.split(sep)` for a separator of one character
unfoldable pub split : ℕ → String → List String
split sep [] = [] ∷ []
split sep (c ∷ s) = let rest = split sep s in if code c == sep then [] ∷ rest else cons_head c rest

-- The white space and the line ends of ECMAScript.
unfoldable pub is_space : ℕ → Bool
is_space c =
    (leb 9 c && leb c 13)
    || c == 32
    || c == 160
    || c == 0x1680
    || (leb 0x2000 c && leb c 0x200a)
    || c == 0x2028
    || c == 0x2029
    || c == 0x202f
    || c == 0x205f
    || c == 0x3000
    || c == 0xfeff

unfoldable pub trim_start : String → String
unfolding is_space
trim_start [] = []
trim_start (c ∷ s) = let rest = trim_start s in if is_space (code c) then rest else c ∷ s

abbrev pub is_empty : String → Bool
is_empty [] = true
is_empty (c ∷ s) = false

unfoldable pub trim_end : String → String
unfolding is_space
trim_end [] = []
trim_end (c ∷ s) =
    let rest = trim_end s in if is_space (code c) && is_empty rest then [] else c ∷ rest

-- `s.trim()`
unfoldable pub trim : String → String
unfolding trim_start trim_end
trim s = trim_end (trim_start s)

-- `s.startsWith(prefix) ? s.slice(prefix.length) : undefined`
unfoldable pub strip_prefix : String → String → Option String
strip_prefix [] s = some s
strip_prefix (c ∷ p) [] = none
strip_prefix (c ∷ p) (d ∷ s) = if code c == code d then strip_prefix p s else none

abbrev pub lower : ℕ → ℕ
lower c = if leb b'A' c && leb c b'Z' then c + 32 else c

-- `s.toLowerCase() === t` for a text t of ASCII letters to which no other character is lowered.
unfoldable pub equals_lowered : String → String → Bool
equals_lowered [] [] = true
equals_lowered [] (d ∷ t) = false
equals_lowered (c ∷ s) [] = false
equals_lowered (c ∷ s) (d ∷ t) = lower (code c) == code d && equals_lowered s t

-- `s.endsWith(suffix)`
unfoldable pub ends_with : String → String → Bool
ends_with suffix [] = is_empty suffix
ends_with suffix (c ∷ s) = let rest = ends_with suffix s in c ∷ s == suffix || rest

-- `s.includes(sep) ? s.slice(s.indexOf(sep) + 1) : undefined`, for one character
unfoldable pub text_behind : ℕ → String → Option String
text_behind sep [] = none
text_behind sep (c ∷ s) = let rest = text_behind sep s in if code c == sep then some s else rest

-- The characters that pass the test are removed.
unfoldable pub drop_chars : (ℕ → Bool) → String → String
drop_chars p [] = []
drop_chars p (c ∷ s) = let rest = drop_chars p s in if p (code c) then rest else c ∷ rest

-- `s.charAt(n)`
abbrev pub char_at : ℕ → String → String
char_at n [] = []
char_at zero (c ∷ s) = c ∷ []
char_at (suc n) (c ∷ s) = char_at n s

-- What is left behind the characters in front that pass the test.
unfoldable pub skip_while : (ℕ → Bool) → String → String
skip_while p [] = []
skip_while p (c ∷ s) = let rest = skip_while p s in if p (code c) then rest else c ∷ s

-- `s.slice(0, n)`
unfoldable pub take_text : ℕ → String → String
take_text n [] = []
take_text zero (c ∷ s) = []
take_text (suc n) (c ∷ s) = c ∷ take_text n s

-- The number of code points.
abbrev pub count_text : String → ℕ
count_text [] = 0
count_text (c ∷ s) = 1 + count_text s

-- `s.length`: a code point above 0xffff is two units.
abbrev pub utf16_length : String → ℕ
utf16_length [] = 0
utf16_length (c ∷ s) = (if leb (code c) 0xffff then 1 else 2) + utf16_length s

abbrev pub utf8_size : ℕ → ℕ
utf8_size n = if leb n 0x7f then 1 else if leb n 0x7ff then 2 else if leb n 0xffff then 3 else 4

-- `Buffer.byteLength(s, "utf8")`
unfoldable pub byte_length : String → ℕ
byte_length [] = 0
byte_length (c ∷ s) = utf8_size (code c) + byte_length s

-- No character of the text is the given one.
abbrev pub Avoids : ℕ → String → Type 0
Avoids sep [] = Unit
Avoids sep (c ∷ s) = ((code c == sep) ≡ false) × Avoids sep s

pub split_of_Avoids : (sep : ℕ) (s : String) → Avoids sep s → split sep s ≡ s ∷ []
unfolding split
split_of_Avoids sep [] h = refl
split_of_Avoids sep (c ∷ s) (p, h) = rw (p, split_of_Avoids sep s h)

-- A text in front of a separator is the first part, whatever follows.
pub split-append :
    (sep : ℕ) (s : String) (c : Char) (t : String)
    → Avoids sep s
    → (code c == sep) ≡ true
    → split sep (concat s (c ∷ t)) ≡ s ∷ split sep t
unfolding split
split-append sep [] c t h k = rw (nil-append, k)
split-append sep (d ∷ s) c t (p, h) k = rw (cons-append, split, p, split-append sep s c t h k)

pub strip_prefix-append : (p s : String) → strip_prefix p (concat p s) ≡ some s
unfolding strip_prefix
strip_prefix-append [] s = rw nil-append
strip_prefix-append (c ∷ p) s =
    rw (cons-append, strip_prefix, ==_refl (code c)) (strip_prefix-append p s)

pub concat-nil : (s : String) → concat s "" ≡ s
concat-nil s = append-nil s

pub concat_of_empty : (s t : String) → truthy s ≡ false → concat s t ≡ t
concat_of_empty [] t h = rw nil-append
concat_of_empty (c ∷ s) t h = cc

pub concat_assoc : (s t u : String) → concat (concat s t) u ≡ concat s (concat t u)
concat_assoc s t u = append_assoc s t u

-- The text holds no white space.
abbrev pub NoSpace : String → Type 0
NoSpace [] = Unit
NoSpace (c ∷ s) = (is_space (code c) ≡ false) × NoSpace s

trim_start_of_NoSpace : (s : String) → NoSpace s → trim_start s ≡ s
unfolding trim_start
trim_start_of_NoSpace [] h = refl
trim_start_of_NoSpace (c ∷ s) h = ground (arith, h.0)

trim_end_of_NoSpace : (s : String) → NoSpace s → trim_end s ≡ s
unfolding trim_end
trim_end_of_NoSpace [] h = refl
trim_end_of_NoSpace (c ∷ s) h = ground (arith, h.0, trim_end_of_NoSpace s h.1)

pub trim_of_NoSpace : (s : String) → NoSpace s → trim s ≡ s
unfolding trim
trim_of_NoSpace s h = rw (trim_start_of_NoSpace s h) (trim_end_of_NoSpace s h)

pub NoSpace-concat : (s t : String) → NoSpace s → NoSpace t → NoSpace (concat s t)
NoSpace-concat [] t h k = rw nil-append k
NoSpace-concat (c ∷ s) t (p, h) k = rw cons-append (p, NoSpace-concat s t h k)

pub Avoids-concat : (sep : ℕ) (s t : String) → Avoids sep s → Avoids sep t → Avoids sep (concat s t)
Avoids-concat sep [] t h k = rw nil-append k
Avoids-concat sep (c ∷ s) t (p, h) k = rw cons-append (p, Avoids-concat sep s t h k)

pub truthy-concat : (s t : String) → truthy s ≡ true → truthy (concat s t) ≡ true
truthy-concat [] t h = cc
truthy-concat (c ∷ s) t h = rw cons-append

-- The part in front of a separator, whatever follows.
pub split-concat :
    (sep : ℕ) (s : String) (c : Char) (t : String)
    → Avoids sep s
    → (code c == sep) ≡ true
    → split sep (concat s (concat (c ∷ []) t)) ≡ s ∷ split sep t
split-concat sep s c t h k = rw (cons-append, nil-append) (split-append sep s c t h k)
