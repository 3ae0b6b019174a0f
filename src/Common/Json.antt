-- ===== src/Common/Json.antt =====
-- What `JSON.parse` returns, and the tests by which the code reads it.
use code_harbor.Common.{
  Bool, List, Option, String, [], false, if◌then◌else◌, nat_eq, none, some, string_eq, true, ℕ,
  ◌==◌, ◌∷◌,
}

mutual
  -- A number that is no natural number stands by its text.
  pub data Json : Type 0 where
    null : Json
    boolean : Bool → Json
    number : ℕ → Json
    other_number : String → Json
    text : String → Json
    array : Items → Json
    fields : Members → Json

  pub data Items : Type 0 where
    no_items : Items
    item : Json → Items → Items

  pub data Members : Type 0 where
    no_members : Members
    member : String → Json → Members → Members

abbrev pub to_list : Items → List Json
to_list no_items = []
to_list (item j js) = j ∷ to_list js

-- Of two members with one name the later counts.
unfoldable pub lookup : Members → String → Option Json
lookup no_members k = none
lookup (member name j ms) k = elim (lookup ms k) [
  | some later ↦ some later
  | none ↦ if name == k then some j else none
]

-- `value[k]` of a value that is an object; `none` is `undefined`.
unfoldable pub field : Json → String → Option Json
field (fields ms) k = lookup ms k
field null k = none
field (boolean b) k = none
field (number n) k = none
field (other_number t) k = none
field (text t) k = none
field (array js) k = none

-- `typeof value === "string" ? value : undefined`
abbrev pub as_text : Option Json → Option String
as_text none = none
as_text (some (text t)) = some t
as_text (some null) = none
as_text (some (boolean b)) = none
as_text (some (number n)) = none
as_text (some (other_number t)) = none
as_text (some (array js)) = none
as_text (some (fields ms)) = none

abbrev pub text_field : Json → String → Option String
text_field j k = as_text (field j k)

-- `value && typeof value === "object"`; an array is an object too.
abbrev pub is_object : Json → Bool
is_object (fields ms) = true
is_object (array js) = true
is_object null = false
is_object (boolean b) = false
is_object (number n) = false
is_object (other_number t) = false
is_object (text t) = false

-- `value ?? undefined`: null counts as missing.
abbrev pub present : Option Json → Option Json
present none = none
present (some null) = none
present (some (boolean b)) = some (boolean b)
present (some (number n)) = some (number n)
present (some (other_number t)) = some (other_number t)
present (some (text t)) = some (text t)
present (some (array js)) = some (array js)
present (some (fields ms)) = some (fields ms)

-- `Array.isArray(value) ? value : undefined`
abbrev pub as_array : Option Json → Option (List Json)
as_array (some (array js)) = some (to_list js)
as_array none = none
as_array (some null) = none
as_array (some (boolean b)) = none
as_array (some (number n)) = none
as_array (some (other_number t)) = none
as_array (some (text t)) = none
as_array (some (fields ms)) = none
