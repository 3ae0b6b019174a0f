-- ===== src/CodexBridge/Ids.antt =====
-- codexBridge.ts, the ids of messages, and `String(id)`. An id of another type than the source
-- declares, a text or a number, is taken for an absent one.
use code_harbor.Common.{
  List, Option, String, [], if◌then◌else◌, nat_eq, none, refl, some, string_eq, suc, zero, ℕ, ◌==◌,
  ◌∷◌, ◌≡◌,
}
use code_harbor.Common.Json.{Json, array, boolean, fields, null, number, other_number, text}
use code_harbor.Common.Text.{char_at, concat}

pub data RequestId : Type 0 where
  number_id : ℕ → RequestId
  other_number_id text_id : String → RequestId

unfoldable pub read_id : Option Json → Option RequestId
read_id none = none
read_id (some (number n)) = some (number_id n)
read_id (some (other_number t)) = some (other_number_id t)
read_id (some (text t)) = some (text_id t)
read_id (some null) = none
read_id (some (boolean b)) = none
read_id (some (array js)) = none
read_id (some (fields ms)) = none

-- The digits of a number, the last first, and the digits of its successor.
unfoldable pub increment : List ℕ → List ℕ
increment [] = 1 ∷ []
increment (d ∷ ds) = let carried = increment ds in if d == 9 then 0 ∷ carried else suc d ∷ ds

unfoldable pub digits : ℕ → List ℕ
unfolding increment
digits zero = 0 ∷ []
digits (suc n) = increment (digits n)

unfoldable pub digits_text : List ℕ → String
digits_text [] = ""
digits_text (d ∷ ds) = concat (digits_text ds) (char_at d "0123456789")

unfoldable pub id_text : RequestId → String
unfolding digits digits_text
id_text (number_id n) = digits_text (digits n)
id_text (other_number_id t) = t
id_text (text_id t) = t

id_text_test : id_text (number_id 120) ≡ "120"
unfolding id_text
id_text_test = refl
