-- ===== src/CodexBridge/Messages.antt =====
-- codexBridge.ts, what a message of the child says: errors, approval requests, and the answers to them.
use code_harbor.Common.{
  Bool, List, Option, String, [], false, if◌then◌else◌, nat_eq, none, some, string_eq, true, ◌==◌,
  ◌∷◌,
}
use code_harbor.Common.Json.{
  Json, array, boolean, field, fields, is_object, null, number, other_number, text, text_field,
}

-- The message of an error: a text, or the JSON text of a value.
pub data ErrorText : Type 0 where
  plain : String → ErrorText
  serialized : Json → ErrorText

pub record BridgeError : Type 0 where
  pub code : Option String
  pub message : ErrorText

abbrev pub first_text : Option String → Option String → Option String
first_text (some a) b = some a
first_text none b = b

abbrev pub text_or_json : Option String → Json → ErrorText
text_or_json (some t) j = plain t
text_or_json none j = serialized j

-- The fields of an array are all `undefined`, so it is treated as an object without any.
unfoldable pub error_message_parts : Json → BridgeError
error_message_parts error =
    if is_object error
    then record {
      code = first_text (text_field error "code") (text_field error "type");
      message =
          text_or_json (first_text (text_field error "message") (text_field error "error")) error;
    }
    else record { code = none; message = serialized error }

abbrev pub error_of : Json → BridgeError
error_of (text t) = record { code = none; message = plain t }
error_of null = error_message_parts null
error_of (boolean b) = error_message_parts (boolean b)
error_of (number n) = error_message_parts (number n)
error_of (other_number t) = error_message_parts (other_number t)
error_of (array js) = error_message_parts (array js)
error_of (fields ms) = error_message_parts (fields ms)

-- A message is an error as soon as it has the member `error`, whatever that is.
unfoldable pub message_error : Json → Option BridgeError
message_error message = elim (field message "error") [
  | none ↦ none
  | some error ↦ some (error_of error)
]

pub data Decision : Type 0 where
  approve deny : Decision

pub record ApprovalDecision : Type 0 where
  pub decision : Decision
  pub execpolicy_amendment : List String

abbrev pub denial : ApprovalDecision
denial = record { decision = deny; execpolicy_amendment = [] }

-- The kinds of request that the bridge tells apart by their method.
pub data RequestMethod : Type 0 where
  command_approval file_change_approval exec_command_approval : RequestMethod
  apply_patch_approval user_input : RequestMethod
  other_method : String → RequestMethod

unfoldable pub request_method : String → RequestMethod
request_method method =
    if method == "item/commandExecution/requestApproval"
    then command_approval
    else if method == "item/fileChange/requestApproval"
    then file_change_approval
    else if method == "execCommandApproval"
    then exec_command_approval
    else if method == "applyPatchApproval"
    then apply_patch_approval
    else if method == "item/tool/requestUserInput"
    then user_input
    else other_method method

unfoldable pub is_approval_request : RequestMethod → Bool
is_approval_request command_approval = true
is_approval_request file_change_approval = true
is_approval_request exec_command_approval = true
is_approval_request apply_patch_approval = true
is_approval_request user_input = true
is_approval_request (other_method m) = false

-- The results that the bridge sends back to the child.
pub data Result : Type 0 where
  answers : Bool → Result
  accept cancel approved_for_session null_result : Result
  accept_with_execpolicy_amendment : List String → Result

abbrev pub is_approve : Decision → Bool
is_approve approve = true
is_approve deny = false

-- What an approval or a denial becomes, with the rules of its amendment.
abbrev pub decision_result : Result → Decision → List String → Result
decision_result granted approve [] = granted
decision_result granted approve (rule ∷ rules) = accept_with_execpolicy_amendment (rule ∷ rules)
decision_result granted deny rules = cancel

-- `answers true` is `{ answers: {} }`, and `answers false` is `{ answers: null }`.
unfoldable pub approval_result : RequestMethod → ApprovalDecision → Result
approval_result user_input d = answers (is_approve d.decision)
approval_result exec_command_approval d =
    decision_result approved_for_session d.decision d.execpolicy_amendment
approval_result apply_patch_approval d =
    decision_result approved_for_session d.decision d.execpolicy_amendment
approval_result command_approval d = decision_result accept d.decision d.execpolicy_amendment
approval_result file_change_approval d = decision_result accept d.decision d.execpolicy_amendment
approval_result (other_method m) d = decision_result accept d.decision d.execpolicy_amendment

-- The result without a question, where the mode is full access or the method asks for no approval.
unfoldable pub direct_result : RequestMethod → Result
direct_result command_approval = accept
direct_result file_change_approval = accept
direct_result exec_command_approval = approved_for_session
direct_result apply_patch_approval = approved_for_session
direct_result user_input = answers true
direct_result (other_method m) = null_result
