-- ===== src/Aggregator/Approvals.antt =====
-- aggregator.ts, approvalEnvelope and the events of an approval.
use code_harbor.Aggregator.Rows.{change_or_add, find_index, or_option, as_record, update_at}
use code_harbor.Aggregator.Types.{
  ApprovalRequest, AssistantStatus, TurnMessage, status_eq, streaming, waiting_approval,
}
use code_harbor.Common.{
  Bool, List, Option, String, [], if◌then◌else◌, map, nat_eq, none, or_else, some, string_eq,
  truthy, ℕ, ◌==◌, ◌||◌, ◌∷◌,
}
use code_harbor.Common.Json.{
  Json, array, as_array, as_text, boolean, field, fields, null, number, other_number, text,
}
use code_harbor.Common.Text.{equals_lowered}
use code_harbor.WebClient.Fields.{in_field, text_in}

abbrev text_at : Json → Option String
text_at (text t) = some t
text_at null = none
text_at (boolean b) = none
text_at (number n) = none
text_at (other_number t) = none
text_at (array js) = none
text_at (fields ms) = none

abbrev keep_texts : List Json → List String
keep_texts [] = []
keep_texts (j ∷ js) = elim (text_at j) [ none ↦ keep_texts js | some t ↦ t ∷ keep_texts js ]

-- `a ?? b`
abbrev or_given : Option Json → Option Json → Option Json
or_given none b = b
or_given (some null) b = b
or_given (some (boolean x)) b = some (boolean x)
or_given (some (number n)) b = some (number n)
or_given (some (other_number t)) b = some (other_number t)
or_given (some (text t)) b = some (text t)
or_given (some (array js)) b = some (array js)
or_given (some (fields ms)) b = some (fields ms)

unfoldable pub normalized_approval_decision : Option Json → Bool
normalized_approval_decision value =
    let decision = or_else (as_text value) "" in
    equals_lowered decision "approve"
    || equals_lowered decision "approved"
    || equals_lowered decision "accept"
    || equals_lowered decision "accepted"
    || equals_lowered decision "allow"
    || equals_lowered decision "allowed"
    || equals_lowered decision "approved_for_session"

-- `Object.assign(existing, request)`: what the request does not name stays.
abbrev pub assign_request : ApprovalRequest → ApprovalRequest → ApprovalRequest
assign_request new old = record new { decision = old.decision; resolved_at = old.resolved_at }

abbrev put_request : ApprovalRequest → List ApprovalRequest → List ApprovalRequest
put_request new old =
    change_or_add (find_index (λ a. a.request_id == new.request_id) old) (assign_request new) new
      old

abbrev pub await_approval : ApprovalRequest → TurnMessage → TurnMessage
await_approval request turn = record turn {
  approvals = put_request request turn.approvals;
  assistant_status = waiting_approval;
}

abbrev stream_again : AssistantStatus → AssistantStatus
stream_again status = if status_eq status waiting_approval then streaming else status

abbrev pub settle_at : (ApprovalRequest → ApprovalRequest) → TurnMessage → Option ℕ → TurnMessage
settle_at f turn none = turn
settle_at f turn (some i) = record turn {
  approvals = update_at i f turn.approvals;
  assistant_status = stream_again turn.assistant_status;
}

-- The approval of a row, where it has it, and its row goes on.
abbrev pub settle_request : String → (ApprovalRequest → ApprovalRequest) → TurnMessage → TurnMessage
settle_request id f turn = settle_at f turn (find_index (λ a. a.request_id == id) turn.approvals)

abbrev pub decide_request : Bool → Option Json → ApprovalRequest → ApprovalRequest
decide_request approves at request = record request {
  status = if approves then "approved" else "denied";
  decision = some (if approves then "approve" else "deny");
  resolved_at = at;
}

abbrev pub expire_request : Option Json → ApprovalRequest → ApprovalRequest
expire_request at request = record request { status = "expired"; resolved_at = at }

abbrev pub settle_in_all :
    Option String → (ApprovalRequest → ApprovalRequest) → List TurnMessage → List TurnMessage
settle_in_all none f turns = turns
settle_in_all (some id) f turns = map (settle_request id f) turns

module _ (parse : String → Option Json) where
  -- `tryParseJson`
  abbrev pub parsed : Option Json → Option Json
  parsed none = none
  parsed (some (text t)) = if truthy t then some (or_else (parse t) null) else some (text t)
  parsed (some null) = some null
  parsed (some (boolean b)) = some (boolean b)
  parsed (some (number n)) = some (number n)
  parsed (some (other_number t)) = some (other_number t)
  parsed (some (array js)) = some (array js)
  parsed (some (fields ms)) = some (fields ms)

  abbrev record_in : Option Json → Option Json
  record_in value = or_option (as_record value) (as_record (parsed value))

  abbrev pub nested_params : Json → Option Json
  nested_params payload = record_in (field payload "params")

  abbrev pub inner_params : Json → Option Json
  inner_params payload = record_in (in_field (nested_params payload) "params")

  -- A property of the payload, or of the envelopes in it.
  unfoldable pub read : Json → String → Option Json
  read payload key =
      or_option (field payload key)
        (or_option (in_field (nested_params payload) key) (in_field (inner_params payload) key))

  abbrev pub read_text : Json → String → Option String
  read_text payload key = as_text (read payload key)

  abbrev parsed_text : Option Json → Option Json
  parsed_text value = elim (as_text value) [ none ↦ value | some t ↦ parsed (some (text t)) ]

  unfoldable pub amendment_of : Json → Option (List String)
  unfolding read
  amendment_of payload =
      elim (as_array (
        parsed_text (
          or_given (read payload "proposedExecpolicyAmendment")
            (read payload "execpolicyAmendment")))) [ none ↦ none | some js ↦ some (keep_texts js) ]

  abbrev pub request_of : String → String → Json → Json → Option Json → ApprovalRequest
  request_of id session event payload at = record {
    request_id = id;
    session_id = session;
    approval_method =
        or_else (read_text payload "requestMethod") "item/commandExecution/requestApproval";
    turn_id = read_text payload "turnId";
    item_id = read_text payload "itemId";
    summary = read_text payload "summary";
    command = read_text payload "command";
    cwd = read_text payload "cwd";
    expires_at = read_text payload "expiresAt";
    proposed_execpolicy_amendment = amendment_of payload;
    status = "pending";
    created_at = at;
    raw_params = or_else (nested_params payload) payload;
    decision = none;
    resolved_at = none;
  }

  abbrev pub resolved_id : Json → Option String
  resolved_id payload =
      let approval = as_record (field payload "approval") in
      or_option (read_text payload "requestId")
        (or_option (text_in approval "requestId") (text_in approval "id"))

  abbrev pub resolved_decision : Json → Option Json
  resolved_decision payload = or_given (field payload "decision") (
      or_given (read payload "decision")
        (in_field (as_record (field payload "approval")) "decision"))
