-- ===== src/CodexBridge/Requests.antt =====
-- codexBridge.ts, the requests to the child and the responses to them. What `JSON.parse` makes of a
-- line is an argument, `none` where it throws.
use code_harbor.CodexBridge.Ids.{RequestId, number_id, other_number_id, read_id, text_id}
use code_harbor.CodexBridge.Messages.{BridgeError, message_error}
use code_harbor.CodexBridge.State.{
  Bridge, Effect, can_write, emits, notification, rejects, replied, resolves, timed_out,
  unparseable, writes_request,
}
use code_harbor.Common.{
  List, Option, String, [], if◌then◌else◌, leb, length, nat_eq, none, not, or_else, some, string_eq,
  suc, ℕ, ◌∷◌,
}
use code_harbor.Common.JsMap.{delete, get, has, set}
use code_harbor.Common.Json.{Json, field, is_object, present, text_field}

abbrev pub max_pending_requests : ℕ
max_pending_requests = 1024

pub data SendError : Type 0 where
  not_open too_many_pending_requests : SendError

pub data Sent : Type 0 where
  sent : ℕ → Sent
  refused : SendError → Sent

unfoldable pub send_request : Bridge → String → Option Json → Bridge × List Effect × Sent
send_request b method params =
    if not (can_write b.process)
    then (b, [], refused not_open)
    else if leb max_pending_requests (length b.pending_requests)
    then (b, [], refused too_many_pending_requests)
    else (
      record b {
        next_id = suc b.next_id;
        pending_requests = set b.pending_requests b.next_id method;
      },
      writes_request b.next_id method params ∷ [],
      sent b.next_id,
    )

-- The timer of a request, which is armed as long as the request is pending.
unfoldable pub request_times_out : Bridge → ℕ → ℕ → Bridge × List Effect
request_times_out b id timeout_ms = elim (get b.pending_requests id) [
  | none ↦ (b, [])
  | some method ↦ (
    record b { pending_requests = delete b.pending_requests id },
    rejects id (timed_out method timeout_ms) ∷ [],
  )
]

-- `this.pending.has(id)`: the ids that the bridge gives out are numbers.
abbrev pub pending_id : Bridge → Option RequestId → Option ℕ
pending_id b none = none
pending_id b (some (number_id n)) = if has b.pending_requests n then some n else none
pending_id b (some (other_number_id t)) = none
pending_id b (some (text_id t)) = none

-- `error ? pending.reject(error) : pending.resolve(record.result ?? record)`
abbrev pub settle : ℕ → Json → Option BridgeError → Effect
settle id message (some error) = rejects id (replied error)
settle id message none = resolves id (or_else (present (field message "result")) message)

unfoldable pub response : Bridge → ℕ → Json → Bridge × List Effect
response b id message = (
  record b { pending_requests = delete b.pending_requests id },
  settle id message (message_error message) ∷ [],
)

-- What a message is: a response, a request of the child, a notification, or nothing of these.
pub data Incoming : Type 0 where
  broken ignored : Incoming
  responds : ℕ → Incoming
  asks : RequestId → String → Incoming
  notifies : String → Incoming

abbrev pub by_method : Option RequestId → Option String → Incoming
by_method (some id) (some method) = asks id method
by_method none (some method) = notifies method
by_method id none = ignored

abbrev pub incoming : Option ℕ → Option RequestId → Option String → Incoming
incoming (some n) id method = responds n
incoming none id method = by_method id method

unfoldable pub classify : Bridge → Option Json → Incoming
classify b none = broken
classify b (some message) =
    let id = read_id (field message "id") in
    if is_object message
    then incoming (pending_id b id) id (text_field message "method")
    else ignored

-- A request of the child goes on to its own handler, `asked`.
unfoldable pub handle_incoming :
    (Bridge → RequestId → String → Option Json → Bridge × List Effect)
    → Bridge
    → String
    → Json
    → Incoming
    → Bridge × List Effect
handle_incoming asked b raw message broken = (b, emits (unparseable raw) ∷ [])
handle_incoming asked b raw message ignored = (b, [])
handle_incoming asked b raw message (responds id) = response b id message
handle_incoming asked b raw message (asks id method) = asked b id method (field message "params")
handle_incoming asked b raw message (notifies method) =
    (b, emits (notification method (field message "params")) ∷ [])
