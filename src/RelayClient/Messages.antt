-- ===== src/RelayClient/Messages.antt =====
-- relayClient.ts, handleRelayMessage, the requests of pair codes, and the syncs of the sessions.
use code_harbor.Common.{
  Bool, Option, String, [], false, if◌then◌else◌, is_some, nat_eq, none, or_else, some, string_eq,
  true, truthy, ℕ, ◌&&◌, ◌++◌, ◌==◌, ◌∷◌,
}
use code_harbor.Common.JsMap.{delete, get, has, set}
use code_harbor.Common.Json.{Json, text_field}
use code_harbor.Common.Text.{concat, strip_prefix}
use code_harbor.RelayClient.Enrollment.{first_text, truthy_option}
use code_harbor.RelayClient.State.{
  Client, PairOutcome, RelayStatus, close_socket, is_open, paired, pairing_failed, safe_relay_send,
  without_credential, write_identity,
}

abbrev pub sync_error_prefix : String
sync_error_prefix = "session sync local listing failed:"

-- `syncSessions`, up to its promise. While a sync of the same socket runs, it is that one.
unfoldable pub sync_socket : Client → Option ℕ → Client
sync_socket c none = c
sync_socket c (some socket) =
    if is_open (get c.ready socket) then record c { session_sync = some socket } else c

unfoldable pub sync_sessions : Client → Client
unfolding sync_socket
sync_sessions c = sync_socket c c.relay_socket

-- The listing of a sync failed, or it worked: what the status keeps of it.
abbrev pub sync_status : RelayStatus → Option String → RelayStatus
sync_status status (some error) = record status {
  last_error = some (concat sync_error_prefix (concat " " error));
}
sync_status status none = elim status.last_error [
  | none ↦ status
  | some last ↦
      if is_some (strip_prefix sync_error_prefix last)
      then record status { last_error = none }
      else status
]

unfoldable pub forget_sync : Client → ℕ → Option ℕ → Client
forget_sync c socket none = c
forget_sync c socket (some current) =
    if current == socket then record c { session_sync = none } else c

-- A sync that was started for a socket comes to its end.
unfoldable pub sync_ends : Client → ℕ → Option String → Client
unfolding forget_sync
sync_ends c socket error =
    forget_sync (record c { status = sync_status c.status error }) socket c.session_sync

-- `syncSessionsNow`, and what it does when the sync that it found has ended.
unfoldable pub sync_sessions_now : Client → Client
unfolding sync_sessions
sync_sessions_now c =
    if is_some c.session_sync then record c { session_sync_again = true } else sync_sessions c

unfoldable pub follow_up_sync : Client → Client
unfolding sync_sessions_now
follow_up_sync c =
    if c.session_sync_again then sync_sessions_now (record c { session_sync_again = false }) else c

-- `requestPairCode`, up to its promise, on the socket of the relay; `line` is the message.
unfoldable pub send_pair_request : Client → String → String → Bool → Option ℕ → Client
send_pair_request c request line fails none = c
send_pair_request c request line fails (some socket) =
    if is_open (get c.ready socket)
    then (let (c', done) =
          safe_relay_send (record c { pending = set c.pending request tt }) socket line fails in
        if done then c' else record c' {
          pending = delete c'.pending request;
          settled = c'.settled ++ (request, pairing_failed "relay connection not writable") ∷ [];
        })
    else c

unfoldable pub request_pair_code : Client → String → String → Bool → Client
unfolding send_pair_request
request_pair_code c request line fails = send_pair_request c request line fails c.relay_socket

-- The timer of a request, after 20 seconds.
unfoldable pub pair_code_times_out : Client → String → Client
pair_code_times_out c request =
    if has c.pending request
    then record c {
      pending = delete c.pending request;
      settled = c.settled ++ (request, pairing_failed "pair code request timed out") ∷ [];
    }
    else c

unfoldable pub device_ready : Client → Json → Client
unfolding write_identity sync_sessions
device_ready c message =
    let id = first_text (text_field message "deviceId") c.identity.device_id in
    let c' = write_identity c (record {
      device_id = id;
      device_token = first_text (text_field message "deviceToken") c.identity.device_token;
      device_secret = first_text (text_field message "deviceSecret") c.identity.device_secret;
    }) in
    sync_sessions (record c' {
      relay_ready_socket = c.relay_socket;
      credential_recovery_attempted = false;
      status = record c.status {
        connected = true;
        device_id = id;
        device_name = first_text (text_field message "deviceName") c.status.device_name;
        pair_code = first_text (text_field message "pairCode") c.status.pair_code;
        pair_code_expires_at =
            first_text (text_field message "pairCodeExpiresAt") c.status.pair_code_expires_at;
      };
    })

unfoldable pub device_credential : Client → Json → Client
unfolding write_identity
device_credential c message =
    let token = or_else (text_field message "deviceToken") "" in
    let id = first_text (text_field message "deviceId") c.identity.device_id in
    if truthy token && truthy_option id
    then record (write_identity c
        (record { device_id = id; device_token = some token; device_secret = none })) {
          status = record c.status { device_id = id; last_error = none };
        }
    else c

-- `this.relaySocket?.close(...)`
unfoldable pub close_current : Client → Option ℕ → Client
unfolding close_socket
close_current c none = c
close_current c (some socket) = close_socket c socket

unfoldable pub device_revoked : Client → Client
unfolding write_identity close_current
device_revoked c =
    let c' = record (write_identity c (without_credential c.identity)) {
      revoked = true;
      status = record c.status {
        connected = false;
        last_error = some "relay device credential revoked; restart after re-enrollment";
      };
    } in
    close_current c' c.relay_socket

-- `requestId && this.pending.has(requestId)`
abbrev pub is_pending : Client → Option String → Bool
is_pending c none = false
is_pending c (some request) = truthy request && has c.pending request

unfoldable pub settle_pair : Client → Option String → PairOutcome → Client
settle_pair c none outcome = c
settle_pair c (some request) outcome = record c {
  pending = delete c.pending request;
  settled = c.settled ++ (request, outcome) ∷ [];
}

unfoldable pub pair_code_fails : Client → Option String → String → Client
unfolding settle_pair
pair_code_fails c request error =
    let c' = settle_pair c request (pairing_failed error) in
    record c' { status = record c'.status { last_error = some (concat "pairing failed: " error) } }

unfoldable pub pair_code_arrives : Client → Json → Option String → Client
unfolding settle_pair
pair_code_arrives c message request =
    let code = or_else (text_field message "pairCode") "" in
    let due = or_else (text_field message "pairCodeExpiresAt") "" in
    let c' = record c {
      status = record c.status { pair_code = some code; pair_code_expires_at = some due };
    } in
    if is_pending c request then settle_pair c' request (paired code due) else c'

unfoldable pub take_pair_code : Client → Json → Option String → Option String → Client
take_pair_code c message request none = pair_code_arrives c message request
take_pair_code c message request (some error) =
    if is_pending c request
    then pair_code_fails c request error
    else pair_code_arrives c message request

unfoldable pub pair_code : Client → Json → Client
unfolding take_pair_code
pair_code c message =
    take_pair_code c message (text_field message "requestId") (text_field message "error")

-- By the type of the message. A `proxy-request` goes to RelayProxy and leaves the client as it is.
unfoldable pub take_typed : Client → Json → String → Client
take_typed c message type =
    if type == "device-ready"
    then device_ready c message
    else if type == "device-credential"
    then device_credential c message
    else if type == "device-owner-bound"
    then sync_sessions c
    else if type == "device-revoked"
    then device_revoked c
    else if type == "pair-code"
    then pair_code c message
    else c

-- `handleRelayMessage`, of a text that parses to `message`, or to nothing.
unfoldable pub take_message : Client → Json → Option String → Client
unfolding take_typed
take_message c message none = c
take_message c message (some type) = take_typed c message type

unfoldable pub handle_relay_message : Client → Option Json → Client
unfolding take_message
handle_relay_message c none = c
handle_relay_message c (some message) = take_message c message (text_field message "type")
