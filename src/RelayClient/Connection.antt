-- ===== src/RelayClient/Connection.antt =====
-- relayClient.ts, the life of a connection: start, connectRelay, the events of the socket, and
-- handleRelayDisconnect.
use Prim.Native.Char.{code}
use code_harbor.Common.{
  Bool, List, Option, String, [], false, if◌then◌else◌, nat_eq, none, not, some, string_eq, true,
  truthy, ℕ, ◌&&◌, ◌++◌, ◌+◌, ◌==◌, ◌||◌, ◌∷◌,
}
use code_harbor.Common.JsMap.{JsSet, get, set}
use code_harbor.RelayClient.Enrollment.{
  Answers, Enrolled, enroll_failed, enrolled, ensure_device_credential, rotated, truthy_option,
}
use code_harbor.RelayClient.State.{
  Client, PairOutcome, close_socket, closed_state, is_usable, open_state, opening, pairing_failed,
  safe_relay_send, schedule_reconnect, set_error, without_credential, write_identity,
}

-- `this.relaySocket === socket`
abbrev pub is_socket : Option ℕ → ℕ → Bool
is_socket none socket = false
is_socket (some current) socket = current == socket

abbrev pub is_current_socket : Client → ℕ → Bool
is_current_socket c socket = is_socket c.relay_socket socket

abbrev pub has_usable : Client → Option ℕ → Bool
has_usable c none = false
has_usable c (some socket) = is_usable (get c.ready socket)

-- `new WebSocket(...)`
unfoldable pub new_socket : Client → Client
new_socket c = record c {
  ready = set c.ready c.next_socket opening;
  next_socket = c.next_socket + 1;
}

-- `connectRelay`, up to the credential.
unfoldable pub connect_relay : Client → Client
connect_relay c =
    if not c.started || c.revoked || c.connecting
    then c
    else if has_usable c c.relay_socket
    then c
    else record c { connecting = true }

-- `connectRelay` behind a credential that is there; `constructs` says whether the socket can be made.
unfoldable pub open_socket : Client → Bool → Client
unfolding new_socket set_error schedule_reconnect
open_socket c constructs =
    if not c.started || c.revoked
    then c
    else if constructs
    then (let c' = new_socket c in record c' { relay_socket = some c.next_socket })
    else schedule_reconnect (set_error c "invalid relay url") 3_000

-- The answer of `ensureDeviceCredential`, for which a client that is connecting waits.
unfoldable pub take_credential_result : Client → Enrolled → Bool → Client
unfolding open_socket set_error schedule_reconnect
take_credential_result c (enroll_failed error) constructs =
    schedule_reconnect (set_error (record c { connecting = false }) error) 10_000
take_credential_result c enrolled constructs =
    open_socket (record c { connecting = false }) constructs
take_credential_result c rotated constructs =
    open_socket (record c { connecting = false }) constructs

unfoldable pub credential_if : (ℕ → String) → Client → Answers → Bool → Bool → Client
unfolding take_credential_result
credential_if show c a constructs false = c
credential_if show c a constructs true =
    let (c', result) = ensure_device_credential show c a in
    take_credential_result c' result constructs

unfoldable pub credential_ready : (ℕ → String) → Client → Answers → Bool → Client
unfolding credential_if
credential_ready show c a constructs = credential_if show c a constructs c.connecting

-- `ensureGatewayEventSocket`
unfoldable pub ensure_gateway_event_socket : Client → Client
unfolding new_socket
ensure_gateway_event_socket c =
    if has_usable c c.gateway_event_socket
    then c
    else (let c' = new_socket c in
        record c' { gateway_event_socket = some c.next_socket; gateway_heartbeat_timer = true })

-- The event `close` of a gateway socket; a retry, 1.5 seconds later, is a step of its own.
unfoldable pub gateway_socket_closes : Client → ℕ → Client
gateway_socket_closes c socket =
    let c' = record c { ready = set c.ready socket closed_state } in
    elim c.gateway_event_socket [
      | none ↦ c'
      | some current ↦
          if current == socket
          then record c' { gateway_heartbeat_timer = false; gateway_event_socket = none }
          else c'
    ]

-- `start`
unfoldable pub start : Client → Client
start c =
    if not (truthy c.config.relay_url) || c.started
    then c
    else if c.config.is_production && not c.config.is_https
    then record c {
      status = record c.status { last_error = some "production relay requires an https URL" };
    }
    else connect_relay (record c { started = true })

-- `code === 1006 && this.identity.deviceToken && !this.credentialRecoveryAttempted`, in a handshake that
-- is incomplete
abbrev pub recovers_credential : Client → ℕ → ℕ → Bool
recovers_credential c socket code =
    elim c.relay_ready_socket [ none ↦ true | some ready ↦ not (ready == socket) ]
    && code == 1006
    && truthy_option c.identity.device_token
    && not c.credential_recovery_attempted

-- What an incomplete handshake leaves in the status and in the identity; `detail` is the message.
unfoldable pub note_handshake : Client → ℕ → ℕ → String → Client
unfolding write_identity
note_handshake c socket code detail =
    if elim c.relay_ready_socket [ none ↦ true | some ready ↦ not (ready == socket) ]
    then (let c' = record c { status = record c.status { last_error = some detail } } in
        if recovers_credential c socket code
        then record (write_identity c' (without_credential c.identity)) {
          credential_recovery_attempted = true;
          status = record c.status { last_error = some "设备凭据已刷新，正在重新认证" };
        }
        else c')
    else c

abbrev pub reject_pending : JsSet String → List (String × PairOutcome)
reject_pending [] = []
reject_pending ((request, there) ∷ m) =
    (request, pairing_failed "relay connection closed") ∷ reject_pending m

abbrev pub close_gateway : Client → Option ℕ → Client
close_gateway c none = c
close_gateway c (some socket) = record (close_socket c socket) { gateway_event_socket = none }

-- What is torn down of the connection that is lost.
unfoldable pub tear_down : Client → Client
tear_down c =
    let c' =
      close_gateway (record c { relay_socket = none; relay_ready_socket = none })
        c.gateway_event_socket in
    record c' { pending = []; settled = c.settled ++ reject_pending c.pending }

-- The socket of the relay is lost.
unfoldable pub lose_connection : Client → ℕ → ℕ → String → Client
unfolding note_handshake tear_down schedule_reconnect
lose_connection c socket code detail =
    let c' = record c {
      relay_heartbeat_timer = false;
      status = record c.status { connected = false };
    } in
    schedule_reconnect (tear_down (note_handshake c' socket code detail))
      (if recovers_credential c socket code then 500 else 3_000)

unfoldable pub lose_if : Client → ℕ → ℕ → String → Bool → Client
unfolding lose_connection
lose_if c socket code detail true = lose_connection c socket code detail
lose_if c socket code detail false = c

-- `handleRelayDisconnect`
unfoldable pub relay_disconnects : Client → ℕ → ℕ → String → Client
unfolding lose_if
relay_disconnects c socket code detail =
    lose_if (record c { ready = set c.ready socket closed_state }) socket code detail
      (is_current_socket c socket)

-- The timer of `scheduleReconnect`
unfoldable pub fire_timer : Client → Option ℕ → Client
unfolding connect_relay
fire_timer c none = c
fire_timer c (some delay) = connect_relay (record c { reconnect_timer = none })

unfoldable pub reconnect_fires : Client → Client
unfolding fire_timer
reconnect_fires c = fire_timer c c.reconnect_timer

-- The event `open` of a socket. `hello` is the text of `deviceHello`.
unfoldable pub socket_opens : Client → ℕ → String → Client
socket_opens c socket hello =
    let c' = record c { ready = set c.ready socket open_state } in
    if is_current_socket c' socket
    then (let c₁ = record c' { status = record c'.status { connected = false } } in
        ensure_gateway_event_socket
          (record (safe_relay_send c₁ socket hello false).0 { relay_heartbeat_timer = true }))
    else c'

-- The event `error` of a socket
unfoldable pub socket_errs : Client → ℕ → String → Client
unfolding set_error
socket_errs c socket error = if is_current_socket c socket then set_error c error else c
