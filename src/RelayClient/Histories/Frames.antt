-- ===== src/RelayClient/Histories/Frames.antt =====
-- The steps that do not touch what drives the connection.
use code_harbor.Common.{
  Bool, Bool-cases, Option, Option-cases, String, arith, false, inl, inr, is_some, nat_eq, none,
  refl, some, string_eq, true, ℕ, ◌≡◌,
}
use code_harbor.Common.JsMap.{set}
use code_harbor.Common.Json.{Json, text_field}
use code_harbor.RelayClient.Connection.{
  ensure_gateway_event_socket, gateway_socket_closes, socket_errs, socket_opens,
}
use code_harbor.RelayClient.Histories.Driver.{driver}
use code_harbor.RelayClient.Messages.{
  close_current, device_credential, device_ready, device_revoked, follow_up_sync, forget_sync,
  is_pending, pair_code, pair_code_arrives, pair_code_fails, pair_code_times_out, request_pair_code,
  send_pair_request, settle_pair, sync_ends, sync_sessions, sync_sessions_now, sync_socket,
  sync_status, take_pair_code,
}
use code_harbor.RelayClient.State.{Client, PairOutcome, open_state, pairing_failed, safe_relay_send}

pub safe_relay_send-driver :
    (c : Client) (socket : ℕ) (line : String) (fails : Bool)
    → driver (safe_relay_send c socket line fails).0 ≡ driver c
unfolding safe_relay_send
safe_relay_send-driver c socket line fails = ground arith

pub ensure_gateway-driver : (c : Client) → driver (ensure_gateway_event_socket c) ≡ driver c
unfolding ensure_gateway_event_socket
ensure_gateway-driver c = ground arith

pub gateway_socket_closes-driver :
    (c : Client) (socket : ℕ) → driver (gateway_socket_closes c socket) ≡ driver c
unfolding gateway_socket_closes
gateway_socket_closes-driver c socket = elim (Option-cases c.gateway_event_socket) [
  | inl nothing ↦ rw (nothing, gateway_socket_closes) refl
  | inr (current, there) ↦ rw (there, gateway_socket_closes) (ground arith)
]

pub socket_opens-driver :
    (c : Client) (socket : ℕ) (hello : String) → driver (socket_opens c socket hello) ≡ driver c
unfolding socket_opens
socket_opens-driver c socket hello = ground (
  arith,
  ensure_gateway-driver
      (record (safe_relay_send
        (record c {
          ready = set c.ready socket open_state;
          status = record c.status { connected = false };
        })
        socket hello false).0 { relay_heartbeat_timer = true }),
  safe_relay_send-driver
      (record c {
        ready = set c.ready socket open_state;
        status = record c.status { connected = false };
      })
      socket hello false,
)

pub socket_errs-driver :
    (c : Client) (socket : ℕ) (error : String) → driver (socket_errs c socket error) ≡ driver c
unfolding socket_errs
socket_errs-driver c socket error = ground arith

sync_socket-driver : (c : Client) (o : Option ℕ) → driver (sync_socket c o) ≡ driver c
unfolding sync_socket
sync_socket-driver c none = refl
sync_socket-driver c (some socket) = ground arith

pub sync_sessions-driver : (c : Client) → driver (sync_sessions c) ≡ driver c
unfolding sync_sessions
sync_sessions-driver c = sync_socket-driver c c.relay_socket

pub sync_sessions_now-driver : (c : Client) → driver (sync_sessions_now c) ≡ driver c
unfolding sync_sessions_now
sync_sessions_now-driver c = elim (Bool-cases (is_some c.session_sync)) [
  | inl running ↦ rw running refl
  | inr quiet ↦ rw quiet (sync_sessions-driver c)
]

pub follow_up_sync-driver : (c : Client) → driver (follow_up_sync c) ≡ driver c
unfolding follow_up_sync
follow_up_sync-driver c = elim (Bool-cases c.session_sync_again) [
  | inl again ↦ rw again (sync_sessions_now-driver (record c { session_sync_again = false }))
  | inr enough ↦ rw enough refl
]

forget_sync-driver :
    (c : Client) (socket : ℕ) (o : Option ℕ) → driver (forget_sync c socket o) ≡ driver c
unfolding forget_sync
forget_sync-driver c socket none = refl
forget_sync-driver c socket (some current) = ground arith

pub sync_ends-driver :
    (c : Client) (socket : ℕ) (error : Option String) → driver (sync_ends c socket error) ≡ driver c
unfolding sync_ends
sync_ends-driver c socket error =
    forget_sync-driver (record c { status = sync_status c.status error }) socket c.session_sync

send_pair_request-driver :
    (c : Client) (request line : String) (fails : Bool) (o : Option ℕ)
    → driver (send_pair_request c request line fails o) ≡ driver c
unfolding send_pair_request
send_pair_request-driver c request line fails none = refl
send_pair_request-driver c request line fails (some socket) = ground (
  arith,
  safe_relay_send-driver (record c { pending = set c.pending request tt }) socket line fails,
)

pub request_pair_code-driver :
    (c : Client) (request line : String) (fails : Bool)
    → driver (request_pair_code c request line fails) ≡ driver c
unfolding request_pair_code
request_pair_code-driver c request line fails =
    send_pair_request-driver c request line fails c.relay_socket

pub pair_code_times_out-driver :
    (c : Client) (request : String) → driver (pair_code_times_out c request) ≡ driver c
unfolding pair_code_times_out
pair_code_times_out-driver c request = ground arith

pub device_ready-driver : (c : Client) (message : Json) → driver (device_ready c message) ≡ driver c
unfolding device_ready
device_ready-driver c message = sync_socket-driver _ c.relay_socket

pub device_credential-driver :
    (c : Client) (message : Json) → driver (device_credential c message) ≡ driver c
unfolding device_credential
device_credential-driver c message = ground arith

settle_pair-driver :
    (c : Client) (o : Option String) (outcome : PairOutcome)
    → driver (settle_pair c o outcome) ≡ driver c
unfolding settle_pair
settle_pair-driver c none outcome = refl
settle_pair-driver c (some request) outcome = refl

pair_code_arrives-driver :
    (c : Client) (message : Json) (o : Option String)
    → driver (pair_code_arrives c message o) ≡ driver c
unfolding pair_code_arrives
pair_code_arrives-driver c message o = elim (Bool-cases (is_pending c o)) [
  | inl there ↦ rw there (settle_pair-driver _ o _)
  | inr unknown ↦ rw unknown refl
]

pair_code_fails-driver :
    (c : Client) (o : Option String) (error : String)
    → driver (pair_code_fails c o error) ≡ driver c
unfolding pair_code_fails
pair_code_fails-driver c o error = settle_pair-driver c o (pairing_failed error)

take_pair_code-driver :
    (c : Client) (message : Json) (request error : Option String)
    → driver (take_pair_code c message request error) ≡ driver c
unfolding take_pair_code
take_pair_code-driver c message request none = pair_code_arrives-driver c message request
take_pair_code-driver c message request (some error) = elim (Bool-cases (is_pending c request)) [
  | inl there ↦ rw there (pair_code_fails-driver c request error)
  | inr unknown ↦ rw unknown (pair_code_arrives-driver c message request)
]

pub pair_code-driver : (c : Client) (message : Json) → driver (pair_code c message) ≡ driver c
unfolding pair_code
pair_code-driver c message =
    take_pair_code-driver c message (text_field message "requestId") (text_field message "error")

close_current-driver : (c : Client) (o : Option ℕ) → driver (close_current c o) ≡ driver c
unfolding close_current
close_current-driver c none = refl
close_current-driver c (some socket) = refl

pub device_revoked-driver :
    (c : Client) → driver (device_revoked c) ≡ record (driver c) { revoked = true }
unfolding device_revoked
device_revoked-driver c = close_current-driver _ c.relay_socket
