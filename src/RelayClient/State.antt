-- ===== src/RelayClient/State.antt =====
-- relayClient.ts, the state of the client, the sockets, and the timer of the next attempt. The event
-- `status`, which tells listeners of a change, is left out.
use code_harbor.Common.{
  Bool, List, Option, String, [], false, if◌then◌else◌, is_some, ltb, nat_eq, none, not, or_else,
  some, string_eq, true, ℕ, ◌++◌, ◌+◌, ◌||◌, ◌∷◌,
}
use code_harbor.Common.JsMap.{JsMap, JsSet, get, set}
use code_harbor.Common.Text.{byte_length}

pub data ReadyState : Type 0 where
  opening open_state closing_state closed_state : ReadyState

pub record Identity : Type 0 where
  pub device_id : Option String
  pub device_token : Option String
  pub device_secret : Option String

pub record RelayStatus : Type 0 where
  pub connected : Bool
  pub device_id : Option String
  pub device_name : Option String
  pub pair_code : Option String
  pub pair_code_expires_at : Option String
  pub last_error : Option String

-- The part of `config` that the client reads. A setting that is empty counts as missing;
-- `device_name` is what `deviceName()` gives.
pub record Config : Type 0 where
  pub relay_url : String
  pub is_production : Bool
  pub is_https : Bool
  pub account_token : String
  pub account_username : String
  pub account_password : String
  pub server_token : String
  pub device_name : String
  pub public_origin : String

pub data PairOutcome : Type 0 where
  paired : String → String → PairOutcome
  pairing_failed : String → PairOutcome

-- Sockets are numbered; `ready` holds their `readyState`, and `buffered` their `bufferedAmount`.
pub record Client : Type 0 where
  pub config : Config
  pub relay_socket : Option ℕ
  pub relay_ready_socket : Option ℕ
  pub gateway_event_socket : Option ℕ
  pub ready : JsMap ℕ ReadyState
  pub buffered : JsMap ℕ ℕ
  pub next_socket : ℕ
  pub reconnect_timer : Option ℕ
  pub relay_heartbeat_timer : Bool
  pub gateway_heartbeat_timer : Bool
  pub pending : JsSet String
  pub settled : List (String × PairOutcome)
  pub identity : Identity
  pub identity_file : Identity
  pub started : Bool
  pub connecting : Bool
  pub revoked : Bool
  pub credential_recovery_attempted : Bool
  pub status : RelayStatus
  -- `sessionSyncSocket`, while `sessionSyncPromise` is there.
  pub session_sync : Option ℕ
  pub session_sync_again : Bool
  -- The texts that were sent, each with its socket.
  pub outgoing : List (ℕ × String)

abbrev pub max_relay_buffered_bytes : ℕ
max_relay_buffered_bytes = 33_554_432

abbrev pub is_open : Option ReadyState → Bool
is_open (some open_state) = true
is_open (some opening) = false
is_open (some closing_state) = false
is_open (some closed_state) = false
is_open none = false

-- `readyState === OPEN || readyState === CONNECTING`
abbrev pub is_usable : Option ReadyState → Bool
is_usable (some open_state) = true
is_usable (some opening) = true
is_usable (some closing_state) = false
is_usable (some closed_state) = false
is_usable none = false

-- `socket.close()`, whose event follows later.
unfoldable pub close_socket : Client → ℕ → Client
close_socket c socket = record c { ready = set c.ready socket closing_state }

-- `safeRelaySend`; whether `send` throws is an argument.
unfoldable pub safe_relay_send : Client → ℕ → String → Bool → Client × Bool
unfolding close_socket
safe_relay_send c socket line throws =
    if not (is_open (get c.ready socket))
    then (c, false)
    else if ltb max_relay_buffered_bytes (or_else (get c.buffered socket) 0 + byte_length line)
    then (close_socket c socket, false)
    else if throws
    then (close_socket c socket, false)
    else (record c { outgoing = c.outgoing ++ (socket, line) ∷ [] }, true)

-- `setError`
unfoldable pub set_error : Client → String → Client
set_error c error = record c {
  status = record c.status { connected = false; last_error = some error };
}

-- `scheduleReconnect`
unfoldable pub schedule_reconnect : Client → ℕ → Client
schedule_reconnect c delay =
    if not c.started || c.revoked || is_some c.reconnect_timer
    then c
    else record c { reconnect_timer = some delay }

-- `writeIdentity`, in the place of the assignment to `this.identity` that stands in front of it.
unfoldable pub write_identity : Client → Identity → Client
write_identity c identity = record c { identity = identity; identity_file = identity }

-- `{ deviceId: this.identity.deviceId }`
abbrev pub without_credential : Identity → Identity
without_credential identity = record identity { device_token = none; device_secret = none }
