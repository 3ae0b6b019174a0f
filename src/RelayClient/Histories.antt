-- ===== src/RelayClient/Histories.antt =====
-- relayClient.ts, the calls, timers, sockets and messages in any order.
pub mod Driver
pub mod Frames
pub mod Refinement
pub mod Attempts
pub mod Life
use code_harbor.Common.{Bool, List, Option, String, [], ℕ, ◌∷◌}
use code_harbor.Common.Json.{Json}
use code_harbor.RelayClient.Connection.{
  credential_ready, ensure_gateway_event_socket, gateway_socket_closes, reconnect_fires,
  relay_disconnects, socket_errs, socket_opens, start,
}
use code_harbor.RelayClient.Enrollment.{Answers}
use code_harbor.RelayClient.Messages.{
  follow_up_sync, handle_relay_message, pair_code_times_out, request_pair_code, sync_ends,
  sync_sessions_now,
}
use code_harbor.RelayClient.State.{Client}

pub data Step : Type 0 where
  starts : Step
  credential_arrives : Answers → Bool → Step
  opens : ℕ → String → Step
  closes : ℕ → ℕ → String → Step
  errs : ℕ → String → Step
  says : Option Json → Step
  reconnects : Step
  closes_gateway : ℕ → Step
  reopens_gateway : Step
  asks_pair_code : String → String → Bool → Step
  times_out : String → Step
  syncs : Step
  follows_up : Step
  ends_sync : ℕ → Option String → Step

module _ (show : ℕ → String) where
  unfoldable pub step : Client → Step → Client
  step c starts = start c
  step c (credential_arrives given constructs) = credential_ready show c given constructs
  step c (opens socket hello) = socket_opens c socket hello
  step c (closes socket reason detail) = relay_disconnects c socket reason detail
  step c (errs socket error) = socket_errs c socket error
  step c (says message) = handle_relay_message c message
  step c reconnects = reconnect_fires c
  step c (closes_gateway socket) = gateway_socket_closes c socket
  step c reopens_gateway = ensure_gateway_event_socket c
  step c (asks_pair_code request line throws) = request_pair_code c request line throws
  step c (times_out request) = pair_code_times_out c request
  step c syncs = sync_sessions_now c
  step c follows_up = follow_up_sync c
  step c (ends_sync socket error) = sync_ends c socket error

  unfoldable pub run : Client → List Step → Client
  run c [] = c
  run c (st ∷ sts) = run (step c st) sts
