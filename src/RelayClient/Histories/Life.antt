-- ===== src/RelayClient/Histories/Life.antt =====
-- The client refines the life of a connection, in every history.
use code_harbor.Common.{
  Bool-cases, List, Option, String, [], arith, inl, inr, nat_eq, none, refl, some, string_eq, true,
  ℕ, ◌==◌, ◌∷◌, ◌≡◌, ◌⊎◌,
}
use code_harbor.Common.Json.{Json, text_field}
use code_harbor.RelayClient.Connection.{reconnect_fires}
use code_harbor.RelayClient.Histories.{
  Step, asks_pair_code, closes, closes_gateway, credential_arrives, ends_sync, errs, follows_up,
  opens, reconnects, reopens_gateway, run, says, starts, step, syncs, times_out,
}
use code_harbor.RelayClient.Histories.Attempts.{credential_ready-Refines, relay_disconnects-Refines}
use code_harbor.RelayClient.Histories.Driver.{
  Driven, Refines, driver, phase, revoke, same-Refines, ◌⟶◌,
}
use code_harbor.RelayClient.Histories.Frames.{
  device_credential-driver, device_ready-driver, device_revoked-driver, ensure_gateway-driver,
  follow_up_sync-driver, gateway_socket_closes-driver, pair_code-driver, pair_code_times_out-driver,
  request_pair_code-driver, socket_errs-driver, socket_opens-driver, sync_ends-driver,
  sync_sessions-driver, sync_sessions_now-driver,
}
use code_harbor.RelayClient.Histories.Refinement.{fire_timer-Refines, start-Refines}
use code_harbor.RelayClient.Messages.{
  device_revoked, handle_relay_message, take_message, take_typed,
}
use code_harbor.RelayClient.State.{Client}

device_revoked-Refines :
    (c : Client) → Driven (driver c) → Refines (driver c) (driver (device_revoked c))
device_revoked-Refines c h =
    rw (device_revoked-driver c)
      (record { driven = ground arith; edge = revoke; quiet = λ gone. (refl, inl refl) })

take_typed-Refines :
    (c : Client) (message : Json) (type : String)
    → Driven (driver c)
    → Refines (driver c) (driver (take_typed c message type))
unfolding take_typed
take_typed-Refines c message type h = elim (Bool-cases (type == "device-ready")) [
  | inl is ↦ rw is (same-Refines _ _ (device_ready-driver c message) h)
  | inr no₁ ↦ rw no₁ (elim (Bool-cases (type == "device-credential")) [
    | inl is ↦ rw is (same-Refines _ _ (device_credential-driver c message) h)
    | inr no₂ ↦ rw no₂ (elim (Bool-cases (type == "device-owner-bound")) [
      | inl is ↦ rw is (same-Refines _ _ (sync_sessions-driver c) h)
      | inr no₃ ↦ rw no₃ (elim (Bool-cases (type == "device-revoked")) [
        | inl is ↦ rw is (device_revoked-Refines c h)
        | inr no₄ ↦ rw no₄ (elim (Bool-cases (type == "pair-code")) [
          | inl is ↦ rw is (same-Refines _ _ (pair_code-driver c message) h)
          | inr no₅ ↦ rw no₅ (same-Refines _ _ refl h)
        ])
      ])
    ])
  ])
]

take_message-Refines :
    (c : Client) (message : Json) (o : Option String)
    → Driven (driver c)
    → Refines (driver c) (driver (take_message c message o))
unfolding take_message
take_message-Refines c message none h = same-Refines _ _ refl h
take_message-Refines c message (some type) h = take_typed-Refines c message type h

handle_relay_message-Refines :
    (c : Client) (o : Option Json)
    → Driven (driver c)
    → Refines (driver c) (driver (handle_relay_message c o))
unfolding handle_relay_message
handle_relay_message-Refines c none h = same-Refines _ _ refl h
handle_relay_message-Refines c (some message) h =
    take_message-Refines c message (text_field message "type") h

module _ (show : ℕ → String) where
  step-Refines :
      (c : Client) (st : Step) → Driven (driver c) → Refines (driver c) (driver (step show c st))
  unfolding step reconnect_fires
  step-Refines c starts h = start-Refines c h
  step-Refines c (credential_arrives given constructs) h =
      credential_ready-Refines show c given constructs h
  step-Refines c (opens socket hello) h = same-Refines _ _ (socket_opens-driver c socket hello) h
  step-Refines c (closes socket reason detail) h =
      relay_disconnects-Refines c socket reason detail h
  step-Refines c (errs socket error) h = same-Refines _ _ (socket_errs-driver c socket error) h
  step-Refines c (says message) h = handle_relay_message-Refines c message h
  step-Refines c reconnects h = fire_timer-Refines c c.reconnect_timer refl h
  step-Refines c (closes_gateway socket) h =
      same-Refines _ _ (gateway_socket_closes-driver c socket) h
  step-Refines c reopens_gateway h = same-Refines _ _ (ensure_gateway-driver c) h
  step-Refines c (asks_pair_code request line fails) h =
      same-Refines _ _ (request_pair_code-driver c request line fails) h
  step-Refines c (times_out request) h = same-Refines _ _ (pair_code_times_out-driver c request) h
  step-Refines c syncs h = same-Refines _ _ (sync_sessions_now-driver c) h
  step-Refines c follows_up h = same-Refines _ _ (follow_up_sync-driver c) h
  step-Refines c (ends_sync socket error) h = same-Refines _ _ (sync_ends-driver c socket error) h

  -- What holds all along a history: the client is driven as it should be before each step and at the
  -- end, and each step follows one edge of the life of a connection, or stays.
  abbrev pub Lives : Client → List Step → Type 0
  Lives c [] = Driven (driver c)
  Lives c (st ∷ sts) =
      Driven (driver c)
      × (phase (driver c) ⟶ phase (driver (step show c st)))
      × Lives (step show c st) sts

  -- In every history the client lives the life of a connection: each single step leaves it where it
  -- stands or takes it along one edge, from `unstarted` to `joining`, from there to `attached` or to
  -- `waiting`, from `attached` to `waiting`, from `waiting` to `joining`, and to `off` when it is
  -- revoked, and along no other. So it never joins again without having waited. And before each step
  -- and at the end one of the three drives it (an attempt, a socket, or the timer of the next attempt):
  -- never two at a time, none before the start, and always one while it is started and not revoked, so
  -- it never stops trying. This is for histories in which the identity file can be written whenever the
  -- client writes it.
  pub run-refines_life : (c : Client) (sts : List Step) → Driven (driver c) → Lives c sts
  run-refines_life c [] h = h
  run-refines_life c (st ∷ sts) h =
      let one = step-Refines c st h in
      (h, one.edge, run-refines_life (step show c st) sts one.driven)

  -- Once the relay has revoked the device, the client is revoked in every further history, also when it
  -- is told again that it is ready, and it never opens another connection: its socket is the one that it
  -- had, or none.
  pub run-stays_revoked :
      (c : Client) (sts : List Step)
      → Driven (driver c)
      → c.revoked ≡ true
      → ((run show c sts).revoked ≡ true)
        × (((run show c sts).relay_socket ≡ c.relay_socket)
            ⊎ ((run show c sts).relay_socket ≡ none))
  unfolding run
  run-stays_revoked c [] h gone = (gone, inl refl)
  run-stays_revoked c (st ∷ sts) h gone =
      let one = step-Refines c st h in
      let (still, socket) = one.quiet gone in
      let (after, rest) = run-stays_revoked (step show c st) sts one.driven still in
      (after, ground (arith, socket, rest))
