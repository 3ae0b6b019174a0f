-- ===== src/RelayClient/Histories/Refinement.antt =====
-- The client refines the life of a connection.
use code_harbor.Common.{
  Bool-cases, Option, ap, arith, false, if◌then◌else◌, inl, inr, nat_eq, none, not, refl, some,
  string_eq, true, truthy, ℕ, ◌&&◌, ◌||◌, ◌∙◌, ◌≡◌, ◌⊎◌,
}
use code_harbor.RelayClient.Connection.{connect_relay, fire_timer, start}
use code_harbor.RelayClient.Histories.Driver.{
  Driven, DriverState, Phase, Refines, launch, driver, fire, joining, off, phase, retry,
  same-Refines, stay, unstarted, waiting, ◌⟶◌,
}
use code_harbor.RelayClient.State.{Client, schedule_reconnect}

-- A state with these values, and the phases of both.
pub make :
    (d e : DriverState) (p q : Phase)
    → Driven e
    → (d.revoked ≡ true → (e.revoked ≡ true) × ((e.socket ≡ d.socket) ⊎ (e.socket ≡ none)))
    → phase d ≡ p
    → phase e ≡ q
    → p ⟶ q
    → Refines d e
make d e p q driven quiet from to edge = record {
  driven = driven;
  edge = rw (from, to) edge;
  quiet = quiet;
}

timer_alone :
    (d : DriverState) (delay : ℕ)
    → Driven d
    → d.timer ≡ some delay
    → (d.connecting ≡ false) × (d.socket ≡ none) × (d.started ≡ true)
timer_alone d delay h e = (ground arith, ground arith, ground arith)

nothing_yet :
    (d : DriverState)
    → Driven d
    → d.started ≡ false
    → (d.connecting ≡ false) × (d.socket ≡ none) × (d.timer ≡ none)
nothing_yet d h e = (ground arith, ground arith, ground arith)

pub connecting_alone :
    (d : DriverState)
    → Driven d
    → d.connecting ≡ true
    → (d.socket ≡ none) × (d.timer ≡ none) × (d.started ≡ true)
connecting_alone d h e = (ground arith, ground arith, ground arith)

pub socket_alone :
    (d : DriverState) (socket : ℕ)
    → Driven d
    → d.socket ≡ some socket
    → (d.connecting ≡ false) × (d.timer ≡ none) × (d.started ≡ true)
socket_alone d socket h e = (ground arith, ground arith, ground arith)

connect_relay-driver :
    (c : Client)
    → c.connecting ≡ false
    → c.relay_socket ≡ none
    → driver (connect_relay c)
      ≡ (if c.started && not c.revoked then record (driver c) { connecting = true } else driver c)
unfolding connect_relay
connect_relay-driver c idle free = ground arith

pub schedule_reconnect-driver :
    (c : Client) (delay : ℕ)
    → c.reconnect_timer ≡ none
    → driver (schedule_reconnect c delay)
      ≡ (if c.started && not c.revoked then record (driver c) { timer = some delay } else driver c)
unfolding schedule_reconnect
schedule_reconnect-driver c delay free = ground arith

begin-Refines :
    (c : Client)
    → c.started ≡ false
    → Driven (driver c)
    → Refines (driver c) (driver (connect_relay (record c { started = true })))
begin-Refines c fresh h =
    let (idle, free, calm) = nothing_yet (driver c) h fresh in
    rw (connect_relay-driver (record c { started = true }) idle free) (elim (Bool-cases c.revoked) [
      | inl gone ↦
          make _ _ off off (ground arith) (λ r. ground arith) (ground arith) (ground arith) stay
      | inr still ↦
          make _ _ unstarted joining (ground arith) (λ r. ground arith) (ground arith)
            (ground arith) launch
    ])

pub start-Refines : (c : Client) → Driven (driver c) → Refines (driver c) (driver (start c))
unfolding start
start-Refines c h = elim (Bool-cases (not (truthy c.config.relay_url) || c.started)) [
  | inl already ↦ rw already (same-Refines _ _ refl h)
  | inr fresh ↦ rw fresh (elim (Bool-cases (c.config.is_production && not c.config.is_https)) [
    | inl unsafe ↦ rw unsafe (same-Refines _ _ refl h)
    | inr safe ↦ rw safe (begin-Refines c (ground arith) h)
  ])
]

pub fire_timer-Refines :
    (c : Client) (o : Option ℕ)
    → c.reconnect_timer ≡ o
    → Driven (driver c)
    → Refines (driver c) (driver (fire_timer c o))
unfolding fire_timer
fire_timer-Refines c none e h = same-Refines _ _ refl h
fire_timer-Refines c (some delay) e h =
    let (idle, free, begun) = timer_alone (driver c) delay h e in
    rw (connect_relay-driver (record c { reconnect_timer = none }) idle free)
      (elim (Bool-cases c.revoked) [
        | inl gone ↦
            make _ _ off off (ground arith) (λ r. ground arith) (ground arith) (ground arith) stay
        | inr still ↦
            make _ _ waiting joining (ground arith) (λ r. ground arith) (ground arith)
              (ground arith) fire
      ])

-- An attempt that fails arms the timer, if it still may.
pub retry-Refines :
    (c d : Client) (delay : ℕ)
    → c.connecting ≡ true
    → driver d ≡ record (driver c) { connecting = false }
    → Driven (driver c)
    → Refines (driver c) (driver (schedule_reconnect d delay))
retry-Refines c d delay busy same h =
    let (free, calm, begun) = connecting_alone (driver c) h busy in
    rw (schedule_reconnect-driver d delay (ap (λ (x : DriverState). x.timer) same ∙ calm), same)
      (elim (Bool-cases c.revoked) [
        | inl gone ↦
            make _ _ off off (ground arith) (λ r. ground arith) (ground arith) (ground arith) stay
        | inr still ↦
            make _ _ joining waiting (ground arith) (λ r. ground arith) (ground arith)
              (ground arith) retry
      ])
