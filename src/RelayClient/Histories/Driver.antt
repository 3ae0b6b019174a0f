-- ===== src/RelayClient/Histories/Driver.antt =====
-- Who drives the connection: an attempt, a socket, or the timer of the next attempt.
use code_harbor.Common.{
  Bool, Option, false, if◌then◌else◌, inl, is_some, none, refl, some, true, ℕ, ◌+◌, ◌≡◌, ◌≤◌, ◌⊎◌,
}
use code_harbor.RelayClient.State.{Client}

pub record DriverState : Type 0 where
  pub started : Bool
  pub revoked : Bool
  pub connecting : Bool
  pub socket : Option ℕ
  pub timer : Option ℕ

abbrev pub driver : Client → DriverState
driver c = record {
  started = c.started;
  revoked = c.revoked;
  connecting = c.connecting;
  socket = c.relay_socket;
  timer = c.reconnect_timer;
}

abbrev pub flag : Bool → ℕ
flag true = 1
flag false = 0

-- How many drive the connection.
abbrev pub drivers : DriverState → ℕ
drivers d = flag d.connecting + flag (is_some d.socket) + flag (is_some d.timer)

-- One of them at most; one, as long as the client is started and not revoked; none before the start.
pub record Driven (d : DriverState) : Type 0 where
  pub one : drivers d ≤ 1
  pub alive : d.started ≡ true → d.revoked ≡ false → drivers d ≡ 1
  pub idle : d.started ≡ false → drivers d ≡ 0

-- The life of the connection, seen from outside.
pub data Phase : Type 0 where
  unstarted waiting joining attached off : Phase

abbrev pub started_phase : Bool → Option ℕ → Phase
started_phase true socket = joining
started_phase false (some socket) = attached
started_phase false none = waiting

abbrev pub phase : DriverState → Phase
phase d =
    if d.revoked then off else if d.started then started_phase d.connecting d.socket else unstarted

infix 40 ◌⟶◌
pub data ◌⟶◌ : Phase → Phase → Type 0 where
  stay : {p : Phase} → p ⟶ p
  launch : unstarted ⟶ joining
  fire : waiting ⟶ joining
  attach : joining ⟶ attached
  retry : joining ⟶ waiting
  lose : attached ⟶ waiting
  revoke : {p : Phase} → p ⟶ off

-- A step keeps one driver, and follows an edge of the life of the connection. A client that is revoked
-- stays so, and gets no other socket.
pub record Refines (d e : DriverState) : Type 0 where
  pub driven : Driven e
  pub edge : phase d ⟶ phase e
  pub quiet : d.revoked ≡ true → (e.revoked ≡ true) × ((e.socket ≡ d.socket) ⊎ (e.socket ≡ none))

pub same-Refines : (d e : DriverState) → e ≡ d → Driven d → Refines d e
same-Refines d e same h =
    rw same (record { driven = h; edge = stay; quiet = λ gone. (gone, inl refl) })
