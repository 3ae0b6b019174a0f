-- ===== src/RelayClient/Histories/Attempts.antt =====
-- The client refines the life of a connection: attempts that end, and connections that are lost.
use code_harbor.Common.{
  Bool, Bool-cases, Option, String, ap, arith, false, if◌then◌else◌, inl, inr, nat_eq, none, refl,
  some, string_eq, subst, sym, true, ℕ, ◌∙◌, ◌≡◌,
}
use code_harbor.Common.JsMap.{set}
use code_harbor.RelayClient.Connection.{
  close_gateway, credential_if, credential_ready, is_socket, lose_connection, lose_if,
  note_handshake, open_socket, recovers_credential, relay_disconnects, take_credential_result,
  tear_down,
}
use code_harbor.RelayClient.Enrollment.{
  Answer, Answers, Enrolled, Login, after_first, answer_of, authenticate_account, enroll_as,
  enroll_device, enroll_failed, enroll_once, enrolled, ensure_device_credential, forget_secret,
  has_account, logged_in, login_failed, no_answer, rotated, take_enrollment, truthy_option,
}
use code_harbor.RelayClient.Histories.Driver.{
  Driven, DriverState, Refines, attach, attached, driver, joining, lose, off, retry, same-Refines,
  stay, waiting,
}
use code_harbor.RelayClient.Histories.Refinement.{
  connecting_alone, make, retry-Refines, schedule_reconnect-driver, socket_alone,
}
use code_harbor.RelayClient.State.{
  Client, Identity, close_socket, closed_state, schedule_reconnect, set_error, write_identity,
}

take_enrollment-driver :
    (show : ℕ → String) (c : Client) (allow : Bool) (fresh : String) (a : Answer)
    → driver (take_enrollment show c allow fresh a).0 ≡ driver c
unfolding take_enrollment
take_enrollment-driver show c allow fresh (no_answer error) = refl
take_enrollment-driver show c allow fresh (answer_of status body) = ground arith

enroll_as-driver :
    (show : ℕ → String) (c : Client) (allow : Bool) (fresh : String) (a : Answer) (l : Login)
    → driver (enroll_as show c allow fresh a l).0 ≡ driver c
unfolding enroll_as
enroll_as-driver show c allow fresh a (login_failed error) = refl
enroll_as-driver show c allow fresh a (logged_in token) =
    take_enrollment-driver show c allow fresh a

enroll_once-driver :
    (show : ℕ → String) (c : Client) (allow : Bool) (fresh : String) (login a : Answer)
    → driver (enroll_once show c allow fresh login a).0 ≡ driver c
unfolding enroll_once
enroll_once-driver show c allow fresh login a =
    enroll_as-driver show c allow fresh a (authenticate_account show c.config login)

after_first-driver :
    (show : ℕ → String) (c : Client) (a : Answers) (e : Enrolled)
    → driver (after_first show c a e).0 ≡ driver c
unfolding after_first
after_first-driver show c a enrolled = refl
after_first-driver show c a (enroll_failed error) = refl
after_first-driver show c a rotated =
    enroll_once-driver show c false a.fresh a.login_again a.enroll_again

enroll_device-driver :
    (show : ℕ → String) (c : Client) (a : Answers) → driver (enroll_device show c a).0 ≡ driver c
unfolding enroll_device
enroll_device-driver show c a =
    let (c', first) = enroll_once show c true a.fresh a.login a.enroll in
    after_first-driver show c' a first ∙ enroll_once-driver show c true a.fresh a.login a.enroll

forget_secret-driver : (c : Client) → driver (forget_secret c) ≡ driver c
forget_secret-driver c = ground arith

ensure_device_credential-driver :
    (show : ℕ → String) (c : Client) (a : Answers)
    → driver (ensure_device_credential show c a).0 ≡ driver c
unfolding ensure_device_credential
ensure_device_credential-driver show c a =
    elim (Bool-cases (truthy_option c.identity.device_token)) [
      | inl there ↦ rw there refl
      | inr missing ↦ rw missing (elim (Bool-cases (has_account c.config)) [
        | inl account ↦
            rw account (enroll_device-driver show (forget_secret c) a ∙ forget_secret-driver c)
        | inr stranger ↦ rw stranger (ground arith)
      ])
    ]

-- How an attempt ends.
abbrev ended : DriverState → Bool → ℕ → DriverState
ended x constructs socket =
    if x.revoked
    then record x { connecting = false }
    else if constructs
    then record x { connecting = false; socket = some socket }
    else record x { connecting = false; timer = some 3_000 }

ended-Refines :
    (x : DriverState) (constructs : Bool) (socket : ℕ)
    → x.connecting ≡ true
    → Driven x
    → Refines x (ended x constructs socket)
ended-Refines x constructs socket busy h =
    let (free, calm, begun) = connecting_alone x h busy in
    elim (Bool-cases x.revoked) [
      | inl gone ↦
          make _ _ off off (ground arith) (λ r. ground arith) (ground arith) (ground arith) stay
      | inr still ↦ elim (Bool-cases constructs) [
        | inl made ↦
            make _ _ joining attached (ground arith) (λ r. ground arith) (ground arith)
              (ground arith) attach
        | inr failed ↦
            make _ _ joining waiting (ground arith) (λ r. ground arith) (ground arith)
              (ground arith) retry
      ]
    ]

open_socket-ended :
    (c : Client) (constructs : Bool)
    → c.started ≡ true
    → c.reconnect_timer ≡ none
    → driver (open_socket (record c { connecting = false }) constructs)
      ≡ ended (driver c) constructs c.next_socket
unfolding open_socket
open_socket-ended c constructs begun calm = ground arith

take_result-Refines :
    (c : Client) (e : Enrolled) (constructs : Bool)
    → c.connecting ≡ true
    → Driven (driver c)
    → Refines (driver c) (driver (take_credential_result c e constructs))
unfolding take_credential_result
take_result-Refines c (enroll_failed error) constructs busy h =
    retry-Refines c (set_error (record c { connecting = false }) error) 10_000 busy refl h
take_result-Refines c enrolled constructs busy h =
    let (free, calm, begun) = connecting_alone (driver c) h busy in
    rw (open_socket-ended c constructs begun calm)
      (ended-Refines (driver c) constructs c.next_socket busy h)
take_result-Refines c rotated constructs busy h =
    let (free, calm, begun) = connecting_alone (driver c) h busy in
    rw (open_socket-ended c constructs begun calm)
      (ended-Refines (driver c) constructs c.next_socket busy h)

credential_if-Refines :
    (show : ℕ → String) (c : Client) (a : Answers) (constructs busy : Bool)
    → c.connecting ≡ busy
    → Driven (driver c)
    → Refines (driver c) (driver (credential_if show c a constructs busy))
unfolding credential_if
credential_if-Refines show c a constructs false idle h = same-Refines _ _ refl h
credential_if-Refines show c a constructs true busy h =
    let (c', result) = ensure_device_credential show c a in
    let same = ensure_device_credential-driver show c a in
    subst (λ d. Refines d (driver (take_credential_result c' result constructs))) same
      (take_result-Refines c' result constructs (ap (λ (x : DriverState). x.connecting) same ∙ busy)
        (subst Driven (sym same) h))

pub credential_ready-Refines :
    (show : ℕ → String) (c : Client) (a : Answers) (constructs : Bool)
    → Driven (driver c)
    → Refines (driver c) (driver (credential_ready show c a constructs))
unfolding credential_ready
credential_ready-Refines show c a constructs h =
    credential_if-Refines show c a constructs c.connecting refl h

write_identity-driver :
    (c : Client) (identity : Identity) → driver (write_identity c identity) ≡ driver c
unfolding write_identity
write_identity-driver c identity = refl

note_handshake-driver :
    (c : Client) (socket status : ℕ) (detail : String)
    → driver (note_handshake c socket status detail) ≡ driver c
unfolding note_handshake
note_handshake-driver c socket status detail = ground arith

close_gateway-driver : (c : Client) (o : Option ℕ) → driver (close_gateway c o) ≡ driver c
unfolding close_socket
close_gateway-driver c none = refl
close_gateway-driver c (some socket) = refl

tear_down-driver : (c : Client) → driver (tear_down c) ≡ record (driver c) { socket = none }
unfolding tear_down
tear_down-driver c =
    close_gateway-driver (record c { relay_socket = none; relay_ready_socket = none })
      c.gateway_event_socket

-- A connection that is lost.
lost-Refines :
    (c d : Client) (socket delay : ℕ)
    → c.relay_socket ≡ some socket
    → driver d ≡ record (driver c) { socket = none }
    → Driven (driver c)
    → Refines (driver c) (driver (schedule_reconnect d delay))
lost-Refines c d socket delay there same h =
    let (idle, calm, begun) = socket_alone (driver c) socket h there in
    rw (schedule_reconnect-driver d delay (ap (λ (x : DriverState). x.timer) same ∙ calm), same)
      (elim (Bool-cases c.revoked) [
        | inl gone ↦
            make _ _ off off (ground arith) (λ r. ground arith) (ground arith) (ground arith) stay
        | inr still ↦
            make _ _ attached waiting (ground arith) (λ r. ground arith) (ground arith)
              (ground arith) lose
      ])

current_socket : (o : Option ℕ) (socket : ℕ) → is_socket o socket ≡ true → o ≡ some socket
current_socket none socket h = cc
current_socket (some current) socket h = ap some ((nat_eq.beq_iff current socket).0 h)

lose_if-Refines :
    (c : Client) (socket status : ℕ) (detail : String) (lost : Bool)
    → is_socket c.relay_socket socket ≡ lost
    → Driven (driver c)
    → Refines (driver c) (driver (lose_if c socket status detail lost))
unfolding lose_if lose_connection
lose_if-Refines c socket status detail false e h = same-Refines _ _ refl h
lose_if-Refines c socket status detail true e h =
    let c' = record c {
      relay_heartbeat_timer = false;
      status = record c.status { connected = false };
    } in
    let noted = note_handshake c' socket status detail in
    lost-Refines c (tear_down noted) socket
      (if recovers_credential c socket status then 500 else 3_000)
      (current_socket c.relay_socket socket e)
      (tear_down-driver noted
        ∙ ap (λ (x : DriverState). record x { socket = none })
            (note_handshake-driver c' socket status detail))
      h

pub relay_disconnects-Refines :
    (c : Client) (socket status : ℕ) (detail : String)
    → Driven (driver c)
    → Refines (driver c) (driver (relay_disconnects c socket status detail))
unfolding relay_disconnects
relay_disconnects-Refines c socket status detail h =
    lose_if-Refines (record c { ready = set c.ready socket closed_state }) socket status detail
      (is_socket c.relay_socket socket) refl h
