-- ===== src/RelayClient/Enrollment.antt =====
-- relayClient.ts, how the device gets its credential: ensureDeviceCredential, enrollDevice and
-- authenticateAccount.
use Prim.Native.Char.{code}
use code_harbor.Common.{
  Bool, Option, String, false, if◌then◌else◌, leb, nat_eq, none, not, or_else, some, string_eq,
  true, truthy, ℕ, ◌&&◌, ◌==◌, ◌||◌,
}
use code_harbor.Common.Json.{Json, text_field}
use code_harbor.Common.Text.{concat}
use code_harbor.RelayClient.State.{Client, Config, Identity, without_credential, write_identity}

-- How a request to the relay ends: it throws, or it gives a status and a body, which is an empty object
-- when the body does not parse to one.
pub data Answer : Type 0 where
  no_answer : String → Answer
  answer_of : ℕ → Json → Answer

abbrev pub is_ok_status : ℕ → Bool
is_ok_status code = leb 200 code && leb code 299

-- `responseError`; `show` writes a number.
unfoldable pub response_error : (ℕ → String) → ℕ → Json → String
response_error show code body = elim (text_field body "error") [
  | some error ↦ concat "relay request failed (" (concat (show code) (concat "): " error))
  | none ↦ concat "relay request failed (" (concat (show code) ")")
]

pub data Login : Type 0 where
  logged_in login_failed : String → Login

-- `authenticateAccount`
unfoldable pub authenticate_account : (ℕ → String) → Config → Answer → Login
unfolding response_error
authenticate_account show config answer =
    if truthy config.account_token
    then logged_in config.account_token
    else if not (truthy config.account_username) || not (truthy config.account_password)
    then login_failed "relay account credentials required"
    else elim answer [
      | no_answer error ↦ login_failed error
      | answer_of code body ↦
          if not (is_ok_status code)
          then login_failed (response_error show code body)
          else (let token = or_else (text_field body "token") "" in
              if truthy token
              then logged_in token
              else login_failed "relay account login returned no token")
    ]

-- What an attempt to enroll ends with.
pub data Enrolled : Type 0 where
  enrolled rotated : Enrolled
  enroll_failed : String → Enrolled

-- `status === 409 && body.error === "device_owned"`
abbrev pub is_owned : ℕ → Json → Bool
is_owned code body =
    code == 409
    && elim (text_field body "error") [ some error ↦ error == "device_owned" | none ↦ false ]

abbrev pub first_text : Option String → Option String → Option String
first_text (some a) other = some a
first_text none other = other

abbrev pub truthy_option : Option String → Bool
truthy_option none = false
truthy_option (some a) = truthy a

-- A device that belongs to another account gets a new identity.
unfoldable pub rotate_identity : Client → String → Client
unfolding write_identity
rotate_identity c fresh =
    let c' =
      write_identity c
        (record { device_id = some fresh; device_token = none; device_secret = none }) in
    record c' { status = record c'.status { device_id = some fresh } }

unfoldable pub take_credential : Client → Json → Client × Enrolled
unfolding write_identity
take_credential c body =
    let token = or_else (text_field body "deviceToken") "" in
    let id = first_text (text_field body "deviceId") c.identity.device_id in
    if not (truthy token) || not (truthy_option id)
    then (c, enroll_failed "relay enrollment returned no device credential")
    else (let c' =
          write_identity c
            (record { device_id = id; device_token = some token; device_secret = none }) in
        (
          record c' {
            status = record c'.status {
              device_id = id;
              device_name = first_text (text_field body "deviceName") (some c.config.device_name);
            };
          },
          enrolled,
        ))

-- One request to enroll, behind the login.
unfoldable pub take_enrollment : (ℕ → String) → Client → Bool → String → Answer → Client × Enrolled
unfolding rotate_identity take_credential response_error
take_enrollment show c allow_rotation fresh (no_answer error) = (c, enroll_failed error)
take_enrollment show c allow_rotation fresh (answer_of code body) =
    if is_ok_status code
    then take_credential c body
    else if allow_rotation && is_owned code body
    then (rotate_identity c fresh, rotated)
    else (c, enroll_failed (response_error show code body))

unfoldable pub enroll_as :
    (ℕ → String) → Client → Bool → String → Answer → Login → Client × Enrolled
unfolding take_enrollment
enroll_as show c allow_rotation fresh answer (login_failed error) = (c, enroll_failed error)
enroll_as show c allow_rotation fresh answer (logged_in token) =
    take_enrollment show c allow_rotation fresh answer

-- A login and a request to enroll.
unfoldable pub enroll_once :
    (ℕ → String) → Client → Bool → String → Answer → Answer → Client × Enrolled
unfolding enroll_as authenticate_account
enroll_once show c allow_rotation fresh login answer =
    enroll_as show c allow_rotation fresh answer (authenticate_account show c.config login)

-- The answers of the requests of an attempt, and of those that a rotation makes again.
pub record Answers : Type 0 where
  pub fresh : String
  pub login : Answer
  pub enroll : Answer
  pub login_again : Answer
  pub enroll_again : Answer

unfoldable pub after_first : (ℕ → String) → Client → Answers → Enrolled → Client × Enrolled
unfolding enroll_once
after_first show c a enrolled = (c, enrolled)
after_first show c a (enroll_failed error) = (c, enroll_failed error)
after_first show c a rotated = enroll_once show c false a.fresh a.login_again a.enroll_again

-- `enrollDevice(true)`: a rotation is followed by one more attempt, which may not rotate.
unfoldable pub enroll_device : (ℕ → String) → Client → Answers → Client × Enrolled
unfolding after_first
enroll_device show c a =
    let (c', first) = enroll_once show c true a.fresh a.login a.enroll in
    after_first show c' a first

abbrev pub has_account : Config → Bool
has_account config =
    truthy config.account_token
    || (truthy config.account_username && truthy config.account_password)

abbrev pub forget_secret : Client → Client
forget_secret c =
    if truthy_option c.identity.device_secret || truthy c.config.server_token
    then record c { identity = without_credential c.identity }
    else c

-- `ensureDeviceCredential`: nothing with a token, and nothing with an old secret when there is no account
-- to move to.
unfoldable pub ensure_device_credential : (ℕ → String) → Client → Answers → Client × Enrolled
unfolding enroll_device
ensure_device_credential show c a =
    if truthy_option c.identity.device_token
    then (c, enrolled)
    else if has_account c.config
    then enroll_device show (forget_secret c) a
    else if truthy_option c.identity.device_secret || truthy c.config.server_token
    then (c, enrolled)
    else (
      c,
      enroll_failed
          "relay account credentials required: set RELAY_ACCOUNT_TOKEN or RELAY_ACCOUNT_USERNAME and RELAY_ACCOUNT_PASSWORD",
    )

-- `deviceHello`: the properties of the message beside its type.
pub data Credential : Type 0 where
  token_credential secret_credential server_credential : String → Credential
  no_credential : Credential

unfoldable pub hello_credential : Config → Identity → Credential
hello_credential config identity =
    if truthy_option identity.device_token
    then token_credential (or_else identity.device_token "")
    else if truthy_option identity.device_secret
    then secret_credential (or_else identity.device_secret "")
    else if truthy config.server_token
    then server_credential config.server_token
    else no_credential
