-- ===== src/Api/Auth.antt =====
-- internal/api/auth.go: the methods of `AuthHandler`. What a handler reads of a request is its argument:
-- the decoded body, the address of the client and its user agent. A limiter answers whether it lets the
-- call pass and, if not, the nanoseconds to wait.
pub mod Laws
pub mod Tests
use mkk_luna.Prelude.{
  ℕ, ◌+◌, ◌/◌, ◌==◌, ltb, String, Bool, true, false, Option, none, some, if◌then◌else◌,
}
use mkk_luna.Text.{is_blank, trim_space}
use mkk_luna.Http.{Response, Body, json, failure}
use mkk_luna.World.{
  World, Error, not_found, forbidden, conflict, bad_request, unavailable, invalid_credentials,
  invalid_token, token_reuse, invalid_input, duplicate, external,
}
use mkk_luna.Auth.Config.{Config, TokenPair, Provider}
use mkk_luna.Auth.Tokens.{parse_refresh_token_user_id}
use mkk_luna.Auth.Service as Service
use mkk_luna.Lockout.{Lockout, normalize, is_locked, on_failure, on_success}
use mkk_luna.Api.{Handler, answer, attempt}
use mkk_luna.Api.Helpers.{or_invalid, invalid_request}

-- The key of the limiter of `Refresh` is the user, as the digits that `intToString` writes.
pub record AuthHandler : Type 0 where
  pub provider : Provider
  pub cfg : Config
  pub login_limiter : String → World → (Bool × ℕ) × World
  pub refresh_limiter : ℕ → World → (Bool × ℕ) × World
  pub lockout : Option Lockout

pub record RegisterRequest : Type 0 where
  pub email : String
  pub username : String
  pub password : String

pub record LoginRequest : Type 0 where
  pub login : String
  pub password : String

abbrev pub ceil_seconds : ℕ → ℕ
ceil_seconds d = (d + 999999999) / 1000000000

abbrev pub set_retry_after : ℕ → Response → Response
set_retry_after d r =
    if d == 0
    then r
    else record r { retry_after = some (if ltb (ceil_seconds d) 1 then 1 else ceil_seconds d) }

abbrev pub too_many_requests : ℕ → Response
too_many_requests d = set_retry_after d (failure 429 "too many requests")

-- `if ok, retry := limiter.Allow(...); !ok`.
abbrev pub admit : (Bool × ℕ) × World → Handler → Response × World
admit ((passed, retry), w) next = if passed then next w else (too_many_requests retry, w)

abbrev pub limited : (World → (Bool × ℕ) × World) → Handler → Handler
limited allow next w = admit (allow w) next

-- MySQL's error 1062.
abbrev pub is_duplicate : Error → Bool
is_duplicate duplicate = true
is_duplicate not_found = false
is_duplicate forbidden = false
is_duplicate conflict = false
is_duplicate bad_request = false
is_duplicate unavailable = false
is_duplicate invalid_credentials = false
is_duplicate invalid_token = false
is_duplicate token_reuse = false
is_duplicate invalid_input = false
is_duplicate external = false

abbrev pub refused_registration : Error → Response
refused_registration e = if is_duplicate e then failure 409 "conflict" else invalid_request

unfoldable pub register : AuthHandler → Option RegisterRequest → Handler
register h decoded = or_invalid decoded λ req.
    attempt
      (Service.register h.provider h.cfg (trim_space req.email) (trim_space req.username)
        req.password)
      (λ e. answer (refused_registration e))
      (λ id. answer (record (json 201 (Body.registered id)) { location = some id }))

abbrev pub unless_locked : Option ℕ → Handler → Handler
unless_locked none next = next
unless_locked (some retry) next = answer (too_many_requests retry)

-- The name under which the login goes on. An error of the lock counts as no lock.
unfoldable pub unlocked : Option Lockout → String → (String → Handler) → Handler
unlocked none name next = next name
unlocked (some l) name next = or_invalid (normalize l name) λ normalized.
    attempt (is_locked l normalized) (λ e. next normalized)
      λ left. unless_locked left (next normalized)

abbrev pub is_invalid_credentials : Error → Bool
is_invalid_credentials invalid_credentials = true
is_invalid_credentials not_found = false
is_invalid_credentials forbidden = false
is_invalid_credentials conflict = false
is_invalid_credentials bad_request = false
is_invalid_credentials unavailable = false
is_invalid_credentials invalid_token = false
is_invalid_credentials token_reuse = false
is_invalid_credentials invalid_input = false
is_invalid_credentials duplicate = false
is_invalid_credentials external = false

abbrev pub wrong_credentials : Response
wrong_credentials = failure 401 "invalid credentials"

unfoldable pub failed : Option Lockout → String → Error → Handler
failed none name e = answer wrong_credentials
failed (some l) name e =
    if is_invalid_credentials e
    then attempt (on_failure l name) (λ e'. answer wrong_credentials)
        (λ left. unless_locked left (answer wrong_credentials))
    else answer wrong_credentials

abbrev pub token_response : TokenPair → Response
token_response pair = json 200 (Body.tokens pair.access_token pair.refresh_token)

unfoldable pub succeeded : Option Lockout → String → TokenPair → Handler
succeeded none name pair = answer (token_response pair)
succeeded (some l) name pair =
    attempt (on_success l name) (λ e. answer (token_response pair))
      (λ u. answer (token_response pair))

unfoldable pub login : AuthHandler → String → String → Option LoginRequest → Handler
unfolding unlocked failed succeeded
login h ip user_agent decoded = limited (h.login_limiter ip) (
    or_invalid decoded λ req. unlocked h.lockout (trim_space req.login) λ name.
      attempt (Service.login h.provider h.cfg name req.password ip user_agent)
        (failed h.lockout name) (succeeded h.lockout name))

abbrev pub wrong_token : Response
wrong_token = failure 401 "invalid token"

-- none for an error or a blank token.
abbrev pub requested_token : Option String → Option String
requested_token none = none
requested_token (some token) = if is_blank token then none else some token

unfoldable pub refresh : AuthHandler → String → String → Option String → Handler
refresh h ip user_agent decoded = or_invalid (requested_token decoded) λ token.
    attempt (parse_refresh_token_user_id h.provider h.cfg token) (λ e. answer wrong_token)
      λ user_id. limited (h.refresh_limiter user_id) (
        attempt (Service.refresh h.provider h.cfg token ip user_agent) (λ e. answer wrong_token)
          λ pair. answer (token_response pair))
